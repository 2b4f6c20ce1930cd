-- ===== src/Redact.antt =====
-- server/middleware/logging/redact.go: what the access log hides. A JSON value is a tree, and a
-- number is kept as its text. Letters are compared by their ASCII case.
pub mod Clean
mod Tests
use kratos_core.Prelude.{
  ℕ, String, Bool, true, false, ◌&&◌, ◌||◌, List, [], ◌∷◌, ◌++◌, nat_beq, if◌then◌else◌,
}
use kratos_core.Prelude.Text.{codes, lower}

mutual
  pub data Json : Type 0 where
    null : Json
    bool : Bool → Json
    number string : String → Json
    array : Items → Json
    object : Members → Json

  pub data Items : Type 0 where
    no_items : Items
    item : Json → Items → Items

  pub data Members : Type 0 where
    no_members : Members
    member : String → Json → Members → Members

abbrev pub log_redacted_value : String
log_redacted_value = "***REDACTED***"

-- The tests of `strings` that are used, on code points.
starts : List ℕ → List ℕ → Bool
starts s [] = true
starts [] (d ∷ t) = false
starts (c ∷ s) (d ∷ t) = nat_beq c d && starts s t

same : List ℕ → List ℕ → Bool
same [] [] = true
same (c ∷ s) (d ∷ t) = nat_beq c d && same s t
same _ _ = false

ends : List ℕ → List ℕ → Bool
unfolding same
ends [] t = same [] t
ends (c ∷ s) t = same (c ∷ s) t || ends s t

holds : List ℕ → List ℕ → Bool
unfolding starts
holds [] t = starts [] t
holds (c ∷ s) t = starts (c ∷ s) t || holds s t

lower_all : List ℕ → List ℕ
lower_all [] = []
lower_all (c ∷ s) = lower c ∷ lower_all s

drop_separators : List ℕ → List ℕ
drop_separators [] = []
drop_separators (c ∷ s) =
    let rest = drop_separators s in
    if nat_beq c b'-' || nat_beq c b'_' || nat_beq c b'.' || nat_beq c 32 then rest else c ∷ rest

any_of : (List ℕ → List ℕ → Bool) → List ℕ → List String → Bool
unfolding codes
any_of test s [] = false
any_of test s (t ∷ rest) = test s (codes t) || any_of test s rest

abbrev pub sensitive_log_keys : List String
sensitive_log_keys =
    "authorization" ∷ "proxyauthorization" ∷ "cookie" ∷ "setcookie" ∷ "password" ∷ "passwd" ∷ "pwd"
    ∷ "secret" ∷ "apikey" ∷ "privatekey" ∷ "accesskey" ∷ "datastore" ∷ "cachestore" ∷ "dsn"
    ∷ "connectionstring" ∷ "code" ∷ "recoverycode" ∷ "captchacode" ∷ "webauthnresponsejson"
    ∷ "webauthnoptionsjson" ∷ "challengeid" ∷ "setupticket" ∷ "oldpwd" ∷ "newpwd" ∷ "clientsecret"
    ∷ "cryptokey" ∷ "encryptedkey" ∷ "ciphertext" ∷ "otpauthuri" ∷ []

abbrev pub sensitive_suffixes : List String
sensitive_suffixes =
    "password" ∷ "passwd" ∷ "secret" ∷ "apikey" ∷ "privatekey" ∷ "accesskey" ∷ "token" ∷ []

unfoldable pub normalize_sensitive_log_key : String → List ℕ
unfolding lower_all drop_separators codes
normalize_sensitive_log_key key = lower_all (drop_separators (codes key))

-- An empty key is none of the keys and has none of the endings.
unfoldable pub is_sensitive_log_key : String → Bool
unfolding any_of ends same normalize_sensitive_log_key
is_sensitive_log_key key =
    let k = normalize_sensitive_log_key key in
    any_of same k sensitive_log_keys || any_of ends k sensitive_suffixes

unfoldable pub is_sensitive_log_string : String → Bool
unfolding any_of starts holds lower_all codes
is_sensitive_log_string value =
    let v = lower_all (codes value) in
    any_of starts v ("bearer " ∷ "basic " ∷ "sk-" ∷ [])
    || any_of holds v ("mysql://" ∷ "postgres://" ∷ "@tcp(" ∷ [])

abbrev pub redacted_string : Bool → String → Json
redacted_string true s = string log_redacted_value
redacted_string false s = string s

-- `redactLogValue`: the value under a key that is not sensitive, and under any key.
unfoldable mutual
  pub redact_inside : Json → Json
  redact_inside (object ms) = object (redact_members ms)
  redact_inside (array xs) = array (redact_items xs)
  redact_inside (string s) = redacted_string (is_sensitive_log_string s) s
  redact_inside null = null
  redact_inside (bool b) = bool b
  redact_inside (number n) = number n

  pub redact_items : Items → Items
  redact_items no_items = no_items
  redact_items (item x rest) = item (redact_inside x) (redact_items rest)

  pub redact_members : Members → Members
  redact_members no_members = no_members
  redact_members (member k v rest) =
      let inside = redact_inside v in
      member k (if is_sensitive_log_key k then string log_redacted_value else inside)
        (redact_members rest)

unfoldable pub redact_log_value : String → Json → Json
redact_log_value key v =
    if is_sensitive_log_key key then string log_redacted_value else redact_inside v

-- `redactLogHeaderMap`
unfoldable pub redact_log_header_map : List (String × String) → List (String × String)
redact_log_header_map [] = []
redact_log_header_map ((k, v) ∷ rest) =
    (k, if is_sensitive_log_key k || is_sensitive_log_string v then log_redacted_value else v)
    ∷ redact_log_header_map rest
