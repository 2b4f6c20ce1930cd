-- ===== src/Redact/Clean.antt =====
-- What a redacted value shows.
use mathlib.Core.Path.{ap₂}
use kratos_core.Prelude.{String, ◌≡◌, refl, sym, ap, Bool, true, false, if◌then◌else◌}
use kratos_core.Prelude.Text.{lower}
use kratos_core.Redact.{
  Json, null, bool, number, string, array, object, Items, no_items, item, Members, no_members,
  member, log_redacted_value, is_sensitive_log_key, is_sensitive_log_string, redacted_string,
  redact_inside, redact_items, redact_members, redact_log_value, normalize_sensitive_log_key,
}

-- What stands under a key: the replacement if the key is sensitive, and else what `P` says.
abbrev Under : Bool → Json → Type 0 → Type 0
Under true v P = v ≡ string log_redacted_value
Under false v P = P

-- Nothing sensitive shows: a member with a sensitive key has the replacement, and no text at any
-- other place is sensitive.
unfoldable mutual
  pub IsClean : Json → Type 0
  IsClean (object ms) = CleanMembers ms
  IsClean (array xs) = CleanItems xs
  IsClean (string s) = is_sensitive_log_string s ≡ false
  IsClean _ = Unit

  pub CleanItems : Items → Type 0
  CleanItems no_items = Unit
  CleanItems (item x rest) = IsClean x × CleanItems rest

  pub CleanMembers : Members → Type 0
  CleanMembers no_members = Unit
  CleanMembers (member k v rest) = Under (is_sensitive_log_key k) v (IsClean v) × CleanMembers rest

-- The replacement is not sensitive itself, nor is the empty key of the root and of items.
replacement_plain : is_sensitive_log_string log_redacted_value ≡ false
unfolding is_sensitive_log_string lower
replacement_plain = refl

root_plain : is_sensitive_log_key "" ≡ false
unfolding is_sensitive_log_key normalize_sensitive_log_key
root_plain = refl

redacted_string-IsClean :
    (s : String) (b : Bool) → is_sensitive_log_string s ≡ b → IsClean (redacted_string b s)
unfolding IsClean
redacted_string-IsClean s true h = replacement_plain
redacted_string-IsClean s false h = h

Under-redacted :
    (b : Bool) (v : Json)
    → IsClean v
    → Under b
        (if b then string log_redacted_value else v)
        (IsClean (if b then string log_redacted_value else v))
Under-redacted true v h = refl
Under-redacted false v h = h

mutual
  unfolding redact_inside IsClean CleanItems CleanMembers

  inside-IsClean : (v : Json) → IsClean (redact_inside v)
  inside-IsClean (object ms) = members-CleanMembers ms
  inside-IsClean (array xs) = items-CleanItems xs
  inside-IsClean (string s) = redacted_string-IsClean s (is_sensitive_log_string s) refl
  inside-IsClean null = tt
  inside-IsClean (bool b) = tt
  inside-IsClean (number n) = tt

  items-CleanItems : (xs : Items) → CleanItems (redact_items xs)
  items-CleanItems no_items = tt
  items-CleanItems (item x rest) = (inside-IsClean x, items-CleanItems rest)

  members-CleanMembers : (ms : Members) → CleanMembers (redact_members ms)
  members-CleanMembers no_members = tt
  members-CleanMembers (member k v rest) = (
    Under-redacted (is_sensitive_log_key k) (redact_inside v) (inside-IsClean v),
    members-CleanMembers rest,
  )

string_kept :
    (s : String) (b : Bool)
    → is_sensitive_log_string s ≡ b
    → b ≡ false
    → redacted_string b s ≡ string s
string_kept s true h e = absurd cc
string_kept s false h e = refl

under_kept :
    (b : Bool) (v : Json) (P : Type 0)
    → Under b v P
    → (P → redact_inside v ≡ v)
    → (if b then string log_redacted_value else redact_inside v) ≡ v
under_kept true v P u f = sym u
under_kept false v P u f = f u

-- A value that is clean is left as it is.
mutual
  unfolding redact_inside IsClean CleanItems CleanMembers

  kept : (v : Json) → IsClean v → redact_inside v ≡ v
  kept (object ms) h = ap object (kept_members ms h)
  kept (array xs) h = ap array (kept_items xs h)
  kept (string s) h = string_kept s (is_sensitive_log_string s) refl h
  kept null h = refl
  kept (bool b) h = refl
  kept (number n) h = refl

  kept_items : (xs : Items) → CleanItems xs → redact_items xs ≡ xs
  kept_items no_items h = refl
  kept_items (item x rest) (a, b) = ap₂ item (kept x a) (kept_items rest b)

  kept_members : (ms : Members) → CleanMembers ms → redact_members ms ≡ ms
  kept_members no_members h = refl
  kept_members (member k v rest) (a, b) =
      ap₂ (member k) (under_kept (is_sensitive_log_key k) v (IsClean v) a (kept v))
        (kept_members rest b)

-- Whatever the value, nothing sensitive shows in what is logged, and redacting it again changes
-- nothing.
pub redact_log_value-IsClean :
    (v : Json)
    → IsClean (redact_log_value "" v)
      × (redact_log_value "" (redact_log_value "" v) ≡ redact_log_value "" v)
unfolding redact_log_value
redact_log_value-IsClean v =
    rw root_plain (inside-IsClean v, kept (redact_inside v) (inside-IsClean v))
