-- ===== src/Client/Retry.antt =====
-- client/middleware/retry/retry.go: which outgoing calls are made again. The retrier is another
-- library's; it is given the attempt and the state, which holds the error of the last one.
pub mod Attempts
use kratos_core.Prelude.{
  ℕ, String, Bool, true, false, not, ◌||◌, Option, none, some, List, [], ◌∷◌, nat_beq,
  if◌then◌else◌,
}
use Prim.Native.String.{◌++◌ as str_append}
use Prim.Native.Char.{code}
use kratos_core.Prelude.Eq.{string_eq, nat_eq, contains}
use kratos_core.Prelude.Error.{Error}
use kratos_core.Prelude.Text.{has_prefix}

-- The parts of the interceptor's configuration that its options set.
pub record Options : Type 0 where
  pub idempotent_prefixes : List String
  pub retry_codes : List ℕ
  pub skip_methods : List String

-- `defaultIdempotentPrefixes` and `defaultRetryCodes`: 14 is `codes.Unavailable`.
unfoldable pub default_options : Options
default_options = record {
  idempotent_prefixes = "Get" ∷ "List" ∷ "Search" ∷ [];
  retry_codes = 14 ∷ [];
  skip_methods = [];
}

-- The text after the last slash, or all of it.
unfoldable pub after_last_slash : String → String → String
after_last_slash read String.[] = read
after_last_slash read (String.◌∷◌ c s) =
    after_last_slash (if nat_beq (code c) b'/' then s else read) s

unfoldable pub any_prefix : String → List String → Bool
any_prefix method [] = false
any_prefix method (p ∷ rest) = has_prefix method p || any_prefix method rest

-- `isIdempotent`
unfoldable pub is_idempotent : String → List String → Bool
unfolding after_last_slash any_prefix
is_idempotent full_method prefixes = any_prefix (after_last_slash full_method full_method) prefixes

abbrev pub Invoker : Type 0 → Type 0
Invoker W = W → Option Error × W

-- The variable `lastErr` beside the state of the invoker.
abbrev pub Attempted : Type 0 → Type 0
Attempted W = Option Error × W

-- `Retrier.Do`
abbrev pub Do : Type 0 → Type 0
Do W = (Attempted W → Option Error × Attempted W) → Attempted W → Option Error × Attempted W

abbrev pub last_error {ℓ} : {W : Type ℓ} → Option Error × (Option Error × W) → Option Error × W
last_error (retry_err, (none, w)) = (retry_err, w)
last_error (retry_err, (some e, w)) = (some e, w)

-- `config.retryCodes[status.Code(err)]`
abbrev pub retryable : (Error → ℕ) → Options → Error → Bool
retryable code_of o e = contains o.retry_codes (code_of e)

module _ {W : Type 0} (code_of : Error → ℕ) (o : Options) where
  abbrev pub outcome : Option Error × W → Option Error × Attempted W
  outcome (none, w) = (none, (none, w))
  outcome (some e, w) = (if retryable code_of o e then some e else none, (some e, w))

  -- The function that the retrier runs.
  abbrev pub attempt : Invoker W → Attempted W → Option Error × Attempted W
  attempt invoker (last, w) = outcome (invoker w)

  -- `UnaryClientInterceptor`
  unfoldable pub unary_client_interceptor : Do W → String → Invoker W → Invoker W
  unary_client_interceptor retry method invoker w =
      if contains o.skip_methods method || not (is_idempotent method o.idempotent_prefixes)
      then invoker w
      else last_error (retry (attempt invoker) (none, w))
