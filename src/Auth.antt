-- ===== src/Auth.antt =====
-- server/middleware/auth.go: which requests are authenticated, what their claims must hold, and the
-- audit of each decision. The token cache, the engines and regular expressions are outside.
pub mod Whitelist
pub mod Gate
pub mod Authorizer
mod Tests
use kratos_core.Prelude.{
  ℕ, String, Bool, true, false, not, ◌&&◌, ◌||◌, Option, none, some, List, [], ◌∷◌, if◌then◌else◌,
}
use kratos_core.Prelude.Int.{ℤ, pos, to_i32}
use kratos_core.Prelude.Eq.{◌==◌, int_eq, string_eq, contains}
use kratos_core.Prelude.Error.{Error, Result, ok, err, kit}
use kratos_core.Prelude.Text.{fields, equal_fold, has_prefix}
use kratos_core.Log.Event.{LogEvent, no_event}
use kratos_core.Log.Pipeline.{Outside, Pipeline, emit_log}

-- The fields of `Authentication_Jwt_WhiteList`.
pub record WhiteList : Type 0 where
  pub prefixes : List String
  pub regexes : List String
  pub paths : List String
  pub matches : List String

-- regexp.Compile and FindString, as one function; `none` is an expression that does not compile.
abbrev pub Regexp : Type 0
Regexp = String → String → Option String

unfoldable pub any_prefix : List String → String → Bool
any_prefix [] operation = false
any_prefix (p ∷ rest) operation = has_prefix operation p || any_prefix rest operation

abbrev pub whole_match : Option String → String → Bool
whole_match none operation = false
whole_match (some found) operation = found == operation

unfoldable pub any_regex : Regexp → List String → String → Bool
any_regex find [] operation = false
any_regex find (r ∷ rest) operation =
    whole_match (find r operation) operation || any_regex find rest operation

unfoldable pub match_white_list : Regexp → Option WhiteList → String → Bool
match_white_list find none operation = false
match_white_list find (some w) operation =
    any_prefix w.prefixes operation
    || any_regex find w.regexes operation
    || contains w.paths operation
    || contains w.matches operation

-- An HTTP request, where the transport has one.
pub record HttpRequest : Type 0 where
  pub method : String
  pub path : String
  pub remote_address : String
  pub user_agent : String

-- A transport: `own_method` is its `Method`, where it has one.
pub record Transport : Type 0 where
  pub operation : String
  pub authorization : String
  pub request : Option HttpRequest
  pub own_method : Option String

-- What the getters of `engine.AuthClaims` return.
pub record AuthnClaims : Type 0 where
  pub user_id : Result ℤ
  pub subject : Result String
  pub tenant_id : Result ℤ
  pub tenant_code : Result String
  pub role_id : Result ℤ
  pub role_code : Result String

pub record AuthzClaims : Type 0 where
  pub tenant : String
  pub subject : String
  pub action : String
  pub resource : String

-- A request with what its context holds.
pub record Request : Type 0 where
  pub transport : Option Transport
  pub authn : Option AuthnClaims
  pub authz : Option AuthzClaims
  pub body : String

abbrev pub Handler : Type 0
Handler = Request → Result String

-- `data.UserToken`, `engine.BearerWord` and `strings.ToUpper`.
pub record Tokens : Type 0 where
  pub is_access_token_valid : ℤ → String → Bool
  pub bearer_word : String
  pub to_upper : String → String

abbrev pub text_or : String → String → String
text_or s default = if s == "" then default else s

abbrev pub request_method : Option HttpRequest → String
request_method none = ""
request_method (some r) = r.method

abbrev pub transport_method : Option String → String
transport_method none = ""
transport_method (some s) = s

-- `if err != nil { return nil, err }` after a call, and after one that returns an error alone.
abbrev pub and_then : {A B : Type 0} → Result A → (A → Result B) → Result B
and_then (ok a) f = f a
and_then (err e) f = err e

abbrev pub unless : {A : Type 0} → Option Error → Result A → Result A
unless none r = r
unless (some e) r = err e

module _ (tokens : Tokens) where
  unfoldable pub request_action : Transport → String
  request_action t =
      tokens.to_upper
        (text_or (text_or (request_method t.request) (transport_method t.own_method)) "ANY")

  -- The test of the two words of the header.
  unfoldable pub bearer_valid : ℤ → List String → Bool
  bearer_valid id (word ∷ token ∷ []) =
      equal_fold word tokens.bearer_word && tokens.is_access_token_valid id token
  bearer_valid id _ = false

  token_error : ℤ → Option Transport → Option Error
  token_error id none = some (kit "ErrWrongContext")
  token_error id (some t) =
      if bearer_valid id (fields t.authorization) then none else some (kit "ErrAccessTokenExpired")

  -- `verifyAccessToken`; a user number of 0 is an internal call.
  verify_user : Result ℤ → Option Transport → Option Error
  unfolding token_error
  verify_user (err e) t = some (kit "ErrExtractUserInfoFailed")
  verify_user (ok id) t = if id == pos 0 then none else token_error id t

  unfoldable pub verify_access_token : Request → AuthnClaims → Option Error
  unfolding verify_user
  verify_access_token req claims = verify_user claims.user_id req.transport

  -- A text of the claims that must be there and not empty.
  abbrev pub required : Result String → Error → Result String
  required (err e) missing = err missing
  required (ok s) missing = if s == "" then err missing else ok s

  authz_claims : AuthnClaims → Transport → Result AuthzClaims
  authz_claims claims t =
      and_then (required claims.tenant_code (kit "ErrExtractTenantFailed")) (λ tenant.
        and_then (required claims.role_code (kit "ErrExtractSubjectFailed")) (λ role. ok (record {
          tenant = tenant;
          subject = role;
          action = request_action t;
          resource = t.operation;
        })))

  checked_claims : Request → Option Transport → Option AuthnClaims → Result AuthzClaims
  unfolding authz_claims
  checked_claims req (some t) (some claims) =
      unless (verify_access_token req claims) (authz_claims claims t)
  checked_claims req _ _ = err (kit "ErrWrongContext")

  unfoldable pub auth_claims_middleware : Handler → Handler
  unfolding checked_claims
  auth_claims_middleware handler req =
      and_then (checked_claims req req.transport req.authn)
        (λ claims. handler (record req { authz = some claims }))

  -- `NewAuthMiddleware`: the middlewares of the kit are parameters.
  module _ (find : Regexp) (authn_server authz_server optional_server : Handler → Handler)
      (optional_auth white_list : Option WhiteList) where
    unfoldable pub full_auth : Handler → Handler
    full_auth handler = authn_server (auth_claims_middleware (authz_server handler))

    routed : Handler → Option Transport → Handler
    unfolding full_auth
    routed handler none req = full_auth handler req
    routed handler (some t) req =
        if match_white_list find optional_auth t.operation
        then optional_server handler req
        else if match_white_list find white_list t.operation
        then handler req
        else full_auth handler req

    unfoldable pub auth_middleware : Handler → Handler
    unfolding routed
    auth_middleware handler req = routed handler req.transport req

-- `mapAuthnError`: the errors of the kit by name, through their causes.
unfoldable pub is_kit : String → Error → Bool
is_kit name (kit s) = s == name
is_kit name (Error.wrapped s e) = is_kit name e
is_kit name (Error.with_cause e c) = is_kit name e || is_kit name c
is_kit name _ = false

unfoldable pub map_authn_error : Error → Error
map_authn_error e =
    if is_kit "ErrMissingBearerToken" e
    then kit "ErrAccessTokenNotExist"
    else if is_kit "ErrTokenExpired" e
    then kit "ErrAccessTokenExpired"
    else kit "ErrUnauthorized"
