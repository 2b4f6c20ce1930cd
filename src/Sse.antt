-- ===== src/Sse.antt =====
-- sse/registry.go and the request part of sse/server.go: the streams that are registered, and the
-- transport stream that a request gets. Streams, the authenticator and the token cache are outside.
pub mod Registration
pub mod Resolution
mod Tests
use Prim.Native.String.{◌++◌ as str_append}
use kratos_core.Prelude.{
  String, Bool, true, false, not, ◌&&◌, ◌||◌, Option, none, some, List, [], ◌∷◌, if◌then◌else◌,
}
use kratos_core.Prelude.Int.{ℤ, pos, is_pos}
use kratos_core.Prelude.Eq.{◌==◌, int_eq, string_eq, contains, lookup, insert}
use kratos_core.Prelude.Error.{Error, Result, ok, err, plain, wrapped}
use kratos_core.Prelude.Text.{fields, equal_fold}
use kratos_core.Auth.{AuthnClaims, and_then}

-- `sse.SSEStream`, with `ResolveTenant` where it has that method.
pub record Stream : Type 0 where
  pub id : String
  pub resolve : String → ℤ → Result String
  pub resolve_tenant : Option (String → ℤ → ℤ → Result String)

abbrev pub Registry : Type 0
Registry = List (String × Stream)

abbrev pub duplicate : String → Error
duplicate id = plain (str_append "SSE流标识重复: " id)

-- The first loop of `Register`: what is wrong with the streams, if anything. A nil stream is `none`.
unfoldable pub check_streams : Registry → List String → List (Option Stream) → Option Error
check_streams r registered [] = none
check_streams r registered (none ∷ rest) = some (plain "SSE流不能为空")
check_streams r registered (some s ∷ rest) =
    let later = check_streams r (s.id ∷ registered) rest in
    if s.id == "" then some (plain "SSE流标识不能为空") else elim (lookup s.id r) [
      | some _ ↦ some (duplicate s.id)
      | none ↦ if contains registered s.id then some (duplicate s.id) else later
    ]

-- The second loop.
unfoldable pub add_streams : Registry → List (Option Stream) → Registry
add_streams r [] = r
add_streams r (none ∷ rest) = add_streams r rest
add_streams r (some s ∷ rest) = add_streams (insert s.id s r) rest

add_checked : Option Error → Registry → List (Option Stream) → Option Error × Registry
add_checked none r streams = (none, add_streams r streams)
add_checked (some e) r streams = (some e, r)

unfoldable pub register : Registry → List (Option Stream) → Option Error × Registry
unfolding add_checked
register r streams = add_checked (check_streams r [] streams) r streams

-- The call of a stream, with its tenant where it takes one.
abbrev tenant_or_plain :
    Stream → Option (String → ℤ → ℤ → Result String) → String → ℤ → ℤ → Result String
tenant_or_plain s none channel user tenant = s.resolve channel user
tenant_or_plain s (some f) channel user tenant = f channel user tenant

abbrev pub stream_id : Stream → String → ℤ → ℤ → Result String
stream_id s channel user tenant =
    if is_pos tenant
    then tenant_or_plain s s.resolve_tenant channel user tenant
    else s.resolve channel user

-- The three results of Go: the identifier, whether the stream is known, and the error.
found_stream : Option Stream → String → ℤ → ℤ → Bool × Result String
found_stream none channel user tenant = (false, ok "")
found_stream (some s) channel user tenant = (true, stream_id s channel user tenant)

unfoldable pub resolve : Registry → String → String → ℤ → ℤ → Bool × Result String
unfolding found_stream
resolve r stream channel user tenant = found_stream (lookup stream r) channel user tenant

abbrev pub Authenticator : Type 0
Authenticator = String → Result AuthnClaims

abbrev pub UserToken : Type 0
UserToken = ℤ → String → Bool

-- const/role.go
abbrev pub role_code_user : String
role_code_user = "user"

abbrev pub role_code_authuser : String
role_code_authuser = "authuser"

abbrev pub is_plain_user : String → Bool
is_plain_user role = role == role_code_user || role == role_code_authuser

abbrev pub or_zero : Result ℤ → ℤ
or_zero (ok n) = n
or_zero (err e) = pos 0

abbrev token_valid : Option UserToken → ℤ → String → Bool
token_valid none id token = true
token_valid (some valid) id token = valid id token

-- `requestUserID` after the user number and the role have been read.
unfoldable pub user_of_claims :
    Option UserToken → String → String → ℤ → String → Result ℤ → Result (ℤ × ℤ)
user_of_claims user_token stream token id role tenant =
    if is_plain_user role && not (stream == "base.notification")
    then err (plain "SSE 仅允许后台用户访问")
    else if not (is_pos id)
    then err (plain "SSE 访问主体无效")
    else if not (token_valid user_token id token)
    then err (plain "SSE 访问令牌已失效")
    else ok (id, or_zero tenant)

claims_user : Option UserToken → String → String → Result AuthnClaims → Result (ℤ × ℤ)
claims_user user_token stream token (err e) = err e
claims_user user_token stream token (ok claims) = and_then claims.user_id (λ id.
    and_then claims.role_code
      (λ role. user_of_claims user_token stream token id role claims.tenant_id))

words_user : String → Authenticator → Option UserToken → String → List String → Result (ℤ × ℤ)
unfolding claims_user
words_user bearer authenticate user_token stream [] = err (plain "SSE 请求需要认证")
words_user bearer authenticate user_token stream (word ∷ token ∷ []) =
    if equal_fold word bearer
    then claims_user user_token stream token (authenticate token)
    else err (plain "SSE Authorization 请求头格式错误")
words_user bearer authenticate user_token stream _ = err (plain "SSE Authorization 请求头格式错误")

-- `requestUserID`; without an authenticator the user and the tenant are 0.
unfoldable pub request_user_id :
    String → Option Authenticator → Option UserToken → String → String → Result (ℤ × ℤ)
unfolding words_user
request_user_id bearer none user_token stream header = ok (pos 0, pos 0)
request_user_id bearer (some authenticate) user_token stream header =
    words_user bearer authenticate user_token stream (fields header)

-- The query and the header of the request.
pub record StreamRequest : Type 0 where
  pub stream : String
  pub channel : String
  pub authorization : String

abbrev pub not_registered : Error
not_registered = plain "SSE流未注册"

known : String → Bool × Result String → Result String
known stream (_, err e) = err e
known stream (true, ok id) = ok id
known stream (false, ok _) = err (wrapped stream not_registered)

user_stream : Option Registry → StreamRequest → Result (ℤ × ℤ) → Result String
unfolding known
user_stream registry q (err e) = err e
user_stream none q (ok _) = ok q.stream
user_stream (some r) q (ok (user, tenant)) =
    known q.stream (resolve r q.stream q.channel user tenant)

-- `NewStreamResolver` on a request with an address.
unfoldable pub stream_resolver :
    String
    → Option Registry
    → Option Authenticator
    → Option UserToken
    → StreamRequest
    → Result String
unfolding user_stream
stream_resolver bearer registry authenticator user_token q =
    user_stream registry q
      (request_user_id bearer authenticator user_token q.stream q.authorization)
