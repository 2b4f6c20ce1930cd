-- ===== src/RateLimit.antt =====
-- server/middleware/ratelimit/ratelimit.go: one request against the policies of its operation. The
-- resolver, the shared store, the identity, hashes and addresses are outside. A duration is a
-- number of nanoseconds; Go computes the seconds to wait from it in floating point. The rates are
-- floating-point numbers that are only passed on, and stand here as numbers.
pub mod Outcome
mod Tests
use Prim.Native.String.{◌++◌ as str_append}
use kratos_core.Prelude.{
  ℕ, ◌+◌, ◌/◌, String, Bool, true, false, not, ◌&&◌, ◌||◌, Option, none, some, List, [], ◌∷◌, ltb,
  if◌then◌else◌,
}
use kratos_core.Prelude.Int.{ℤ, pos, is_pos, is_neg}
use kratos_core.Prelude.Eq.{◌==◌, int_eq, string_eq}
use kratos_core.Prelude.Error.{Error, Result, ok, err, status}

abbrev pub dimension_global : String
dimension_global = "GLOBAL"

abbrev pub dimension_ip : String
dimension_ip = "IP"

abbrev pub dimension_tenant : String
dimension_tenant = "TENANT"

abbrev pub dimension_user : String
dimension_user = "USER"

abbrev pub dimension_oauth_client : String
dimension_oauth_client = "OAUTH_CLIENT"

-- The parameters of an algorithm, which are only passed on.
pub record Limits : Type 0 where
  pub tokens_per_second : ℕ
  pub burst : ℤ
  pub limit : ℤ
  pub window : ℤ
  pub leak_rate_per_second : ℕ
  pub capacity : ℤ

pub record Policy : Type 0 where
  pub dimension : String
  pub algorithm : String
  pub limits : Limits

pub record LimitRequest : Type 0 where
  pub key : String
  pub algorithm : String
  pub limits : Limits

-- The fields of the authenticated identity that are read.
pub record Identity : Type 0 where
  pub tenant_id : ℤ
  pub user_id : ℤ
  pub user_code : String

-- What the context of a request holds. `client_id` is the result of `GetClientId`, where the
-- request has it; an identity is an error, nil or present.
pub record Context : Type 0 where
  pub operation : Option String
  pub remote_address : Option String
  pub peer_address : Option String
  pub client_id : Option String
  pub identity : Result (Option Identity)

pub record Outside : Type 0 where
  pub split_host_port : String → Option String
  pub is_ip : String → Bool
  -- hex.EncodeToString of the first 12 bytes, and of all bytes, of the digest
  pub short_hash : String → String
  pub hash : String → String
  pub format_int : ℤ → String
  pub token_bucket : String

abbrev unavailable : String → Error
unavailable message = status 14 message

abbrev no_identity : Error
no_identity = unavailable "rate limit identity is unavailable"

module _ (o : Outside) where
  abbrev ip_or_empty : String → String
  ip_or_empty address = if o.is_ip address then address else ""

  abbrev host_or_address : Option String → String → String
  host_or_address none address = address
  host_or_address (some host) address = host

  unfoldable pub host_ip : String → String
  host_ip address = ip_or_empty (host_or_address (o.split_host_port address) address)

  peer_ip : Option String → String
  unfolding host_ip
  peer_ip none = ""
  peer_ip (some address) = host_ip address

  remote_or_peer : Option String → Option String → String
  unfolding peer_ip
  remote_or_peer none peer = peer_ip peer
  remote_or_peer (some address) peer = host_ip address

  unfoldable pub remote_ip : Context → String
  unfolding remote_or_peer
  remote_ip ctx = remote_or_peer ctx.remote_address ctx.peer_address

  abbrev present : String → Result String
  present s = if s == "" then err no_identity else ok s

  identity_of : String → Identity → Result String
  identity_of dimension i =
      if dimension == dimension_tenant
      then (if is_pos i.tenant_id then ok (o.format_int i.tenant_id) else err no_identity)
      else if dimension == dimension_user
      then (if i.user_id == pos 0 then err no_identity else ok (o.format_int i.user_id))
      else if is_neg i.user_id
      then present i.user_code
      else err no_identity

  from_identity : String → Result (Option Identity) → Result String
  unfolding identity_of
  from_identity dimension (err e) = err e
  from_identity dimension (ok none) = err no_identity
  from_identity dimension (ok (some i)) = identity_of dimension i

  abbrev pub client_of : Option String → String
  client_of none = ""
  client_of (some s) = s

  unfoldable pub policy_identity : Context → String → Result String
  unfolding from_identity
  policy_identity ctx dimension =
      if dimension == dimension_global
      then ok "global"
      else if dimension == dimension_ip
      then present (remote_ip ctx)
      else if dimension == dimension_oauth_client && not (client_of ctx.client_id == "")
      then ok (client_of ctx.client_id)
      else if dimension == dimension_tenant
          || dimension == dimension_user
          || dimension == dimension_oauth_client
      then from_identity dimension ctx.identity
      else err no_identity

  unfoldable pub bucket_key : String → String → String → String
  bucket_key operation dimension identity = str_append "api-rate-limit:{" (
      str_append (o.short_hash operation)
        (str_append "}:" (str_append dimension (str_append ":" (o.hash identity)))))

  abbrev pub algorithm_of : Policy → String
  algorithm_of p = if p.algorithm == "" then o.token_bucket else p.algorithm

  abbrev pub key_of : String → Policy → String → String
  key_of operation p identity =
      let key = bucket_key operation p.dimension identity in
      if algorithm_of p == o.token_bucket
      then key
      else str_append key (str_append ":" (algorithm_of p))

  unfoldable pub limit_request : String → Policy → String → LimitRequest
  limit_request operation p identity = record {
    key = key_of operation p identity;
    algorithm = algorithm_of p;
    limits = p.limits;
  }

  abbrev add_request :
      Result String → String → Policy → Result (List LimitRequest) → Result (List LimitRequest)
  add_request (err e) operation p rest = err (unavailable "rate limit policy cannot be evaluated")
  add_request (ok identity) operation p (err e) = err e
  add_request (ok identity) operation p (ok rs) = ok (limit_request operation p identity ∷ rs)

  -- The loop over the policies.
  unfoldable pub limit_requests : Context → String → List Policy → Result (List LimitRequest)
  limit_requests ctx operation [] = ok []
  limit_requests ctx operation (p ∷ rest) =
      add_request (policy_identity ctx p.dimension) operation p (limit_requests ctx operation rest)

-- int64(math.Ceil(retryAfter.Seconds())), at least 1
abbrev pub second : ℕ
second = 1000000000

unfoldable pub retry_seconds : ℕ → ℕ
retry_seconds nanoseconds =
    let seconds = (nanoseconds + 999999999) / second in if ltb seconds 1 then 1 else seconds

-- What becomes of a request: it goes to the next handler, or is refused, with the header
-- `Retry-After` where there is one.
pub data Decision : Type 0 where
  passes : Decision
  refused : Error → Option ℕ → Decision

-- The shared store: `TakeRateLimits` on its state, if it has that method.
pub record Store (S : Type 0) : Type 0 where
  pub take_rate_limits : Option (List LimitRequest → S → Result (Bool × ℕ) × S)

decide : Result (Bool × ℕ) → Decision
decide (err e) = refused (unavailable "rate limit storage is unavailable") none
decide (ok (true, retry)) = passes
decide (ok (false, retry)) = refused (status 8 "rate limit exceeded") (some (retry_seconds retry))

module _ {S : Type 0} (o : Outside) where
  take :
      (List LimitRequest → S → Result (Bool × ℕ) × S)
      → Result (List LimitRequest)
      → S
      → Decision × S
  unfolding decide
  take f (err e) s = (refused e none, s)
  take f (ok requests) s = let (r, s') = f requests s in (decide r, s')

  with_store :
      Option (List LimitRequest → S → Result (Bool × ℕ) × S)
      → Result (List LimitRequest)
      → S
      → Decision × S
  unfolding take
  with_store none requests s =
      (refused (unavailable "rate limit storage does not support atomic policies") none, s)
  with_store (some f) requests s = take f requests s

  with_policies : Store S → Context → String → Result (List Policy) → S → Decision × S
  unfolding with_store
  with_policies store ctx operation (err e) s =
      (refused (unavailable "rate limit policy is unavailable") none, s)
  with_policies store ctx operation (ok []) s = (passes, s)
  with_policies store ctx operation (ok (p ∷ rest)) s =
      with_store store.take_rate_limits (limit_requests o ctx operation (p ∷ rest)) s

  with_operation :
      Store S → (String → Result (List Policy)) → Context → Option String → S → Decision × S
  unfolding with_policies
  with_operation store resolver ctx none s = (passes, s)
  with_operation store resolver ctx (some operation) s =
      if operation == ""
      then (passes, s)
      else with_policies store ctx operation (resolver operation) s

  -- The middleware with a store and a resolver; without them every request passes.
  unfoldable pub rate_limit : Store S → (String → Result (List Policy)) → Context → S → Decision × S
  unfolding with_operation
  rate_limit store resolver ctx s = with_operation store resolver ctx ctx.operation s
