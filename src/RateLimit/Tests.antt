-- ===== src/RateLimit/Tests.antt =====
-- One policy per tenant, and a store that counts its calls and refuses from the second on.
use kratos_core.Prelude.{ℕ, zero, suc, String, refl, Bool, true, false, none, some, List, [], ◌∷◌}
use kratos_core.Prelude.Int.{ℤ, pos}
use kratos_core.Prelude.Eq.{string_eq}
use kratos_core.Prelude.Error.{Result, ok}
use kratos_core.RateLimit.{
  Policy, LimitRequest, Context, Outside, policy_identity, limit_requests, Store, rate_limit,
}
use kratos_core.RateLimit.Outcome.{Asked, rate_limit-passes}

abbrev outside : Outside
outside = record {
  split_host_port = λ s. none;
  is_ip = λ s. true;
  short_hash = λ s. s;
  hash = λ s. s;
  format_int = λ n. "7";
  token_bucket = "TOKEN_BUCKET";
}

abbrev per_tenant : Policy
per_tenant = record {
  dimension = "TENANT";
  algorithm = "";
  limits = record {
    tokens_per_second = 1;
    burst = pos 1;
    limit = pos 0;
    window = pos 0;
    leak_rate_per_second = 0;
    capacity = pos 0;
  };
}

abbrev context : ℤ → Context
context tenant = record {
  operation = some "/shop/Page";
  remote_address = none;
  peer_address = none;
  client_id = none;
  identity = ok (some (record { tenant_id = tenant; user_id = pos 5; user_code = "ann" }));
}

abbrev take_once : List LimitRequest → ℕ → Result (Bool × ℕ) × ℕ
take_once rs zero = (ok (true, 0), 1)
take_once rs (suc n) = (ok (false, 1500000000), suc (suc n))

abbrev store : Store ℕ
store = record { take_rate_limits = some take_once }

abbrev resolver : String → Result (List Policy)
resolver operation = ok (per_tenant ∷ [])

rate_limit-passes_example :
    (retry : ℕ) × Asked outside
      (context (pos 7))
      "/shop/Page"
      (per_tenant ∷ [])
      take_once
      true
      retry
      0
      1
unfolding rate_limit limit_requests policy_identity
rate_limit-passes_example =
    rate_limit-passes outside store resolver (context (pos 7)) "/shop/Page" per_tenant [] take_once
      refl (λ e. cc) refl refl 0 1 refl
