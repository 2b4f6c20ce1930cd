-- ===== src/Client/Tests.antt =====
-- A method that fails once and is called again.
use kratos_core.Prelude.{ℕ, suc, ◌≡◌, ◌⊎◌, refl, Option, none, some}
use mathlib.Core.Path.{subst}
use kratos_core.Prelude.Error.{Error, plain}
use kratos_core.Prelude.Eq.{contains}
use kratos_core.Client.Retry.{Do, Invoker, default_options, is_idempotent, unary_client_interceptor}
use kratos_core.Client.Retry.Attempts.{
  Calls, Runs, stops, again, IsRetrier, unary_client_interceptor-Calls,
}

abbrev refused : Error
refused = plain "unavailable"

-- The state counts the calls.
abbrev failing : Invoker ℕ
failing n = (some refused, suc n)

abbrev next : {S : Type 0} → (S → Option Error × S) → Option Error × S → Option Error × S
next f (none, s) = (none, s)
next f (some e, s) = f s

abbrev twice : Do ℕ
twice f s = next f (f s)

twice-Runs :
    {S : Type 0} (f : S → Option Error × S) (s : S) (r : Option Error × S)
    → f s ≡ r
    → Runs f s (next f r)
twice-Runs f s (none, t) h = subst (λ x. Runs f s x) h (stops s)
twice-Runs f s (some e, t) h = again s t e (f t) h (stops t)

twice-IsRetrier : IsRetrier twice
twice-IsRetrier = record { runs = λ f s. twice-Runs f s (f s) refl }

unary_client_interceptor-Calls_example :
    ((e : Error) × (unary_client_interceptor
          (λ e. 14)
          default_options
          twice
          "/v1.Users/GetUser"
          failing
          0
        ≡ (some e, 0)))
    ⊎ Calls
        (λ e. 14)
        default_options
        failing
        0
        (unary_client_interceptor (λ e. 14) default_options twice "/v1.Users/GetUser" failing 0)
unfolding default_options is_idempotent contains
unary_client_interceptor-Calls_example =
    unary_client_interceptor-Calls (λ e. 14) default_options failing twice twice-IsRetrier
      "/v1.Users/GetUser" 0 refl refl

unary_client_interceptor_test :
    unary_client_interceptor (λ e. 14) default_options twice "/v1.Users/GetUser" failing 0
    ≡ (some refused, 2)
unfolding default_options is_idempotent contains unary_client_interceptor
unary_client_interceptor_test = refl
