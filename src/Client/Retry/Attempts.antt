-- ===== src/Client/Retry/Attempts.antt =====
-- The calls that the retry interceptor makes, as a relation.
use kratos_core.Prelude.{
  ℕ, String, ◌≡◌, refl, sym, ap, ◌∙◌, true, false, ◌⊎◌, Option, none, some, arith, Bool-cases, inl,
  inr,
}
use mathlib.Core.Path.{subst}
use kratos_core.Prelude.Eq.{string_eq, nat_eq, contains}
use kratos_core.Prelude.Error.{Error}
use kratos_core.Client.Retry.{
  Options, is_idempotent, Invoker, Attempted, Do, retryable, outcome, attempt, last_error,
  unary_client_interceptor,
}

-- What a retrier may do with a function on a state: run it, and run it again after an error; and
-- it may give up with an error of its own, also before the first run.
pub data Runs {S : Type 0} (f : S → Option Error × S) : S → Option Error × S → Type 0 where
  stops : (s : S) → Runs f s (f s)
  gives_up : (s : S) (e : Error) → Runs f s (some e, s)
  again : (s t : S) (e : Error) (r : Option Error × S) → f s ≡ (some e, t) → Runs f t r → Runs f s r

pub record IsRetrier {W : Type 0} (retry : Do W) : Type 0 where
  pub runs : (f : Attempted W → Option Error × Attempted W) (s : Attempted W) → Runs f s (retry f s)

-- Calls of an invoker: each but the last fails with an error that may be tried again.
pub data Calls {W : Type 0} (code_of : Error → ℕ) (o : Options) (invoker : Invoker W)
    : W → Option Error × W → Type 0 where
  last_call : (w : W) → Calls code_of o invoker w (invoker w)
  next_call :
      (w w' : W) (e : Error) (r : Option Error × W)
      → invoker w ≡ (some e, w')
      → retryable code_of o e ≡ true
      → Calls code_of o invoker w' r
      → Calls code_of o invoker w r

module _ {W : Type 0} (code_of : Error → ℕ) (o : Options) (invoker : Invoker W) where
  -- Nothing was called, or the calls and the result of the last one.
  abbrev Reached : Attempted W → Option Error × Attempted W → Type 0
  Reached s r = ((e : Error) × (r ≡ (some e, s))) ⊎ Calls code_of o invoker s.1 (last_error r)

  last_error-outcome : (x : Option Error × W) → last_error (outcome code_of o x) ≡ x
  last_error-outcome (none, w) = refl
  last_error-outcome (some e, w) = refl

  last_error-some :
      (t : Attempted W) (e x : Error) → t.0 ≡ some e → last_error (some x, t) ≡ (some e, t.1)
  last_error-some (none, w) e x h = ground (arith, h)
  last_error-some (some y, w) e x h = ap (λ z. (z, w)) h

  outcome-some :
      (x : Option Error × W) (e : Error) (t : Attempted W)
      → outcome code_of o x ≡ (some e, t)
      → (x ≡ (some e, t.1)) × (t.0 ≡ some e) × (retryable code_of o e ≡ true)
  outcome-some (none, w) e t h = ground (arith, h)
  outcome-some (some x, w) e (l, v) h = elim (Bool-cases (retryable code_of o x)) [
    | inl p ↦ ground (arith, h, p)
    | inr p ↦ ground (arith, h, p)
  ]

  Runs-Reached :
      (s : Attempted W) (r : Option Error × Attempted W)
      → Runs (attempt code_of o invoker) s r
      → Reached s r
  Runs-Reached s r (stops _) = inr (
      subst (λ x. Calls code_of o invoker s.1 x) (sym (last_error-outcome (invoker s.1)))
        (last_call s.1))
  Runs-Reached s r (gives_up _ e) = inl (e, refl)
  Runs-Reached s r (again _ t e _ h more) =
      let (called, last, may_retry) = outcome-some (invoker s.1) e t h in
      elim (Runs-Reached t r more) [
        | inl (x, same) ↦ inr (
            subst (λ y. Calls code_of o invoker s.1 y)
              (called ∙ sym (ap last_error same ∙ last_error-some t e x last)) (last_call s.1))
        | inr calls ↦ inr (next_call s.1 t.1 e (last_error r) called may_retry calls)
      ]

  -- A call of a method that is not skipped and has an idempotent prefix is made by the retrier:
  -- it returns an error without a call, or makes calls of which each but the last fails with an
  -- error that may be tried again, and returns the result of the last one.
  pub unary_client_interceptor-Calls :
      (retry : Do W)
      → IsRetrier retry
      → (method : String) (w : W) → contains o.skip_methods method ≡ false
      → is_idempotent method o.idempotent_prefixes ≡ true
      → ((e : Error) × (unary_client_interceptor code_of o retry method invoker w ≡ (some e, w)))
        ⊎ Calls code_of o invoker w (unary_client_interceptor code_of o retry method invoker w)
  unfolding unary_client_interceptor
  unary_client_interceptor-Calls retry is method w k i =
      elim (Runs-Reached (none, w) (retry (attempt code_of o invoker) (none, w))
        (is.runs (attempt code_of o invoker) (none, w))) [
          | inl (e, same) ↦ inl (e, rw (k, i, same) refl)
          | inr calls ↦ inr (rw (k, i) calls)
        ]
