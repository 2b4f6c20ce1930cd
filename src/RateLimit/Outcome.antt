-- ===== src/RateLimit/Outcome.antt =====
-- What a passed and a refused request tell of the shared store.
use mathlib.Core.Path.{subst}
use kratos_core.Prelude.{
  ℕ, ◌-◌, ◌*◌, ◌≤◌, ◌<◌, String, ◌≡◌, ◌≢◌, refl, sym, ap, ◌∙◌, ◌⊎◌, inl, inr, Bool, true, false,
  none, some, List, [], ◌∷◌, arith, In,
}
use kratos_core.Prelude.Eq.{◌==◌, ==_iff, string_eq}
use kratos_core.Prelude.Error.{Error, Result, ok, err, status, Result-cases}
use kratos_core.RateLimit.{
  Policy, LimitRequest, Context, Outside, policy_identity, limit_request, limit_requests, second,
  retry_seconds, passes, refused, Store, decide, take, with_store, with_policies, with_operation,
  rate_limit,
}

-- One request for the store per policy, in order, each for the identity of its dimension.
abbrev pub Metered : Outside → Context → String → List Policy → List LimitRequest → Type 0
Metered o ctx operation [] [] = Unit
Metered o ctx operation (p ∷ ps) (r ∷ rs) =
    ((identity : String) × (policy_identity o ctx p.dimension ≡ ok identity)
      × (r ≡ limit_request o operation p identity))
    × Metered o ctx operation ps rs
Metered o ctx operation _ _ = ⊥

limit_requests-Metered :
    (o : Outside) (ctx : Context) (operation : String) (ps : List Policy) (rs : List LimitRequest)
    → limit_requests o ctx operation ps ≡ ok rs
    → Metered o ctx operation ps rs
unfolding limit_requests
limit_requests-Metered o ctx operation [] [] h = tt
limit_requests-Metered o ctx operation [] (r ∷ rs) h = absurd cc
limit_requests-Metered o ctx operation (p ∷ ps) rs h =
    elim (Result-cases (policy_identity o ctx p.dimension)) [
      | inr (e, a) ↦ absurd (let h' = rw a at h in cc)
      | inl (identity, a) ↦ elim (Result-cases (limit_requests o ctx operation ps)) [
        | inr (e, b) ↦ absurd (let h' = rw (a, b) at h in cc)
        | inl (later, b) ↦
            let e : limit_request o operation p identity ∷ later ≡ rs =
              let h' = rw (a, b) at h in cc in
            subst (λ x. Metered o ctx operation (p ∷ ps) x) e
              ((identity, a, refl), limit_requests-Metered o ctx operation ps later b)
      ]
    ]

-- The seconds to wait are at least 1, reach the time that the store named, and no whole second
-- more is asked for.
pub retry_seconds-bounds :
    (nanoseconds : ℕ)
    → (1 ≤ retry_seconds nanoseconds)
      × (nanoseconds ≤ retry_seconds nanoseconds * second)
      × ((retry_seconds nanoseconds ≡ 1) ⊎ ((retry_seconds nanoseconds - 1) * second < nanoseconds))
unfolding retry_seconds
retry_seconds-bounds nanoseconds = ground arith

limit_requests_err :
    (o : Outside) (ctx : Context) (operation : String) (ps : List Policy) (q : Policy) (e : Error)
    → In q ps
    → policy_identity o ctx q.dimension ≡ err e
    → (x : Error) × (limit_requests o ctx operation ps ≡ err x)
unfolding limit_requests
limit_requests_err o ctx operation [] q e i h = elim i [ ]
limit_requests_err o ctx operation (p ∷ ps) q e (inl same) h =
    let h' : policy_identity o ctx p.dimension ≡ err e =
      subst (λ x. policy_identity o ctx x.dimension ≡ err e) same h in
    (status 14 "rate limit policy cannot be evaluated", rw h' refl)
limit_requests_err o ctx operation (p ∷ ps) q e (inr i) h =
    let (x, later) = limit_requests_err o ctx operation ps q e i h in
    elim (Result-cases (policy_identity o ctx p.dimension)) [
      | inl (identity, a) ↦ (x, rw (a, later) refl)
      | inr (y, a) ↦ (status 14 "rate limit policy cannot be evaluated", rw a refl)
    ]

-- What the store was asked and what it answered.
abbrev pub Asked :
    {S : Type 0}
    → Outside
    → Context
    → String
    → List Policy
    → (List LimitRequest → S → Result (Bool × ℕ) × S)
    → Bool
    → ℕ
    → S
    → S
    → Type 0
Asked o ctx operation ps f allowed retry s s' =
    (rs : List LimitRequest) × Metered o ctx operation ps rs × (f rs s ≡ (ok (allowed, retry), s'))

module _ {S : Type 0} (o : Outside) (store : Store S) (resolver : String → Result (List Policy))
    (ctx : Context) (operation : String) (p : Policy) (ps : List Policy)
    (f : List LimitRequest → S → Result (Bool × ℕ) × S) (asked : ctx.operation ≡ some operation)
    (named : operation ≢ "") (resolved : resolver operation ≡ ok (p ∷ ps))
    (atomic : store.take_rate_limits ≡ some f) where
  -- Such a request reaches the store.
  rate_limit-take :
      (s : S)
      → rate_limit o store resolver ctx s ≡ take o f (limit_requests o ctx operation (p ∷ ps)) s
  unfolding rate_limit with_operation with_policies with_store
  rate_limit-take s =
      let e : (operation == "") ≡ false = ground (arith, named, ==_iff operation "") in
      subst
        (λ x.
          with_operation o store resolver ctx x s
          ≡ take o f (limit_requests o ctx operation (p ∷ ps)) s)
        (sym asked) (rw (e, resolved, atomic) refl)

  -- A request of a named operation with policies, over a store that takes them at once, passes
  -- only if the store, asked once for all of them, allowed it; the state is then what the store
  -- left.
  pub rate_limit-passes :
      (s s' : S)
      → rate_limit o store resolver ctx s ≡ (passes, s')
      → (retry : ℕ) × Asked o ctx operation (p ∷ ps) f true retry s s'
  unfolding take decide
  rate_limit-passes s s' h =
      let t = sym (rate_limit-take s) ∙ h in
      elim (Result-cases (limit_requests o ctx operation (p ∷ ps))) [
        | inr (e, a) ↦ absurd (let t' = rw a at t in cc)
        | inl (rs, a) ↦ elim (Result-cases (f rs s).0) [
          | inr (e, b) ↦ absurd (let t' = rw (a, b) at t in cc)
          | inl ((false, retry), b) ↦ absurd (let t' = rw (a, b) at t in cc)
          | inl ((true, retry), b) ↦
              let same : (f rs s).1 ≡ s' = let t' = rw (a, b) at t in ap (λ x. x.1) t' in
              (retry, (rs, limit_requests-Metered o ctx operation (p ∷ ps) rs a, rw (b, same) refl))
        ]
      ]

  -- A refusal of a request of a named operation with policies names a time to wait only if the
  -- store, asked once for all of them, refused with a time, and it is that time in seconds,
  -- rounded up.
  pub rate_limit-retry_seconds :
      (s s' : S) (e : Error) (seconds : ℕ)
      → rate_limit o store resolver ctx s ≡ (refused e (some seconds), s')
      → (retry : ℕ) × (seconds ≡ retry_seconds retry)
        × Asked o ctx operation (p ∷ ps) f false retry s s'
  unfolding take decide
  rate_limit-retry_seconds s s' e seconds h =
      let t = sym (rate_limit-take s) ∙ h in
      elim (Result-cases (limit_requests o ctx operation (p ∷ ps))) [
        | inr (x, a) ↦ absurd (let t' = rw a at t in cc)
        | inl (rs, a) ↦ elim (Result-cases (f rs s).0) [
          | inr (x, b) ↦ absurd (let t' = rw (a, b) at t in cc)
          | inl ((true, retry), b) ↦ absurd (let t' = rw (a, b) at t in cc)
          | inl ((false, retry), b) ↦
              let t' = rw (a, b) at t in
              let same : (f rs s).1 ≡ s' = ap (λ x. x.1) t' in
              (
                retry,
                (let d = ap (λ x. x.0) t' in cc),
                (rs, limit_requests-Metered o ctx operation (p ∷ ps) rs a, rw (b, same) refl),
              )
        ]
      ]

  -- If the identity for one policy of the operation cannot be told, the request is refused, and
  -- the store is left as it was.
  pub rate_limit_unidentified :
      (s : S) (q : Policy) (e : Error)
      → In q (p ∷ ps)
      → policy_identity o ctx q.dimension ≡ err e
      → (x : Error) × (rate_limit o store resolver ctx s ≡ (refused x none, s))
  unfolding take
  rate_limit_unidentified s q e i h =
      let (x, a) = limit_requests_err o ctx operation (p ∷ ps) q e i h in
      (x, rate_limit-take s ∙ rw a refl)
