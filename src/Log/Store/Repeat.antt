-- ===== src/Log/Store/Repeat.antt =====
-- A message of the queue that is delivered again, over a store with primary keys.
use mathlib.Core.Path.{subst}
use kratos_core.Prelude.{
  ℕ, String, ◌≡◌, ◌≢◌, refl, sym, ap, Bool, true, false, Option, none, some, [], arith, Bool-cases,
  inl, inr, ◌⊎◌,
}
use kratos_core.Prelude.Eq.{◌==◌, string_eq}
use kratos_core.Prelude.Error.{Error, Result, ok, err, Result-cases}
use kratos_core.Log.Event.{LogEvent}
use kratos_core.Log.Key.{Bytes, log_message_primary_key}
use kratos_core.Log.Key.Distinct.{key-eq-zero_iff}
use kratos_core.Log.Store.{
  Store, ApiLogRecord, PolicyEvaluationLogRecord, persist, normalize_event, consume, settle,
  api_log_from_event, policy_evaluation_log_from_event,
}

-- The key is a primary key: a record that was created is found, and a second one with its key is
-- refused and changes nothing. Normalising keeps a kind that is set.
pub record IsPrimary {S : Type 0} (store : Store S) : Type 0 where
  pub api_created :
      (r : ApiLogRecord) (s s' : S)
      → store.create_api r s ≡ (none, s')
      → store.exists_api r.id s' ≡ ok true
  pub api_refused :
      (r : ApiLogRecord) (s : S)
      → store.exists_api r.id s ≡ ok true
      → (e : Error) × (store.create_api r s ≡ (some e, s))
  pub policy_created :
      (r : PolicyEvaluationLogRecord) (s s' : S)
      → store.create_policy_evaluation r s ≡ (none, s')
      → store.exists_policy_evaluation r.id s' ≡ ok true
  pub policy_refused :
      (r : PolicyEvaluationLogRecord) (s : S)
      → store.exists_policy_evaluation r.id s ≡ ok true
      → (e : Error) × (store.create_policy_evaluation r s ≡ (some e, s))

normalize_event-kind :
    {S : Type 0} (store : Store S) (event : LogEvent) (s t : S)
    → (normalize_event store event s).kind ≡ (normalize_event store event t).kind
unfolding normalize_event
normalize_event-kind store event s t = refl

settle-none :
    (id : ℕ) (o : Option Error) (found : Result Bool)
    → settle id o found ≡ none
    → (o ≡ none) ⊎ (found ≡ ok true)
unfolding settle
settle-none id none found h = inl refl
settle-none id (some e) (ok true) h = inr refl
settle-none id (some e) (ok false) h = absurd cc
settle-none id (some e) (err x) h = absurd cc

settle_found :
    (id : ℕ) (e : Error) (found : Result Bool)
    → id ≢ 0
    → found ≡ ok true
    → settle id (some e) found ≡ none
unfolding settle
settle_found id e found n h = ground (arith, n, h)

module _ {S : Type 0} (store : Store S) (h : IsPrimary store) where
  api_twice :
      (r r' : ApiLogRecord) (k : ℕ) (s : S)
      → k ≢ 0
      → r.id ≡ k
      → r'.id ≡ k
      → settle k (store.create_api r s).0 (store.exists_api k (store.create_api r s).1) ≡ none
      → (settle k
            (store.create_api r' (store.create_api r s).1).0
            (store.exists_api k (store.create_api r' (store.create_api r s).1).1)
          ≡ none)
        × ((store.create_api r' (store.create_api r s).1).1 ≡ (store.create_api r s).1)
  api_twice r r' k s n e e' p =
      let s' : S = (store.create_api r s).1 in
      let there : store.exists_api k s' ≡ ok true =
        elim (settle-none k (store.create_api r s).0 (store.exists_api k s') p) [
          | inl q ↦ subst (λ x. store.exists_api x s' ≡ ok true) e (h.api_created r s s' cc)
          | inr q ↦ q
        ] in
      let refused =
        h.api_refused r' s' (subst (λ x. store.exists_api x s' ≡ ok true) (sym e') there) in
      let q : store.create_api r' s' ≡ (some refused.0, s') = refused.1 in
      rw q (settle_found k refused.0 (store.exists_api k s') n there, refl)

  policy_twice :
      (r r' : PolicyEvaluationLogRecord) (k : ℕ) (s : S)
      → k ≢ 0
      → r.id ≡ k
      → r'.id ≡ k
      → settle k
          (store.create_policy_evaluation r s).0
          (store.exists_policy_evaluation k (store.create_policy_evaluation r s).1)
        ≡ none
      → (settle k (store.create_policy_evaluation r' (store.create_policy_evaluation r s).1).0 (
            store.exists_policy_evaluation k
              (store.create_policy_evaluation r' (store.create_policy_evaluation r s).1).1)
          ≡ none)
        × ((store.create_policy_evaluation r' (store.create_policy_evaluation r s).1).1
            ≡ (store.create_policy_evaluation r s).1)
  policy_twice r r' k s n e e' p =
      let s' : S = (store.create_policy_evaluation r s).1 in
      let there : store.exists_policy_evaluation k s' ≡ ok true =
        elim (settle-none k (store.create_policy_evaluation r s).0
          (store.exists_policy_evaluation k s') p) [
            | inl q ↦
                subst (λ x. store.exists_policy_evaluation x s' ≡ ok true) e
                  (h.policy_created r s s' cc)
            | inr q ↦ q
          ] in
      let refused =
        h.policy_refused r' s'
          (subst (λ x. store.exists_policy_evaluation x s' ≡ ok true) (sym e') there) in
      let q : store.create_policy_evaluation r' s' ≡ (some refused.0, s') = refused.1 in
      rw q (settle_found k refused.0 (store.exists_policy_evaluation k s') n there, refl)

  -- The same event read at a later state has the same kind.
  persist_twice :
      (event event' : LogEvent) (k : ℕ) (s s' : S)
      → k ≢ 0
      → event.kind ≡ event'.kind
      → persist store event k s ≡ (none, s')
      → persist store event' k s' ≡ (none, s')
  unfolding persist api_log_from_event policy_evaluation_log_from_event
  persist_twice event event' k s s' n same p = elim (Bool-cases (event.kind == "api")) [
    | inl b ↦
        let b' : (event'.kind == "api") ≡ true = rw (sym same) b in
        let p' = rw b at p in
        subst (λ t. persist store event' k t ≡ (none, t)) (ap (λ x. x.1) p')
          (let (x, y) =
              api_twice (api_log_from_event event (store.now s) k)
                (api_log_from_event event'
                  (store.now (store.create_api (api_log_from_event event (store.now s) k) s).1) k)
                k s n refl refl (ap (λ x. x.0) p') in
            rw b' (rw (x, y) refl))
    | inr b ↦ elim (Bool-cases (event.kind == "policy_evaluation")) [
      | inr c ↦ absurd (let p' = rw (b, c) at p in cc)
      | inl c ↦
          let b' : (event'.kind == "api") ≡ false = rw (sym same) b in
          let c' : (event'.kind == "policy_evaluation") ≡ true = rw (sym same) c in
          let p' = rw (b, c) at p in
          let r : PolicyEvaluationLogRecord =
            policy_evaluation_log_from_event event (store.now s) k in
          subst (λ t. persist store event' k t ≡ (none, t)) (ap (λ x. x.1) p')
            (let (x, y) =
                policy_twice r
                  (policy_evaluation_log_from_event event'
                    (store.now (store.create_policy_evaluation r s).1) k)
                  k s n refl refl (ap (λ x. x.0) p') in
              rw (b', c') (rw (x, y) refl))
    ]
  ]

  -- A message with an identifier that is consumed again, after a consumption that returned no
  -- error, returns no error and leaves the store as it was. It needs a store that refuses a record
  -- whose primary key it holds.
  pub consume_twice :
      (raw : Option String) (id : Bytes) (s s' : S)
      → id ≢ []
      → consume store raw id s ≡ (none, s')
      → consume store raw id s' ≡ (none, s')
  unfolding consume
  consume_twice none id s s' n p = absurd cc
  consume_twice (some raw) id s s' n p = elim (Bool-cases (raw == "")) [
    | inl b ↦ absurd (let p' = rw b at p in cc)
    | inr b ↦ elim (Result-cases (store.unmarshal raw)) [
      | inr (e, q) ↦ absurd (let p' = rw (b, q) at p in cc)
      | inl (event, q) ↦
          rw (b, q)
            (persist_twice (normalize_event store event s) (normalize_event store event s')
              (log_message_primary_key id) s s' (λ z. n ((key-eq-zero_iff id).0 z))
              (normalize_event-kind store event s s') (rw (b, q) at p))
    ]
  ]
