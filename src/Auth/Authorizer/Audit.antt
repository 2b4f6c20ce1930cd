-- ===== src/Auth/Authorizer/Audit.antt =====
-- `IsAuthorized` of the audited authorizer: the answer is the engine's, and the event tells it.
use kratos_core.Prelude.{
  String, ◌≡◌, refl, ◌⊎◌, inl, inr, Bool, true, false, not, ◌&&◌, Bool-cases, Option-cases, Option,
  none, some, List, [], ◌∷◌, ◌++◌, arith, length, ltb,
}
use kratos_core.Prelude.Int.{ℤ}
use kratos_core.Prelude.Error.{Result, ok, err}
use kratos_core.Log.Event.{LogEvent}
use kratos_core.Log.Pipeline.{
  Outside, Pipeline, emit, emit_log, log_buffer_size, normalize_log_event,
}
use kratos_core.Auth.{Transport, AuthnClaims, AuthzClaims, Request}
use kratos_core.Auth.Authorizer.{
  Engine, policy_evaluation, evaluation, with_transport, with_request, with_claims, with_tenant,
  is_authorized, policy_decision_allow, policy_decision_deny, policy_decision_error,
}

-- The decision that an event records for an answer.
abbrev pub decision_of : Result Bool → ℤ
decision_of (ok true) = policy_decision_allow
decision_of (ok false) = policy_decision_deny
decision_of (err e) = policy_decision_error

-- `IsSuccess` says that the engine answered, also where it denied.
abbrev pub answered : Result Bool → Bool
answered (ok _) = true
answered (err _) = false

-- What an event tells of an evaluation.
abbrev pub Tells : String → String → String → Result Bool → LogEvent → Type 0
Tells subject action resource answer event =
    (event.kind ≡ "policy_evaluation")
    × (event.decision ≡ decision_of answer)
    × (event.is_success ≡ answered answer)
    × (event.role_code ≡ subject)
    × (event.action ≡ action)
    × (event.resource ≡ resource)

module _ (engine : Engine) (subject action resource : String) (answer : Result Bool) where
  with_transport-Tells :
      (t : Option Transport) (e : LogEvent)
      → Tells subject action resource answer e
      → Tells subject action resource answer (with_transport engine t e)
  unfolding with_transport with_request
  with_transport-Tells none e h = h
  with_transport-Tells (some t) e h = elim (Option-cases t.request) [
    | inl p ↦ rw p h
    | inr (r, p) ↦ rw p h
  ]

  with_claims-Tells :
      (c : Option AuthnClaims) (e : LogEvent)
      → Tells subject action resource answer e
      → Tells subject action resource answer (with_claims engine c e)
  unfolding with_claims
  with_claims-Tells none e h = h
  with_claims-Tells (some c) e h = h

  with_tenant-Tells :
      (c : Option AuthzClaims) (e : LogEvent)
      → Tells subject action resource answer e
      → Tells subject action resource answer (with_tenant engine c e)
  unfolding with_tenant
  with_tenant-Tells none e h = h
  with_tenant-Tells (some c) e h = h

evaluation-Tells :
    (engine : Engine) (answer : Result Bool)
    → ((evaluation engine answer).decision ≡ decision_of answer)
      × ((evaluation engine answer).is_success ≡ answered answer)
unfolding evaluation
evaluation-Tells engine (ok true) = (refl, refl)
evaluation-Tells engine (ok false) = (refl, refl)
evaluation-Tells engine (err e) = (refl, refl)

-- The emitter is there, its buffer is open, and it has room.
abbrev pub takes : Pipeline → Bool
takes p = p.installed && not p.closed && ltb (length p.events) log_buffer_size

-- An emission adds the normalised event, or changes nothing.
emit_log-cases :
    (o : Outside) (event : LogEvent) (p : Pipeline)
    → ((takes p ≡ false) × ((emit_log o event p).1 ≡ p))
      ⊎ ((takes p ≡ true)
          × ((emit_log o event p).1
              ≡ record p { events = p.events ++ normalize_log_event o p.received event ∷ [] }))
unfolding emit_log emit
emit_log-cases o event p = elim (Bool-cases p.installed) [
  | inr a ↦ inl (ground (arith, a), ground (arith, a))
  | inl a ↦ elim (Bool-cases p.closed) [
    | inl b ↦ inl (ground (arith, a, b), ground (arith, a, b))
    | inr b ↦ elim (Bool-cases (ltb (length p.events) log_buffer_size)) [
      | inl c ↦ inr (ground (arith, a, b, c), ground (arith, a, b, c))
      | inr c ↦ inl (ground (arith, a, b, c), ground (arith, a, b, c))
    ]
  ]
]

module _ (engine : Engine) (req : Request) (subject action resource project : String) where
  policy_evaluation-Tells :
      (answer : Result Bool)
      → Tells subject action resource answer
          (policy_evaluation engine req subject action resource project answer)
  unfolding policy_evaluation
  policy_evaluation-Tells answer =
      let (d, s) = evaluation-Tells engine answer in
      with_tenant-Tells engine subject action resource answer req.authz _ (
        with_claims-Tells engine subject action resource answer req.authn _ (
          with_transport-Tells engine subject action resource answer req.transport _
            (refl, d, s, refl, refl, refl)))

  normalize-Tells :
      (o : Outside) (seen : List LogEvent) (event : LogEvent) (answer : Result Bool)
      → Tells subject action resource answer event
      → Tells subject action resource answer (normalize_log_event o seen event)
  unfolding normalize_log_event
  normalize-Tells o seen event answer (k, d, s, r, v, b) = (rw k refl, d, s, r, v, b)

  -- An evaluation returns the engine's answer, whatever becomes of its event. Where the pipeline
  -- is installed, open and not full, one event is added, which tells the decision, the role, the
  -- action and the resource; in every other case the pipeline stays as it was.
  pub is_authorized-Tells :
      (o : Outside) (p : Pipeline)
      → let (answer, p') = is_authorized engine o req subject action resource project p in
        (answer ≡ engine.is_authorized subject action resource project)
        × (((takes p ≡ false) × (p' ≡ p))
            ⊎ ((event : LogEvent) × (takes p ≡ true)
                × (p' ≡ record p { events = p.events ++ event ∷ [] })
                × Tells subject action resource answer event))
  unfolding is_authorized
  is_authorized-Tells o p =
      let answer : Result Bool = engine.is_authorized subject action resource project in
      let event : LogEvent = policy_evaluation engine req subject action resource project answer in
      let tells = policy_evaluation-Tells answer in
      elim (emit_log-cases o event p) [
        | inl same ↦ (refl, inl same)
        | inr added ↦ (
          refl,
          inr (
            normalize_log_event o p.received event,
            added.0,
            added.1,
            normalize-Tells o p.received event answer tells,
          ),
        )
      ]
