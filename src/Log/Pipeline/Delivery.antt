-- ===== src/Log/Pipeline/Delivery.antt =====
-- The events that are accepted, received and still waiting, over runs of the pipeline.
use kratos_core.Prelude.{
  ℕ, suc, ◌+◌, ◌-◌, ◌≤◌, ◌≡◌, refl, sym, ap, ◌∙◌, true, List, [], ◌∷◌, ◌++◌, length, length-append,
  arith, if◌then◌else◌,
}
use mathlib.Core.List.{append-nil, append_assoc}
use kratos_core.Prelude.Error.{Result, ok, err}
use kratos_core.Log.Event.{LogEvent}
use kratos_core.Log.Pipeline.{
  Outside, Pipeline, Action, emits, logs, works, closes, uninstalls, emit, emit_log, step, run,
  normalize_log_event, log_buffer_size, receive,
}

module _ (o : Outside) where
  -- What a call that returned adds to the accepted events.
  abbrev on_ok : Result (Unit {0}) → Pipeline → LogEvent → List LogEvent
  on_ok (ok _) p event = normalize_log_event o p.received event ∷ []
  on_ok (err _) p event = []

  -- What one action, and a list of them, add to the events that were accepted.
  abbrev pub accepted_step : Action o → Pipeline → List LogEvent
  accepted_step (emits event) p = on_ok (emit o event p).0 p event
  accepted_step (logs event) p = if p.installed then on_ok (emit_log o event p).0 p event else []
  accepted_step _ p = []

  abbrev pub accepted : List (Action o) → Pipeline → List LogEvent
  accepted [] p = []
  accepted (a ∷ rest) p = accepted_step a p ++ accepted rest (step o a p)

  -- Every event that was ever accepted, in order.
  abbrev all_events : Pipeline → List LogEvent
  all_events p = p.received ++ p.events

  work-all_events :
      (events : List LogEvent) (p : Pipeline)
      → p.events ≡ events
      → all_events (receive o events p) ≡ all_events p
  unfolding receive
  work-all_events [] p h = refl
  work-all_events (e ∷ rest) p h = rw (h, append_assoc)

  step-all_events :
      (a : Action o) (p : Pipeline) → all_events (step o a p) ≡ all_events p ++ accepted_step a p
  unfolding step
  step-all_events (emits event) p = ground (
    arith,
    append_assoc p.received p.events (normalize_log_event o p.received event ∷ []),
    append-nil (p.received ++ p.events),
  )
  step-all_events (logs event) p = ground (
    arith,
    append_assoc p.received p.events (normalize_log_event o p.received event ∷ []),
    append-nil (p.received ++ p.events),
  )
  step-all_events works p = work-all_events p.events p refl ∙ sym (append-nil _)
  step-all_events closes p = sym (append-nil _)
  step-all_events uninstalls p = sym (append-nil _)

  -- Whatever the interleaving of requests, worker and shutdown, the events that the worker has
  -- received and those that wait are the accepted ones, each once and in order.
  pub run-accepted :
      (actions : List (Action o)) (p : Pipeline)
      → (run o actions p).received ++ (run o actions p).events
        ≡ (p.received ++ p.events) ++ accepted actions p
  unfolding run
  run-accepted [] p = sym (append-nil _)
  run-accepted (a ∷ rest) p =
      run-accepted rest (step o a p)
      ∙ ap (λ l. l ++ accepted rest (step o a p)) (step-all_events a p)
      ∙ append_assoc (all_events p) (accepted_step a p) (accepted rest (step o a p))

  length-step :
      (a : Action o) (p : Pipeline)
      → length p.events ≤ log_buffer_size
      → length (step o a p).events ≤ log_buffer_size
  unfolding step
  length-step (emits event) p h =
      ground (arith, length-append p.events (normalize_log_event o p.received event ∷ []))
  length-step (logs event) p h =
      ground (arith, length-append p.events (normalize_log_event o p.received event ∷ []))
  length-step works p h = work_length p.events p refl h
    where
      work_length :
          (events : List LogEvent) (q : Pipeline)
          → q.events ≡ events
          → length q.events ≤ log_buffer_size
          → length (receive o events q).events ≤ log_buffer_size
      work_length [] q e k = k
      work_length (x ∷ rest) q e k = omega (arith, ap length e)
  length-step closes p h = h
  length-step uninstalls p h = h

  -- A run that starts with at most 2048 events in the buffer never leaves more than 2048 in it.
  pub run-bounded :
      (actions : List (Action o)) (p : Pipeline)
      → length p.events ≤ log_buffer_size
      → length (run o actions p).events ≤ log_buffer_size
  unfolding run
  run-bounded [] p h = h
  run-bounded (a ∷ rest) p h = run-bounded rest (step o a p) (length-step a p h)

  -- The number of worker rounds in a list of actions.
  abbrev pub rounds : List (Action o) → ℕ
  rounds [] = 0
  rounds (works ∷ rest) = suc (rounds rest)
  rounds (_ ∷ rest) = rounds rest

  step-closed : (a : Action o) (p : Pipeline) → p.closed ≡ true → (step o a p).closed ≡ true
  unfolding step receive
  step-closed (emits event) p h = ground arith
  step-closed (logs event) p h = ground arith
  step-closed works p h = ground arith
  step-closed closes p h = refl
  step-closed uninstalls p h = h

  closed_step : (a : Action o) (p : Pipeline) → p.closed ≡ true → accepted_step a p ≡ []
  unfolding emit_log
  closed_step (emits event) p h = ground arith
  closed_step (logs event) p h = ground arith
  closed_step works p h = refl
  closed_step closes p h = refl
  closed_step uninstalls p h = refl

  closed_accepts_none :
      (actions : List (Action o)) (p : Pipeline) → p.closed ≡ true → accepted actions p ≡ []
  closed_accepts_none [] p h = refl
  closed_accepts_none (a ∷ rest) p h =
      rw (closed_step a p h) (closed_accepts_none rest (step o a p) (step-closed a p h))

  length_closed :
      (a : Action o) (p : Pipeline)
      → p.closed ≡ true
      → length (step o a p).events ≡ length p.events - rounds (a ∷ [])
  unfolding step receive
  length_closed (emits event) p h = ground arith
  length_closed (logs event) p h = ground arith
  length_closed works p h = ground arith
  length_closed closes p h = omega arith
  length_closed uninstalls p h = omega arith

  rounds-cons :
      (a : Action o) (rest : List (Action o)) → rounds (a ∷ rest) ≡ rounds (a ∷ []) + rounds rest
  rounds-cons (emits event) rest = omega arith
  rounds-cons (logs event) rest = omega arith
  rounds-cons works rest = omega arith
  rounds-cons closes rest = omega arith
  rounds-cons uninstalls rest = omega arith

  length_drain :
      (actions : List (Action o)) (p : Pipeline)
      → p.closed ≡ true
      → length (run o actions p).events ≡ length p.events - rounds actions
  unfolding run
  length_drain [] p h = omega arith
  length_drain (a ∷ rest) p h = omega (
    arith,
    rounds-cons a rest,
    length_closed a p h,
    length_drain rest (step o a p) (step-closed a p h),
  )

  nil_of_length : (l : List LogEvent) → length l ≡ 0 → l ≡ []
  nil_of_length [] h = refl
  nil_of_length (x ∷ l) h = absurd (omega arith)

  -- After the close the worker needs as many rounds as events wait, whatever else happens between
  -- them: then it has received exactly what was received or waited at the close, in order.
  pub close_drains :
      (actions : List (Action o)) (p : Pipeline)
      → p.closed ≡ true
      → length p.events ≤ rounds actions
      → ((run o actions p).received ≡ p.received ++ p.events) × ((run o actions p).events ≡ [])
  close_drains actions p h enough =
      let empty : (run o actions p).events ≡ [] =
        nil_of_length _ (omega (arith, length_drain actions p h)) in
      let all = run-accepted actions p in
      (
        ground (
          arith,
          all,
          empty,
          closed_accepts_none actions p h,
          append-nil (run o actions p).received,
          append-nil (p.received ++ p.events),
        ),
        empty,
      )
