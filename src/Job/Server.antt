-- ===== src/Job/Server.antt =====
-- job/server.go: the lifecycle of the scheduler in the application. The mutex makes each method one
-- action; the server and its scheduler are present, as `NewServer` returns none without them.
pub mod Lifecycle
mod Tests
use kratos_core.Prelude.{Option, none, some, ◌∷◌}
use kratos_core.Prelude.Error.{Error, ok, err}
use kratos_core.Job.World.{
  Context, Env, State, Job, transport_started, transport_stopped, timers_removed, context_canceled,
  emit, check,
}
use kratos_core.Job.Scheduler.{reload, clear_execution_context, close, or_background}

module _ (env : Env) where
  -- The error path of `Start` after the transport runs.
  abort : Context → State → State
  abort run s = close env (
      clear_execution_context env
        (emit timers_removed (emit transport_stopped (emit (context_canceled run) s))))

  reload_or_abort : Context → Job (Unit {0})
  unfolding abort
  reload_or_abort run s =
      let (r, s') = reload env (some run) s in
      elim r [ ok _ ↦ (ok tt, record s' { run_cancel = some run }) | err e ↦ (err e, abort run s') ]

  unfoldable pub start : Option Context → Job (Unit {0})
  unfolding reload_or_abort
  start given s =
      let ctx = or_background given in
      let e = env.start_transport ctx s.trace in
      let s' = emit (transport_started e) s in
      elim e [
        | none ↦ reload_or_abort (env.with_cancel ctx s'.trace) s'
        | some x ↦ (err x, close env s')
      ]

  cancel : Option Context → State → State
  cancel none s = s
  cancel (some run) s = record (emit (context_canceled run) s) { run_cancel = none }

  unfoldable pub stop : Option Context → Job (Unit {0})
  unfolding cancel
  stop given s =
      let s₁ = cancel s.run_cancel s in
      let e = env.stop_transport (or_background given) s₁.trace in
      let s₂ = emit timers_removed (emit transport_stopped s₁) in
      (check e, close env (clear_execution_context env s₂))
