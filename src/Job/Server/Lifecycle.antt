-- ===== src/Job/Server/Lifecycle.antt =====
-- `Start` and `Stop`: what a failed start and a stop leave behind.
use kratos_core.Prelude.{◌≡◌, refl, ◌∙◌, Option, none, some, [], arith}
use kratos_core.Prelude.Eq.{int_eq}
use kratos_core.Prelude.Error.{Error}
use kratos_core.Job.World.{Context, Env, State, run, emit, transport_stopped, timers_removed}
use kratos_core.Job.Views.{active}
use kratos_core.Job.Scheduler.{close, clear_execution_context}
use kratos_core.Job.Server.{stop, cancel}

module _ (env : Env) where
  close-active : (s : State) → active (close env s).trace ≡ active s.trace
  unfolding close
  close-active s = ground arith

  close-run_context : (s : State) → (close env s).run_context ≡ s.run_context
  unfolding close
  close-run_context s = ground arith

  close-run_cancel : (s : State) → (close env s).run_cancel ≡ s.run_cancel
  unfolding close
  close-run_cancel s = ground arith

  cancel_clears :
      (o : Option Context) (s : State) → s.run_cancel ≡ o → (cancel env o s).run_cancel ≡ none
  unfolding cancel
  cancel_clears none s h = h
  cancel_clears (some run) s h = refl

  -- The fields that no scheduling action writes.
  record SameFields (s s' : State) : Type 0 where
    context : s'.run_context ≡ s.run_context
    cancel : s'.run_cancel ≡ s.run_cancel

  -- Nothing is scheduled and no execution context is kept.
  pub record IsStopped (s : State) : Type 0 where
    pub no_timer : active s.trace ≡ []
    pub no_context : s.run_context ≡ none
    pub no_cancel : s.run_cancel ≡ none

  -- A stop clears the timers, the execution context and the cancel function, whatever the
  -- transport answers.
  pub stop-IsStopped : (given : Option Context) (s : State) → IsStopped (run (stop env given) s)
  unfolding stop clear_execution_context
  stop-IsStopped given s =
      let u : State =
        record (emit timers_removed (emit transport_stopped (cancel env s.run_cancel s))) {
          run_context = none;
        } in
      record {
        no_timer = close-active u;
        no_context = close-run_context u;
        no_cancel = close-run_cancel u ∙ cancel_clears s.run_cancel s refl;
      }
