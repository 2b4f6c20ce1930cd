-- ===== src/Job/Scheduler/Replaced.antt =====
-- What a start leaves in the place of the old timer.
use mathlib.Core.Path.{subst}
use kratos_core.Prelude.{
  sym, ap, ◌∙◌, String, ◌≡◌, true, false, not, ◌&&◌, ◌||◌, Option, some, List, arith, if◌then◌else◌,
}
use kratos_core.Prelude.Int.{ℤ, is_pos, IsI32, to_i32-id, int_beq_iff}
use kratos_core.Prelude.Eq.{◌==◌, string_eq, int_eq, contains}
use kratos_core.Prelude.Error.{ok}
use kratos_core.Job.World.{JobRecord, Context, TimerJob, Trace, Env, State, run}
use kratos_core.Job.Views.{active, stored}
use kratos_core.Job.Scheduler.{start_job}
use kratos_core.Job.Scheduler.Start.{entry_of, current_entry-entry_of, Registered, start_job_ok}

module _ (env : Env) (ctx : Option Context) (job : JobRecord) where
  -- The timers after a start, and what the store holds.
  pub record Replaced (old : ℤ) (before : List ℤ) (s' : State) (job' : JobRecord) (n : ℤ)
      : Type 0 where
    pub given :
        (timer : TimerJob) × (t : Trace) × (env.start_timer_job job.cron_expression timer t ≡ ok n)
    pub recorded : job' ≡ record job { entry_id = n }
    pub persisted : stored job.id s'.trace ≡ some n
    pub runs :
        (x : ℤ)
        → contains (active s'.trace) x
          ≡ (if n == x then true else if is_pos old && old == x then false else contains before x)

  Registered-Replaced :
      (old : ℤ) (before : List ℤ) (s' : State) (job' : JobRecord) (n : ℤ)
      → IsI32 n
      → Registered env ctx job old before s' job' n
      → Replaced old before s' job' n
  Registered-Replaced old before s' job' n w r = record {
    given = r.given;
    recorded = r.recorded ∙ ap (λ x. record job { entry_id = x }) (to_i32-id n w);
    persisted = r.persisted ∙ ap some (to_i32-id n w);
    runs = λ x.
        r.others x
        ∙ ap
            (λ y.
              if is_pos old && not (old == y) && old == x
              then false
              else n == x || contains before x)
            (to_i32-id n w)
        ∙ ground (arith, int_beq_iff old n, int_beq_iff old x, int_beq_iff n x);
  }

  -- If the numbers that the transport gives to timers fit the type `int32`, and the old number
  -- does, a successful start persists the number of its new timer. Then the new timer runs, the
  -- timer of the old number, if it is another one, does not, and every other timer runs exactly if
  -- it did before. The old number is the positive one that the store held, or else the one of the
  -- given record.
  pub start_job_replaces :
      ((spec : String) (timer : TimerJob) (t : Trace) (e : ℤ)
        → env.start_timer_job spec timer t ≡ ok e
        → IsI32 e)
      → (s : State) (current job' : JobRecord) → env.find_by_id ctx job.id s.trace ≡ ok current
      → IsI32 (entry_of current.entry_id job.entry_id)
      → (start_job env ctx job s).0 ≡ ok job'
      → (n : ℤ) × Replaced
          (entry_of current.entry_id job.entry_id)
          (active s.trace)
          (run (start_job env ctx job) s)
          job'
          n
  start_job_replaces fits s current job' r w h =
      let same = current_entry-entry_of env current job in
      let (n, registered) =
        start_job_ok env ctx job s current job' r (subst (λ x. IsI32 x) (sym same) w) h in
      let (timer, t, given) = registered.given in
      (
        n,
        Registered-Replaced (entry_of current.entry_id job.entry_id) (active s.trace)
            (run (start_job env ctx job) s) job' n (fits job.cron_expression timer t n given)
            (subst
              (λ x.
                Registered env ctx job x (active s.trace) (run (start_job env ctx job) s) job' n)
              same registered),
      )
