-- ===== src/Job/Scheduler/Persisted.antt =====
-- The two steps of `reloadJobs` on one job: the running timers and the store.
use kratos_core.Prelude.{String, ◌≡◌, refl, ◌∙◌, ◌≢◌, Bool, true, false, Option, none, some, arith}
use kratos_core.Prelude.Int.{ℤ, pos, IsI32, to_i32-id, int_beq_iff}
use kratos_core.Prelude.Eq.{◌==◌, int_eq, contains}
use kratos_core.Prelude.Error.{ok}
use kratos_core.Job.World.{JobRecord, Context, TimerJob, Trace, Env, State, run, status_enable}
use kratos_core.Job.Views.{active, stored}
use kratos_core.Job.Scheduler.{start_job, stop_job, current_entry}
use kratos_core.Job.Scheduler.Start.{
  stop_job_ok, stop_job-found, stop_job-stored_ne, start_job_ok, start_job-found,
  start_job-stored_ne,
}

-- What the reload relies on: the store returns the number that it accepted last, and before that
-- the one that it held when the process started, as the listed records do; and the transport
-- gives numbers of the type `int32` that are none of those old ones.
pub record IsFaithful (env : Env) (persisted : ℤ → ℤ) : Type 0 where
  pub find_stored :
      (ctx : Option Context) (id : ℤ) (t : Trace) (c : JobRecord) (e : ℤ)
      → env.find_by_id ctx id t ≡ ok c
      → stored id t ≡ some e
      → c.entry_id ≡ e
  pub find_persisted :
      (ctx : Option Context) (id : ℤ) (t : Trace) (c : JobRecord)
      → env.find_by_id ctx id t ≡ ok c
      → stored id t ≡ none
      → c.entry_id ≡ persisted id
  pub start_small :
      (spec : String) (timer : TimerJob) (t : Trace) (n : ℤ)
      → env.start_timer_job spec timer t ≡ ok n
      → IsI32 n
  pub start_new :
      (spec : String) (timer : TimerJob) (t : Trace) (n id : ℤ)
      → env.start_timer_job spec timer t ≡ ok n
      → persisted id ≢ n

module _ (persisted : ℤ → ℤ) where
  -- A timer of the job runs under the number that the store holds.
  abbrev pub Live : State → ℤ → Type 0
  Live s id =
      (n : ℤ) × (stored id s.trace ≡ some n)
      × (contains (active s.trace) n ≡ true)
      × ((k : ℤ) → persisted k ≢ n)

  -- An enabled job is live, and any other has the number 0.
  abbrev pub SettledIf : Bool → State → ℤ → Type 0
  SettledIf true s id = Live s id
  SettledIf false s id = stored id s.trace ≡ some (pos 0)

  abbrev pub Settled : State → JobRecord → Type 0
  Settled s job = SettledIf (job.status == status_enable) s job.id

  -- What an action on one job leaves to another.
  pub record Keeps (s s' : State) (id : ℤ) : Type 0 where
    pub same : stored id s'.trace ≡ stored id s.trace
    pub running :
        (n : ℤ)
        → ((k : ℤ) → persisted k ≢ n)
        → contains (active s.trace) n ≡ true
        → contains (active s'.trace) n ≡ true

  pub Keeps-refl : (s : State) (id : ℤ) → Keeps s s id
  Keeps-refl s id = record { same = refl; running = λ n a h. h }

  pub Keeps-trans : {s t u : State} {id : ℤ} → Keeps s t id → Keeps t u id → Keeps s u id
  Keeps-trans a b = record {
    same = b.same ∙ a.same;
    running = λ n f h. b.running n f (a.running n f h);
  }

  pub Keeps-SettledIf :
      {s s' : State} {id : ℤ} (b : Bool) → Keeps s s' id → SettledIf b s id → SettledIf b s' id
  Keeps-SettledIf true k (n, p, a, f) = (n, k.same ∙ p, k.running n f a, f)
  Keeps-SettledIf false k h = k.same ∙ h

module _ (env : Env) (persisted : ℤ → ℤ) (faithful : IsFaithful env persisted)
    (ctx : Option Context) where
  open faithful use {find_stored, find_persisted, start_small, start_new}

  -- The entry number that a stop finds is an old one.
  stop_entry :
      (job current : JobRecord) (s : State)
      → env.find_by_id ctx job.id s.trace ≡ ok current
      → stored job.id s.trace ≡ none
      → job.entry_id ≡ persisted job.id
      → current_entry env current job ≡ persisted job.id
  stop_entry job current s f u l = ground (arith, find_persisted ctx job.id s.trace current f u)

  -- The first step of the loop on a job that was not touched yet.
  pub stop_job-Keeps :
      (job job' : JobRecord) (s : State) (id : ℤ)
      → stored job.id s.trace ≡ none
      → job.entry_id ≡ persisted job.id
      → (stop_job env ctx job s).0 ≡ ok job'
      → job.id ≢ id
      → Keeps persisted s (run (stop_job env ctx job) s) id
  stop_job-Keeps job job' s id u l h d =
      let (current, f) = stop_job-found env ctx job s job' h in
      let others = (stop_job_ok env ctx job s current job' f h).2 in
      let old = stop_entry job current s f u l in
      record {
        same = stop_job-stored_ne env ctx job s id d;
        running = λ n new a.
            ground
              (arith, others n, old, new job.id, a, int_beq_iff (current_entry env current job) n);
      }

  -- The record after a stop and the one that the store then holds both have the number 0.
  start_entry :
      (job current : JobRecord) (s : State)
      → env.find_by_id ctx job.id s.trace ≡ ok current
      → stored job.id s.trace ≡ some (pos 0)
      → job.entry_id ≡ pos 0
      → current_entry env current job ≡ pos 0
  start_entry job current s f u l =
      ground (arith, find_stored ctx job.id s.trace current (pos 0) f u)

  -- The second step, on a job that was just stopped.
  pub start_job-Live :
      (job job' : JobRecord) (s : State)
      → stored job.id s.trace ≡ some (pos 0)
      → job.entry_id ≡ pos 0
      → (start_job env ctx job s).0 ≡ ok job'
      → Live persisted (run (start_job env ctx job) s) job.id
        × ((id : ℤ) → job.id ≢ id → Keeps persisted s (run (start_job env ctx job) s) id)
  start_job-Live job job' s u l h =
      let (current, f) = start_job-found env ctx job s job' h in
      let e : current_entry env current job ≡ pos 0 = start_entry job current s f u l in
      let small : IsI32 (current_entry env current job) = rw e (omega arith) in
      let (n, r) = start_job_ok env ctx job s current job' f small h in
      let (timer, t, p) = r.given in
      (
        (
          n,
          rw (to_i32-id n (start_small _ timer t n p)) at r.persisted,
          r.running,
          λ k. start_new _ timer t n k p,
        ),
        λ id d. record {
          same = start_job-stored_ne env ctx job s id d;
          running = λ m new a. ground (arith, r.others m, e);
        },
      )
