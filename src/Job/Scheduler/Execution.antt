-- ===== src/Job/Scheduler/Execution.antt =====
-- `executeJob`, `Execute` and `RunJob`: leases, executions and log records on every branch.
use kratos_core.Prelude.{
  ℕ, ◌+◌, ◌-◌, String, ◌≡◌, refl, ◌⊎◌, inl, inr, Bool, Option, none, some, ◌∷◌, arith,
  if◌then◌else◌,
}
use kratos_core.Prelude.Int.{ℤ, pos, to_i32}
use kratos_core.Prelude.Error.{Error, Result, ok, err, is_not_obtained, with_cause, conflict}
use kratos_core.Job.World.{
  JobRecord, JobLogRecord, log_success, log_fail, Context, Args, TaskExec, Outcome, Lease, Env,
  State, ExecutionLocker, run, returned, panicked, check, executed, acquired, clock_read, emit,
}
use kratos_core.Job.Views.{active, obtained, given_back, executions, logs}
use kratos_core.Job.Scheduler.{
  execute, execute_job, execution_log, acquire, locker_or_memory, run_job, or_background,
  log_failure_with_input, lookup_task_exec, parse_job_args, failure,
}

-- What one attempt to run a task leaves in the trace.
pub record Attempt (s s' : State) (leases runs : ℕ) : Type 0 where
  pub leased : obtained s'.trace ≡ leases + obtained s.trace
  pub returned_lease : given_back s'.trace ≡ leases + given_back s.trace
  pub executed : executions s'.trace ≡ runs + executions s.trace
  pub timers : active s'.trace ≡ active s.trace

-- One log record, marked as a success exactly if there was no error.
pub record Logged (env : Env) (job_id : ℤ) (r : Result (Unit {0})) (s s' : State) : Type 0 where
  pub log : JobLogRecord
  pub queued : logs s'.trace ≡ log ∷ logs s.trace
  pub of_job : log.job_id ≡ job_id
  pub outcome :
      ((r ≡ ok tt) × (log.status ≡ log_success) × (log.error ≡ ""))
      ⊎ ((e : Error) × (r ≡ err e) × (log.status ≡ log_fail) × (log.error ≡ env.error_text e))

abbrev result_of : Option Error → Result (Unit {0})
result_of none = ok tt
result_of (some e) = err e

-- The log record that `Execute` queues from state `s`.
abbrev log_of : Env → ℤ → Args → TaskExec → Context → State → JobLogRecord
log_of env job_id args target run s =
    let o = env.exec target run args (clock_read ∷ s.trace) in
    execution_log env job_id args o (env.now s.trace)
      (env.now (executed target run args o ∷ clock_read ∷ s.trace))

outcome_of :
    (env : Env) (job_id : ℤ) (args : Args) (o : Outcome) (start finish : ℕ)
    → let log = execution_log env job_id args o start finish in
      ((check (failure env o) ≡ ok tt) × (log.status ≡ log_success) × (log.error ≡ ""))
      ⊎ ((e : Error) × (check (failure env o) ≡ err e)
          × (log.status ≡ log_fail)
          × (log.error ≡ env.error_text e))
unfolding execution_log
outcome_of env job_id args (returned ret none) start finish = inl (refl, refl, refl)
outcome_of env job_id args (returned ret (some e)) start finish = inr (e, refl, refl, refl)
outcome_of env job_id args (panicked v) start finish = inr (_, refl, refl, refl)

execute_effect :
    (env : Env) (job_id : ℤ) (args : Args) (target : TaskExec) (ctx : Option Context) (s : State)
    → let (r, s') = execute env job_id args target ctx s in
      Attempt s s' 0 1 × Logged env job_id r s s'
unfolding execute
execute_effect env job_id args target ctx s = (
  record {
    leased = omega arith;
    returned_lease = omega arith;
    executed = omega arith;
    timers = refl;
  },
  record {
    log = log_of env job_id args target (or_background ctx) s;
    queued = refl;
    of_job = refl;
    outcome =
        let o = env.exec target (or_background ctx) args (clock_read ∷ s.trace) in
        outcome_of env job_id args o (env.now s.trace)
          (env.now (executed target (or_background ctx) args o ∷ clock_read ∷ s.trace));
  },
)

acquire_ok :
    (env : Env) (locker : ExecutionLocker) (ctx : Option Context) (key : String) (s : State)
    (lease : Lease)
    → (acquire env locker ctx key s).0 ≡ ok lease
    → acquire env locker ctx key s ≡ (ok lease, emit (acquired locker key (ok lease)) s)
unfolding acquire
acquire_ok env locker ctx key s lease h = ground arith

module _ (env : Env) (ctx : Option Context) (job_id : ℤ) (args : Args) (target : TaskExec)
    (scheduled : Bool) where
  abbrev pub asks : State → Result Lease
  asks s = (acquire env (locker_or_memory env s.locker) ctx (env.lock_key job_id) s).0

  -- Without a lease nothing is executed and nothing is logged. A scheduled run whose lock is held
  -- elsewhere is skipped without an error; a run on request then reports a conflict.
  pub execute_job_not_acquired :
      (s : State) (e : Error)
      → asks s ≡ err e
      → let (r, s') = execute_job env ctx job_id args target scheduled s in
        (r ≡ (
          if is_not_obtained e
          then (if scheduled then ok tt else err (with_cause (conflict "任务正在其他实例执行") e))
          else err e))
        × Attempt s s' 0 0
        × (logs s'.trace ≡ logs s.trace)
  unfolding execute_job
  execute_job_not_acquired s e h = ground arith

  -- With a lease the task is executed once, the lease is given back whether the task returns or
  -- panics, and one log record is queued, marked as a success exactly if there was no error.
  pub execute_job_acquired :
      (s : State) (lease : Lease)
      → asks s ≡ ok lease
      → let (r, s') = execute_job env ctx job_id args target scheduled s in
        Attempt s s' 1 1 × Logged env job_id r s s'
  unfolding execute_job
  execute_job_acquired s lease h =
      let locker = locker_or_memory env s.locker in
      let got = acquire_ok env locker ctx (env.lock_key job_id) s lease h in
      let s₁ : State = emit (acquired locker (env.lock_key job_id) (ok lease)) s in
      let (a, l) = execute_effect env job_id args target lease.context s₁ in
      rw got (
        record {
          leased = omega (arith, a.leased);
          returned_lease = omega (arith, a.returned_lease);
          executed = a.executed;
          timers = a.timers;
        },
        record { log = l.log; queued = l.queued; of_job = l.of_job; outcome = l.outcome },
      )

-- `LogFailureWithInput` alone.
failure-Logged :
    (env : Env) (job : JobRecord) (e : Error) (s : State)
    → let s' = run (log_failure_with_input env job.id job.args e) s in
      Attempt s s' 0 0 × Logged env job.id (err e) s s'
unfolding log_failure_with_input
failure-Logged env job e s = (
  record {
    leased = omega arith;
    returned_lease = omega arith;
    executed = omega arith;
    timers = refl;
  },
  record {
    log = record {
      job_id = job.id;
      input = job.args;
      output = "";
      error = env.error_text e;
      status = log_fail;
      process_time = to_i32 (pos (env.now (clock_read ∷ s.trace) - env.now s.trace));
      execute_time = env.now s.trace;
    };
    queued = refl;
    of_job = refl;
    outcome = inr (e, refl, refl, refl);
  },
)

-- Why `RunJob` fails before it asks for the lock.
abbrev pub Refused : Env → JobRecord → Error → Type 0
Refused env job e =
    (lookup_task_exec env job.invoke_target ≡ err e)
    ⊎ ((target : TaskExec) × (lookup_task_exec env job.invoke_target ≡ ok target)
        × (parse_job_args env job.args ≡ err e))

-- A run on request whose executor is not registered or whose arguments do not parse returns that
-- error, asks for no lease, executes nothing, and queues one log record of the failure.
pub run_job-Refused :
    (env : Env) (ctx : Option Context) (job : JobRecord) (e : Error) (s : State)
    → Refused env job e
    → let (r, s') = run_job env ctx (some job) s in
      (r ≡ err e) × Attempt s s' 0 0 × Logged env job.id (err e) s s'
unfolding run_job
run_job-Refused env ctx job e s (inl p) =
    let (a, l) = failure-Logged env job e s in rw p (refl, a, l)
run_job-Refused env ctx job e s (inr (target, p, q)) =
    let (a, l) = failure-Logged env job e s in rw (p, q) (refl, a, l)
