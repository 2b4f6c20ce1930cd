-- ===== src/Job/Scheduler.antt =====
-- job/scheduler.go, job/execution.go, job/execution_lock.go and job/registry.go.
-- A method that returns `error` is an action of `Job`; the job record that it changes through a
-- pointer is its result. The mutex `scheduleMu` makes each method one action.
pub mod Start
pub mod Replaced
pub mod Persisted
pub mod Reload
pub mod Execution
pub mod Params
mod Tests
use Prim.Native.String.{◌++◌ as str_append}
use kratos_core.Prelude.{
  ℕ, ◌-◌, String, ◌≡◌, Bool, true, false, not, ◌&&◌, Option, none, some, List, [], ◌∷◌,
  if◌then◌else◌,
}
use kratos_core.Prelude.Int.{ℤ, pos, is_pos, to_i32}
use kratos_core.Prelude.Eq.{◌==◌, string_eq, int_eq, insert}
use kratos_core.Prelude.Error.{
  Error, Result, ok, err, plain, with_cause, resource_not_found, conflict, is_not_obtained,
}
use kratos_core.Job.World.{
  JobRecord, JobLogRecord, status_enable, log_success, log_fail, Context, background, Args,
  TaskExec, JobArg, Outcome, returned, panicked, TimerJob, Lease, ExecutionLocker, configured,
  memory, uninitialised, Event, listed, found, updated, timer_started, timer_stopped, acquired,
  released, locker_closed, executed, clock_read, log_queued, Env, State, Job, emit, ◌>>=◌, ◌>>◌,
  pure, lift, gets, perform, when, check, on_error,
}

abbrev pub or_background : Option Context → Context
or_background none = background
or_background (some ctx) = ctx

-- One step of the loop of `parseJobArgs`.
put_arg : Option JobArg → Args → Args
put_arg none m = m
put_arg (some a) m = if a.key == "" then m else insert a.key a.value m

-- The map that the loop of `parseJobArgs` builds, from the map so far.
unfoldable pub collect_args : Args → List (Option JobArg) → Args
unfolding put_arg
collect_args m [] = m
collect_args m (item ∷ rest) = collect_args (put_arg item m) rest

module _ (env : Env) where
  unfoldable pub parse_job_args : String → Result Args
  unfolding collect_args
  parse_job_args raw =
      if raw == ""
      then ok []
      else elim (env.decode_args raw) [ ok items ↦ ok (collect_args [] items) | err e ↦ err e ]

  abbrev registered : Option (Option TaskExec) → Result TaskExec
  registered (some (some target)) = ok target
  registered _ = err (resource_not_found "调用目标不存在")

  unfoldable pub lookup_task_exec : String → Result TaskExec
  lookup_task_exec name =
      if name == "" then err (resource_not_found "调用目标不存在") else registered (env.lookup_task name)

  -- The calls of the job store and of the cron transport.
  abbrev pub find_by_id : Option Context → ℤ → Job JobRecord
  find_by_id ctx id s = (env.find_by_id ctx id s.trace, emit (found id) s)

  unfoldable pub update_base_job_entry_id : Option Context → ℤ → ℤ → Job (Unit {0})
  update_base_job_entry_id ctx id entry s =
      let e = env.update_entry_id ctx id entry s.trace in (check e, emit (updated id entry e) s)

  abbrev pub start_timer_job : String → TimerJob → Job ℤ
  start_timer_job spec timer s =
      let r = env.start_timer_job spec timer s.trace in (r, emit (timer_started spec timer r) s)

  abbrev pub read_clock : Job ℕ
  read_clock s = (ok (env.now s.trace), emit clock_read s)

  abbrev pub current_entry : JobRecord → JobRecord → ℤ
  current_entry current given = if is_pos current.entry_id then current.entry_id else given.entry_id

  unfoldable pub stop_job : Option Context → JobRecord → Job JobRecord
  unfolding update_base_job_entry_id
  stop_job ctx job = do
    current ← find_by_id ctx job.id
    let entry = current_entry current job
    update_base_job_entry_id ctx job.id (pos 0)
    when (is_pos entry) (perform (timer_stopped entry))
    pure (record job { entry_id = pos 0 })

  abbrev or_context : Option Context → Option Context → Option Context
  or_context none ctx = ctx
  or_context (some run) ctx = some run

  abbrev pub timer_of : Option Context → JobRecord → Args → TaskExec → State → TimerJob
  timer_of ctx job args target s = record {
    run_context = or_context s.run_context ctx;
    job_id = job.id;
    args = args;
    target = target;
  }

  -- `startJob` from the registration of the new timer on; `old` is `oldEntryID`.
  unfoldable pub register_job : Option Context → JobRecord → TaskExec → Args → ℤ → Job JobRecord
  unfolding update_base_job_entry_id
  register_job ctx job target args old = do
    timer ← gets (timer_of ctx job args target)
    entry ← start_timer_job job.cron_expression timer
    on_error (update_base_job_entry_id ctx job.id (to_i32 entry)) (emit (timer_stopped entry))
    when (is_pos old && not (old == to_i32 entry)) (perform (timer_stopped old))
    pure (record job { entry_id = to_i32 entry })

  unfoldable pub start_job : Option Context → JobRecord → Job JobRecord
  start_job ctx job = do
    target ← lift (lookup_task_exec job.invoke_target)
    args ← lift (parse_job_args job.args)
    current ← find_by_id ctx job.id
    register_job ctx job target args (current_entry current job)

  -- `for _, startedJob := range slices.Backward(startedJobs)`; the newest stands first.
  unfoldable pub rollback : Option Context → List JobRecord → State → State
  rollback ctx [] s = s
  rollback ctx (job ∷ rest) s =
      let (r, s') = stop_job ctx job s in elim r [ ok _ ↦ rollback ctx rest s' | err _ ↦ s' ]

  -- The loop of `reloadJobs`.
  unfoldable pub reload_each : Option Context → List JobRecord → List JobRecord → Job (Unit {0})
  reload_each ctx started [] = pure tt
  reload_each ctx started (item ∷ rest) = do
    reset ← stop_job ctx item
    let skip = reload_each ctx started rest
    let enabled = do
      job ← on_error (start_job ctx reset) (rollback ctx started)
      reload_each ctx (job ∷ started) rest
    if reset.status == status_enable then enabled else skip

  unfoldable pub reload_jobs : Option Context → Job (Unit {0})
  reload_jobs ctx = do
    jobs ← (λ s. (env.list_jobs ctx s.trace, emit listed s))
    reload_each ctx [] jobs

  unfoldable pub reload : Option Context → Job (Unit {0})
  reload ctx s =
      let run = some (or_background ctx) in reload_jobs run (record s { run_context = run })

  unfoldable pub clear_execution_context : State → State
  clear_execution_context s = record s { run_context = none }

  -- `Close` of the scheduler, through `Close` of its locker.
  close_locker : Option ExecutionLocker → State → State
  close_locker none s = s
  close_locker (some uninitialised) s = s
  close_locker (some _) s = emit locker_closed s

  unfoldable pub close : State → State
  unfolding close_locker
  close s = close_locker s.locker s

  -- The deferred part of `Execute`: the status, the log record and the result.
  status_of : Option Error → ℤ
  status_of none = log_success
  status_of (some _) = log_fail

  message_of : Option Error → String
  message_of none = ""
  message_of (some e) = env.error_text e

  -- `recover()` turns a panic into an error; `ret` was not assigned then.
  abbrev outputs : Outcome → List String
  outputs (returned ret e) = ret
  outputs (panicked v) = []

  abbrev failure : Outcome → Option Error
  failure (returned ret e) = e
  failure (panicked v) = some (plain (str_append "任务执行异常: " v))

  unfoldable pub execution_log : ℤ → Args → Outcome → ℕ → ℕ → JobLogRecord
  unfolding status_of message_of
  execution_log job_id args outcome start finish = record {
    job_id = job_id;
    input = env.encode_args args;
    output = env.join (outputs outcome);
    error = message_of (failure outcome);
    status = status_of (failure outcome);
    process_time = to_i32 (pos (finish - start));
    execute_time = start;
  }

  unfoldable pub execute : ℤ → Args → TaskExec → Option Context → Job (Unit {0})
  unfolding execution_log
  execute job_id args target ctx = do
    start ← read_clock
    let run = or_background ctx
    outcome ← (λ s.
        let o = env.exec target run args s.trace in (ok o, emit (executed target run args o) s))
    finish ← read_clock
    perform (log_queued (execution_log job_id args outcome start finish))
    lift (check (failure outcome))

  unfoldable pub log_failure_with_input : ℤ → String → Error → Job (Unit {0})
  log_failure_with_input job_id input e = do
    start ← read_clock
    finish ← read_clock
    perform (
        log_queued (record {
          job_id = job_id;
          input = input;
          output = "";
          error = env.error_text e;
          status = log_fail;
          process_time = to_i32 (pos (finish - start));
          execute_time = start;
        }))

  -- `Acquire` of execution_lock.go; a scheduler without a locker takes a new one in memory.
  unfoldable pub acquire : ExecutionLocker → Option Context → String → Job Lease
  acquire uninitialised ctx key s = (err (plain "任务执行锁未初始化"), s)
  acquire locker ctx key s =
      let r = env.acquire locker ctx key s.trace in (r, emit (acquired locker key r) s)

  abbrev pub locker_or_memory : Option ExecutionLocker → ExecutionLocker
  locker_or_memory none = memory
  locker_or_memory (some l) = l

  -- What `executeJob` returns when the lease was not obtained.
  abbrev pub not_acquired : Bool → Error → Result (Unit {0})
  not_acquired scheduled e =
      if is_not_obtained e && scheduled
      then ok tt
      else if is_not_obtained e
      then err (with_cause (conflict "任务正在其他实例执行") e)
      else err e

  -- The lease is released by a deferred call, whatever the task does.
  with_lease : ℤ → Args → TaskExec → Bool → Result Lease → Job (Unit {0})
  unfolding execute
  with_lease job_id args target scheduled (err e) s = (not_acquired scheduled e, s)
  with_lease job_id args target scheduled (ok lease) s =
      let (r, s') = execute job_id args target lease.context s in (r, emit (released lease) s')

  unfoldable pub execute_job : Option Context → ℤ → Args → TaskExec → Bool → Job (Unit {0})
  unfolding acquire with_lease
  execute_job ctx job_id args target scheduled s =
      let (r, s') = acquire (locker_or_memory s.locker) ctx (env.lock_key job_id) s in
      with_lease job_id args target scheduled r s'

  -- The function that `startJob` hands to the cron transport; an error is only logged.
  unfoldable pub fire : TimerJob → State → State
  unfolding execute_job
  fire timer s = (execute_job timer.run_context timer.job_id timer.args timer.target true s).1

  -- `LogFailureWithInput` and `return err` where a step of `RunJob` fails.
  log_error : {A : Type 0} → JobRecord → Result A → Job A
  unfolding log_failure_with_input
  log_error job (ok a) s = (ok a, s)
  log_error job (err e) s = (err e, (log_failure_with_input job.id job.args e s).1)

  abbrev missing : Error
  missing = resource_not_found "定时任务不存在"

  unfoldable pub run_job : Option Context → Option JobRecord → Job (Unit {0})
  unfolding log_error
  run_job ctx none = lift (err missing)
  run_job ctx (some job) = do
    target ← log_error job (lookup_task_exec job.invoke_target)
    args ← log_error job (parse_job_args job.args)
    execute_job ctx job.id args target false

  unfoldable pub start_job_checked : Option Context → Option JobRecord → Job JobRecord
  start_job_checked ctx none = lift (err missing)
  start_job_checked ctx (some job) = start_job ctx job

  unfoldable pub stop_job_checked : Option Context → Option JobRecord → Job JobRecord
  stop_job_checked ctx none = lift (err missing)
  stop_job_checked ctx (some job) = stop_job ctx job
