-- ===== src/Job/Scheduler/Tests.antt =====
-- Runs of the scheduler in one environment: a store that holds the number 7 of an earlier process
-- for each job, refuses numbers for job 3, and a transport that starts one timer, number 9.
use kratos_core.Job.Scheduler.Replaced.{Replaced, start_job_replaces}
use mathlib.Core.Path.{subst}
use kratos_core.Job.World.{TimerJob, Trace}
use kratos_core.Prelude.Int.{IsI32}
use kratos_core.Prelude.{
  String, ◌≡◌, refl, true, false, Option, none, some, List, [], ◌∷◌, arith, if◌then◌else◌, All,
}
use kratos_core.Prelude.Int.{ℤ, pos, to_i32}
use kratos_core.Prelude.Eq.{◌==◌, string_eq, int_eq, contains, remove}
use kratos_core.Prelude.Error.{Result, ok, err, plain, not_obtained}
use kratos_core.Job.World.{
  JobRecord, JobArg, TaskExec, Env, State, configured, Lease, panicked, run, updated, timer_started,
}
use kratos_core.Job.Views.{active, stored}
use kratos_core.Job.Scheduler.{
  start_job, register_job, reload_each, stop_job, reload_jobs, execute_job, acquire, parse_job_args,
  lookup_task_exec,
}
use kratos_core.Job.Scheduler.Start.{IsFresh, Unchanged, start_job_err, stop_job_ok, stop_job_stale}
use kratos_core.Job.Scheduler.Persisted.{IsFaithful, Settled}
use kratos_core.Job.Scheduler.Reload.{reload_jobs_settles}
use kratos_core.Job.Scheduler.Execution.{Attempt, Logged, execute_job_acquired}

abbrev persisted : ℤ → ℤ
persisted id = pos 7

abbrev job_with : ℤ → ℤ → JobRecord
job_with id status = record {
  id = id;
  invoke_target = "clean";
  args = "[]";
  cron_expression = "0 0 * * * *";
  status = status;
  entry_id = pos 7;
}

abbrev entry_or_old : Option ℤ → ℤ
entry_or_old none = pos 7
entry_or_old (some e) = e

abbrev one_timer : List ℤ → Result ℤ
one_timer [] = ok (pos 9)
one_timer (_ ∷ _) = err (plain "busy")

abbrev clean_task : String → Option (Option TaskExec)
clean_task name = if name == "clean" then some (some 1) else none

abbrev sample_args : List (Option JobArg)
sample_args =
    some (record { key = "days"; value = "3" })
    ∷ none
    ∷ some (record { key = "days"; value = "5" })
    ∷ []

abbrev lock_of : String → Result Lease
lock_of key = if key == "held" then err not_obtained else ok (record { ident = 4; context = none })

abbrev env : Env
env = record {
  list_jobs = λ ctx t. ok (job_with (pos 1) (pos 1) ∷ job_with (pos 2) (pos 2) ∷ []);
  find_by_id =
      λ ctx id t. ok (record (job_with id (pos 1)) { entry_id = entry_or_old (stored id t) });
  update_entry_id = λ ctx id e t. if id == pos 3 then some (plain "refused") else none;
  start_timer_job = λ spec timer t. one_timer (active t);
  lookup_task = clean_task;
  decode_args = λ raw. if raw == "{" then err (plain "syntax") else ok sample_args;
  encode_args = λ args. "";
  acquire = λ locker ctx key t. lock_of key;
  exec = λ target ctx args t. panicked "boom";
  now = λ t. 10;
  error_text = λ e. "error";
  join = λ l. "";
  lock_key = λ id. if id == pos 2 then "held" else "free";
  start_transport = λ ctx t. none;
  stop_transport = λ ctx t. none;
  with_cancel = λ ctx t. 1;
}

one_timer_absent : (l : List ℤ) (e : ℤ) → one_timer l ≡ ok e → contains l e ≡ false
unfolding contains
one_timer_absent [] e h = refl
one_timer_absent (_ ∷ _) e h = absurd cc

fresh : IsFresh env
fresh = record { absent = λ spec timer t e h. one_timer_absent (active t) e h }

faithful : IsFaithful env persisted
faithful = record {
  find_stored = λ ctx id t c e h u. ground (arith, h, u);
  find_persisted = λ ctx id t c h u. ground (arith, h, u);
  start_small = λ spec timer t n h. ground (arith, h);
  start_new = λ spec timer t n id h. ground (arith, h);
}

abbrev begin : State
begin = record { run_context = none; locker = some configured; run_cancel = none; trace = [] }

start_job_err_example : Unchanged begin (run (start_job env none (job_with (pos 3) (pos 1))) begin)
unfolding start_job lookup_task_exec parse_job_args register_job
start_job_err_example =
    start_job_err env fresh none (job_with (pos 3) (pos 1)) begin (plain "refused") refl

-- Every number that the transport gives is 9.
fits :
    (spec : String) (timer : TimerJob) (t : Trace) (e : ℤ)
    → env.start_timer_job spec timer t ≡ ok e
    → IsI32 e
fits spec timer t e h =
    let same : pos 9 ≡ e = ground (arith, h) in subst (λ x. IsI32 x) same (omega arith)

start_job_replaces_example :
    (n : ℤ) × Replaced env none
      (job_with (pos 1) (pos 1))
      (pos 7)
      []
      (run (start_job env none (job_with (pos 1) (pos 1))) begin)
      (record (job_with (pos 1) (pos 1)) { entry_id = pos 9 })
      n
unfolding start_job lookup_task_exec parse_job_args register_job to_i32
start_job_replaces_example =
    start_job_replaces env none (job_with (pos 1) (pos 1)) fits begin (job_with (pos 1) (pos 1))
      (record (job_with (pos 1) (pos 1)) { entry_id = pos 9 }) refl (omega arith) refl

-- Job 1 runs under the number 9.
abbrev running : State
running = record begin {
  trace =
      updated (pos 1) (pos 9) none
      ∷ timer_started "0 0 * * * *"
          (record { run_context = none; job_id = pos 1; args = []; target = 1 }) (ok (pos 9))
      ∷ [];
}

stop_job_ok_example :
    let s' = run (stop_job env none (job_with (pos 1) (pos 1))) running in
    (record (job_with (pos 1) (pos 1)) { entry_id = pos 0 }
      ≡ record (job_with (pos 1) (pos 1)) { entry_id = pos 0 })
    × (stored (pos 1) s'.trace ≡ some (pos 0))
    × ((x : ℤ)
        → contains (active s'.trace) x
          ≡ (if pos 9 == x then false else contains (active running.trace) x))
unfolding stop_job
stop_job_ok_example =
    stop_job_ok env none (job_with (pos 1) (pos 1)) running
      (record (job_with (pos 1) (pos 1)) { entry_id = pos 9 })
      (record (job_with (pos 1) (pos 1)) { entry_id = pos 0 }) refl refl

-- The store holds for job 2 the number 9 of an earlier process, which now runs job 1's timer.
abbrev stale_env : Env
stale_env = record env {
  find_by_id = λ ctx id t. ok (record (job_with id (pos 1)) { entry_id = pos 9 });
}

stop_job_stale_example :
    let s' = run (stop_job stale_env none (job_with (pos 2) (pos 1))) running in
    (stored (pos 1) s'.trace ≡ some (pos 9)) × (contains (active s'.trace) (pos 9) ≡ false)
unfolding stop_job
stop_job_stale_example =
    stop_job_stale stale_env none (job_with (pos 2) (pos 1)) running
      (record (job_with (pos 2) (pos 1)) { entry_id = pos 9 })
      (record (job_with (pos 2) (pos 1)) { entry_id = pos 0 }) (pos 1) refl refl (λ e. cc) refl refl

reload_jobs_settles_example :
    All
      (Settled persisted (run (reload_jobs env none) begin))
      (job_with (pos 1) (pos 1) ∷ job_with (pos 2) (pos 2) ∷ [])
unfolding reload_jobs reload_each start_job stop_job lookup_task_exec parse_job_args register_job
    to_i32 remove
reload_jobs_settles_example =
    reload_jobs_settles env persisted faithful none
      (job_with (pos 1) (pos 1) ∷ job_with (pos 2) (pos 2) ∷ []) begin refl
      (refl, refl, ((λ e. cc), tt), (refl, refl, tt, tt)) refl

execute_job_acquired_example :
    let (r, s') = execute_job env none (pos 1) [] 1 true begin in
    Attempt begin s' 1 1 × Logged env (pos 1) r begin s'
execute_job_acquired_example =
    execute_job_acquired env none (pos 1) [] 1 true begin (record { ident = 4; context = none })
      (unfold acquire in refl)
