-- ===== src/Job/World.antt =====
-- data/job.go, and what the job package calls outside the repository: the job store, the cron
-- transport, the lock manager, the task executors, the clock and the message queue.
-- Each call is an event of a trace, newest first, and an outside answer is a function of the trace
-- so far. So any behaviour of the outside is an environment.
use kratos_core.Prelude.{ℕ, String, Bool, Option, none, some, List, ◌∷◌, if◌then◌else◌}
use kratos_core.Prelude.Int.{ℤ, pos}
use kratos_core.Prelude.Error.{Error, Result, ok, err}

pub record JobRecord : Type 0 where
  pub id : ℤ
  pub invoke_target : String
  pub args : String
  pub cron_expression : String
  pub status : ℤ
  pub entry_id : ℤ

pub record JobLogRecord : Type 0 where
  pub job_id : ℤ
  pub input : String
  pub output : String
  pub error : String
  pub status : ℤ
  pub process_time : ℤ
  pub execute_time : ℕ

abbrev pub status_enable : ℤ
status_enable = pos 1

abbrev pub log_success : ℤ
log_success = pos 1

abbrev pub log_fail : ℤ
log_fail = pos 2

-- A context object by its identity; 0 is `context.Background()`.
abbrev pub Context : Type 0
Context = ℕ

abbrev pub background : Context
background = 0

abbrev pub Args : Type 0
Args = List (String × String)

-- A registered executor by its identity.
abbrev pub TaskExec : Type 0
TaskExec = ℕ

pub record JobArg : Type 0 where
  pub key : String
  pub value : String

pub data Outcome : Type 0 where
  returned : List String → Option Error → Outcome
  panicked : String → Outcome

-- What the closure that a timer runs has captured.
pub record TimerJob : Type 0 where
  pub run_context : Option Context
  pub job_id : ℤ
  pub args : Args
  pub target : TaskExec

pub record Lease : Type 0 where
  pub ident : ℕ
  pub context : Option Context

-- execution_lock.go: `uninitialised` is a locker without a manager.
pub data ExecutionLocker : Type 0 where
  configured memory uninitialised : ExecutionLocker

pub data Event : Type 0 where
  listed : Event
  found : ℤ → Event
  updated : ℤ → ℤ → Option Error → Event
  timer_started : String → TimerJob → Result ℤ → Event
  timer_stopped : ℤ → Event
  timers_removed : Event
  acquired : ExecutionLocker → String → Result Lease → Event
  released : Lease → Event
  locker_closed : Event
  executed : TaskExec → Context → Args → Outcome → Event
  clock_read : Event
  log_queued : JobLogRecord → Event
  transport_started : Option Error → Event
  transport_stopped : Event
  context_canceled : Context → Event

abbrev pub Trace : Type 0
Trace = List Event

pub record Env : Type 0 where
  pub list_jobs : Option Context → Trace → Result (List JobRecord)
  pub find_by_id : Option Context → ℤ → Trace → Result JobRecord
  pub update_entry_id : Option Context → ℤ → ℤ → Trace → Option Error
  pub start_timer_job : String → TimerJob → Trace → Result ℤ
  pub lookup_task : String → Option (Option TaskExec)
  pub decode_args : String → Result (List (Option JobArg))
  pub encode_args : Args → String
  pub acquire : ExecutionLocker → Option Context → String → Trace → Result Lease
  pub exec : TaskExec → Context → Args → Trace → Outcome
  pub now : Trace → ℕ
  pub error_text : Error → String
  pub join : List String → String
  pub lock_key : ℤ → String
  pub start_transport : Context → Trace → Option Error
  pub stop_transport : Context → Trace → Option Error
  pub with_cancel : Context → Trace → Context

-- The scheduler's fields that change, with `runCancel` of server.go, and the trace.
pub record State : Type 0 where
  pub run_context : Option Context
  pub locker : Option ExecutionLocker
  pub run_cancel : Option Context
  pub trace : Trace

abbrev pub emit : Event → State → State
emit e s = record s { trace = e ∷ s.trace }

abbrev pub Job : Type 0 → Type 0
Job A = State → Result A × State

infixl 5 ◌>>=◌ ◌>>◌
abbrev continue : {A B : Type 0} → Result A → (A → Job B) → Job B
continue (ok a) f s = f a s
continue (err e) f s = (err e, s)

abbrev pub ◌>>=◌ : {A B : Type 0} → Job A → (A → Job B) → Job B
◌>>=◌ m f s = let (r, s') = m s in continue r f s'

abbrev pub ◌>>◌ : {A B : Type 0} → Job A → Job B → Job B
m >> n = m >>= λ _. n

abbrev pub pure : {A : Type 0} → A → Job A
pure a s = (ok a, s)

abbrev pub lift : {A : Type 0} → Result A → Job A
lift r s = (r, s)

abbrev pub gets : {A : Type 0} → (State → A) → Job A
gets f s = (ok (f s), s)

abbrev pub perform : Event → Job (Unit {0})
perform e s = (ok tt, emit e s)

abbrev pub when : Bool → Job (Unit {0}) → Job (Unit {0})
when b m = if b then m else pure tt

-- A call that returns `error` alone.
abbrev pub check : Option Error → Result (Unit {0})
check none = ok tt
check (some e) = err e

-- `if err != nil { cleanup }; return err`
abbrev pub on_error : {A : Type 0} → Job A → (State → State) → Job A
on_error m cleanup s =
    let (r, s') = m s in elim r [ ok a ↦ (ok a, s') | err e ↦ (err e, cleanup s') ]

abbrev pub run : {A : Type 0} → Job A → State → State
run m s = (m s).1
