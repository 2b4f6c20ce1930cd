-- ===== src/Job/Views.antt =====
-- What a trace of the job package leaves behind: the timers that still run, the entry number that
-- the store holds for a job, the leases that are held and the log records that were queued.
use kratos_core.Prelude.{ℕ, suc, Option, none, some, List, [], ◌∷◌, if◌then◌else◌}
use kratos_core.Prelude.Int.{ℤ}
use kratos_core.Prelude.Eq.{◌==◌, int_eq, remove}
use kratos_core.Prelude.Error.{ok}
use kratos_core.Job.World.{
  JobLogRecord, timer_started, timer_stopped, timers_removed, updated, acquired, released, executed,
  log_queued, Trace,
}

-- The entry numbers of the timers that were started and not stopped since.
abbrev pub active : Trace → List ℤ
active [] = []
active (timer_started _ _ (ok e) ∷ t) = e ∷ active t
active (timer_stopped e ∷ t) = remove e (active t)
active (timers_removed ∷ t) = []
active (_ ∷ t) = active t

-- The last entry number that the store accepted for the job.
abbrev pub stored : ℤ → Trace → Option ℤ
stored id [] = none
stored id (updated j e none ∷ t) = if j == id then some e else stored id t
stored id (_ ∷ t) = stored id t

-- Leases obtained, leases given back, executions and queued log records.
abbrev pub obtained : Trace → ℕ
obtained [] = 0
obtained (acquired _ _ (ok _) ∷ t) = suc (obtained t)
obtained (_ ∷ t) = obtained t

abbrev pub given_back : Trace → ℕ
given_back [] = 0
given_back (released _ ∷ t) = suc (given_back t)
given_back (_ ∷ t) = given_back t

abbrev pub executions : Trace → ℕ
executions [] = 0
executions (executed _ _ _ _ ∷ t) = suc (executions t)
executions (_ ∷ t) = executions t

abbrev pub logs : Trace → List JobLogRecord
logs [] = []
logs (log_queued r ∷ t) = r ∷ logs t
logs (_ ∷ t) = logs t
