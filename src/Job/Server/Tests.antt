-- ===== src/Job/Server/Tests.antt =====
-- Runs of the server with a transport that starts, or refuses, and a store without jobs.
use kratos_core.Prelude.{Option, none, some, [], ◌∷◌}
use kratos_core.Prelude.Int.{pos}
use kratos_core.Prelude.Error.{Error, ok, err, plain}
use kratos_core.Job.World.{Env, State, configured, returned, timer_started}

abbrev env_with : Option Error → Env
env_with down = record {
  list_jobs = λ ctx t. elim down [ none ↦ ok [] | some e ↦ err e ];
  find_by_id = λ ctx id t. err (plain "missing");
  update_entry_id = λ ctx id e t. none;
  start_timer_job = λ spec timer t. ok (pos 9);
  lookup_task = λ name. none;
  decode_args = λ raw. ok [];
  encode_args = λ args. "";
  acquire = λ locker ctx key t. err (plain "held");
  exec = λ target ctx args t. returned [] none;
  now = λ t. 10;
  error_text = λ e. "error";
  join = λ l. "";
  lock_key = λ id. "key";
  start_transport = λ ctx t. none;
  stop_transport = λ ctx t. some (plain "slow");
  with_cancel = λ ctx t. 1;
}

abbrev begin : State
begin = record { run_context = none; locker = some configured; run_cancel = none; trace = [] }

abbrev running : State
running = record {
  run_context = some 1;
  locker = some configured;
  run_cancel = some 1;
  trace =
      timer_started "0 0 * * * *"
        (record { run_context = some 1; job_id = pos 1; args = []; target = 1 }) (ok (pos 9))
      ∷ [];
}
