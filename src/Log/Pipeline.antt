-- ===== src/Log/Pipeline.antt =====
-- biz/base_log.go: `EmitLog`, `LogPipeline.Emit`, the worker `run`, `close` and `NewLogPipeline`.
-- Requests, the worker and the shutdown interleave; each takes the lock or one channel operation
-- at a time, so a run is a list of actions.
pub mod Delivery
use kratos_core.Prelude.{
  ℕ, ◌<◌, String, Bool, true, false, Option, none, some, List, [], ◌∷◌, ◌++◌, length, ltb,
  if◌then◌else◌,
}
use kratos_core.Prelude.Int.{ℤ}
use kratos_core.Prelude.Eq.{◌==◌, string_eq}
use kratos_core.Prelude.Error.{Error, Result, ok, err, plain}
use kratos_core.Log.Event.{LogEvent, normalized}

abbrev pub log_buffer_size : ℕ
log_buffer_size = 2048

-- The clock, the identifier generator, the constant `gorm.DefaultTenantCode`, `json.Marshal` and
-- the queue, each a function of what was handed to the queue before.
pub record Outside : Type 0 where
  pub now : List LogEvent → ℕ
  pub new_guid : List LogEvent → String
  pub default_tenant_code : String
  pub marshal : LogEvent → Result String
  pub append : List String → String → Option Error

-- The channel, oldest event first, whether it is closed, whether the process emits to it, the
-- events that the worker has received, and the bodies that it has handed to the queue.
pub record Pipeline : Type 0 where
  pub events : List LogEvent
  pub closed : Bool
  pub installed : Bool
  pub received : List LogEvent
  pub appended : List String

-- `NewLogPipeline`, before any request.
unfoldable pub new_log_pipeline : Pipeline
new_log_pipeline = record {
  events = [];
  closed = false;
  installed = true;
  received = [];
  appended = [];
}

module _ (o : Outside) where
  -- `normalizeLogEvent`
  unfoldable pub normalize_log_event : List LogEvent → LogEvent → LogEvent
  unfolding normalized
  normalize_log_event seen event =
      normalized (o.now seen) (o.new_guid seen) o.default_tenant_code event

  -- `Emit`: the `select` has a `default`, so a full channel refuses.
  unfoldable pub emit : LogEvent → Pipeline → Result (Unit {0}) × Pipeline
  emit event p =
      if p.closed
      then (err (plain "Core 日志事件缓冲已关闭"), p)
      else if ltb (length p.events) log_buffer_size
      then (ok tt, record p { events = p.events ++ normalize_log_event p.received event ∷ [] })
      else (err (plain "Core 日志事件缓冲已满"), p)

  -- `EmitLog`: without an emitter the event is dropped silently.
  unfoldable pub emit_log : LogEvent → Pipeline → Result (Unit {0}) × Pipeline
  unfolding emit
  emit_log event p = if p.installed then emit event p else (ok tt, p)

  -- One round of `run`: what cannot be serialised or appended is only logged.
  abbrev bodies : Result String → List String → List String
  bodies (ok body) sent = sent ++ body ∷ []
  bodies (err e) sent = sent

  receive : List LogEvent → Pipeline → Pipeline
  receive [] p = p
  receive (event ∷ rest) p = record p {
    events = rest;
    received = p.received ++ event ∷ [];
    appended = bodies (o.marshal event) p.appended;
  }

  unfoldable pub work : Pipeline → Pipeline
  unfolding receive
  work p = receive p.events p

  -- `close`; a second call changes nothing. It waits until the channel is drained.
  unfoldable pub close : Pipeline → Pipeline
  close p = record p { closed = true }

  -- `SetLogEmitter(nil)`
  unfoldable pub uninstall : Pipeline → Pipeline
  uninstall p = record p { installed = false }

  pub data Action : Type 0 where
    emits logs : LogEvent → Action
    works closes uninstalls : Action

  unfoldable pub step : Action → Pipeline → Pipeline
  unfolding emit emit_log work close uninstall
  step (emits event) p = (emit event p).1
  step (logs event) p = (emit_log event p).1
  step works p = work p
  step closes p = close p
  step uninstalls p = uninstall p

  unfoldable pub run : List Action → Pipeline → Pipeline
  unfolding step
  run [] p = p
  run (a ∷ rest) p = run rest (step a p)
