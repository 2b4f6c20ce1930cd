-- ===== src/Queue.antt =====
-- queue/queue.go, decode.go and server.go: the messages of the queue. The queue, its server and
-- JSON are other libraries.
pub mod Delivered
mod Tests
use kratos_core.Prelude.{
  ℕ, String, Bool, true, false, ◌||◌, Option, none, some, List, [], ◌∷◌, length, if◌then◌else◌,
}
use Prim.Native.String.{◌++◌ as str_append}
use kratos_core.Prelude.Eq.{◌==◌, string_eq}
use kratos_core.Prelude.Error.{Error, Result, ok, err, plain, wrapped}
use kratos_core.Prelude.Text.{trim_space}

-- The value of a message under the key data: nothing, also nil, a text, bytes, or a value of type V.
pub data Raw (V : Type 0) : Type 0 where
  missing : Raw V
  text bytes : String → Raw V
  value : V → Raw V

pub record Message (V : Type 0) : Type 0 where
  pub id : String
  pub data_value : Raw V

-- `json.Marshal` and `json.Unmarshal`.
pub record Json (V T : Type 0) : Type 0 where
  pub marshal : V → Result String
  pub unmarshal : String → Result T

-- The queue of the runtime, on a state of its own. A queue need not have the two delayed calls.
pub record Runtime (V S : Type 0) : Type 0 where
  pub append : String → Message V → S → Option Error × S
  pub schedule : Option (String → Message V → ℕ → S → Option Error × S)
  pub cancel : Option (String → String → S → Option Error × S)

module _ {V T : Type 0} (j : Json V T) where
  abbrev pub unmarshal_trimmed : String → Result T
  unmarshal_trimmed data_text =
      if data_text == "" || data_text == "null"
      then err (plain "队列消息 data 为空")
      else j.unmarshal data_text

  abbrev pub unmarshal_marshalled : Result String → Result T
  unmarshal_marshalled (err e) = err e
  unmarshal_marshalled (ok data_text) = unmarshal_trimmed (trim_space data_text)

  abbrev pub decode_raw : Raw V → Result T
  decode_raw missing = err (plain "队列消息缺少 data 字段")
  decode_raw (text s) = unmarshal_trimmed (trim_space s)
  decode_raw (bytes s) = unmarshal_trimmed (trim_space s)
  decode_raw (value v) = unmarshal_marshalled (j.marshal v)

  -- `Decode`
  unfoldable pub decode : Message V → Result T
  decode message = decode_raw message.data_value

module _ {V T S : Type 0} (j : Json V T) where
  abbrev pub appended : Option Error × S → Bool × S
  appended (none, s) = (true, s)
  appended (some e, s) = (false, s)

  abbrev pub append_marshalled : Runtime V S → String → Result String → S → Bool × S
  append_marshalled q name (err e) s = (false, s)
  append_marshalled q name (ok body) s =
      appended (q.append name (record { id = ""; data_value = text body }) s)

  -- `AddQueue`
  unfoldable pub add_queue : Option (Runtime V S) → String → V → S → Bool × S
  add_queue none name v s = (false, s)
  add_queue (some q) name v s = append_marshalled q name (j.marshal v) s

  -- The error of the context, where it is over.
  abbrev pub unless_done : Option Error → (S → Option Error × S) → S → Option Error × S
  unless_done (some e) f s = (some e, s)
  unless_done none f s = f s

  abbrev pub schedule_marshalled :
      Option Error
      → (String → Message V → ℕ → S → Option Error × S)
      → String
      → String
      → ℕ
      → Result String
      → S
      → Option Error × S
  schedule_marshalled over schedule name id at (err e) s =
      (some (wrapped "build delayed queue message data" e), s)
  schedule_marshalled over schedule name id at (ok body) s =
      unless_done over (schedule name (record { id = id; data_value = text body }) at) s

  abbrev pub schedule_on :
      Option Error
      → Option (String → Message V → ℕ → S → Option Error × S)
      → String
      → String
      → ℕ
      → V
      → S
      → Option Error × S
  schedule_on over none name id at v s = (some (plain "queue does not support delayed messages"), s)
  schedule_on over (some schedule) name id at v s =
      schedule_marshalled over schedule name id at (j.marshal v) s

  -- `ScheduleQueue`
  unfoldable pub schedule_queue :
      Option Error → Option (Runtime V S) → String → String → ℕ → V → S → Option Error × S
  schedule_queue over none name id at v s = (some (plain "queue is not initialized"), s)
  schedule_queue over (some q) name id at v s = schedule_on over q.schedule name id at v s

abbrev pub cancel_on :
    {S : Type 0}
    → Option Error
    → Option (String → String → S → Option Error × S)
    → String
    → String
    → S
    → Option Error × S
cancel_on over none name id s = (some (plain "queue does not support delayed messages"), s)
cancel_on (some e) (some cancel) name id s = (some e, s)
cancel_on none (some cancel) name id s = cancel name id s

-- `CancelQueue`
unfoldable pub cancel_queue :
    {V S : Type 0} → Option Error → Option (Runtime V S) → String → String → S → Option Error × S
cancel_queue over none name id s = (some (plain "queue is not initialized"), s)
cancel_queue over (some q) name id s = cancel_on over q.cancel name id s
