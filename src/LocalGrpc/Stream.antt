-- ===== src/LocalGrpc/Stream.antt =====
-- client/localgrpc/conn.go: `localStream` and `localClientStream`, one function per lock or channel
-- operation. A `select` is the list of what each case that is ready would do, in the source's
-- order; Go takes any of them, and an empty list waits. A context is its identity, and `ended` holds
-- the contexts that are done, with their errors.
pub mod Transfer
pub mod Run
pub mod Received
use kratos_core.Prelude.{
  ℕ, String, Bool, true, false, ◌||◌, Option, none, some, List, [], ◌∷◌, ◌++◌, length, ltb,
  if◌then◌else◌,
}
use Prim.Native.String.{◌++◌ as str_append}
use kratos_core.Prelude.Eq.{nat_eq, string_eq, lookup}
use kratos_core.Prelude.Error.{Error, Result, ok, err, plain, eof, status}
use kratos_core.LocalGrpc.Message.{
  Message, Any, copy_message, proto_message, Md, Address, CallOption, header_options,
  trailer_options, Memory, store_all, no_proto,
}
use kratos_core.LocalGrpc.Registry.{Conn, Service, StreamDesc, StreamMethod, exists}

abbrev pub Context : Type 0
Context = ℕ

pub record LocalStream : Type 0 where
  pub ctx : Context
  pub ended : List (Context × Error)
  pub operation : String
  pub client_messages : List Message
  pub server_messages : List Message
  pub client_send_close : Bool
  pub done : Bool
  pub header_ready : Bool
  pub finished : Bool
  pub finished_err : Option Error
  pub header : Md
  pub trailer : Md
  pub header_sent : Bool
  pub header_targets : List Address
  pub trailer_targets : List Address
  pub memory : Memory

-- `make(chan proto.Message, 1)`
abbrev pub channel_size : ℕ
channel_size = 1

-- `newLocalStream` and `configureCallOptions`
unfoldable pub new_local_stream :
    Context → List (Context × Error) → String → List CallOption → Memory → LocalStream
new_local_stream ctx ended operation options memory = record {
  ctx = ctx;
  ended = ended;
  operation = operation;
  client_messages = [];
  server_messages = [];
  client_send_close = false;
  done = false;
  header_ready = false;
  finished = false;
  finished_err = none;
  header = [];
  trailer = [];
  header_sent = false;
  header_targets = header_options options;
  trailer_targets = trailer_options options;
  memory = memory;
}

-- `newStream`, up to the goroutine of the handler.
unfoldable pub new_stream :
    Conn
    → Context
    → List (Context × Error)
    → String
    → List CallOption
    → Memory
    → Result (StreamMethod × LocalStream)
unfolding new_local_stream
new_stream conn ctx ended method options memory = elim (lookup method conn.streams) [
  | none ↦ err (status 12 (str_append "进程内 gRPC 流式方法未注册: " method))
  | some registered ↦ ok (registered, new_local_stream ctx ended method options memory)
]

-- How the handler ends, and the error that `finish` is given.
pub data Ending : Type 0 where
  returns : Option Error → Ending
  panics : String → Ending

unfoldable pub handler_err : Ending → Option Error
handler_err (returns e) = e
handler_err (panics value) = some (plain (str_append "进程内 gRPC 流式处理器异常: " value))

pub record StreamServerInfo : Type 0 where
  pub full_method : String
  pub is_client_stream : Bool
  pub is_server_stream : Bool

abbrev pub StreamInterceptor : Type 0
StreamInterceptor = Service → StreamServerInfo → (Service → Ending) → Ending

unfoldable pub serve :
    Option StreamInterceptor → StreamMethod → String → (Service → Ending) → Option Error
unfolding handler_err
serve none registered method handler = handler_err (handler registered.service)
serve (some interceptor) registered method handler =
    let info : StreamServerInfo = record {
      full_method = method;
      is_client_stream = registered.description.client_streams;
      is_server_stream = registered.description.server_streams;
    } in
    handler_err (interceptor registered.service info handler)

-- `nil` metadata with what `Context().Err()` returned.
abbrev context_result : Option Error → Result Md
context_result none = ok []
context_result (some e) = err e

-- `Context().Err()`
abbrev pub context_err : Context → LocalStream → Option Error
context_err ctx s = lookup ctx s.ended

unfoldable pub stream_result : Option Error → Error
stream_result none = eof
stream_result (some e) = e

abbrev pub when {ℓ} : {A : Type ℓ} → Bool → A → List A
when true a = a ∷ []
when false a = []

unfoldable pub set_context : Context → LocalStream → LocalStream
set_context ctx s = record s { ctx = ctx }

-- `finish`, which also lets the waiting `Header` go on.
unfoldable pub finish : Option Error → LocalStream → LocalStream
finish e s = record s { finished_err = e; finished = true; header_ready = true; done = true }

unfoldable pub close_send : LocalStream → LocalStream
close_send s = record s { client_send_close = true }

module _ (join : List Md → Md) where
  unfoldable pub set_header : Md → LocalStream → Option Error × LocalStream
  set_header md s =
      if s.finished || s.header_sent
      then (some (status 13 "进程内 gRPC 流式响应头已发送"), s)
      else (none, record s { header = join (s.header ∷ md ∷ []) })

  unfoldable pub send_header : Md → LocalStream → Option Error × LocalStream
  send_header md s =
      if s.finished || s.header_sent then (some (status 13 "进程内 gRPC 流式响应头重复发送"), s) else (
        none,
        record s { header = join (s.header ∷ md ∷ []); header_sent = true; header_ready = true },
      )

  unfoldable pub set_trailer : Md → LocalStream → LocalStream
  set_trailer md s = if s.finished then s else record s { trailer = join (s.trailer ∷ md ∷ []) }

  -- `Header`, after its wait; `Trailer` and `updateTrailerOptions`.
  abbrev header_value : LocalStream → Md
  header_value s = join (s.header ∷ [])

  unfoldable pub get_header : Context → LocalStream → List (Result Md × LocalStream)
  get_header ctx s =
      let read : Result Md × LocalStream = (
        ok (header_value s),
        record s { memory = store_all s.header_targets (join (header_value s ∷ [])) s.memory },
      ) in
      when s.header_ready read
      ++ (when s.done read
          ++ (when (exists (context_err ctx s)) (context_result (context_err s.ctx s), s)))

  unfoldable pub get_trailer : LocalStream → Md × LocalStream
  get_trailer s =
      let trailer = join (s.trailer ∷ []) in
      (trailer, record s { memory = store_all s.trailer_targets (join (trailer ∷ [])) s.memory })
