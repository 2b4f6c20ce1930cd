-- ===== src/LocalGrpc/Invoke.antt =====
-- client/localgrpc/conn.go: `Invoke`, `invoke`, and the loops of `Invoke` and `NewStream` that nest
-- the client interceptors. Handlers and interceptors are code of others: any function on what a
-- call can change.
pub mod Chain
use kratos_core.Prelude.{ℕ, zero, suc, String, Option, none, some, List, [], ◌∷◌, length}
use Prim.Native.String.{◌++◌ as str_append}
use kratos_core.Prelude.Eq.{string_eq, lookup}
use kratos_core.Prelude.Error.{Error, Result, ok, err, plain, status}
use kratos_core.LocalGrpc.Message.{
  Message, Any, proto, copy_message, Md, CallOption, Memory, ResponseMetadata, apply_call_options,
}
use kratos_core.LocalGrpc.Registry.{Conn, UnaryMethod}

-- A context by its identity.
abbrev pub Context : Type 0
Context = ℕ

-- What a call can change: the reply, the response metadata that its context carries, and what the
-- code of others has done.
pub record Exchange : Type 0 where
  pub reply : Any
  pub response : ResponseMetadata
  pub trace : List String

abbrev pub Invoker : Type 0
Invoker = Context → String → Any → Exchange → Option Error × Exchange

-- How a handler ends: with a response and an error, or with a panic.
pub data Handled : Type 0 where
  answered : Any → Option Error → Handled
  panicked : String → Handled

-- `MethodDesc.Handler`, given the decoding of the request and the server's interceptor.
abbrev pub Handler : Type 0
Handler = UnaryMethod → Context → (Any → Result Message) → Option ℕ → Exchange → Handled × Exchange

abbrev pub copied : Result Message → Exchange → Option Error × Exchange
copied (ok m) x = (none, record x { reply = proto m })
copied (err e) x = (some e, x)

abbrev pub answer : Handled × Exchange → Option Error × Exchange
answer (panicked value, x) = (some (plain (str_append "进程内 gRPC 方法处理器异常: " value)), x)
answer (answered response (some e), x) = (some e, x)
answer (answered response none, x) = copied (copy_message x.reply response) x

module _ (handler : Handler) (conn : Conn) (interceptor : Option ℕ) where
  abbrev pub handle : Option UnaryMethod → Invoker
  handle none ctx method args x = (some (status 12 (str_append "进程内 gRPC 方法未注册: " method)), x)
  handle (some registered) ctx method args x =
      answer (handler registered ctx (λ request. copy_message request args) interceptor x)

  -- `invoke`
  unfoldable pub invoke : Invoker
  invoke ctx method args x = handle (lookup method conn.methods) ctx method args x

-- One round of the loop: a `nil` interceptor is passed over.
abbrev pub wrap {ℓ} : {A : Type ℓ} → Option (Option (A → A)) → A → A
wrap none next = next
wrap (some none) next = next
wrap (some (some interceptor)) next = interceptor next

abbrev pub get_elem? {ℓ} : {A : Type ℓ} → List A → ℕ → Option A
get_elem? [] n = none
get_elem? (x ∷ xs) zero = some x
get_elem? (x ∷ xs) (suc n) = get_elem? xs n

-- The loop from the last index down to 0, and what it has left at `index`.
unfoldable pub nest {ℓ} : {A : Type ℓ} → List (Option (A → A)) → ℕ → A → A
nest interceptors zero next = next
nest interceptors (suc index) next =
    nest interceptors index (wrap (get_elem? interceptors index) next)

module _ (join : List Md → Md) (handler : Handler) (conn : Conn) (interceptor : Option ℕ) where
  -- `Invoke`, with the memory of the call options.
  unfoldable pub invoke_call :
      List (Option (Invoker → Invoker))
      → Context
      → String
      → Any
      → Any
      → List CallOption
      → Memory
      → List String
      → (Option Error × Exchange) × Memory
  unfolding nest invoke
  invoke_call interceptors ctx method args reply options memory trace =
      let fresh : Exchange = record {
        reply = reply;
        response = record { header = []; trailer = [] };
        trace = trace;
      } in
      let result =
        nest interceptors (length interceptors) (invoke handler conn interceptor) ctx method args
          fresh in
      (result, apply_call_options join options result.1.response memory)

-- `NewStream`: its interceptors nest in the same way around `newStream`.
unfoldable pub new_stream_call {ℓ} : {A : Type ℓ} → List (Option (A → A)) → A → A
unfolding nest
new_stream_call interceptors streamer = nest interceptors (length interceptors) streamer
