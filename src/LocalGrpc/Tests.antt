-- ===== src/LocalGrpc/Tests.antt =====
-- Calls and streams of a connection with one service.
use kratos_core.Prelude.{◌≡◌, ◌≢◌, refl, true, false, none, some, List, [], ◌∷◌, ◌++◌, In, All}
use kratos_core.Prelude.Eq.{nat_eq, string_eq, lookup, insert}
use kratos_core.Prelude.Error.{canceled}
use kratos_core.LocalGrpc.Message.{Message, proto, Md, header, apply_call_options}
use kratos_core.LocalGrpc.Registry.{ServiceDesc, Conn, new_conn, register_service}
use kratos_core.LocalGrpc.Registry.Unique.{
  IsDisjoint, Keeps, HasMethod, HasStream, register_service-Keeps,
}
use kratos_core.LocalGrpc.Invoke.{Exchange, Invoker, Handler, answered, invoke, invoke_call}
use kratos_core.LocalGrpc.Invoke.Chain.{around, invoke_call-around}
use kratos_core.LocalGrpc.Stream.{LocalStream, finish}
use kratos_core.LocalGrpc.Stream.Transfer.{
  Received, client_send, server_send, take_server_message, receive_server_message,
}
use kratos_core.LocalGrpc.Stream.Run.{
  Action, server_sends, client_sends, takes_server_message, receives_client_message, step, run,
}
use kratos_core.LocalGrpc.Stream.Run.Order.{
  each, client_got, server_got, client_sent, server_sent, run-InOrder,
}
use kratos_core.LocalGrpc.Stream.Received.{
  expected, receive_server_message_finished, receive_server_message_overtaken,
}

abbrev join : List Md → Md
join [] = []
join (md ∷ rest) = md ++ join rest

abbrev hello : Message
hello = record { go_type = "*v1.Hello"; full_name = "v1.Hello"; content = "hello" }

abbrev stream : LocalStream
stream = record {
  ctx = 0;
  ended = [];
  operation = "/v1.Greeter/Chat";
  client_messages = [];
  server_messages = [];
  client_send_close = false;
  done = false;
  header_ready = false;
  finished = false;
  finished_err = none;
  header = [];
  trailer = [];
  header_sent = false;
  header_targets = [];
  trailer_targets = [];
  memory = [];
}

abbrev actions : List Action
actions =
    client_sends 0 hello 0
    ∷ server_sends 0 hello 0
    ∷ client_sends 0 hello 0
    ∷ receives_client_message 0 0
    ∷ takes_server_message
    ∷ []

run-InOrder_example :
    let (moved, t) = run join actions stream in
    (each client_got moved ++ t.server_messages ≡ each server_sent moved)
    × (each server_got moved ++ t.client_messages ≡ each client_sent moved)
unfolding run step client_send server_send
run-InOrder_example =
    run-InOrder join actions stream ((λ h. h), ((λ h. h), ((λ h. h), (tt, (tt, tt)))))

abbrev language : Md
language = ("language", "en" ∷ []) ∷ []

abbrev finished : LocalStream
finished = record stream { done = true; finished = true; server_messages = hello ∷ [] }

receive_server_message_finished_example :
    All
      (λ (x : Received × LocalStream). x ≡ expected (hello ∷ []) finished)
      (receive_server_message 0 finished)
    × (receive_server_message 0 finished ≢ [])
unfolding lookup
receive_server_message_finished_example = receive_server_message_finished 0 finished refl refl refl

receive_server_message_overtaken_example :
    In (none, record stream { server_messages = hello ∷ [] }) (server_send 0 hello stream)
    × In
        (
          (none, some canceled),
          finish (some canceled) (record stream { server_messages = hello ∷ [] }),
        )
        (receive_server_message 0
          (finish (some canceled) (record stream { server_messages = hello ∷ [] })))
    × (take_server_message (finish (some canceled) (record stream { server_messages = hello ∷ [] }))
        ≡ ((some hello, none), finish (some canceled) stream) ∷ [])
receive_server_message_overtaken_example =
    receive_server_message_overtaken 0 0 hello canceled stream refl

abbrev greeter : ServiceDesc
greeter = record {
  service_name = "v1.Greeter";
  methods = record { method_name = "Hello" } ∷ [];
  streams = record { stream_name = "Chat"; client_streams = true; server_streams = true } ∷ [];
}

register_service-Keeps_example :
    let r = register_service (some greeter) (some 7) new_conn in
    Keeps new_conn r.1
    × (IsDisjoint new_conn → IsDisjoint r.1)
    × (r.0 ≡ none
        → All (HasMethod "v1.Greeter" 7 r.1) greeter.methods
          × All (HasStream "v1.Greeter" 7 r.1) greeter.streams)
register_service-Keeps_example = register_service-Keeps greeter 7 new_conn

register_service_test : (register_service (some greeter) (some 7) new_conn).0 ≡ none
unfolding new_conn register_service lookup insert
register_service_test = refl

abbrev handler : Handler
handler registered ctx decode interceptor x =
    (answered (proto hello) none, record x { trace = "handler" ∷ x.trace })

abbrev logging : Invoker → Invoker
logging next ctx method args x = next ctx method args (record x { trace = "logging" ∷ x.trace })

abbrev conn : Conn
conn = (register_service (some greeter) (some 7) new_conn).1

abbrev exchange : Exchange
exchange = record {
  reply = proto hello;
  response = record { header = []; trailer = [] };
  trace = [];
}

invoke_call-around_example :
    let result =
      around
        (none ∷ some logging ∷ [])
        (invoke handler conn none)
        0
        "/v1.Greeter/Hello"
        (proto hello)
        exchange in
    invoke_call join handler conn none
      (none ∷ some logging ∷ [])
      0
      "/v1.Greeter/Hello"
      (proto hello)
      (proto hello)
      (header (some 3) ∷ [])
      []
      []
    ≡ (result, apply_call_options join (header (some 3) ∷ []) result.1.response [])
invoke_call-around_example =
    invoke_call-around join handler conn none (none ∷ some logging ∷ []) 0 "/v1.Greeter/Hello"
      (proto hello) (proto hello) (header (some 3) ∷ []) [] []
