-- ===== src/LocalGrpc/Stream/Transfer.antt =====
-- client/localgrpc/conn.go: `SendMsg` and `RecvMsg` of both sides, with their `select`s.
use kratos_core.Prelude.{true, Option, none, some, List, [], ◌∷◌, ◌++◌, length, ltb, if◌then◌else◌}
use kratos_core.Prelude.Error.{Error, Result, ok, err, eof}
use kratos_core.LocalGrpc.Message.{Message, Any, copy_message, proto_message, no_proto}
use kratos_core.LocalGrpc.Registry.{exists}
use kratos_core.LocalGrpc.Stream.{
  Context, LocalStream, channel_size, context_err, stream_result, when,
}

-- The server's `SendMsg` up to its `select`: the clone that it will send.
abbrev pub sending : Result Message → LocalStream → Result Message × LocalStream
sending (err e) s = (err e, s)
sending (ok m) s =
    if s.finished
    then (err (stream_result s.finished_err), s)
    else (ok m, record s { header_sent = true; header_ready = true })

unfoldable pub begin_server_send : Any → LocalStream → Result Message × LocalStream
begin_server_send message s = sending (proto_message message) s

-- The three cases of the `select`; the context is that of its start.
unfoldable pub server_send : Context → Message → LocalStream → List (Option Error × LocalStream)
unfolding stream_result
server_send ctx m s =
    when (ltb (length s.server_messages) channel_size)
      (none, record s { server_messages = s.server_messages ++ m ∷ [] })
    ++ (when (exists (context_err ctx s)) (context_err s.ctx s, s)
        ++ when s.done (some (stream_result s.finished_err), s))

-- The client's `SendMsg`.
abbrev pub unless_closed : Result Message → LocalStream → Result Message
unless_closed (err e) s = err e
unless_closed (ok m) s = if s.client_send_close then err eof else ok m

unfoldable pub begin_client_send : Any → LocalStream → Result Message
begin_client_send message s = unless_closed (proto_message message) s

unfoldable pub client_send : Context → Message → LocalStream → List (Option Error × LocalStream)
unfolding stream_result
client_send ctx m s =
    when (ltb (length s.client_messages) channel_size)
      (none, record s { client_messages = s.client_messages ++ m ∷ [] })
    ++ (when (exists (context_err ctx s)) (context_err s.ctx s, s)
        ++ when s.done (some (stream_result s.finished_err), s))

-- The pair that a receive returns.
abbrev pub Received : Type 0
Received = Option Message × Option Error

-- A receive from a channel, where there is something to receive.
abbrev pub taking : (List Message → LocalStream) → List Message → List (Received × LocalStream)
taking rest [] = []
taking rest (m ∷ messages) = ((some m, none), rest messages) ∷ []

-- The same with a `default` that ends the stream.
abbrev pub or_eof : LocalStream → List (Received × LocalStream) → Received × LocalStream
or_eof s [] = ((none, some eof), s)
or_eof s (choice ∷ _) = choice

unfoldable pub take_client_message : LocalStream → List (Received × LocalStream)
take_client_message s = taking (λ rest. record s { client_messages = rest }) s.client_messages

unfoldable pub take_server_message : LocalStream → List (Received × LocalStream)
take_server_message s = taking (λ rest. record s { server_messages = rest }) s.server_messages

-- What the case of `done` does.
abbrev pub on_done :
    Option Error → LocalStream → List (Received × LocalStream) → Received × LocalStream
on_done none s taken = or_eof s taken
on_done (some e) s taken = ((none, some e), s)

-- The second `select` of `receiveClientMessage`; the first is `take_client_message`.
unfoldable pub receive_client_message : Context → LocalStream → List (Received × LocalStream)
unfolding take_client_message
receive_client_message ctx s =
    take_client_message s
    ++ (when s.client_send_close (or_eof s (take_client_message s))
        ++ (when (exists (context_err ctx s)) ((none, context_err s.ctx s), s)
            ++ when s.done (on_done s.finished_err s (take_client_message s))))

-- The second `select` of `receiveServerMessage`; the first is `take_server_message`.
unfoldable pub receive_server_message : Context → LocalStream → List (Received × LocalStream)
unfolding take_server_message
receive_server_message ctx s =
    take_server_message s
    ++ (when (exists (context_err ctx s)) ((none, context_err s.ctx s), s)
        ++ when s.done (on_done s.finished_err s (take_server_message s)))

-- What the server's `RecvMsg` makes of the pair.
unfoldable pub recv_msg : Any → Received → Result Message
recv_msg target (m, some e) = err e
recv_msg target (some m, none) = copy_message target (Any.proto m)
recv_msg target (none, none) = err (no_proto (Any.other "<nil>") target)
