-- ===== src/LocalGrpc/Stream/Received.antt =====
-- What a receive returns when the handler has finished.
use kratos_core.Prelude.{
  ◌≡◌, ◌≢◌, refl, sym, In-append_left, In-append_right, Bool, true, false, length, ltb, ◌++◌,
  Option, none, some, List, [], ◌∷◌, All, In, inl, inr, arith,
}
use kratos_core.Prelude.Eq.{nat_eq}
use kratos_core.Prelude.Error.{Error, eof}
use kratos_core.LocalGrpc.Message.{Message}
use kratos_core.LocalGrpc.Stream.{
  Context, LocalStream, context_err, finish, when, channel_size, stream_result,
}
use kratos_core.LocalGrpc.Registry.{exists}
use kratos_core.LocalGrpc.Stream.Transfer.{
  server_send, client_send, take_server_message, receive_server_message, Received, taking, on_done,
}

-- The pair and the stream of the only possible outcome.
abbrev pub expected : List Message → LocalStream → Received × LocalStream
expected [] s = ((none, some eof), s)
expected (m ∷ rest) s = ((some m, none), record s { server_messages = rest })

-- When the handler has finished without an error and the context of the receive is not done,
-- every ready case of the client's `select` returns the oldest message that waits, or else the
-- end of the stream; and one case is ready.
pub receive_server_message_finished :
    (c : Context) (s : LocalStream)
    → s.done ≡ true
    → s.finished_err ≡ none
    → context_err c s ≡ none
    → All
        (λ (x : Received × LocalStream). x ≡ expected s.server_messages s)
        (receive_server_message c s)
      × (receive_server_message c s ≢ [])
unfolding receive_server_message take_server_message
receive_server_message_finished c s d f h =
    go s.server_messages s.done s.finished_err (context_err c s) d f h
  where
    choices : List Message → Bool → Option Error → Option Error → List (Received × LocalStream)
    choices l done e ended =
        let taken = taking (λ rest. record s { server_messages = rest }) l in
        taken
        ++ (when (exists ended) ((none, context_err s.ctx s), s) ++ when done (on_done e s taken))

    go :
        (l : List Message) (done : Bool) (e ended : Option Error)
        → done ≡ true
        → e ≡ none
        → ended ≡ none
        → All (λ (x : Received × LocalStream). x ≡ expected l s) (choices l done e ended)
          × (choices l done e ended ≢ [])
    go l false e ended d f h = ground (arith, d)
    go l true (some e) ended d f h = ground (arith, f)
    go l true none (some e) d f h = ground (arith, h)
    go [] true none none d f h = ((refl, tt), λ p. ground (arith, p))
    go (m ∷ l) true none none d f h = ((refl, (refl, tt)), λ p. ground (arith, p))

-- A client that waits in the `select` of a receive may find both a message and an error of the
-- handler: the message that the handler sent stands in the channel, and `finish` was called with
-- an error. Then one of the ready cases returns the error, and the next receive returns the
-- message after it.
pub receive_server_message_overtaken :
    (c sender : Context) (m : Message) (e : Error) (s : LocalStream)
    → s.server_messages ≡ []
    → let sent = record s { server_messages = m ∷ [] } in
      In (none, sent) (server_send sender m s)
      × In ((none, some e), finish (some e) sent) (receive_server_message c (finish (some e) sent))
      × (take_server_message (finish (some e) sent) ≡ ((some m, none), finish (some e) s) ∷ [])
unfolding server_send receive_server_message take_server_message finish
receive_server_message_overtaken c sender m e s h = (
  room s.server_messages h,
  inr (
      In-append_right {A = Received × LocalStream} ((none, some e), over)
        (when (exists (context_err c over)) ((none, context_err s.ctx s), over))
        (((none, some e), over) ∷ []) (inl refl)),
  λ i. ((some m, none), record (finish (some e) s) { server_messages = sym h i }) ∷ [],
)
  where
    over : LocalStream
    over = finish (some e) (record s { server_messages = m ∷ [] })

    sent : LocalStream
    sent = record s { server_messages = m ∷ [] }

    room :
        (l : List Message)
        → l ≡ []
        → In {A = Option Error × LocalStream}
            (none, sent)
            (when (ltb (length l) channel_size) (none, record s { server_messages = l ++ m ∷ [] })
              ++ (when (exists (context_err sender s)) (context_err s.ctx s, s)
                  ++ when s.done (some (stream_result s.finished_err), s)))
    room [] h = inl refl
    room (x ∷ l) h = ground (arith, h)

-- If `SetContext` has put a context that is not done in place of the one that a client's `SendMsg`
-- waits on, and that one is done, the call may return no error although it has sent nothing.
pub client_send_unsent :
    (c : Context) (m : Message) (e : Error) (s : LocalStream)
    → context_err c s ≡ some e
    → context_err s.ctx s ≡ none
    → In (none, s) (client_send c m s)
unfolding client_send
client_send_unsent c m e s h g =
    In-append_right {A = Option Error × LocalStream} (none, s)
      (when (ltb (length s.client_messages) channel_size) _) _
      (In-append_left {A = Option Error × LocalStream} (none, s)
        (when (exists (context_err c s)) (context_err s.ctx s, s)) _
        (go (context_err c s) (context_err s.ctx s) h g))
  where
    go :
        (x y : Option Error)
        → x ≡ some e
        → y ≡ none
        → In {A = Option Error × LocalStream} (none, s) (when (exists x) (y, s))
    go none y h g = ground (arith, h)
    go (some x) none h g = inl refl
    go (some x) (some y) h g = ground (arith, g)
