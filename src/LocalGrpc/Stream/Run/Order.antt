-- ===== src/LocalGrpc/Stream/Run/Order.antt =====
-- The messages of a local stream, over its runs.
use kratos_core.Prelude.{
  ℕ, zero, suc, ◌≡◌, refl, sym, ap, ◌∙◌, Bool, true, Option, none, some, List, [], ◌∷◌, ◌++◌,
  length, All, arith, inl, inr, ltb,
}
use mathlib.Core.List.{append-nil, append_assoc}
use kratos_core.Prelude.Error.{Error, Result, Result-cases}
use kratos_core.LocalGrpc.Message.{Message, Md, proto_message}
use kratos_core.LocalGrpc.Registry.{exists}
use kratos_core.LocalGrpc.Stream.{
  Context, LocalStream, set_context, finish, close_send, set_header, send_header, set_trailer,
  get_trailer, get_header, channel_size, context_err, when,
}
use kratos_core.LocalGrpc.Stream.Transfer.{
  begin_server_send, server_send, client_send, take_client_message, take_server_message,
  receive_client_message, receive_server_message, Received, taking, or_eof, on_done,
}
use kratos_core.LocalGrpc.Stream.Run.{
  Action, sets_context, ends_context, sets_header, sends_header, sets_trailer, gets_header,
  gets_trailer, closes_send, finishes, begins_server_send, server_sends, client_sends,
  takes_client_message, takes_server_message, receives_client_message, receives_server_message,
  Moved, nothing, to_server, to_client, from_client, from_server, nth, sent, got, read, step, run,
  All-append, All-when,
}

-- The messages that one action moved in each way, and those of a run.
abbrev pub client_sent : Moved → List Message
client_sent (to_server m) = m ∷ []
client_sent _ = []

abbrev pub server_sent : Moved → List Message
server_sent (to_client m) = m ∷ []
server_sent _ = []

abbrev pub client_got : Moved → List Message
client_got (from_server m) = m ∷ []
client_got _ = []

abbrev pub server_got : Moved → List Message
server_got (from_client m) = m ∷ []
server_got _ = []

abbrev pub each : (Moved → List Message) → List Moved → List Message
each f [] = []
each f (m ∷ rest) = f m ++ each f rest

-- What one action does to both channels.
abbrev Moves : LocalStream → Moved × LocalStream → Type 0
Moves s (m, t) =
    (client_got m ++ t.server_messages ≡ s.server_messages ++ server_sent m)
    × (server_got m ++ t.client_messages ≡ s.client_messages ++ client_sent m)

Moves-same :
    (s t : LocalStream)
    → t.server_messages ≡ s.server_messages
    → t.client_messages ≡ s.client_messages
    → Moves s (nothing, t)
Moves-same s t h k = (h ∙ sym (append-nil _), k ∙ sym (append-nil _))

abbrev Got : (Message → Moved) → LocalStream → Received × LocalStream → Type 0
Got by s ((none, e), t) = Moves s (nothing, t)
Got by s ((some m, e), t) = Moves s (by m, t)

got-Moves :
    (by : Message → Moved) (s : LocalStream) (l : List (Received × LocalStream)) (n : ℕ)
    → All (Got by s) l
    → Moves s (got by s (nth n l))
got-Moves by s [] n h = Moves-same s s refl refl
got-Moves by s (((none, e), t) ∷ l) zero (p, h) = p
got-Moves by s (((some m, e), t) ∷ l) zero (p, h) = p
got-Moves by s (x ∷ l) (suc n) (p, h) = got-Moves by s l n h

abbrev Sent : (Message → Moved) → Message → LocalStream → Option Error × LocalStream → Type 0
Sent by m s (none, t) = Moves s (by m, t)
Sent by m s (some e, t) = Moves s (nothing, t)

sent-Moves :
    (by : Message → Moved) (m : Message) (s : LocalStream) (l : List (Option Error × LocalStream))
    (n : ℕ)
    → All (Sent by m s) l
    → Moves s (sent by m s (nth n l))
sent-Moves by m s [] n h = Moves-same s s refl refl
sent-Moves by m s ((none, t) ∷ l) zero (p, h) = p
sent-Moves by m s ((some e, t) ∷ l) zero (p, h) = p
sent-Moves by m s (x ∷ l) (suc n) (p, h) = sent-Moves by m s l n h

-- Where a send waited on a context that is done, the context in force is done too: it was derived
-- from the former.
abbrev pub Follows : Action → LocalStream → Type 0
Follows (server_sends c m n) s =
    exists (context_err c s) ≡ true → exists (context_err s.ctx s) ≡ true
Follows (client_sends c m n) s =
    exists (context_err c s) ≡ true → exists (context_err s.ctx s) ≡ true
Follows _ s = Unit

Sent-err :
    (by : Message → Moved) (m : Message) (s : LocalStream) (e : Option Error)
    → exists e ≡ true
    → Sent by m s (e, s)
Sent-err by m s none h = ground (arith, h)
Sent-err by m s (some e) h = Moves-same s s refl refl

All-when_err :
    (by : Message → Moved) (m : Message) (s : LocalStream) (b : Bool) (e : Option Error)
    → (b ≡ true → exists e ≡ true)
    → All (Sent by m s) (when b (e, s))
All-when_err by m s b e h = All-when (Sent by m s) b (e, s) (λ t. Sent-err by m s e (h t))

server_send-Moves :
    (c : Context) (m : Message) (s : LocalStream)
    → (exists (context_err c s) ≡ true → exists (context_err s.ctx s) ≡ true)
    → All (Sent to_client m s) (server_send c m s)
unfolding server_send
server_send-Moves c m s h =
    All-append _ (when (ltb (length s.server_messages) channel_size) _) _
      (All-when (Sent to_client m s) _ _ (λ h. (refl, sym (append-nil _))))
      (All-append _ (when (exists (context_err c s)) (context_err s.ctx s, s)) _
        (All-when_err to_client m s _ (context_err s.ctx s) h)
        (All-when _ s.done _ (λ h. Moves-same s s refl refl)))

client_send-Moves :
    (c : Context) (m : Message) (s : LocalStream)
    → (exists (context_err c s) ≡ true → exists (context_err s.ctx s) ≡ true)
    → All (Sent to_server m s) (client_send c m s)
unfolding client_send
client_send-Moves c m s h =
    All-append _ (when (ltb (length s.client_messages) channel_size) _) _
      (All-when (Sent to_server m s) _ _ (λ h. (sym (append-nil _), refl)))
      (All-append _ (when (exists (context_err c s)) (context_err s.ctx s, s)) _
        (All-when_err to_server m s _ (context_err s.ctx s) h)
        (All-when _ s.done _ (λ h. Moves-same s s refl refl)))

take_server_message-Moves : (s : LocalStream) → All (Got from_server s) (take_server_message s)
unfolding take_server_message
take_server_message-Moves s = by_cases s.server_messages refl
  where
    by_cases :
        (l : List Message)
        → l ≡ s.server_messages
        → All (Got from_server s) (taking (λ rest. record s { server_messages = rest }) l)
    by_cases [] h = tt
    by_cases (m ∷ l) h = ((h ∙ sym (append-nil _), sym (append-nil _)), tt)

take_client_message-Moves : (s : LocalStream) → All (Got from_client s) (take_client_message s)
unfolding take_client_message
take_client_message-Moves s = by_cases s.client_messages refl
  where
    by_cases :
        (l : List Message)
        → l ≡ s.client_messages
        → All (Got from_client s) (taking (λ rest. record s { client_messages = rest }) l)
    by_cases [] h = tt
    by_cases (m ∷ l) h = ((sym (append-nil _), h ∙ sym (append-nil _)), tt)

or_eof-Moves :
    (by : Message → Moved) (s : LocalStream) (l : List (Received × LocalStream))
    → All (Got by s) l
    → Got by s (or_eof s l)
or_eof-Moves by s [] h = Moves-same s s refl refl
or_eof-Moves by s (x ∷ l) (p, h) = p

on_done-Moves :
    (by : Message → Moved) (s : LocalStream) (e : Option Error) (l : List (Received × LocalStream))
    → All (Got by s) l
    → Got by s (on_done e s l)
on_done-Moves by s none l h = or_eof-Moves by s l h
on_done-Moves by s (some e) l h = Moves-same s s refl refl

receive_server_message-Moves :
    (c : Context) (s : LocalStream) → All (Got from_server s) (receive_server_message c s)
unfolding receive_server_message
receive_server_message-Moves c s =
    let taken = take_server_message-Moves s in
    All-append _ (take_server_message s) _ taken (
      All-append _ (when (exists (context_err c s)) ((none, context_err s.ctx s), s)) _
        (All-when (Got from_server s) _ _ (λ h. Moves-same s s refl refl))
        (All-when _ s.done _ (λ h. on_done-Moves from_server s s.finished_err _ taken)))

receive_client_message-Moves :
    (c : Context) (s : LocalStream) → All (Got from_client s) (receive_client_message c s)
unfolding receive_client_message
receive_client_message-Moves c s =
    let taken = take_client_message-Moves s in
    All-append _ (take_client_message s) _ taken (
      All-append _ (when s.client_send_close _) _
        (All-when _ s.client_send_close _ (λ h. or_eof-Moves from_client s _ taken))
        (All-append _ (when (exists (context_err c s)) ((none, context_err s.ctx s), s)) _
          (All-when (Got from_client s) _ _ (λ h. Moves-same s s refl refl))
          (All-when _ s.done _ (λ h. on_done-Moves from_client s s.finished_err _ taken))))

abbrev Read : LocalStream → Result Md × LocalStream → Type 0
Read s (r, t) = Moves s (nothing, t)

read-Moves :
    (s : LocalStream) (l : List (Result Md × LocalStream)) (n : ℕ)
    → All (Read s) l
    → Moves s (read s (nth n l))
read-Moves s [] n h = Moves-same s s refl refl
read-Moves s ((r, t) ∷ l) zero (p, h) = p
read-Moves s (x ∷ l) (suc n) (p, h) = read-Moves s l n h

module _ (join : List Md → Md) where
  get_header-Moves : (c : Context) (s : LocalStream) → All (Read s) (get_header join c s)
  unfolding get_header
  get_header-Moves c s =
      let kept = Moves-same s s refl refl in
      All-append _ (when s.header_ready _) _ (All-when _ s.header_ready _ (λ h. kept)) (
        All-append _ (when s.done _) _ (All-when _ s.done _ (λ h. kept))
          (All-when (Read s) (exists (context_err c s)) _ (λ h. kept)))

  step-Moves : (a : Action) (s : LocalStream) → Follows a s → Moves s (step join a s)
  unfolding step set_context finish close_send set_header send_header set_trailer get_trailer
      begin_server_send
  step-Moves (sets_context c) s h = (sym (append-nil _), sym (append-nil _))
  step-Moves (ends_context c e) s h = (sym (append-nil _), sym (append-nil _))
  step-Moves (sets_header md) s h =
      ground (arith, append-nil s.server_messages, append-nil s.client_messages)
  step-Moves (sends_header md) s h =
      ground (arith, append-nil s.server_messages, append-nil s.client_messages)
  step-Moves (sets_trailer md) s h =
      ground (arith, append-nil s.server_messages, append-nil s.client_messages)
  step-Moves (gets_header c n) s h = read-Moves s (get_header join c s) n (get_header-Moves c s)
  step-Moves gets_trailer s h = (sym (append-nil _), sym (append-nil _))
  step-Moves closes_send s h = (sym (append-nil _), sym (append-nil _))
  step-Moves (finishes e) s h = (sym (append-nil _), sym (append-nil _))
  step-Moves (begins_server_send a) s h = elim (Result-cases (proto_message a)) [
    | inl (m, p) ↦ rw p (ground (arith, append-nil s.server_messages, append-nil s.client_messages))
    | inr (e, p) ↦ rw p (sym (append-nil _), sym (append-nil _))
  ]
  step-Moves (server_sends c m n) s h = sent-Moves to_client m s _ n (server_send-Moves c m s h)
  step-Moves (client_sends c m n) s h = sent-Moves to_server m s _ n (client_send-Moves c m s h)
  step-Moves takes_client_message s h = got-Moves from_client s _ zero (take_client_message-Moves s)
  step-Moves takes_server_message s h = got-Moves from_server s _ zero (take_server_message-Moves s)
  step-Moves (receives_client_message c n) s h =
      got-Moves from_client s _ n (receive_client_message-Moves c s)
  step-Moves (receives_server_message c n) s h =
      got-Moves from_server s _ n (receive_server_message-Moves c s)

  abbrev pub AllFollow : List Action → LocalStream → Type 0
  AllFollow [] s = Unit
  AllFollow (a ∷ rest) s = Follows a s × AllFollow rest (step join a s).1

  chain :
      (a b c d e f g : List Message)
      → a ++ b ≡ c ++ d
      → e ++ f ≡ b ++ g
      → (a ++ e) ++ f ≡ c ++ (d ++ g)
  chain a b c d e f g h k =
      append_assoc a e f
      ∙ ap (λ x. a ++ x) k
      ∙ sym (append_assoc a b g)
      ∙ ap (λ x. x ++ g) h
      ∙ append_assoc c d g

  -- Whatever the order of the client, the handler and the context, and whichever ready case each
  -- `select` takes: in both directions the messages that were received, then those that wait in
  -- the channel, are those that waited before and then those whose `SendMsg` returned no error,
  -- each once and in order, if whenever a waiting `SendMsg` sees its context done, the context
  -- then in force is done too.
  pub run-InOrder :
      (actions : List Action) (s : LocalStream)
      → AllFollow actions s
      → (each client_got (run join actions s).0 ++ (run join actions s).1.server_messages
          ≡ s.server_messages ++ each server_sent (run join actions s).0)
        × (each server_got (run join actions s).0 ++ (run join actions s).1.client_messages
            ≡ s.client_messages ++ each client_sent (run join actions s).0)
  unfolding run
  run-InOrder [] s h = (sym (append-nil _), sym (append-nil _))
  run-InOrder (a ∷ rest) s (f, h) =
      let t = (step join a s).1 in
      let one = step-Moves a s f in
      let more = run-InOrder rest t h in
      (
        chain _ t.server_messages s.server_messages _ _ _ _ one.0 more.0,
        chain _ t.client_messages s.client_messages _ _ _ _ one.1 more.1,
      )
