-- ===== src/LocalGrpc/Stream/Run.antt =====
-- Runs of a local stream: any order of what its client, its handler and its context do.
pub mod Order
pub mod Settled
use kratos_core.Prelude.{
  ℕ, zero, suc, ◌+◌, ◌≤◌, ◌≡◌, refl, sym, ap, ◌∙◌, Option, none, some, List, [], ◌∷◌, ◌++◌, length,
  All, Bool, true, false, arith,
}
use mathlib.Core.List.{append-nil, append_assoc}
use kratos_core.Prelude.Error.{Error, Result, ok, err}
use kratos_core.LocalGrpc.Message.{Message, Any, Md}
use kratos_core.LocalGrpc.Stream.{
  Context, LocalStream, set_context, finish, close_send, set_header, send_header, set_trailer,
  get_trailer, get_header, when,
}
use kratos_core.LocalGrpc.Stream.Transfer.{
  begin_server_send, server_send, client_send, take_client_message, take_server_message,
  receive_client_message, receive_server_message, Received,
}

-- The case that the `select` takes is the number of an action.
pub data Action : Type 0 where
  sets_context : Context → Action
  ends_context : Context → Error → Action
  sets_header sends_header sets_trailer : Md → Action
  gets_header : Context → ℕ → Action
  gets_trailer closes_send : Action
  finishes : Option Error → Action
  begins_server_send : Any → Action
  server_sends client_sends : Context → Message → ℕ → Action
  takes_client_message takes_server_message : Action
  receives_client_message receives_server_message : Context → ℕ → Action

-- What an action moved.
pub data Moved : Type 0 where
  nothing : Moved
  to_server to_client from_client from_server : Message → Moved

abbrev pub nth {ℓ} : {A : Type ℓ} → ℕ → List A → Option A
nth n [] = none
nth zero (x ∷ xs) = some x
nth (suc n) (x ∷ xs) = nth n xs

abbrev pub sent :
    (Message → Moved)
    → Message
    → LocalStream
    → Option (Option Error × LocalStream)
    → Moved × LocalStream
sent by m s none = (nothing, s)
sent by m s (some (none, t)) = (by m, t)
sent by m s (some (some e, t)) = (nothing, t)

abbrev pub got :
    (Message → Moved) → LocalStream → Option (Received × LocalStream) → Moved × LocalStream
got by s none = (nothing, s)
got by s (some ((none, e), t)) = (nothing, t)
got by s (some ((some m, e), t)) = (by m, t)

abbrev pub read : LocalStream → Option (Result Md × LocalStream) → Moved × LocalStream
read s none = (nothing, s)
read s (some (r, t)) = (nothing, t)

module _ (join : List Md → Md) where
  unfoldable pub step : Action → LocalStream → Moved × LocalStream
  step (sets_context c) s = (nothing, set_context c s)
  step (ends_context c e) s = (nothing, record s { ended = (c, e) ∷ s.ended })
  step (sets_header md) s = (nothing, (set_header join md s).1)
  step (sends_header md) s = (nothing, (send_header join md s).1)
  step (sets_trailer md) s = (nothing, set_trailer join md s)
  step (gets_header c n) s = read s (nth n (get_header join c s))
  step gets_trailer s = (nothing, (get_trailer join s).1)
  step closes_send s = (nothing, close_send s)
  step (finishes e) s = (nothing, finish e s)
  step (begins_server_send a) s = (nothing, (begin_server_send a s).1)
  step (server_sends c m n) s = sent to_client m s (nth n (server_send c m s))
  step (client_sends c m n) s = sent to_server m s (nth n (client_send c m s))
  step takes_client_message s = got from_client s (nth zero (take_client_message s))
  step takes_server_message s = got from_server s (nth zero (take_server_message s))
  step (receives_client_message c n) s = got from_client s (nth n (receive_client_message c s))
  step (receives_server_message c n) s = got from_server s (nth n (receive_server_message c s))

  unfoldable pub run : List Action → LocalStream → List Moved × LocalStream
  run [] s = ([], s)
  run (a ∷ rest) s = let (moved, t) = step a s in let (more, u) = run rest t in (moved ∷ more, u)

-- Every case of a `select`.
module _ {A : Type 0} (P : A → Type 0) where
  pub All-append : (l k : List A) → All P l → All P k → All P (l ++ k)
  All-append [] k h g = g
  All-append (x ∷ l) k (p, h) g = (p, All-append l k h g)

  pub All-when : (b : Bool) (a : A) → (b ≡ true → P a) → All P (when b a)
  All-when true a p = (p refl, tt)
  All-when false a p = tt
