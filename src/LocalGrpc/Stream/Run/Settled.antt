-- ===== src/LocalGrpc/Stream/Run/Settled.antt =====
-- What stays as it is in a local stream once a header was sent or the handler has finished.
use kratos_core.Prelude.{◌≡◌, Bool, true, ◌||◌, List, All}
use kratos_core.Prelude.Eq.{nat_eq}
use kratos_core.Prelude.Error.{Error}
use kratos_core.LocalGrpc.Message.{Message}
use kratos_core.LocalGrpc.Stream.{LocalStream}

-- The header and the trailer, once they are settled.
abbrev locked : LocalStream → Bool
locked s = s.finished || s.header_sent

abbrev pub Settles : LocalStream → LocalStream → Type 0
Settles s t =
    (s.finished || s.header_sent ≡ true
      → (t.header ≡ s.header) × (t.finished || t.header_sent ≡ true))
    × (s.finished ≡ true → (t.trailer ≡ s.trailer) × (t.finished ≡ true))

abbrev After : {A : Type 0} → LocalStream → A × LocalStream → Type 0
After s x = Settles s x.1

abbrev AllSettle : {A : Type 0} → LocalStream → List (A × LocalStream) → Type 0
AllSettle s l = All (After s) l
