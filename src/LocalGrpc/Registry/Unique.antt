-- ===== src/LocalGrpc/Registry/Unique.antt =====
-- The names in the tables of the connection, after registrations.
use kratos_core.Prelude.{
  String, ◌≡◌, refl, sym, ap, ◌∙◌, true, false, none, some, List, [], ◌∷◌, All, arith, Bool-cases,
  inl, inr,
}
use mathlib.Core.Path.{subst}
use kratos_core.Prelude.Eq.{==_iff, string_eq, lookup, lookup-insert}
use kratos_core.LocalGrpc.Registry.{
  Service, MethodDesc, StreamDesc, ServiceDesc, UnaryMethod, StreamMethod, Conn, full_method,
  exists, Registering, taken, register_unary, register_stream, unless_panic, register_methods,
  register_streams, register_service,
}

-- No name stands for a unary method and for a stream.
abbrev pub IsDisjoint : Conn → Type 0
IsDisjoint c =
    (name : String) → exists (lookup name c.methods) ≡ true → exists (lookup name c.streams) ≡ false

-- What was registered stays registered, the same.
abbrev pub Keeps : Conn → Conn → Type 0
Keeps c d =
    (name : String)
    → ((m : UnaryMethod) → lookup name c.methods ≡ some m → lookup name d.methods ≡ some m)
      × ((m : StreamMethod) → lookup name c.streams ≡ some m → lookup name d.streams ≡ some m)

abbrev Sound : Conn → Registering → Type 0
Sound c r = Keeps c r.1 × (IsDisjoint c → IsDisjoint r.1)

Keeps-trans : (c d e : Conn) → Keeps c d → Keeps d e → Keeps c e
Keeps-trans c d e p q name =
    (λ m h. (q name).0 m ((p name).0 m h), λ m h. (q name).1 m ((p name).1 m h))

register_unary-Sound :
    (service_name : String) (method : MethodDesc) (service : Service) (c : Conn)
    → Sound c (register_unary service_name method service c)
unfolding register_unary
register_unary-Sound service_name method service c =
    let name = full_method service_name method.method_name in
    elim (Bool-cases (taken name c)) [
      | inl t ↦ rw t (λ n. (λ m h. h, λ m h. h), λ d. d)
      | inr t ↦ rw t (
        λ n. (
          λ m h. ground (
            arith,
            h,
            t,
            ==_iff name n,
            lookup-insert name n (record { description = method; service = service }) c.methods,
          ),
          λ m h. h,
        ),
        λ d n h. ground (
          arith,
          h,
          t,
          d n,
          ==_iff name n,
          lookup-insert name n (record { description = method; service = service }) c.methods,
        ),
      )
    ]

register_stream-Sound :
    (service_name : String) (stream : StreamDesc) (service : Service) (c : Conn)
    → Sound c (register_stream service_name stream service c)
unfolding register_stream
register_stream-Sound service_name stream service c =
    let name = full_method service_name stream.stream_name in
    elim (Bool-cases (taken name c)) [
      | inl t ↦ rw t (λ n. (λ m h. h, λ m h. h), λ d. d)
      | inr t ↦ rw t (
        λ n. (
          λ m h. h,
          λ m h. ground (
            arith,
            h,
            t,
            ==_iff name n,
            lookup-insert name n (record { description = stream; service = service }) c.streams,
          ),
        ),
        λ d n h. ground (
          arith,
          h,
          t,
          d n,
          ==_iff name n,
          lookup-insert name n (record { description = stream; service = service }) c.streams,
        ),
      )
    ]

-- What a registration that did not panic left in the tables.
abbrev pub HasMethod : String → Service → Conn → MethodDesc → Type 0
HasMethod service_name service c method =
    lookup (full_method service_name method.method_name) c.methods
    ≡ some (record { description = method; service = service })

abbrev pub HasStream : String → Service → Conn → StreamDesc → Type 0
HasStream service_name service c stream =
    lookup (full_method service_name stream.stream_name) c.streams
    ≡ some (record { description = stream; service = service })

register_unary-HasMethod :
    (service_name : String) (method : MethodDesc) (service : Service) (c : Conn)
    → (register_unary service_name method service c).0 ≡ none
    → HasMethod service_name service (register_unary service_name method service c).1 method
unfolding register_unary
register_unary-HasMethod service_name method service c h =
    let name = full_method service_name method.method_name in
    ground (
      arith,
      h,
      ==_iff name name,
      lookup-insert name name (record { description = method; service = service }) c.methods,
    )

register_stream-HasStream :
    (service_name : String) (stream : StreamDesc) (service : Service) (c : Conn)
    → (register_stream service_name stream service c).0 ≡ none
    → HasStream service_name service (register_stream service_name stream service c).1 stream
unfolding register_stream
register_stream-HasStream service_name stream service c h =
    let name = full_method service_name stream.stream_name in
    ground (
      arith,
      h,
      ==_iff name name,
      lookup-insert name name (record { description = stream; service = service }) c.streams,
    )

-- One registration after another.
unless_panic-Sound :
    (c : Conn) (r : Registering) (next : Conn → Registering)
    → Sound c r
    → Sound r.1 (next r.1)
    → Sound c (unless_panic r next)
unless_panic-Sound c (none, d) next (k, i) (l, j) = (Keeps-trans c d _ k l, λ h. j (i h))
unless_panic-Sound c (some e, d) next s t = s

unless_panic-none :
    (r : Registering) (next : Conn → Registering)
    → (unless_panic r next).0 ≡ none
    → (r.0 ≡ none) × (unless_panic r next ≡ next r.1)
unless_panic-none (none, d) next h = (refl, refl)
unless_panic-none (some e, d) next h = ground (arith, h)

register_methods-Sound :
    (service_name : String) (methods : List MethodDesc) (service : Service) (c : Conn)
    → Sound c (register_methods service_name methods service c)
unfolding register_methods
register_methods-Sound service_name [] service c = (λ n. (λ m h. h, λ m h. h), λ d. d)
register_methods-Sound service_name (m ∷ rest) service c =
    unless_panic-Sound c (register_unary service_name m service c) _
      (register_unary-Sound service_name m service c)
      (register_methods-Sound service_name rest service (register_unary service_name m service c).1)

register_streams-Sound :
    (service_name : String) (streams : List StreamDesc) (service : Service) (c : Conn)
    → Sound c (register_streams service_name streams service c)
unfolding register_streams
register_streams-Sound service_name [] service c = (λ n. (λ m h. h, λ m h. h), λ d. d)
register_streams-Sound service_name (m ∷ rest) service c =
    unless_panic-Sound c (register_stream service_name m service c) _
      (register_stream-Sound service_name m service c)
      (register_streams-Sound service_name rest service
        (register_stream service_name m service c).1)

register_methods-HasMethod :
    (service_name : String) (methods : List MethodDesc) (service : Service) (c : Conn)
    → (register_methods service_name methods service c).0 ≡ none
    → All
        (HasMethod service_name service (register_methods service_name methods service c).1)
        methods
unfolding register_methods
register_methods-HasMethod service_name [] service c h = tt
register_methods-HasMethod service_name (m ∷ rest) service c h =
    let one = register_unary service_name m service c in
    let (p, q) = unless_panic-none one (register_methods service_name rest service) h in
    let kept = (register_methods-Sound service_name rest service one.1).0 in
    subst (λ (r : Registering). All (HasMethod service_name service r.1) (m ∷ rest)) (sym q)
      (
        (kept (full_method service_name m.method_name)).0 _
            (register_unary-HasMethod service_name m service c p),
        register_methods-HasMethod service_name rest service one.1 (ap (λ r. r.0) (sym q) ∙ h),
      )

register_streams-HasStream :
    (service_name : String) (streams : List StreamDesc) (service : Service) (c : Conn)
    → (register_streams service_name streams service c).0 ≡ none
    → All
        (HasStream service_name service (register_streams service_name streams service c).1)
        streams
unfolding register_streams
register_streams-HasStream service_name [] service c h = tt
register_streams-HasStream service_name (m ∷ rest) service c h =
    let one = register_stream service_name m service c in
    let (p, q) = unless_panic-none one (register_streams service_name rest service) h in
    let kept = (register_streams-Sound service_name rest service one.1).0 in
    subst (λ (r : Registering). All (HasStream service_name service r.1) (m ∷ rest)) (sym q)
      (
        (kept (full_method service_name m.stream_name)).1 _
            (register_stream-HasStream service_name m service c p),
        register_streams-HasStream service_name rest service one.1 (ap (λ r. r.0) (sym q) ∙ h),
      )

All-kept :
    (service_name : String) (service : Service) (c d : Conn) (methods : List MethodDesc)
    → Keeps c d
    → All (HasMethod service_name service c) methods
    → All (HasMethod service_name service d) methods
All-kept service_name service c d [] k h = tt
All-kept service_name service c d (m ∷ rest) k (p, h) =
    ((k (full_method service_name m.method_name)).0 _ p, All-kept service_name service c d rest k h)

-- A registration, also one that panics on the way, keeps what was registered before, and no name
-- comes to stand both for a unary method and for a stream if none did. Where it does not panic,
-- every method and stream of the description is registered under its full name with the service.
pub register_service-Keeps :
    (d : ServiceDesc) (service : Service) (c : Conn)
    → let r = register_service (some d) (some service) c in
      Keeps c r.1
      × (IsDisjoint c → IsDisjoint r.1)
      × (r.0 ≡ none
          → All (HasMethod d.service_name service r.1) d.methods
            × All (HasStream d.service_name service r.1) d.streams)
unfolding register_service
register_service-Keeps d service c =
    let first = register_methods d.service_name d.methods service c in
    let later = register_streams-Sound d.service_name d.streams service first.1 in
    let sound =
      unless_panic-Sound c first (register_streams d.service_name d.streams service)
        (register_methods-Sound d.service_name d.methods service c) later in
    (
      sound.0,
      sound.1,
      λ h.
          let (p, q) =
            unless_panic-none first (register_streams d.service_name d.streams service) h in
          rw q (
            All-kept d.service_name service first.1 _ d.methods later.0
                (register_methods-HasMethod d.service_name d.methods service c p),
            register_streams-HasStream d.service_name d.streams service first.1 (rw q at h),
          ),
    )
