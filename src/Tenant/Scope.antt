-- ===== src/Tenant/Scope.antt =====
-- What the middleware lets through for a user of an ordinary tenant.
use mathlib.Core.Path.{subst}
use kratos_core.Prelude.{
  String, ◌≡◌, refl, ◌↔◌, inl, inr, Bool, true, false, Option, none, some, [], ◌∷◌, arith,
  Bool-cases, Option-cases,
}
use kratos_core.Prelude.Int.{ℤ, pos, is_neg, int_beq_iff}
use kratos_core.Prelude.Eq.{◌==◌, ==_iff, int_eq, string_eq}
use kratos_core.Prelude.Error.{ok}
use kratos_core.Tenant.{
  Message, message, Fields, no_fields, field, Value, int64, other, absent, single, items, entries,
  Messages, no_messages, more, tenant_field_name, Visited, TokenPayload, message_has_tenant_field,
  apply_tenant_id, next_field, next_message, apply_tenant_scope, apply_fields, apply_value,
  apply_messages, tenant_scope,
}
use kratos_core.Tenant.Walk.{
  Every, EveryField, EveryValue, EveryMessage, IsFlat, FlatFields, FlatValue, FlatMessages,
  Requested, InScope, IsOrdinary, next_field-none, next_message-none, next_field-EveryField,
  next_message-EveryMessage, without,
}

module _ (default_tenant_code : String) (auth : TokenPayload)
    (user : IsOrdinary default_tenant_code auth) where
  apply_tenant_id-Requested :
      (presence : Option Bool) (n : ℤ)
      → ((apply_tenant_id default_tenant_code auth presence n).0 ≡ none)
        ↔ Requested auth.tenant_id (int64 presence n)
  unfolding apply_tenant_id
  apply_tenant_id-Requested presence n =
      let own = ==_iff auth.tenant_code default_tenant_code in
      (
        λ h. ground (arith, user, own, int_beq_iff n (pos 0), int_beq_iff n auth.tenant_id, h),
        λ h. ground (arith, user, own, int_beq_iff n (pos 0), int_beq_iff n auth.tenant_id, h),
      )

  apply_tenant_id-InScope :
      (presence : Option Bool) (n : ℤ)
      → (apply_tenant_id default_tenant_code auth presence n).0 ≡ none
      → InScope auth.tenant_id (apply_tenant_id default_tenant_code auth presence n).1
  unfolding apply_tenant_id
  apply_tenant_id-InScope presence n h =
      let own = ==_iff auth.tenant_code default_tenant_code in
      let own' : (auth.tenant_code == default_tenant_code) ≡ false = ground (arith, user, own) in
      elim (Bool-cases (is_neg n)) [
        | inl a ↦
            let z : (n == pos 0) ≡ false = ground (arith, a, int_beq_iff n (pos 0)) in
            let e : apply_tenant_id default_tenant_code auth presence n ≡ (none, int64 presence n) =
              ground (arith, own', user.valid, a, z, h) in
            rw e (inr a)
        | inr a ↦ elim (Bool-cases (n == pos 0)) [
          | inl z ↦
              let set : Option Bool = elim presence [ none ↦ none | some _ ↦ some true ] in
              let e : apply_tenant_id default_tenant_code auth presence n
                  ≡ (none, int64 set auth.tenant_id) =
                ground (arith, own', user.valid, a, z, h) in
              rw e (inl refl)
          | inr z ↦
              let e : apply_tenant_id default_tenant_code auth presence n
                  ≡ (none, int64 presence n) =
                ground (arith, own', user.valid, a, z, h) in
              let same : n ≡ auth.tenant_id =
                ground (arith, own', user.valid, a, z, h, int_beq_iff n auth.tenant_id) in
              rw e (inl same)
        ]
      ]

  -- Acceptance is exactly that each field was one that may be requested.
  mutual
    unfolding apply_tenant_scope apply_fields apply_value apply_messages Every EveryField EveryValue
        EveryMessage IsFlat FlatFields FlatValue FlatMessages

    accepts :
        (m : Message) (visited : Visited)
        → IsFlat visited m
        → ((apply_tenant_scope default_tenant_code auth m visited).0 ≡ none)
          ↔ Every (Requested auth.tenant_id) m
    accepts (message name valid fs) visited (v, c, f) =
        rw (v, c) (accepts_fields fs (name ∷ visited) f)

    accepts_fields :
        (fs : Fields) (visited : Visited)
        → FlatFields visited fs
        → ((apply_fields default_tenant_code auth fs visited).0 ≡ none)
          ↔ EveryField (Requested auth.tenant_id) fs
    accepts_fields no_fields visited f = (λ h. tt, λ h. refl)
    accepts_fields (field name v rest) visited (f, g) =
        let one = accepts_value (name == tenant_field_name) v visited f in
        let all = accepts_fields rest visited g in
        let both =
          next_field-none
            (apply_value default_tenant_code auth (name == tenant_field_name) v visited) name rest
            (apply_fields default_tenant_code auth rest visited) in
        (λ h. let (a, b) = both.0 h in (one.0 a, all.0 b), λ h. both.1 (one.1 h.0, all.1 h.1))

    accepts_value :
        (b : Bool) (v : Value) (visited : Visited)
        → FlatValue visited v
        → ((apply_value default_tenant_code auth b v visited).0 ≡ none)
          ↔ EveryValue (Requested auth.tenant_id) b v
    accepts_value true (int64 presence n) visited f = apply_tenant_id-Requested presence n
    accepts_value true other visited f = (λ h. tt, λ h. refl)
    accepts_value true absent visited f = (λ h. tt, λ h. refl)
    accepts_value true (single m) visited f = (λ h. tt, λ h. refl)
    accepts_value true (items ms) visited f = (λ h. tt, λ h. refl)
    accepts_value true (entries ms) visited f = (λ h. tt, λ h. refl)
    accepts_value false (int64 presence n) visited f = (λ h. tt, λ h. refl)
    accepts_value false other visited f = (λ h. tt, λ h. refl)
    accepts_value false absent visited f = (λ h. tt, λ h. refl)
    accepts_value false (single m) visited f = accepts m visited f
    accepts_value false (items ms) visited f = accepts_messages ms visited f
    accepts_value false (entries ms) visited f = accepts_messages ms visited f

    accepts_messages :
        (ms : Messages) (visited : Visited)
        → FlatMessages visited ms
        → ((apply_messages default_tenant_code auth ms visited).0 ≡ none)
          ↔ EveryMessage (Requested auth.tenant_id) ms
    accepts_messages no_messages visited f = (λ h. tt, λ h. refl)
    accepts_messages (more m rest) visited (f, g) =
        let one = accepts m visited f in
        let all = accepts_messages rest visited g in
        let both =
          next_message-none (apply_tenant_scope default_tenant_code auth m visited) rest
            (apply_messages default_tenant_code auth rest visited) in
        (λ h. let (a, b) = both.0 h in (one.0 a, all.0 b), λ h. both.1 (one.1 h.0, all.1 h.1))

  -- An accepted message leaves each field in the scope of the user.
  mutual
    unfolding apply_tenant_scope apply_fields apply_value apply_messages next_field next_message
        Every EveryField EveryValue EveryMessage IsFlat FlatFields FlatValue FlatMessages

    leaves :
        (m : Message) (visited : Visited)
        → IsFlat visited m
        → (apply_tenant_scope default_tenant_code auth m visited).0 ≡ none
        → Every (InScope auth.tenant_id) (apply_tenant_scope default_tenant_code auth m visited).1
    leaves (message name valid fs) visited (v, c, f) h =
        rw (v, c) (leaves_fields fs (name ∷ visited) f (rw (v, c) at h))

    leaves_fields :
        (fs : Fields) (visited : Visited)
        → FlatFields visited fs
        → (apply_fields default_tenant_code auth fs visited).0 ≡ none
        → EveryField (InScope auth.tenant_id) (apply_fields default_tenant_code auth fs visited).1
    leaves_fields no_fields visited f h = tt
    leaves_fields (field name v rest) visited (f, g) h =
        let here = apply_value default_tenant_code auth (name == tenant_field_name) v visited in
        let (a, b) =
          (next_field-none here name rest (apply_fields default_tenant_code auth rest visited)).0
            h in
        next_field-EveryField (InScope auth.tenant_id) here name rest
          (apply_fields default_tenant_code auth rest visited) a
          (leaves_value (name == tenant_field_name) v visited f a) (leaves_fields rest visited g b)

    leaves_value :
        (b : Bool) (v : Value) (visited : Visited)
        → FlatValue visited v
        → (apply_value default_tenant_code auth b v visited).0 ≡ none
        → EveryValue (InScope auth.tenant_id) b (apply_value default_tenant_code auth b v visited).1
    leaves_value true (int64 presence n) visited f h = apply_tenant_id-InScope presence n h
    leaves_value true other visited f h = tt
    leaves_value true absent visited f h = tt
    leaves_value true (single m) visited f h = tt
    leaves_value true (items ms) visited f h = tt
    leaves_value true (entries ms) visited f h = tt
    leaves_value false (int64 presence n) visited f h = tt
    leaves_value false other visited f h = tt
    leaves_value false absent visited f h = tt
    leaves_value false (single m) visited f h = leaves m visited f h
    leaves_value false (items ms) visited f h = leaves_messages ms visited f h
    leaves_value false (entries ms) visited f h = leaves_messages ms visited f h

    leaves_messages :
        (ms : Messages) (visited : Visited)
        → FlatMessages visited ms
        → (apply_messages default_tenant_code auth ms visited).0 ≡ none
        → EveryMessage
            (InScope auth.tenant_id)
            (apply_messages default_tenant_code auth ms visited).1
    leaves_messages no_messages visited f h = tt
    leaves_messages (more m rest) visited (f, g) h =
        let here = apply_tenant_scope default_tenant_code auth m visited in
        let (a, b) =
          (next_message-none here rest (apply_messages default_tenant_code auth rest visited)).0
            h in
        next_message-EveryMessage (InScope auth.tenant_id) here rest
          (apply_messages default_tenant_code auth rest visited) a (leaves m visited f a)
          (leaves_messages rest visited g b)

module _ (default_tenant_code : String) (auth : TokenPayload)
    (user : IsOrdinary default_tenant_code auth) (m : Message) (flat : IsFlat [] m) where
  -- For a user of an ordinary tenant, in a message whose parts are valid and in which no message
  -- lies inside one of its own type, every `int64` field `tenant_id` that the handler gets, and
  -- that lies below no other field of this name, is the user's tenant or negative. A field of this
  -- name with another type may hold anything.
  pub tenant_scope-InScope :
      (m' : Message)
      → tenant_scope default_tenant_code (ok (some auth)) (some m) ≡ ok (some m')
      → Every (InScope auth.tenant_id) m'
  unfolding tenant_scope
  tenant_scope-InScope m' h = elim (Bool-cases (message_has_tenant_field m [])) [
    | inr b ↦
        let e : m ≡ m' = let p = rw b at h in cc in
        subst (λ x. Every (InScope auth.tenant_id) x) e
          (without (InScope auth.tenant_id) m [] flat b)
    | inl b ↦ elim (Option-cases (apply_tenant_scope default_tenant_code auth m []).0) [
      | inr (x, a) ↦ absurd (let p = rw (b, a) at h in cc)
      | inl a ↦
          let e : (apply_tenant_scope default_tenant_code auth m []).1 ≡ m' =
            let p = rw (b, a) at h in cc in
          subst (λ x. Every (InScope auth.tenant_id) x) e
            (leaves default_tenant_code auth user m [] flat a)
    ]
  ]

  -- For a user of an ordinary tenant, a message whose parts are valid and in which no message lies
  -- inside one of its own type is passed on if and only if each `int64` field `tenant_id` that lies
  -- below no other field of this name was unset, the user's tenant or negative; an explicit 0 is
  -- refused where the field has presence. A field of this name with another type does not count.
  pub tenant_scope-Requested :
      ((m' : Message) × (tenant_scope default_tenant_code (ok (some auth)) (some m) ≡ ok (some m')))
      ↔ Every (Requested auth.tenant_id) m
  unfolding tenant_scope
  tenant_scope-Requested = elim (Bool-cases (message_has_tenant_field m [])) [
    | inr b ↦ (λ h. without (Requested auth.tenant_id) m [] flat b, λ h. (m, rw b refl))
    | inl b ↦
        let meets = accepts default_tenant_code auth user m [] flat in
        elim (Option-cases (apply_tenant_scope default_tenant_code auth m []).0) [
          | inr (x, a) ↦ (
            λ h. absurd (let (m', e) = h in let p = rw (b, a) at e in cc),
            λ h. absurd (let p = meets.1 h in cc),
          )
          | inl a ↦ (
            λ h. meets.0 a,
            λ h. ((apply_tenant_scope default_tenant_code auth m []).1, rw (b, a) refl),
          )
        ]
  ]
