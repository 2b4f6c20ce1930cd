-- ===== src/Tenant/Walk.antt =====
-- The fields `tenant_id` of a message, at any depth, and what the walks do to them.
use kratos_core.Prelude.{
  String, ◌≡◌, ◌≢◌, refl, ◌↔◌, ◌⊎◌, Bool, true, false, ◌||◌, Option, none, some, ◌∷◌,
}
use kratos_core.Prelude.Int.{ℤ, pos, is_pos, is_neg}
use kratos_core.Prelude.Eq.{◌==◌, int_eq, string_eq, contains}
use kratos_core.Prelude.Error.{Error}
use kratos_core.Tenant.{
  Message, message, Fields, no_fields, field, Value, int64, other, absent, single, items, entries,
  Messages, no_messages, more, tenant_field_name, Visited, TokenPayload, message_has_tenant_field,
  fields_have, value_has, messages_have, next_field, next_message,
}

-- `P` holds of every field `tenant_id` of the message, at any depth, but not below such a field.
module _ (P : Value → Type 0) where
  unfoldable mutual
    pub Every : Message → Type 0
    Every (message name valid fs) = EveryField fs

    pub EveryField : Fields → Type 0
    EveryField no_fields = Unit
    EveryField (field name v rest) = EveryValue (name == tenant_field_name) v × EveryField rest

    pub EveryValue : Bool → Value → Type 0
    EveryValue true v = P v
    EveryValue false (single m) = Every m
    EveryValue false (items ms) = EveryMessage ms
    EveryValue false (entries ms) = EveryMessage ms
    EveryValue false _ = Unit

    pub EveryMessage : Messages → Type 0
    EveryMessage no_messages = Unit
    EveryMessage (more m rest) = Every m × EveryMessage rest

-- Every message of the tree is valid, and none lies inside one of its own type.
unfoldable mutual
  pub IsFlat : Visited → Message → Type 0
  IsFlat visited (message name valid fs) =
      (valid ≡ true) × (contains visited name ≡ false) × FlatFields (name ∷ visited) fs

  pub FlatFields : Visited → Fields → Type 0
  FlatFields visited no_fields = Unit
  FlatFields visited (field name v rest) = FlatValue visited v × FlatFields visited rest

  pub FlatValue : Visited → Value → Type 0
  FlatValue visited (single m) = IsFlat visited m
  FlatValue visited (items ms) = FlatMessages visited ms
  FlatValue visited (entries ms) = FlatMessages visited ms
  FlatValue visited _ = Unit

  pub FlatMessages : Visited → Messages → Type 0
  FlatMessages visited no_messages = Unit
  FlatMessages visited (more m rest) = IsFlat visited m × FlatMessages visited rest

-- What a request may hold in such a field: nothing, the own tenant, or a negative number, which
-- other validation sees.
abbrev pub Requested : ℤ → Value → Type 0
Requested tenant (int64 presence n) =
    ((n ≡ pos 0) × (presence ≢ some true)) ⊎ (n ≡ tenant) ⊎ (is_neg n ≡ true)
Requested tenant _ = Unit

-- What the handler may find in it.
abbrev pub InScope : ℤ → Value → Type 0
InScope tenant (int64 presence n) = (n ≡ tenant) ⊎ (is_neg n ≡ true)
InScope tenant _ = Unit

-- A user of a tenant of its own.
pub record IsOrdinary (default_tenant_code : String) (auth : TokenPayload) : Type 0 where
  pub own : auth.tenant_code ≢ default_tenant_code
  pub valid : is_pos auth.tenant_id ≡ true

pub next_field-none :
    (r : Option Error × Value) (name : String) (rest : Fields) (s : Option Error × Fields)
    → ((next_field r name rest s).0 ≡ none) ↔ ((r.0 ≡ none) × (s.0 ≡ none))
unfolding next_field
next_field-none (none, v) name rest s = (λ h. (refl, h), λ h. h.1)
next_field-none (some e, v) name rest s = (λ h. absurd cc, λ h. absurd (let e = h.0 in cc))

pub next_message-none :
    (r : Option Error × Message) (rest : Messages) (s : Option Error × Messages)
    → ((next_message r rest s).0 ≡ none) ↔ ((r.0 ≡ none) × (s.0 ≡ none))
unfolding next_message
next_message-none (none, m) rest s = (λ h. (refl, h), λ h. h.1)
next_message-none (some e, m) rest s = (λ h. absurd cc, λ h. absurd (let e = h.0 in cc))

module _ (P : Value → Type 0) where
  pub next_field-EveryField :
      (r : Option Error × Value) (name : String) (rest : Fields) (s : Option Error × Fields)
      → r.0 ≡ none
      → EveryValue P (name == tenant_field_name) r.1
      → EveryField P s.1
      → EveryField P (next_field r name rest s).1
  unfolding next_field EveryField
  next_field-EveryField (none, v) name rest s h a b = (a, b)
  next_field-EveryField (some e, v) name rest s h a b = absurd cc

  pub next_message-EveryMessage :
      (r : Option Error × Message) (rest : Messages) (s : Option Error × Messages)
      → r.0 ≡ none
      → Every P r.1
      → EveryMessage P s.1
      → EveryMessage P (next_message r rest s).1
  unfolding next_message EveryMessage
  next_message-EveryMessage (none, m) rest s h a b = (a, b)
  next_message-EveryMessage (some e, m) rest s h a b = absurd cc

or_false : (a b : Bool) → (a || b) ≡ false → (a ≡ false) × (b ≡ false)
or_false false b h = (refl, h)
or_false true b h = absurd cc

-- A flat message without such a field has every property of such fields.
module _ (P : Value → Type 0) where
  mutual
    unfolding message_has_tenant_field fields_have value_has messages_have Every EveryField
        EveryValue EveryMessage IsFlat FlatFields FlatValue FlatMessages

    pub without :
        (m : Message) (visited : Visited)
        → IsFlat visited m
        → message_has_tenant_field m visited ≡ false
        → Every P m
    without (message name valid fs) visited (v, c, f) h =
        without_fields fs (name ∷ visited) f (rw (v, c) at h)

    without_fields :
        (fs : Fields) (visited : Visited)
        → FlatFields visited fs
        → fields_have fs visited ≡ false
        → EveryField P fs
    without_fields no_fields visited f h = tt
    without_fields (field name v rest) visited (f, g) h =
        let (first, later) =
          or_false (name == tenant_field_name || value_has v visited) (fields_have rest visited)
            h in
        let (b, here) = or_false (name == tenant_field_name) (value_has v visited) first in
        (rw b (without_value v visited f here), without_fields rest visited g later)

    without_value :
        (v : Value) (visited : Visited)
        → FlatValue visited v
        → value_has v visited ≡ false
        → EveryValue P false v
    without_value (int64 presence n) visited f h = tt
    without_value other visited f h = tt
    without_value absent visited f h = tt
    without_value (single m) visited f h = without m visited f h
    without_value (items ms) visited f h = without_messages ms visited f h
    without_value (entries ms) visited f h = without_messages ms visited f h

    without_messages :
        (ms : Messages) (visited : Visited)
        → FlatMessages visited ms
        → messages_have ms visited ≡ false
        → EveryMessage P ms
    without_messages no_messages visited f h = tt
    without_messages (more m rest) visited (f, g) h =
        let (here, later) =
          or_false (message_has_tenant_field m visited) (messages_have rest visited) h in
        (without m visited f here, without_messages rest visited g later)
