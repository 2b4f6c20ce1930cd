-- ===== src/Tenant.antt =====
-- server/middleware/tenant.go: the tenant fields of a request. A protobuf message is a tree: its
-- full name, whether it is valid, and its fields in the order of the descriptor. A repeated field
-- of 64-bit integers that is named `tenant_id` is left out: Go's `Int` would panic on it.
pub mod Walk
pub mod Scope
pub mod Nested
mod Tests
use kratos_core.Prelude.{
  String, Bool, true, false, not, ◌&&◌, ◌||◌, Option, none, some, List, [], ◌∷◌, if◌then◌else◌,
}
use kratos_core.Prelude.Int.{ℤ, pos, is_pos, is_neg}
use kratos_core.Prelude.Eq.{◌==◌, int_eq, string_eq, contains}
use kratos_core.Prelude.Error.{
  Error, Result, ok, err, invalid_argument, permission_denied, unauthenticated, with_cause,
}

mutual
  pub data Message : Type 0 where
    message : String → Bool → Fields → Message

  pub data Fields : Type 0 where
    no_fields : Fields
    field : String → Value → Fields → Fields

  -- An `int64` field has a presence of its own or none. `other` has no kind of message, nor have
  -- the values of its map; `absent` is a message field that is not set.
  pub data Value : Type 0 where
    int64 : Option Bool → ℤ → Value
    other absent : Value
    single : Message → Value
    items entries : Messages → Value

  pub data Messages : Type 0 where
    no_messages : Messages
    more : Message → Messages → Messages

abbrev pub tenant_field_name : String
tenant_field_name = "tenant_id"

-- The set of the full names on the path; a deferred call takes a name out again.
abbrev pub Visited : Type 0
Visited = List String

-- `messageHasTenantField`
unfoldable mutual
  pub message_has_tenant_field : Message → Visited → Bool
  message_has_tenant_field (message name valid fs) visited =
      valid && not (contains visited name) && fields_have fs (name ∷ visited)

  pub fields_have : Fields → Visited → Bool
  fields_have no_fields visited = false
  fields_have (field name v rest) visited =
      name == tenant_field_name || value_has v visited || fields_have rest visited

  pub value_has : Value → Visited → Bool
  value_has (int64 presence n) visited = false
  value_has other visited = false
  value_has absent visited = false
  value_has (single m) visited = message_has_tenant_field m visited
  value_has (items ms) visited = messages_have ms visited
  value_has (entries ms) visited = messages_have ms visited

  pub messages_have : Messages → Visited → Bool
  messages_have no_messages visited = false
  messages_have (more m rest) visited =
      message_has_tenant_field m visited || messages_have rest visited

-- The fields of `data.UserTokenPayload` that are read.
pub record TokenPayload : Type 0 where
  pub tenant_id : ℤ
  pub tenant_code : String

-- An error ends a loop; the fields that are left stay as they are.
unfoldable pub next_field :
    Option Error × Value → String → Fields → Option Error × Fields → Option Error × Fields
next_field (none, v) name rest (e, rest') = (e, field name v rest')
next_field (some e, v) name rest r = (some e, field name v rest)

unfoldable pub next_message :
    Option Error × Message → Messages → Option Error × Messages → Option Error × Messages
next_message (none, m) rest (e, rest') = (e, more m rest')
next_message (some e, m) rest r = (some e, more m rest)

module _ (default_tenant_code : String) (auth : TokenPayload) where
  abbrev is_set : Option Bool → Bool
  is_set (some b) = b
  is_set none = false

  unfoldable pub apply_tenant_id : Option Bool → ℤ → Option Error × Value
  apply_tenant_id presence n =
      if auth.tenant_code == default_tenant_code
      then (none, int64 presence n)
      else if not (is_pos auth.tenant_id)
      then (some (invalid_argument "当前用户所属租户无效"), int64 presence n)
      else if is_set presence && n == pos 0
      then (some (invalid_argument "租户ID必须为正数"), int64 presence n)
      else if is_neg n
      then (none, int64 presence n)
      else if n == pos 0
      then (none, int64 (elim presence [ none ↦ none | some _ ↦ some true ]) auth.tenant_id)
      else if not (n == auth.tenant_id)
      then (some (permission_denied "不能操作其他租户的数据"), int64 presence n)
      else (none, int64 presence n)

  -- `applyTenantScope`; the Boolean of a field says whether it is named `tenant_id`.
  unfoldable mutual
    pub apply_tenant_scope : Message → Visited → Option Error × Message
    apply_tenant_scope (message name valid fs) visited =
        let (e, fs') = apply_fields fs (name ∷ visited) in
        if not valid || contains visited name
        then (none, message name valid fs)
        else (e, message name valid fs')

    pub apply_fields : Fields → Visited → Option Error × Fields
    apply_fields no_fields visited = (none, no_fields)
    apply_fields (field name v rest) visited =
        next_field (apply_value (name == tenant_field_name) v visited) name rest
          (apply_fields rest visited)

    pub apply_value : Bool → Value → Visited → Option Error × Value
    apply_value true (int64 presence n) visited = apply_tenant_id presence n
    apply_value true v visited = (none, v)
    apply_value false (int64 presence n) visited = (none, int64 presence n)
    apply_value false other visited = (none, other)
    apply_value false absent visited = (none, absent)
    apply_value false (single m) visited =
        let (e, m') = apply_tenant_scope m visited in (e, single m')
    apply_value false (items ms) visited =
        let (e, ms') = apply_messages ms visited in (e, items ms')
    apply_value false (entries ms) visited =
        let (e, ms') = apply_messages ms visited in (e, entries ms')

    pub apply_messages : Messages → Visited → Option Error × Messages
    apply_messages no_messages visited = (none, no_messages)
    apply_messages (more m rest) visited =
        next_message (apply_tenant_scope m visited) rest (apply_messages rest visited)

-- What `auth.FromContext` returns: an error, or a payload that can be nil.
abbrev no_identity : Error
no_identity = unauthenticated "缺少有效的登录身份"

scoped : Option Error × Message → Result (Option Message)
scoped (none, m) = ok (some m)
scoped (some e, m) = err e

-- The request that the handler gets; `none` is a request that is no message.
with_identity : String → Result (Option TokenPayload) → Message → Result (Option Message)
unfolding scoped
with_identity default (ok (some auth)) m = scoped (apply_tenant_scope default auth m [])
with_identity default (ok none) m = err no_identity
with_identity default (err e) m = err (with_cause no_identity e)

unfoldable pub tenant_scope :
    String → Result (Option TokenPayload) → Option Message → Result (Option Message)
unfolding with_identity
tenant_scope default found none = ok none
tenant_scope default found (some m) =
    if message_has_tenant_field m [] then with_identity default found m else ok (some m)
