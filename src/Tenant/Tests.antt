-- ===== src/Tenant/Tests.antt =====
-- Requests of a user of tenant 7.
use kratos_core.Prelude.{◌≡◌, refl, ◌↔◌, true, none, some, []}
use kratos_core.Prelude.Int.{ℤ, pos}
use kratos_core.Prelude.Eq.{contains}
use kratos_core.Prelude.Error.{ok}
use kratos_core.Tenant.{
  Message, message, Fields, no_fields, field, int64, single, items, no_messages, more, TokenPayload,
  tenant_scope, message_has_tenant_field, apply_tenant_id, apply_tenant_scope, next_field,
  next_message,
}
use kratos_core.Tenant.Walk.{
  Every, IsFlat, FlatFields, FlatValue, FlatMessages, Requested, InScope, IsOrdinary,
}
use kratos_core.Tenant.Scope.{tenant_scope-InScope, tenant_scope-Requested}
use kratos_core.Tenant.Nested.{tenant_scope_nested}

abbrev acme : TokenPayload
acme = record { tenant_id = pos 7; tenant_code = "acme" }

acme-IsOrdinary : IsOrdinary "default" acme
acme-IsOrdinary = record { own = λ e. cc; valid = refl }

-- An order with an unset tenant and one line of the tenant 7, or of the given one.
abbrev order : ℤ → ℤ → Message
order outer inner = message "Order" true (
    field "tenant_id" (int64 none outer) (
      field "lines"
        (items
          (more (message "Line" true (field "tenant_id" (int64 none inner) no_fields)) no_messages))
        no_fields))

order-IsFlat : IsFlat [] (order (pos 0) (pos 7))
unfolding IsFlat FlatFields FlatValue FlatMessages contains
order-IsFlat = (refl, refl, (tt, (((refl, refl, (tt, tt)), tt), tt)))

tenant_scope-InScope_example : Every (InScope (pos 7)) (order (pos 7) (pos 7))
unfolding tenant_scope message_has_tenant_field apply_tenant_scope contains next_field
    apply_tenant_id next_message
tenant_scope-InScope_example =
    tenant_scope-InScope "default" acme acme-IsOrdinary (order (pos 0) (pos 7)) order-IsFlat
      (order (pos 7) (pos 7)) refl

tenant_scope-Requested_example :
    ((m' : Message) × (tenant_scope "default" (ok (some acme)) (some (order (pos 0) (pos 7)))
        ≡ ok (some m')))
    ↔ Every (Requested (pos 7)) (order (pos 0) (pos 7))
tenant_scope-Requested_example =
    tenant_scope-Requested "default" acme acme-IsOrdinary (order (pos 0) (pos 7)) order-IsFlat

abbrev foreign : Fields
foreign = field "tenant_id" (int64 none (pos 8)) no_fields

tenant_scope_nested_example :
    tenant_scope "default"
      (ok (some acme))
      (some (message "Node" true (field "parent" (single (message "Node" true foreign)) no_fields)))
    ≡ ok (
        some
          (message "Node" true (field "parent" (single (message "Node" true foreign)) no_fields)))
tenant_scope_nested_example = tenant_scope_nested "default" acme "Node" "parent" foreign (λ e. cc)
