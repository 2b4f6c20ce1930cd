-- ===== src/Tenant/Nested.antt =====
-- What the middleware does not look at.
use kratos_core.Prelude.{
  String, ◌≡◌, refl, ◌≢◌, Bool, true, false, Bool-cases, inl, inr, none, some, [], ◌∷◌, arith,
}
use kratos_core.Prelude.Eq.{◌==◌, ==_iff, string_eq, contains}
use kratos_core.Prelude.Error.{ok}
use kratos_core.Tenant.{
  message, Fields, no_fields, field, single, tenant_field_name, Visited, TokenPayload, next_field,
  apply_tenant_scope, apply_fields, apply_value, tenant_scope, message_has_tenant_field,
}

module _ (default_tenant_code : String) (auth : TokenPayload) where
  -- What lies under a type on the path is passed on as it is.
  repeated :
      (name : String) (valid : Bool) (fs : Fields) (visited : Visited)
      → contains visited name ≡ true
      → apply_tenant_scope default_tenant_code auth (message name valid fs) visited
        ≡ (none, message name valid fs)
  unfolding apply_tenant_scope
  repeated name true fs visited h = rw h refl
  repeated name false fs visited h = refl

  outer :
      (name child : String) (inner : Fields)
      → child ≢ tenant_field_name
      → let m = message name true (field child (single (message name true inner)) no_fields) in
        apply_tenant_scope default_tenant_code auth m [] ≡ (none, m)
  unfolding apply_tenant_scope apply_fields apply_value next_field contains
  outer name child inner d =
      let c : (child == tenant_field_name) ≡ false =
        ground (arith, ==_iff child tenant_field_name) in
      let e : contains (name ∷ []) name ≡ true = ground (arith, ==_iff name name) in
      rw c (rw (repeated name true inner (name ∷ []) e) refl)

  -- A message whose one field, of another name than `tenant_id`, holds a message of the same type
  -- is passed on as it is for every identity, whatever tenant the fields of the inner message
  -- name.
  pub tenant_scope_nested :
      (name child : String) (inner : Fields)
      → child ≢ tenant_field_name
      → let m = message name true (field child (single (message name true inner)) no_fields) in
        tenant_scope default_tenant_code (ok (some auth)) (some m) ≡ ok (some m)
  unfolding tenant_scope
  tenant_scope_nested name child inner d =
      let m = message name true (field child (single (message name true inner)) no_fields) in
      elim (Bool-cases (message_has_tenant_field m [])) [
        | inl b ↦ rw (b, outer name child inner d) refl
        | inr b ↦ rw b refl
      ]
