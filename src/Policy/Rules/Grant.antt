-- ===== src/Policy/Rules/Grant.antt =====
-- What the rules are meant to be: one for each API that a menu of a role names. And the induction
-- that the proofs about the loops share.
use kratos_core.Prelude.{String, ◌≡◌, refl, Option, none, some, List, [], ◌∷◌, In, inl, inr}
use kratos_core.Prelude.Int.{ℤ}
use kratos_core.Prelude.Eq.{int_eq, string_eq, lookup}
use kratos_core.Policy.Records.{RoleRecord, ApiPolicyRecord}
use kratos_core.Policy.Rules.{
  Codec, Rules, add_rule, add_api, add_operations, operations_of, add_menus, add_role, add_roles,
}

module _ (c : Codec) (tenants : List (ℤ × String)) (menus : List (ℤ × List String))
    (apis : List (String × ApiPolicyRecord)) where
  -- The role has a menu with the operation, its tenant is known, and the operation is an API.
  pub record Grant (role : RoleRecord) (tenant : String) (api : ApiPolicyRecord) : Type 0 where
    pub menu : ℤ
    pub operation : String
    pub tenant_known : lookup role.tenant_id tenants ≡ some tenant
    pub has_menu : In menu (c.int_array role.menus)
    pub has_operation : In operation (operations_of c tenants menus apis (lookup menu menus))
    pub is_api : lookup operation apis ≡ some api

  module _ (I : Rules → Type 0) where
    -- An invariant that the granted rules keep.
    abbrev pub Kept : String → String → ApiPolicyRecord → Type 0
    Kept tenant role api = (r : Rules) → I r → I (add_rule c tenants menus apis tenant role api r)

    pub add_operations_ind :
        (tenant role : String) (ops : List String) (r : Rules)
        → ((op : String) (api : ApiPolicyRecord)
            → In op ops
            → lookup op apis ≡ some api
            → Kept tenant role api)
        → I r
        → I (add_operations c tenants menus apis tenant role ops r)
    unfolding add_operations
    add_operations_ind tenant role [] r keep h = h
    add_operations_ind tenant role (op ∷ rest) r keep h =
        add_operations_ind tenant role rest
          (add_api c tenants menus apis tenant role (lookup op apis) r)
          (λ o a m l. keep o a (inr m) l) (one (lookup op apis) refl)
      where
        one :
            (found : Option ApiPolicyRecord)
            → lookup op apis ≡ found
            → I (add_api c tenants menus apis tenant role found r)
        one none p = h
        one (some api) p = keep op api (inl refl) p r h

    pub add_menus_ind :
        (tenant role : String) (ids : List ℤ) (r : Rules)
        → ((id : ℤ) (op : String) (api : ApiPolicyRecord)
            → In id ids
            → In op (operations_of c tenants menus apis (lookup id menus))
            → lookup op apis ≡ some api
            → Kept tenant role api)
        → I r
        → I (add_menus c tenants menus apis tenant role ids r)
    unfolding add_menus
    add_menus_ind tenant role [] r keep h = h
    add_menus_ind tenant role (id ∷ rest) r keep h =
        let ops = operations_of c tenants menus apis (lookup id menus) in
        add_menus_ind tenant role rest (add_operations c tenants menus apis tenant role ops r)
          (λ i o a m n l. keep i o a (inr m) n l)
          (add_operations_ind tenant role ops r (λ o a m l. keep id o a (inl refl) m l) h)

    add_role_ind :
        (found : Option String) (role : RoleRecord) (r : Rules)
        → lookup role.tenant_id tenants ≡ found
        → ((tenant : String) (api : ApiPolicyRecord)
            → Grant role tenant api
            → Kept tenant role.code api)
        → I r
        → I (add_role c tenants menus apis found role r)
    unfolding add_role
    add_role_ind none role r p keep h = h
    add_role_ind (some tenant) role r p keep h =
        add_menus_ind tenant role.code (c.int_array role.menus) r
          (λ id op api m n l. keep tenant api (record {
            menu = id;
            operation = op;
            tenant_known = p;
            has_menu = m;
            has_operation = n;
            is_api = l;
          }))
          h

    pub add_roles_ind :
        (roles : List RoleRecord) (r : Rules)
        → ((role : RoleRecord) (tenant : String) (api : ApiPolicyRecord)
            → In role roles
            → Grant role tenant api
            → Kept tenant role.code api)
        → I r
        → I (add_roles c tenants menus apis roles r)
    unfolding add_roles
    add_roles_ind [] r keep h = h
    add_roles_ind (role ∷ rest) r keep h =
        let found = lookup role.tenant_id tenants in
        add_roles_ind rest (add_role c tenants menus apis found role r)
          (λ x t a m g. keep x t a (inr m) g)
          (add_role_ind found role r refl (λ t a g. keep role t a (inl refl) g) h)
