-- ===== src/Policy/Rules/Complete.antt =====
-- The set of rule keys that `buildCasbinRuleList` keeps, and the rules of the grants.
use mathlib.Core.Path.{subst}
use Prim.Native.String.{◌++◌ as str_append}
use kratos_core.Prelude.{
  ◌∙◌, String, ◌≡◌, ◌≢◌, refl, sym, true, some, List, [], ◌∷◌, ◌++◌, arith, In, In-append,
  In-append_left, In-append_right, inl, inr, Bool-cases, All,
}
use kratos_core.Prelude.Int.{ℤ}
use kratos_core.Prelude.Eq.{==_iff, int_eq, string_eq, lookup, contains, contains-In, In-contains}
use kratos_core.Policy.Records.{RoleRecord, TenantRecord, MenuRecord, ApiPolicyRecord, PolicyRecord}
use kratos_core.Policy.Rules.{
  Codec, Rules, no_rules, rule_of, rule_key, add_rule, add_api, add_operations, add_menus, add_role,
  add_roles, operations_of, tenant_codes, menu_operations, api_by_operation, build_casbin_rule_list,
}
use kratos_core.Policy.Rules.Listed.{
  LastOf, FirstOf, lookup-tenant_codes, lookup-menu_operations, lookup-api_by_operation,
}
use kratos_core.Policy.Rules.Grant.{Grant, add_roles_ind, add_menus_ind, add_operations_ind}

-- The deduplication key of a rule of the list.
abbrev pub key_of : PolicyRecord → String
key_of r = rule_key r.v0 r.v1 (record { operation = r.v2; method = r.v3 })

-- The four texts that tell rules apart, with a NUL between them.
abbrev pub joined : PolicyRecord → String
joined r =
    str_append r.v0
      (str_append "\0" (str_append r.v1 (str_append "\0" (str_append r.v2 (str_append "\0" r.v3)))))

key_of-joined : (r : PolicyRecord) → key_of r ≡ joined r
unfolding rule_key
key_of-joined r = refl

-- No later rule has the key of an earlier one.
abbrev pub Distinct : List PolicyRecord → Type 0
Distinct [] = Unit
Distinct (x ∷ xs) = All (λ y. key_of x ≢ key_of y) xs × Distinct xs

All-append {κ} :
    {A : Type 0} (P : A → Type κ) (xs : List A) (y : A) → All P xs → P y → All P (xs ++ y ∷ [])
All-append P [] y h p = (p, tt)
All-append P (x ∷ xs) y h p = (h.0, All-append P xs y h.1 p)

Distinct-append :
    (xs : List PolicyRecord) (y : PolicyRecord)
    → ((x : PolicyRecord) → In x xs → key_of x ≢ key_of y)
    → Distinct xs
    → Distinct (xs ++ y ∷ [])
Distinct-append [] y d h = (tt, tt)
Distinct-append (x ∷ xs) y d h = (
  All-append (λ z. key_of x ≢ key_of z) xs y h.0 (d x (inl refl)),
  Distinct-append xs y (λ z i. d z (inr i)) h.1,
)

-- The key set is the set of the keys of the rules.
record IsKeyed (r : Rules) : Type 0 where
  known : (x : PolicyRecord) → In x r.list → contains r.keys (key_of x) ≡ true
  held : (k : String) → In k r.keys → (x : PolicyRecord) × In x r.list × (key_of x ≡ k)
  distinct : Distinct r.list

module _ (c : Codec) (tenants : List (ℤ × String)) (menus : List (ℤ × List String))
    (apis : List (String × ApiPolicyRecord)) where
  add_rule-IsKeyed :
      (code role : String) (api : ApiPolicyRecord) (r : Rules)
      → IsKeyed r
      → IsKeyed (add_rule c tenants menus apis code role api r)
  unfolding add_rule
  add_rule-IsKeyed code role api r h =
      let key : String = rule_key code role api in
      let new : PolicyRecord = rule_of code role api in
      elim (Bool-cases (contains r.keys key)) [
        | inl b ↦ rw b h
        | inr b ↦ rw b (record {
          known = λ x i.
              In-contains (key ∷ r.keys) (key_of x) (elim (In-append x r.list (new ∷ []) i) [
                | inl old ↦ inr (contains-In r.keys (key_of x) (h.known x old))
                | inr (inl e) ↦ inl (rw e)
                | inr (inr n) ↦ absurd n
              ]);
          held = λ k i. elim i [
            | inl e ↦ (new, In-append_right new r.list (new ∷ []) (inl refl), sym e)
            | inr old ↦ let (x, j, p) = h.held k old in (x, In-append_left x r.list (new ∷ []) j, p)
          ];
          distinct =
              Distinct-append r.list new (λ x i e. ground (arith, h.known x i, b, e)) h.distinct;
        })
      ]

  abbrev Has : String → Rules → Type 0
  Has key r = contains r.keys key ≡ true

  add_rule-Has :
      (key code role : String) (api : ApiPolicyRecord) (r : Rules)
      → Has key r
      → Has key (add_rule c tenants menus apis code role api r)
  unfolding add_rule contains
  add_rule-Has key code role api r h = ground (arith, h)

  add_rule-Has_self :
      (code role : String) (api : ApiPolicyRecord) (r : Rules)
      → Has (rule_key code role api) (add_rule c tenants menus apis code role api r)
  unfolding add_rule contains
  add_rule-Has_self code role api r =
      ground (arith, ==_iff (rule_key code role api) (rule_key code role api))

  reach_operations :
      (code role : String) (ops : List String) (op : String) (api : ApiPolicyRecord) (r : Rules)
      → In op ops
      → lookup op apis ≡ some api
      → Has (rule_key code role api) (add_operations c tenants menus apis code role ops r)
  unfolding add_operations
  reach_operations code role [] op api r i l = elim i [ ]
  reach_operations code role (o ∷ rest) op api r (inr i) l =
      reach_operations code role rest op api _ i l
  reach_operations code role (o ∷ rest) op api r (inl e) l =
      add_operations_ind c tenants menus apis (Has (rule_key code role api)) code role rest
        (add_api c tenants menus apis code role (lookup o apis) r)
        (λ o' a m l' r' h. add_rule-Has (rule_key code role api) code role a r' h)
        (rw (← e, l) (add_rule-Has_self code role api r))

  reach_menus :
      (code role : String) (ids : List ℤ) (id : ℤ) (op : String) (api : ApiPolicyRecord) (r : Rules)
      → In id ids
      → In op (operations_of c tenants menus apis (lookup id menus))
      → lookup op apis ≡ some api
      → Has (rule_key code role api) (add_menus c tenants menus apis code role ids r)
  unfolding add_menus
  reach_menus code role [] id op api r i o l = elim i [ ]
  reach_menus code role (j ∷ rest) id op api r (inr i) o l =
      reach_menus code role rest id op api _ i o l
  reach_menus code role (j ∷ rest) id op api r (inl e) o l =
      add_menus_ind c tenants menus apis (Has (rule_key code role api)) code role rest _
        (λ i' o' a m n l' r' h. add_rule-Has (rule_key code role api) code role a r' h)
        (rw (← e) (reach_operations code role _ op api r o l))

  reach_roles :
      (roles : List RoleRecord) (role : RoleRecord) (code : String) (api : ApiPolicyRecord)
      (r : Rules)
      → In role roles
      → Grant c tenants menus apis role code api
      → Has (rule_key code role.code api) (add_roles c tenants menus apis roles r)
  unfolding add_roles add_role
  reach_roles [] role code api r i g = elim i [ ]
  reach_roles (x ∷ rest) role code api r (inr i) g = reach_roles rest role code api _ i g
  reach_roles (x ∷ rest) role code api r (inl e) g =
      add_roles_ind c tenants menus apis (Has (rule_key code role.code api)) rest _
        (λ x' t a m g' r' h. add_rule-Has (rule_key code role.code api) t x'.code a r' h)
        (rw (← e, g.tenant_known)
          (reach_menus code role.code (c.int_array role.menus) g.menu g.operation api r g.has_menu
            g.has_operation g.is_api))

module _ (c : Codec) (roles : List RoleRecord) (tenants : List TenantRecord)
    (menus : List MenuRecord) (apis : List ApiPolicyRecord) where
  abbrev codes : List (ℤ × String)
  codes = tenant_codes [] tenants

  abbrev operations : List (ℤ × List String)
  operations = menu_operations c [] menus

  abbrev by_operation : List (String × ApiPolicyRecord)
  by_operation = api_by_operation [] apis

  built_IsKeyed : IsKeyed (add_roles c codes operations by_operation roles no_rules)
  built_IsKeyed =
      add_roles_ind c codes operations by_operation IsKeyed roles no_rules
        (λ role code api i g r h.
          add_rule-IsKeyed c codes operations by_operation code role.code api r h)
        (record { known = λ x i. absurd i; held = λ k i. absurd i; distinct = tt })

  -- No two rules that are built have the same deduplication key.
  pub build_casbin_rule_list-Distinct : Distinct (build_casbin_rule_list c roles tenants menus apis)
  unfolding build_casbin_rule_list
  build_casbin_rule_list-Distinct = built_IsKeyed.distinct

  granted_rule :
      (role : RoleRecord) (code : String) (api : ApiPolicyRecord)
      → In role roles
      → Grant c codes operations by_operation role code api
      → (rule : PolicyRecord) × In rule (build_casbin_rule_list c roles tenants menus apis)
        × (key_of rule ≡ rule_key code role.code api)
  unfolding build_casbin_rule_list
  granted_rule role code api i g =
      let key : String = rule_key code role.code api in
      let r : Rules = add_roles c codes operations by_operation roles no_rules in
      built_IsKeyed.held key (
        contains-In r.keys key
          (reach_roles c codes operations by_operation roles role code api no_rules i g))

  -- Why a role has an API, in terms of the records alone: of the records with one identifier the
  -- last counts, and of the APIs of one operation the first.
  pub record Reaches (role : RoleRecord) (tenant : TenantRecord) (api : ApiPolicyRecord)
      : Type 0 where
    pub menu : MenuRecord
    pub role_listed : In role roles
    pub tenant_listed : LastOf (λ t. t.id) tenant tenants
    pub of_tenant : tenant.id ≡ role.tenant_id
    pub menu_listed : LastOf (λ m. m.id) menu menus
    pub has_menu : In menu.id (c.int_array role.menus)
    pub has_operation : In api.operation (c.string_array menu.api)
    pub api_listed : FirstOf (λ a. a.operation) api apis

  Reaches-Grant :
      (role : RoleRecord) (tenant : TenantRecord) (api : ApiPolicyRecord)
      → Reaches role tenant api
      → Grant c codes operations by_operation role tenant.code api
  unfolding lookup
  Reaches-Grant role tenant api h = record {
    menu = h.menu.id;
    operation = api.operation;
    tenant_known =
        subst (λ id. lookup id codes ≡ some tenant.code) h.of_tenant
          (lookup-tenant_codes [] tenants tenant h.tenant_listed);
    has_menu = h.has_menu;
    has_operation = rw (lookup-menu_operations c [] menus h.menu h.menu_listed) h.has_operation;
    is_api = lookup-api_by_operation [] apis api refl h.api_listed;
  }

  -- Where a listed role belongs to a listed tenant and has a listed menu that names the operation
  -- of a listed API, a rule is built whose tenant, role, operation and method, joined by NULs, are
  -- the text of that tenant, role and API. Of several tenants or menus with one identifier this
  -- holds for the last, of several APIs with one operation for the first.
  pub build_casbin_rule_list_complete :
      (role : RoleRecord) (tenant : TenantRecord) (api : ApiPolicyRecord)
      → Reaches role tenant api
      → (rule : PolicyRecord) × In rule (build_casbin_rule_list c roles tenants menus apis)
        × (joined rule ≡ joined (rule_of tenant.code role.code api))
  build_casbin_rule_list_complete role tenant api h =
      let (rule, i, same) =
        granted_rule role tenant.code api h.role_listed (Reaches-Grant role tenant api h) in
      (rule, i, sym (key_of-joined rule) ∙ same ∙ key_of-joined (rule_of tenant.code role.code api))
