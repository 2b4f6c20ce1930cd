-- ===== src/Policy/Rules/Sound.antt =====
-- Where the rules of `buildCasbinRuleList` come from.
use kratos_core.Prelude.{
  String, ◌≡◌, refl, some, List, [], ◌∷◌, arith, In, In-append, inl, inr, ◌⊎◌, Bool-cases,
  Option-cases,
}
use kratos_core.Prelude.Int.{ℤ}
use kratos_core.Prelude.Eq.{◌==◌, ==_iff, int_eq, string_eq, lookup, insert, contains}
use kratos_core.Policy.Records.{RoleRecord, TenantRecord, MenuRecord, ApiPolicyRecord, PolicyRecord}
use kratos_core.Policy.Rules.{
  Codec, Rules, no_rules, rule_of, rule_key, add_rule, operations_of, tenant_codes, menu_operations,
  api_by_operation, build_casbin_rule_list,
}
use kratos_core.Policy.Rules.Grant.{Grant, add_roles_ind}

-- What the three maps hold comes from the records.
tenant_codes-In :
    (m : List (ℤ × String)) (ts : List TenantRecord) (id : ℤ) (code : String)
    → lookup id (tenant_codes m ts) ≡ some code
    → (lookup id m ≡ some code) ⊎ ((t : TenantRecord) × In t ts × (t.id ≡ id) × (t.code ≡ code))
unfolding tenant_codes insert lookup
tenant_codes-In m [] id code h = inl h
tenant_codes-In m (t ∷ rest) id code h =
    elim (tenant_codes-In (insert t.id t.code m) rest id code h) [
      | inr (x, i, p, q) ↦ inr (x, inr i, p, q)
      | inl l ↦ elim (Bool-cases (t.id == id)) [
        | inl e ↦ inr (t, inl refl, (==_iff t.id id).0 e, ground (arith, l, e))
        | inr e ↦ inl (ground (arith, l, e))
      ]
    ]

menu_operations-In :
    (c : Codec) (m : List (ℤ × List String)) (ms : List MenuRecord) (id : ℤ) (ops : List String)
    → lookup id (menu_operations c m ms) ≡ some ops
    → (lookup id m ≡ some ops)
      ⊎ ((x : MenuRecord) × In x ms × (x.id ≡ id) × (c.string_array x.api ≡ ops))
unfolding menu_operations insert lookup
menu_operations-In c m [] id ops h = inl h
menu_operations-In c m (x ∷ rest) id ops h =
    elim (menu_operations-In c (insert x.id (c.string_array x.api) m) rest id ops h) [
      | inr (y, i, p, q) ↦ inr (y, inr i, p, q)
      | inl l ↦ elim (Bool-cases (x.id == id)) [
        | inl e ↦ inr (x, inl refl, (==_iff x.id id).0 e, ground (arith, l, e))
        | inr e ↦ inl (ground (arith, l, e))
      ]
    ]

api_by_operation-In :
    (m : List (String × ApiPolicyRecord)) (xs : List ApiPolicyRecord) (op : String)
    (api : ApiPolicyRecord)
    → lookup op (api_by_operation m xs) ≡ some api
    → (lookup op m ≡ some api) ⊎ (In api xs × (api.operation ≡ op))
unfolding api_by_operation
api_by_operation-In m [] op api h = inl h
api_by_operation-In m (a ∷ rest) op api h = elim (Option-cases (lookup a.operation m)) [
  | inr (x, p) ↦ elim (api_by_operation-In m rest op api (rw p at h)) [
    | inl l ↦ inl l
    | inr (i, q) ↦ inr (inr i, q)
  ]
  | inl p ↦ elim (api_by_operation-In (insert a.operation a m) rest op api (rw p at h)) [
    | inr (i, q) ↦ inr (inr i, q)
    | inl l ↦ elim (Bool-cases (a.operation == op)) [
      | inl e ↦ inr (
        unfold insert lookup in inl (ground (arith, l, e)),
        unfold insert lookup in ground (arith, l, e, ==_iff a.operation op),
      )
      | inr e ↦ inl (unfold insert lookup in ground (arith, l, e))
    ]
  ]
]

-- Why a rule stands in the list, in terms of the records alone.
pub record Origin (c : Codec) (roles : List RoleRecord) (tenants : List TenantRecord)
    (menus : List MenuRecord) (apis : List ApiPolicyRecord) (rule : PolicyRecord) : Type 0 where
  pub role : RoleRecord
  pub tenant : TenantRecord
  pub menu : MenuRecord
  pub api : ApiPolicyRecord
  pub role_listed : In role roles
  pub tenant_listed : In tenant tenants
  pub menu_listed : In menu menus
  pub api_listed : In api apis
  pub of_tenant : tenant.id ≡ role.tenant_id
  pub of_menu : In menu.id (c.int_array role.menus)
  pub of_api : In api.operation (c.string_array menu.api)
  pub is_rule : rule ≡ rule_of tenant.code role.code api

module _ (c : Codec) (roles : List RoleRecord) (tenants : List TenantRecord)
    (menus : List MenuRecord) (apis : List ApiPolicyRecord) where
  abbrev codes : List (ℤ × String)
  codes = tenant_codes [] tenants

  abbrev operations : List (ℤ × List String)
  operations = menu_operations c [] menus

  abbrev by_operation : List (String × ApiPolicyRecord)
  by_operation = api_by_operation [] apis

  tenant_origin :
      (id : ℤ) (code : String)
      → lookup id codes ≡ some code
      → (t : TenantRecord) × In t tenants × (t.id ≡ id) × (t.code ≡ code)
  unfolding lookup
  tenant_origin id code h = elim (tenant_codes-In [] tenants id code h) [
    | inl l ↦ absurd (ground (arith, l))
    | inr t ↦ t
  ]

  api_origin :
      (op : String) (api : ApiPolicyRecord)
      → lookup op by_operation ≡ some api
      → In api apis × (api.operation ≡ op)
  unfolding lookup
  api_origin op api h = elim (api_by_operation-In [] apis op api h) [
    | inl l ↦ absurd (ground (arith, l))
    | inr a ↦ a
  ]

  menu_origin :
      (id : ℤ) (op : String)
      → In op (operations_of c codes operations by_operation (lookup id operations))
      → (m : MenuRecord) × In m menus × (m.id ≡ id) × In op (c.string_array m.api)
  unfolding lookup
  menu_origin id op h = elim (Option-cases (lookup id operations)) [
    | inl p ↦ absurd (rw p at h)
    | inr (ops, p) ↦ elim (menu_operations-In c [] menus id ops p) [
      | inl l ↦ absurd (ground (arith, l))
      | inr (m, i, e, s) ↦ (m, i, e, rw s (rw p at h))
    ]
  ]

  origin :
      (role : RoleRecord) (code : String) (api : ApiPolicyRecord)
      → In role roles
      → Grant c codes operations by_operation role code api
      → Origin c roles tenants menus apis (rule_of code role.code api)
  origin role code api i g =
      let (t, ti, tid, tcode) = tenant_origin role.tenant_id code g.tenant_known in
      let (m, mi, mid, mop) = menu_origin g.menu g.operation g.has_operation in
      let (ai, aop) = api_origin g.operation api g.is_api in
      record {
        role = role;
        tenant = t;
        menu = m;
        api = api;
        role_listed = i;
        tenant_listed = ti;
        menu_listed = mi;
        api_listed = ai;
        of_tenant = tid;
        of_menu = rw mid g.has_menu;
        of_api = rw aop mop;
        is_rule = rw tcode;
      }

  abbrev AllOrigin : Rules → Type 0
  AllOrigin r = (x : PolicyRecord) → In x r.list → Origin c roles tenants menus apis x

  add_rule-AllOrigin :
      (code role : String) (api : ApiPolicyRecord) (r : Rules)
      → Origin c roles tenants menus apis (rule_of code role api)
      → AllOrigin r
      → AllOrigin (add_rule c codes operations by_operation code role api r)
  unfolding add_rule
  add_rule-AllOrigin code role api r o h x i =
      elim (Bool-cases (contains r.keys (rule_key code role api))) [
        | inl b ↦ h x (rw b at i)
        | inr b ↦ elim (In-append x r.list (rule_of code role api ∷ []) (rw b at i)) [
          | inl old ↦ h x old
          | inr (inl e) ↦ rw e o
          | inr (inr n) ↦ absurd n
        ]
      ]

  -- Every rule that is built is the rule of a listed role, of the listed tenant of that role, and
  -- of a listed API that a listed menu of the role names.
  pub build_casbin_rule_list-Origin :
      (rule : PolicyRecord)
      → In rule (build_casbin_rule_list c roles tenants menus apis)
      → Origin c roles tenants menus apis rule
  unfolding build_casbin_rule_list
  build_casbin_rule_list-Origin =
      add_roles_ind c codes operations by_operation AllOrigin roles no_rules
        (λ role code api i g r h.
          add_rule-AllOrigin code role.code api r (origin role code api i g) h)
        (λ x i. absurd i)
