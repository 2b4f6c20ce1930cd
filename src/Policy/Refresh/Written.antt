-- ===== src/Policy/Refresh/Written.antt =====
-- What the engine is given.
use kratos_core.Prelude.{
  String, ◌≡◌, ◌≢◌, refl, ap, ◌↔◌, true, false, none, List, [], ◌∷◌, ◌++◌, arith, In, In-append,
  In-append_left, In-append_right, inl, inr, ◌⊎◌, Bool-cases,
}
use kratos_core.Prelude.Eq.{==_iff, string_eq}
use kratos_core.Prelude.Error.{ok}
use kratos_core.Policy.Records.{MenuRecord, RoleRecord, TenantRecord, ApiPolicyRecord, PolicyRecord}
use kratos_core.Policy.Rules.{Codec, build_casbin_rule_list}
use kratos_core.Policy.Rules.Sound.{Origin, build_casbin_rule_list-Origin}
use kratos_core.Policy.Refresh.{
  Effects, Outside, is_incomplete, complete_rules, super_rule, super_rules, rebuild_policy_data,
  refresh_policy, rebuild_policy, menu_id_set,
}

-- All six fields are there.
pub record IsComplete (r : PolicyRecord) : Type 0 where
  pub ptype : r.ptype ≢ ""
  pub v0 : r.v0 ≢ ""
  pub v1 : r.v1 ≢ ""
  pub v2 : r.v2 ≢ ""
  pub v3 : r.v3 ≢ ""
  pub v4 : r.v4 ≢ ""

IsComplete-of : (r : PolicyRecord) → is_incomplete r ≡ false → IsComplete r
unfolding is_incomplete
IsComplete-of r h = ground (
  arith,
  ==_iff r.ptype "",
  ==_iff r.v0 "",
  ==_iff r.v1 "",
  ==_iff r.v2 "",
  ==_iff r.v3 "",
  ==_iff r.v4 "",
)

incomplete-IsComplete : (r : PolicyRecord) → IsComplete r → is_incomplete r ≡ false
unfolding is_incomplete
incomplete-IsComplete r h = ground (
  arith,
  ==_iff r.ptype "",
  ==_iff r.v0 "",
  ==_iff r.v1 "",
  ==_iff r.v2 "",
  ==_iff r.v3 "",
  ==_iff r.v4 "",
)

complete_rules-In :
    (r : PolicyRecord) (rs : List PolicyRecord) → In r (complete_rules rs) → In r rs × IsComplete r
unfolding complete_rules
complete_rules-In r [] i = elim i [ ]
complete_rules-In r (x ∷ rest) i = elim (Bool-cases (is_incomplete x)) [
  | inl b ↦ let (j, c) = complete_rules-In r rest (rw b at i) in (inr j, c)
  | inr b ↦ elim (let j : In r (x ∷ complete_rules rest) = rw b at i in j) [
    | inl e ↦ (inl e, rw e (IsComplete-of x b))
    | inr j ↦ let (k, c) = complete_rules-In r rest j in (inr k, c)
  ]
]

In-complete_rules :
    (r : PolicyRecord) (rs : List PolicyRecord) → In r rs → IsComplete r → In r (complete_rules rs)
unfolding complete_rules
In-complete_rules r [] i c = elim i [ ]
In-complete_rules r (x ∷ rest) i c = elim (Bool-cases (is_incomplete x)) [
  | inl b ↦ elim i [
    | inl e ↦ absurd (let f = incomplete-IsComplete r c in ground (arith, f, b, ap is_incomplete e))
    | inr j ↦ rw b (In-complete_rules r rest j c)
  ]
  | inr b ↦ elim i [ inl e ↦ rw b (inl e) | inr j ↦ rw b (inr (In-complete_rules r rest j c)) ]
]

module _ (default_code : String) where
  super_rules-In :
      (r : PolicyRecord) (apis : List ApiPolicyRecord)
      → In r (super_rules default_code apis)
      → (a : ApiPolicyRecord) × In a apis × (r ≡ super_rule default_code a)
  unfolding super_rules
  super_rules-In r [] i = elim i [ ]
  super_rules-In r (a ∷ rest) (inl e) = (a, inl refl, e)
  super_rules-In r (a ∷ rest) (inr i) = let (b, j, e) = super_rules-In r rest i in (b, inr j, e)

  In-super_rules :
      (a : ApiPolicyRecord) (apis : List ApiPolicyRecord)
      → In a apis
      → In (super_rule default_code a) (super_rules default_code apis)
  unfolding super_rules
  In-super_rules a [] i = elim i [ ]
  In-super_rules a (b ∷ rest) (inl e) = inl (ap (super_rule default_code) e)
  In-super_rules a (b ∷ rest) (inr i) = inr (In-super_rules a rest i)

  -- What the engine is meant to hold: the default tenant's super role on every API, and the
  -- persisted rules with all their fields.
  abbrev pub Expected : List ApiPolicyRecord → List PolicyRecord → PolicyRecord → Type 0
  Expected apis policies r =
      ((a : ApiPolicyRecord) × In a apis × (r ≡ super_rule default_code a))
      ⊎ (In r policies × IsComplete r)

  Expected-iff :
      (apis : List ApiPolicyRecord) (policies : List PolicyRecord) (r : PolicyRecord)
      → In r (super_rules default_code apis ++ complete_rules policies) ↔ Expected apis policies r
  Expected-iff apis policies r = (
    λ i. elim (In-append r (super_rules default_code apis) (complete_rules policies) i) [
      | inl s ↦ inl (super_rules-In r apis s)
      | inr k ↦ inr (complete_rules-In r policies k)
    ],
    λ x. elim x [
      | inl (a, i, e) ↦ rw e (
          In-append_left (super_rule default_code a) (super_rules default_code apis)
            (complete_rules policies) (In-super_rules a apis i))
      | inr (i, k) ↦
          In-append_right r (super_rules default_code apis) (complete_rules policies)
            (In-complete_rules r policies i k)
    ],
  )

  module _ (c : Codec) (o : Outside) where
    -- A refresh whose reads succeed, with an engine that takes policies, hands the engine exactly
    -- the expected rules, once, and succeeds if and only if the engine does; it replaces nothing
    -- in the store.
    pub refresh_policy-Expected :
        (apis : List ApiPolicyRecord) (policies : List PolicyRecord) (s : Effects)
        → o.list_for_policy ≡ ok apis
        → o.list_policies s.replaced ≡ ok policies
        → o.is_writer ≡ true
        → (rules : List PolicyRecord) × ((refresh_policy default_code c o s).1
            ≡ record s { written = rules ∷ s.written })
          × ((refresh_policy default_code c o s).0 ≡ ok tt ↔ o.set_policies rules ≡ none)
          × ((r : PolicyRecord) → In r rules ↔ Expected apis policies r)
    unfolding refresh_policy
    refresh_policy-Expected apis policies s p q w = (
      super_rules default_code apis ++ complete_rules policies,
      ground (arith, p, q, w),
      (λ h. ground (arith, p, q, w, h), λ h. ground (arith, p, q, w, h)),
      Expected-iff apis policies,
    )

    -- A rebuild whose reads and replacement succeed, over a store that returns what it was given
    -- last and with an engine that takes policies, replaces the rules once and hands the engine
    -- rules that are each the super role's or have an origin in the records.
    pub rebuild_policy-Origin :
        (roles : List RoleRecord) (tenants : List TenantRecord) (menus : List MenuRecord)
        (apis : List ApiPolicyRecord) (s : Effects)
        → o.list_roles ≡ ok roles
        → o.list_tenants ≡ ok tenants
        → o.list_menus_by_ids (o.map_order (menu_id_set c [] roles)) ≡ ok menus
        → o.list_for_policy ≡ ok apis
        → o.replace_policies (build_casbin_rule_list c roles tenants menus apis) ≡ none
        → o.list_policies (build_casbin_rule_list c roles tenants menus apis ∷ s.replaced)
          ≡ ok (build_casbin_rule_list c roles tenants menus apis)
        → o.is_writer ≡ true
        → (rules : List PolicyRecord) × ((rebuild_policy default_code c o s).1 ≡ record {
          replaced = build_casbin_rule_list c roles tenants menus apis ∷ s.replaced;
          written = rules ∷ s.written;
        })
          × ((r : PolicyRecord)
              → In r rules
              → ((a : ApiPolicyRecord) × In a apis × (r ≡ super_rule default_code a))
                ⊎ Origin c roles tenants menus apis r)
    unfolding rebuild_policy rebuild_policy_data
    rebuild_policy-Origin roles tenants menus apis s p₁ p₂ p₃ p₄ p₅ p₆ w =
        let built = build_casbin_rule_list c roles tenants menus apis in
        let s₁ : Effects = record s { replaced = built ∷ s.replaced } in
        let (rules, done, _, holds) = refresh_policy-Expected apis built s₁ p₄ p₆ w in
        (
          rules,
          ground (arith, p₁, p₂, p₃, p₄, p₅, done),
          λ r i. elim ((holds r).0 i) [
            | inl x ↦ inl x
            | inr (j, _) ↦ inr (build_casbin_rule_list-Origin c roles tenants menus apis r j)
          ],
        )
