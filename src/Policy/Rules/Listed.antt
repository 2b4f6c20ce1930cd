-- ===== src/Policy/Rules/Listed.antt =====
-- Which record of a list the maps of `buildCasbinRuleList` hold for a key.
use mathlib.Core.Path.{subst}
use kratos_core.Prelude.{
  String, ◌≡◌, ◌≢◌, refl, sym, ap, ◌∙◌, if◌then◌else◌, ◌⊎◌, inl, inr, none, some, List, [], ◌∷◌,
  All, Bool-cases, Option-cases,
}
use kratos_core.Prelude.Int.{ℤ}
use kratos_core.Prelude.Eq.{Eq, ◌==◌, ==_iff, int_eq, string_eq, lookup, insert, lookup-insert}
use kratos_core.Policy.Records.{MenuRecord, TenantRecord, ApiPolicyRecord}
use kratos_core.Policy.Rules.{Codec, tenant_codes, menu_operations, api_by_operation}

module _ {A K : Type 0} (key : A → K) where
  -- The element stands in the list, and none after it has its key.
  abbrev pub LastOf : A → List A → Type 0
  LastOf a [] = ⊥
  LastOf a (x ∷ rest) = ((x ≡ a) × All (λ y. key y ≢ key a) rest) ⊎ LastOf a rest

  -- The element stands in the list, and none before it has its key.
  abbrev pub FirstOf : A → List A → Type 0
  FirstOf a [] = ⊥
  FirstOf a (x ∷ rest) = (x ≡ a) ⊎ ((key x ≢ key a) × FirstOf a rest)

module _ {K V : Type 0} ⦃e : Eq K⦄ where
  lookup-insert_same : (k : K) (v : V) (m : List (K × V)) → lookup k (insert k v m) ≡ some v
  lookup-insert_same k v m =
      lookup-insert k k v m ∙ ap (λ b. if b then some v else lookup k m) ((==_iff k k).1 refl)

  lookup-insert_other :
      (k j : K) (v : V) (m : List (K × V)) → k ≢ j → lookup j (insert k v m) ≡ lookup j m
  lookup-insert_other k j v m d =
      lookup-insert k j v m
      ∙ elim (Bool-cases (k == j)) [ inl t ↦ absurd (d ((==_iff k j).0 t)) | inr f ↦ rw f refl ]

tenant_codes-absent :
    (m : List (ℤ × String)) (ts : List TenantRecord) (id : ℤ)
    → All (λ t. t.id ≢ id) ts
    → lookup id (tenant_codes m ts) ≡ lookup id m
unfolding tenant_codes
tenant_codes-absent m [] id h = refl
tenant_codes-absent m (t ∷ rest) id (d, h) =
    tenant_codes-absent (insert t.id t.code m) rest id h ∙ lookup-insert_other t.id id t.code m d

pub lookup-tenant_codes :
    (m : List (ℤ × String)) (ts : List TenantRecord) (t : TenantRecord)
    → LastOf (λ x. x.id) t ts
    → lookup t.id (tenant_codes m ts) ≡ some t.code
unfolding tenant_codes
lookup-tenant_codes m [] t h = elim h [ ]
lookup-tenant_codes m (x ∷ rest) t (inr h) = lookup-tenant_codes (insert x.id x.code m) rest t h
lookup-tenant_codes m (x ∷ rest) t (inl (same, h)) =
    subst (λ y. lookup y.id (tenant_codes (insert x.id x.code m) rest) ≡ some y.code) same
      (tenant_codes-absent (insert x.id x.code m) rest x.id
          (subst (λ y. All (λ z. z.id ≢ y.id) rest) (sym same) h)
        ∙ lookup-insert_same x.id x.code m)

menu_operations-absent :
    (c : Codec) (m : List (ℤ × List String)) (ms : List MenuRecord) (id : ℤ)
    → All (λ x. x.id ≢ id) ms
    → lookup id (menu_operations c m ms) ≡ lookup id m
unfolding menu_operations
menu_operations-absent c m [] id h = refl
menu_operations-absent c m (x ∷ rest) id (d, h) =
    menu_operations-absent c (insert x.id (c.string_array x.api) m) rest id h
    ∙ lookup-insert_other x.id id (c.string_array x.api) m d

pub lookup-menu_operations :
    (c : Codec) (m : List (ℤ × List String)) (ms : List MenuRecord) (x : MenuRecord)
    → LastOf (λ y. y.id) x ms
    → lookup x.id (menu_operations c m ms) ≡ some (c.string_array x.api)
unfolding menu_operations
lookup-menu_operations c m [] x h = elim h [ ]
lookup-menu_operations c m (y ∷ rest) x (inr h) =
    lookup-menu_operations c (insert y.id (c.string_array y.api) m) rest x h
lookup-menu_operations c m (y ∷ rest) x (inl (same, h)) =
    subst
      (λ z.
        lookup z.id (menu_operations c (insert y.id (c.string_array y.api) m) rest)
        ≡ some (c.string_array z.api))
      same
      (menu_operations-absent c (insert y.id (c.string_array y.api) m) rest y.id
          (subst (λ z. All (λ w. w.id ≢ z.id) rest) (sym same) h)
        ∙ lookup-insert_same y.id (c.string_array y.api) m)

api_by_operation-present :
    (m : List (String × ApiPolicyRecord)) (xs : List ApiPolicyRecord) (op : String)
    (api : ApiPolicyRecord)
    → lookup op m ≡ some api
    → lookup op (api_by_operation m xs) ≡ some api
unfolding api_by_operation
api_by_operation-present m [] op api h = h
api_by_operation-present m (x ∷ rest) op api h = elim (Option-cases (lookup x.operation m)) [
  | inr (y, p) ↦ rw p (api_by_operation-present m rest op api h)
  | inl p ↦
      let d : x.operation ≢ op =
        λ same. absurd (let q = subst (λ k. lookup k m ≡ none) same p in cc) in
      rw p (
        api_by_operation-present (insert x.operation x m) rest op api
          (lookup-insert_other x.operation op x m d ∙ h))
]

pub lookup-api_by_operation :
    (m : List (String × ApiPolicyRecord)) (xs : List ApiPolicyRecord) (api : ApiPolicyRecord)
    → lookup api.operation m ≡ none
    → FirstOf (λ x. x.operation) api xs
    → lookup api.operation (api_by_operation m xs) ≡ some api
unfolding api_by_operation
lookup-api_by_operation m [] api n h = elim h [ ]
lookup-api_by_operation m (x ∷ rest) api n (inl same) =
    let p : lookup x.operation m ≡ none = subst (λ y. lookup y.operation m ≡ none) (sym same) n in
    subst (λ y. lookup y.operation (api_by_operation m (x ∷ rest)) ≡ some y) same
      (rw p (
        api_by_operation-present (insert x.operation x m) rest x.operation x
          (lookup-insert_same x.operation x m)))
lookup-api_by_operation m (x ∷ rest) api n (inr (d, h)) =
    elim (Option-cases (lookup x.operation m)) [
      | inr (y, p) ↦ rw p (lookup-api_by_operation m rest api n h)
      | inl p ↦ rw p (
          lookup-api_by_operation (insert x.operation x m) rest api
            (lookup-insert_other x.operation api.operation x m d ∙ n) h)
    ]
