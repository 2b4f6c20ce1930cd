-- ===== src/Policy/Refresh.antt =====
-- `RebuildPolicy`, `RebuildPolicyData` and `RefreshPolicy` of resource/biz/casbin_rule.go. The
-- store and the engine are outside: their answers, and what was handed to them.
pub mod Written
use kratos_core.Prelude.{
  String, Bool, true, false, ◌||◌, Option, none, some, List, [], ◌∷◌, ◌++◌, if◌then◌else◌,
}
use kratos_core.Prelude.Int.{ℤ}
use kratos_core.Prelude.Eq.{◌==◌, int_eq, string_eq, contains}
use kratos_core.Prelude.Error.{Error, Result, ok, err, internal}
use kratos_core.Policy.Records.{MenuRecord, RoleRecord, TenantRecord, ApiPolicyRecord, PolicyRecord}
use kratos_core.Policy.Rules.{Codec, build_casbin_rule_list}

-- What was handed to `ReplacePolicies` and to `SetPolicies`, newest first.
pub record Effects : Type 0 where
  pub replaced : List (List PolicyRecord)
  pub written : List (List PolicyRecord)

pub record Outside : Type 0 where
  pub list_roles : Result (List RoleRecord)
  pub list_tenants : Result (List TenantRecord)
  pub list_menus_by_ids : List ℤ → Result (List MenuRecord)
  pub list_for_policy : Result (List ApiPolicyRecord)
  pub replace_policies : List PolicyRecord → Option Error
  pub list_policies : List (List PolicyRecord) → Result (List PolicyRecord)
  -- does the engine implement `PolicyWriter`?
  pub is_writer : Bool
  pub set_policies : List PolicyRecord → Option Error
  -- the order in which Go walks a map
  pub map_order : List ℤ → List ℤ

abbrev pub Sync : Type 0 → Type 0
Sync A = Effects → Result A × Effects

infixl 5 ◌>>=◌ ◌>>◌
abbrev continue : {A B : Type 0} → Result A → (A → Sync B) → Sync B
continue (ok a) f s = f a s
continue (err e) f s = (err e, s)

abbrev pub ◌>>=◌ : {A B : Type 0} → Sync A → (A → Sync B) → Sync B
◌>>=◌ m f s = let (r, s') = m s in continue r f s'

abbrev pub ◌>>◌ : {A B : Type 0} → Sync A → Sync B → Sync B
m >> n = m >>= λ _. n

abbrev pub lift : {A : Type 0} → Result A → Sync A
lift r s = (r, s)

abbrev check : Option Error → Result (Unit {0})
check none = ok tt
check (some e) = err e

abbrev pub role_code_super : String
role_code_super = "super"

-- menuIDSet
add_ids : List ℤ → List ℤ → List ℤ
add_ids set [] = set
add_ids set (id ∷ rest) = add_ids (if contains set id then set else id ∷ set) rest

unfoldable pub menu_id_set : Codec → List ℤ → List RoleRecord → List ℤ
unfolding add_ids
menu_id_set c set [] = set
menu_id_set c set (role ∷ rest) = menu_id_set c (add_ids set (c.int_array role.menus)) rest

-- The test that skips a persisted rule of an older version.
unfoldable pub is_incomplete : PolicyRecord → Bool
is_incomplete r =
    r.ptype == "" || r.v0 == "" || r.v1 == "" || r.v2 == "" || r.v3 == "" || r.v4 == ""

unfoldable pub complete_rules : List PolicyRecord → List PolicyRecord
complete_rules [] = []
complete_rules (r ∷ rest) =
    let kept = complete_rules rest in if is_incomplete r then kept else r ∷ kept

-- `gorm.DefaultTenantCode` is a constant of another repository.
module _ (default_code : String) where
  abbrev pub super_rule : ApiPolicyRecord → PolicyRecord
  super_rule a = record {
    ptype = "p";
    v0 = default_code;
    v1 = role_code_super;
    v2 = a.operation;
    v3 = a.method;
    v4 = "*";
  }

  unfoldable pub super_rules : List ApiPolicyRecord → List PolicyRecord
  super_rules [] = []
  super_rules (a ∷ rest) = super_rule a ∷ super_rules rest

  module _ (c : Codec) (o : Outside) where
    unfoldable pub rebuild_policy_data : Sync (Unit {0})
    unfolding menu_id_set
    rebuild_policy_data = do
      roles ← lift o.list_roles
      tenants ← lift o.list_tenants
      menus ← lift (o.list_menus_by_ids (o.map_order (menu_id_set c [] roles)))
      apis ← lift o.list_for_policy
      let rules = build_casbin_rule_list c roles tenants menus apis
      (λ s. (check (o.replace_policies rules), record s { replaced = rules ∷ s.replaced }))

    write_policies : List PolicyRecord → Sync (Unit {0})
    write_policies rules s =
        if o.is_writer
        then (check (o.set_policies rules), record s { written = rules ∷ s.written })
        else (err (internal "鉴权引擎不支持策略写入"), s)

    unfoldable pub refresh_policy : Sync (Unit {0})
    unfolding write_policies
    refresh_policy = do
      apis ← lift o.list_for_policy
      policies ← (λ s. (o.list_policies s.replaced, s))
      write_policies (super_rules apis ++ complete_rules policies)

    unfoldable pub rebuild_policy : Sync (Unit {0})
    unfolding rebuild_policy_data refresh_policy
    rebuild_policy = do rebuild_policy_data; refresh_policy
