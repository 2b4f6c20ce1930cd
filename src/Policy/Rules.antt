-- ===== src/Policy/Rules.antt =====
-- `buildCasbinRuleList` of resource/biz/casbin_rule.go. The JSON lists of the records are decoded
-- outside the repository, by the two functions of `Codec`.
pub mod Grant
pub mod Sound
pub mod Listed
pub mod Complete
use Prim.Native.String.{◌++◌ as str_append}
use kratos_core.Prelude.{
  String, Bool, true, false, Option, none, some, List, [], ◌∷◌, ◌++◌, if◌then◌else◌,
}
use kratos_core.Prelude.Int.{ℤ}
use kratos_core.Prelude.Eq.{int_eq, string_eq, lookup, insert, contains}
use kratos_core.Policy.Records.{MenuRecord, RoleRecord, TenantRecord, ApiPolicyRecord, PolicyRecord}

-- ConvertJsonStringToInt64Array and ConvertJsonStringToStringArray.
pub record Codec : Type 0 where
  pub int_array : String → List ℤ
  pub string_array : String → List String

-- The three loops that fill maps.
unfoldable pub tenant_codes : List (ℤ × String) → List TenantRecord → List (ℤ × String)
tenant_codes m [] = m
tenant_codes m (t ∷ rest) = tenant_codes (insert t.id t.code m) rest

unfoldable pub menu_operations :
    Codec → List (ℤ × List String) → List MenuRecord → List (ℤ × List String)
menu_operations c m [] = m
menu_operations c m (x ∷ rest) = menu_operations c (insert x.id (c.string_array x.api) m) rest

-- The first record of an operation stays.
unfoldable pub api_by_operation :
    List (String × ApiPolicyRecord) → List ApiPolicyRecord → List (String × ApiPolicyRecord)
api_by_operation m [] = m
api_by_operation m (a ∷ rest) =
    api_by_operation (elim (lookup a.operation m) [ none ↦ insert a.operation a m | some _ ↦ m ])
      rest

abbrev pub nul : String
nul = "\0"

unfoldable pub rule_key : String → String → ApiPolicyRecord → String
rule_key tenant role api = str_append tenant (
    str_append nul
      (str_append role (str_append nul (str_append api.operation (str_append nul api.method)))))

abbrev pub rule_of : String → String → ApiPolicyRecord → PolicyRecord
rule_of tenant role api = record {
  ptype = "p";
  v0 = tenant;
  v1 = role;
  v2 = api.operation;
  v3 = api.method;
  v4 = "*";
}

-- The rules so far, oldest first, and the set of their keys.
pub record Rules : Type 0 where
  pub list : List PolicyRecord
  pub keys : List String

abbrev pub no_rules : Rules
no_rules = record { list = []; keys = [] }

module _ (c : Codec) (tenants : List (ℤ × String)) (menus : List (ℤ × List String))
    (apis : List (String × ApiPolicyRecord)) where
  unfoldable pub add_rule : String → String → ApiPolicyRecord → Rules → Rules
  add_rule tenant role api r =
      let key = rule_key tenant role api in
      if contains r.keys key
      then r
      else record { list = r.list ++ rule_of tenant role api ∷ []; keys = key ∷ r.keys }

  add_api : String → String → Option ApiPolicyRecord → Rules → Rules
  add_api tenant role none r = r
  add_api tenant role (some api) r = add_rule tenant role api r

  -- `for _, operation := range menuOperationsByID[menuID]`
  unfoldable pub add_operations : String → String → List String → Rules → Rules
  unfolding add_api
  add_operations tenant role [] r = r
  add_operations tenant role (op ∷ rest) r =
      add_operations tenant role rest (add_api tenant role (lookup op apis) r)

  -- The missing key of a map gives the empty slice.
  abbrev pub operations_of : Option (List String) → List String
  operations_of none = []
  operations_of (some ops) = ops

  unfoldable pub add_menus : String → String → List ℤ → Rules → Rules
  add_menus tenant role [] r = r
  add_menus tenant role (id ∷ rest) r =
      add_menus tenant role rest (add_operations tenant role (operations_of (lookup id menus)) r)

  unfoldable pub add_role : Option String → RoleRecord → Rules → Rules
  add_role none role r = r
  add_role (some tenant) role r = add_menus tenant role.code (c.int_array role.menus) r

  unfoldable pub add_roles : List RoleRecord → Rules → Rules
  add_roles [] r = r
  add_roles (role ∷ rest) r = add_roles rest (add_role (lookup role.tenant_id tenants) role r)

unfoldable pub build_casbin_rule_list :
    Codec
    → List RoleRecord
    → List TenantRecord
    → List MenuRecord
    → List ApiPolicyRecord
    → List PolicyRecord
build_casbin_rule_list c roles tenants menus apis =
    (add_roles c (tenant_codes [] tenants) (menu_operations c [] menus) (api_by_operation [] apis)
      roles no_rules).list
