-- ===== src/Policy/Tests.antt =====
-- Runs on one role that reaches one API twice through its menu.
use kratos_core.Prelude.{◌≡◌, refl, inl, true, none, List, [], ◌∷◌, In, if◌then◌else◌}
use kratos_core.Prelude.Int.{pos}
use kratos_core.Prelude.Eq.{◌==◌, string_eq, insert, lookup, contains}
use kratos_core.Prelude.Error.{ok}
use kratos_core.Policy.Records.{MenuRecord, RoleRecord, TenantRecord, ApiPolicyRecord, PolicyRecord}
use kratos_core.Policy.Rules.{
  Codec, build_casbin_rule_list, rule_of, rule_key, add_roles, add_role, add_menus, add_operations,
  add_rule, tenant_codes, menu_operations, api_by_operation,
}
use kratos_core.Policy.Rules.Sound.{Origin, build_casbin_rule_list-Origin}
use kratos_core.Policy.Rules.Complete.{joined, build_casbin_rule_list_complete}
use kratos_core.Policy.Refresh.{Effects, Outside}

abbrev codec : Codec
codec = record {
  int_array = λ s. if s == "[11]" then pos 11 ∷ [] else [];
  string_array = λ s. if s == "[ops]" then "/shop/Page" ∷ "/shop/Page" ∷ [] else [];
}

abbrev admin : RoleRecord
admin = record { id = pos 1; tenant_id = pos 3; code = "admin"; menus = "[11]" }

abbrev acme : TenantRecord
acme = record { id = pos 3; code = "acme" }

abbrev page_menu : MenuRecord
page_menu = record { id = pos 11; api = "[ops]" }

abbrev page_api : ApiPolicyRecord
page_api = record { operation = "/shop/Page"; method = "GET" }

abbrev built : List PolicyRecord
built = build_casbin_rule_list codec (admin ∷ []) (acme ∷ []) (page_menu ∷ []) (page_api ∷ [])

built_test : built ≡ rule_of "acme" "admin" page_api ∷ []
unfolding build_casbin_rule_list add_roles add_role add_menus add_operations add_rule rule_key
    tenant_codes menu_operations api_by_operation insert lookup contains
built_test = refl

build_casbin_rule_list-Origin_example :
    Origin codec
      (admin ∷ [])
      (acme ∷ [])
      (page_menu ∷ [])
      (page_api ∷ [])
      (rule_of "acme" "admin" page_api)
unfolding build_casbin_rule_list add_roles add_role add_menus add_operations add_rule rule_key
    tenant_codes menu_operations api_by_operation insert lookup contains
build_casbin_rule_list-Origin_example =
    build_casbin_rule_list-Origin codec (admin ∷ []) (acme ∷ []) (page_menu ∷ []) (page_api ∷ [])
      (rule_of "acme" "admin" page_api) (inl refl)

build_casbin_rule_list_complete_example :
    (rule : PolicyRecord) × In rule built × (joined rule ≡ "acme\0admin\0/shop/Page\0GET")
build_casbin_rule_list_complete_example =
    build_casbin_rule_list_complete codec (admin ∷ []) (acme ∷ []) (page_menu ∷ []) (page_api ∷ [])
      admin acme page_api
      (record {
        menu = page_menu;
        role_listed = inl refl;
        tenant_listed = inl (refl, tt);
        of_tenant = refl;
        menu_listed = inl (refl, tt);
        has_menu = inl refl;
        has_operation = inl refl;
        api_listed = inl refl;
      })

abbrev newest : List (List PolicyRecord) → List PolicyRecord
newest [] = rule_of "acme" "" page_api ∷ []
newest (rules ∷ _) = rules

abbrev outside : Outside
outside = record {
  list_roles = ok (admin ∷ []);
  list_tenants = ok (acme ∷ []);
  list_menus_by_ids = λ ids. ok (page_menu ∷ []);
  list_for_policy = ok (page_api ∷ []);
  replace_policies = λ rules. none;
  list_policies = λ replaced. ok (newest replaced);
  is_writer = true;
  set_policies = λ rules. none;
  map_order = λ ids. ids;
}

abbrev untouched : Effects
untouched = record { replaced = []; written = [] }
