-- ===== src/ApiResource/Tests.antt =====
-- A document with one service that its schemas place in the package shop.admin.v1.
use kratos_core.Prelude.{String, ◌≡◌, ◌≢◌, refl, true, Option, none, some, List, [], ◌∷◌, In, inl}
use kratos_core.Prelude.Eq.{string_eq, lookup}
use kratos_core.Prelude.Error.{ok}
use kratos_core.ApiResource.Names.{service_package_key}
use kratos_core.ApiResource.Packages.{
  Schema, schema, no_fields, no_items, Operation, PathItem, Evidence, add_paths, settle,
  build_service_package_map,
}
use kratos_core.ApiResource.Packages.Settled.{by_rule, settle-by_rule}
use kratos_core.ApiResource.Packages.Backed.{HasEvidence}
use kratos_core.ApiResource.Records.{
  ApiRecord, OpenApi, Outside, record_of, api_records, openapi_data_to_base_api,
}
use kratos_core.ApiResource.Records.Origin.{Origin, openapi_data_to_base_api-Origin}

abbrev goods : Schema
goods = schema "#/components/schemas/shop.admin.v1.Goods" no_fields no_items

abbrev page_goods : Operation
page_goods = record {
  tags = [];
  summary = "page";
  description = "";
  operation_id = "GoodsService_Page";
  parameters = goods ∷ [];
  request_body = none;
  responses = [];
}

abbrev item : PathItem
item = record { get = some page_goods; post = none; put = none; delete = none }

abbrev api : OpenApi
api = record { paths = ("/api/v1/admin/goods", item) ∷ []; tags = [] }

abbrev outside : Outside
outside = record { tool_name = λ s. s; marshal = λ l. ok "[]"; unmarshal = λ s. ok api }

abbrev evidence : Evidence
evidence = add_paths api.paths (record { candidates_by_service = []; packages_by_terminal = [] })

settle-by_rule_example :
    lookup (service_package_key "/api/v1/admin/goods" "GoodsService") (settle evidence)
    ≡ by_rule
        (service_package_key "/api/v1/admin/goods" "GoodsService")
        evidence.packages_by_terminal
        (lookup
          (service_package_key "/api/v1/admin/goods" "GoodsService")
          evidence.candidates_by_service)
settle-by_rule_example =
    settle-by_rule evidence (service_package_key "/api/v1/admin/goods" "GoodsService")

abbrev goods_record : ApiRecord
goods_record =
    record_of outside "/api/v1/admin/goods" "GET" page_goods [] "shop.admin.v1" "GoodsService"
      "Page"

openapi_data_to_base_api-Origin_example :
    (origin : Origin outside api.paths (build_service_package_map api.paths) goods_record)
    × HasEvidence api.paths (service_package_key goods_record.path origin.tag) origin.package_name
unfolding openapi_data_to_base_api kratos_core.Prelude.Sort.sort_by
    kratos_core.ApiResource.Packages.path_operations
    kratos_core.ApiResource.Names.parse_operation_id kratos_core.Prelude.Text.after
    kratos_core.Prelude.Text.before kratos_core.Prelude.Eq.lookup
    kratos_core.ApiResource.Packages.build_service_package_map
    kratos_core.ApiResource.Names.service_package_key kratos_core.Prelude.Text.split
    kratos_core.ApiResource.Packages.operation_proto_packages
    kratos_core.ApiResource.Packages.collect
    kratos_core.ApiResource.Names.proto_package_from_schema_ref kratos_core.Prelude.Text.trim_prefix
    kratos_core.Prelude.Text.codes kratos_core.ApiResource.Names.proto_package_terminal
    kratos_core.Prelude.Eq.contains kratos_core.Prelude.Eq.insert
    kratos_core.ApiResource.Names.is_proto_package_version
    kratos_core.ApiResource.Names.openapi_terminal kratos_core.ApiResource.Names.trim_left_slash
    kratos_core.ApiResource.Names.trim_right_slash kratos_core.ApiResource.Packages.add_operations
    kratos_core.ApiResource.Packages.add_packages kratos_core.ApiResource.Packages.add_paths
    kratos_core.ApiResource.Packages.build_tags_map kratos_core.ApiResource.Packages.collect_all
    kratos_core.ApiResource.Packages.settle kratos_core.ApiResource.Packages.settle_candidates
    kratos_core.ApiResource.Packages.settle_fallbacks
openapi_data_to_base_api-Origin_example =
    openapi_data_to_base_api-Origin outside "" api (api_records outside api) goods_record refl refl
      (inl refl)
