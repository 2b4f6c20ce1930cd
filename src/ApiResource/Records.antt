-- ===== src/ApiResource/Records.antt =====
-- resource/biz/base_api.go: `parseOperation`, and the records of a whole document. The name of a
-- tool, the JSON encoding and the parser of YAML are functions.
pub mod Origin
use kratos_core.Prelude.{
  String, Bool, true, false, not, ◌||◌, Option, none, some, List, [], ◌∷◌, ◌++◌, if◌then◌else◌,
}
use Prim.Native.String.{◌++◌ as str_append}
use kratos_core.Prelude.Int.{ℤ}
use kratos_core.Job.World.{status_enable}
use kratos_core.Prelude.Eq.{◌==◌, string_eq, lookup}
use kratos_core.Prelude.Error.{Error, Result, ok, err}
use kratos_core.Prelude.Sort.{less, sort_by}
use kratos_core.ApiResource.Names.{service_package_key, parse_operation_id}
use kratos_core.ApiResource.Prompts.{default_tool_prompts}
use kratos_core.ApiResource.Packages.{
  Operation, PathItem, TagsItem, path_operations, build_service_package_map, build_tags_map,
}

pub record ApiRecord : Type 0 where
  pub tool_name : String
  pub tool_prompts : String
  pub service_name : String
  pub service_desc : String
  pub desc : String
  pub operation : String
  pub method : String
  pub path : String
  pub mcp_status : ℤ
  pub agent_status : ℤ

pub record OpenApi : Type 0 where
  pub paths : List (String × PathItem)
  pub tags : List TagsItem

pub record Outside : Type 0 where
  pub tool_name : String → String
  pub marshal : List String → Result String
  pub unmarshal : String → Result OpenApi

-- `operationDescription`
unfoldable pub operation_description : Operation → String
operation_description o = if o.description == "" then o.summary else o.description

abbrev or_empty : Option String → String
or_empty none = ""
or_empty (some s) = s

abbrev pub full_service : String → String → String
full_service package_name tag = str_append package_name (str_append "." tag)

abbrev pub rpc_operation : String → String → String
rpc_operation service method = str_append "/" (str_append service (str_append "/" method))

abbrev or_keep : String → Option String → String
or_keep desc none = desc
or_keep desc (some value) = value

-- The first tag's description takes the place of the service's.
abbrev pub tag_desc : String → List String → List (String × String) → String → String
tag_desc package_name [] tags desc = desc
tag_desc package_name (tag ∷ rest) tags desc =
    or_keep desc (lookup (full_service package_name tag) tags)

module _ (o : Outside) where
  abbrev or_brackets : Result String → String
  or_brackets (err e) = "[]"
  or_brackets (ok raw) = raw

  -- `encodeToolPrompts`
  unfoldable pub encode_tool_prompts : List String → String
  encode_tool_prompts prompts = or_brackets (o.marshal prompts)

  -- The record of an operation, its package being known.
  unfoldable pub record_of :
      String → String → Operation → List (String × String) → String → String → String → ApiRecord
  unfolding operation_description encode_tool_prompts
  record_of path method op tags package_name tag method_name =
      let service = full_service package_name tag in
      let operation = rpc_operation service method_name in
      let service_desc = tag_desc package_name op.tags tags (or_empty (lookup service tags)) in
      let desc = operation_description op in
      let tool = o.tool_name operation in
      record {
        tool_name = tool;
        tool_prompts =
            encode_tool_prompts
              (default_tool_prompts tool service service_desc desc operation method path);
        service_name = service;
        service_desc = service_desc;
        desc = desc;
        operation = operation;
        method = method;
        path = path;
        mcp_status = status_enable;
        agent_status = status_enable;
      }

  abbrev pub with_package :
      String
      → String
      → Operation
      → List (String × String)
      → String × String
      → Option String
      → Option ApiRecord
  with_package path method op tags names none = none
  with_package path method op tags (tag, method_name) (some package_name) =
      if package_name == ""
      then none
      else some (record_of path method op tags package_name tag method_name)

  abbrev pub with_names :
      String
      → String
      → Operation
      → List (String × String)
      → List (String × String)
      → String × String
      → Option ApiRecord
  with_names path method op tags packages (tag, method_name) =
      if tag == "" || method_name == ""
      then none
      else with_package path method op tags (tag, method_name)
          (lookup (service_package_key path tag) packages)

  -- `parseOperation`
  unfoldable pub parse_operation :
      String
      → String
      → Option Operation
      → List (String × String)
      → List (String × String)
      → Option ApiRecord
  parse_operation path method none tags packages = none
  parse_operation path method (some op) tags packages =
      with_names path method op tags packages (parse_operation_id op.operation_id)

  abbrev pub cons_some : Option ApiRecord → List ApiRecord → List ApiRecord
  cons_some none rest = rest
  cons_some (some r) rest = r ∷ rest

  unfoldable pub item_records :
      String
      → List (String × Option Operation)
      → List (String × String)
      → List (String × String)
      → List ApiRecord
  unfolding parse_operation
  item_records path [] tags packages = []
  item_records path ((method, op) ∷ rest) tags packages =
      cons_some (parse_operation path method op tags packages)
        (item_records path rest tags packages)

  unfoldable pub path_records :
      List (String × PathItem) → List (String × String) → List (String × String) → List ApiRecord
  unfolding item_records
  path_records [] tags packages = []
  path_records ((path, item) ∷ rest) tags packages =
      item_records path (path_operations item) tags packages ++ path_records rest tags packages

  abbrev pub by_operation : ApiRecord → ApiRecord → Bool
  by_operation a b = less a.operation b.operation

  abbrev pub api_records : OpenApi → List ApiRecord
  api_records api =
      let packages = build_service_package_map api.paths in
      let tags = build_tags_map api.tags packages [] in
      sort_by by_operation (path_records api.paths tags packages)

  abbrev pub parsed_records : Result OpenApi → Result (List ApiRecord)
  parsed_records (err e) = err e
  parsed_records (ok api) = ok (api_records api)

  -- `OpenAPIDataToBaseAPI`
  unfoldable pub openapi_data_to_base_api : String → Result (List ApiRecord)
  unfolding path_records
  openapi_data_to_base_api content = parsed_records (o.unmarshal content)

  pub record ApiTranslationRecord : Type 0 where
    pub operation : String
    pub locale : String
    pub tool_prompts : String
    pub service_desc : String
    pub desc : String

  abbrev pub translations : String → List ApiRecord → List ApiTranslationRecord
  translations locale [] = []
  translations locale (r ∷ rest) =
      let later = translations locale rest in
      if r.operation == ""
      then later
      else record {
        operation = r.operation;
        locale = locale;
        tool_prompts = r.tool_prompts;
        service_desc = r.service_desc;
        desc = r.desc;
      }
        ∷ later

  abbrev pub translated : String → Result (List ApiRecord) → Result (List ApiTranslationRecord)
  translated locale (err e) = err e
  translated locale (ok records) = ok (translations locale records)

  -- `OpenAPIDataToBaseAPII18N`
  unfoldable pub openapi_data_to_base_api_i18n :
      String → String → Result (List ApiTranslationRecord)
  unfolding openapi_data_to_base_api
  openapi_data_to_base_api_i18n content locale =
      if locale == "" then ok [] else translated locale (openapi_data_to_base_api content)
