-- ===== src/OpenApi/Operation.antt =====
-- resource/openapi/openapi.go: the operations of a parsed document, and `GetOperation`, `Services`
-- and `Service`. The parser of YAML is a function from the bytes to the document.
pub mod Answer
use kratos_core.Prelude.{
  ℕ, String, Bool, true, false, Option, none, some, List, [], ◌∷◌, ◌++◌, map, if◌then◌else◌,
}
use Prim.Native.String.{◌++◌ as str_append}
use kratos_core.Prelude.Eq.{◌==◌, string_eq, lookup}
use kratos_core.Prelude.Error.{
  Error, Result, ok, err, plain, internal, resource_not_found, with_cause,
}
use kratos_core.Prelude.Sort.{less, sort_by}
use kratos_core.Prelude.Text.{to_upper}
use kratos_core.Locale.{Parsers}
use kratos_core.OpenApi.Registry.{Document, Registry}
use kratos_core.OpenApi.Registry.Query.{
  documents_for_locale, has_documents_for_locale, document_by_operation_for_locale,
  parsed_document_by_operation_for_locale,
}
use kratos_core.OpenApi.Schema.{Schema, Node, node, Components, build_schema, max_depth}

pub record Parameter : Type 0 where
  pub name : String
  pub place : String
  pub description : String
  pub required : Bool
  pub schema : Schema

-- The media types with their schemas, in the order in which the map is walked.
abbrev pub Content : Type 0
Content = List (String × Schema)

pub record RequestBody : Type 0 where
  pub description : String
  pub required : Bool
  pub content : Content

pub record Response : Type 0 where
  pub description : String
  pub content : Content

pub record Operation : Type 0 where
  pub summary : String
  pub description : String
  pub operation_id : String
  pub parameters : List Parameter
  pub request_body : Option RequestBody
  pub responses : List (String × Response)

pub record PathItem : Type 0 where
  pub get : Option Operation
  pub post : Option Operation
  pub put : Option Operation
  pub delete : Option Operation
  pub head : Option Operation
  pub options : Option Operation
  pub patch : Option Operation
  pub trace : Option Operation

pub record OpenApiDocument : Type 0 where
  pub paths : List (String × PathItem)
  pub components : Components

-- `openAPIPathOperations`
unfoldable pub path_operations : PathItem → List (String × Option Operation)
path_operations item =
    ("GET", item.get)
    ∷ ("POST", item.post)
    ∷ ("PUT", item.put)
    ∷ ("DELETE", item.delete)
    ∷ ("HEAD", item.head)
    ∷ ("OPTIONS", item.options)
    ∷ ("PATCH", item.patch)
    ∷ ("TRACE", item.trace)
    ∷ []

abbrev pub find_method : String → List (String × Option Operation) → Option Operation
find_method method [] = none
find_method method ((m, o) ∷ rest) = if m == to_upper method then o else find_method method rest

abbrev pub item_operation : String → Option PathItem → Option Operation
item_operation method none = none
item_operation method (some item) = find_method method (path_operations item)

-- `openAPIDocument.operation`
unfoldable pub operation_of : OpenApiDocument → String → String → Option Operation
operation_of d path method = item_operation method (lookup path d.paths)

pub record PathMethod : Type 0 where
  pub path : String
  pub method : String

abbrev item_methods : String → List (String × Option Operation) → List PathMethod
item_methods path [] = []
item_methods path ((m, none) ∷ rest) = item_methods path rest
item_methods path ((m, some o) ∷ rest) = record { path = path; method = m } ∷ item_methods path rest

unfoldable pub all_methods : List (String × PathItem) → List PathMethod
unfolding path_operations
all_methods [] = []
all_methods ((path, item) ∷ rest) = item_methods path (path_operations item) ++ all_methods rest

abbrev pub before_method : PathMethod → PathMethod → Bool
before_method a b = if a.path == b.path then less a.method b.method else less a.path b.path

-- `openAPIDocumentOperations`
unfoldable pub document_operations : OpenApiDocument → List PathMethod
unfolding all_methods
document_operations d = sort_by before_method (all_methods d.paths)

abbrev over_description : String → Node → Node
over_description text (node name path place kind format required description ref enum children) =
    if text == ""
    then node name path place kind format required description ref enum children
    else node name path place kind format required text ref enum children

-- `buildOpenAPIParameters`
unfoldable pub build_parameters : Option Components → List Parameter → List Node
build_parameters document [] = []
build_parameters document (p ∷ rest) =
    over_description p.description
      (build_schema max_depth document p.name p.name p.place p.required p.schema)
    ∷ build_parameters document rest

abbrev first_schema : Content → Option Schema
first_schema [] = none
first_schema ((media, s) ∷ rest) = some s

abbrev or_first : Option Schema → Content → Option Schema
or_first (some s) content = some s
or_first none content = first_schema content

-- `selectOpenAPIContentSchema`
unfoldable pub select_content_schema : Content → Option Schema
select_content_schema content = or_first (lookup "application/json" content) content

abbrev pub body_node : Option Components → Bool → Option Schema → Option Node
body_node document required none = none
body_node document required (some s) =
    some (build_schema max_depth document "body" "body" "body" required s)

abbrev described_body : String → Option Node → Option Node
described_body text none = none
described_body text (some n) = some (over_description text n)

-- `buildOpenAPIRequestBody`
unfoldable pub build_request_body : Option Components → Option RequestBody → Option Node
unfolding select_content_schema
build_request_body document none = none
build_request_body document (some body) =
    described_body body.description
      (body_node document body.required (select_content_schema body.content))

pub record ResponseNode : Type 0 where
  pub status : String
  pub description : String
  pub body : Option Node

abbrev pub by_status : String × Response → String × Response → Bool
by_status (a, r) (b, q) = less a b

abbrev pub response_node : Option Components → String × Response → ResponseNode
unfolding select_content_schema
response_node document (status, response) = record {
  status = status;
  description = response.description;
  body = body_node document false (select_content_schema response.content);
}

-- `buildOpenAPIResponses`
unfoldable pub build_responses : Option Components → List (String × Response) → List ResponseNode
build_responses document responses = map (response_node document) (sort_by by_status responses)

pub record OperationDocument : Type 0 where
  pub summary : String
  pub description : String
  pub parameters : List Node
  pub request_body : Option Node
  pub responses : List ResponseNode

unfoldable pub operation_document : OpenApiDocument → Operation → OperationDocument
unfolding build_parameters build_request_body build_responses
operation_document d o = record {
  summary = o.summary;
  description = o.description;
  parameters = build_parameters (some d.components) o.parameters;
  request_body = build_request_body (some d.components) o.request_body;
  responses = build_responses (some d.components) o.responses;
}

abbrev pub cause : String → String → Error
cause path method = plain (str_append method (str_append " " path))

module _ (locales : Parsers) (parse : String → Result OpenApiDocument) where
  abbrev pub answer_operation :
      String → String → OpenApiDocument → Option Operation → Result OperationDocument
  answer_operation path method d none =
      err (with_cause (resource_not_found "OpenAPI接口不存在") (cause path method))
  answer_operation path method d (some o) = ok (operation_document d o)

  abbrev pub answer_parsed : String → String → Result OpenApiDocument → Result OperationDocument
  answer_parsed path method (err e) = err (with_cause (internal "解析OpenAPI文档失败") e)
  answer_parsed path method (ok d) = answer_operation path method d (operation_of d path method)

  abbrev pub answer_content : String → String → Bool → Option String → Result OperationDocument
  answer_content path method some_documents none =
      if some_documents
      then err (with_cause (resource_not_found "OpenAPI文档不存在") (cause path method))
      else err (resource_not_found "OpenAPI文档不存在")
  answer_content path method some_documents (some content) =
      answer_parsed path method (parse content)

  -- `GetOperation`
  unfoldable pub get_operation : String → String → String → Registry → Result OperationDocument
  get_operation locale path method r =
      answer_content path method (has_documents_for_locale locales locale r)
        (parsed_document_by_operation_for_locale locales locale path method r)

  pub record Service : Type 0 where
    pub key : String
    pub name : String
    pub operations : List PathMethod

  abbrev add_service :
      Document → Result OpenApiDocument → Result (List Service) → Result (List Service)
  add_service d (err e) later = err (with_cause (internal "解析OpenAPI文档失败") e)
  add_service d (ok api) (err e) = err e
  add_service d (ok api) (ok later) =
      ok (record { key = d.key; name = d.name; operations = document_operations api } ∷ later)

  abbrev skips : String → Document → Bool
  skips code d = if code == "" then false else if d.key == code then false else true

  unfoldable pub services_of : String → List Document → Result (List Service)
  services_of code [] = ok []
  services_of code (d ∷ rest) =
      let later = services_of code rest in
      if skips code d then later else add_service d (parse d.content) later

  -- `Services` and `Service`
  unfoldable pub services : String → String → Registry → Result (List Service)
  unfolding services_of
  services locale code r = services_of code (documents_for_locale locales locale r)

  abbrev named : Document × Bool → (String × String) × Bool
  named (d, false) = (("", ""), false)
  named (d, true) = ((d.key, d.name), true)

  unfoldable pub service : String → String → String → Registry → (String × String) × Bool
  service locale path method r =
      named (document_by_operation_for_locale locales locale path method r)
