-- ===== src/OpenApi/Tests.antt =====
-- A registry with one document, and a schema that holds itself.
use kratos_core.Prelude.{
  String, ◌≡◌, ◌≢◌, refl, true, false, Option, none, some, List, [], ◌∷◌, arith,
}
use kratos_core.Prelude.Eq.{string_eq, lookup}
use kratos_core.Prelude.Error.{Result, ok}
use kratos_core.Locale.{Parsers}
use kratos_core.OpenApi.Registry.{Document, Registry, Paths, new_api_key, register}
use kratos_core.OpenApi.Registry.Indexed.{IsIndexed}
use kratos_core.OpenApi.Registry.Index.{Grows, AllHold, register-IsIndexed}
use kratos_core.OpenApi.Registry.Query.{
  locales_of, document_by_operation_for_locale, has_documents_for_locale,
}
use kratos_core.OpenApi.Registry.Query.Operation.{Answers, document_by_operation_for_locale-Answers}
use kratos_core.OpenApi.Schema.{
  Schema, schema, field, no_fields, no_items, Components, build_schema,
}
use kratos_core.OpenApi.Schema.Depth.{Fits, build_schema-Fits}
use kratos_core.OpenApi.Operation.{OpenApiDocument, get_operation}
use kratos_core.OpenApi.Operation.Answer.{Agrees, get_operation-Agrees}

abbrev parsers : Parsers
parsers = record { parse_tag = λ s. some s; parse_float = λ s. none; one = 1 }

abbrev unmarshal : String → Result Paths
unmarshal content = ok (("/a", "get" ∷ []) ∷ [])

abbrev parse : String → Result OpenApiDocument
parse content = ok (record { paths = []; components = [] })

abbrev document : Document
document = record { key = "core"; name = "Core"; locale = ""; content = "x" }

abbrev empty : Registry
empty = record {
  documents = [];
  documents_by_key = [];
  document_keys_by_api = [];
  parsed_documents = [];
}

empty-IsIndexed : IsIndexed parsers unmarshal empty
unfolding lookup
empty-IsIndexed = record {
  by_key = λ d m. elim m [ ];
  parsed = λ d m. elim m [ ];
  held = λ name d h. ground (arith, h);
  by_api = λ d k m. elim m [ ];
  owned = λ name owner h. ground (arith, h);
}

abbrev registered : Registry
registered = (register parsers unmarshal (document ∷ []) empty).1

registered-IsIndexed : IsIndexed parsers unmarshal registered
registered-IsIndexed =
    (register-IsIndexed parsers unmarshal (document ∷ []) empty empty-IsIndexed).0

register-IsIndexed_example :
    let (e, r) = register parsers unmarshal (document ∷ []) empty in
    IsIndexed parsers unmarshal r
    × Grows parsers unmarshal empty r
    × (e ≡ none → AllHold parsers unmarshal (document ∷ []) r)
    × (e ≢ none → r ≡ empty)
register-IsIndexed_example =
    register-IsIndexed parsers unmarshal (document ∷ []) empty empty-IsIndexed

register_test : (register parsers unmarshal (document ∷ []) empty).0 ≡ none
unfolding register kratos_core.OpenApi.Registry.validate_document kratos_core.Prelude.Text.codes
    kratos_core.Locale.normalize kratos_core.Prelude.Text.replace_all
    kratos_core.Prelude.Text.trim_space kratos_core.Prelude.Text.before
    kratos_core.Prelude.Eq.lookup kratos_core.OpenApi.Registry.document_api_keys
    kratos_core.OpenApi.Registry.add_api_keys kratos_core.Prelude.Eq.contains
    kratos_core.Prelude.Text.to_lower
register_test = refl

document_by_operation_for_locale-Answers_example :
    Answers parsers unmarshal
      (locales_of parsers "zh")
      (new_api_key "/a" "GET")
      registered
      (document_by_operation_for_locale parsers "zh" "/a" "GET" registered)
document_by_operation_for_locale-Answers_example =
    document_by_operation_for_locale-Answers parsers unmarshal "zh" "/a" "GET" registered
      registered-IsIndexed

get_operation-Agrees_example :
    Agrees parsers unmarshal parse "/a" "GET"
      (has_documents_for_locale parsers "zh" registered)
      (document_by_operation_for_locale parsers "zh" "/a" "GET" registered)
      (get_operation parsers parse "zh" "/a" "GET" registered)
get_operation-Agrees_example =
    get_operation-Agrees parsers unmarshal parse "zh" "/a" "GET" registered registered-IsIndexed

-- A tree whose nodes hold trees.
abbrev tree : Schema
tree =
    schema "" "object" "" "" [] []
      (field "next" (schema "#/components/schemas/Tree" "" "" "" [] [] no_fields no_items)
        no_fields)
      no_items

abbrev components : Components
components = ("Tree", tree) ∷ []

build_schema-Fits_example :
    Fits 8 "body" "body" (build_schema 8 (some components) "body" "body" "body" true tree)
build_schema-Fits_example = build_schema-Fits 8 (some components) "body" "body" "body" true tree
