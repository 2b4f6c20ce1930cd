-- ===== src/OpenApi/Operation/Answer.antt =====
-- `GetOperation` and `Service` agree on the document of an operation.
use kratos_core.Prelude.{String, ◌≡◌, refl, Bool, true, false, Option, none, some, List}
use kratos_core.Prelude.Eq.{string_eq, lookup}
use kratos_core.Prelude.Error.{Result, err, with_cause, resource_not_found}
use kratos_core.Locale.{Parsers}
use kratos_core.OpenApi.Registry.{Document, Registry, Paths, new_api_key}
use kratos_core.OpenApi.Registry.Indexed.{IsIndexed}
use kratos_core.OpenApi.Registry.Query.{
  find_owner, owned_document, owned_content, locales_of, document_by_operation_for_locale,
  parsed_document_by_operation_for_locale, has_documents_for_locale,
}
use kratos_core.OpenApi.Registry.Query.Operation.{find_owner-some}
use kratos_core.OpenApi.Operation.{
  OpenApiDocument, OperationDocument, cause, answer_parsed, answer_content, get_operation,
}

module _ (locales : Parsers) (unmarshal : String → Result Paths)
    (parse : String → Result OpenApiDocument) where
  -- What `GetOperation` answers for the document that is found, or for none.
  abbrev pub Agrees : String → String → Bool → Document × Bool → Result OperationDocument → Type 0
  Agrees path method some_documents (d, true) answer =
      answer ≡ answer_parsed locales parse path method (parse d.content)
  Agrees path method true (d, false) answer =
      answer ≡ err (with_cause (resource_not_found "OpenAPI文档不存在") (cause path method))
  Agrees path method false (d, false) answer = answer ≡ err (resource_not_found "OpenAPI文档不存在")

  answer_content-Agrees :
      (ls : List String) (path method : String) (b : Bool) (r : Registry) (o : Option String)
      → IsIndexed locales unmarshal r
      → find_owner ls (new_api_key path method) r.document_keys_by_api ≡ o
      → Agrees path method b
          (owned_document o r)
          (answer_content locales parse path method b (owned_content o r))
  answer_content-Agrees ls path method true r none inv h = refl
  answer_content-Agrees ls path method false r none inv h = refl
  answer_content-Agrees ls path method b r (some owner) inv h =
      let (l, i, p) = find_owner-some ls (new_api_key path method) r.document_keys_by_api owner h in
      let (d, k, m, x, y, z) = inv.owned _ owner p in
      let found : lookup owner r.documents_by_key ≡ some d = rw z (inv.by_key d m) in
      let content : lookup owner r.parsed_documents ≡ some d.content = rw z (inv.parsed d m) in
      rw (found, content) refl

  -- Where the index agrees with the documents, `GetOperation` answers from the very document that
  -- `DocumentByOperationForLocale` returns, by the parse of its bytes; where that returns none, it
  -- answers that the resource is not found, with the operation as the cause if the languages have
  -- any document.
  pub get_operation-Agrees :
      (locale path method : String) (r : Registry)
      → IsIndexed locales unmarshal r
      → Agrees path method
          (has_documents_for_locale locales locale r)
          (document_by_operation_for_locale locales locale path method r)
          (get_operation locales parse locale path method r)
  unfolding document_by_operation_for_locale parsed_document_by_operation_for_locale get_operation
  get_operation-Agrees locale path method r inv =
      answer_content-Agrees (locales_of locales locale) path method
        (has_documents_for_locale locales locale r) r _ inv refl
