-- ===== src/OpenApi/Registry/Query.antt =====
-- resource/openapi/registry.go: the queries of the registered documents.
pub mod Chosen
pub mod Operation
use kratos_core.Prelude.{
  ℕ, String, Bool, true, false, ◌||◌, Option, none, some, List, [], ◌∷◌, ◌++◌, if◌then◌else◌,
}
use kratos_core.Prelude.Eq.{◌==◌, string_eq, contains, lookup, insert}
use kratos_core.Prelude.Sort.{less, sort_by}
use kratos_core.Locale.{Parsers, normalize, candidates}
use kratos_core.OpenApi.Registry.{Document, Registry, new_api_key, new_locale_api_key}

-- The documents of one language.
unfoldable pub of_locale : String → List Document → List Document
of_locale locale [] = []
of_locale locale (d ∷ rest) =
    let later = of_locale locale rest in if d.locale == locale then d ∷ later else later

-- A document enters the selection if its key has none yet.
abbrev pub insert_new :
    Document → List (String × Document) → Option Document → List (String × Document)
insert_new d selected none = insert d.key d selected
insert_new d selected (some e) = selected

abbrev pub select_one : String → Document → List (String × Document) → List (String × Document)
select_one locale d selected =
    if d.locale == locale then insert_new d selected (lookup d.key selected) else selected

unfoldable pub select_locale :
    String → List Document → List (String × Document) → List (String × Document)
select_locale locale [] selected = selected
select_locale locale (d ∷ rest) selected = select_locale locale rest (select_one locale d selected)

unfoldable pub select_locales :
    List String → List Document → List (String × Document) → List (String × Document)
unfolding select_locale
select_locales [] documents selected = selected
select_locales (locale ∷ rest) documents selected =
    select_locales rest documents (select_locale locale documents selected)

abbrev pub chosen : Option Document → String → Bool
chosen none locale = false
chosen (some d) locale = d.locale == locale

unfoldable pub keep_selected : List (String × Document) → List Document → List Document
keep_selected selected [] = []
keep_selected selected (d ∷ rest) =
    let later = keep_selected selected rest in
    if chosen (lookup d.key selected) d.locale then d ∷ later else later

-- Each language once.
unfoldable pub locale_set : List Document → List String
locale_set [] = []
locale_set (d ∷ rest) =
    let later = locale_set rest in
    if d.locale == "" then later else if contains later d.locale then later else d.locale ∷ later

-- `Locales`
unfoldable pub locales : Registry → List String
unfolding locale_set
locales r = sort_by less (locale_set r.documents)

unfoldable pub any_locale : List Document → List String → Bool
any_locale [] names = false
any_locale (d ∷ rest) names = contains names d.locale || any_locale rest names

module _ (p : Parsers) where
  -- `DocumentsByLocale`
  unfoldable pub documents_by_locale : String → Registry → List Document
  unfolding of_locale
  documents_by_locale locale r = of_locale (normalize p locale) r.documents

  abbrev pub locales_of : String → List String
  locales_of locale = candidates p locale ++ "" ∷ []

  -- `DocumentsForLocale`; its second loop is over the language "" again.
  unfoldable pub documents_for_locale : String → Registry → List Document
  unfolding select_locale select_locales keep_selected
  documents_for_locale locale r =
      let selected = select_locales (locales_of locale) r.documents [] in
      keep_selected (select_locale "" r.documents selected) r.documents

  -- `hasDocumentsForLocale`
  unfoldable pub has_documents_for_locale : String → Registry → Bool
  unfolding any_locale
  has_documents_for_locale locale r = any_locale r.documents (locales_of locale)

abbrev pub or_owner : Option String → Option String → Option String
or_owner none later = later
or_owner (some owner) later = some owner

-- The loop over the languages: the first that has the operation.
unfoldable pub find_owner : List String → String → List (String × String) → Option String
find_owner [] api_key index = none
find_owner (locale ∷ rest) api_key index =
    let later = find_owner rest api_key index in
    or_owner (lookup (new_locale_api_key locale api_key) index) later

abbrev no_document : Document
no_document = record { key = ""; name = ""; locale = ""; content = "" }

abbrev pub or_no_document : Option Document → Document
or_no_document none = no_document
or_no_document (some d) = d

abbrev pub owned_document : Option String → Registry → Document × Bool
owned_document none r = (no_document, false)
owned_document (some owner) r = (or_no_document (lookup owner r.documents_by_key), true)

abbrev pub owned_content : Option String → Registry → Option String
owned_content none r = none
owned_content (some owner) r = lookup owner r.parsed_documents

-- `DocumentByOperationForLocale`
unfoldable pub document_by_operation_for_locale :
    Parsers → String → String → String → Registry → Document × Bool
unfolding find_owner
document_by_operation_for_locale p locale path method r =
    owned_document
      (find_owner (locales_of p locale) (new_api_key path method) r.document_keys_by_api) r

-- `parsedDocumentByOperationForLocale`, up to the parse of the cached bytes.
unfoldable pub parsed_document_by_operation_for_locale :
    Parsers → String → String → String → Registry → Option String
unfolding find_owner
parsed_document_by_operation_for_locale p locale path method r =
    owned_content
      (find_owner (locales_of p locale) (new_api_key path method) r.document_keys_by_api) r
