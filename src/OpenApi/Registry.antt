-- ===== src/OpenApi/Registry.antt =====
-- resource/openapi/registry.go: the registered documents, and the index from operations to them.
-- The parser of YAML, the code of others, is a function from the bytes to the paths with the keys
-- of their items, in the order in which the map is walked.
pub mod Indexed
pub mod Index
pub mod Query
use kratos_core.Prelude.{
  ℕ, String, Bool, true, false, not, ◌&&◌, ◌||◌, Option, none, some, List, [], ◌∷◌, ◌++◌, leb,
  nat_beq, if◌then◌else◌,
}
use Prim.Native.Char.{code}
use Prim.Native.String.{◌++◌ as str_append}
use kratos_core.Prelude.Eq.{◌==◌, string_eq, contains, lookup, insert}
use kratos_core.Prelude.Error.{Error, Result, ok, err, plain, wrapped}
use kratos_core.Prelude.Text.{codes, quoted, to_upper, to_lower}
use kratos_core.Locale.{Parsers, normalize, candidates}

pub record Document : Type 0 where
  pub key : String
  pub name : String
  pub locale : String
  pub content : String

-- The four fields; the cached parse of a document is that of its bytes.
pub record Registry : Type 0 where
  pub documents : List Document
  pub documents_by_key : List (String × Document)
  pub document_keys_by_api : List (String × String)
  pub parsed_documents : List (String × String)

abbrev pub http_methods : List String
http_methods = "delete" ∷ "get" ∷ "head" ∷ "options" ∷ "patch" ∷ "post" ∷ "put" ∷ "trace" ∷ []

abbrev zero_byte : String
zero_byte = "\0"

-- `newAPIKey`, `newDocumentKey` and `newLocaleAPIKey`
unfoldable pub new_api_key : String → String → String
new_api_key path method = str_append (to_upper method) (str_append zero_byte path)

unfoldable pub new_document_key : String → String → String
new_document_key key locale = str_append key (str_append zero_byte locale)

unfoldable pub new_locale_api_key : String → String → String
new_locale_api_key locale api_key = str_append locale (str_append zero_byte api_key)

abbrev alphanumeric : ℕ → Bool
alphanumeric c =
    (leb b'a' c && leb c b'z') || (leb b'A' c && leb c b'Z') || (leb b'0' c && leb c b'9')

abbrev all_key_codes : List ℕ → Bool
all_key_codes [] = true
all_key_codes (c ∷ rest) =
    (alphanumeric c || nat_beq c b'.' || nat_beq c b'_' || nat_beq c b'-') && all_key_codes rest

-- `documentKeyPattern`
abbrev pub is_document_key : List ℕ → Bool
is_document_key [] = false
is_document_key (c ∷ rest) = alphanumeric c && all_key_codes rest

abbrev pub Paths : Type 0
Paths = List (String × List String)

abbrev concat : List String → String
concat [] = ""
concat (s ∷ rest) = str_append s (concat rest)

-- `displayAPIKey`
unfoldable pub display_api_key : String → String
display_api_key String.[] = ""
display_api_key (String.◌∷◌ c s) =
    let later = display_api_key s in
    if nat_beq (code c) 0 then str_append " " s else String.◌∷◌ c later

unfoldable pub owned_message : Document → String → String → String
unfolding display_api_key quoted
owned_message d api_key owner = concat (
    "OpenAPI 文档 "
    ∷ quoted d.key
    ∷ " 与 "
    ∷ quoted owner
    ∷ " 在语言 "
    ∷ quoted d.locale
    ∷ " 包含重复接口 "
    ∷ display_api_key api_key
    ∷ [])

module _ (locales : Parsers) (unmarshal : String → Result Paths) where
  -- `validateDocument`
  unfoldable pub validate_document : Document → Option Error
  validate_document d =
      if not (is_document_key (codes d.key))
      then some (plain (concat ("OpenAPI 文档 key " ∷ quoted d.key ∷ " 只能包含字母、数字、点、下划线和连字符" ∷ [])))
      else if d.name == ""
      then some (plain (concat ("OpenAPI 文档 " ∷ quoted d.key ∷ " 的名称不能为空" ∷ [])))
      else if d.content == ""
      then some (plain (concat ("OpenAPI 文档 " ∷ quoted d.key ∷ " 的内容不能为空" ∷ [])))
      else if not (d.locale == "") && not (normalize locales d.locale == d.locale)
      then some (plain (concat ("OpenAPI 文档 " ∷ quoted d.key ∷ " 的语言标识必须规范化" ∷ [])))
      else none

  abbrev item_keys : String → List String → List String
  item_keys path [] = []
  item_keys path (method ∷ rest) =
      let later = item_keys path rest in
      if contains http_methods (to_lower method) then new_api_key path method ∷ later else later

  abbrev path_keys : Paths → List String
  path_keys [] = []
  path_keys ((path, methods) ∷ rest) = item_keys path methods ++ path_keys rest

  abbrev keys_of : Result Paths → Result (List String)
  keys_of (err e) = err e
  keys_of (ok paths) = ok (path_keys paths)

  -- `documentAPIKeys`
  unfoldable pub document_api_keys : String → Result (List String)
  document_api_keys content = keys_of (unmarshal content)

  abbrev pub unless_owned :
      Document
      → String
      → Option String
      → Result (List (String × String))
      → Result (List (String × String))
  unless_owned d api_key none later = later
  unless_owned d api_key (some owner) later = err (plain (owned_message d api_key owner))

  -- The inner loop: the keys of one document enter the index.
  unfoldable pub add_api_keys :
      Document → List String → List (String × String) → Result (List (String × String))
  add_api_keys d [] index = ok index
  add_api_keys d (api_key ∷ rest) index =
      let name = new_locale_api_key d.locale api_key in
      let later = add_api_keys d rest (insert name (new_document_key d.key d.locale) index) in
      unless_owned d api_key (lookup name index) later

  -- A document that the index took.
  abbrev pub with_document : Document → Registry → Result (List (String × String)) → Result Registry
  with_document d r (err e) = err e
  with_document d r (ok index) =
      let key = new_document_key d.key d.locale in
      ok (record {
        documents = r.documents ++ d ∷ [];
        documents_by_key = insert key d r.documents_by_key;
        document_keys_by_api = index;
        parsed_documents = insert key d.content r.parsed_documents;
      })

  abbrev pub indexed : Document → Registry → Result (List String) → Result Registry
  indexed d r (err e) = err (wrapped (concat ("解析 OpenAPI 文档 " ∷ quoted d.key ∷ " 失败" ∷ [])) e)
  indexed d r (ok api_keys) = with_document d r (add_api_keys d api_keys r.document_keys_by_api)

  -- The document is registered, or its key is taken or free.
  abbrev pub unless_registered : Document → Registry → Option Document → Result Registry
  unless_registered d r none = indexed d r (document_api_keys d.content)
  unless_registered d r (some existing) =
      if existing.name == d.name && existing.content == d.content
      then ok r
      else err (
          plain (concat ("OpenAPI 文档 key " ∷ quoted d.key ∷ "、语言 " ∷ quoted d.locale ∷ " 重复" ∷ [])))

  abbrev pub if_valid : Document → Registry → Option Error → Result Registry
  if_valid d r (some e) = err e
  if_valid d r none =
      unless_registered d r (lookup (new_document_key d.key d.locale) r.documents_by_key)

  -- One round of the loop of `Register`.
  abbrev pub normal_document : Document → Document
  normal_document d = record d { locale = normalize locales d.locale }

  unfoldable pub register_one : Document → Registry → Result Registry
  register_one given r = let d = normal_document given in if_valid d r (validate_document d)

  abbrev pub and_then_register : (Registry → Result Registry) → Result Registry → Result Registry
  and_then_register next (err e) = err e
  and_then_register next (ok r) = next r

  unfoldable pub register_all : List Document → Registry → Result Registry
  unfolding register_one
  register_all [] r = ok r
  register_all (d ∷ rest) r = and_then_register (register_all rest) (register_one d r)

  -- `Register`: the tables are replaced at the end only.
  abbrev pub commit : Registry → Result Registry → Option Error × Registry
  commit r (err e) = (some e, r)
  commit r (ok r') = (none, r')

  unfoldable pub register : List Document → Registry → Option Error × Registry
  unfolding register_all
  register documents r = commit r (register_all documents r)
