-- ===== src/OpenApi/Registry/Query/Operation.antt =====
-- Which document `DocumentByOperationForLocale` returns.
use kratos_core.Prelude.{
  String, ◌≡◌, refl, ◌∙◌, Bool, true, false, Option, none, some, List, [], ◌∷◌, In, arith,
  Option-cases, inl, inr,
}
use kratos_core.Prelude.Eq.{string_eq, lookup}
use kratos_core.Prelude.Error.{Result}
use kratos_core.Locale.{Parsers}
use kratos_core.OpenApi.Registry.{Document, Registry, Paths, new_api_key, new_locale_api_key}
use kratos_core.OpenApi.Registry.Indexed.{Declares, IsIndexed}
use kratos_core.OpenApi.Registry.Query.{
  find_owner, owned_document, locales_of, document_by_operation_for_locale,
}

pub find_owner-some :
    (locales : List String) (api_key : String) (index : List (String × String)) (owner : String)
    → find_owner locales api_key index ≡ some owner
    → (locale : String) × In locale locales
      × (lookup (new_locale_api_key locale api_key) index ≡ some owner)
unfolding find_owner
find_owner-some [] api_key index owner h = ground (arith, h)
find_owner-some (l ∷ rest) api_key index owner h =
    elim (Option-cases (lookup (new_locale_api_key l api_key) index)) [
      | inr (o, p) ↦ (l, inl refl, p ∙ ground (arith, h, p))
      | inl p ↦
          let (m, i, q) = find_owner-some rest api_key index owner (rw p at h) in (m, inr i, q)
    ]

find_owner-none :
    (locales : List String) (api_key : String) (index : List (String × String)) (locale : String)
    → find_owner locales api_key index ≡ none
    → In locale locales
    → lookup (new_locale_api_key locale api_key) index ≡ none
unfolding find_owner
find_owner-none [] api_key index locale h m = elim m [ ]
find_owner-none (l ∷ rest) api_key index locale h m =
    elim (Option-cases (lookup (new_locale_api_key l api_key) index)) [
      | inr (o, p) ↦ ground (arith, h, p)
      | inl p ↦ elim m [
        | inl e ↦ rw e p
        | inr i ↦ find_owner-none rest api_key index locale (rw p at h) i
      ]
    ]

module _ (locales : Parsers) (unmarshal : String → Result Paths) where
  -- What the query promises of its answer.
  abbrev pub Answers : List String → String → Registry → Document × Bool → Type 0
  Answers ls api_key r (d, false) =
      (e : Document) → In e r.documents → Declares locales unmarshal e api_key → In e.locale ls → ⊥
  Answers ls api_key r (d, true) =
      (name : String) × (locale : String) × In d r.documents
      × Declares locales unmarshal d name
      × In locale ls
      × (new_locale_api_key locale api_key ≡ new_locale_api_key d.locale name)

  owned_document-Answers :
      (ls : List String) (api_key : String) (r : Registry) (o : Option String)
      → IsIndexed locales unmarshal r
      → find_owner ls api_key r.document_keys_by_api ≡ o
      → Answers ls api_key r (owned_document o r)
  owned_document-Answers ls api_key r none inv h = λ e m d i. ground (
    arith,
    inv.by_api e api_key m d,
    find_owner-none ls api_key r.document_keys_by_api e.locale h i,
  )
  owned_document-Answers ls api_key r (some owner) inv h =
      let (l, i, p) = find_owner-some ls api_key r.document_keys_by_api owner h in
      let (d, k, m, x, y, z) = inv.owned (new_locale_api_key l api_key) owner p in
      let found : lookup owner r.documents_by_key ≡ some d = rw z (inv.by_key d m) in
      rw found (k, l, m, x, i, y)

  -- Where the index agrees with the documents, the query says "not found" only if no registered
  -- document in a candidate language or the default one declares the operation. Otherwise it
  -- returns a registered document, and the index name under which that document declares an
  -- operation is the name of the asked one in one of these languages.
  pub document_by_operation_for_locale-Answers :
      (locale path method : String) (r : Registry)
      → IsIndexed locales unmarshal r
      → Answers
          (locales_of locales locale)
          (new_api_key path method)
          r
          (document_by_operation_for_locale locales locale path method r)
  unfolding document_by_operation_for_locale
  document_by_operation_for_locale-Answers locale path method r inv =
      owned_document-Answers (locales_of locales locale) (new_api_key path method) r _ inv refl
