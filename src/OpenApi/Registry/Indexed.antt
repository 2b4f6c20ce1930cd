-- ===== src/OpenApi/Registry/Indexed.antt =====
-- When the index of the registered documents agrees with them, and that a new document keeps this.
use kratos_core.Prelude.{
  String, ◌≡◌, refl, sym, ap, Option, none, some, List, [], ◌∷◌, ◌++◌, In, In-append,
  In-append_left, In-append_right, arith, Bool-cases, inl, inr, ◌⊎◌,
}
use mathlib.Core.Path.{subst}
use kratos_core.Prelude.Eq.{◌==◌, ==_iff, string_eq, lookup, insert, lookup-insert}
use kratos_core.Prelude.Error.{Result, ok}
use kratos_core.Locale.{Parsers}
use kratos_core.OpenApi.Registry.{
  Document, Registry, Paths, new_document_key, new_locale_api_key, document_api_keys, add_api_keys,
  unless_owned,
}

abbrev pub document_key : Document → String
document_key d = new_document_key d.key d.locale

module _ (locales : Parsers) (unmarshal : String → Result Paths) where
  -- An operation that a document declares, as the parser reads it.
  abbrev pub Declares : Document → String → Type 0
  Declares d api_key =
      (api_keys : List String) × (document_api_keys locales unmarshal d.content ≡ ok api_keys)
      × In api_key api_keys

  -- Every registered document is found by its key, and each operation it declares leads to it in
  -- its language; and the index names nothing else.
  pub record IsIndexed (r : Registry) : Type 0 where
    pub by_key :
        (d : Document) → In d r.documents → lookup (document_key d) r.documents_by_key ≡ some d
    pub parsed :
        (d : Document)
        → In d r.documents
        → lookup (document_key d) r.parsed_documents ≡ some d.content
    pub held :
        (name : String) (d : Document)
        → lookup name r.documents_by_key ≡ some d
        → In d r.documents × (name ≡ document_key d)
    pub by_api :
        (d : Document) (api_key : String)
        → In d r.documents
        → Declares d api_key
        → lookup (new_locale_api_key d.locale api_key) r.document_keys_by_api
          ≡ some (document_key d)
    pub owned :
        (name owner : String)
        → lookup name r.document_keys_by_api ≡ some owner
        → (d : Document) × (api_key : String) × In d r.documents
          × Declares d api_key
          × (name ≡ new_locale_api_key d.locale api_key)
          × (owner ≡ document_key d)

  -- What the keys of one document do to the index.
  abbrev Extends : Document → List String → List (String × String) → List (String × String) → Type 0
  Extends d api_keys index index' =
      ((name owner : String) → lookup name index ≡ some owner → lookup name index' ≡ some owner)
      × ((api_key : String)
          → In api_key api_keys
          → lookup (new_locale_api_key d.locale api_key) index' ≡ some (document_key d))
      × ((name owner : String)
          → lookup name index' ≡ some owner
          → (lookup name index ≡ some owner)
            ⊎ ((api_key : String) × In api_key api_keys
                × (name ≡ new_locale_api_key d.locale api_key)
                × (owner ≡ document_key d)))

  unless_owned_ok :
      (d : Document) (k : String) (o : Option String) (later : Result (List (String × String)))
      (index : List (String × String))
      → unless_owned locales unmarshal d k o later ≡ ok index
      → (o ≡ none) × (later ≡ ok index)
  unless_owned_ok d k none later index h = (refl, h)
  unless_owned_ok d k (some owner) later index h = ground (arith, h)

  add_api_keys-Extends :
      (d : Document) (api_keys : List String) (index index' : List (String × String))
      → add_api_keys locales unmarshal d api_keys index ≡ ok index'
      → Extends d api_keys index index'
  unfolding add_api_keys
  add_api_keys-Extends d [] index index' h = (
    λ name owner e. ground (arith, h, e),
    λ k e. elim e [ ],
    λ name owner e. inl (ground (arith, h, e)),
  )
  add_api_keys-Extends d (k ∷ rest) index index' h =
      let name = new_locale_api_key d.locale k in
      let (free, later) = unless_owned_ok d k (lookup name index) _ index' h in
      let (kept, added, only) =
        add_api_keys-Extends d rest (insert name (document_key d) index) index' later in
      (
        λ other owner e. kept other owner (
            ground
              (arith, e, free, ==_iff name other, lookup-insert name other (document_key d) index)),
        λ api_key e. elim e [
          | inl q ↦ kept _ _ (
              rw q
                (ground (arith, ==_iff name name, lookup-insert name name (document_key d) index)))
          | inr q ↦ added api_key q
        ],
        λ other owner e. elim (only other owner e) [
          | inl q ↦ elim (Bool-cases (name == other)) [
            | inl t ↦ inr (
              k,
              inl refl,
              ground (arith, t, ==_iff name other),
              ground (arith, q, t, lookup-insert name other (document_key d) index),
            )
            | inr t ↦ inl (ground (arith, q, t, lookup-insert name other (document_key d) index))
          ]
          | inr (api_key, m, q, g) ↦ inr (api_key, inr m, q, g)
        ],
      )

  abbrev pub extended : Document → Registry → List (String × String) → Registry
  extended d r index = record {
    documents = r.documents ++ d ∷ [];
    documents_by_key = insert (document_key d) d r.documents_by_key;
    document_keys_by_api = index;
    parsed_documents = insert (document_key d) d.content r.parsed_documents;
  }

  pub extended-IsIndexed :
      (d : Document) (r : Registry) (api_keys : List String) (index : List (String × String))
      → IsIndexed r
      → lookup (document_key d) r.documents_by_key ≡ none
      → document_api_keys locales unmarshal d.content ≡ ok api_keys
      → add_api_keys locales unmarshal d api_keys r.document_keys_by_api ≡ ok index
      → IsIndexed (extended d r index)
  extended-IsIndexed d r api_keys index inv free parsed added =
      let (kept, new, only) = add_api_keys-Extends d api_keys r.document_keys_by_api index added in
      record {
        by_key = λ e m. elim (In-append e r.documents (d ∷ []) m) [
          | inl q ↦ ground (
            arith,
            free,
            inv.by_key e q,
            ==_iff (document_key d) (document_key e),
            lookup-insert (document_key d) (document_key e) d r.documents_by_key,
          )
          | inr (inl q) ↦ rw q (
              ground (
                arith,
                ==_iff (document_key d) (document_key d),
                lookup-insert (document_key d) (document_key d) d r.documents_by_key,
              ))
          | inr (inr q) ↦ elim q [ ]
        ];
        parsed = λ e m. elim (In-append e r.documents (d ∷ []) m) [
          | inl q ↦ ground (
            arith,
            free,
            inv.by_key e q,
            inv.parsed e q,
            ==_iff (document_key d) (document_key e),
            lookup-insert (document_key d) (document_key e) d.content r.parsed_documents,
          )
          | inr (inl q) ↦ rw q (
              ground (
                arith,
                ==_iff (document_key d) (document_key d),
                lookup-insert (document_key d) (document_key d) d.content r.parsed_documents,
              ))
          | inr (inr q) ↦ elim q [ ]
        ];
        held = λ name e h. elim (Bool-cases (document_key d == name)) [
          | inl t ↦
              let same : d ≡ e =
                ground (arith, h, t, lookup-insert (document_key d) name d r.documents_by_key) in
              (
                In-append_right e r.documents (d ∷ []) (inl (sym same)),
                ground (arith, t, ==_iff (document_key d) name, ap document_key same),
              )
          | inr t ↦
              let (m, q) =
                inv.held name e (
                  ground (arith, h, t, lookup-insert (document_key d) name d r.documents_by_key)) in
              (In-append_left e r.documents (d ∷ []) m, q)
        ];
        by_api = λ e k m (ks, p, i). elim (In-append e r.documents (d ∷ []) m) [
          | inl q ↦ kept _ _ (inv.by_api e k q (ks, p, i))
          | inr (inl q) ↦
              let same : ks ≡ api_keys =
                ground
                  (arith, p, parsed, ap (λ x. document_api_keys locales unmarshal x.content) q) in
              rw q (new k (subst (λ l. In k l) same i))
          | inr (inr q) ↦ elim q [ ]
        ];
        owned = λ name owner h. elim (only name owner h) [
          | inl q ↦
              let (e, k, m, x, y, z) = inv.owned name owner q in
              (e, k, In-append_left e r.documents (d ∷ []) m, x, y, z)
          | inr (k, m, y, z) ↦
              (d, k, In-append_right d r.documents (d ∷ []) (inl refl), (api_keys, parsed, m), y, z)
        ];
      }
