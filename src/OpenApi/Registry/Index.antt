-- ===== src/OpenApi/Registry/Index.antt =====
-- The index of the registered documents agrees with them after every registration.
use kratos_core.Prelude.{
  String, ◌≡◌, ◌≢◌, refl, sym, Option, none, some, List, [], ◌∷◌, In, In-append_left,
  In-append_right, arith, Bool-cases, inl, inr,
}
use mathlib.Core.Path.{subst}
use kratos_core.Prelude.Eq.{◌==◌, ==_iff, string_eq, lookup}
use kratos_core.Prelude.Error.{Error, Result, ok, err, Result-cases}
use kratos_core.Locale.{Parsers}
use kratos_core.OpenApi.Registry.{
  Document, Registry, Paths, document_api_keys, add_api_keys, with_document, indexed,
  unless_registered, if_valid, normal_document, register_one, register_all, register,
}
use kratos_core.OpenApi.Registry.Indexed.{document_key, IsIndexed, extended, extended-IsIndexed}

module _ (locales : Parsers) (unmarshal : String → Result Paths) where
  -- The registry after a registration, and the document that answers to the given one's key.
  abbrev pub Holds : Document → Registry → Type 0
  Holds d r =
      (e : Document) × In e r.documents
      × (document_key e ≡ document_key d)
      × (e.name ≡ d.name)
      × (e.content ≡ d.content)

  abbrev pub Grows : Registry → Registry → Type 0
  Grows r r' = (d : Document) → In d r.documents → In d r'.documents

  abbrev Took : Document → Registry → Registry → Type 0
  Took d r r' = IsIndexed locales unmarshal r' × Grows r r' × Holds d r'

  with_document-Took :
      (d : Document) (r r' : Registry) (api_keys : List String)
      (added : Result (List (String × String)))
      → IsIndexed locales unmarshal r
      → lookup (document_key d) r.documents_by_key ≡ none
      → document_api_keys locales unmarshal d.content ≡ ok api_keys
      → add_api_keys locales unmarshal d api_keys r.document_keys_by_api ≡ added
      → with_document locales unmarshal d r added ≡ ok r'
      → Took d r r'
  with_document-Took d r r' api_keys (err e) inv free parsed a h = ground (arith, h)
  with_document-Took d r r' api_keys (ok index) inv free parsed a h =
      let same : extended locales unmarshal d r index ≡ r' = ground (arith, h) in
      subst (λ x. Took d r x) same
        (
          extended-IsIndexed locales unmarshal d r api_keys index inv free parsed a,
          (λ e m. In-append_left e r.documents (d ∷ []) m),
          (d, In-append_right d r.documents (d ∷ []) (inl refl), refl, refl, refl),
        )

  indexed-Took :
      (d : Document) (r r' : Registry) (parsed : Result (List String))
      → IsIndexed locales unmarshal r
      → lookup (document_key d) r.documents_by_key ≡ none
      → document_api_keys locales unmarshal d.content ≡ parsed
      → indexed locales unmarshal d r parsed ≡ ok r'
      → Took d r r'
  indexed-Took d r r' (err e) inv free p h = ground (arith, h)
  indexed-Took d r r' (ok api_keys) inv free p h =
      with_document-Took d r r' api_keys _ inv free p refl h

  unless_registered-Took :
      (d : Document) (r r' : Registry) (o : Option Document)
      → IsIndexed locales unmarshal r
      → lookup (document_key d) r.documents_by_key ≡ o
      → unless_registered locales unmarshal d r o ≡ ok r'
      → Took d r r'
  unless_registered-Took d r r' none inv found h = indexed-Took d r r' _ inv found refl h
  unless_registered-Took d r r' (some e) inv found h = elim (Bool-cases (e.name == d.name)) [
    | inr n ↦ ground (arith, h, n)
    | inl n ↦ elim (Bool-cases (e.content == d.content)) [
      | inr c ↦ ground (arith, h, n, c)
      | inl c ↦
          let same : r ≡ r' = ground (arith, h, n, c) in
          let (m, q) = inv.held (document_key d) e found in
          subst (λ x. Took d r x) same
            (
              inv,
              (λ x m. m),
              (
                e,
                m,
                sym q,
                ground (arith, n, ==_iff e.name d.name),
                ground (arith, c, ==_iff e.content d.content),
              ),
            )
    ]
  ]

  if_valid-Took :
      (d : Document) (r r' : Registry) (o : Option Error)
      → IsIndexed locales unmarshal r
      → if_valid locales unmarshal d r o ≡ ok r'
      → Took d r r'
  if_valid-Took d r r' (some e) inv h = ground (arith, h)
  if_valid-Took d r r' none inv h = unless_registered-Took d r r' _ inv refl h

  register_one-Took :
      (given : Document) (r r' : Registry)
      → IsIndexed locales unmarshal r
      → register_one locales unmarshal given r ≡ ok r'
      → Took (normal_document locales unmarshal given) r r'
  unfolding register_one
  register_one-Took given r r' inv h =
      if_valid-Took (normal_document locales unmarshal given) r r' _ inv h

  abbrev pub AllHold : List Document → Registry → Type 0
  AllHold [] r = Unit
  AllHold (d ∷ rest) r = Holds (normal_document locales unmarshal d) r × AllHold rest r

  register_all-Took :
      (given : List Document) (r r' : Registry)
      → IsIndexed locales unmarshal r
      → register_all locales unmarshal given r ≡ ok r'
      → IsIndexed locales unmarshal r' × Grows r r' × AllHold given r'
  unfolding register_all
  register_all-Took [] r r' inv h =
      let same : r ≡ r' = ground (arith, h) in
      subst (λ x. IsIndexed locales unmarshal x × Grows r x × Unit) same (inv, (λ d m. m), tt)
  register_all-Took (d ∷ rest) r r' inv h =
      elim (Result-cases (register_one locales unmarshal d r)) [
        | inr (e, p) ↦ ground (arith, h, p)
        | inl (s, p) ↦
            let (i, g, k) = register_one-Took d r s inv p in
            let (j, l, a) = register_all-Took rest s r' i (rw p at h) in
            let (e, m, x, y, z) = k in (j, (λ d m. l d (g d m)), ((e, l e m, x, y, z), a))
      ]

  -- A registration keeps the index in agreement with the documents. When it succeeds, the documents
  -- that were registered stay, and for each given document, its language in normal form, one with
  -- its document key, name and bytes is registered. When it fails, nothing changes.
  pub register-IsIndexed :
      (given : List Document) (r : Registry)
      → IsIndexed locales unmarshal r
      → let (e, r') = register locales unmarshal given r in
        IsIndexed locales unmarshal r'
        × Grows r r'
        × (e ≡ none → AllHold given r')
        × (e ≢ none → r' ≡ r)
  unfolding register
  register-IsIndexed given r inv = elim (Result-cases (register_all locales unmarshal given r)) [
    | inr (e, p) ↦ rw p (inv, (λ d m. m), (λ h. ground (arith, h)), (λ h. refl))
    | inl (s, p) ↦
        let (i, g, a) = register_all-Took given r s inv p in
        rw p (i, g, (λ h. a), (λ h. ground (arith, h)))
  ]
