-- ===== src/ApiResource/Packages/Cited.antt =====
-- The references of a document that its collected packages come from.
use kratos_core.Prelude.{
  String, ◌≡◌, ◌≢◌, refl, sym, Option, none, some, List, [], ◌∷◌, ◌++◌, In, arith, Bool-cases, inl,
  inr, ◌⊎◌, In-append,
}
use mathlib.Core.Path.{subst}
use kratos_core.Prelude.Eq.{==_iff, string_eq, contains}
use kratos_core.ApiResource.Names.{
  openapi_terminal, proto_package_from_schema_ref, proto_package_terminal,
}
use kratos_core.ApiResource.Packages.{
  Schema, schema, Fields, no_fields, field, Items, no_items, items, Operation, add, is_own, add_own,
  collect, collect_fields, collect_items, collect_all, body_schemas, flat, operation_proto_packages,
}

pub In-add : (a p : String) (set : List String) → In p (add a set) → (p ≡ a) ⊎ In p set
In-add a p set h = elim (Bool-cases (contains set a)) [
  | inl t ↦ inr (rw t at h)
  | inr f ↦ rw f at h
]

-- A reference stands in a schema, in one of its fields, or in its items.
abbrev mutual
  pub Mentions : String → Schema → Type 0
  Mentions ref (schema r fs its) = (r ≡ ref) ⊎ FieldsMention ref fs ⊎ ItemsMention ref its

  pub FieldsMention : String → Fields → Type 0
  FieldsMention ref no_fields = ⊥
  FieldsMention ref (field s rest) = Mentions ref s ⊎ FieldsMention ref rest

  pub ItemsMention : String → Items → Type 0
  ItemsMention ref no_items = ⊥
  ItemsMention ref (items s) = Mentions ref s

-- The package is that of the reference, is not empty, and is of the terminal of the path.
abbrev pub Refers : String → String → String → Type 0
Refers path p ref =
    (proto_package_from_schema_ref ref ≡ p)
    × (p ≢ "")
    × (proto_package_terminal p ≡ openapi_terminal path)

-- One of the references that satisfy `M`.
abbrev pub From : String → String → (String → Type 0) → Type 0
From path p M = (ref : String) × M ref × Refers path p ref

widen :
    (path p : String) (M N : String → Type 0)
    → ((ref : String) → M ref → N ref)
    → From path p M
    → From path p N
widen path p M N f (ref, m, r) = (ref, f ref m, r)

In-add_own :
    (path ref p : String) (set : List String)
    → In p (add_own path (proto_package_from_schema_ref ref) set)
    → Refers path p ref ⊎ In p set
In-add_own path ref p set h =
    let name = proto_package_from_schema_ref ref in
    elim (Bool-cases (is_own path name)) [
      | inr f ↦ inr (rw f at h)
      | inl t ↦ elim (In-add name p set (rw t at h)) [
        | inr m ↦ inr m
        | inl e ↦ inl (
          sym e,
          subst (λ x. x ≢ "") (sym e) (λ q. ground (arith, t, q, ==_iff name "")),
          subst (λ x. proto_package_terminal x ≡ openapi_terminal path) (sym e)
              (ground (arith, t, ==_iff (proto_package_terminal name) (openapi_terminal path))),
        )
      ]
    ]

-- Only packages that references in the schemas name are collected.
mutual
  unfolding collect collect_fields collect_items

  In-collect :
      (path p : String) (s : Schema) (set : List String)
      → In p (collect path s set)
      → From path p (λ ref. Mentions ref s) ⊎ In p set
  In-collect path p (schema ref fs its) set h = elim (In-collect_items path p its _ h) [
    | inl o ↦ inl (widen path p (λ x. ItemsMention x its) _ (λ x m. inr (inr m)) o)
    | inr m ↦ elim (In-collect_fields path p fs _ m) [
      | inl o ↦ inl (widen path p (λ x. FieldsMention x fs) _ (λ x m. inr (inl m)) o)
      | inr k ↦ elim (In-add_own path ref p set k) [
        | inl r ↦ inl (ref, inl refl, r)
        | inr n ↦ inr n
      ]
    ]
  ]

  In-collect_fields :
      (path p : String) (fs : Fields) (set : List String)
      → In p (collect_fields path fs set)
      → From path p (λ ref. FieldsMention ref fs) ⊎ In p set
  In-collect_fields path p no_fields set h = inr h
  In-collect_fields path p (field s rest) set h = elim (In-collect_fields path p rest _ h) [
    | inl o ↦ inl (widen path p (λ x. FieldsMention x rest) _ (λ x m. inr m) o)
    | inr m ↦ elim (In-collect path p s set m) [
      | inl o ↦ inl (widen path p (λ x. Mentions x s) _ (λ x m. inl m) o)
      | inr n ↦ inr n
    ]
  ]

  In-collect_items :
      (path p : String) (its : Items) (set : List String)
      → In p (collect_items path its set)
      → From path p (λ ref. ItemsMention ref its) ⊎ In p set
  In-collect_items path p no_items set h = inr h
  In-collect_items path p (items s) set h = In-collect path p s set h

-- A reference of one of the schemas.
abbrev Within : List Schema → String → Type 0
Within l ref = (s : Schema) × In s l × Mentions ref s

In-collect_all :
    (path p : String) (l : List Schema) (set : List String)
    → In p (collect_all path l set)
    → From path p (Within l) ⊎ In p set
unfolding collect_all
In-collect_all path p [] set h = inr h
In-collect_all path p (s ∷ rest) set h = elim (In-collect_all path p rest _ h) [
  | inl o ↦ inl (widen path p (Within rest) _ (λ x (t, i, m). (t, inr i, m)) o)
  | inr m ↦ elim (In-collect path p s set m) [
    | inl o ↦ inl (widen path p (λ x. Mentions x s) _ (λ x m. (s, inl refl, m)) o)
    | inr n ↦ inr n
  ]
]

-- A schema of a parameter, of the body or of a response of the operation.
abbrev pub Uses : Operation → Schema → Type 0
Uses o s =
    In s o.parameters
    ⊎ ((l : List Schema) × (o.request_body ≡ some l) × In s l)
    ⊎ ((l : List Schema) × In {A = List Schema} l o.responses × In s l)

-- A reference in one of these schemas.
abbrev pub Cites : Operation → String → Type 0
Cites o ref = (s : Schema) × Uses o s × Mentions ref s

In-flat :
    (s : Schema) (ls : List (List Schema))
    → In s (flat ls)
    → (l : List Schema) × In {A = List Schema} l ls × In s l
In-flat s [] h = elim h [ ]
In-flat s (l ∷ rest) h = elim (In-append s l (flat rest) h) [
  | inl i ↦ (l, inl refl, i)
  | inr i ↦ let (k, j, m) = In-flat s rest i in (k, inr j, m)
]

In-body_schemas :
    (s : Schema) (body : Option (List Schema))
    → In s (body_schemas body)
    → (l : List Schema) × (body ≡ some l) × In s l
In-body_schemas s none h = elim h [ ]
In-body_schemas s (some l) h = (l, refl, h)

In-schemas :
    (o : Operation) (s : Schema)
    → In s (o.parameters ++ (body_schemas o.request_body ++ flat o.responses))
    → Uses o s
In-schemas o s h = elim (In-append s o.parameters _ h) [
  | inl i ↦ inl i
  | inr k ↦ elim (In-append s (body_schemas o.request_body) (flat o.responses) k) [
    | inl i ↦ inr (inl (In-body_schemas s o.request_body i))
    | inr i ↦ inr (inr (In-flat s o.responses i))
  ]
]

pub In-operation_proto_packages :
    (path p : String) (o : Operation)
    → In p (operation_proto_packages path o)
    → From path p (Cites o)
unfolding operation_proto_packages
In-operation_proto_packages path p o h =
    let schemas = o.parameters ++ (body_schemas o.request_body ++ flat o.responses) in
    elim (In-collect_all path p schemas [] h) [
      | inl k ↦
          widen path p (Within schemas) (Cites o) (λ ref (s, i, m). (s, In-schemas o s i, m)) k
      | inr m ↦ elim m [ ]
    ]
