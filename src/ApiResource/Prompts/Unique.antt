-- ===== src/ApiResource/Prompts/Unique.antt =====
-- What `uniqueToolPrompts` keeps.
use kratos_core.Prelude.{
  String, ◌≢◌, refl, sym, ◌||◌, List, [], ◌∷◌, ◌++◌, In, In-append_left, In-append_right, In-append,
  arith, Bool-cases, inl, inr, ◌⊎◌,
}
use kratos_core.Prelude.Eq.{◌==◌, ==_iff, string_eq, contains, contains-In, In-contains}
use kratos_core.ApiResource.Prompts.{unique_from, unique_tool_prompts}

-- Each prompt once, and none of them empty.
abbrev pub IsUnique : List String → Type 0
IsUnique [] = Unit
IsUnique (x ∷ xs) = (In x xs → ⊥) × (x ≢ "") × IsUnique xs

unique_from-IsUnique :
    (prompts values : List String) → IsUnique values → IsUnique (unique_from values prompts)
unfolding unique_from
unique_from-IsUnique [] values h = h
unique_from-IsUnique (item ∷ rest) values h =
    unique_from-IsUnique rest _ (elim (Bool-cases (item == "" || contains values item)) [
      | inl t ↦ rw t h
      | inr f ↦ rw f (
          snoc-IsUnique values h (λ p. ground (arith, f, In-contains values item p))
            (λ p. ground (arith, f, p, ==_iff item "")))
    ])
  where
    snoc-IsUnique :
        (xs : List String) → IsUnique xs → (In item xs → ⊥) → item ≢ "" → IsUnique (xs ++ item ∷ [])
    snoc-IsUnique [] d n e = ((λ p. p), e, tt)
    snoc-IsUnique (x ∷ xs) (m, y, d) n e = (
      λ p. elim (In-append x xs (item ∷ []) p) [
        | inl q ↦ m q
        | inr (inl q) ↦ n (inl (sym q))
        | inr (inr q) ↦ q
      ],
      y,
      snoc-IsUnique xs d (λ p. n (inr p)) e,
    )

kept : (prompts values : List String) (x : String) → In x values → In x (unique_from values prompts)
unfolding unique_from
kept [] values x h = h
kept (item ∷ rest) values x h =
    kept rest _ x (elim (Bool-cases (item == "" || contains values item)) [
      | inl t ↦ rw t h
      | inr f ↦ rw f (In-append_left x values (item ∷ []) h)
    ])

found :
    (prompts values : List String) (x : String)
    → x ≢ ""
    → In x prompts
    → In x (unique_from values prompts)
unfolding unique_from
found [] values x n h = elim h [ ]
found (item ∷ rest) values x n (inr h) = found rest _ x n h
found (item ∷ rest) values x n (inl e) = kept rest _ x (elim (Bool-cases (item == "")) [
  | inl t ↦ ground (arith, n, t, e, ==_iff item "")
  | inr f ↦ elim (Bool-cases (contains values item)) [
    | inl c ↦ rw (f, c, e) (contains-In values item c)
    | inr c ↦ rw (f, c, e) (In-append_right item values (item ∷ []) (inl refl))
  ]
])

given :
    (prompts values : List String) (x : String)
    → In x (unique_from values prompts)
    → In x values ⊎ In x prompts
unfolding unique_from
given [] values x h = inl h
given (item ∷ rest) values x h = elim (given rest _ x h) [
  | inr m ↦ inr (inr m)
  | inl m ↦ elim (Bool-cases (item == "" || contains values item)) [
    | inl t ↦ inl (rw t at m)
    | inr f ↦ elim (In-append x values (item ∷ []) (rw f at m)) [
      | inl k ↦ inl k
      | inr (inl e) ↦ inr (inl e)
      | inr (inr e) ↦ elim e [ ]
    ]
  ]
]

-- The prompts that are kept are the given ones that are not empty, each of them once.
pub unique_tool_prompts-IsUnique :
    (prompts : List String)
    → IsUnique (unique_tool_prompts prompts)
      × ((x : String) → In x prompts → x ≢ "" → In x (unique_tool_prompts prompts))
      × ((x : String) → In x (unique_tool_prompts prompts) → In x prompts)
unfolding unique_tool_prompts
unique_tool_prompts-IsUnique prompts = (
  unique_from-IsUnique prompts [] tt,
  λ x m n. found prompts [] x n m,
  λ x m. elim (given prompts [] x m) [ inl e ↦ elim e [ ] | inr k ↦ k ],
)
