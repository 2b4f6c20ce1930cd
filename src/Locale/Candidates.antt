-- ===== src/Locale/Candidates.antt =====
-- The candidates of a language text, and the order of its preferences.
use kratos_core.Prelude.{
  String, ◌≢◌, sym, inl, inr, List, [], ◌∷◌, ◌++◌, In, In-append, arith, Bool-cases,
}
use kratos_core.Prelude.Eq.{◌==◌, ==_iff, string_eq, contains, In-contains}
use kratos_core.Locale.{
  Parsers, Preference, parents, append_candidate, append_all, add_preferences, parse_preferences,
  candidates,
}

-- Each element once, and none of them empty.
abbrev pub IsDistinct : List String → Type 0
IsDistinct [] = Unit
IsDistinct (x ∷ xs) = (In x xs → ⊥) × (x ≢ "") × IsDistinct xs

IsDistinct-snoc :
    (xs : List String) (a : String)
    → IsDistinct xs
    → (In a xs → ⊥)
    → a ≢ ""
    → IsDistinct (xs ++ a ∷ [])
IsDistinct-snoc [] a d h e = ((λ p. p), e, tt)
IsDistinct-snoc (x ∷ xs) a (n, m, d) h e = (
  λ p. elim (In-append x xs (a ∷ []) p) [
    | inl q ↦ n q
    | inr (inl q) ↦ h (inl (sym q))
    | inr (inr q) ↦ q
  ],
  m,
  IsDistinct-snoc xs a d (λ p. h (inr p)) e,
)

append_candidate-IsDistinct :
    (result : List String) (value : String)
    → IsDistinct result
    → IsDistinct (append_candidate result value)
unfolding append_candidate
append_candidate-IsDistinct result value d = elim (Bool-cases (value == "")) [
  | inl e ↦ rw e d
  | inr e ↦ elim (Bool-cases (contains result value)) [
    | inl c ↦ rw (e, c) d
    | inr c ↦
        rw (e, c)
          (IsDistinct-snoc result value d (λ p. ground (arith, c, In-contains result value p))
            (λ p. ground (arith, e, p, ==_iff value "")))
  ]
]

append_all-IsDistinct :
    (values result : List String) → IsDistinct result → IsDistinct (append_all result values)
unfolding append_all
append_all-IsDistinct [] result d = d
append_all-IsDistinct (v ∷ values) result d =
    append_all-IsDistinct values _ (append_candidate-IsDistinct result v d)

add_preferences-IsDistinct :
    (l : List Preference) (result : List String)
    → IsDistinct result
    → IsDistinct (add_preferences result l)
unfolding add_preferences
add_preferences-IsDistinct [] result d = d
add_preferences-IsDistinct (a ∷ l) result d =
    add_preferences-IsDistinct l _ (append_all-IsDistinct (a.locale ∷ parents "" a.locale) result d)

-- The candidates are not empty texts, and none comes twice.
pub candidates-IsDistinct : (p : Parsers) (value : String) → IsDistinct (candidates p value)
unfolding candidates
candidates-IsDistinct p value = add_preferences-IsDistinct (parse_preferences p value) [] tt
