-- ===== src/Auth/Whitelist.antt =====
-- `matchWhiteList`: what makes an operation public.
use text.Mathlib.TextBridge.{IsPrefix}
use text.Mathlib.TextEquality.{starts_with_iff}
use kratos_core.Prelude.{
  String, ◌≡◌, refl, sym, ◌↔◌, inl, inr, true, Option, none, some, List, [], ◌∷◌, arith, In,
  Bool-cases,
}
use kratos_core.Prelude.Eq.{==_iff, string_eq, contains, contains-In, In-contains}
use kratos_core.Prelude.Text.{has_prefix}
use kratos_core.Auth.{WhiteList, Regexp, any_prefix, whole_match, any_regex, match_white_list}

-- Why an operation is on the list.
pub data Listed (find : Regexp) (w : WhiteList) (operation : String) : Type 0 where
  by_prefix : (p : String) → In p w.prefixes → IsPrefix p operation → Listed find w operation
  by_regex :
      (r : String) → In r w.regexes → find r operation ≡ some operation → Listed find w operation
  by_path : In operation w.paths → Listed find w operation
  by_match : In operation w.matches → Listed find w operation

any_prefix-In :
    (ps : List String) (operation : String)
    → any_prefix ps operation ≡ true
    → (p : String) × In p ps × (has_prefix operation p ≡ true)
unfolding any_prefix
any_prefix-In [] operation h = absurd cc
any_prefix-In (p ∷ rest) operation h = elim (Bool-cases (has_prefix operation p)) [
  | inl b ↦ (p, inl refl, b)
  | inr b ↦ let (q, i, c) = any_prefix-In rest operation (rw b at h) in (q, inr i, c)
]

In-any_prefix :
    (ps : List String) (operation p : String)
    → In p ps
    → has_prefix operation p ≡ true
    → any_prefix ps operation ≡ true
unfolding any_prefix
In-any_prefix [] operation p i h = elim i [ ]
In-any_prefix (q ∷ rest) operation p (inl e) h =
    let b : has_prefix operation q ≡ true = rw (sym e) h in rw b refl
In-any_prefix (q ∷ rest) operation p (inr i) h = ground (arith, In-any_prefix rest operation p i h)

whole_match_iff :
    (o : Option String) (operation : String)
    → (whole_match o operation ≡ true) ↔ (o ≡ some operation)
whole_match_iff none operation = (λ h. absurd cc, λ h. absurd cc)
whole_match_iff (some s) operation =
    (λ h. ground (arith, ==_iff s operation, h), λ h. (==_iff s operation).1 cc)

any_regex-In :
    (find : Regexp) (rs : List String) (operation : String)
    → any_regex find rs operation ≡ true
    → (r : String) × In r rs × (find r operation ≡ some operation)
unfolding any_regex
any_regex-In find [] operation h = absurd cc
any_regex-In find (r ∷ rest) operation h =
    elim (Bool-cases (whole_match (find r operation) operation)) [
      | inl b ↦ (r, inl refl, (whole_match_iff (find r operation) operation).0 b)
      | inr b ↦ let (q, i, c) = any_regex-In find rest operation (rw b at h) in (q, inr i, c)
    ]

In-any_regex :
    (find : Regexp) (rs : List String) (operation r : String)
    → In r rs
    → find r operation ≡ some operation
    → any_regex find rs operation ≡ true
unfolding any_regex
In-any_regex find [] operation r i h = elim i [ ]
In-any_regex find (q ∷ rest) operation r (inl e) h =
    let b : whole_match (find q operation) operation ≡ true =
      (whole_match_iff (find q operation) operation).1 (rw (sym e) h) in
    rw b refl
In-any_regex find (q ∷ rest) operation r (inr i) h =
    ground (arith, In-any_regex find rest operation r i h)

-- An operation is public exactly if it has a listed prefix, is the first match of a listed
-- expression that compiles, or stands on the list of paths or of exact names.
pub match_white_list-Listed :
    (find : Regexp) (w : WhiteList) (operation : String)
    → (match_white_list find (some w) operation ≡ true) ↔ Listed find w operation
unfolding match_white_list
match_white_list-Listed find w operation = (
  λ h. elim (Bool-cases (any_prefix w.prefixes operation)) [
    | inl a ↦
        let (p, i, e) = any_prefix-In w.prefixes operation a in
        by_prefix p i ((starts_with_iff operation p).0 e)
    | inr a ↦ elim (Bool-cases (any_regex find w.regexes operation)) [
      | inl b ↦ let (r, i, e) = any_regex-In find w.regexes operation b in by_regex r i e
      | inr b ↦ elim (Bool-cases (contains w.paths operation)) [
        | inl c ↦ by_path (contains-In w.paths operation c)
        | inr c ↦ by_match (contains-In w.matches operation (rw (a, b, c) at h))
      ]
    ]
  ],
  λ x. elim x [
    | by_prefix p i e ↦
        let a = In-any_prefix w.prefixes operation p i ((starts_with_iff operation p).1 e) in
        rw a refl
    | by_regex r i e ↦ ground (arith, In-any_regex find w.regexes operation r i e)
    | by_path i ↦ ground (arith, In-contains w.paths operation i)
    | by_match i ↦ ground (arith, In-contains w.matches operation i)
  ],
)
