-- ===== src/ApiResource/Packages/Settled.antt =====
-- The package of a service, and the evidence for it in the document.
use kratos_core.Prelude.{
  String, ◌≡◌, refl, sym, ap, ◌∙◌, Bool, true, false, ◌||◌, Option, none, some, List, [], ◌∷◌,
  arith, Bool-cases, inl, inr, if◌then◌else◌,
}
use kratos_core.Prelude.Eq.{◌==◌, ==_iff, string_eq, lookup, lookup-insert}
use kratos_core.Prelude.Text.{before, after}
use kratos_core.ApiResource.Packages.{
  Sets, set_of, or_empty, Evidence, single, insert_some, settle_candidates, is_empty, fallback,
  fallback_of, settle_fallbacks, settle,
}

abbrev has_key : String → Sets → Bool
has_key j [] = false
has_key j ((k, s) ∷ rest) = k == j || has_key j rest

abbrev pub or_else : Option String → Option String → Option String
or_else none o = o
or_else (some p) o = some p

lookup-insert_some :
    (k j : String) (o : Option String) (m : List (String × String))
    → lookup j (insert_some k o m) ≡ (if k == j then or_else o (lookup k m) else lookup j m)
lookup-insert_some k j none m = elim (Bool-cases (k == j)) [
  | inl t ↦ rw t (ap (λ x. lookup x m) (sym (ground (arith, t, ==_iff k j))))
  | inr f ↦ rw f refl
]
lookup-insert_some k j (some p) m = lookup-insert k j p m

or_else_twice : (a b : Option String) → or_else a (or_else a b) ≡ or_else a b
or_else_twice none b = refl
or_else_twice (some p) b = refl

-- Both loops: each key gets what a rule gives for it.
abbrev loop : (String → Option String) → Sets → List (String × String) → List (String × String)
loop rule [] m = m
loop rule ((k, old) ∷ rest) m = loop rule rest (insert_some k (rule k) m)

lookup-loop :
    (rule : String → Option String) (keys : Sets) (j : String) (m : List (String × String))
    → lookup j (loop rule keys m)
      ≡ (if has_key j keys then or_else (rule j) (lookup j m) else lookup j m)
lookup-loop rule [] j m = refl
lookup-loop rule ((k, old) ∷ rest) j m =
    lookup-loop rule rest j (insert_some k (rule k) m)
    ∙ ap (λ x. if has_key j rest then or_else (rule j) x else x) (lookup-insert_some k j (rule k) m)
    ∙ by_key (k == j) refl
  where
    by_key :
        (b : Bool)
        → (k == j) ≡ b
        → (if has_key j rest
            then or_else (rule j) (if b then or_else (rule k) (lookup k m) else lookup j m)
            else (if b then or_else (rule k) (lookup k m) else lookup j m))
          ≡ (if b || has_key j rest then or_else (rule j) (lookup j m) else lookup j m)
    by_key false h = refl
    by_key true h =
        let same : k ≡ j = ground (arith, h, ==_iff k j) in
        ap
          (λ x.
            if has_key j rest
            then or_else (rule j) (or_else (rule x) (lookup x m))
            else or_else (rule x) (lookup x m))
          same
        ∙ elim (Bool-cases (has_key j rest)) [
          | inl t ↦ rw t (or_else_twice (rule j) (lookup j m))
          | inr f ↦ rw f refl
        ]

settle_candidates-loop :
    (keys sets : Sets) (m : List (String × String))
    → settle_candidates keys sets m ≡ loop (λ k. single (set_of k sets)) keys m
unfolding settle_candidates
settle_candidates-loop [] sets m = refl
settle_candidates-loop ((k, old) ∷ rest) sets m = settle_candidates-loop rest sets _

settle_fallbacks-loop :
    (keys sets terminals : Sets) (m : List (String × String))
    → settle_fallbacks keys sets terminals m ≡ loop (λ k. fallback_of k sets terminals) keys m
unfolding settle_fallbacks
settle_fallbacks-loop [] sets terminals m = refl
settle_fallbacks-loop ((k, old) ∷ rest) sets terminals m =
    settle_fallbacks-loop rest sets terminals _

-- The element of a set with exactly one.
abbrev pub only : List String → Option String
only [] = none
only (p ∷ []) = some p
only (p ∷ q ∷ rest) = none

-- The only package of a terminal, where the key of the service names one.
abbrev pub of_terminal : String → Sets → Option String → Option String
of_terminal k terminals none = none
of_terminal k terminals (some tag) = only (set_of (before 0 k) terminals)

only-single : (set : List String) → single set ≡ only set
only-single [] = refl
only-single (p ∷ []) = refl
only-single (p ∷ q ∷ rest) = refl

fallback-of_terminal :
    (k : String) (terminals : Sets) (tag : Option String)
    → fallback k terminals tag ≡ of_terminal k terminals tag
fallback-of_terminal k terminals none = refl
fallback-of_terminal k terminals (some tag) = only-single (set_of (before 0 k) terminals)

-- The package of a service by its candidates.
abbrev pub by_rule : String → Sets → Option (List String) → Option String
by_rule k terminals none = none
by_rule k terminals (some []) = of_terminal k terminals (after 0 k)
by_rule k terminals (some (p ∷ [])) = some p
by_rule k terminals (some (p ∷ q ∷ rest)) = none

abbrev is_some : Option (List String) → Bool
is_some none = false
is_some (some set) = true

has_key-lookup : (j : String) (m : Sets) → has_key j m ≡ is_some (lookup j m)
unfolding lookup
has_key-lookup j [] = refl
has_key-lookup j ((k, set) ∷ rest) = elim (Bool-cases (k == j)) [
  | inl t ↦ rw t refl
  | inr f ↦ rw f (has_key-lookup j rest)
]

or_else-none : (o : Option String) → or_else o none ≡ o
or_else-none none = refl
or_else-none (some p) = refl

-- Both loops at a key with this entry.
abbrev looped : String → Sets → Option (List String) → Bool → Option String
looped k terminals o b =
    let first = if b then or_else (single (or_empty o)) none else none in
    if b
    then or_else (if is_empty (or_empty o) then fallback k terminals (after 0 k) else none) first
    else first

looped-by_rule :
    (k : String) (terminals : Sets) (o : Option (List String))
    → looped k terminals o (is_some o) ≡ by_rule k terminals o
looped-by_rule k terminals none = refl
looped-by_rule k terminals (some []) = or_else-none _ ∙ fallback-of_terminal k terminals (after 0 k)
looped-by_rule k terminals (some (p ∷ [])) = refl
looped-by_rule k terminals (some (p ∷ q ∷ rest)) = refl

-- The package of a service is its only candidate; without a candidate, it is the only package of
-- its terminal; otherwise the service has none.
pub settle-by_rule :
    (e : Evidence) (k : String)
    → lookup k (settle e) ≡ by_rule k e.packages_by_terminal (lookup k e.candidates_by_service)
unfolding settle lookup
settle-by_rule e k =
    let sets = e.candidates_by_service in
    let terminals = e.packages_by_terminal in
    ap (lookup k) (
      settle_fallbacks-loop sets sets terminals _
      ∙ ap (loop (λ j. fallback_of j sets terminals) sets) (settle_candidates-loop sets sets []))
    ∙ lookup-loop (λ j. fallback_of j sets terminals) sets k _
    ∙ ap (λ x. if has_key k sets then or_else (fallback_of k sets terminals) x else x)
        (lookup-loop (λ j. single (set_of j sets)) sets k [])
    ∙ ap (looped k terminals (lookup k sets)) (has_key-lookup k sets)
    ∙ looped-by_rule k terminals (lookup k sets)
