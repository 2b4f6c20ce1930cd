-- ===== src/Prelude/Sort.antt =====
-- Go's `sort.Strings`, and `sort.Slice` by a text, as an insertion sort.
use Prim.Native.Nat.{Ordering}
use Prim.Native.String.{String, compare}
use mathlib.Core.Path.{◌≡◌, refl}
use mathlib.Core.Logic.{◌⊎◌, inl, inr}
use mathlib.Core.Bool.{Bool, true, false}
use mathlib.Core.List.{List, [], ◌∷◌}
use kratos_core.Prelude.Tests.{if◌then◌else◌, Bool-cases}
use kratos_core.Prelude.Lists.{In}

-- Go's `<` on texts: UTF-8 keeps the order of the code points.
unfoldable pub less : String → String → Bool
less a b = elim (compare a b) [ Ordering.lt ↦ true | _ ↦ false ]

module _ {A : Type 0} (precedes : A → A → Bool) where
  unfoldable pub insert_by : A → List A → List A
  insert_by a [] = a ∷ []
  insert_by a (b ∷ l) = let rest = insert_by a l in if precedes b a then b ∷ rest else a ∷ b ∷ l

  unfoldable pub sort_by : List A → List A
  unfolding insert_by
  sort_by [] = []
  sort_by (a ∷ l) = insert_by a (sort_by l)

  In-insert_by : (x a : A) (l : List A) → In x (insert_by a l) → (x ≡ a) ⊎ In x l
  unfolding insert_by
  In-insert_by x a [] (inl e) = inl e
  In-insert_by x a [] (inr h) = elim h [ ]
  In-insert_by x a (b ∷ l) h = elim (Bool-cases (precedes b a)) [
    | inl p ↦ elim (rw p at h) [
      | inl e ↦ inr (inl e)
      | inr m ↦ elim (In-insert_by x a l m) [ inl e ↦ inl e | inr k ↦ inr (inr k) ]
    ]
    | inr p ↦ elim (rw p at h) [ inl e ↦ inl e | inr m ↦ inr m ]
  ]

  insert_by-In : (x a : A) (l : List A) → (x ≡ a) ⊎ In x l → In x (insert_by a l)
  unfolding insert_by
  insert_by-In x a [] (inl e) = inl e
  insert_by-In x a [] (inr h) = elim h [ ]
  insert_by-In x a (b ∷ l) h = elim (Bool-cases (precedes b a)) [
    | inr p ↦ rw p (elim h [ inl e ↦ inl e | inr m ↦ inr m ])
    | inl p ↦ rw p (elim h [
      | inl e ↦ inr (insert_by-In x a l (inl e))
      | inr (inl e) ↦ inl e
      | inr (inr m) ↦ inr (insert_by-In x a l (inr m))
    ])
  ]

  -- Sorting keeps the elements.
  pub In-sort_by : (x : A) (l : List A) → In x (sort_by l) → In x l
  unfolding sort_by
  In-sort_by x [] h = h
  In-sort_by x (a ∷ l) h = elim (In-insert_by x a (sort_by l) h) [
    | inl e ↦ inl e
    | inr m ↦ inr (In-sort_by x l m)
  ]

  pub sort_by-In : (x : A) (l : List A) → In x l → In x (sort_by l)
  unfolding sort_by
  sort_by-In x [] h = h
  sort_by-In x (a ∷ l) (inl e) = insert_by-In x a (sort_by l) (inl e)
  sort_by-In x (a ∷ l) (inr m) = insert_by-In x a (sort_by l) (inr (sort_by-In x l m))

sort_test : sort_by less ("b" ∷ "a" ∷ "ab" ∷ []) ≡ "a" ∷ "ab" ∷ "b" ∷ []
unfolding sort_by less
sort_test = refl
