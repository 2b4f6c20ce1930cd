-- ===== src/Prelude/Eq.antt =====
-- Go's `==` on the comparable types of the program, and maps keyed by them.
use Prim.Native.Nat.{ℕ}
use Prim.Native.String.{String}
use mathlib.Core.Path.{◌≡◌, refl}
use mathlib.Core.Logic.{◌↔◌, inl, inr}
use mathlib.Core.Bool.{Bool, true, false, ◌||◌}
use mathlib.Core.Option.{Option, none, some}
use mathlib.Core.List.{List, [], ◌∷◌}
use native.Mathlib.Omega.{arith}
use text.Mathlib.Text.{◌==◌ as str_beq}
use text.Mathlib.TextEquality.{eq_iff}
use kratos_core.Prelude.Tests.{nat_beq, nat_beq_iff, Bool-cases, if◌then◌else◌}
use kratos_core.Prelude.Int.{ℤ, int_beq, int_beq_iff}
use kratos_core.Prelude.Lists.{In}

-- The types that Go's `==` takes, with the test and what it decides.
infix 50 ◌==◌
pub record Eq {ℓ} (K : Type ℓ) : Type ℓ where
  pub equal : K → K → Bool
  pub decides : (x y : K) → (equal x y ≡ true) ↔ (x ≡ y)

instance abbrev pub int_eq : Eq ℤ
int_eq = record { equal = int_beq; decides = int_beq_iff }

abbrev pub ◌==◌ {ℓ} : {K : Type ℓ} ⦃e : Eq K⦄ → K → K → Bool
◌==◌ ⦃e⦄ x y = e.equal x y

instance abbrev pub nat_eq : Eq ℕ
nat_eq = record { decides = nat_beq_iff; equal = nat_beq }

pub ==_iff {ℓ} : {K : Type ℓ} ⦃e : Eq K⦄ (x y : K) → ((x == y) ≡ true) ↔ (x ≡ y)
==_iff ⦃e⦄ x y = e.decides x y

instance abbrev pub string_eq : Eq String
string_eq = record { decides = eq_iff; equal = str_beq }

module _ {ℓ κ} {K : Type ℓ} {V : Type κ} ⦃e : Eq K⦄ where
  -- m[k], with the second result of Go's form
  unfoldable pub lookup : K → List (K × V) → Option V
  lookup k [] = none
  lookup k ((j, v) ∷ m) = if j == k then some v else lookup k m

  -- m[k] = v; the order of a Go map is not observed, so the new pair stands in front
  unfoldable pub insert : K → V → List (K × V) → List (K × V)
  insert k v m = (k, v) ∷ m

  pub lookup-insert :
      (k j : K) (v : V) (m : List (K × V))
      → lookup j (insert k v m) ≡ (if k == j then some v else lookup j m)
  unfolding lookup insert
  lookup-insert k j v m = refl

module _ {A : Type 0} ⦃e : Eq A⦄ where
  -- slices.Contains(xs, a)
  unfoldable pub contains : List A → A → Bool
  contains [] a = false
  contains (x ∷ xs) a = x == a || contains xs a

  pub contains-In : (xs : List A) (a : A) → contains xs a ≡ true → In a xs
  unfolding contains
  contains-In [] a h = ground arith
  contains-In (x ∷ xs) a h = elim (Bool-cases (x == a)) [
    | inl p ↦ inl (ground (arith, e.decides x a))
    | inr p ↦ inr (contains-In xs a (ground arith))
  ]

  pub In-contains : (xs : List A) (a : A) → In a xs → contains xs a ≡ true
  unfolding contains
  In-contains [] a h = elim h [ ]
  In-contains (x ∷ xs) a (inl p) = ground (arith, e.decides x a)
  In-contains (x ∷ xs) a (inr p) = ground (arith, In-contains xs a p)

  -- Every element that equals `a` is taken out.
  unfoldable pub remove : A → List A → List A
  remove a [] = []
  remove a (x ∷ xs) = let rest = remove a xs in if x == a then rest else x ∷ rest

  pub contains-remove :
      (a b : A) (xs : List A) → contains (remove a xs) b ≡ (if a == b then false else contains xs b)
  unfolding contains remove
  contains-remove a b [] = ground arith
  contains-remove a b (x ∷ xs) =
      ground (arith, contains-remove a b xs, e.decides x a, e.decides x b, e.decides a b)

  pub remove_absent : (a : A) (xs : List A) → contains xs a ≡ false → remove a xs ≡ xs
  unfolding contains remove
  remove_absent a [] h = refl
  remove_absent a (x ∷ xs) h = ground (arith, remove_absent a xs)
