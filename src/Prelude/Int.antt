-- ===== src/Prelude/Int.antt =====
-- The signed integers of Go: `int64` values as ℤ, and the conversion to `int32`, which wraps.
use Prim.Native.Nat.{ℕ, ◌-◌, ◌%◌, ◌^◌, ◌<◌}
use mathlib.Core.Path.{◌≡◌}
use mathlib.Core.Logic.{◌↔◌}
use mathlib.Core.Bool.{Bool, true, false}
use native.Mathlib.Omega.{arith}
use kratos_core.Prelude.Tests.{ltb, nat_beq, if◌then◌else◌}

-- `negsuc n` is -(n + 1).
pub data ℤ : Type 0 where
  pos : ℕ → ℤ
  negsuc : ℕ → ℤ

abbrev pub int_beq : ℤ → ℤ → Bool
int_beq (pos a) (pos b) = nat_beq a b
int_beq (negsuc a) (negsuc b) = nat_beq a b
int_beq _ _ = false

pub int_beq_iff : (a b : ℤ) → (int_beq a b ≡ true) ↔ (a ≡ b)
int_beq_iff (pos a) (pos b) = ground arith
int_beq_iff (negsuc a) (negsuc b) = ground arith
int_beq_iff (pos a) (negsuc b) = ground arith
int_beq_iff (negsuc a) (pos b) = ground arith

-- x > 0
abbrev pub is_pos : ℤ → Bool
is_pos (pos n) = ltb 0 n
is_pos (negsuc n) = false

-- x < 0
abbrev pub is_neg : ℤ → Bool
is_neg (pos n) = false
is_neg (negsuc n) = true

-- The low 32 bits read as a signed number.
abbrev pub of_bits_32 : ℕ → ℤ
of_bits_32 b = if ltb b (2 ^ 31) then pos b else negsuc (2 ^ 32 - 1 - b)

-- int32(x)
unfoldable pub to_i32 : ℤ → ℤ
to_i32 (pos n) = of_bits_32 (n % 2 ^ 32)
to_i32 (negsuc n) = of_bits_32 (2 ^ 32 - 1 - n % 2 ^ 32)

-- The values of the type `int32`.
abbrev pub IsI32 : ℤ → Type 0
IsI32 (pos n) = n < 2 ^ 31
IsI32 (negsuc n) = n < 2 ^ 31

pub to_i32-id : (x : ℤ) → IsI32 x → to_i32 x ≡ x
unfolding to_i32
to_i32-id (pos n) h = ground arith
to_i32-id (negsuc n) h = ground arith

pub to_i32-IsI32 : (x : ℤ) → IsI32 (to_i32 x)
unfolding to_i32
to_i32-IsI32 (pos n) = ground arith
to_i32-IsI32 (negsuc n) = ground arith
