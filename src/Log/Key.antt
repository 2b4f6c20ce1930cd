-- ===== src/Log/Key.antt =====
-- `LogMessagePrimaryKey` of biz/base_log.go: the stable number of a queue message. A string is
-- the list of its bytes, and the result, never negative, is a number below 2 ^ 63.
pub mod Bits
pub mod Distinct
use Prim.Native.Nat.{bit_or, bit_and, bit_xor}
use kratos_core.Prelude.{
  ℕ, zero, suc, ◌+◌, ◌-◌, ◌*◌, ◌/◌, ◌%◌, ◌^◌, Bool, true, false, ◌&&◌, Option, none, some, List, [],
  ◌∷◌, ltb, leb, nat_beq, if◌then◌else◌,
}

abbrev pub message_sequence_bits : ℕ
message_sequence_bits = 20

-- math.MaxInt64
abbrev pub max_int64 : ℕ
max_int64 = 2 ^ 63 - 1

abbrev pub Bytes : Type 0
Bytes = List ℕ

-- strings.SplitN(id, "-", 2), if it has two parts
unfoldable pub cut_dash : Bytes → Option (Bytes × Bytes)
cut_dash [] = none
cut_dash (c ∷ s) =
    let rest : Option (Bytes × Bytes) = elim (cut_dash s) [
      | none ↦ none
      | some (a, b) ↦ some (c ∷ a, b)
    ] in
    if nat_beq c b'-' then some ([], s) else rest

-- The digits of a decimal number, from the value so far.
unfoldable pub digits_value : ℕ → Bytes → Option ℕ
digits_value n [] = some n
digits_value n (c ∷ s) =
    let rest = digits_value (n * 10 + (c - 48)) s in if leb b'0' c && leb c b'9' then rest else none

-- strconv.ParseInt(s, 10, 64) where the result is at least 0; `none` is an error or a negative
-- number, which the callers refuse alike.
in_range : Option ℕ → Option ℕ
in_range none = none
in_range (some n) = if leb n max_int64 then some n else none

unsigned : Bytes → Option ℕ
unfolding in_range digits_value
unsigned [] = none
unsigned (c ∷ s) = in_range (digits_value 0 (c ∷ s))

minus_zero : Option ℕ → Option ℕ
minus_zero (some zero) = some 0
minus_zero _ = none

unfoldable pub parse_nonneg : Bytes → Option ℕ
unfolding unsigned minus_zero
parse_nonneg [] = none
parse_nonneg (c ∷ s) =
    if nat_beq c b'+'
    then unsigned s
    else if nat_beq c b'-'
    then minus_zero (unsigned s)
    else unsigned (c ∷ s)

-- hash/fnv: New64a
fnv_step : ℕ → ℕ → ℕ
fnv_step h c = bit_xor h c * 1099511628211 % 2 ^ 64

unfoldable pub fnv_64a : ℕ → Bytes → ℕ
unfolding fnv_step
fnv_64a h [] = h
fnv_64a h (c ∷ s) = fnv_64a (fnv_step h c) s

abbrev pub fnv_offset : ℕ
fnv_offset = 14695981039346656037

-- `value` of the fallback, which avoids 0
unfoldable pub hashed_key : Bytes → ℕ
hashed_key id =
    let value = bit_and (fnv_64a fnv_offset id) max_int64 in if nat_beq value 0 then 1 else value

-- The key of a timestamp and a sequence number, if both are in range.
packed_key : Option ℕ → Option ℕ → Option ℕ
packed_key (some t) (some q) =
    if ltb 0 t && leb t (max_int64 / 2 ^ message_sequence_bits) && ltb q (2 ^ message_sequence_bits)
    then some (bit_or (t * 2 ^ message_sequence_bits) q)
    else none
packed_key _ _ = none

unfoldable pub sequenced_key : Option (Bytes × Bytes) → Option ℕ
unfolding packed_key
sequenced_key none = none
sequenced_key (some (a, b)) = packed_key (parse_nonneg a) (parse_nonneg b)

abbrev or_else : Option ℕ → ℕ → ℕ
or_else none d = d
or_else (some n) d = n

unfoldable pub log_message_primary_key : Bytes → ℕ
log_message_primary_key [] = 0
log_message_primary_key (c ∷ s) = or_else (sequenced_key (cut_dash (c ∷ s))) (hashed_key (c ∷ s))
