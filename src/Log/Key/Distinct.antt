-- ===== src/Log/Key/Distinct.antt =====
-- The keys of queue messages that have the form of a stamp, and the key of none.
use kratos_core.Prelude.{
  ℕ, ◌+◌, ◌*◌, ◌^◌, ◌<◌, ◌≡◌, refl, Option, none, some, [], ◌∷◌, arith, Option-cases, inl, inr, ◌↔◌,
}
use kratos_core.Log.Key.Bits.{bit_or_shifted}
use kratos_core.Log.Key.{
  Bytes, cut_dash, parse_nonneg, packed_key, sequenced_key, hashed_key, log_message_primary_key,
}

-- A message identifier of the form `timestamp-sequence`, with both numbers in range.
pub record IsStamp (id : Bytes) (t q : ℕ) : Type 0 where
  pub timestamp : Bytes
  pub sequence : Bytes
  pub cuts : cut_dash id ≡ some (timestamp, sequence)
  pub time : parse_nonneg timestamp ≡ some t
  pub order : parse_nonneg sequence ≡ some q
  pub positive : 0 < t
  pub time_bound : t < 2 ^ 43
  pub order_bound : q < 2 ^ 20

-- The key of such an identifier has the timestamp above the sequence number.
stamp_key : (id : Bytes) (t q : ℕ) → IsStamp id t q → log_message_primary_key id ≡ t * 2 ^ 20 + q
unfolding log_message_primary_key sequenced_key
stamp_key [] t q h = absurd (let c = h.cuts in unfold cut_dash in ground (arith, c))
stamp_key (c ∷ s) t q h = ground (
  arith,
  h.cuts,
  h.time,
  h.order,
  h.positive,
  h.time_bound,
  h.order_bound,
  bit_or_shifted 20 t q h.order_bound,
)

-- Identifiers of the form timestamp-sequence, with both numbers in range, have different keys if
-- their times or their sequence numbers differ.
pub stamp_key-injective :
    (id id' : Bytes) (t q t' q' : ℕ)
    → IsStamp id t q
    → IsStamp id' t' q'
    → log_message_primary_key id ≡ log_message_primary_key id'
    → (t ≡ t') × (q ≡ q')
stamp_key-injective id id' t q t' q' h h' e =
    omega (arith, e, stamp_key id t q h, stamp_key id' t' q' h', h.order_bound, h'.order_bound)

packed_key-pos : (a b : Option ℕ) (k : ℕ) → packed_key a b ≡ some k → 0 < k
unfolding packed_key
packed_key-pos none b k h = ground (arith, h)
packed_key-pos (some t) none k h = ground (arith, h)
packed_key-pos (some t) (some q) k h = ground (arith, h, bit_or_shifted 20 t q)

sequenced_key-pos : (o : Option (Bytes × Bytes)) (k : ℕ) → sequenced_key o ≡ some k → 0 < k
unfolding sequenced_key
sequenced_key-pos none k h = ground (arith, h)
sequenced_key-pos (some (a, b)) k h = packed_key-pos (parse_nonneg a) (parse_nonneg b) k h

-- Only the empty identifier has the key 0, which marks a record without a key of its own.
pub key-eq-zero_iff : (id : Bytes) → log_message_primary_key id ≡ 0 ↔ id ≡ []
unfolding log_message_primary_key hashed_key
key-eq-zero_iff [] = (λ h. refl, λ h. refl)
key-eq-zero_iff (c ∷ s) = (
  λ h. absurd (elim (Option-cases (sequenced_key (cut_dash (c ∷ s)))) [
    | inl p ↦ ground (arith, h, p)
    | inr (k, p) ↦ ground (arith, h, p, sequenced_key-pos (cut_dash (c ∷ s)) k p)
  ]),
  λ h. cc,
)
