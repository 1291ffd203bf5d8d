-- ===== src/Field/Fp128/Log.antt =====
-- src/fp.rs: `log2` rounds up.
use native.Mathlib.Nat.{pow-suc}
use mastic.Prelude.{
  ℕ, zero, suc, ◌+◌, ◌-◌, ◌^◌, ◌≤◌, ◌<◌, ◌≡◌, refl, subst, arith, ltb, Bool-cases, inl, inr, ok,
  le→ltb_false, ltb→lt,
}
use mastic.Field.Words.{leading_zeros, as_int}
use mastic.Field.Montgomery.Powers.{leading_zeros_lem}
use mastic.Field.Fp128.{log2}

-- The top bit of a positive word is the one below its leading zeros.
top_bit :
    (w x : ℕ) → 0 < x → x < 2 ^ w → (leading_zeros w x < w) × (2 ^ (w - 1 - leading_zeros w x) ≤ x)
unfolding leading_zeros
top_bit zero x h k = absurd (omega arith)
top_bit (suc w) x h k = elim (Bool-cases (ltb x (2 ^ w))) [
  | inl below ↦ rw below (lift (top_bit w x h (ground arith)))
  | inr above ↦ rw above (omega arith, subst (λ (t : ℕ). 2 ^ t ≤ x) same (ground arith))
]
  where
    same : w ≡ suc w - 1 - 0
    same = omega arith

    lift :
        (leading_zeros w x < w) × (2 ^ (w - 1 - leading_zeros w x) ≤ x)
        → (suc (leading_zeros w x) < suc w) × (2 ^ (suc w - 1 - suc (leading_zeros w x)) ≤ x)
    lift (lt, le) = (omega arith, subst (λ (t : ℕ). 2 ^ t ≤ x) (omega arith) le)

-- The result is the least exponent whose power of 2 is not below the number.
pub log2_ceil :
    (x : ℕ) → 0 < x → x < 2 ^ 128 → (n : ℕ) × (log2 x ≡ ok n) × (x ≤ 2 ^ n) × (2 ^ n < x + x)
unfolding log2
log2_ceil x h k =
    let (zeros, low) = top_bit 128 x h k in
    let y = 127 - leading_zeros 128 x in
    let bits : 128 - leading_zeros 128 x ≡ suc y = omega arith in
    let high : x < 2 ^ suc y = subst (λ (t : ℕ). x < 2 ^ t) bits (leading_zeros_lem 128 x k) in
    let (above, below) = rounded y low high in
    (
      y + as_int (ltb (2 ^ y) x),
      rw (le→ltb_false 127 (leading_zeros 128 x) (omega arith)) refl,
      above,
      below,
    )
  where
    rounded :
        (y : ℕ)
        → 2 ^ y ≤ x
        → x < 2 ^ suc y
        → (x ≤ 2 ^ (y + as_int (ltb (2 ^ y) x))) × (2 ^ (y + as_int (ltb (2 ^ y) x)) < x + x)
    rounded y low high = elim (Bool-cases (ltb (2 ^ y) x)) [
      | inl above ↦ rw above (
          let next : y + 1 ≡ suc y = omega arith in
          rw next (omega arith, omega (arith, pow-suc 2 y, ltb→lt (2 ^ y) x above)))
      | inr exact ↦
          rw exact (let same : y + 0 ≡ y = omega arith in rw same (ground arith, omega arith))
    ]
