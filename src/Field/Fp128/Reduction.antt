-- ===== src/Field/Fp128/Reduction.antt =====
-- src/fp.rs: the Montgomery reduction of `mul`.
use Prim.Native.Nat.{bit_or}
use native.Mathlib.Nat.{mul-le-mul}
use mastic.Prelude.{
  ℕ, ◌+◌, ◌-◌, ◌*◌, ◌/◌, ◌%◌, ◌^◌, ◌≤◌, ◌<◌, ◌≡◌, ap, sym, subst, arith, ltb, if◌then◌else◌,
}
use mastic.Field.Words.{lo64, hi64}
use mastic.Field.Words.Bits.{bit_or_above}
use mastic.Field.Words.Select.{final_subtraction, final_subtraction_lem}
use mastic.Field.Congruence.{Cong}
use mastic.Field.Montgomery.{redc_low, reduced_lem}
use mastic.Field.Fp128.{
  FieldParameters, mul, integer_multiplication, reduce_first, reduce_second, subtract_final,
}
use mastic.Field.Fp128.Limbs.{lo64_lem}
use mastic.Field.Fp128.Rows.{
  value3, value4, Limbs, integer_multiplication_lem, reduce_first_lem, reduce_second_lem,
}

-- What the arithmetic relies on. A modulus above 2 ^ 128 - 2 ^ 64 could lose a carry of `mul`.
pub record IsValid (fp : FieldParameters) : Type 0 where
  pub one_lt : 1 < fp.p
  pub p-le : fp.p + 2 ^ 64 ≤ 2 ^ 128
  pub mu_lem : (fp.p * fp.mu + 1) % 2 ^ 64 ≡ 0
  pub r2_lem : fp.r2 ≡ 2 ^ 128 * 2 ^ 128 % fp.p

subtract_final_lem :
    (p : ℕ) (z : ℕ × ℕ × ℕ)
    → p < 2 ^ 128
    → z.0 < 2 ^ 64
    → z.1 < 2 ^ 64
    → value3 z < p + p
    → subtract_final p z ≡ (if ltb (value3 z) p then value3 z else value3 z - p)
unfolding subtract_final final_subtraction
subtract_final_lem p (z0, z1, c) hp h0 h1 h =
    let word : bit_or z0 (z1 * 2 ^ 64) ≡ z0 + z1 * 2 ^ 64 = bit_or_above 64 z0 z1 h0 in
    let whole : c * 2 ^ 128 + (z0 + z1 * 2 ^ 64) ≡ value3 (z0, z1, c) = omega arith in
    subst
      (λ (t : ℕ).
        final_subtraction 128 p c t
        ≡ (if ltb (value3 (z0, z1, c)) p then value3 (z0, z1, c) else value3 (z0, z1, c) - p))
      (sym word)
      (subst
        (λ (t : ℕ). final_subtraction 128 p c (z0 + z1 * 2 ^ 64) ≡ (if ltb t p then t else t - p))
        whole (final_subtraction_lem 128 p c (z0 + z1 * 2 ^ 64) hp (omega arith) (omega arith)))

module _ {fp : FieldParameters} (valid : IsValid fp) (x y : ℕ) (hx : x < 2 ^ 128)
    (hy : y < fp.p) where
  abbrev product : ℕ × ℕ × ℕ × ℕ
  product = integer_multiplication x y

  abbrev w0 : ℕ
  w0 = fp.mu * product.0 % 2 ^ 64

  abbrev first : ℕ × ℕ × ℕ × ℕ
  first = reduce_first (lo64 fp.p) (hi64 fp.p) w0 product

  abbrev w1 : ℕ
  w1 = fp.mu * first.1 % 2 ^ 64

  abbrev second : ℕ × ℕ × ℕ
  second = reduce_second (lo64 fp.p) (hi64 fp.p) w1 (first.1, first.2, first.3)

  modulus : lo64 fp.p + hi64 fp.p * 2 ^ 64 ≡ fp.p
  modulus = omega (arith, lo64_lem fp.p)

  product_lem : Limbs product × (value4 product ≡ x * y)
  product_lem = integer_multiplication_lem x y hx (omega (arith, valid.p-le))

  product-le : x * y ≤ (2 ^ 128 - 1) * fp.p
  product-le =
      mul-le-mul {n₁ = x} {m₁ = y} {n₂ = 2 ^ 128 - 1} {m₂ = fp.p} (omega arith) (omega arith)

  multiple-le : (w : ℕ) → w < 2 ^ 64 → fp.p * w ≤ fp.p * (2 ^ 64 - 1)
  multiple-le w hw =
      mul-le-mul {n₁ = fp.p} {m₁ = w} {n₂ = fp.p} {m₂ = 2 ^ 64 - 1} (omega arith) (omega arith)

  first_lem : Limbs first × (value4 first ≡ x * y + fp.p * w0)
  first_lem =
      let fits : value4 product + fp.p * w0 < 2 ^ 256 =
        omega (arith, product_lem.1, product-le, multiple-le w0 (omega arith), valid.p-le) in
      let (limbs, value) =
        reduce_first_lem (lo64 fp.p) (hi64 fp.p) w0 product (omega (arith, lo64_lem fp.p))
          (omega (arith, valid.p-le)) (omega arith) product_lem.0
          (subst (λ (t : ℕ). value4 product + t * w0 < 2 ^ 256) (sym modulus) fits) in
      (limbs, omega (arith, value, product_lem.1, ap (λ (t : ℕ). t * w0) modulus))

  -- A limb and the product that its `w` gives make a multiple of 2 ^ 64.
  vanishes : (limb : ℕ) → (limb + fp.p * (fp.mu * limb % 2 ^ 64)) % 2 ^ 64 ≡ 0
  vanishes limb =
      redc_low fp.p fp.mu ((fp.p * fp.mu + 1) / 2 ^ 64) limb (omega (arith, valid.mu_lem))

  second_lem :
      (second.0 < 2 ^ 64)
      × (second.1 < 2 ^ 64)
      × (value3 second * 2 ^ 128 ≡ x * y + fp.p * (w0 + w1 * 2 ^ 64))
  second_lem =
      let rest : ℕ × ℕ × ℕ = (first.1, first.2, first.3) in
      let low_zero : (value3 rest + fp.p * w1) % 2 ^ 64 ≡ 0 = omega (arith, vanishes first.1) in
      let (low, high, value) =
        reduce_second_lem (lo64 fp.p) (hi64 fp.p) w1 rest (omega (arith, lo64_lem fp.p))
          (omega (arith, valid.p-le)) (omega arith) first_lem.0.1 first_lem.0.2
          (subst (λ (t : ℕ). (value3 rest + t * w1) % 2 ^ 64 ≡ 0) (sym modulus) low_zero) in
      (
        low,
        high,
        omega (
          arith,
          value,
          ap (λ (t : ℕ). t * w1) modulus,
          first_lem.1,
          first_lem.0.0,
          product_lem.1,
          vanishes product.0,
        ),
      )

  -- The product of a word and a reduced word is reduced; times 2 ^ 128, it is the product of
  -- the integers modulo `p`.
  pub mul-Cong_u128 : (mul fp x y < fp.p) × Cong fp.p (mul fp x y * 2 ^ 128) (x * y)
  unfolding mul
  mul-Cong_u128 =
      let fits : value3 second < fp.p + fp.p = omega (
        arith,
        second_lem.2,
        product-le,
        multiple-le w0 (omega arith),
        multiple-le w1 (omega arith),
      ) in
      reduced_lem 128 (w0 + w1 * 2 ^ 64) second_lem.2 fits
        (subtract_final_lem fp.p second (omega (arith, valid.p-le)) second_lem.0 second_lem.1 fits)
