-- ===== src/Field/Fp64/Reduction.antt =====
-- src/fp64.rs: the Montgomery reduction of `mul`.
use native.Mathlib.Nat.{mul-le-mul}
use mastic.Prelude.{
  ℕ, ◌+◌, ◌-◌, ◌*◌, ◌/◌, ◌%◌, ◌^◌, ◌<◌, ◌≡◌, refl, ◌∙◌, arith, ltb, leb, if◌then◌else◌, subst,
}
use mastic.Field.Words.{lo64, as_int}
use mastic.Field.Words.Bits.{bit_and_low}
use mastic.Field.Words.Select.{final_subtraction, final_subtraction_lem}
use mastic.Field.Congruence.{Cong}
use mastic.Field.Montgomery.{redc_low, reduced_lem}
use mastic.Field.Fp64.{FieldParameters64, mul}

lo64_lem : (x : ℕ) → lo64 x ≡ x % 2 ^ 64
lo64_lem x = bit_and_low 64 x

-- The words above the vanished one, with the carry out of it.
redc_high :
    (z r : ℕ)
    → (z % 2 ^ 64 + r) % 2 ^ 64 ≡ 0
    → (z / 2 ^ 64 + r / 2 ^ 64 + as_int (leb (2 ^ 64) (z % 2 ^ 64 + r % 2 ^ 64))) * 2 ^ 64 ≡ z + r
redc_high z r h = ground arith

-- What `mul` computes before its final subtraction.
pub redc : FieldParameters64 → ℕ → ℕ
redc fp z =
    let r = fp.p * (fp.mu * (z % 2 ^ 64) % 2 ^ 64) in
    z / 2 ^ 64 + r / 2 ^ 64 + as_int (leb (2 ^ 64) (z % 2 ^ 64 + r % 2 ^ 64))

pub mul-redc :
    (fp : FieldParameters64) (x y : ℕ)
    → mul fp x y ≡ final_subtraction 64 fp.p (redc fp (x * y) / 2 ^ 64) (redc fp (x * y) % 2 ^ 64)
unfolding mul final_subtraction redc
mul-redc fp x y =
    rw
      (
        lo64_lem (x * y),
        lo64_lem (fp.p * (fp.mu * (x * y % 2 ^ 64) % 2 ^ 64)),
        lo64_lem (redc fp (x * y)),
      )
      refl

-- What the comments on the fields promise, as far as the arithmetic relies on it.
pub record IsValid (fp : FieldParameters64) : Type 0 where
  pub one_lt : 1 < fp.p
  pub p-lt : fp.p < 2 ^ 64
  pub mu_lem : (fp.p * fp.mu + 1) % 2 ^ 64 ≡ 0
  pub r2_lem : fp.r2 ≡ 2 ^ 64 * 2 ^ 64 % fp.p

module _ {fp : FieldParameters64} (valid : IsValid fp) where
  redc_lem : (z : ℕ) → redc fp z * 2 ^ 64 ≡ z + fp.p * (fp.mu * (z % 2 ^ 64) % 2 ^ 64)
  unfolding redc
  redc_lem z =
      redc_high z (fp.p * (fp.mu * (z % 2 ^ 64) % 2 ^ 64)) (
        redc_low fp.p fp.mu ((fp.p * fp.mu + 1) / 2 ^ 64) (z % 2 ^ 64)
          (omega (arith, valid.mu_lem)))

  redc-lt : (x y : ℕ) → x < 2 ^ 64 → y < fp.p → redc fp (x * y) < fp.p + fp.p
  redc-lt x y hx hy = omega (
    arith,
    redc_lem (x * y),
    mul-le-mul {n₁ = x} {m₁ = y} {n₂ = 2 ^ 64 - 1} {m₂ = fp.p} (omega arith) (omega arith),
    mul-le-mul {n₁ = fp.p} {m₁ = fp.mu * (x * y % 2 ^ 64) % 2 ^ 64} {n₂ = fp.p} {m₂ = 2 ^ 64 - 1}
        (omega arith) (omega arith),
  )

  mul_lem :
      (x y : ℕ)
      → x < 2 ^ 64
      → y < fp.p
      → mul fp x y
        ≡ (if ltb (redc fp (x * y)) fp.p then redc fp (x * y) else redc fp (x * y) - fp.p)
  mul_lem x y hx hy =
      subst (λ (t : ℕ). mul fp x y ≡ (if ltb t fp.p then t else t - fp.p)) whole
        (mul-redc fp x y
          ∙ final_subtraction_lem 64 fp.p (redc fp (x * y) / 2 ^ 64) (redc fp (x * y) % 2 ^ 64)
              valid.p-lt (omega arith) (omega (arith, redc-lt x y hx hy)))
    where
      whole : redc fp (x * y) / 2 ^ 64 * 2 ^ 64 + redc fp (x * y) % 2 ^ 64 ≡ redc fp (x * y)
      whole = omega arith

  product :
      (x y : ℕ)
      → x < 2 ^ 64
      → y < fp.p
      → (mul fp x y < fp.p) × Cong fp.p (mul fp x y * 2 ^ 64) (x * y)
  product x y hx hy =
      reduced_lem 64 (fp.mu * (x * y % 2 ^ 64) % 2 ^ 64) (redc_lem (x * y)) (redc-lt x y hx hy)
        (mul_lem x y hx hy)

  pub mul-lt : (x y : ℕ) → x < 2 ^ 64 → y < fp.p → mul fp x y < fp.p
  mul-lt x y hx hy = (product x y hx hy).0

  -- The product of a word and a reduced word, times 2 ^ 64, is that of the integers modulo `p`.
  pub mul-Cong : (x y : ℕ) → x < 2 ^ 64 → y < fp.p → Cong fp.p (mul fp x y * 2 ^ 64) (x * y)
  mul-Cong x y hx hy = (product x y hx hy).1
