-- ===== src/Field/Roots/Word128.antt =====
-- src/fp.rs: the generators and the roots of `FP32` and `FP128`.
use native.Mathlib.Nat.{mod_self}
use mastic.Prelude.{ℕ, ◌+◌, ◌-◌, ◌^◌, ◌≡◌, ◌<◌, refl, subst, arith, drop}
use mastic.Field.Words.{leading_zeros}
use mastic.Field.Montgomery.{Represents}
use mastic.Field.Fp128.{
  FieldParameters, modp, mul, integer_multiplication, reduce_first, reduce_second, subtract_final,
  montgomery, neg, sub, pow, pow_loop,
}
use mastic.Field.Fp128.Reduction.{IsValid}
use mastic.Field.Fp128.Elements.{
  IsValid-IsMontgomery, montgomery-Represents_u128, neg-Represents_u128, pow-Represents_u128,
}
use mastic.Field.Fp128.Constants.{fp32, fp128, fp32-IsValid, fp128-IsValid}
use mastic.Field.Roots.Order.{HasRoots, Halves, Represents-Cong}

module _ {fp : FieldParameters} (valid : IsValid fp) where
  one : Represents 128 fp.p (montgomery fp 1) 1
  one = montgomery-Represents_u128 valid 1 (omega arith)

  minus_one : Represents 128 fp.p (neg fp (montgomery fp 1)) (fp.p - 1)
  minus_one =
      neg-Represents_u128 valid (fp.p - 1) one (rw (whole fp.p valid.one_lt) (mod_self fp.p))
    where
      whole : (p : ℕ) → 1 < p → p - 1 + 1 ≡ p
      whole p h = omega (arith, h)

  power-Halves :
      (e n : ℕ)
      → e < fp.p
      → 2 ^ n < 2 ^ 128
      → pow fp e (2 ^ n) ≡ neg fp (montgomery fp 1)
      → Halves (IsValid-IsMontgomery valid) n e
  power-Halves e n h fits eq = record {
    below = h;
    power = λ a r.
        Represents-Cong (IsValid-IsMontgomery valid)
          (subst (λ (t : ℕ). Represents 128 fp.p t (a ^ 2 ^ n)) eq
            (pow-Represents_u128 valid (2 ^ n) r fits))
          minus_one;
  }

pub fp32-HasRoots : HasRoots (IsValid-IsMontgomery fp32-IsValid) fp32.roots
unfolding modp mul integer_multiplication reduce_first reduce_second subtract_final montgomery neg
    sub
fp32-HasRoots = record {
  first = montgomery fp32 1;
  second = neg fp32 (montgomery fp32 1);
  rest = drop 2 fp32.roots;
  shape = refl;
  one = one fp32-IsValid;
  minus_one = minus_one fp32-IsValid;
  squares = refl;
}

fp32_power : pow fp32 fp32.g (2 ^ 19) ≡ neg fp32 (montgomery fp32 1)
unfolding modp mul integer_multiplication reduce_first reduce_second subtract_final montgomery neg
    sub pow pow_loop leading_zeros
fp32_power = refl

pub fp32_generator-Halves : Halves (IsValid-IsMontgomery fp32-IsValid) 19 fp32.g
fp32_generator-Halves = power-Halves fp32-IsValid fp32.g 19 (omega arith) (omega arith) fp32_power

pub fp128-HasRoots : HasRoots (IsValid-IsMontgomery fp128-IsValid) fp128.roots
unfolding modp mul integer_multiplication reduce_first reduce_second subtract_final montgomery neg
    sub
fp128-HasRoots = record {
  first = montgomery fp128 1;
  second = neg fp128 (montgomery fp128 1);
  rest = drop 2 fp128.roots;
  shape = refl;
  one = one fp128-IsValid;
  minus_one = minus_one fp128-IsValid;
  squares = refl;
}

fp128_power : pow fp128 fp128.g (2 ^ 65) ≡ neg fp128 (montgomery fp128 1)
unfolding modp mul integer_multiplication reduce_first reduce_second subtract_final montgomery neg
    sub pow pow_loop leading_zeros
fp128_power = refl

pub fp128_generator-Halves : Halves (IsValid-IsMontgomery fp128-IsValid) 65 fp128.g
fp128_generator-Halves =
    power-Halves fp128-IsValid fp128.g 65 (omega arith) (omega arith) fp128_power
