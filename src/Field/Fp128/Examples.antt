-- ===== src/Field/Fp128/Examples.antt =====
-- Runs of src/fp.rs at concrete inputs: `FP32` and `FP128`.
use mastic.Prelude.{◌-◌, ◌==◌, false, ◌%◌, ◌^◌, ◌≡◌, refl, arith, ok, [], ◌∷◌, ◌*◌}
use mastic.Field.Words.{leading_zeros}
use mastic.Field.Montgomery.{Represents}
use mastic.Field.Fp128.{
  FieldParameters, modp, add, sub, mul, neg, montgomery, residue, log2, integer_multiplication,
  reduce_first, reduce_second, subtract_final,
}
use mastic.Field.Fp128.Reduction.{IsValid}
use mastic.Field.Fp128.Elements.{
  montgomery-Represents_u128, add-sub-neg-Represents_u128, mul-Represents_u128,
}
use mastic.Field.Fp128.Constants.{fp32, fp128, fp128-IsValid}

-- The example in the comment on `montgomery`.
documented_run : montgomery fp32 1 ≡ 2564090464
unfolding mul montgomery modp integer_multiplication reduce_first reduce_second subtract_final
documented_run = refl

product_wraps :
    residue fp128 (
      mul fp128
        (montgomery fp128 340282366920938462946865773367900766208)
        (montgomery fp128 340282366920938462946865773367900766207))
    ≡ 2
unfolding residue mul montgomery modp integer_multiplication reduce_first reduce_second
    subtract_final
product_wraps = refl

log2_runs : (log2 1 ≡ ok 0) × (log2 5 ≡ ok 3) × (log2 8 ≡ ok 3)
unfolding log2 leading_zeros
log2_runs = (refl, refl, refl)

abbrev two : Represents 128 fp128.p (montgomery fp128 2) 2
two = montgomery-Represents_u128 fp128-IsValid 2 (omega arith)

abbrev large :
    Represents 128 fp128.p
      (montgomery fp128 340282366920938463463374607431768211455)
      340282366920938463463374607431768211455
large =
    montgomery-Represents_u128 fp128-IsValid 340282366920938463463374607431768211455 (omega arith)

mul-Represents_u128_example :
    Represents 128 fp128.p
      (mul fp128 (montgomery fp128 340282366920938463463374607431768211455) (montgomery fp128 2))
      680564733841876926926749214863536422910
mul-Represents_u128_example = mul-Represents_u128 fp128-IsValid large two

-- The prime 2 ^ 128 - 159 is above the bound on the modulus: the square of -1 is not 1.
abbrev fp_large : FieldParameters
fp_large = record {
  p = 340282366920938463463374607431768211297;
  mu = 13109950190749555551;
  r2 = 25281;
  g = 0;
  num_roots = 0;
  bit_mask = 340282366920938463463374607431768211455;
  roots = [];
}

lost_carry : (mul fp_large (fp_large.p - 1) (fp_large.p - 1) * 2 ^ 128 % fp_large.p == 1) ≡ false
unfolding mul integer_multiplication reduce_first reduce_second subtract_final
lost_carry = refl

-- A field of 17 elements.
abbrev fp17 : FieldParameters
fp17 = record {
  p = 17;
  mu = 1085102592571150095;
  r2 = 1;
  g = 3;
  num_roots = 4;
  bit_mask = 31;
  roots = 1 ∷ [];
}

fp17-IsValid : IsValid fp17
fp17-IsValid = record { one_lt = omega arith; p-le = omega arith; mu_lem = refl; r2_lem = refl }

abbrev three : Represents 128 fp17.p (montgomery fp17 3) 3
three = montgomery-Represents_u128 fp17-IsValid 3 (omega arith)

add-sub-neg-Represents_u128_example :
    Represents 128 fp128.p
      (add fp128 (montgomery fp128 2) (montgomery fp128 340282366920938463463374607431768211455))
      340282366920938463463374607431768211457
    × Represents 128 fp128.p
        (sub fp128 (montgomery fp128 2) (montgomery fp128 340282366920938463463374607431768211455))
        340282366920938462430356939304033320965
    × Represents 128 fp128.p
        (neg fp128 (montgomery fp128 2))
        340282366920938462946865773367900766207
add-sub-neg-Represents_u128_example =
    add-sub-neg-Represents_u128 fp128-IsValid 340282366920938462430356939304033320965
      340282366920938462946865773367900766207 two large refl refl
