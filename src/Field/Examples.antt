-- ===== src/Field/Examples.antt =====
-- Runs of src/fp64.rs at concrete inputs: `FP64`, and a field of 17 elements.
use mastic.Field.Roots.{fp64_field, fft}
use mastic.Field.Roots.Order.{HasOrder}
use mastic.Field.Roots.Fields.{RootCases, generator-root-HasOrder}
use mastic.Prelude.{◌^◌, ◌%◌, ◌≡◌, refl, arith, [], ◌∷◌}
use mastic.Field.Words.{leading_zeros}
use mastic.Field.Montgomery.{Represents}
use mastic.Field.Fp64.{
  FieldParameters64, modp, add, sub, mul, neg, montgomery, residue, pow, pow_loop, inv, fp64,
}
use mastic.Field.Fp64.Reduction.{IsValid}
use mastic.Field.Fp64.Elements.{
  montgomery-Represents, add-sub-neg-Represents, montgomery-residue-Represents, mul-Represents,
  pow-Represents, inv-Represents,
}
use mastic.Field.Fp64.Constants.{fp64-IsValid}

abbrev fp17 : FieldParameters64
fp17 = record {
  p = 17;
  mu = 1085102592571150095;
  r2 = 1;
  g = 3;
  num_roots = 4;
  bit_mask = 31;
  roots = 1 ∷ [];
}

fp17-IsValid : IsValid fp17
fp17-IsValid = record { one_lt = omega arith; p-lt = omega arith; mu_lem = refl; r2_lem = refl }

-- The example in the comment on `mul`.
documented_run : residue fp64 (mul fp64 (montgomery fp64 23) (montgomery fp64 2)) ≡ 46
unfolding residue mul montgomery modp
documented_run = refl

-- `fp64` at words near the modulus, where the carries are taken.
add_wraps : residue fp64 (add fp64 (montgomery fp64 18446744069414584320) (montgomery fp64 5)) ≡ 4
unfolding residue mul montgomery modp add
add_wraps = refl

sub_wraps : residue fp64 (sub fp64 (montgomery fp64 3) (montgomery fp64 5)) ≡ 18446744069414584319
unfolding residue mul montgomery modp sub
sub_wraps = refl

inverse : residue fp64 (mul fp64 (montgomery fp64 7) (inv fp64 (montgomery fp64 7))) ≡ 1
unfolding residue mul montgomery modp inv pow pow_loop leading_zeros
inverse = refl

abbrev two : Represents 64 fp64.p (montgomery fp64 2) 2
two = montgomery-Represents fp64-IsValid 2 (omega arith)

abbrev large : Represents 64 fp64.p (montgomery fp64 18446744073709551615) 18446744073709551615
large = montgomery-Represents fp64-IsValid 18446744073709551615 (omega arith)

mul-Represents_example :
    Represents 64 fp64.p
      (mul fp64 (montgomery fp64 18446744073709551615) (montgomery fp64 2))
      36893488147419103230
mul-Represents_example = mul-Represents fp64-IsValid large two

pow-Represents_example : Represents 64 fp64.p (pow fp64 (montgomery fp64 2) 10) 1024
pow-Represents_example = pow-Represents fp64-IsValid 10 two (omega arith)

abbrev three : Represents 64 fp17.p (montgomery fp17 3) 3
three = montgomery-Represents fp17-IsValid 3 (omega arith)

inv-Represents_example :
    residue fp17 (mul fp17 (montgomery fp17 3) (inv fp17 (montgomery fp17 3))) ≡ 1
inv-Represents_example = inv-Represents fp17-IsValid three refl

add-sub-neg-Represents_example :
    Represents 64 fp64.p
      (add fp64 (montgomery fp64 2) (montgomery fp64 18446744073709551615))
      18446744073709551617
    × Represents 64 fp64.p
        (sub fp64 (montgomery fp64 2) (montgomery fp64 18446744073709551615))
        18446744065119617029
    × Represents 64 fp64.p (neg fp64 (montgomery fp64 2)) 18446744069414584319
add-sub-neg-Represents_example =
    add-sub-neg-Represents fp64-IsValid 18446744065119617029 18446744069414584319 two large refl
      refl

montgomery-residue-Represents_example :
    Represents 64 fp64.p (montgomery fp64 23) 23
    × (residue fp64 (montgomery fp64 18446744073709551615) ≡ 18446744073709551615 % fp64.p)
montgomery-residue-Represents_example =
    montgomery-residue-Represents fp64-IsValid 23 large (omega arith)

generator-root-HasOrder_example :
    HasOrder 64 fp64.p (2 ^ 32) fp64.g × RootCases 64 fp64.p (fft fp64_field).root 2
generator-root-HasOrder_example = generator-root-HasOrder fp64_field 2
