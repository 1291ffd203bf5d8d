-- ===== src/Field/Roots/Word64.antt =====
-- src/fp64.rs: the generator and the roots of `FP64`.
use mastic.Prelude.{ℕ, ◌-◌, ◌^◌, ◌≡◌, refl, subst, arith, drop}
use mastic.Field.Words.{leading_zeros}
use mastic.Field.Montgomery.{Represents}
use mastic.Field.Fp64.{modp, mul, montgomery, neg, sub, pow, pow_loop, fp64}
use mastic.Field.Fp64.Elements.{
  IsValid-IsMontgomery, montgomery-Represents, neg-Represents, pow-Represents,
}
use mastic.Field.Roots.Order.{HasRoots, Halves, Represents-Cong}
use mastic.Field.Fp64.Constants.{fp64-IsValid}

minus_one : Represents 64 fp64.p (neg fp64 (montgomery fp64 1)) (fp64.p - 1)
minus_one =
    neg-Represents fp64-IsValid (fp64.p - 1) (montgomery-Represents fp64-IsValid 1 (omega arith))
      refl

-- The list of roots starts with 1 and -1, and each root is the square of the next.
pub fp64-HasRoots : HasRoots (IsValid-IsMontgomery fp64-IsValid) fp64.roots
unfolding modp mul montgomery neg sub
fp64-HasRoots = record {
  first = montgomery fp64 1;
  second = neg fp64 (montgomery fp64 1);
  rest = drop 2 fp64.roots;
  shape = refl;
  one = montgomery-Represents fp64-IsValid 1 (omega arith);
  minus_one = minus_one;
  squares = refl;
}

generator_power : pow fp64 fp64.g (2 ^ 31) ≡ neg fp64 (montgomery fp64 1)
unfolding modp mul montgomery neg sub pow pow_loop leading_zeros
generator_power = refl

-- Half the order of the generator takes it to -1.
pub generator-Halves : Halves (IsValid-IsMontgomery fp64-IsValid) 31 fp64.g
generator-Halves = record {
  below = omega arith;
  power = λ a r.
      Represents-Cong (IsValid-IsMontgomery fp64-IsValid)
        (subst (λ (e : ℕ). Represents 64 fp64.p e (a ^ 2 ^ 31)) generator_power
          (pow-Represents fp64-IsValid (2 ^ 31) r (omega arith)))
        minus_one;
}
