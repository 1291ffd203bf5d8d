-- ===== src/Field/Fp64.antt =====
-- src/fp64.rs: `FieldParameters64`, its arithmetic and `FP64`.
pub mod Reduction
pub mod Elements
pub mod Constants
use Prim.Native.Nat.{bit_and, bit_or}
use mastic.Prelude.{ℕ, zero, suc, ◌+◌, ◌-◌, ◌*◌, ◌/◌, ◌^◌, List, [], ◌∷◌, ◌==◌, if◌then◌else◌}
use mastic.Field.Words.{
  overflowing_add, overflowing_sub, wrapping_add, wrapping_sub, wrapping_mul, bit_not, as_int,
  leading_zeros, lo64, hi64,
}

pub record FieldParameters64 : Type 0 where
  pub p : ℕ
  pub mu : ℕ
  pub r2 : ℕ
  pub g : ℕ
  pub num_roots : ℕ
  pub bit_mask : ℕ
  pub roots : List ℕ

unfoldable pub modp : ℕ → ℕ → ℕ
modp x p =
    let (z, carry) = overflowing_sub 64 x p in
    let m = wrapping_sub 64 0 (as_int carry) in wrapping_add 64 z (bit_and m p)

-- The methods of `FieldParameters64`, at the receiver `fp`.
module _ (fp : FieldParameters64) where
  unfoldable pub add : ℕ → ℕ → ℕ
  add x y =
      let (z, carry) = overflowing_add 64 x y in
      let (s0, b0) = overflowing_sub 64 z fp.p in
      let (s1, b1) = overflowing_sub 64 (as_int carry) (as_int b0) in
      let m = wrapping_sub 64 0 (as_int b1) in bit_or (bit_and z m) (bit_and s0 (bit_not 64 m))

  unfoldable pub sub : ℕ → ℕ → ℕ
  sub x y =
      let (z0, b0) = overflowing_sub 64 x y in
      let m = wrapping_sub 64 0 (as_int b0) in wrapping_add 64 z0 (bit_and m fp.p)

  -- The cast to u64 of `hi64` keeps a number of at most 2 ^ 64 - 1, as `hi64` of a u128 is.
  unfoldable pub mul : ℕ → ℕ → ℕ
  mul x y =
      let product = x * y in
      let z0 = lo64 product in
      let z1 = hi64 product in
      let w = wrapping_mul 64 fp.mu z0 in
      let reduced = fp.p * w in
      let hi = hi64 reduced in
      let lo = lo64 reduced in
      let (z0', carry) = overflowing_add 64 z0 lo in
      let result = z1 + hi + as_int carry in
      let prod = lo64 result in
      let cc = hi64 result in
      let (s0, b0) = overflowing_sub 64 prod fp.p in
      let (s1, b1) = overflowing_sub 64 cc (as_int b0) in
      let mask = wrapping_sub 64 0 (as_int b1) in
      bit_or (bit_and prod mask) (bit_and s0 (bit_not 64 mask))

  unfoldable pub montgomery : ℕ → ℕ
  montgomery x = modp (mul x fp.r2) fp.p

  unfoldable pub residue : ℕ → ℕ
  residue x = modp (mul x 1) fp.p

  unfoldable pub neg : ℕ → ℕ
  neg x = sub 0 x

  -- The bits of `exp` below `i`, from the top one down.
  unfoldable pub pow_loop : ℕ → ℕ → ℕ → ℕ → ℕ
  pow_loop x exp zero t = t
  pow_loop x exp (suc i) t =
      let t' = mul t t in pow_loop x exp i (if bit_and (exp / 2 ^ i) 1 == 0 then t' else mul t' x)

  unfoldable pub pow : ℕ → ℕ → ℕ
  pow x exp = pow_loop x exp (64 - leading_zeros 64 exp) (montgomery 1)

  unfoldable pub inv : ℕ → ℕ
  inv x = pow x (fp.p - 2)

abbrev pub fp64 : FieldParameters64
fp64 = record {
  p = 18446744069414584321;
  mu = 18446744069414584319;
  r2 = 18446744065119617025;
  g = 15733474329512464024;
  num_roots = 32;
  bit_mask = 18446744073709551615;
  roots =
      4294967295 ∷ 18446744065119617026 ∷ 18446744069414518785 ∷ 18374686475393433601 ∷ 268435456
      ∷ 18446673700670406657 ∷ 18446744069414584193 ∷ 576460752303421440 ∷ 16576810576923738718
      ∷ 6647628942875889800 ∷ 10087739294013848503 ∷ 2135208489130820273 ∷ 10781050935026037169
      ∷ 3878014442329970502 ∷ 1205735313231991947 ∷ 2523909884358325590 ∷ 13797134855221748930
      ∷ 12267112747022536458 ∷ 430584883067102937 ∷ 10135969988448727187 ∷ 6815045114074884550 ∷ [];
}
