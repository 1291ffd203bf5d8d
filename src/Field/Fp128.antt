-- ===== src/Field/Fp128.antt =====
-- src/fp.rs: `FieldParameters`, its arithmetic, `FP32`, `FP128` and `log2`.
pub mod Limbs
pub mod Rows
pub mod Reduction
pub mod Elements
pub mod Constants
pub mod Log
mod Examples
use Prim.Native.Nat.{bit_and, bit_or}
use mastic.Prelude.{
  ℕ, zero, suc, ◌+◌, ◌-◌, ◌*◌, ◌/◌, ◌^◌, List, [], ◌∷◌, ◌==◌, ltb, if◌then◌else◌, Result, ok, panic,
}
use mastic.Field.Words.{
  overflowing_add, overflowing_sub, wrapping_add, wrapping_sub, wrapping_mul, bit_not, as_int,
  leading_zeros, lo64, hi64,
}

pub record FieldParameters : Type 0 where
  pub p : ℕ
  pub mu : ℕ
  pub r2 : ℕ
  pub g : ℕ
  pub num_roots : ℕ
  pub bit_mask : ℕ
  pub roots : List ℕ

unfoldable pub modp : ℕ → ℕ → ℕ
modp x p =
    let (z, carry) = overflowing_sub 128 x p in
    let m = wrapping_sub 128 0 (as_int carry) in wrapping_add 128 z (bit_and m p)

-- The parts of `mul`, on 64-bit limbs, the lowest first. A limb is below 2 ^ 64, so that
-- neither a product nor a sum of limbs wraps in a u128.
unfoldable pub integer_multiplication : ℕ → ℕ → ℕ × ℕ × ℕ × ℕ
integer_multiplication x y =
    let x0 = lo64 x in
    let x1 = hi64 x in
    let y0 = lo64 y in
    let y1 = hi64 y in
    let result = x0 * y0 in
    let carry = hi64 result in
    let zz0 = lo64 result in
    let result2 = x0 * y1 in
    let hi = hi64 result2 in
    let lo = lo64 result2 in
    let result3 = lo + carry in
    let zz1 = lo64 result3 in
    let cc = hi64 result3 in
    let zz2 = lo64 (hi + cc) in
    let result4 = x1 * y0 in
    let hi2 = hi64 result4 in
    let lo2 = lo64 result4 in
    let result5 = zz1 + lo2 in
    let zz1' = lo64 result5 in
    let cc2 = hi64 result5 in
    let carry2 = lo64 (hi2 + cc2) in
    let result6 = x1 * y1 in
    let hi3 = hi64 result6 in
    let lo3 = lo64 result6 in
    let result7 = lo3 + carry2 in
    let lo4 = lo64 result7 in
    let cc3 = hi64 result7 in
    let hi4 = lo64 (hi3 + cc3) in
    let result8 = zz2 + lo4 in
    let zz2' = lo64 result8 in
    let cc4 = hi64 result8 in let zz3 = lo64 (hi4 + cc4) in (zz0, zz1', zz2', zz3)

-- The first step of the reduction, by `p0`, `p1` times `w`.
unfoldable pub reduce_first : ℕ → ℕ → ℕ → ℕ × ℕ × ℕ × ℕ → ℕ × ℕ × ℕ × ℕ
reduce_first p0 p1 w (zz0, zz1, zz2, zz3) =
    let result = p0 * w in
    let hi = hi64 result in
    let lo = lo64 result in
    let result2 = zz0 + lo in
    let zz0' = lo64 result2 in
    let cc = hi64 result2 in
    let carry = lo64 (hi + cc) in
    let result3 = p1 * w in
    let hi2 = hi64 result3 in
    let lo2 = lo64 result3 in
    let result4 = lo2 + carry in
    let lo3 = lo64 result4 in
    let cc2 = hi64 result4 in
    let hi3 = lo64 (hi2 + cc2) in
    let result5 = zz1 + lo3 in
    let zz1' = lo64 result5 in
    let cc3 = hi64 result5 in
    let result6 = zz2 + hi3 + cc3 in
    let zz2' = lo64 result6 in
    let cc4 = hi64 result6 in let zz3' = lo64 (zz3 + cc4) in (zz0', zz1', zz2', zz3')

-- The second step, which gives the limbs above the two vanished ones, with the last carry.
unfoldable pub reduce_second : ℕ → ℕ → ℕ → ℕ × ℕ × ℕ → ℕ × ℕ × ℕ
reduce_second p0 p1 w (zz1, zz2, zz3) =
    let result = p0 * w in
    let hi = hi64 result in
    let lo = lo64 result in
    let result2 = zz1 + lo in
    let zz1' = lo64 result2 in
    let cc = hi64 result2 in
    let carry = lo64 (hi + cc) in
    let result3 = p1 * w in
    let hi2 = hi64 result3 in
    let lo2 = lo64 result3 in
    let result4 = lo2 + carry in
    let lo3 = lo64 result4 in
    let cc2 = hi64 result4 in
    let hi3 = lo64 (hi2 + cc2) in
    let result5 = zz2 + lo3 in
    let zz2' = lo64 result5 in
    let cc3 = hi64 result5 in
    let result6 = zz3 + hi3 + cc3 in
    let zz3' = lo64 result6 in let cc4 = hi64 result6 in (zz2', zz3', cc4)

-- `zz[3] << 64` keeps the bits of a limb.
unfoldable pub subtract_final : ℕ → ℕ × ℕ × ℕ → ℕ
subtract_final p (zz2, zz3, cc) =
    let prod = bit_or zz2 (zz3 * 2 ^ 64) in
    let (s0, b0) = overflowing_sub 128 prod p in
    let (s1, b1) = overflowing_sub 128 cc (as_int b0) in
    let mask = wrapping_sub 128 0 (as_int b1) in
    bit_or (bit_and prod mask) (bit_and s0 (bit_not 128 mask))

-- The methods of `FieldParameters`, at the receiver `fp`.
module _ (fp : FieldParameters) where
  unfoldable pub add : ℕ → ℕ → ℕ
  add x y =
      let (z, carry) = overflowing_add 128 x y in
      let (s0, b0) = overflowing_sub 128 z fp.p in
      let (s1, b1) = overflowing_sub 128 (as_int carry) (as_int b0) in
      let m = wrapping_sub 128 0 (as_int b1) in bit_or (bit_and z m) (bit_and s0 (bit_not 128 m))

  unfoldable pub sub : ℕ → ℕ → ℕ
  sub x y =
      let (z0, b0) = overflowing_sub 128 x y in
      let m = wrapping_sub 128 0 (as_int b0) in wrapping_add 128 z0 (bit_and m fp.p)

  -- The casts of a limb to u64 keep it.
  unfoldable pub mul : ℕ → ℕ → ℕ
  mul x y =
      let p0 = lo64 fp.p in
      let p1 = hi64 fp.p in
      let (zz0, zz1, zz2, zz3) = integer_multiplication x y in
      let w = wrapping_mul 64 fp.mu zz0 in
      let (zz0', zz1', zz2', zz3') = reduce_first p0 p1 w (zz0, zz1, zz2, zz3) in
      let w' = wrapping_mul 64 fp.mu zz1' in
      subtract_final fp.p (reduce_second p0 p1 w' (zz1', zz2', zz3'))

  unfoldable pub montgomery : ℕ → ℕ
  montgomery x = modp (mul x fp.r2) fp.p

  unfoldable pub residue : ℕ → ℕ
  residue x = modp (mul x 1) fp.p

  unfoldable pub neg : ℕ → ℕ
  neg x = sub 0 x

  -- The bits of `exp` below `i`, from the top one down.
  unfoldable pub pow_loop : ℕ → ℕ → ℕ → ℕ → ℕ
  pow_loop x exp zero t = t
  pow_loop x exp (suc i) t =
      let t' = mul t t in pow_loop x exp i (if bit_and (exp / 2 ^ i) 1 == 0 then t' else mul t' x)

  unfoldable pub pow : ℕ → ℕ → ℕ
  pow x exp = pow_loop x exp (128 - leading_zeros 128 exp) (montgomery 1)

  unfoldable pub inv : ℕ → ℕ
  inv x = pow x (fp.p - 2)

-- `log2`: the subtraction from 127, of type u32, overflows at 0.
unfoldable pub log2 : ℕ → Result (Unit {0}) ℕ
log2 x =
    let y = 127 - leading_zeros 128 x in
    if ltb 127 (leading_zeros 128 x) then panic else ok (y + as_int (ltb (2 ^ y) x))
