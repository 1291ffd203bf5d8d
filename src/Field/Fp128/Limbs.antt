-- ===== src/Field/Fp128/Limbs.antt =====
-- src/fp.rs: the parts of `mul` compute with the numbers that the limbs stand for.
use mastic.Prelude.{ℕ, ◌+◌, ◌-◌, ◌*◌, ◌%◌, ◌^◌, ◌≤◌, ◌<◌, ◌≡◌, refl, arith}
use mastic.Field.Words.{lo64, hi64}
use mastic.Field.Words.Bits.{bit_and_low}

pub lo64_lem : (x : ℕ) → lo64 x ≡ x % 2 ^ 64
lo64_lem x = bit_and_low 64 x

abbrev pub top : ℕ
top = (2 ^ 64 - 1) * (2 ^ 64 - 1)

-- A limb and a product: the low limb of the sum, and the high one, which does not overflow.
limb_add :
    (u a s : ℕ)
    → a ≤ top
    → u < 2 ^ 64
    → s ≡ u + lo64 a
    → (lo64 s < 2 ^ 64)
      × (lo64 (hi64 a + hi64 s) < 2 ^ 64)
      × (lo64 s + lo64 (hi64 a + hi64 s) * 2 ^ 64 ≡ u + a)
limb_add u a s ha hu h = omega (arith, lo64_lem a, lo64_lem s, lo64_lem (hi64 a + hi64 s))

-- Two products, one a limb higher, added to two limbs: what each row of `mul` does.
unfoldable pub row : ℕ → ℕ → ℕ → ℕ → ℕ × ℕ × ℕ × ℕ
row a b u v =
    let low = u + lo64 a in
    let carry = lo64 (hi64 a + hi64 low) in
    let middle = lo64 b + carry in
    let hi = lo64 (hi64 b + hi64 middle) in
    let high = v + lo64 middle in (lo64 low, lo64 high, hi, hi64 high)

pub record Row (a b u v u' v' hi cc : ℕ) : Type 0 where
  pub low-lt : u' < 2 ^ 64
  pub high-lt : v' < 2 ^ 64
  pub top-lt : hi + cc < 2 ^ 64
  pub total : u' + v' * 2 ^ 64 + (hi + cc) * 2 ^ 128 ≡ u + v * 2 ^ 64 + a + b * 2 ^ 64

pub row-Row :
    (a b u v : ℕ)
    → a ≤ top
    → b ≤ top
    → u < 2 ^ 64
    → v < 2 ^ 64
    → let (u', v', hi, cc) = row a b u v in Row a b u v u' v' hi cc
unfolding row
row-Row a b u v ha hb hu hv =
    let low = u + lo64 a in
    let carry = lo64 (hi64 a + hi64 low) in
    let middle = lo64 b + carry in
    let high = v + lo64 middle in
    let first = limb_add u a low ha hu refl in
    let second = limb_add carry b middle hb first.1 (omega arith) in
    let third = lo64_lem high in
    record {
      low-lt = first.0;
      high-lt = omega (arith, third);
      top-lt = omega (arith, first.2, second.2, second.0, first.0, third);
      total = omega (arith, first.2, second.2, third);
    }

-- The first row, onto no limbs.
pub first_row :
    (a b : ℕ)
    → a ≤ top
    → b ≤ top
    → (lo64 a < 2 ^ 64)
      × (lo64 (lo64 b + hi64 a) < 2 ^ 64)
      × (lo64 (hi64 b + hi64 (lo64 b + hi64 a)) < 2 ^ 64)
      × (lo64 a + lo64 (lo64 b + hi64 a) * 2 ^ 64 + lo64 (hi64 b + hi64 (lo64 b + hi64 a)) * 2 ^ 128
          ≡ a + b * 2 ^ 64)
first_row a b ha hb =
    let second = limb_add (hi64 a) b (lo64 b + hi64 a) hb (omega arith) (omega arith) in
    let low = lo64_lem a in (omega (arith, low), second.0, second.1, omega (arith, low, second.2))
