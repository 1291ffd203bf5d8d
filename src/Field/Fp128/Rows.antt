-- ===== src/Field/Fp128/Rows.antt =====
-- src/fp.rs: the parts of `mul` compute with the numbers that their limbs stand for.
use native.Mathlib.Nat.{mul-le-mul}
use mastic.Prelude.{ℕ, ◌+◌, ◌-◌, ◌*◌, ◌%◌, ◌^◌, ◌≤◌, ◌<◌, ◌≡◌, ap, arith}
use mastic.Field.Words.{lo64, hi64}
use mastic.Field.Fp128.{integer_multiplication, reduce_first, reduce_second}
use mastic.Field.Fp128.Limbs.{lo64_lem, top, row, row-Row, first_row}

abbrev pub value3 : ℕ × ℕ × ℕ → ℕ
value3 (z0, z1, z2) = z0 + z1 * 2 ^ 64 + z2 * 2 ^ 128

abbrev pub value4 : ℕ × ℕ × ℕ × ℕ → ℕ
value4 (z0, z1, z2, z3) = z0 + z1 * 2 ^ 64 + z2 * 2 ^ 128 + z3 * 2 ^ 192

abbrev pub Limbs : ℕ × ℕ × ℕ × ℕ → Type 0
Limbs (z0, z1, z2, z3) = (z0 < 2 ^ 64) × (z1 < 2 ^ 64) × (z2 < 2 ^ 64) × (z3 < 2 ^ 64)

limb_product : (a b : ℕ) → a < 2 ^ 64 → b < 2 ^ 64 → a * b ≤ top
limb_product a b ha hb =
    mul-le-mul {n₁ = a} {m₁ = b} {n₂ = 2 ^ 64 - 1} {m₂ = 2 ^ 64 - 1} (omega arith) (omega arith)

split : (x : ℕ) → x ≡ lo64 x + hi64 x * 2 ^ 64
split x = omega (arith, lo64_lem x)

lo64-lt : (x : ℕ) → lo64 x < 2 ^ 64
lo64-lt x = omega (arith, lo64_lem x)

pub integer_multiplication_lem :
    (x y : ℕ)
    → x < 2 ^ 128
    → y < 2 ^ 128
    → Limbs (integer_multiplication x y) × (value4 (integer_multiplication x y) ≡ x * y)
unfolding integer_multiplication row
integer_multiplication_lem x y hx hy =
    let x0 = lo64 x in
    let x1 = hi64 x in
    let y0 = lo64 y in
    let y1 = hi64 y in
    let lows =
      first_row (x0 * y0) (x0 * y1) (limb_product x0 y0 (lo64-lt x) (lo64-lt y))
        (limb_product x0 y1 (lo64-lt x) (omega arith)) in
    let highs =
      row-Row (x1 * y0) (x1 * y1) (lo64 (lo64 (x0 * y1) + hi64 (x0 * y0)))
        (lo64 (hi64 (x0 * y1) + hi64 (lo64 (x0 * y1) + hi64 (x0 * y0))))
        (limb_product x1 y0 (omega arith) (lo64-lt y))
        (limb_product x1 y1 (omega arith) (omega arith)) lows.1 lows.2 in
    let last = lo64_lem (
      (row (x1 * y0) (x1 * y1) (lo64 (lo64 (x0 * y1) + hi64 (x0 * y0)))
        (lo64 (hi64 (x0 * y1) + hi64 (lo64 (x0 * y1) + hi64 (x0 * y0))))).2
      + (row (x1 * y0) (x1 * y1) (lo64 (lo64 (x0 * y1) + hi64 (x0 * y0)))
          (lo64 (hi64 (x0 * y1) + hi64 (lo64 (x0 * y1) + hi64 (x0 * y0))))).3) in
    (
      (lows.0, highs.low-lt, highs.high-lt, omega (arith, last)),
      omega (
        arith,
        lows.3,
        highs.total,
        highs.top-lt,
        last,
        ap (λ (t : ℕ). t * y) (split x),
        ap (λ (t : ℕ). x0 * t) (split y),
        ap (λ (t : ℕ). x1 * t) (split y),
      ),
    )

-- The first step of the reduction adds the product of the modulus and `w`.
pub reduce_first_lem :
    (p0 p1 w : ℕ) (z : ℕ × ℕ × ℕ × ℕ)
    → p0 < 2 ^ 64
    → p1 < 2 ^ 64
    → w < 2 ^ 64
    → Limbs z
    → value4 z + (p0 + p1 * 2 ^ 64) * w < 2 ^ 256
    → Limbs (reduce_first p0 p1 w z)
      × (value4 (reduce_first p0 p1 w z) ≡ value4 z + (p0 + p1 * 2 ^ 64) * w)
unfolding reduce_first row
reduce_first_lem p0 p1 w (z0, z1, z2, z3) hp0 hp1 hw (h0, h1, h2, h3) fits =
    let rows =
      row-Row (p0 * w) (p1 * w) z0 z1 (limb_product p0 w hp0 hw) (limb_product p1 w hp1 hw) h0 h1 in
    let (u, v, hi, cc) = row (p0 * w) (p1 * w) z0 z1 in
    let third = z2 + hi + cc in
    let low = lo64_lem third in
    let last = lo64_lem (z3 + hi64 third) in
    (
      (rows.low-lt, rows.high-lt, lo64-lt third, lo64-lt (z3 + hi64 third)),
      omega (arith, rows.total, rows.top-lt, low, last, fits),
    )

-- So does the second step; where this makes the lowest limb 0, the others are the result.
pub reduce_second_lem :
    (p0 p1 w : ℕ) (z : ℕ × ℕ × ℕ)
    → p0 < 2 ^ 64
    → p1 < 2 ^ 64
    → w < 2 ^ 64
    → z.0 < 2 ^ 64
    → z.1 < 2 ^ 64
    → (value3 z + (p0 + p1 * 2 ^ 64) * w) % 2 ^ 64 ≡ 0
    → ((reduce_second p0 p1 w z).0 < 2 ^ 64)
      × ((reduce_second p0 p1 w z).1 < 2 ^ 64)
      × (value3 (reduce_second p0 p1 w z) * 2 ^ 64 ≡ value3 z + (p0 + p1 * 2 ^ 64) * w)
unfolding reduce_second row
reduce_second_lem p0 p1 w (z0, z1, z2) hp0 hp1 hw h0 h1 low_zero =
    let rows =
      row-Row (p0 * w) (p1 * w) z0 z1 (limb_product p0 w hp0 hw) (limb_product p1 w hp1 hw) h0 h1 in
    let (u, v, hi, cc) = row (p0 * w) (p1 * w) z0 z1 in
    let third = z2 + hi + cc in
    let low = lo64_lem third in
    (rows.high-lt, lo64-lt third, omega (arith, rows.total, rows.low-lt, low, low_zero))
