-- ===== src/Field/Words/Select.antt =====
-- The masks that src/fp64.rs and src/fp.rs select with, and their conditional subtractions.
use Prim.Native.Nat.{bit_and, bit_or}
use native.Mathlib.Nat.{one-le-pow, mod-eq_of_lt, mod-lt, mod_self, add-mod_right, add-zero}
use mastic.Prelude.{
  ℕ, zero, suc, ◌+◌, ◌-◌, ◌*◌, ◌%◌, ◌^◌, ◌≤◌, ◌<◌, ◌≡◌, ap, arith, Bool, true, false, Bool-cases,
  subst, ◌∙◌, inl, inr, ltb, if◌then◌else◌,
}
use mastic.Field.Words.{overflowing_sub, wrapping_add, wrapping_sub, bit_not, as_int}
use mastic.Field.Words.Bits.{zero-bit_or, bit_and_low, bit_or_above, bit_and_comm}

pub pow_pos : (w : ℕ) → 0 < 2 ^ w
pow_pos w = one-le-pow w 2 (omega arith)

-- The mask of a Boolean.
pub mask_of : (w : ℕ) (b : Bool) → wrapping_sub w 0 (as_int b) ≡ (if b then 2 ^ w - 1 else 0)
mask_of w true =
    let whole : 0 + 2 ^ w - 1 ≡ 2 ^ w - 1 = omega arith in
    ap (λ (t : ℕ). t % 2 ^ w) whole ∙ mod-eq_of_lt (omega (arith, pow_pos w))
mask_of w false =
    let whole : 0 + 2 ^ w - 0 ≡ 2 ^ w = omega arith in
    ap (λ (t : ℕ). t % 2 ^ w) whole ∙ mod_self (2 ^ w)

bit_and_zero : (a : ℕ) → bit_and a 0 ≡ 0
bit_and_zero a = omega (arith, bit_and_low 0 a)

bit_and_ones : (w a : ℕ) → a < 2 ^ w → bit_and a (2 ^ w - 1) ≡ a
bit_and_ones w a h = omega (arith, bit_and_low w a, mod-eq_of_lt h)

bit_or_zero : (w a : ℕ) → a < 2 ^ w → bit_or a 0 ≡ a
bit_or_zero w a h =
    subst (λ (t : ℕ). bit_or a t ≡ a + t) (omega arith) (bit_or_above w a 0 h) ∙ omega arith

pub mask_and :
    (w : ℕ) (b : Bool) (x : ℕ)
    → x < 2 ^ w
    → bit_and (wrapping_sub w 0 (as_int b)) x ≡ (if b then x else 0)
mask_and w true x h = rw (mask_of w true, bit_and_comm (2 ^ w - 1) x, bit_and_ones w x h)
mask_and w false x h = rw (mask_of w false, bit_and_comm 0 x, bit_and_zero x)

pub select :
    (w : ℕ) (b : Bool) (x y : ℕ)
    → x < 2 ^ w
    → y < 2 ^ w
    → bit_or
        (bit_and x (wrapping_sub w 0 (as_int b)))
        (bit_and y (bit_not w (wrapping_sub w 0 (as_int b))))
      ≡ (if b then x else y)
select w true x y hx hy =
    rw (mask_of w true, bit_and_ones w x hx, bit_not_ones, bit_and_zero y, bit_or_zero w x hx)
  where
    bit_not_ones : bit_not w (2 ^ w - 1) ≡ 0
    bit_not_ones = omega arith
select w false x y hx hy = rw (
  mask_of w false,
  bit_and_zero x,
  zero-bit_or (bit_and y (2 ^ w - 1 - 0)),
  bit_not_zero,
  bit_and_ones w y hy,
)
  where
    bit_not_zero : bit_not w 0 ≡ 2 ^ w - 1
    bit_not_zero = omega arith

-- The word of an overflowing subtraction.
pub difference :
    (w p z : ℕ)
    → p < 2 ^ w
    → z < 2 ^ w
    → (z + 2 ^ w - p) % 2 ^ w ≡ (if ltb z p then z + 2 ^ w - p else z - p)
difference w p z hp hz = elim (Bool-cases (ltb z p)) [
  | inl below ↦ rw below (mod-eq_of_lt {n = z + 2 ^ w - p} (ground arith))
  | inr above ↦ rw above (no_borrow (ground arith))
]
  where
    no_borrow : p ≤ z → (z + 2 ^ w - p) % 2 ^ w ≡ z - p
    no_borrow h =
        let split : z + 2 ^ w - p ≡ (z - p) + 2 ^ w = omega arith in
        ap (λ (t : ℕ). t % 2 ^ w) split ∙ add-mod_right (z - p) (2 ^ w) ∙ mod-eq_of_lt (omega arith)

-- The end of `add` and `mul`: `c, z` less `p`, unless it is below.
unfoldable pub final_subtraction : ℕ → ℕ → ℕ → ℕ → ℕ
final_subtraction w p c z =
    let (s0, b0) = overflowing_sub w z p in
    let (s1, b1) = overflowing_sub w c (as_int b0) in
    let m = wrapping_sub w 0 (as_int b1) in bit_or (bit_and z m) (bit_and s0 (bit_not w m))

pub final_subtraction_lem :
    (w p c z : ℕ)
    → p < 2 ^ w
    → z < 2 ^ w
    → c * 2 ^ w + z < p + p
    → final_subtraction w p c z
      ≡ (if ltb (c * 2 ^ w + z) p then c * 2 ^ w + z else c * 2 ^ w + z - p)
unfolding final_subtraction
final_subtraction_lem w p c z hp hz h =
    rw
      (
        select w (ltb c (as_int (ltb z p))) z ((z + 2 ^ w - p) % 2 ^ w) hz
            (mod-lt (z + 2 ^ w - p) (pow_pos w)),
        difference w p z hp hz,
      )
      (cases c h)
  where
    cases :
        (c : ℕ)
        → c * 2 ^ w + z < p + p
        → (if ltb c (as_int (ltb z p)) then z else (if ltb z p then z + 2 ^ w - p else z - p))
          ≡ (if ltb (c * 2 ^ w + z) p then c * 2 ^ w + z else c * 2 ^ w + z - p)
    cases zero h = ground arith
    cases (suc zero) h = ground arith
    cases (suc (suc c)) h = absurd (omega arith)

-- `modp`, at a number below `2 * p`.
unfoldable pub subtract_mod : ℕ → ℕ → ℕ → ℕ
subtract_mod w x p =
    let (z, carry) = overflowing_sub w x p in
    let m = wrapping_sub w 0 (as_int carry) in wrapping_add w z (bit_and m p)

pub subtract_mod_lem :
    (w p x : ℕ) → p < 2 ^ w → x < 2 ^ w → subtract_mod w x p ≡ (if ltb x p then x else x - p)
unfolding subtract_mod
subtract_mod_lem w p x hp hx =
    rw (mask_and w (ltb x p) p hp, difference w p x hp hx)
      (elim (Bool-cases (ltb x p)) [
        | inl below ↦ rw below (wraps (ground arith))
        | inr above ↦
            rw above ((ap (λ (t : ℕ). t % 2 ^ w) (add-zero (x - p))) ∙ mod-eq_of_lt (ground arith))
      ])
  where
    wraps : x < p → (x + 2 ^ w - p + p) % 2 ^ w ≡ x
    wraps h =
        let whole : x + 2 ^ w - p + p ≡ x + 2 ^ w = omega arith in
        ap (λ (t : ℕ). t % 2 ^ w) whole ∙ add-mod_right x (2 ^ w) ∙ mod-eq_of_lt hx
