-- ===== src/Field/Words/Bits.antt =====
-- Masks and disjoint fields of bits as arithmetic, for the words of src/fp64.rs and src/fp.rs.
use Prim.Native.Nat.{min, max, bit_and, bit_or, bit_and-bitwise, bit_or-bitwise, digits}
use Prim.Native.Nat.add
use native.Mathlib.Nat.{pow-suc, one-le-pow, mod-eq_of_lt, add-mul-mod_self_left}
use mastic.Prelude.{ℕ, zero, suc, ◌+◌, ◌-◌, ◌*◌, ◌/◌, ◌%◌, ◌^◌, ◌≤◌, ◌<◌, ◌≡◌, refl, ap, ◌∙◌, arith}

-- Digits left to go beyond those of the first number do not matter.
module _ (z : ℕ → ℕ) (f : ℕ → ℕ → ℕ) where
  one_more : (n a b : ℕ) → a ≤ n → digits z f (suc n) a b ≡ digits z f n a b
  one_more zero zero b h = refl
  one_more (suc n) zero b h = refl
  one_more zero (suc a) b h = absurd (omega arith)
  one_more (suc n) (suc a) b h = omega (arith, one_more n (suc a / 2) (b / 2) (omega arith))

  spare : (k a b : ℕ) → digits z f (k + a) a b ≡ digits z f a a b
  spare zero a b = ap (λ (n : ℕ). digits z f n a b) (add.zero a)
  spare (suc k) a b =
      ap (λ (n : ℕ). digits z f n a b) (add.suc k a)
      ∙ one_more (k + a) a b (omega arith)
      ∙ spare k a b

  pub first_digit :
      (a b : ℕ)
      → digits z f (suc a) (suc a) b
        ≡ digits z f (suc a / 2) (suc a / 2) (b / 2) * 2 + f (suc a % 2) (b % 2)
  first_digit a b =
      let rest : a - suc a / 2 + suc a / 2 ≡ a = omega arith in
      omega (
        arith,
        ap (λ (n : ℕ). digits z f n (suc a / 2) (b / 2)) rest,
        spare (a - suc a / 2) (suc a / 2) (b / 2),
      )

and_digit : (a b : ℕ) → bit_and a b ≡ bit_and (a / 2) (b / 2) * 2 + min (a % 2) (b % 2)
and_digit zero b = omega (arith, bit_and-bitwise 0 b, bit_and-bitwise 0 (b / 2))
and_digit (suc a) b = omega (
  arith,
  bit_and-bitwise (suc a) b,
  bit_and-bitwise (suc a / 2) (b / 2),
  first_digit (λ b. zero) min a b,
)

or_digit : (a b : ℕ) → bit_or a b ≡ bit_or (a / 2) (b / 2) * 2 + max (a % 2) (b % 2)
or_digit zero b = ground (arith, bit_or-bitwise 0 b, bit_or-bitwise 0 (b / 2))
or_digit (suc a) b = omega (
  arith,
  bit_or-bitwise (suc a) b,
  bit_or-bitwise (suc a / 2) (b / 2),
  first_digit (λ b. b) max a b,
)

pub zero-bit_or : (b : ℕ) → bit_or 0 b ≡ b
zero-bit_or b = bit_or-bitwise 0 b

-- The low bits of a number are those of its half, above the last one.
pub mod-pow-suc : (k a : ℕ) → a % 2 ^ suc k ≡ a / 2 % 2 ^ k * 2 + a % 2
mod-pow-suc k a = omega (
  arith,
  add-mul-mod_self_left (a / 2 % 2 ^ k * 2 + a % 2) (2 ^ suc k) (a / 2 / 2 ^ k),
  ap (λ (t : ℕ). t % 2 ^ suc k) whole,
  mod-eq_of_lt fits,
)
  where
    whole : a ≡ a / 2 % 2 ^ k * 2 + a % 2 + 2 ^ suc k * (a / 2 / 2 ^ k)
    whole = omega (arith, ap (λ (t : ℕ). t * (a / 2 / 2 ^ k)) (pow-suc 2 k))

    fits : a / 2 % 2 ^ k * 2 + a % 2 < 2 ^ suc k
    fits = omega (arith, pow-suc 2 k, one-le-pow k 2)

pub bit_and_low : (k a : ℕ) → bit_and a (2 ^ k - 1) ≡ a % 2 ^ k
bit_and_low zero a = omega (arith, and_zero a a (omega arith))
  where
    and_zero : (n a : ℕ) → a ≤ n → bit_and a 0 ≡ 0
    and_zero n zero h = refl
    and_zero zero (suc a) h = absurd (omega arith)
    and_zero (suc n) (suc a) h =
        omega (arith, and_digit (suc a) 0, and_zero n (suc a / 2) (omega arith))
bit_and_low (suc k) a = ground (
  arith,
  and_digit a (2 ^ suc k - 1),
  bit_and_low k (a / 2),
  pow-suc 2 k,
  one-le-pow k 2,
  mod-pow-suc k a,
)

pub bit_or_above : (k a b : ℕ) → a < 2 ^ k → bit_or a (b * 2 ^ k) ≡ a + b * 2 ^ k
bit_or_above zero zero b h = omega (arith, zero-bit_or (b * 2 ^ 0))
bit_or_above zero (suc a) b h = absurd (omega arith)
bit_or_above (suc k) a b h = ground (
  arith,
  or_digit a (b * 2 ^ suc k),
  bit_or_above k (a / 2) b (omega arith),
  ap (λ (t : ℕ). b * t) (pow-suc 2 k),
)

pub bit_and_comm : (a b : ℕ) → bit_and a b ≡ bit_and b a
bit_and_comm a b = go (a + b) a b (omega arith)
  where
    go : (n a b : ℕ) → a + b ≤ n → bit_and a b ≡ bit_and b a
    go n zero zero h = refl
    go zero zero (suc b) h = absurd (omega arith)
    go zero (suc a) b h = absurd (omega arith)
    go (suc n) zero (suc b) h =
        omega (arith, and_digit 0 (suc b), and_digit (suc b) 0, go n 0 (suc b / 2) (omega arith))
    go (suc n) (suc a) b h =
        omega
          (arith, and_digit (suc a) b, and_digit b (suc a), go n (suc a / 2) (b / 2) (omega arith))

pub bit_and-le : (k a b : ℕ) → a ≤ k → bit_and a b ≤ a
bit_and-le k zero b h = omega (arith, bit_and-bitwise 0 b)
bit_and-le zero (suc a) b h = absurd (omega arith)
bit_and-le (suc k) (suc a) b h =
    ground (arith, and_digit (suc a) b, bit_and-le k (suc a / 2) (b / 2) (omega arith))
