-- ===== src/Field/Words.antt =====
-- The operations of `u64` and `u128` that the field arithmetic uses, at `w` bits, and `lo64` and
-- `hi64` of src/fp.rs.
pub mod Bits
pub mod Xor
pub mod Select
use Prim.Native.Nat.{bit_and}
use mastic.Prelude.{
  ℕ, zero, suc, ◌+◌, ◌-◌, ◌*◌, ◌/◌, ◌%◌, ◌^◌, Bool, true, false, ltb, leb, if◌then◌else◌,
}

abbrev pub overflowing_add : ℕ → ℕ → ℕ → ℕ × Bool
overflowing_add w x y = ((x + y) % 2 ^ w, leb (2 ^ w) (x + y))

abbrev pub overflowing_sub : ℕ → ℕ → ℕ → ℕ × Bool
overflowing_sub w x y = ((x + 2 ^ w - y) % 2 ^ w, ltb x y)

abbrev pub wrapping_add : ℕ → ℕ → ℕ → ℕ
wrapping_add w x y = (x + y) % 2 ^ w

abbrev pub wrapping_sub : ℕ → ℕ → ℕ → ℕ
wrapping_sub w x y = (x + 2 ^ w - y) % 2 ^ w

abbrev pub wrapping_mul : ℕ → ℕ → ℕ → ℕ
wrapping_mul w x y = x * y % 2 ^ w

abbrev pub bit_not : ℕ → ℕ → ℕ
bit_not w x = 2 ^ w - 1 - x

-- A cast of a Boolean.
abbrev pub as_int : Bool → ℕ
as_int true = 1
as_int false = 0

-- The top bit of a word of `suc w` bits is 0 if the word is below `2 ^ w`.
unfoldable pub leading_zeros : ℕ → ℕ → ℕ
leading_zeros zero x = 0
leading_zeros (suc w) x = let rest = leading_zeros w x in if ltb x (2 ^ w) then suc rest else 0

abbrev pub lo64 : ℕ → ℕ
lo64 x = bit_and x (2 ^ 64 - 1)

abbrev pub hi64 : ℕ → ℕ
hi64 x = x / 2 ^ 64
