-- ===== src/Field/Words/Xor.antt =====
-- Exclusive or of words, for the seeds of src/idpf.rs and the proofs of src/vidpf.rs.
use Prim.Native.Nat.{bit_xor, bit_xor-bitwise, differ}
use native.Mathlib.Nat.{pow-suc}
use mastic.Prelude.{ℕ, zero, suc, ◌+◌, ◌*◌, ◌/◌, ◌%◌, ◌^◌, ◌≤◌, ◌<◌, ◌≡◌, refl, ◌∙◌, arith}
use mastic.Field.Words.Bits.{first_digit}

differ_digits : (a b : ℕ) → a < 2 → b < 2 → differ a b ≡ (a + b) % 2
differ_digits zero b h k = omega arith
differ_digits (suc zero) zero h k = refl
differ_digits (suc zero) (suc zero) h k = refl
differ_digits (suc zero) (suc (suc b)) h k = absurd (omega arith)
differ_digits (suc (suc a)) b h k = absurd (omega arith)

xor_digit : (a b : ℕ) → bit_xor a b ≡ bit_xor (a / 2) (b / 2) * 2 + (a + b) % 2
xor_digit zero b = omega (arith, bit_xor-bitwise 0 b, bit_xor-bitwise 0 (b / 2))
xor_digit (suc a) b = omega (
  arith,
  bit_xor-bitwise (suc a) b,
  bit_xor-bitwise (suc a / 2) (b / 2),
  first_digit (λ b. b) differ a b,
  differ_digits (suc a % 2) (b % 2) (omega arith) (omega arith),
)

pub zero-bit_xor : (b : ℕ) → bit_xor 0 b ≡ b
zero-bit_xor b = bit_xor-bitwise 0 b

-- Facts by induction on the digits, for numbers of `k` digits at most.
xor_self : (k a : ℕ) → a ≤ k → bit_xor a a ≡ 0
xor_self k zero h = refl
xor_self zero (suc a) h = absurd (omega arith)
xor_self (suc k) (suc a) h =
    omega (arith, xor_digit (suc a) (suc a), xor_self k (suc a / 2) (omega arith))

pub bit_xor_self : (a : ℕ) → bit_xor a a ≡ 0
bit_xor_self a = xor_self a a (omega arith)

xor_comm : (k a b : ℕ) → a + b ≤ k → bit_xor a b ≡ bit_xor b a
xor_comm k zero zero h = refl
xor_comm zero zero (suc b) h = absurd (omega arith)
xor_comm zero (suc a) b h = absurd (omega arith)
xor_comm (suc k) zero (suc b) h =
    omega (arith, xor_digit 0 (suc b), xor_digit (suc b) 0, xor_comm k 0 (suc b / 2) (omega arith))
xor_comm (suc k) (suc a) b h =
    omega (
      arith,
      xor_digit (suc a) b,
      xor_digit b (suc a),
      xor_comm k (suc a / 2) (b / 2) (omega arith),
    )

pub bit_xor_comm : (a b : ℕ) → bit_xor a b ≡ bit_xor b a
bit_xor_comm a b = xor_comm (a + b) a b (omega arith)

pub bit_xor-zero : (a : ℕ) → bit_xor a 0 ≡ a
bit_xor-zero a = bit_xor_comm a 0 ∙ zero-bit_xor a

xor_again : (k a b : ℕ) → a ≤ k → bit_xor a (bit_xor a b) ≡ b
xor_again k zero b h = zero-bit_xor (bit_xor 0 b) ∙ zero-bit_xor b
xor_again zero (suc a) b h = absurd (omega arith)
xor_again (suc k) (suc a) b h =
    let rest : bit_xor (suc a) b / 2 ≡ bit_xor (suc a / 2) (b / 2) =
      omega (arith, xor_digit (suc a) b) in
    let last : bit_xor (suc a) b % 2 ≡ (suc a + b) % 2 = omega (arith, xor_digit (suc a) b) in
    xor_digit (suc a) (bit_xor (suc a) b)
    ∙ rw rest (omega (arith, last, xor_again k (suc a / 2) (b / 2) (omega arith)))

-- An exclusive or undoes itself.
pub bit_xor_cancel : (a b : ℕ) → bit_xor a (bit_xor a b) ≡ b
bit_xor_cancel a b = xor_again a a b (omega arith)

pub bit_xor-lt : (k a b : ℕ) → a < 2 ^ k → b < 2 ^ k → bit_xor a b < 2 ^ k
bit_xor-lt zero zero b h j = omega (arith, zero-bit_xor b)
bit_xor-lt zero (suc a) b h j = absurd (omega arith)
bit_xor-lt (suc k) a b h j = omega (
  arith,
  xor_digit a b,
  pow-suc 2 k,
  bit_xor-lt k (a / 2) (b / 2) (omega (arith, pow-suc 2 k)) (omega (arith, pow-suc 2 k)),
)
