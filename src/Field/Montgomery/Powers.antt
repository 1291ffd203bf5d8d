-- ===== src/Field/Montgomery/Powers.antt =====
-- Square-and-multiply on representatives, for `pow` of src/fp64.rs and src/fp.rs.
use Prim.Native.Nat.{bit_and}
use native.Mathlib.Nat.{pow-suc, pow-zero, div-div-eq-div-mul}
use mastic.Prelude.{
  ℕ, zero, suc, ◌+◌, ◌-◌, ◌*◌, ◌/◌, ◌%◌, ◌^◌, ◌<◌, ◌≡◌, ap, ◌∙◌, sym, subst, arith, ltb, ◌==◌,
  if◌then◌else◌, Bool-cases, inl, inr,
}
use mastic.Field.Words.{leading_zeros}
use mastic.Field.Words.Bits.{bit_and_low}
use mastic.Field.Montgomery.{Represents, IsMontgomery, mul-Represents_lem}

-- A word fits the bits behind its leading zeros.
pub leading_zeros_lem : (w x : ℕ) → x < 2 ^ w → x < 2 ^ (w - leading_zeros w x)
unfolding leading_zeros
leading_zeros_lem zero x h = h
leading_zeros_lem (suc w) x h = elim (Bool-cases (ltb x (2 ^ w))) [
  | inl below ↦
      rw below (subst (λ (t : ℕ). x < 2 ^ t) (omega arith) (leading_zeros_lem w x (ground arith)))
  | inr above ↦ rw above (subst (λ (t : ℕ). x < 2 ^ t) (omega arith) h)
]

pow_add : (a m n : ℕ) → a ^ m * a ^ n ≡ a ^ (m + n)
pow_add a zero n =
    let none : 0 + n ≡ n = omega arith in
    omega (arith, pow-zero a, ap (λ (t : ℕ). t * a ^ n) (pow-zero a), ap (λ (t : ℕ). a ^ t) none)
pow_add a (suc m) n =
    let next : suc m + n ≡ suc (m + n) = omega arith in
    omega (
      arith,
      ap (λ (t : ℕ). t * a ^ n) (pow-suc a m),
      ap (λ (t : ℕ). t * a) (pow_add a m n),
      pow-suc a (m + n),
      ap (λ (t : ℕ). a ^ t) next,
    )

square : (a n : ℕ) → n % 2 ≡ 0 → a ^ (n / 2) * a ^ (n / 2) ≡ a ^ n
square a n h =
    let halves : n / 2 + n / 2 ≡ n = omega arith in
    pow_add a (n / 2) (n / 2) ∙ ap (λ (t : ℕ). a ^ t) halves

square_and_multiply : (a n : ℕ) → n % 2 ≡ 1 → a ^ (n / 2) * a ^ (n / 2) * a ≡ a ^ n
square_and_multiply a n h =
    let halves : suc (n / 2 + n / 2) ≡ n = omega arith in
    ap (λ (t : ℕ). t * a) (pow_add a (n / 2) (n / 2))
    ∙ sym (pow-suc a (n / 2 + n / 2))
    ∙ ap (λ (t : ℕ). a ^ t) halves

module _ {w p : ℕ} {mul : ℕ → ℕ → ℕ} (law : IsMontgomery w p mul) {x a : ℕ}
    (base : Represents w p x a) (exp : ℕ) (loop : ℕ → ℕ → ℕ) (loop_zero : (t : ℕ) → loop 0 t ≡ t)
    (loop_suc : (i t : ℕ)
      → loop (suc i) t
        ≡ loop i (if bit_and (exp / 2 ^ i) 1 == 0 then mul t t else mul (mul t t) x)) where
  step :
      (i t : ℕ)
      → Represents w p t (a ^ (exp / 2 ^ suc i))
      → Represents w p
          (if bit_and (exp / 2 ^ i) 1 == 0 then mul t t else mul (mul t t) x)
          (a ^ (exp / 2 ^ i))
  step i t h = elim (Bool-cases (bit_and n 1 == 0)) [
    | inl even ↦
        rw even
          (subst (Represents w p (mul t t)) (square a n (ground (arith, bit_and_low 1 n))) squared)
    | inr odd ↦ rw odd (
        subst (Represents w p (mul (mul t t) x))
          (square_and_multiply a n (ground (arith, bit_and_low 1 n)))
          (mul-Represents_lem law squared base))
  ]
    where
      n : ℕ
      n = exp / 2 ^ i

      halved : exp / 2 ^ suc i ≡ n / 2
      halved = ap (λ (d : ℕ). exp / d) (pow-suc 2 i) ∙ sym (div-div-eq-div-mul exp (2 ^ i) 2)

      half : Represents w p t (a ^ (n / 2))
      half = subst (λ (m : ℕ). Represents w p t (a ^ m)) halved h

      squared : Represents w p (mul t t) (a ^ (n / 2) * a ^ (n / 2))
      squared = mul-Represents_lem law half half

  pub loop_lem :
      (i t : ℕ) → Represents w p t (a ^ (exp / 2 ^ i)) → Represents w p (loop i t) (a ^ exp)
  loop_lem zero t h = rw (loop_zero t) (subst (λ (n : ℕ). Represents w p t (a ^ n)) (omega arith) h)
  loop_lem (suc i) t h = rw (loop_suc i t) (loop_lem i _ (step i t h))
