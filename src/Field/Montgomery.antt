-- ===== src/Field/Montgomery.antt =====
-- Field elements as Montgomery representatives of integers, at words of `w` bits: what
-- src/fp64.rs (64 bits) and src/fp.rs (128 bits) compute with.
pub mod Sums
pub mod Powers
use Prim.Native.Nat.{bit_and}
use native.Mathlib.Nat.{mod-eq_of_lt, one-le-pow}
use mastic.Prelude.{
  ℕ, zero, suc, ◌+◌, ◌-◌, ◌*◌, ◌/◌, ◌%◌, ◌^◌, ◌≤◌, ◌<◌, ◌≡◌, refl, ap, ◌∙◌, sym, subst, arith, ◌==◌,
  if◌then◌else◌, ltb, Bool-cases, inl, inr,
}
use mastic.Field.Congruence.{
  Cong, multiples, Cong-refl, Cong-sym, Cong-trans, Cong-mul, Cong-mul_left, Cong-mul_right,
  Cong→mod, Cong-mod,
}

-- A reduced word `e` stands for the integer `a`: it is `a * 2 ^ w` modulo `p`.
pub record Represents (w p e a : ℕ) : Type 0 where
  pub reduced : e < p
  pub congruent : Cong p (a * 2 ^ w) e

-- What is used of a modulus and of the multiplication modulo it.
pub record IsMontgomery (w p : ℕ) (mul : ℕ → ℕ → ℕ) : Type 0 where
  pub one_lt : 1 < p
  pub p-lt : p < 2 ^ w
  pub inverse : (c : ℕ) × (m : ℕ) × (p * m + 1 ≡ 2 ^ w * c)
  pub mul-lt : (x y : ℕ) → x < 2 ^ w → y < p → mul x y < p
  pub mul-Cong : (x y : ℕ) → x < 2 ^ w → y < p → Cong p (mul x y * 2 ^ w) (x * y)

-- The product with the low word makes the low word vanish.
pub redc_low :
    (p mu c z0 : ℕ) → p * mu + 1 ≡ 2 ^ 64 * c → (z0 + p * (mu * z0 % 2 ^ 64)) % 2 ^ 64 ≡ 0
redc_low p mu c z0 h =
    omega (arith, ap (λ (t : ℕ). t * z0) h, ap (λ (t : ℕ). p * t) (split (mu * z0)))
  where
    split : (n : ℕ) → n ≡ 2 ^ 64 * (n / 2 ^ 64) + n % 2 ^ 64
    split n = omega arith

-- A reduced number, from one below `2 * p` that is `z` divided by 2 ^ w.
pub reduced_lem :
    {p z t m : ℕ} (w k : ℕ)
    → t * 2 ^ w ≡ z + p * k
    → t < p + p
    → m ≡ (if ltb t p then t else t - p)
    → (m < p) × Cong p (m * 2 ^ w) z
reduced_lem {p = p} {z = z} {t = t} {m = m} w k h fits final = (
  ground (arith, final),
  elim (Bool-cases (ltb t p)) [
    | inl below ↦ multiples 0 k (omega (arith, ap (λ (n : ℕ). n * 2 ^ w) (rw below at final)))
    | inr above ↦ multiples (2 ^ w) k (omega (arith, whole (ground arith) (rw above at final)))
  ],
)
  where
    whole : p ≤ t → m ≡ t - p → m * 2 ^ w + p * 2 ^ w ≡ t * 2 ^ w
    whole le eq = let sum : m + p ≡ t = omega arith in omega (arith, ap (λ (n : ℕ). n * 2 ^ w) sum)

module _ {w p : ℕ} {mul : ℕ → ℕ → ℕ} (law : IsMontgomery w p mul) where
  -- 2 ^ w has an inverse modulo `p`.
  pub cancel : (a b : ℕ) → Cong p (a * 2 ^ w) (b * 2 ^ w) → Cong p a b
  cancel a b (multiples k l h) =
      let (c, m, inverse) = law.inverse in
      multiples (a * m + k * c) (b * m + l * c) (
        omega (
          arith,
          ap (λ (t : ℕ). t * c) h,
          ap (λ (t : ℕ). a * t) inverse,
          ap (λ (t : ℕ). b * t) inverse,
        ))

  pub mul-Represents_lem :
      {e f a b : ℕ} → Represents w p e a → Represents w p f b → Represents w p (mul e f) (a * b)
  mul-Represents_lem {e = e} {f = f} {a = a} {b = b} x y = record {
    reduced = law.mul-lt e f e-lt y.reduced;
    congruent = Cong-sym (
        cancel (mul e f) (a * b * 2 ^ w) (
          Cong-trans (law.mul-Cong e f e-lt y.reduced) (
            subst (λ (t : ℕ). Cong p (e * f) t) products
              (Cong-sym (Cong-mul x.congruent y.congruent)))));
  }
    where
      e-lt : e < 2 ^ w
      e-lt = omega (arith, x.reduced, law.p-lt)

      products : a * 2 ^ w * (b * 2 ^ w) ≡ a * b * 2 ^ w * 2 ^ w
      products = omega arith

  pub montgomery_lem : (r2 a : ℕ) → r2 ≡ 2 ^ w * 2 ^ w % p → a < 2 ^ w → Represents w p (mul a r2) a
  montgomery_lem r2 a h ha = record {
    reduced = law.mul-lt a r2 ha r2-lt;
    congruent = Cong-sym (
        cancel (mul a r2) (a * 2 ^ w) (
          Cong-trans (law.mul-Cong a r2 ha r2-lt) (
            subst (λ (t : ℕ). Cong p (a * r2) t) products
              (Cong-mul_left a (
                subst (λ (t : ℕ). Cong p t (2 ^ w * 2 ^ w)) (sym h) (Cong-mod (2 ^ w * 2 ^ w)))))));
  }
    where
      r2-lt : r2 < p
      r2-lt = grind (arith, law.one_lt)

      products : a * (2 ^ w * 2 ^ w) ≡ a * 2 ^ w * 2 ^ w
      products = omega arith

  pub residue_lem : {e a : ℕ} → Represents w p e a → mul e 1 ≡ a % p
  residue_lem {e = e} {a = a} x =
      sym (mod-eq_of_lt (law.mul-lt e 1 e-lt law.one_lt))
      ∙ Cong→mod (
          cancel (mul e 1) a (
            Cong-trans (law.mul-Cong e 1 e-lt law.one_lt)
              (subst (λ (t : ℕ). Cong p t (a * 2 ^ w)) one (Cong-sym x.congruent))))
    where
      e-lt : e < 2 ^ w
      e-lt = omega (arith, x.reduced, law.p-lt)

      one : e ≡ e * 1
      one = omega arith
