-- ===== src/Field/Congruence.antt =====
-- Congruence modulo `p` as an equation, which arithmetic can multiply out; for src/fp64.rs.
use native.Mathlib.Nat.{add-mul-mod_self_right, mod-add-div'}
use mastic.Prelude.{ℕ, ◌+◌, ◌*◌, ◌/◌, ◌%◌, ◌≡◌, ap, ◌∙◌, sym, subst, arith}

-- `a` and `b` differ by a multiple of `p`.
pub data Cong (p a b : ℕ) : Type 0 where
  multiples : (k l : ℕ) → a + k * p ≡ b + l * p → Cong p a b

module _ {p : ℕ} where
  pub Cong-refl : (a : ℕ) → Cong p a a
  Cong-refl a = multiples (0) (0) (omega arith)

  pub Cong-sym : {a b : ℕ} → Cong p a b → Cong p b a
  Cong-sym (multiples k l h) = multiples (l) (k) (omega arith)

  pub Cong-trans : {a b c : ℕ} → Cong p a b → Cong p b c → Cong p a c
  Cong-trans (multiples k l h) (multiples m n j) = multiples (k + m) (l + n) (omega arith)

  pub Cong-add : {a b c d : ℕ} → Cong p a b → Cong p c d → Cong p (a + c) (b + d)
  Cong-add (multiples k l h) (multiples m n j) = multiples (k + m) (l + n) (omega arith)

  pub Cong-add_cancel : {a b : ℕ} (c : ℕ) → Cong p (a + c) (b + c) → Cong p a b
  Cong-add_cancel c (multiples k l h) = multiples (k) (l) (omega arith)

  pub Cong-mul_left : {a b : ℕ} (c : ℕ) → Cong p a b → Cong p (c * a) (c * b)
  Cong-mul_left c (multiples k l h) =
      multiples (c * k) (c * l) (omega (arith, ap (λ (t : ℕ). c * t) h))

  pub Cong-mul_right : {a b : ℕ} (c : ℕ) → Cong p a b → Cong p (a * c) (b * c)
  Cong-mul_right c (multiples k l h) =
      multiples (k * c) (l * c) (omega (arith, ap (λ (t : ℕ). t * c) h))

  pub Cong-mul : {a b c d : ℕ} → Cong p a b → Cong p c d → Cong p (a * c) (b * d)
  Cong-mul {a = a} {b = b} {c = c} {d = d} x y = Cong-trans (Cong-mul_left a y) (Cong-mul_right d x)

  pub Cong-mod : (a : ℕ) → Cong p (a % p) a
  Cong-mod a = multiples (a / p) (0) (omega (arith, mod-add-div' a p))

  pub Cong→mod : {a b : ℕ} → Cong p a b → a % p ≡ b % p
  Cong→mod {a = a} {b = b} (multiples k l h) =
      sym (add-mul-mod_self_right a k p) ∙ ap (λ (t : ℕ). t % p) h ∙ add-mul-mod_self_right b l p

  pub mod→Cong : {a b : ℕ} → a % p ≡ b % p → Cong p a b
  mod→Cong {a = a} {b = b} h =
      Cong-trans (Cong-sym (Cong-mod a)) (subst (λ (t : ℕ). Cong p t b) (sym h) (Cong-mod b))
