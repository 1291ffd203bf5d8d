-- ===== src/Field/Fp64/Elements.antt =====
-- src/fp64.rs: the operations of `FieldParameters64` compute with integers modulo `p`.
use native.Mathlib.Nat.{mod-eq_of_lt, mod-eq-sub-mod, div-eq_of_lt, pow-suc, pow-zero}
use mastic.Prelude.{
  ℕ, suc, ◌+◌, ◌-◌, ◌*◌, ◌/◌, ◌%◌, ◌^◌, ◌<◌, ◌≤◌, ◌≡◌, refl, ap, ◌∙◌, sym, subst, arith, ltb,
  Bool-cases, inl, inr,
}
use mastic.Field.Words.{leading_zeros}
use mastic.Field.Words.Select.{final_subtraction, subtract_mod, subtract_mod_lem}
use mastic.Field.Congruence.{multiples}
use mastic.Field.Montgomery.{
  Represents, IsMontgomery, mul-Represents_lem, montgomery_lem, residue_lem,
}
use mastic.Field.Montgomery.Sums.{add_lem, sub_lem}
use mastic.Field.Montgomery.Powers.{leading_zeros_lem, loop_lem}
use mastic.Field.Fp64.{
  FieldParameters64, modp, add, sub, mul, neg, montgomery, residue, pow, pow_loop, inv,
}
use mastic.Field.Fp64.Reduction.{IsValid, mul-lt, mul-Cong}

-- Below twice the modulus, `modp` is the remainder.
pub modp-eq-mod : (x p : ℕ) → p < 2 ^ 64 → x < 2 ^ 64 → x < p + p → modp x p ≡ x % p
unfolding modp subtract_mod
modp-eq-mod x p hp hx h = subtract_mod_lem 64 p x hp hx ∙ (elim (Bool-cases (ltb x p)) [
  | inl below ↦ rw below (sym (mod-eq_of_lt (ground arith)))
  | inr above ↦ rw above (reduced (ground arith))
])
  where
    reduced : p ≤ x → x - p ≡ x % p
    reduced k = sym (mod-eq-sub-mod k ∙ mod-eq_of_lt (omega arith))

module _ {fp : FieldParameters64} (valid : IsValid fp) where
  pub IsValid-IsMontgomery : IsMontgomery 64 fp.p (mul fp)
  IsValid-IsMontgomery = record {
    one_lt = valid.one_lt;
    p-lt = valid.p-lt;
    inverse = ((fp.p * fp.mu + 1) / 2 ^ 64, fp.mu, omega (arith, valid.mu_lem));
    mul-lt = mul-lt valid;
    mul-Cong = mul-Cong valid;
  }

  modp_reduced : (x : ℕ) → x < fp.p → modp x fp.p ≡ x
  modp_reduced x h =
      modp-eq-mod x fp.p valid.p-lt (omega (arith, valid.p-lt)) (omega arith) ∙ mod-eq_of_lt h

  -- `montgomery` maps a word to an element that stands for it.
  pub montgomery-Represents : (a : ℕ) → a < 2 ^ 64 → Represents 64 fp.p (montgomery fp a) a
  unfolding montgomery
  montgomery-Represents a h =
      let element = montgomery_lem IsValid-IsMontgomery fp.r2 a valid.r2_lem h in
      subst (λ (t : ℕ). Represents 64 fp.p t a)
        (sym (modp_reduced (mul fp a fp.r2) element.reduced)) element

  pub residue-Represents : {e a : ℕ} → Represents 64 fp.p e a → residue fp e ≡ a % fp.p
  unfolding residue
  residue-Represents {e = e} {a = a} x =
      modp_reduced (mul fp e 1)
        (mul-lt valid e 1 (omega (arith, x.reduced, valid.p-lt)) valid.one_lt)
      ∙ residue_lem IsValid-IsMontgomery x

  pub add-Represents :
      {e f a b : ℕ}
      → Represents 64 fp.p e a
      → Represents 64 fp.p f b
      → Represents 64 fp.p (add fp e f) (a + b)
  unfolding add final_subtraction
  add-Represents x y = add_lem valid.p-lt x y

  pub sub-Represents :
      {e f a b : ℕ} (d : ℕ)
      → Represents 64 fp.p e a
      → Represents 64 fp.p f b
      → (d + b) % fp.p ≡ a % fp.p
      → Represents 64 fp.p (sub fp e f) d
  unfolding sub
  sub-Represents d x y h = sub_lem d valid.p-lt x y h

  pub neg-Represents :
      {e a : ℕ} (d : ℕ)
      → Represents 64 fp.p e a
      → (d + a) % fp.p ≡ 0
      → Represents 64 fp.p (neg fp e) d
  unfolding neg
  neg-Represents d x h = sub-Represents d zero_element x (h ∙ sym (mod-eq_of_lt positive))
    where
      positive : 0 < fp.p
      positive = omega (arith, valid.one_lt)

      zero_element : Represents 64 fp.p 0 0
      zero_element = record { reduced = positive; congruent = multiples 0 0 refl }

  -- The product of elements that stand for `a` and `b` stands for `a * b`.
  pub mul-Represents :
      {e f a b : ℕ}
      → Represents 64 fp.p e a
      → Represents 64 fp.p f b
      → Represents 64 fp.p (mul fp e f) (a * b)
  mul-Represents x y = mul-Represents_lem IsValid-IsMontgomery x y

  -- The power of an element that stands for `a`, with an exponent of 64 bits, stands for the
  -- power of `a`.
  pub pow-Represents :
      {e a : ℕ} (exp : ℕ)
      → Represents 64 fp.p e a
      → exp < 2 ^ 64
      → Represents 64 fp.p (pow fp e exp) (a ^ exp)
  unfolding pow pow_loop
  pow-Represents {e = e} {a = a} exp x h =
      loop_lem IsValid-IsMontgomery x exp (pow_loop fp e exp) (λ t. refl) (λ i t. refl)
        (64 - leading_zeros 64 exp) (montgomery fp 1)
        (subst (λ (n : ℕ). Represents 64 fp.p (montgomery fp 1) n) (sym none)
          (montgomery-Represents 1 (omega arith)))
    where
      none : a ^ (exp / 2 ^ (64 - leading_zeros 64 exp)) ≡ 1
      none = ap (λ (n : ℕ). a ^ n) (div-eq_of_lt (leading_zeros_lem 64 exp h)) ∙ pow-zero a

  -- An element times its `inv` has the residue 1, if the `p - 1`-th power of the integer that it
  -- stands for is 1 modulo `p`, as it is for a prime `p` that does not divide the integer.
  pub inv-Represents :
      {e a : ℕ}
      → Represents 64 fp.p e a
      → a ^ (fp.p - 1) % fp.p ≡ 1
      → residue fp (mul fp e (inv fp e)) ≡ 1
  unfolding inv
  inv-Represents {e = e} {a = a} x fermat =
      residue-Represents
        (mul-Represents x (pow-Represents (fp.p - 2) x (omega (arith, valid.p-lt))))
      ∙ ap (λ (n : ℕ). n % fp.p) power
      ∙ fermat
    where
      exponent : suc (fp.p - 2) ≡ fp.p - 1
      exponent = omega (arith, valid.one_lt)

      power : a * a ^ (fp.p - 2) ≡ a ^ (fp.p - 1)
      power = omega (arith, pow-suc a (fp.p - 2), ap (λ (n : ℕ). a ^ n) exponent)

  -- The sum, the difference and the negative of elements that stand for `a` and `b` stand for
  -- `a + b`, each `d` with `d + b` the same as `a` modulo `p`, and each `n` with `n + a` a
  -- multiple of `p`.
  pub add-sub-neg-Represents :
      {e f a b : ℕ} (d n : ℕ)
      → Represents 64 fp.p e a
      → Represents 64 fp.p f b
      → (d + b) % fp.p ≡ a % fp.p
      → (n + a) % fp.p ≡ 0
      → Represents 64 fp.p (add fp e f) (a + b)
        × Represents 64 fp.p (sub fp e f) d
        × Represents 64 fp.p (neg fp e) n
  add-sub-neg-Represents d n x y hd hn =
      (add-Represents x y, sub-Represents d x y hd, neg-Represents n x hn)

  -- `montgomery` maps a word to an element that stands for it, and `residue` maps an element
  -- to the integer that it stands for, modulo `p`.
  pub montgomery-residue-Represents :
      {e a : ℕ} (b : ℕ)
      → Represents 64 fp.p e a
      → b < 2 ^ 64
      → Represents 64 fp.p (montgomery fp b) b × (residue fp e ≡ a % fp.p)
  montgomery-residue-Represents b x hb = (montgomery-Represents b hb, residue-Represents x)
