-- ===== src/Field/Fp128/Elements.antt =====
-- src/fp.rs: the operations of `FieldParameters` compute with integers modulo `p`.
use native.Mathlib.Nat.{mod-eq_of_lt, mod-eq-sub-mod, div-eq_of_lt, pow-suc, pow-zero}
use mastic.Prelude.{
  ℕ, suc, ◌+◌, ◌-◌, ◌*◌, ◌/◌, ◌%◌, ◌^◌, ◌<◌, ◌≤◌, ◌≡◌, refl, ap, ◌∙◌, sym, subst, arith, ltb,
  Bool-cases, inl, inr,
}
use mastic.Field.Words.{leading_zeros}
use mastic.Field.Words.Select.{final_subtraction, subtract_mod, subtract_mod_lem}
use mastic.Field.Congruence.{multiples}
use mastic.Field.Montgomery.{
  Represents, IsMontgomery, mul-Represents_lem, montgomery_lem, residue_lem,
}
use mastic.Field.Montgomery.Sums.{add_lem, sub_lem}
use mastic.Field.Montgomery.Powers.{leading_zeros_lem, loop_lem}
use mastic.Field.Fp128.{
  FieldParameters, modp, add, sub, mul, neg, montgomery, residue, pow, pow_loop, inv,
}
use mastic.Field.Fp128.Reduction.{IsValid, mul-Cong_u128}

-- Below twice the modulus, `modp` is the remainder.
pub modp-eq-mod_u128 : (x p : ℕ) → p < 2 ^ 128 → x < 2 ^ 128 → x < p + p → modp x p ≡ x % p
unfolding modp subtract_mod
modp-eq-mod_u128 x p hp hx h = subtract_mod_lem 128 p x hp hx ∙ (elim (Bool-cases (ltb x p)) [
  | inl below ↦ rw below (sym (mod-eq_of_lt (ground arith)))
  | inr above ↦ rw above (reduced (ground arith))
])
  where
    reduced : p ≤ x → x - p ≡ x % p
    reduced k = sym (mod-eq-sub-mod k ∙ mod-eq_of_lt (omega arith))

module _ {fp : FieldParameters} (valid : IsValid fp) where
  p-lt : fp.p < 2 ^ 128
  p-lt = omega (arith, valid.p-le)

  -- mu gives an inverse of 2 ^ 64, hence one of its square.
  inverse :
      fp.p * (fp.p * fp.mu * fp.mu + 2 * fp.mu) + 1
      ≡ 2 ^ 128 * ((fp.p * fp.mu + 1) / 2 ^ 64 * ((fp.p * fp.mu + 1) / 2 ^ 64))
  inverse =
      let c = (fp.p * fp.mu + 1) / 2 ^ 64 in
      let once : fp.p * fp.mu + 1 ≡ 2 ^ 64 * c = omega (arith, valid.mu_lem) in
      omega
        (arith, ap (λ (t : ℕ). t * (fp.p * fp.mu + 1)) once, ap (λ (t : ℕ). 2 ^ 64 * c * t) once)

  pub IsValid-IsMontgomery : IsMontgomery 128 fp.p (mul fp)
  IsValid-IsMontgomery = record {
    one_lt = valid.one_lt;
    p-lt = p-lt;
    inverse = (
      (fp.p * fp.mu + 1) / 2 ^ 64 * ((fp.p * fp.mu + 1) / 2 ^ 64),
      fp.p * fp.mu * fp.mu + 2 * fp.mu,
      inverse,
    );
    mul-lt = λ x y hx hy. (mul-Cong_u128 valid x y hx hy).0;
    mul-Cong = λ x y hx hy. (mul-Cong_u128 valid x y hx hy).1;
  }

  modp_reduced : (x : ℕ) → x < fp.p → modp x fp.p ≡ x
  modp_reduced x h =
      modp-eq-mod_u128 x fp.p p-lt (omega (arith, p-lt)) (omega arith) ∙ mod-eq_of_lt h

  -- `montgomery` maps a word to an element that stands for it.
  pub montgomery-Represents_u128 : (a : ℕ) → a < 2 ^ 128 → Represents 128 fp.p (montgomery fp a) a
  unfolding montgomery
  montgomery-Represents_u128 a h =
      let element = montgomery_lem IsValid-IsMontgomery fp.r2 a valid.r2_lem h in
      subst (λ (t : ℕ). Represents 128 fp.p t a)
        (sym (modp_reduced (mul fp a fp.r2) element.reduced)) element

  pub residue-Represents_u128 : {e a : ℕ} → Represents 128 fp.p e a → residue fp e ≡ a % fp.p
  unfolding residue
  residue-Represents_u128 {e = e} {a = a} x =
      modp_reduced (mul fp e 1)
        (mul-Cong_u128 valid e 1 (omega (arith, x.reduced, p-lt)) valid.one_lt).0
      ∙ residue_lem IsValid-IsMontgomery x

  pub add-Represents_u128 :
      {e f a b : ℕ}
      → Represents 128 fp.p e a
      → Represents 128 fp.p f b
      → Represents 128 fp.p (add fp e f) (a + b)
  unfolding add final_subtraction
  add-Represents_u128 x y = add_lem p-lt x y

  pub sub-Represents_u128 :
      {e f a b : ℕ} (d : ℕ)
      → Represents 128 fp.p e a
      → Represents 128 fp.p f b
      → (d + b) % fp.p ≡ a % fp.p
      → Represents 128 fp.p (sub fp e f) d
  unfolding sub
  sub-Represents_u128 d x y h = sub_lem d p-lt x y h

  pub neg-Represents_u128 :
      {e a : ℕ} (d : ℕ)
      → Represents 128 fp.p e a
      → (d + a) % fp.p ≡ 0
      → Represents 128 fp.p (neg fp e) d
  unfolding neg
  neg-Represents_u128 d x h = sub-Represents_u128 d zero_element x (h ∙ sym (mod-eq_of_lt positive))
    where
      positive : 0 < fp.p
      positive = omega (arith, valid.one_lt)

      zero_element : Represents 128 fp.p 0 0
      zero_element = record { reduced = positive; congruent = multiples 0 0 refl }

  -- The product of elements that stand for `a` and `b` stands for `a * b`.
  pub mul-Represents_u128 :
      {e f a b : ℕ}
      → Represents 128 fp.p e a
      → Represents 128 fp.p f b
      → Represents 128 fp.p (mul fp e f) (a * b)
  mul-Represents_u128 x y = mul-Represents_lem IsValid-IsMontgomery x y

  -- The power of an element that stands for `a`, with an exponent of 128 bits, stands for the
  -- power of `a`.
  pub pow-Represents_u128 :
      {e a : ℕ} (exp : ℕ)
      → Represents 128 fp.p e a
      → exp < 2 ^ 128
      → Represents 128 fp.p (pow fp e exp) (a ^ exp)
  unfolding pow pow_loop
  pow-Represents_u128 {e = e} {a = a} exp x h =
      loop_lem IsValid-IsMontgomery x exp (pow_loop fp e exp) (λ t. refl) (λ i t. refl)
        (128 - leading_zeros 128 exp) (montgomery fp 1)
        (subst (λ (n : ℕ). Represents 128 fp.p (montgomery fp 1) n) (sym none)
          (montgomery-Represents_u128 1 (omega arith)))
    where
      none : a ^ (exp / 2 ^ (128 - leading_zeros 128 exp)) ≡ 1
      none = ap (λ (n : ℕ). a ^ n) (div-eq_of_lt (leading_zeros_lem 128 exp h)) ∙ pow-zero a

  -- An element times its `inv` has the residue 1, if the `p - 1`-th power of the integer that it
  -- stands for is 1 modulo `p`, as it is for a prime `p` that does not divide the integer.
  pub inv-Represents_u128 :
      {e a : ℕ}
      → Represents 128 fp.p e a
      → a ^ (fp.p - 1) % fp.p ≡ 1
      → residue fp (mul fp e (inv fp e)) ≡ 1
  unfolding inv
  inv-Represents_u128 {e = e} {a = a} x fermat =
      residue-Represents_u128
        (mul-Represents_u128 x (pow-Represents_u128 (fp.p - 2) x (omega (arith, p-lt))))
      ∙ ap (λ (n : ℕ). n % fp.p) power
      ∙ fermat
    where
      exponent : suc (fp.p - 2) ≡ fp.p - 1
      exponent = omega (arith, valid.one_lt)

      power : a * a ^ (fp.p - 2) ≡ a ^ (fp.p - 1)
      power = omega (arith, pow-suc a (fp.p - 2), ap (λ (n : ℕ). a ^ n) exponent)

  -- The sum, the difference and the negative of elements that stand for `a` and `b` stand for
  -- `a + b`, each `d` with `d + b` the same as `a` modulo `p`, and each `n` with `n + a` a
  -- multiple of `p`.
  pub add-sub-neg-Represents_u128 :
      {e f a b : ℕ} (d n : ℕ)
      → Represents 128 fp.p e a
      → Represents 128 fp.p f b
      → (d + b) % fp.p ≡ a % fp.p
      → (n + a) % fp.p ≡ 0
      → Represents 128 fp.p (add fp e f) (a + b)
        × Represents 128 fp.p (sub fp e f) d
        × Represents 128 fp.p (neg fp e) n
  add-sub-neg-Represents_u128 d n x y hd hn =
      (add-Represents_u128 x y, sub-Represents_u128 d x y hd, neg-Represents_u128 n x hn)

  -- `montgomery` maps a word to an element that stands for it, and `residue` maps an element
  -- to the integer that it stands for, modulo `p`.
  pub montgomery-residue-Represents_u128 :
      {e a : ℕ} (b : ℕ)
      → Represents 128 fp.p e a
      → b < 2 ^ 128
      → Represents 128 fp.p (montgomery fp b) b × (residue fp e ≡ a % fp.p)
  montgomery-residue-Represents_u128 b x hb =
      (montgomery-Represents_u128 b hb, residue-Represents_u128 x)
