-- ===== src/Idpf/Value/Field.antt =====
-- src/idpf.rs: the elements of a field as values of an IDPF. The crate subtle selects, and makes the
-- conditional negation of the selection.
use native.Mathlib.Nat.{mod-eq_of_lt}
use mastic.Prelude.{
  ℕ, zero, suc, ◌+◌, ◌-◌, ◌*◌, ◌%◌, ◌^◌, ◌<◌, ◌≡◌, refl, ap, ◌∙◌, sym, subst, arith, Bool, true,
  false, if◌then◌else◌,
}
use mastic.Field.Congruence.{
  Cong, multiples, Cong-refl, Cong-sym, Cong-trans, Cong-mul_right, Cong→mod, mod→Cong,
}
use mastic.Field.Montgomery.{Represents, IsMontgomery}
use mastic.Field.Fp64.{fp64}
use mastic.Field.Fp64.Elements as Elements64
use mastic.Field.Fp64.Constants.{fp64-IsValid}
use mastic.Field.Fp128.Elements as Elements128
use mastic.Field.Fp128.Constants.{fp128, fp128-IsValid}
use mastic.Field.Element.{FieldElement, field64, field128}
use mastic.Field.Roots.Order.{represented}
use mastic.Idpf.Value.{IdpfValue, IsGroup}

module _ {F S : Type 0} (conditional_select : F → F → Bool → F) (generate_random : S → F × S) where
  abbrev pub field_value : FieldElement F → IdpfValue F (Unit {0}) S
  field_value f = record {
    generate = λ seed_stream _. generate_random seed_stream;
    zero = λ _. f.zero_element;
    add = f.add;
    sub = f.sub;
    conditional_negate = λ self choice. conditional_select self (f.neg self) choice;
    conditional_select = conditional_select;
  }

-- Addition, subtraction and negation modulo `p`, on reduced words.
record IsAdditive (w p : ℕ) (f : FieldElement ℕ) : Type 0 where
  zero_lem : Represents w p f.zero_element 0
  add_lem :
      {e e' a b : ℕ}
      → Represents w p e a
      → Represents w p e' b
      → Represents w p (f.add e e') (a + b)
  sub_lem :
      {e e' a b : ℕ} (d : ℕ)
      → Represents w p e a
      → Represents w p e' b
      → (d + b) % p ≡ a % p
      → Represents w p (f.sub e e') d
  neg_lem : {e a : ℕ} (d : ℕ) → Represents w p e a → (d + a) % p ≡ 0 → Represents w p (f.neg e) d

-- An integer stands for one reduced word only.
same_word : {w p e e' a b : ℕ} → Represents w p e a → Represents w p e' b → Cong p a b → e ≡ e'
same_word {w} {p} {e} {e'} x y h =
    sym (mod-eq_of_lt x.reduced)
    ∙ Cong→mod
        (Cong-trans (Cong-sym x.congruent) (Cong-trans (Cong-mul_right (2 ^ w) h) y.congruent))
    ∙ mod-eq_of_lt y.reduced

module _ {w p : ℕ} {mul : ℕ → ℕ → ℕ} (law : IsMontgomery w p mul) {f : FieldElement ℕ}
    (sums : IsAdditive w p f) where
  abbrev of : (e : ℕ) → e < p → (a : ℕ) × Represents w p e a
  of e h = represented law e h

  positive : 0 < p
  positive = omega (arith, law.one_lt)

  -- The difference and the negative as integers.
  less : (a b : ℕ) → (a + b * (p - 1) + b) % p ≡ a % p
  less a b = Cong→mod (multiples 0 b (whole p positive))
    where
      whole : (p : ℕ) → 0 < p → a + b * (p - 1) + b + 0 * p ≡ a + b * p
      whole zero h = elim h [ ]
      whole (suc q) h = rw (pred q) (expand a b q)
        where
          pred : (q : ℕ) → suc q - 1 ≡ q
          pred q = omega arith

          expand : (a b q : ℕ) → a + b * q + b + 0 * suc q ≡ a + b * suc q
          expand a b q = omega arith

  minus : (a : ℕ) → (a * (p - 1) + a) % p ≡ 0
  minus a = ap (λ (t : ℕ). t % p) (plus (a * (p - 1)) a) ∙ less 0 a ∙ mod-eq_of_lt positive
    where
      plus : (t a : ℕ) → t + a ≡ 0 + t + a
      plus t a = omega arith

  sub-in : (e e' : ℕ) → e < p → e' < p → f.sub e e' < p
  sub-in e e' h k =
      let (a, x) = of e h in
      let (b, y) = of e' k in (sums.sub_lem (a + b * (p - 1)) x y (less a b)).reduced

  sub-add_lem : (e e' : ℕ) → e < p → e' < p → f.add (f.sub e e') e' ≡ e
  sub-add_lem e e' h k =
      let (a, x) = of e h in
      let (b, y) = of e' k in
      same_word (sums.add_lem (sums.sub_lem (a + b * (p - 1)) x y (less a b)) y) x
        (mod→Cong (less a b))

  add-neg_lem : (e : ℕ) → e < p → f.add e (f.neg e) ≡ f.zero_element
  add-neg_lem e h =
      let (a, x) = of e h in
      let sum = sums.add_lem x (sums.neg_lem (a * (p - 1)) x (minus a)) in
      same_word sum sums.zero_lem (
        mod→Cong
          (ap (λ (t : ℕ). t % p) (swap a (a * (p - 1))) ∙ minus a ∙ sym (mod-eq_of_lt positive)))
    where
      swap : (a t : ℕ) → a + t ≡ t + a
      swap a t = omega arith

  add_comm_lem : (e e' : ℕ) → e < p → e' < p → f.add e e' ≡ f.add e' e
  add_comm_lem e e' h k =
      let (a, x) = of e h in
      let (b, y) = of e' k in
      same_word (sums.add_lem x y) (sums.add_lem y x)
        (subst (λ (t : ℕ). Cong p (a + b) t) (swap a b) (Cong-refl (a + b)))
    where
      swap : (a b : ℕ) → a + b ≡ b + a
      swap a b = omega arith

  add_assoc_lem :
      (e e' e'' : ℕ) → e < p → e' < p → e'' < p → f.add (f.add e e') e'' ≡ f.add e (f.add e' e'')
  add_assoc_lem e e' e'' h k l =
      let (a, x) = of e h in
      let (b, y) = of e' k in
      let (c, z) = of e'' l in
      same_word (sums.add_lem (sums.add_lem x y) z) (sums.add_lem x (sums.add_lem y z))
        (subst (λ (t : ℕ). Cong p (a + b + c) t) (assoc a b c) (Cong-refl (a + b + c)))
    where
      assoc : (a b c : ℕ) → a + b + c ≡ a + (b + c)
      assoc a b c = omega arith

  add-zero_lem : (e : ℕ) → e < p → f.add e f.zero_element ≡ e
  add-zero_lem e h =
      let (a, x) = of e h in
      same_word (sums.add_lem x sums.zero_lem) x
        (subst (λ (t : ℕ). Cong p t a) (zero_right a) (Cong-refl a))
    where
      zero_right : (a : ℕ) → a ≡ a + 0
      zero_right a = omega arith

  module _ {S : Type 0} (conditional_select : ℕ → ℕ → Bool → ℕ) (generate_random : S → ℕ × S)
      (selects : (a b : ℕ) (c : Bool) → conditional_select a b c ≡ (if c then b else a))
      (random : (s : S) → (generate_random s).0 < p) where
    field_value-IsGroup :
        IsGroup (field_value conditional_select generate_random f) tt (λ (e : ℕ). e < p)
    field_value-IsGroup = record {
      generate-InRange = random;
      zero-InRange = sums.zero_lem.reduced;
      add-InRange = λ e e' h k. (sums.add_lem (of e h).1 (of e' k).1).reduced;
      sub-InRange = sub-in;
      negate-InRange = λ e h.
          rw (selects e (f.neg e) true)
            (sums.neg_lem ((of e h).0 * (p - 1)) (of e h).1 (minus (of e h).0)).reduced;
      add_comm = add_comm_lem;
      add_assoc = add_assoc_lem;
      add-zero = add-zero_lem;
      sub-add = sub-add_lem;
      add-negate = λ e h. rw (selects e (f.neg e) true) (add-neg_lem e h);
      keep = λ e. selects e (f.neg e) false;
      select = λ e e' c h k. selects e e' c;
    }

field64-IsAdditive : IsAdditive 64 fp64.p field64
field64-IsAdditive = record {
  zero_lem = record { reduced = omega arith; congruent = multiples 0 0 refl };
  add_lem = λ x y. Elements64.add-Represents fp64-IsValid x y;
  sub_lem = λ d x y h. Elements64.sub-Represents fp64-IsValid d x y h;
  neg_lem = λ d x h. Elements64.neg-Represents fp64-IsValid d x h;
}

field128-IsAdditive : IsAdditive 128 fp128.p field128
field128-IsAdditive = record {
  zero_lem = record { reduced = omega arith; congruent = multiples 0 0 refl };
  add_lem = λ x y. Elements128.add-Represents_u128 fp128-IsValid x y;
  sub_lem = λ d x y h. Elements128.sub-Represents_u128 fp128-IsValid d x y h;
  neg_lem = λ d x h. Elements128.neg-Represents_u128 fp128-IsValid d x h;
}

-- The elements of Field64 and of Field128 are Abelian groups, as the trait IdpfValue asks, if what
-- generates an element at random gives a reduced word.
module _ {S : Type 0} (conditional_select : ℕ → ℕ → Bool → ℕ) (generate_random : S → ℕ × S)
    (selects : (a b : ℕ) (c : Bool) → conditional_select a b c ≡ (if c then b else a)) where
  pub field64-IsGroup :
      ((s : S) → (generate_random s).0 < fp64.p)
      → IsGroup (field_value conditional_select generate_random field64) tt (λ e. e < fp64.p)
  field64-IsGroup random =
      field_value-IsGroup (Elements64.IsValid-IsMontgomery fp64-IsValid) field64-IsAdditive
        conditional_select generate_random selects random

  pub field128-IsGroup :
      ((s : S) → (generate_random s).0 < fp128.p)
      → IsGroup (field_value conditional_select generate_random field128) tt (λ e. e < fp128.p)
  field128-IsGroup random =
      field_value-IsGroup (Elements128.IsValid-IsMontgomery fp128-IsValid) field128-IsAdditive
        conditional_select generate_random selects random
