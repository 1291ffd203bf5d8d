-- ===== src/Field/Montgomery/Sums.antt =====
-- Addition and subtraction of representatives, for src/fp64.rs and src/fp.rs.
use Prim.Native.Nat.{bit_and}
use native.Mathlib.Nat.{mod-eq_of_lt, mod-eq-sub-mod, add-mod_right, mod-lt}
use mastic.Prelude.{
  ℕ, ◌+◌, ◌-◌, ◌*◌, ◌%◌, ◌^◌, ◌≤◌, ◌<◌, ◌≡◌, ap, ◌∙◌, sym, subst, arith, ltb, leb, if◌then◌else◌,
  Bool-cases, inl, inr,
}
use mastic.Field.Words.{wrapping_add, wrapping_sub, as_int}
use mastic.Field.Words.Select.{
  mask_and, pow_pos, final_subtraction, final_subtraction_lem, difference,
}
use mastic.Field.Congruence.{
  Cong, multiples, Cong-refl, Cong-sym, Cong-trans, Cong-add, Cong-add_cancel, Cong-mul_right,
  mod→Cong,
}
use mastic.Field.Montgomery.{Represents}

-- A sum of two words is its carry and its low word.
sum_words :
    (w x y : ℕ)
    → x < 2 ^ w
    → y < 2 ^ w
    → as_int (leb (2 ^ w) (x + y)) * 2 ^ w + (x + y) % 2 ^ w ≡ x + y
sum_words w x y hx hy = elim (Bool-cases (leb (2 ^ w) (x + y))) [
  | inl above ↦ rw above (carried (ground arith))
  | inr below ↦ rw below (omega (arith, mod-eq_of_lt {n = x + y} {m = 2 ^ w} (ground arith)))
]
  where
    carried : 2 ^ w ≤ x + y → 1 * 2 ^ w + (x + y) % 2 ^ w ≡ x + y
    carried h =
        omega (arith, mod-eq-sub-mod h, mod-eq_of_lt {n = x + y - 2 ^ w} {m = 2 ^ w} (omega arith))

pub add_lem :
    {w p e f a b : ℕ}
    → p < 2 ^ w
    → Represents w p e a
    → Represents w p f b
    → Represents w p
        (final_subtraction w p (as_int (leb (2 ^ w) (e + f))) ((e + f) % 2 ^ w))
        (a + b)
add_lem {w = w} {p = p} {e = e} {f = f} {a = a} {b = b} hp x y =
    subst (λ (t : ℕ). Represents w p t (a + b)) (sym value)
      (record {
        reduced = ground (arith, x.reduced, y.reduced);
        congruent = elim (Bool-cases (ltb (e + f) p)) [
          | inl below ↦ rw below sums
          | inr above ↦ rw above (Cong-trans sums (multiples 0 1 (ground arith)))
        ];
      })
  where
    value :
        final_subtraction w p (as_int (leb (2 ^ w) (e + f))) ((e + f) % 2 ^ w)
        ≡ (if ltb (e + f) p then e + f else e + f - p)
    value =
        let total = sum_words w e f (omega (arith, x.reduced)) (omega (arith, y.reduced)) in
        subst
          (λ (t : ℕ).
            final_subtraction w p (as_int (leb (2 ^ w) (e + f))) ((e + f) % 2 ^ w)
            ≡ (if ltb t p then t else t - p))
          total
          (final_subtraction_lem w p (as_int (leb (2 ^ w) (e + f))) ((e + f) % 2 ^ w) hp
            (mod-lt (e + f) (pow_pos w)) (omega (arith, total, x.reduced, y.reduced)))

    sums : Cong p ((a + b) * 2 ^ w) (e + f)
    sums =
        let products : a * 2 ^ w + b * 2 ^ w ≡ (a + b) * 2 ^ w = omega arith in
        subst (λ (t : ℕ). Cong p t (e + f)) products (Cong-add x.congruent y.congruent)

-- The end of `sub`.
sub_value :
    (w p x y : ℕ)
    → p < 2 ^ w
    → x < p
    → y < p
    → wrapping_add w ((x + 2 ^ w - y) % 2 ^ w) (bit_and (wrapping_sub w 0 (as_int (ltb x y))) p)
      ≡ (if ltb x y then x + p - y else x - y)
sub_value w p x y hp hx hy =
    rw (mask_and w (ltb x y) p hp, difference w y x (omega arith) (omega arith))
      (elim (Bool-cases (ltb x y)) [
        | inl below ↦ rw below (wraps (ground arith))
        | inr above ↦ rw above (stays (ground arith))
      ])
  where
    wraps : x < y → (x + 2 ^ w - y + p) % 2 ^ w ≡ x + p - y
    wraps h =
        let whole : x + 2 ^ w - y + p ≡ (x + p - y) + 2 ^ w = omega arith in
        ap (λ (t : ℕ). t % 2 ^ w) whole
        ∙ add-mod_right (x + p - y) (2 ^ w)
        ∙ mod-eq_of_lt (omega arith)

    stays : y ≤ x → (x - y + 0) % 2 ^ w ≡ x - y
    stays h =
        let whole : x - y + 0 ≡ x - y = omega arith in
        ap (λ (t : ℕ). t % 2 ^ w) whole ∙ mod-eq_of_lt (omega arith)

pub sub_lem :
    {w p e f a b : ℕ} (d : ℕ)
    → p < 2 ^ w
    → Represents w p e a
    → Represents w p f b
    → (d + b) % p ≡ a % p
    → Represents w p
        (wrapping_add w ((e + 2 ^ w - f) % 2 ^ w) (bit_and (wrapping_sub w 0 (as_int (ltb e f))) p))
        d
sub_lem {w = w} {p = p} {e = e} {f = f} {a = a} {b = b} d hp x y h =
    subst (λ (t : ℕ). Represents w p t d) (sym (sub_value w p e f hp x.reduced y.reduced))
      (record {
        reduced = ground (arith, x.reduced, y.reduced);
        congruent = Cong-add_cancel f (Cong-trans sums back);
      })
  where
    sums : Cong p (d * 2 ^ w + f) e
    sums =
        let products : (d + b) * 2 ^ w ≡ d * 2 ^ w + b * 2 ^ w = omega arith in
        Cong-trans (Cong-add (Cong-refl (d * 2 ^ w)) (Cong-sym y.congruent)) (
          Cong-trans
            (subst (λ (t : ℕ). Cong p t (a * 2 ^ w)) products (Cong-mul_right (2 ^ w) (mod→Cong h)))
            x.congruent)

    back : Cong p e ((if ltb e f then e + p - f else e - f) + f)
    back = elim (Bool-cases (ltb e f)) [
      | inl below ↦ rw below (multiples 1 0 (ground (arith, y.reduced)))
      | inr above ↦ rw above (multiples 0 0 (ground arith))
    ]
