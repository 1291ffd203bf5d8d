-- ===== src/Field/Element/Bitvector.antt =====
-- src/field.rs: bit vectors of field elements, and their sums.
use native.Mathlib.Nat.{pow-suc, div-div-eq-div-mul, mod-eq_of_lt, add-mod, div-eq_of_lt}
use mastic.Prelude.{
  ℕ, zero, suc, ◌+◌, ◌*◌, ◌/◌, ◌%◌, ◌^◌, ◌≤◌, ◌<◌, ◌≡◌, refl, ap, ◌∙◌, sym, subst, arith, true,
  List, [], ◌∷◌, length, ok, Bool-cases, inl, inr, leb, ◌==◌, leb→le,
}
use mastic.Field.Words.Bits.{bit_and_low, mod-pow-suc}
use mastic.Field.Element.{
  FieldElement, valid_integer_bitlength, bitvector_iter, encode_as_bitvector, bitvector_sum,
  decode_bitvector, merge_elements, merge_vector,
}
use mastic.Field.Element.Laws.{IsField}

-- The number whose binary digits are the given numbers, the lowest first.
abbrev pub weight : List ℕ → ℕ
weight [] = 0
weight (a ∷ ns) = a + 2 * weight ns

abbrev pub digits : ℕ → ℕ → List ℕ
digits input zero = []
digits input (suc n) = (input % 2) ∷ digits (input / 2) n

weight-digits : (input n : ℕ) → weight (digits input n) ≡ input % 2 ^ n
weight-digits input zero = omega arith
weight-digits input (suc n) = omega (arith, weight-digits (input / 2) n, mod-pow-suc n input)

abbrev pub sums : List ℕ → List ℕ → List ℕ
sums [] ms = []
sums (a ∷ ns) [] = a ∷ ns
sums (a ∷ ns) (b ∷ ms) = (a + b) ∷ sums ns ms

weight-sums : (ns ms : List ℕ) → length ns ≡ length ms → weight (sums ns ms) ≡ weight ns + weight ms
weight-sums [] [] h = refl
weight-sums [] (b ∷ ms) h = absurd (omega arith)
weight-sums (a ∷ ns) [] h = absurd (omega arith)
weight-sums (a ∷ ns) (b ∷ ms) h = omega (arith, weight-sums ns ms (omega arith))

-- The elements stand for the integers, one by one.
pub data StandAll {F : Type 0} (Stands : F → ℕ → Type 0) : List F → List ℕ → Type 0 where
  none : StandAll Stands [] []
  more :
      {e : F} {es : List F} {a : ℕ} {ns : List ℕ}
      → Stands e a
      → StandAll Stands es ns
      → StandAll Stands (e ∷ es) (a ∷ ns)

module _ {F : Type 0} {f : FieldElement F} {Stands : F → ℕ → Type 0} (law : IsField f Stands) where
  StandAll-length : {es : List F} {ns : List ℕ} → StandAll Stands es ns → length es ≡ length ns
  StandAll-length none = refl
  StandAll-length (more x xs) = ap suc (StandAll-length xs)

  bitvector_sum_lem :
      {es : List F} {ns : List ℕ} (two decoded power : F) (d q : ℕ)
      → Stands two 2
      → StandAll Stands es ns
      → Stands decoded d
      → Stands power q
      → Stands (bitvector_sum f two es decoded power) (d + q * weight ns)
  unfolding bitvector_sum
  bitvector_sum_lem two decoded power d q ht none hd hq = subst (Stands decoded) (omega arith) hd
  bitvector_sum_lem two decoded power d q ht (more {e = e} {es = es} {a = a} {ns = ns} x xs) hd hq =
      let total : d + a * q + q * 2 * weight ns ≡ d + q * (a + 2 * weight ns) = omega arith in
      subst (Stands (bitvector_sum f two es (f.add decoded (f.mul e power)) (f.mul power two)))
        total
        (bitvector_sum_lem two (f.add decoded (f.mul e power)) (f.mul power two) (d + a * q) (q * 2)
          ht xs (law.add_lem hd (law.mul_lem x hq)) (law.mul_lem hq ht))

  decode_bitvector_lem :
      {es : List F} {ns : List ℕ}
      → valid_integer_bitlength f (length es) ≡ true
      → StandAll Stands es ns
      → (e : F) × (decode_bitvector f es ≡ ok e) × Stands e (weight ns)
  unfolding decode_bitvector
  decode_bitvector_lem {es = es} {ns = ns} valid xs =
      let two = f.add f.one_element f.one_element in
      let total : 0 + 1 * weight ns ≡ weight ns = omega arith in
      (
        bitvector_sum f two es f.zero_element f.one_element,
        rw valid refl,
        subst (Stands (bitvector_sum f two es f.zero_element f.one_element)) total (
            bitvector_sum_lem two f.zero_element f.one_element 0 1
              (law.add_lem law.one_lem law.one_lem) xs law.zero_lem law.one_lem),
      )

  bitvector_iter_lem :
      (input o n : ℕ) → StandAll Stands (bitvector_iter f input o n) (digits (input / 2 ^ o) n)
  unfolding bitvector_iter
  bitvector_iter_lem input o zero = none
  bitvector_iter_lem input o (suc n) =
      more
        (subst (λ (b : ℕ). Stands (f.from_integer b) (input / 2 ^ o % 2))
          (sym (bit_and_low 1 (input / 2 ^ o)))
          (law.from_lem (input / 2 ^ o % 2) (omega (arith, law.one_lt))))
        (subst (λ (h : ℕ). StandAll Stands (bitvector_iter f input (suc o) n) (digits h n)) halved
          (bitvector_iter_lem input (suc o) n))
    where
      halved : input / 2 ^ suc o ≡ input / 2 ^ o / 2
      halved = ap (λ (d : ℕ). input / d) (pow-suc 2 o) ∙ sym (div-div-eq-div-mul input (2 ^ o) 2)

  bitvector_iter-length : (input o n : ℕ) → length (bitvector_iter f input o n) ≡ n
  unfolding bitvector_iter
  bitvector_iter-length input o zero = refl
  bitvector_iter-length input o (suc n) = ap suc (bitvector_iter-length input (suc o) n)

  -- A valid length has all its numbers below the modulus.
  valid-le : (bits : ℕ) → valid_integer_bitlength f bits ≡ true → 2 ^ bits ≤ f.modulus
  unfolding valid_integer_bitlength
  valid-le bits valid = elim (Bool-cases (leb (2 ^ bits) f.modulus)) [
    | inl fits ↦ leb→le (2 ^ bits) f.modulus fits
    | inr above ↦ ground (arith, div-eq_of_lt {n = f.modulus} {m = 2 ^ bits} (ground arith))
  ]

  -- A number that fits a valid number of bits is encoded, and decoding gives an element that
  -- has the number as its integer.
  pub decode_bitvector-encode_as_bitvector :
      (input bits : ℕ)
      → valid_integer_bitlength f bits ≡ true
      → input < 2 ^ bits
      → (v : List F) × (e : F) × (encode_as_bitvector f input bits ≡ ok v)
        × (decode_bitvector f v ≡ ok e)
        × (f.to_integer e ≡ input)
  unfolding encode_as_bitvector
  decode_bitvector-encode_as_bitvector input bits valid h =
      let v = bitvector_iter f input 0 bits in
      let valid_v : valid_integer_bitlength f (length v) ≡ true =
        subst (λ (n : ℕ). valid_integer_bitlength f n ≡ true)
          (sym (bitvector_iter-length input 0 bits)) valid in
      let (e, decoded, stands) = decode_bitvector_lem valid_v (bitvector_iter_lem input 0 bits) in
      (v, e, rw (valid, div-eq_of_lt h) refl, decoded, law.to_lem stands ∙ value)
    where
      value : weight (digits (input / 2 ^ 0) bits) % f.modulus ≡ input
      value =
          let whole : input / 2 ^ 0 ≡ input = omega arith in
          ap (λ (n : ℕ). n % f.modulus)
            (weight-digits (input / 2 ^ 0) bits
              ∙ ap (λ (n : ℕ). n % 2 ^ bits) whole
              ∙ mod-eq_of_lt h)
          ∙ mod-eq_of_lt (omega (arith, valid-le bits valid))

  merge_elements_lem :
      {es es' : List F} {ns ms : List ℕ}
      → StandAll Stands es ns
      → StandAll Stands es' ms
      → length es ≡ length es'
      → StandAll Stands (merge_elements f es es') (sums ns ms)
  unfolding merge_elements
  merge_elements_lem none none h = none
  merge_elements_lem none (more y ys) h = absurd (omega arith)
  merge_elements_lem (more x xs) none h = absurd (omega arith)
  merge_elements_lem (more x xs) (more y ys) h =
      more (law.add_lem x y) (merge_elements_lem xs ys (omega arith))

  merge_elements-length :
      (es es' : List F) → length es ≡ length es' → length (merge_elements f es es') ≡ length es
  unfolding merge_elements
  merge_elements-length [] es' h = refl
  merge_elements-length (e ∷ es) [] h = absurd (omega arith)
  merge_elements-length (e ∷ es) (e' ∷ es') h = ap suc (merge_elements-length es es' (omega arith))

  -- Decoding is linear: the merged vector of two has the sum of their decoded integers.
  pub decode_bitvector-merge_vector :
      {es es' : List F} {ns ms : List ℕ}
      → StandAll Stands es ns
      → StandAll Stands es' ms
      → length es ≡ length es'
      → valid_integer_bitlength f (length es) ≡ true
      → (merged : List F) × (x : F) × (y : F) × (z : F) × (merge_vector f es es' ≡ (merged, ok tt))
        × (decode_bitvector f es ≡ ok x)
        × (decode_bitvector f es' ≡ ok y)
        × (decode_bitvector f merged ≡ ok z)
        × (f.to_integer z ≡ (f.to_integer x + f.to_integer y) % f.modulus)
  unfolding merge_vector
  decode_bitvector-merge_vector {es = es} {es' = es'} {ns = ns} {ms = ms} xs ys h valid =
      let lengths : length ns ≡ length ms = sym (StandAll-length xs) ∙ h ∙ StandAll-length ys in
      let same : (length es == length es') ≡ true = ground arith in
      let (x, decoded_x, stands_x) = decode_bitvector_lem valid xs in
      let (y, decoded_y, stands_y) =
        decode_bitvector_lem (subst (λ (n : ℕ). valid_integer_bitlength f n ≡ true) h valid) ys in
      let (z, decoded_z, stands_z) =
        decode_bitvector_lem
          (subst (λ (n : ℕ). valid_integer_bitlength f n ≡ true)
            (sym (merge_elements-length es es' h)) valid)
          (merge_elements_lem xs ys h) in
      (
        merge_elements f es es',
        x,
        y,
        z,
        rw same refl,
        decoded_x,
        decoded_y,
        decoded_z,
        law.to_lem stands_z
            ∙ ap (λ (n : ℕ). n % f.modulus) (weight-sums ns ms lengths)
            ∙ add-mod (weight ns) (weight ms) f.modulus
            ∙ rw (sym (law.to_lem stands_x), sym (law.to_lem stands_y)) refl,
      )
