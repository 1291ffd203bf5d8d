-- ===== src/Poplar1/AggregationParam/Wire/Chunks.antt =====
-- src/vdaf/poplar1.rs: the prefixes are cut out of the bits as they were put together.
use mathlib.Core.List.{reverse-reverse, reverse-cons}
use mastic.Prelude.{
  ℕ, suc, ◌+◌, ◌*◌, ◌≡◌, refl, ap, ◌∙◌, subst, Bool, List, [], ◌∷◌, ◌++◌, append_assoc, map,
  reverse, length, length-append, All, take, drop, take-append_left, drop-append_left, le→leb,
  arith,
}
use mastic.Idpf.Tree.{IdpfInput}
use mastic.Poplar1.AggregationParam.Wire.{reversed_bits, chunks_exact}

pub length-reverse : {A : Type 0} (p : List A) → length (reverse p) ≡ length p
length-reverse [] = refl
length-reverse {A} (b ∷ p) =
    ap (λ (q : List A). length q) (reverse-cons b p)
    ∙ omega (arith, length-append (reverse p) (b ∷ []), length-reverse p)

pub length-reversed_bits :
    (n : ℕ) (prefixes : List IdpfInput)
    → All (λ p. length p ≡ n) prefixes
    → length (reversed_bits prefixes) ≡ n * length prefixes
unfolding reversed_bits
length-reversed_bits n [] h = omega arith
length-reversed_bits n (p ∷ prefixes) (hp, h) =
    length-append (reverse p) (reversed_bits prefixes)
    ∙ omega
        (arith, length-reverse p, hp, length-reversed_bits n prefixes h, step n (length prefixes))
  where
    step : (n m : ℕ) → n * suc m ≡ n + n * m
    step n m = omega arith

-- The first of `n` elements, and the others.
cut :
    (n : ℕ) (xs ys : List Bool)
    → length xs ≡ n
    → (take n (xs ++ ys) ≡ xs) × (drop n (xs ++ ys) ≡ ys)
cut n xs ys h =
    subst (λ (m : ℕ). (take m (xs ++ ys) ≡ xs) × (drop m (xs ++ ys) ≡ ys)) h
      (take-append_left xs ys, drop-append_left xs ys)

pub chunks_exact-reversed_bits :
    (n : ℕ) (prefixes : List IdpfInput) (back : List Bool)
    → All (λ p. length p ≡ n) prefixes
    → map
        (λ (chunk : List Bool). reverse chunk)
        (chunks_exact n (length prefixes) (reversed_bits prefixes ++ back))
      ≡ prefixes
unfolding chunks_exact reversed_bits
chunks_exact-reversed_bits n [] back h = refl
chunks_exact-reversed_bits n (p ∷ prefixes) back (hp, h) =
    rw
      (
        append_assoc (reverse p) (reversed_bits prefixes) back,
        le→leb n (length (reverse p ++ (reversed_bits prefixes ++ back))) (
            omega (
              arith,
              length-append (reverse p) (reversed_bits prefixes ++ back),
              length-reverse p,
              hp,
            )),
        (cut n (reverse p) (reversed_bits prefixes ++ back) (length-reverse p ∙ hp)).0,
        (cut n (reverse p) (reversed_bits prefixes ++ back) (length-reverse p ∙ hp)).1,
        reverse-reverse p,
        chunks_exact-reversed_bits n prefixes back h,
      )
      refl
