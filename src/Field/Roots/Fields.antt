-- ===== src/Field/Roots/Fields.antt =====
-- src/field.rs: the orders of the generators and of the roots of unity.
use mastic.Prelude.{
  ℕ, zero, suc, ◌+◌, ◌^◌, ◌<◌, ◌≤◌, ◌≡◌, refl, ◌⊎◌, inl, inr, arith, false, List, [], ◌∷◌, length,
  Option, none, some, ltb, ltb→lt, Bool-cases,
}
use mastic.Field.Montgomery.{IsMontgomery}
use mastic.Field.Fp64.{fp64}
use mastic.Field.Fp128.Constants.{fp32, fp128, fp32-IsValid, fp128-IsValid}
use mastic.Field.Fp64.Constants.{fp64-IsValid}
use mastic.Field.Fp64.Elements as Elements64
use mastic.Field.Fp128.Elements as Elements128
use mastic.Field.Roots.{get_elem?, min, root, FftField, fp32_field, fp64_field, fp128_field, fft}
use mastic.Field.Roots.Order.{HasOrder, HasRoots, HasRoots-HasOrder, Halves-HasOrder}
use mastic.Field.Roots.Word64.{fp64-HasRoots, generator-Halves}
use mastic.Field.Roots.Word128.{
  fp32-HasRoots, fp128-HasRoots, fp32_generator-Halves, fp128_generator-Halves,
}

abbrev pub width_of : FftField → ℕ
width_of fp64_field = 64
width_of _ = 128

abbrev pub modulus_of : FftField → ℕ
modulus_of fp32_field = fp32.p
modulus_of fp64_field = fp64.p
modulus_of fp128_field = fp128.p

get_elem?-lt : (roots : List ℕ) (l : ℕ) → l < length roots → (r : ℕ) × (get_elem? roots l ≡ some r)
get_elem?-lt [] l h = elim h [ ]
get_elem?-lt (r ∷ roots) zero h = (r, refl)
get_elem?-lt (r ∷ roots) (suc l) h = get_elem?-lt roots l (omega (arith, h))

-- `MAX_ROOTS` is 20: a longer index has no root.
abbrev pub RootCases : ℕ → ℕ → (ℕ → Option ℕ) → ℕ → Type 0
RootCases w p root l =
    ((20 < l) × (root l ≡ none)) ⊎ ((l ≤ 20) × (r : ℕ) × (root l ≡ some r) × HasOrder w p (2 ^ l) r)

module _ {w p : ℕ} {mul : ℕ → ℕ → ℕ} (law : IsMontgomery w p mul) where
  root-RootCases :
      (roots : List ℕ) (num_roots l : ℕ)
      → length roots ≡ 21
      → 20 ≤ num_roots
      → HasRoots law roots
      → RootCases w p (root roots num_roots) l
  unfolding root
  root-RootCases roots num_roots l len many x =
      elim (Bool-cases (ltb l (min (length roots) (num_roots + 1)))) [
        | inl e ↦
            let below = in_list (length roots) num_roots l len many (ltb→lt l _ e) in
            let (r, f) = get_elem?-lt roots l (omega (arith, below, len)) in
            inr (below, r, rw e f, HasRoots-HasOrder law roots l r x f)
        | inr e ↦ inl (outside (length roots) num_roots l len many e, rw e refl)
      ]
    where
      in_list : (n num_roots l : ℕ) → n ≡ 21 → 20 ≤ num_roots → l < min n (num_roots + 1) → l ≤ 20
      in_list n num_roots l len many h = ground arith

      outside :
          (n num_roots l : ℕ)
          → n ≡ 21
          → 20 ≤ num_roots
          → ltb l (min n (num_roots + 1)) ≡ false
          → 20 < l
      outside n num_roots l len many h = ground arith

-- In each field that `make_field!` makes, the generator has the order `generator_order`, which is a
-- power of 2, and `root l` has the order `2 ^ l` for each `l` up to 20, and is none for a greater `l`.
pub generator-root-HasOrder :
    (f : FftField) (l : ℕ)
    → HasOrder (width_of f) (modulus_of f) (fft f).generator_order (fft f).generator
      × RootCases (width_of f) (modulus_of f) (fft f).root l
generator-root-HasOrder fp32_field l = (
  Halves-HasOrder (Elements128.IsValid-IsMontgomery fp32-IsValid) 19 fp32.g fp32_generator-Halves,
  root-RootCases (Elements128.IsValid-IsMontgomery fp32-IsValid) fp32.roots fp32.num_roots l refl
      (omega arith) fp32-HasRoots,
)
generator-root-HasOrder fp64_field l = (
  Halves-HasOrder (Elements64.IsValid-IsMontgomery fp64-IsValid) 31 fp64.g generator-Halves,
  root-RootCases (Elements64.IsValid-IsMontgomery fp64-IsValid) fp64.roots fp64.num_roots l refl
      (omega arith) fp64-HasRoots,
)
generator-root-HasOrder fp128_field l = (
  Halves-HasOrder (Elements128.IsValid-IsMontgomery fp128-IsValid) 65 fp128.g
      fp128_generator-Halves,
  root-RootCases (Elements128.IsValid-IsMontgomery fp128-IsValid) fp128.roots fp128.num_roots l refl
      (omega arith) fp128-HasRoots,
)
