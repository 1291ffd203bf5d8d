-- ===== src/Field/Roots.antt =====
-- src/field.rs: the trait `FftFriendlyFieldElement`, and what `make_field!` makes of it for the
-- three fields of src/fp.rs and src/fp64.rs.
pub mod Order
pub mod Word64
pub mod Word128
pub mod Fields
use mastic.Prelude.{
  ℕ, zero, suc, ◌+◌, ◌^◌, List, [], ◌∷◌, length, Option, none, some, ltb, if◌then◌else◌,
}
use mastic.Field.Fp64.{fp64}
use mastic.Field.Fp128.Constants.{fp32, fp128}

pub record FftFriendlyFieldElement (F : Type 0) : Type 0 where
  pub generator : F
  pub generator_order : ℕ
  pub root : ℕ → Option F

abbrev pub get_elem? : List ℕ → ℕ → Option ℕ
get_elem? [] l = none
get_elem? (r ∷ roots) zero = some r
get_elem? (r ∷ roots) (suc l) = get_elem? roots l

abbrev pub min : ℕ → ℕ → ℕ
min m n = if ltb n m then n else m

-- The index is below the length of the array.
unfoldable pub root : List ℕ → ℕ → ℕ → Option ℕ
root roots num_roots l =
    if ltb l (min (length roots) (num_roots + 1)) then get_elem? roots l else none

-- The calls of `make_field!`.
pub data FftField : Type 0 where
  fp32_field fp64_field fp128_field : FftField

abbrev pub fft : FftField → FftFriendlyFieldElement ℕ
fft fp32_field = record {
  generator = fp32.g;
  generator_order = 2 ^ fp32.num_roots;
  root = root fp32.roots fp32.num_roots;
}
fft fp64_field = record {
  generator = fp64.g;
  generator_order = 2 ^ fp64.num_roots;
  root = root fp64.roots fp64.num_roots;
}
fft fp128_field = record {
  generator = fp128.g;
  generator_order = 2 ^ fp128.num_roots;
  root = root fp128.roots fp128.num_roots;
}
