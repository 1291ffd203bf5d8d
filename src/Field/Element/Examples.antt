-- ===== src/Field/Element/Examples.antt =====
-- Runs of the bit vectors of src/field.rs in Field64.
use mastic.Prelude.{ℕ, true, ◌<◌, ◌^◌, ◌+◌, ◌%◌, ◌≡◌, refl, arith, List, [], ◌∷◌, ok, err}
use mastic.Field.Montgomery.{Represents}
use mastic.Field.Fp64.{fp64, montgomery, residue}
use mastic.Field.Fp64.Elements.{montgomery-Represents}
use mastic.Field.Fp64.Constants.{fp64-IsValid}
use mastic.Field.Element.{
  field64, valid_integer_bitlength, encode_as_bitvector, decode_bitvector, merge_vector,
  bitvector_iter, bit_vector_too_long, input_size_mismatch,
}
use mastic.Field.Element.Laws.{field64-IsField}
use mastic.Field.Element.Bitvector.{
  none, more, decode_bitvector-encode_as_bitvector, decode_bitvector-merge_vector,
}

valid3 : valid_integer_bitlength field64 3 ≡ true
unfolding valid_integer_bitlength
valid3 = refl

too_long : encode_as_bitvector field64 0 64 ≡ err bit_vector_too_long
unfolding encode_as_bitvector valid_integer_bitlength
too_long = refl

too_large : encode_as_bitvector field64 8 3 ≡ err input_size_mismatch
unfolding encode_as_bitvector valid_integer_bitlength
too_large = refl

bits_of_five :
    encode_as_bitvector field64 5 3
    ≡ ok (montgomery fp64 1 ∷ montgomery fp64 0 ∷ montgomery fp64 1 ∷ [])
unfolding encode_as_bitvector valid_integer_bitlength bitvector_iter
bits_of_five = refl

decode_bitvector-encode_as_bitvector_example :
    (v : List ℕ) × (e : ℕ) × (encode_as_bitvector field64 5 3 ≡ ok v)
    × (decode_bitvector field64 v ≡ ok e)
    × (residue fp64 e ≡ 5)
decode_bitvector-encode_as_bitvector_example =
    decode_bitvector-encode_as_bitvector field64-IsField 5 3 valid3 (omega arith)

-- Two shares of 5: the digits 3, 7, 2 and the rest modulo the modulus.
abbrev shares : List ℕ
shares = montgomery fp64 3 ∷ montgomery fp64 7 ∷ montgomery fp64 2 ∷ []

abbrev other_shares : List ℕ
other_shares =
    montgomery fp64 18446744069414584319
    ∷ montgomery fp64 18446744069414584314
    ∷ montgomery fp64 18446744069414584320
    ∷ []

stands : (a : ℕ) → a < 2 ^ 64 → Represents 64 fp64.p (montgomery fp64 a) a
stands a h = montgomery-Represents fp64-IsValid a h

decode_bitvector-merge_vector_example :
    (merged : List ℕ) × (x : ℕ) × (y : ℕ) × (z : ℕ) × (merge_vector field64 shares other_shares
      ≡ (merged, ok tt))
    × (decode_bitvector field64 shares ≡ ok x)
    × (decode_bitvector field64 other_shares ≡ ok y)
    × (decode_bitvector field64 merged ≡ ok z)
    × (residue fp64 z ≡ (residue fp64 x + residue fp64 y) % fp64.p)
decode_bitvector-merge_vector_example =
    decode_bitvector-merge_vector field64-IsField
      (more (stands 3 (omega arith))
        (more (stands 7 (omega arith)) (more (stands 2 (omega arith)) none)))
      (more (stands 18446744069414584319 (omega arith)) (
        more (stands 18446744069414584314 (omega arith))
          (more (stands 18446744069414584320 (omega arith)) none)))
      refl valid3
