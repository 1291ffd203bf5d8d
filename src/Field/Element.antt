-- ===== src/Field/Element.antt =====
-- src/field.rs: the traits `FieldElement` and `FieldElementWithInteger`, the elements that
-- `make_field!` makes of the field parameters, and the operations on vectors of elements.
pub mod Laws
pub mod Bitvector
mod Examples
use Prim.Native.Nat.{bit_and}
use mastic.Prelude.{
  ℕ, zero, suc, ◌+◌, ◌*◌, ◌/◌, ◌^◌, Bool, true, false, not, List, [], ◌∷◌, length, leb, ◌==◌,
  if◌then◌else◌, Result, ok, err,
}
use mastic.Field.Fp64
use mastic.Field.Fp64.{fp64}
use mastic.Field.Fp128
use mastic.Field.Fp128.Constants.{fp128}

pub data FieldError : Type 0 where
  input_size_mismatch short_read modulus_overflow io codec integer_try_from bit_vector_too_long :
      FieldError

-- What the operations below use of the two traits. The integers are numbers below
-- `2 ^ (8 * encoded_size)`.
pub record FieldElement (F : Type 0) : Type 0 where
  pub encoded_size : ℕ
  pub modulus : ℕ
  pub zero_element : F
  pub one_element : F
  pub add : F → F → F
  pub sub : F → F → F
  pub mul : F → F → F
  pub neg : F → F
  pub inv : F → F
  pub pow : F → ℕ → F
  pub from_integer : ℕ → F
  pub to_integer : F → ℕ

-- `make_field!` for Field64. `ONE` is the first of the roots.
abbrev pub field64 : FieldElement ℕ
field64 = record {
  encoded_size = 8;
  modulus = fp64.p;
  zero_element = 0;
  one_element = 4294967295;
  add = Fp64.add fp64;
  sub = Fp64.sub fp64;
  mul = Fp64.mul fp64;
  neg = Fp64.neg fp64;
  inv = Fp64.inv fp64;
  pow = Fp64.pow fp64;
  from_integer = Fp64.montgomery fp64;
  to_integer = Fp64.residue fp64;
}

abbrev pub field128 : FieldElement ℕ
field128 = record {
  encoded_size = 16;
  modulus = fp128.p;
  zero_element = 0;
  one_element = 516508834063867445247;
  add = Fp128.add fp128;
  sub = Fp128.sub fp128;
  mul = Fp128.mul fp128;
  neg = Fp128.neg fp128;
  inv = Fp128.inv fp128;
  pow = Fp128.pow fp128;
  from_integer = Fp128.montgomery fp128;
  to_integer = Fp128.residue fp128;
}

module _ {F : Type 0} (f : FieldElement F) where
  abbrev pub div : F → F → F
  div x y = f.mul x (f.inv y)

  unfoldable pub valid_integer_bitlength : ℕ → Bool
  valid_integer_bitlength bits =
      if leb (8 * f.encoded_size) bits
      then false
      else (if not (f.modulus / 2 ^ bits == 0) then true else false)

  -- What `BitvectorRepresentationIter` yields from a bit offset on.
  unfoldable pub bitvector_iter : ℕ → ℕ → ℕ → List F
  bitvector_iter input bit_offset zero = []
  bitvector_iter input bit_offset (suc rest) =
      f.from_integer (bit_and (input / 2 ^ bit_offset) 1)
      ∷ bitvector_iter input (suc bit_offset) rest

  unfoldable pub encode_as_bitvector : ℕ → ℕ → Result FieldError (List F)
  encode_as_bitvector input bits =
      if not (valid_integer_bitlength bits)
      then err bit_vector_too_long
      else (if not (input / 2 ^ bits == 0)
          then err input_size_mismatch
          else ok (bitvector_iter input 0 bits))

  unfoldable pub bitvector_sum : F → List F → F → F → F
  bitvector_sum two [] decoded power_of_two = decoded
  bitvector_sum two (value ∷ input) decoded power_of_two =
      bitvector_sum two input (f.add decoded (f.mul value power_of_two)) (f.mul power_of_two two)

  unfoldable pub decode_bitvector : List F → Result FieldError F
  decode_bitvector input =
      if not (valid_integer_bitlength (length input))
      then err bit_vector_too_long
      else ok (bitvector_sum (f.add f.one_element f.one_element) input f.zero_element f.one_element)

  unfoldable pub merge_elements : List F → List F → List F
  merge_elements [] other = []
  merge_elements (a ∷ accumulator) [] = a ∷ accumulator
  merge_elements (a ∷ accumulator) (o ∷ other) = f.add a o ∷ merge_elements accumulator other

  -- The accumulator after the call, beside the result.
  unfoldable pub merge_vector : List F → List F → List F × Result FieldError (Unit {0})
  merge_vector accumulator other =
      if not (length accumulator == length other)
      then (accumulator, err input_size_mismatch)
      else (merge_elements accumulator other, ok tt)
