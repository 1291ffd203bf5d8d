-- ===== src/Field/Element/Laws.antt =====
-- src/field.rs: what the operations on vectors rely on, and that Field64 and Field128 have it.
use mastic.Prelude.{ℕ, ◌+◌, ◌*◌, ◌%◌, ◌<◌, ◌≡◌, refl, arith}
use mastic.Field.Congruence.{multiples}
use mastic.Field.Montgomery.{Represents}
use mastic.Field.Fp64.{fp64}
use mastic.Field.Fp64.Elements
use mastic.Field.Fp64.Constants.{fp64-IsValid}
use mastic.Field.Fp128.Elements as Elements128
use mastic.Field.Fp128.Constants.{fp128, fp128-IsValid}
use mastic.Field.Element.{FieldElement, field64, field128}

-- Elements stand for integers, modulo the modulus.
pub record IsField {F : Type 0} (f : FieldElement F) (Stands : F → ℕ → Type 0) : Type 0 where
  pub one_lt : 1 < f.modulus
  pub zero_lem : Stands f.zero_element 0
  pub one_lem : Stands f.one_element 1
  pub add_lem : {e e' : F} {a b : ℕ} → Stands e a → Stands e' b → Stands (f.add e e') (a + b)
  pub mul_lem : {e e' : F} {a b : ℕ} → Stands e a → Stands e' b → Stands (f.mul e e') (a * b)
  pub from_lem : (n : ℕ) → n < f.modulus → Stands (f.from_integer n) n
  pub to_lem : {e : F} {a : ℕ} → Stands e a → f.to_integer e ≡ a % f.modulus

pub field64-IsField : IsField field64 (Represents 64 fp64.p)
field64-IsField = record {
  one_lt = omega arith;
  zero_lem = record { reduced = omega arith; congruent = multiples 0 0 refl };
  one_lem = record { reduced = omega arith; congruent = multiples 0 1 refl };
  add_lem = λ x y. Elements.add-Represents fp64-IsValid x y;
  mul_lem = λ x y. Elements.mul-Represents fp64-IsValid x y;
  from_lem = λ n h. Elements.montgomery-Represents fp64-IsValid n (omega arith);
  to_lem = λ x. Elements.residue-Represents fp64-IsValid x;
}

pub field128-IsField : IsField field128 (Represents 128 fp128.p)
field128-IsField = record {
  one_lt = omega arith;
  zero_lem = record { reduced = omega arith; congruent = multiples 0 0 refl };
  one_lem = record { reduced = omega arith; congruent = multiples 0 1 refl };
  add_lem = λ x y. Elements128.add-Represents_u128 fp128-IsValid x y;
  mul_lem = λ x y. Elements128.mul-Represents_u128 fp128-IsValid x y;
  from_lem = λ n h. Elements128.montgomery-Represents_u128 fp128-IsValid n (omega arith);
  to_lem = λ x. Elements128.residue-Represents_u128 fp128-IsValid x;
}
