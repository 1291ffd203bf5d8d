-- ===== src/Field/Fp64/Constants.antt =====
-- src/fp64.rs: the constants of `FP64` are what the comments on the fields of
-- `FieldParameters64` say.
use mastic.Prelude.{refl, arith}
use mastic.Field.Fp64.{fp64}
use mastic.Field.Fp64.Reduction.{IsValid}

pub fp64-IsValid : IsValid fp64
fp64-IsValid = record { one_lt = omega arith; p-lt = omega arith; mu_lem = refl; r2_lem = refl }
