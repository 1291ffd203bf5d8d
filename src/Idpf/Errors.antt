-- ===== src/Idpf/Errors.antt =====
-- src/idpf.rs: the errors of an IDPF.
use mastic.Prelude.{ℕ}

-- The texts of `InvalidParameter`, by the numbers they print.
pub data Parameter : Type 0 where
  too_many_values too_few_values no_bits empty_prefix : Parameter
  invalid_aggregator_id : ℕ → Parameter
  prefix_too_long : ℕ → ℕ → Parameter

pub data IdpfError : Type 0 where
  mismatched_level : IdpfError
  invalid_parameter : Parameter → IdpfError
