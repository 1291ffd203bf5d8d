-- ===== src/Polynomial/Examples.antt =====
-- Runs of src/polynomial.rs in Field64.
use mastic.Prelude.{ℕ, ◌≡◌, ◌<◌, ◌^◌, refl, arith, List, [], ◌∷◌}
use mastic.Field.Montgomery.{Represents}
use mastic.Field.Fp64.{fp64, montgomery, residue, mul, add, modp}
use mastic.Field.Fp64.Elements.{montgomery-Represents}
use mastic.Field.Fp64.Constants.{fp64-IsValid}
use mastic.Field.Element.{field64}
use mastic.Field.Element.Laws.{field64-IsField}
use mastic.Field.Element.Bitvector.{none, more}
use mastic.Polynomial.{eval_loop, eval_from_highest, poly_eval}
use mastic.Polynomial.Eval.{poly_eval-value_at}

abbrev quadratic : List ℕ
quadratic = montgomery fp64 2 ∷ montgomery fp64 3 ∷ montgomery fp64 1 ∷ []

runs : residue fp64 (poly_eval field64 quadratic (montgomery fp64 5)) ≡ 42
unfolding poly_eval eval_from_highest eval_loop residue mul add montgomery modp
runs = refl

stands : (a : ℕ) → a < 2 ^ 64 → Represents 64 fp64.p (montgomery fp64 a) a
stands a h = montgomery-Represents fp64-IsValid a h

poly_eval-value_at_example :
    Represents 64 fp64.p (poly_eval field64 quadratic (montgomery fp64 5)) 42
poly_eval-value_at_example =
    poly_eval-value_at field64-IsField
      (more (stands 2 (omega arith))
        (more (stands 3 (omega arith)) (more (stands 1 (omega arith)) none)))
      (stands 5 (omega arith))
