-- ===== src/Polynomial.antt =====
-- src/polynomial.rs: evaluation of a polynomial, the coefficients from the lowest degree up.
pub mod Eval
mod Examples
use mastic.Prelude.{List, [], ◌∷◌, reverse}
use mastic.Field.Element.{FieldElement}

module _ {F : Type 0} (f : FieldElement F) (eval_at : F) where
  -- The loop, on the coefficients that it has left, in its order.
  unfoldable pub eval_loop : F → List F → F
  eval_loop result [] = result
  eval_loop result (coefficient ∷ poly) = eval_loop (f.add (f.mul result eval_at) coefficient) poly

  unfoldable pub eval_from_highest : List F → F
  eval_from_highest [] = f.zero_element
  eval_from_highest (coefficient ∷ poly) = eval_loop coefficient poly

unfoldable pub poly_eval : {F : Type 0} → FieldElement F → List F → F → F
poly_eval f poly eval_at = eval_from_highest f eval_at (reverse poly)
