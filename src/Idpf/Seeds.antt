-- ===== src/Idpf/Seeds.antt =====
-- src/idpf.rs: operations on seeds, arrays of 16 bytes, that do not branch on a control bit.
-- A `Choice` is a Boolean.
pub mod Laws
use Prim.Native.Nat.{bit_and, bit_or, bit_xor}
use mastic.Prelude.{
  ℕ, zero, suc, ◌-◌, ◌%◌, ◌^◌, ◌<◌, Bool, true, false, not, List, [], ◌∷◌, if◌then◌else◌,
}
use mastic.Field.Words.{as_int}

-- `iter().zip()` and a function of the two items.
abbrev pub zip_with {ℓ} : {A : Type ℓ} → (A → A → A) → List A → List A → List A
zip_with f [] ys = []
zip_with f (x ∷ xs) [] = []
zip_with f (x ∷ xs) (y ∷ ys) = f x y ∷ zip_with f xs ys

abbrev pub repeat {ℓ} : {A : Type ℓ} → ℕ → A → List A
repeat zero x = []
repeat (suc n) x = x ∷ repeat n x

-- Exclusive or of choices.
infixl 55 ◌⊕◌
abbrev pub ◌⊕◌ : Bool → Bool → Bool
false ⊕ b = b
true ⊕ b = not b

unfoldable pub xor_seeds : List ℕ → List ℕ → List ℕ
xor_seeds left right = zip_with bit_xor left right

unfoldable pub and_seeds : List ℕ → List ℕ → List ℕ
and_seeds left right = zip_with bit_and left right

unfoldable pub or_seeds : List ℕ → List ℕ → List ℕ
or_seeds left right = zip_with bit_or left right

-- `-(control as i8) as u8`.
unfoldable pub control_bit_to_seed_mask : Bool → List ℕ
control_bit_to_seed_mask control = repeat 16 ((2 ^ 8 - as_int control) % 2 ^ 8)

unfoldable pub conditional_xor_seeds : List ℕ → List ℕ → Bool → List ℕ
conditional_xor_seeds normal_input switched_input control =
    xor_seeds normal_input (and_seeds switched_input (control_bit_to_seed_mask control))

unfoldable pub conditional_select_seed : Bool → List ℕ × List ℕ → List ℕ
conditional_select_seed select (seed_0, seed_1) =
    or_seeds (and_seeds (control_bit_to_seed_mask (not select)) seed_0)
      (and_seeds (control_bit_to_seed_mask select) seed_1)

-- `u8::conditional_swap` of `subtle` at each byte.
unfoldable pub conditional_swap_seed : List ℕ → List ℕ → Bool → List ℕ × List ℕ
conditional_swap_seed lhs rhs choice = (
  zip_with (λ a b. if choice then b else a) lhs rhs,
  zip_with (λ a b. if choice then a else b) lhs rhs,
)
