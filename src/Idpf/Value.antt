-- ===== src/Idpf/Value.antt =====
-- src/idpf.rs: the trait `IdpfValue`, and the group that its comment asks for.
pub mod Laws
pub mod Field
use mastic.Prelude.{◌≡◌, Bool, true, false, if◌then◌else◌}

-- The operations of the trait, over the type `P` of its parameter and the type `S` of a stream
-- of random bytes.
pub record IdpfValue (V P S : Type 0) : Type 0 where
  pub generate : S → P → V × S
  pub zero : P → V
  pub add : V → V → V
  pub sub : V → V → V
  pub conditional_negate : V → Bool → V
  pub conditional_select : V → V → Bool → V

-- The values in range form an Abelian group under `add`, and `sub` and `conditional_negate` are
-- its operations.
pub record IsGroup {V P S : Type 0} (v : IdpfValue V P S) (param : P) (InRange : V → Type 0)
    : Type 0 where
  pub generate-InRange : (s : S) → InRange (v.generate s param).0
  pub zero-InRange : InRange (v.zero param)
  pub add-InRange : (a b : V) → InRange a → InRange b → InRange (v.add a b)
  pub sub-InRange : (a b : V) → InRange a → InRange b → InRange (v.sub a b)
  pub negate-InRange : (a : V) → InRange a → InRange (v.conditional_negate a true)
  pub add_comm : (a b : V) → InRange a → InRange b → v.add a b ≡ v.add b a
  pub add_assoc :
      (a b c : V) → InRange a → InRange b → InRange c → v.add (v.add a b) c ≡ v.add a (v.add b c)
  pub add-zero : (a : V) → InRange a → v.add a (v.zero param) ≡ a
  pub sub-add : (a b : V) → InRange a → InRange b → v.add (v.sub a b) b ≡ a
  pub add-negate : (a : V) → InRange a → v.add a (v.conditional_negate a true) ≡ v.zero param
  pub keep : (a : V) → v.conditional_negate a false ≡ a
  pub select :
      (a b : V) (c : Bool)
      → InRange a
      → InRange b
      → v.conditional_select a b c ≡ (if c then b else a)
