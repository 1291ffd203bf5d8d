-- ===== src/Idpf/Toy.antt =====
-- src/idpf.rs: a stream that repeats a byte of the seed, and values that are single bits, for tests.
use mastic.Prelude.{
  ℕ, zero, suc, ◌+◌, ◌%◌, ◌^◌, ◌<◌, ◌≡◌, refl, arith, Bool, true, false, List, [], ◌∷◌, ◌==◌,
  if◌then◌else◌,
}
use mastic.Idpf.Seeds.{repeat, ◌⊕◌}
use mastic.Idpf.Seeds.Laws.{IsBytes, more}
use mastic.Idpf.Value.{IdpfValue, IsGroup}
use mastic.Idpf.Level.{FixedKeyXof}
use mastic.Idpf.Level.Step.{IsStream}

-- The first byte, folded with the number of the draw.
abbrev pub first_byte : List ℕ → ℕ
first_byte [] = 0
first_byte (b ∷ bytes) = b

abbrev pub toy_xof : FixedKeyXof ℕ ℕ
toy_xof = record {
  new = λ dst binder. first_byte binder;
  with_seed = λ key seed. 3 + first_byte seed + key;
  fill_bytes = λ s n. (repeat n (s % 256), 7 + s);
}

pub repeat-IsBytes : (n b : ℕ) → b < 2 ^ 8 → IsBytes n (repeat n b)
repeat-IsBytes zero b h = IsBytes.none
repeat-IsBytes (suc n) b h = more h (repeat-IsBytes n b h)

pub toy-IsStream : IsStream toy_xof
toy-IsStream = record { fill_bytes-IsBytes = λ s n. repeat-IsBytes n (s % 256) (omega arith) }

abbrev pub bit_value : IdpfValue Bool (Unit {0}) ℕ
bit_value = record {
  generate = λ s p. ((s % 2) == 1, 1 + s);
  zero = λ p. false;
  add = λ a b. a ⊕ b;
  sub = λ a b. a ⊕ b;
  conditional_negate = λ a c. a;
  conditional_select = λ a b c. if c then b else a;
}

xor_comm : (a b : Bool) → (a ⊕ b) ≡ (b ⊕ a)
xor_comm true true = refl
xor_comm true false = refl
xor_comm false true = refl
xor_comm false false = refl

xor_assoc : (a b c : Bool) → ((a ⊕ b) ⊕ c) ≡ (a ⊕ (b ⊕ c))
xor_assoc true true true = refl
xor_assoc true true false = refl
xor_assoc true false c = refl
xor_assoc false b c = refl

xor_zero : (a : Bool) → (a ⊕ false) ≡ a
xor_zero true = refl
xor_zero false = refl

xor_back : (a b : Bool) → ((a ⊕ b) ⊕ b) ≡ a
xor_back true true = refl
xor_back true false = refl
xor_back false true = refl
xor_back false false = refl

xor_self : (a : Bool) → (a ⊕ a) ≡ false
xor_self true = refl
xor_self false = refl

abbrev pub AnyBit : Bool → Type 0
AnyBit b = Unit {0}

pub bit-IsGroup : IsGroup bit_value tt AnyBit
bit-IsGroup = record {
  generate-InRange = λ s. tt;
  zero-InRange = tt;
  add-InRange = λ a b h k. tt;
  sub-InRange = λ a b h k. tt;
  negate-InRange = λ a h. tt;
  add_comm = λ a b h k. xor_comm a b;
  add_assoc = λ a b c h k l. xor_assoc a b c;
  add-zero = λ a h. xor_zero a;
  sub-add = λ a b h k. xor_back a b;
  add-negate = λ a h. xor_self a;
  keep = λ a. refl;
  select = λ a b c h k. refl;
}
