-- ===== src/Vidpf.antt =====
-- src/vidpf.rs: verifiable incremental distributed point functions, the generation of the public
-- share and the evaluation by a server.
pub mod Weight
pub mod Server
pub mod Level
pub mod Pair
pub mod Proof
pub mod Program
pub mod Correct
pub mod Verify
mod Examples
use Prim.Native.Nat.{bit_xor}
use mastic.Prelude.{
  ℕ, zero, suc, ◌+◌, ◌*◌, ◌/◌, ◌%◌, ◌^◌, Bool, true, false, not, ◌&&◌, List, [], ◌∷◌, length, take,
  drop, Option, none, some, Result, ok, err, panic, ◌>>=◌, ltb, leb, if◌then◌else◌,
}
use mastic.Field.Words.{as_int}
use mastic.Idpf.Seeds.{
  zip_with, repeat, ◌⊕◌, xor_seeds, conditional_xor_seeds, conditional_select_seed,
  conditional_swap_seed,
}
use mastic.Idpf.BitVec.{load_le}
use mastic.Idpf.Value.{IdpfValue}
use mastic.Idpf.Level.{steal, choose}

pub data VidpfError : Type 0 where
  same_key_id level_too_big index_level invalid_weight_length get_random : VidpfError

pub data VidpfServerId : Type 0 where
  s0 s1 : VidpfServerId

-- `Choice::from`, and the derived `==`.
abbrev pub choice : VidpfServerId → Bool
choice s0 = false
choice s1 = true

abbrev pub same_id : VidpfServerId → VidpfServerId → Bool
same_id s0 s0 = true
same_id s0 s1 = false
same_id s1 s0 = false
same_id s1 s1 = true

pub record VidpfKey : Type 0 where
  pub id : VidpfServerId
  pub value : List ℕ

pub record VidpfCorrectionWord (W : Type 0) : Type 0 where
  pub seed : List ℕ
  pub left_control_bit : Bool
  pub right_control_bit : Bool
  pub weight : W

pub record VidpfPublicShare (W : Type 0) : Type 0 where
  pub cw : List (VidpfCorrectionWord W)
  pub cs : List (List ℕ)

pub record VidpfEvalState : Type 0 where
  pub seed : List ℕ
  pub control_bit : Bool
  pub proof : List ℕ

pub record VidpfValueShare (W : Type 0) : Type 0 where
  pub share : W
  pub proof : List ℕ

pub record VidpfPrgOutput : Type 0 where
  pub left_seed : List ℕ
  pub left_control_bit : Bool
  pub right_seed : List ℕ
  pub right_control_bit : Bool

-- `XofFixedKeyAes128::seed_stream` of src/vdaf/xof.rs over AES, by the seed, the domain separation
-- tag and the binder, and `fill_bytes` of the stream.
pub record SeedStream (S : Type 0) : Type 0 where
  pub seed_stream : List ℕ → List ℕ → List ℕ → S
  pub fill_bytes : S → ℕ → List ℕ × S

-- `XofTurboShake128` of src/vdaf/xof.rs over TurboSHAKE.
pub record TurboShake (X T : Type 0) : Type 0 where
  pub init : List ℕ → List ℕ → X
  pub update : X → List ℕ → X
  pub into_seed_stream : X → T
  pub fill_proof : T → ℕ → List ℕ × T

-- `VidpfDomainSepTag`, by the bytes of the texts.
abbrev pub prg_tag : List ℕ
prg_tag = 80 ∷ 114 ∷ 103 ∷ []

abbrev pub convert_tag : List ℕ
convert_tag = 67 ∷ 111 ∷ 110 ∷ 118 ∷ 101 ∷ 114 ∷ 116 ∷ []

abbrev pub node_proof_tag : List ℕ
node_proof_tag = 78 ∷ 111 ∷ 100 ∷ 101 ∷ 80 ∷ 114 ∷ 111 ∷ 111 ∷ 102 ∷ []

abbrev pub node_proof_adjust_tag : List ℕ
node_proof_adjust_tag =
    78 ∷ 111 ∷ 100 ∷ 101 ∷ 80 ∷ 114 ∷ 111 ∷ 111 ∷ 102 ∷ 65 ∷ 100 ∷ 106 ∷ 117 ∷ 115 ∷ 116 ∷ []

unfoldable pub xor_proof : List ℕ → List ℕ → List ℕ
xor_proof lhs rhs = zip_with bit_xor lhs rhs

unfoldable pub conditional_xor_proof : List ℕ → List ℕ → Bool → List ℕ
conditional_xor_proof lhs rhs choice = zip_with (λ a b. choose a (bit_xor a b) choice) lhs rhs

-- `xs.get(i).ok_or(error)`
abbrev pub get_ok_or {ℓ κ} : {E : Type ℓ} {A : Type κ} → List A → ℕ → E → Result E A
get_ok_or [] i error = err error
get_ok_or (x ∷ xs) zero error = ok x
get_ok_or (x ∷ xs) (suc i) error = get_ok_or xs i error

-- `u128::to_le_bytes`.
abbrev pub to_le_bytes : ℕ → ℕ → List ℕ
to_le_bytes zero x = []
to_le_bytes (suc n) x = x % 2 ^ 8 ∷ to_le_bytes n (x / 2 ^ 8)

-- `chunks(128)`: a chunk takes a bit at least, so that the number of bits is enough fuel.
unfoldable pub chunks : ℕ → List Bool → List (List Bool)
chunks zero bits = []
chunks (suc fuel) [] = []
chunks (suc fuel) (bit ∷ bits) = take 128 (bit ∷ bits) ∷ chunks fuel (drop 127 bits)

unfoldable pub update_each : {X T : Type 0} → TurboShake X T → X → List (List Bool) → X
update_each shake x [] = x
update_each shake x (chunk ∷ rest) =
    update_each shake (shake.update x (to_le_bytes 16 (load_le chunk))) rest

-- `input.index(..=level)`
abbrev pub index_to {ℓ} : {E : Type ℓ} → List Bool → ℕ → Result E (List Bool)
index_to input level = if leb (suc level) (length input) then ok (take (suc level) input) else panic
