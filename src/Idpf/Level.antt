-- ===== src/Idpf/Level.antt =====
-- src/idpf.rs: one level of the tree, in the generation of a key and in its evaluation.
pub mod Bits
pub mod Step
pub mod Pair
use Prim.Native.Nat.{bit_and}
use mastic.Prelude.{ℕ, Bool, true, false, not, ◌&&◌, List, [], ◌∷◌, ◌==◌, if◌then◌else◌}
use mastic.Idpf.Seeds.{◌⊕◌, xor_seeds, conditional_xor_seeds, conditional_select_seed}
use mastic.Idpf.Value.{IdpfValue}

-- `XofFixedKeyAes128Key` of src/vdaf/xof.rs over AES: `new`, `with_seed` and the `fill_bytes` of
-- the stream.
pub record FixedKeyXof (K S : Type 0) : Type 0 where
  pub new : List ℕ → List ℕ → K
  pub with_seed : K → List ℕ → S
  pub fill_bytes : S → ℕ → List ℕ × S

pub record IdpfCorrectionWord (V : Type 0) : Type 0 where
  pub seed : List ℕ
  pub control_bits : Bool × Bool
  pub value : V

-- The lowest bit of the first byte, which is cleared. An array has a first byte.
unfoldable pub steal : List ℕ → List ℕ × Bool
steal [] = ([], false)
steal (b ∷ seed) = (bit_and b 0xfe ∷ seed, bit_and b 1 == 1)

-- `Choice::conditional_select`.
abbrev pub choose {ℓ} : {A : Type ℓ} → A → A → Bool → A
choose a b choice = if choice then b else a

module _ {K S : Type 0} (xof : FixedKeyXof K S) where
  unfoldable pub extend : List ℕ → K → (List ℕ × List ℕ) × (Bool × Bool)
  extend seed xof_fixed_key =
      let seed_stream = xof.with_seed xof_fixed_key seed in
      let (bytes_0, seed_stream') = xof.fill_bytes seed_stream 16 in
      let (bytes_1, seed_stream'') = xof.fill_bytes seed_stream' 16 in
      let (seed_0, control_bit_0) = steal bytes_0 in
      let (seed_1, control_bit_1) = steal bytes_1 in
      ((seed_0, seed_1), (control_bit_0, control_bit_1))

  module _ {V P : Type 0} (v : IdpfValue V P S) (parameter : P) (extend_key convert_key : K) where
    unfoldable pub convert : List ℕ → List ℕ × V
    convert seed =
        let seed_stream = xof.with_seed convert_key seed in
        let (next_seed, seed_stream') = xof.fill_bytes seed_stream 16 in
        let (value, seed_stream'') = v.generate seed_stream' parameter in (next_seed, value)

    -- The correction word, with the new keys and control bits of the two parties.
    unfoldable pub generate_correction_word :
        Bool
        → V
        → List ℕ × List ℕ
        → Bool × Bool
        → IdpfCorrectionWord V × (List ℕ × List ℕ) × (Bool × Bool)
    generate_correction_word input_bit value keys control_bits =
        let (seed_0, control_bits_0) = extend keys.0 extend_key in
        let (seed_1, control_bits_1) = extend keys.1 extend_key in
        let keep = input_bit in
        let lose = not input_bit in
        let cw_seed =
          xor_seeds (conditional_select_seed lose seed_0) (conditional_select_seed lose seed_1) in
        let cw_left = control_bits_0.0 ⊕ control_bits_1.0 ⊕ input_bit ⊕ true in
        let cw_right = control_bits_0.1 ⊕ control_bits_1.1 ⊕ input_bit in
        let cw_keep = choose cw_left cw_right keep in
        let control_bits_0_keep = choose control_bits_0.0 control_bits_0.1 keep in
        let control_bits_1_keep = choose control_bits_1.0 control_bits_1.1 keep in
        let control_bit_0 = control_bits_0_keep ⊕ (cw_keep && control_bits.0) in
        let control_bit_1 = control_bits_1_keep ⊕ (cw_keep && control_bits.1) in
        let seed_0_keep = conditional_select_seed keep seed_0 in
        let seed_1_keep = conditional_select_seed keep seed_1 in
        let corrected_0 = conditional_xor_seeds seed_0_keep cw_seed control_bits.0 in
        let corrected_1 = conditional_xor_seeds seed_1_keep cw_seed control_bits.1 in
        let (new_key_0, elements_0) = convert corrected_0 in
        let (new_key_1, elements_1) = convert corrected_1 in
        let cw_value = v.add (v.sub value elements_0) elements_1 in
        (
          record {
            seed = cw_seed;
            control_bits = (cw_left, cw_right);
            value = v.conditional_negate cw_value control_bit_1;
          },
          (new_key_0, new_key_1),
          (control_bit_0, control_bit_1),
        )

    -- The output, with the new key and control bit.
    unfoldable pub eval_next :
        Bool → List ℕ → Bool → IdpfCorrectionWord V → Bool → V × List ℕ × Bool
    eval_next is_leader key control_bit correction_word input_bit =
        let (seeds, control_bits) = extend key extend_key in
        let seed_0 = conditional_xor_seeds seeds.0 correction_word.seed control_bit in
        let bit_0 = control_bits.0 ⊕ (correction_word.control_bits.0 && control_bit) in
        let seed_1 = conditional_xor_seeds seeds.1 correction_word.seed control_bit in
        let bit_1 = control_bits.1 ⊕ (correction_word.control_bits.1 && control_bit) in
        let seed_corrected = conditional_select_seed input_bit (seed_0, seed_1) in
        let control_bit' = choose bit_0 bit_1 input_bit in
        let (new_key, elements) = convert seed_corrected in
        let out =
          v.add elements
            (v.conditional_select (v.zero parameter) correction_word.value control_bit') in
        (v.conditional_negate out (not is_leader), new_key, control_bit')
