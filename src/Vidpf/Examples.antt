-- ===== src/Vidpf/Examples.antt =====
-- The theorems on src/vidpf.rs at concrete inputs: streams that repeat a byte, and weights that are
-- vectors of two bits.
use mastic.Prelude.{ℕ, ◌+◌, ◌%◌, ◌≡◌, refl, arith, Bool, true, false, List, [], ◌∷◌, ok, some}
use mastic.Idpf.Seeds.{
  repeat, xor_seeds, and_seeds, or_seeds, control_bit_to_seed_mask, conditional_xor_seeds,
  conditional_select_seed, conditional_swap_seed,
}
use mastic.Idpf.Value.{IdpfValue, IsGroup}
use mastic.Idpf.Level.{steal}
use mastic.Idpf.Toy.{repeat-IsBytes, first_byte, bit_value, AnyBit, bit-IsGroup}
use mastic.Vidpf.{
  s0, s1, VidpfKey, VidpfPublicShare, VidpfValueShare, SeedStream, TurboShake, xor_proof, chunks,
  update_each,
}
use mastic.Vidpf.Server.{
  node_proof, key_gen, prg, convert, correct, gen_levels, gen_with_keys, gen, eval,
}
use mastic.Vidpf.Level.{IsSeedStream}
use mastic.Vidpf.Proof.{IsProofStream}
use mastic.Vidpf.Weight.{
  weight_value, generate_weight, weight_conditional_negate, weight_zero, weight_encode,
  weight_decode,
}
use mastic.Vidpf.Weight.Laws.{IsWeight, more, weight-IsGroup}
use mastic.Codec.Traits.{Writes, Reads}
use mastic.Codec.Ints.{u8_encode, u8_decode}
use mastic.Codec.Ints.RoundTrip.{u8_decode-Reads, u8_encode-Writes}
use mastic.Vidpf.Weight.RoundTrip.{weight_decode-weight_encode}
use mastic.Vidpf.Verify.{weight_at, GenCases, gen-cases, eval-gen}

abbrev toy_stream : SeedStream ℕ
toy_stream = record {
  seed_stream = λ seed tag nonce. first_byte seed + first_byte tag + first_byte nonce;
  fill_bytes = λ s n. (repeat n (s % 256), 7 + s);
}

toy-IsSeedStream : IsSeedStream toy_stream
toy-IsSeedStream = record { fill_bytes-IsBytes = λ s n. repeat-IsBytes n (s % 256) (omega arith) }

abbrev toy_shake : TurboShake ℕ ℕ
toy_shake = record {
  init = λ seed tag. first_byte seed + first_byte tag;
  update = λ x bytes. 3 + x + first_byte bytes;
  into_seed_stream = λ x. x;
  fill_proof = λ s n. (repeat n (s % 256), 1 + s);
}

toy-IsProofStream : IsProofStream toy_shake
toy-IsProofStream = record { fill_proof-IsBytes = λ s n. repeat-IsBytes n (s % 256) (omega arith) }

abbrev two_bits : IdpfValue (List Bool) ℕ ℕ
two_bits = weight_value bit_value

abbrev input : List Bool
input = true ∷ []

abbrev seed_0 : List ℕ
seed_0 = repeat 16 17

abbrev seed_1 : List ℕ
seed_1 = repeat 16 200

-- What the generation gives for this input.
abbrev public : VidpfPublicShare (List Bool)
public = record {
  cw =
      record {
        seed = 120 ∷ repeat 15 121;
        left_control_bit = true;
        right_control_bit = false;
        weight = true ∷ false ∷ [];
      }
      ∷ [];
  cs = repeat 32 254 ∷ [];
}

abbrev keys : VidpfKey × VidpfKey
keys = (record { id = s0; value = seed_0 }, record { id = s1; value = seed_1 })

generated :
    gen toy_stream toy_shake two_bits 2
      (4 ∷ [])
      input
      (true ∷ false ∷ [])
      (some seed_0, some seed_1)
    ≡ ok (public, keys)
unfolding gen key_gen gen_with_keys gen_levels correct prg convert node_proof chunks update_each
    steal xor_proof conditional_select_seed conditional_xor_seeds xor_seeds and_seeds or_seeds
    control_bit_to_seed_mask conditional_swap_seed generate_weight weight_conditional_negate
    weight_zero
generated = refl

bits-IsWeight : (a b : Bool) → IsWeight AnyBit 2 (a ∷ b ∷ [])
bits-IsWeight a b = more tt (more tt none_left)
  where
    none_left : IsWeight AnyBit 0 []
    none_left = IsWeight.none

eval-gen_example :
    (r0 : VidpfValueShare (List Bool)) × (r1 : VidpfValueShare (List Bool)) × (eval toy_stream
        toy_shake two_bits 2
        (4 ∷ [])
        keys.0
        public
        input
      ≡ ok r0)
    × (eval toy_stream toy_shake two_bits 2 (4 ∷ []) keys.1 public input ≡ ok r1)
    × (r1.proof ≡ r0.proof)
    × (two_bits.add r0.share r1.share
        ≡ weight_at toy_stream toy_shake two_bits 2 input (true ∷ false ∷ []) input)
eval-gen_example =
    eval-gen toy_shake toy-IsSeedStream toy-IsProofStream (weight-IsGroup bit-IsGroup 2) (4 ∷ [])
      input (true ∷ false ∷ []) seed_0 seed_1 public keys input (bits-IsWeight true false) generated
      (omega arith)

gen-cases_example :
    GenCases toy_shake toy-IsSeedStream toy-IsProofStream
      (weight-IsGroup bit-IsGroup 2)
      (4 ∷ [])
      input
      (true ∷ false ∷ [])
      (some seed_0)
      (some seed_1)
gen-cases_example =
    gen-cases toy_shake toy-IsSeedStream toy-IsProofStream (weight-IsGroup bit-IsGroup 2) (4 ∷ [])
      input (true ∷ false ∷ []) (some seed_0) (some seed_1) (bits-IsWeight true false)

weight-IsGroup_example : IsGroup two_bits 2 (IsWeight AnyBit 2)
weight-IsGroup_example = weight-IsGroup bit-IsGroup 2

weight_decode-weight_encode_example :
    Writes (weight_encode u8_encode) (5 ∷ 7 ∷ []) (5 ∷ 7 ∷ [])
    × Reads (weight_decode u8_decode 2) (5 ∷ 7 ∷ []) (5 ∷ 7 ∷ [])
weight_decode-weight_encode_example =
    weight_decode-weight_encode u8_encode u8_decode (λ e. e ∷ []) (5 ∷ 7 ∷ [])
      (u8_encode-Writes 5, (u8_encode-Writes 7, tt)) (u8_decode-Reads 5, (u8_decode-Reads 7, tt))
