-- ===== src/Idpf/Tree.antt =====
-- src/idpf.rs: the generation of the keys, and the evaluation of a key on a prefix.
pub mod Program
pub mod Shares
pub mod Evaluate
pub mod Cached
pub mod Refine
pub mod Transparent
pub mod Generate
pub mod Generated
pub mod Correct
pub mod Merge
use mastic.Prelude.{
  ℕ, zero, suc, ◌-◌, ◌+◌, Bool, true, false, not, List, [], ◌∷◌, length, take, drop, Option, none,
  some, Result, ok, err, panic, ◌>>=◌, ◌>>◌, map_err, ltb, leb, ◌==◌, if◌then◌else◌,
}
use mastic.Codec.Cursor.{index, sub_usize}
use mastic.Field.Words.{as_int}
use mastic.Vdaf.{VdafError, idpf, get_random}
use mastic.Idpf.Errors.{
  IdpfError, mismatched_level, invalid_parameter, too_many_values, too_few_values, no_bits,
  empty_prefix, invalid_aggregator_id, prefix_too_long,
}
use mastic.Idpf.Value.{IdpfValue}
use mastic.Idpf.Level.{FixedKeyXof, IdpfCorrectionWord, generate_correction_word, eval_next}
use mastic.Idpf.Cache.{IdpfCache, Values}

abbrev pub IdpfInput : Type 0
IdpfInput = List Bool

pub data IdpfOutputShare (VI VL : Type 0) : Type 0 where
  inner : VI → IdpfOutputShare VI VL
  leaf : VL → IdpfOutputShare VI VL

pub record IdpfPublicShare (VI VL : Type 0) : Type 0 where
  pub inner_correction_words : List (IdpfCorrectionWord VI)
  pub leaf_correction_word : IdpfCorrectionWord VL

-- The parameters of the values.
pub record Idpf (PI PL : Type 0) : Type 0 where
  pub inner_node_value_parameter : PI
  pub leaf_node_value_parameter : PL

-- `VERSION` of src/vdaf.rs, the algorithm class, the algorithm ID and the usage.
abbrev pub extend_dst : List ℕ
extend_dst = 8 ∷ 1 ∷ 0 ∷ 0 ∷ 0 ∷ 0 ∷ 0 ∷ 0 ∷ []

abbrev pub convert_dst : List ℕ
convert_dst = 8 ∷ 1 ∷ 0 ∷ 0 ∷ 0 ∷ 0 ∷ 0 ∷ 1 ∷ []

-- The slice `xs[start..]`.
abbrev pub slice_from {ℓ κ} : {E : Type ℓ} {A : Type κ} → List A → ℕ → Result E (List A)
slice_from xs start = if leb start (length xs) then ok (drop start xs) else panic

-- `Option::unwrap`.
abbrev pub unwrap {ℓ κ} : {E : Type ℓ} {A : Type κ} → Option A → Result E A
unwrap none = panic
unwrap (some a) = ok a

module _ {VI VL PI PL S : Type 0} (vi : IdpfValue VI PI S) (vl : IdpfValue VL PL S) where
  unfoldable pub merge :
      IdpfOutputShare VI VL → IdpfOutputShare VI VL → Result IdpfError (IdpfOutputShare VI VL)
  merge (inner self_value) (inner other_value) = ok (inner (vi.add self_value other_value))
  merge (leaf self_value) (leaf other_value) = ok (leaf (vl.add self_value other_value))
  merge (inner self_value) (leaf other_value) = err mismatched_level
  merge (leaf self_value) (inner other_value) = err mismatched_level

module _ {K S : Type 0} (xof : FixedKeyXof K S) where
  module _ {V P : Type 0} (v : IdpfValue V P S) (parameter : P) (extend_key convert_key : K) where
    -- The loop over `inner_values`, from a level on: the correction words that it pushes, and
    -- the keys and the control bits afterwards. `last` is `bits - 1`.
    unfoldable pub gen_inner :
        IdpfInput
        → ℕ
        → ℕ
        → List V
        → List ℕ × List ℕ
        → Bool × Bool
        → Result IdpfError (List (IdpfCorrectionWord V) × (List ℕ × List ℕ) × (Bool × Bool))
    gen_inner input last level [] keys control_bits = ok ([], keys, control_bits)
    gen_inner input last level (value ∷ inner_values) keys control_bits =
        (if leb last level then err (invalid_parameter too_many_values) else index input level)
        >>= λ input_bit.
            let (correction_word, keys', control_bits') =
              generate_correction_word xof v parameter extend_key convert_key input_bit value keys
                control_bits in
            gen_inner input last (suc level) inner_values keys' control_bits'
            >>= λ (correction_words, keys'', control_bits'').
                ok (correction_word ∷ correction_words, keys'', control_bits'')

    -- The loop of `eval_from_node` from a level on, over the correction words and the input bits
    -- that are left: the last output, the key and the control bit, and the cache.
    unfoldable pub eval_levels :
        {C : Type 0}
        → IdpfCache C
        → Bool
        → IdpfInput
        → ℕ
        → List (IdpfCorrectionWord V)
        → List Bool
        → Option V
        → List ℕ
        → Bool
        → C
        → (Option V × List ℕ × Bool) × C
    eval_levels cache is_leader prefix level [] input_bits last key control_bit c =
        ((last, key, control_bit), c)
    eval_levels cache is_leader prefix level (cw ∷ cws) [] last key control_bit c =
        ((last, key, control_bit), c)
    eval_levels cache is_leader prefix level (cw ∷ cws) (input_bit ∷ input_bits) last key
          control_bit c =
        let (out, key', control_bit') =
          eval_next xof v parameter extend_key convert_key is_leader key control_bit cw input_bit in
        eval_levels cache is_leader prefix (suc level) cws input_bits (some out) key' control_bit'
          (cache.insert c (take (suc level) prefix) (key', as_int control_bit'))

  module _ {VI VL PI PL : Type 0} (vi : IdpfValue VI PI S) (vl : IdpfValue VL PL S)
      (self : Idpf PI PL) where
    unfoldable pub gen_with_random :
        IdpfInput
        → List VI
        → VL
        → List ℕ
        → List ℕ × List ℕ
        → Result IdpfError (IdpfPublicShare VI VL × (List ℕ × List ℕ))
    gen_with_random input inner_values leaf_value binder random =
        let bits = length input in
        let extend_key = xof.new extend_dst binder in
        let convert_key = xof.new convert_dst binder in
        sub_usize bits 1 >>= λ last.
        gen_inner vi self.inner_node_value_parameter extend_key convert_key input last 0
          inner_values random (false, true)
        >>= λ (correction_words, keys, control_bits).
            (if length correction_words == last
              then index input last
              else err (invalid_parameter too_few_values))
            >>= λ input_bit.
                let (leaf_word, keys', control_bits') =
                  generate_correction_word xof vl self.leaf_node_value_parameter extend_key
                    convert_key input_bit leaf_value keys control_bits in
                ok (
                  record {
                    inner_correction_words = correction_words;
                    leaf_correction_word = leaf_word;
                  },
                  random,
                )

    -- `random` is what two calls of `getrandom` give.
    unfoldable pub gen :
        IdpfInput
        → List VI
        → VL
        → List ℕ
        → Option (List ℕ) × Option (List ℕ)
        → Result VdafError (IdpfPublicShare VI VL × (List ℕ × List ℕ))
    gen [] inner_values leaf_value binder random = err (idpf (invalid_parameter no_bits))
    gen (bit ∷ bits) inner_values leaf_value binder (some seed_0, some seed_1) =
        map_err idpf (gen_with_random (bit ∷ bits) inner_values leaf_value binder (seed_0, seed_1))
    gen (bit ∷ bits) inner_values leaf_value binder (none, random_1) = err get_random
    gen (bit ∷ bits) inner_values leaf_value binder (some seed_0, none) = err get_random

    module _ {C : Type 0} (cache : IdpfCache C) where
      -- A success comes with the cache; the errors leave it as it was.
      unfoldable pub eval_from_node :
          Bool
          → IdpfPublicShare VI VL
          → ℕ
          → List ℕ
          → Bool
          → IdpfInput
          → List ℕ
          → C
          → Result IdpfError (IdpfOutputShare VI VL × C)
      eval_from_node is_leader public_share start_level key control_bit prefix binder c =
          let bits = length public_share.inner_correction_words + 1 in
          let extend_key = xof.new extend_dst binder in
          let convert_key = xof.new convert_dst binder in
          slice_from public_share.inner_correction_words start_level >>= λ cws.
          slice_from prefix start_level >>= λ input_bits.
          let ((last, key', control_bit'), c') =
            eval_levels vi self.inner_node_value_parameter extend_key convert_key cache is_leader
              prefix start_level cws input_bits none key control_bit c in
          if length prefix == bits
          then (index prefix (bits - 1) >>= λ input_bit. ok (
            leaf
                (eval_next xof vl self.leaf_node_value_parameter extend_key convert_key is_leader
                  key' control_bit' public_share.leaf_correction_word input_bit).0,
            c',
          ))
          else (unwrap last >>= λ output. ok (inner output, c'))

      -- The longest prefix of at most a given length that the cache holds, and what it holds.
      unfoldable pub find_cached : C → IdpfInput → ℕ → Option (ℕ × Values)
      find_cached c prefix zero = none
      find_cached c prefix (suc n) = elim (cache.get c (take (suc n) prefix)) [
        | some values ↦ some (suc n, values)
        | none ↦ find_cached c prefix n
      ]

      unfoldable pub eval :
          ℕ
          → IdpfPublicShare VI VL
          → List ℕ
          → IdpfInput
          → List ℕ
          → C
          → Result IdpfError (IdpfOutputShare VI VL × C)
      eval agg_id public_share key prefix binder c =
          let bits = length public_share.inner_correction_words + 1 in
          let is_leader = agg_id == 0 in
          if ltb 1 agg_id
          then err (invalid_parameter (invalid_aggregator_id agg_id))
          else if length prefix == 0
          then err (invalid_parameter empty_prefix)
          else if ltb bits (length prefix)
          then err (invalid_parameter (prefix_too_long (length prefix) bits))
          else elim (find_cached c prefix (length prefix - 1)) [
            | some (start_level, (cached_key, control_bit)) ↦
                eval_from_node is_leader public_share start_level cached_key (control_bit == 1)
                  prefix binder c
            | none ↦ eval_from_node is_leader public_share 0 key (not is_leader) prefix binder c
          ]
