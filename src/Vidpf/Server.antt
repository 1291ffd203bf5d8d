-- ===== src/Vidpf/Server.antt =====
-- src/vidpf.rs: the operations of `Vidpf`.
use mastic.Prelude.{
  ℕ, zero, suc, ◌^◌, Bool, true, ◌&&◌, List, [], ◌∷◌, length, Option, none, some, Result, ok, err,
  ◌>>=◌, ltb, if◌then◌else◌,
}
use mastic.Idpf.Seeds.{
  repeat, ◌⊕◌, xor_seeds, conditional_xor_seeds, conditional_select_seed, conditional_swap_seed,
}
use mastic.Idpf.Value.{IdpfValue}
use mastic.Idpf.Level.{steal, choose}
use mastic.Vidpf.{
  VidpfError, same_key_id, level_too_big, index_level, get_random, VidpfServerId, s0, s1, choice,
  same_id, VidpfKey, VidpfCorrectionWord, VidpfPublicShare, VidpfEvalState, VidpfValueShare,
  VidpfPrgOutput, SeedStream, TurboShake, prg_tag, convert_tag, node_proof_tag,
  node_proof_adjust_tag, xor_proof, conditional_xor_proof, get_ok_or, to_le_bytes, chunks,
  update_each, index_to,
}

unfoldable pub init_from_key : VidpfKey → VidpfEvalState
init_from_key key = record { seed = key.value; control_bit = choice key.id; proof = repeat 32 0 }

-- `VidpfKey::gen`, with what `getrandom` gives.
unfoldable pub key_gen : VidpfServerId → Option (List ℕ) → Result VidpfError VidpfKey
key_gen id (some value) = ok (record { id = id; value = value })
key_gen id none = err get_random

module _ {X T : Type 0} (shake : TurboShake X T) where
  unfoldable pub node_proof : List Bool → ℕ → List ℕ → Result VidpfError (List ℕ)
  node_proof input level seed = index_to input level >>= λ bits.
      let x = update_each shake (shake.init seed node_proof_tag) (chunks (length bits) bits) in
      (if ltb level (2 ^ 16) then ok (to_le_bytes 2 level) else err level_too_big)
      >>= λ level_bytes.
          let rng = shake.into_seed_stream (shake.update x level_bytes) in
          ok (shake.fill_proof rng 32).0

  unfoldable pub node_proof_adjustment : List ℕ → List ℕ
  node_proof_adjustment proof =
      let x = shake.update (shake.init (repeat 16 0) node_proof_adjust_tag) proof in
      (shake.fill_proof (shake.into_seed_stream x) 32).0

module _ {S : Type 0} (aes : SeedStream S) (nonce : List ℕ) where
  unfoldable pub prg : List ℕ → VidpfPrgOutput
  prg seed =
      let rng = aes.seed_stream seed prg_tag nonce in
      let (left_bytes, rng') = aes.fill_bytes rng 16 in
      let (right_bytes, rng'') = aes.fill_bytes rng' 16 in
      let (left_seed, left_control_bit) = steal left_bytes in
      let (right_seed, right_control_bit) = steal right_bytes in
      record {
        left_seed = left_seed;
        left_control_bit = left_control_bit;
        right_seed = right_seed;
        right_control_bit = right_control_bit;
      }

  module _ {W P : Type 0} (v : IdpfValue W P S) (weight_parameter : P) where
    unfoldable pub convert : List ℕ → List ℕ × W
    convert seed =
        let rng = aes.seed_stream seed convert_tag nonce in
        let (out_seed, rng') = aes.fill_bytes rng 16 in
        let (value, rng'') = v.generate rng' weight_parameter in (out_seed, value)

    -- The correction word of one level, the corrected seeds and the new control bits.
    unfoldable pub correct :
        Bool
        → W
        → List ℕ × List ℕ
        → Bool × Bool
        → VidpfCorrectionWord W × (List ℕ × List ℕ) × (Bool × Bool)
    correct alpha weight s t =
        let seq_0 = prg s.0 in
        let (same_seed_0, diff_seed_0) =
          conditional_swap_seed seq_0.right_seed seq_0.left_seed alpha in
        let seq_1 = prg s.1 in
        let (same_seed_1, diff_seed_1) =
          conditional_swap_seed seq_1.right_seed seq_1.left_seed alpha in
        let diff_control_bit_0 = choose seq_0.left_control_bit seq_0.right_control_bit alpha in
        let diff_control_bit_1 = choose seq_1.left_control_bit seq_1.right_control_bit alpha in
        let s_cw = xor_seeds same_seed_0 same_seed_1 in
        let t_cw_l = seq_0.left_control_bit ⊕ seq_1.left_control_bit ⊕ alpha ⊕ true in
        let t_cw_r = seq_0.right_control_bit ⊕ seq_1.right_control_bit ⊕ alpha in
        let t_cw_diff = choose t_cw_l t_cw_r alpha in
        let s_tilde_0 = conditional_xor_seeds diff_seed_0 s_cw t.0 in
        let s_tilde_1 = conditional_xor_seeds diff_seed_1 s_cw t.1 in
        let t_0 = diff_control_bit_0 ⊕ (t.0 && t_cw_diff) in
        let t_1 = diff_control_bit_1 ⊕ (t.1 && t_cw_diff) in
        let (s_0, w_0) = convert s_tilde_0 in
        let (s_1, w_1) = convert s_tilde_1 in
        let w_cw = v.conditional_negate (v.add (v.sub w_1 w_0) weight) t_1 in
        (
          record {
            seed = s_cw;
            left_control_bit = t_cw_l;
            right_control_bit = t_cw_r;
            weight = w_cw;
          },
          (s_0, s_1),
          (t_0, t_1),
        )

    -- The next seed and control bit, and the share of the weight, of `eval_next`.
    unfoldable pub advance :
        VidpfServerId → VidpfCorrectionWord W → Bool → List ℕ → Bool → W × List ℕ × Bool
    advance id cw x_i seed t =
        let seq_tilde = prg seed in
        let sl = conditional_xor_seeds seq_tilde.left_seed cw.seed t in
        let sr = conditional_xor_seeds seq_tilde.right_seed cw.seed t in
        let tl = seq_tilde.left_control_bit ⊕ (t && cw.left_control_bit) in
        let tr = seq_tilde.right_control_bit ⊕ (t && cw.right_control_bit) in
        let s_tilde = conditional_select_seed x_i (sl, sr) in
        let next_control_bit = choose tl tr x_i in
        let (next_seed, w) = convert s_tilde in
        let y =
          v.add (v.conditional_select (v.zero weight_parameter) cw.weight next_control_bit) w in
        (v.conditional_negate y (choice id), next_seed, next_control_bit)

module _ {S X T W P : Type 0} (aes : SeedStream S) (shake : TurboShake X T) (v : IdpfValue W P S)
    (weight_parameter : P) (nonce : List ℕ) where
  -- The loop of `gen_with_keys` over the levels that are left, from a level on.
  unfoldable pub gen_levels :
      List Bool
      → W
      → ℕ
      → ℕ
      → List ℕ × List ℕ
      → Bool × Bool
      → Result VidpfError (List (VidpfCorrectionWord W) × List (List ℕ))
  gen_levels input weight zero level s t = ok ([], [])
  gen_levels input weight (suc left) level s t = get_ok_or input level index_level >>= λ alpha.
      let (cw, s', t') = correct aes nonce v weight_parameter alpha weight s t in
      node_proof shake input level s'.0 >>= λ pi_tilde_0.
      node_proof shake input level s'.1 >>= λ pi_tilde_1.
      gen_levels input weight left (suc level) s' t' >>= λ (cws, cs).
      ok (cw ∷ cws, xor_proof pi_tilde_0 pi_tilde_1 ∷ cs)

  unfoldable pub gen_with_keys :
      VidpfKey × VidpfKey → List Bool → W → Result VidpfError (VidpfPublicShare W)
  gen_with_keys keys input weight =
      if same_id keys.0.id keys.1.id
      then err same_key_id
      else (gen_levels input weight (length input) 0 (keys.0.value, keys.1.value)
            (choice keys.0.id, choice keys.1.id)
          >>= λ (cw, cs). ok (record { cw = cw; cs = cs }))

  -- `random` is what two calls of `getrandom` give.
  unfoldable pub gen :
      List Bool
      → W
      → Option (List ℕ) × Option (List ℕ)
      → Result VidpfError (VidpfPublicShare W × (VidpfKey × VidpfKey))
  gen input weight random = key_gen s0 random.0 >>= λ key_0. key_gen s1 random.1 >>= λ key_1.
      gen_with_keys (key_0, key_1) input weight >>= λ public. ok (public, (key_0, key_1))

  unfoldable pub eval_next :
      VidpfServerId
      → VidpfPublicShare W
      → List Bool
      → ℕ
      → VidpfEvalState
      → Result VidpfError (VidpfEvalState × W)
  eval_next id public input level state = get_ok_or public.cw level index_level >>= λ cw.
      get_ok_or input level index_level >>= λ x_i.
      let (y, next_seed, next_control_bit) =
        advance aes nonce v weight_parameter id cw x_i state.seed state.control_bit in
      get_ok_or public.cs level index_level >>= λ cs_i.
      node_proof shake input level next_seed >>= λ pi_tilde.
      let h2_input = xor_proof (conditional_xor_proof pi_tilde cs_i next_control_bit) state.proof in
      ok (
        record {
          seed = next_seed;
          control_bit = next_control_bit;
          proof = xor_proof (node_proof_adjustment shake h2_input) state.proof;
        },
        y,
      )

  -- The loop of `eval` over the levels that are left, from a level on.
  unfoldable pub eval_levels :
      VidpfServerId
      → VidpfPublicShare W
      → List Bool
      → ℕ
      → ℕ
      → VidpfEvalState
      → W
      → Result VidpfError (VidpfEvalState × W)
  eval_levels id public input zero level state share = ok (state, share)
  eval_levels id public input (suc left) level state share =
      eval_next id public input level state >>= λ (state', share').
      eval_levels id public input left (suc level) state' share'

  unfoldable pub eval :
      VidpfKey → VidpfPublicShare W → List Bool → Result VidpfError (VidpfValueShare W)
  eval key public input =
      eval_levels key.id public input (length input) 0 (init_from_key key) (v.zero weight_parameter)
      >>= λ (state, share). ok (record { share = share; proof = state.proof })
