-- ===== src/Vidpf/Level.antt =====
-- src/vidpf.rs: one level of the generation and of the evaluation, for the two servers on the path
-- of the input and beside it.
use mastic.Prelude.{ℕ, ◌≡◌, refl, ◌∙◌, Bool, true, false, not, ◌&&◌, List, if◌then◌else◌}
use mastic.Idpf.Seeds.{
  ◌⊕◌, xor_seeds, conditional_xor_seeds, conditional_select_seed, conditional_swap_seed,
}
use mastic.Idpf.Seeds.Laws.{
  IsBytes, xor_seeds-IsBytes, conditional_xor_seeds_lem, conditional_select_seed_lem,
  conditional_swap_seed_lem,
}
use mastic.Idpf.Value.{IdpfValue}
use mastic.Idpf.Level.Bits.{side, correction_bits}
use mastic.Idpf.Level.Step.{steal-IsBytes, conditional_xor-IsBytes}
use mastic.Vidpf.{VidpfServerId, choice, VidpfCorrectionWord, SeedStream, prg_tag}
use mastic.Vidpf.Server.{prg, convert, correct, advance}

-- The stream gives bytes, as many as asked for.
pub record IsSeedStream {S : Type 0} (aes : SeedStream S) : Type 0 where
  pub fill_bytes-IsBytes : (s : S) (n : ℕ) → IsBytes n (aes.fill_bytes s n).0

module _ {S : Type 0} (aes : SeedStream S) (nonce : List ℕ) where
  abbrev pub seeds : List ℕ → List ℕ × List ℕ
  seeds seed = ((prg aes nonce seed).left_seed, (prg aes nonce seed).right_seed)

  abbrev pub bits : List ℕ → Bool × Bool
  bits seed = ((prg aes nonce seed).left_control_bit, (prg aes nonce seed).right_control_bit)

  pub seeds-IsBytes :
      IsSeedStream aes → (x : Bool) (seed : List ℕ) → IsBytes 16 (side x (seeds seed))
  unfolding prg
  seeds-IsBytes stream false seed =
      steal-IsBytes (stream.fill_bytes-IsBytes (aes.seed_stream seed prg_tag nonce) 16)
  seeds-IsBytes stream true seed =
      steal-IsBytes
        (stream.fill_bytes-IsBytes (aes.fill_bytes (aes.seed_stream seed prg_tag nonce) 16).1 16)

  selected :
      (stream : IsSeedStream aes) (x : Bool) (seed : List ℕ) (t : Bool) (s_cw : List ℕ)
      → IsBytes 16 s_cw
      → conditional_select_seed x
          (conditional_xor_seeds (seeds seed).0 s_cw t, conditional_xor_seeds (seeds seed).1 s_cw t)
        ≡ (if t then xor_seeds (side x (seeds seed)) s_cw else side x (seeds seed))
  selected stream x seed t s_cw h =
      let left = seeds-IsBytes stream false seed in
      let right = seeds-IsBytes stream true seed in
      conditional_select_seed_lem x (conditional_xor-IsBytes t left h)
        (conditional_xor-IsBytes t right h)
      ∙ sides x left right
    where
      sides :
          (x : Bool)
          → IsBytes 16 (seeds seed).0
          → IsBytes 16 (seeds seed).1
          → (if x
              then conditional_xor_seeds (seeds seed).1 s_cw t
              else conditional_xor_seeds (seeds seed).0 s_cw t)
            ≡ (if t then xor_seeds (side x (seeds seed)) s_cw else side x (seeds seed))
      sides false left right = conditional_xor_seeds_lem t left h
      sides true left right = conditional_xor_seeds_lem t right h

  -- The seed on the other side, and the seed on the side of the input.
  swapped :
      (stream : IsSeedStream aes) (a : Bool) (seed : List ℕ)
      → conditional_swap_seed (seeds seed).1 (seeds seed).0 a
        ≡ (side (not a) (seeds seed), side a (seeds seed))
  swapped stream a seed =
      conditional_swap_seed_lem a (seeds-IsBytes stream true seed) (seeds-IsBytes stream false seed)
      ∙ sides a
    where
      sides :
          (a : Bool)
          → ◌≡◌ {A = List ℕ × List ℕ}
              (if a then ((seeds seed).0, (seeds seed).1) else ((seeds seed).1, (seeds seed).0))
              (side (not a) (seeds seed), side a (seeds seed))
      sides true = refl
      sides false = refl

  module _ {W P : Type 0} (v : IdpfValue W P S) (weight_parameter : P) where
    -- The seed, the control bit, and the new seed and value below a node on the side `x`.
    abbrev pub below_seed : List ℕ → Bool → List ℕ → Bool → List ℕ
    below_seed seed t s_cw x =
        if t then xor_seeds (side x (seeds seed)) s_cw else side x (seeds seed)

    abbrev pub below_bit : List ℕ → Bool → Bool × Bool → Bool → Bool
    below_bit seed t t_cw x = side x (bits seed) ⊕ (t && side x t_cw)

    abbrev pub below : List ℕ → Bool → List ℕ → Bool → List ℕ × W
    below seed t s_cw x = convert aes nonce v weight_parameter (below_seed seed t s_cw x)

    pub advance_lem :
        (stream : IsSeedStream aes) (id : VidpfServerId) (cw : VidpfCorrectionWord W) (x : Bool)
        (seed : List ℕ) (t : Bool)
        → IsBytes 16 cw.seed
        → advance aes nonce v weight_parameter id cw x seed t ≡ (
          v.conditional_negate
              (v.add
                (v.conditional_select
                  (v.zero weight_parameter)
                  cw.weight
                  (below_bit seed t (cw.left_control_bit, cw.right_control_bit) x))
                (below seed t cw.seed x).1)
              (choice id),
          (below seed t cw.seed x).0,
          below_bit seed t (cw.left_control_bit, cw.right_control_bit) x,
        )
    unfolding advance
    advance_lem stream id cw false seed t h = rw (selected stream false seed t cw.seed h) refl
    advance_lem stream id cw true seed t h = rw (selected stream true seed t cw.seed h) refl

    module _ (a : Bool) (s : List ℕ × List ℕ) where
      abbrev pub s_cw : List ℕ
      s_cw = xor_seeds (side (not a) (seeds s.0)) (side (not a) (seeds s.1))

      abbrev pub t_cw : Bool × Bool
      t_cw = correction_bits a (bits s.0) (bits s.1)

      pub s_cw-IsBytes : IsSeedStream aes → IsBytes 16 s_cw
      s_cw-IsBytes stream =
          xor_seeds-IsBytes (seeds-IsBytes stream (not a) s.0) (seeds-IsBytes stream (not a) s.1)

      pub correct_lem :
          (stream : IsSeedStream aes) (weight : W) (t : Bool × Bool)
          → correct aes nonce v weight_parameter a weight s t ≡ (
            record {
              seed = s_cw;
              left_control_bit = t_cw.0;
              right_control_bit = t_cw.1;
              weight =
                  v.conditional_negate
                    (v.add (v.sub (below s.1 t.1 s_cw a).1 (below s.0 t.0 s_cw a).1) weight)
                    (below_bit s.1 t.1 t_cw a);
            },
            ((below s.0 t.0 s_cw a).0, (below s.1 t.1 s_cw a).0),
            (below_bit s.0 t.0 t_cw a, below_bit s.1 t.1 t_cw a),
          )
      unfolding correct
      correct_lem stream weight t =
          rw
            (
              swapped stream a s.0,
              swapped stream a s.1,
              conditional_xor_seeds_lem t.0 (seeds-IsBytes stream a s.0) (s_cw-IsBytes stream),
              conditional_xor_seeds_lem t.1 (seeds-IsBytes stream a s.1) (s_cw-IsBytes stream),
            )
            refl
