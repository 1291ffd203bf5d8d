-- ===== src/Vidpf/Pair.antt =====
-- src/vidpf.rs: the two servers at one level, on the path of the input and beside it.
use mastic.Prelude.{ℕ, ◌≡◌, refl, ap, ◌∙◌, sym, Bool, true, false, not, ◌&&◌, List}
use mastic.Idpf.Seeds.{◌⊕◌}
use mastic.Idpf.Seeds.Laws.{IsBytes}
use mastic.Idpf.Value.{IdpfValue, IsGroup}
use mastic.Idpf.Value.Laws.{conditional_negate-InRange, selected-InRange, shares_sum, shares_cancel}
use mastic.Idpf.Level.Bits.{side, correction_bits, bits_kept, bits_lost, corrected_seeds_lost}
use mastic.Vidpf.{VidpfServerId, s0, s1, VidpfCorrectionWord, SeedStream, convert_tag}
use mastic.Vidpf.Server.{convert, correct, advance}
use mastic.Vidpf.Level.{
  IsSeedStream, bits, below_seed, below_bit, below, advance_lem, s_cw, t_cw, s_cw-IsBytes,
  correct_lem, seeds-IsBytes,
}

and_comm : (a b : Bool) → (a && b) ≡ (b && a)
and_comm true true = refl
and_comm true false = refl
and_comm false true = refl
and_comm false false = refl

-- The control bits below, on the side of the input and on the other side.
kept :
    (a : Bool) (l r : Bool × Bool) (t : Bool)
    → side a r ⊕ (not t && side a (correction_bits a l r))
      ≡ not (side a l ⊕ (t && side a (correction_bits a l r)))
kept a l r t =
    rw
      (
        and_comm (not t) (side a (correction_bits a l r)),
        and_comm t (side a (correction_bits a l r)),
      )
      (bits_kept a l r t)

lost :
    (a : Bool) (l r : Bool × Bool) (t : Bool)
    → side (not a) r ⊕ (not t && side (not a) (correction_bits a l r))
      ≡ side (not a) l ⊕ (t && side (not a) (correction_bits a l r))
lost a l r t =
    rw
      (
        and_comm (not t) (side (not a) (correction_bits a l r)),
        and_comm t (side (not a) (correction_bits a l r)),
      )
      (bits_lost a l r t)

-- A correction word that `eval_next` can use.
pub record IsCorrection {W : Type 0} (InRange : W → Type 0) (cw : VidpfCorrectionWord W)
    : Type 0 where
  pub seed-IsBytes : IsBytes 16 cw.seed
  pub weight-InRange : InRange cw.weight

module _ {S W P : Type 0} {aes : SeedStream S} {v : IdpfValue W P S} {weight_parameter : P}
    {InRange : W → Type 0} (stream : IsSeedStream aes) (law : IsGroup v weight_parameter InRange)
    (nonce : List ℕ) where
  convert-InRange : (seed : List ℕ) → InRange (convert aes nonce v weight_parameter seed).1
  unfolding convert
  convert-InRange seed =
      law.generate-InRange (aes.fill_bytes (aes.seed_stream seed convert_tag nonce) 16).1

  abbrev pub step_of :
      VidpfServerId → VidpfCorrectionWord W → Bool → List ℕ → Bool → W × List ℕ × Bool
  step_of id cw x seed t = advance aes nonce v weight_parameter id cw x seed t

  abbrev tilde : VidpfCorrectionWord W → Bool → List ℕ → Bool → List ℕ
  tilde cw x seed t = below_seed aes nonce v weight_parameter seed t cw.seed x

  abbrev bit : VidpfCorrectionWord W → Bool → List ℕ → Bool → Bool
  bit cw x seed t =
      below_bit aes nonce v weight_parameter seed t (cw.left_control_bit, cw.right_control_bit) x

  abbrev value : List ℕ → W
  value seed = (convert aes nonce v weight_parameter seed).1

  -- Where the seeds and the bits below are the same, so are the states, and the shares cancel.
  pub next_same :
      (cw : VidpfCorrectionWord W) (x : Bool) (k0 k1 : List ℕ) (t0 t1 : Bool)
      → IsCorrection InRange cw
      → tilde cw x k1 t1 ≡ tilde cw x k0 t0
      → bit cw x k1 t1 ≡ bit cw x k0 t0
      → ((step_of s1 cw x k1 t1).1 ≡ (step_of s0 cw x k0 t0).1)
        × ((step_of s1 cw x k1 t1).2 ≡ (step_of s0 cw x k0 t0).2)
        × (v.add (step_of s0 cw x k0 t0).0 (step_of s1 cw x k1 t1).0 ≡ v.zero weight_parameter)
  next_same cw x k0 k1 t0 t1 ok hs hb =
      rw
        (
          advance_lem aes nonce v weight_parameter stream s0 cw x k0 t0 ok.seed-IsBytes,
          advance_lem aes nonce v weight_parameter stream s1 cw x k1 t1 ok.seed-IsBytes,
          hs,
          hb,
          law.add_comm (v.conditional_select (v.zero weight_parameter) cw.weight (bit cw x k0 t0))
              (value (tilde cw x k0 t0))
              (selected-InRange law cw.weight (bit cw x k0 t0) ok.weight-InRange)
              (convert-InRange (tilde cw x k0 t0)),
        )
        (
          refl,
          refl,
          shares_cancel law (value (tilde cw x k0 t0)) cw.weight (bit cw x k0 t0)
              (convert-InRange (tilde cw x k0 t0)) ok.weight-InRange,
        )

  -- The correction word of a level, for the bit of the input and the states of the servers above
  -- and below the level.
  pub record IsLevel (a : Bool) (weight : W) (k0 k1 : List ℕ) (t : Bool)
      (cw : VidpfCorrectionWord W) (k0' k1' : List ℕ) (t' : Bool) : Type 0 where
    pub correction : IsCorrection InRange cw
    pub first : (step_of s0 cw a k0 t).1 ≡ k0'
    pub first_bit : (step_of s0 cw a k0 t).2 ≡ t'
    pub second : (step_of s1 cw a k1 (not t)).1 ≡ k1'
    pub second_bit : (step_of s1 cw a k1 (not t)).2 ≡ not t'
    pub sum : v.add (step_of s0 cw a k0 t).0 (step_of s1 cw a k1 (not t)).0 ≡ weight
    pub beside : (step_of s1 cw (not a) k1 (not t)).1 ≡ (step_of s0 cw (not a) k0 t).1
    pub bit_beside : (step_of s1 cw (not a) k1 (not t)).2 ≡ (step_of s0 cw (not a) k0 t).2
    pub sum_beside :
        v.add (step_of s0 cw (not a) k0 t).0 (step_of s1 cw (not a) k1 (not t)).0
        ≡ v.zero weight_parameter

  -- The correction that `gen_with_keys` computes.
  correction_lem :
      (w0 w1 b : W)
      → InRange w0
      → InRange w1
      → InRange b
      → v.add (v.add (v.sub w1 w0) b) w0 ≡ v.add w1 b
  correction_lem w0 w1 b h0 h1 hb =
      let d = v.sub w1 w0 in
      let hd = law.sub-InRange w1 w0 h1 h0 in
      law.add_assoc d b w0 hd hb h0
      ∙ ap (λ (t : W). v.add d t) (law.add_comm b w0 hb h0)
      ∙ sym (law.add_assoc d w0 b hd h0 hb)
      ∙ ap (λ (t : W). v.add t b) (law.sub-add w1 w0 h1 h0)

  sums :
      (w0 w1 b c : W) (b0 b1 : Bool)
      → InRange w0
      → InRange w1
      → InRange b
      → InRange c
      → b1 ≡ not b0
      → v.add c w0 ≡ v.add w1 b
      → v.add
          (v.conditional_negate
            (v.add
              (v.conditional_select (v.zero weight_parameter) (v.conditional_negate c b1) b0)
              w0)
            false)
          (v.conditional_negate
            (v.add
              (v.conditional_select (v.zero weight_parameter) (v.conditional_negate c b1) b1)
              w1)
            true)
        ≡ b
  sums w0 w1 b c b0 b1 h0 h1 hb hc e h =
      let word = v.conditional_negate c b1 in
      let ok_word = conditional_negate-InRange law c b1 hc in
      rw
        (
          law.add_comm (v.conditional_select (v.zero weight_parameter) word b0) w0
              (selected-InRange law word b0 ok_word) h0,
          law.add_comm (v.conditional_select (v.zero weight_parameter) word b1) w1
              (selected-InRange law word b1 ok_word) h1,
          e,
        )
        (shares_sum law w0 w1 b c b0 h0 h1 hb hc h)

  pub correct-IsLevel :
      (a : Bool) (weight : W) (k0 k1 : List ℕ) (t : Bool)
      → InRange weight
      → (cw : VidpfCorrectionWord W) × (k0' : List ℕ) × (k1' : List ℕ) × (t' : Bool) × IsLevel a
          weight k0 k1 t cw k0' k1' t'
        × (correct aes nonce v weight_parameter a weight (k0, k1) (t, not t)
            ≡ (cw, (k0', k1'), (t', not t')))
  correct-IsLevel a weight k0 k1 t h =
      let seed_cw = s_cw aes nonce v weight_parameter a (k0, k1) in
      let bits_cw = t_cw aes nonce v weight_parameter a (k0, k1) in
      let below_0 = below aes nonce v weight_parameter k0 t seed_cw a in
      let below_1 = below aes nonce v weight_parameter k1 (not t) seed_cw a in
      let b0 = below_bit aes nonce v weight_parameter k0 t bits_cw a in
      let b1 = below_bit aes nonce v weight_parameter k1 (not t) bits_cw a in
      let h0 = convert-InRange (below_seed aes nonce v weight_parameter k0 t seed_cw a) in
      let h1 = convert-InRange (below_seed aes nonce v weight_parameter k1 (not t) seed_cw a) in
      let c = v.add (v.sub below_1.1 below_0.1) weight in
      let c_ok : InRange c =
        law.add-InRange (v.sub below_1.1 below_0.1) weight
          (law.sub-InRange below_1.1 below_0.1 h1 h0) h in
      let opposite : b1 ≡ not b0 = kept a (bits aes nonce k0) (bits aes nonce k1) t in
      let cw : VidpfCorrectionWord W = record {
        seed = seed_cw;
        left_control_bit = bits_cw.0;
        right_control_bit = bits_cw.1;
        weight = v.conditional_negate c b1;
      } in
      let seed_ok : IsBytes 16 seed_cw =
        s_cw-IsBytes aes nonce v weight_parameter a (k0, k1) stream in
      let ok : IsCorrection InRange cw = record {
        seed-IsBytes = seed_ok;
        weight-InRange = conditional_negate-InRange law c b1 c_ok;
      } in
      let go_0 = advance_lem aes nonce v weight_parameter stream s0 cw a k0 t seed_ok in
      let go_1 = advance_lem aes nonce v weight_parameter stream s1 cw a k1 (not t) seed_ok in
      let (same, same_bit, cancel) =
        next_same cw (not a) k0 k1 t (not t) ok
          (corrected_seeds_lost t (seeds-IsBytes aes nonce stream (not a) k0)
            (seeds-IsBytes aes nonce stream (not a) k1))
          (lost a (bits aes nonce k0) (bits aes nonce k1) t) in
      (
        cw,
        below_0.0,
        below_1.0,
        b0,
        record {
          correction = ok;
          first = ap (λ (r : W × List ℕ × Bool). r.1) go_0;
          first_bit = ap (λ (r : W × List ℕ × Bool). r.2) go_0;
          second = ap (λ (r : W × List ℕ × Bool). r.1) go_1;
          second_bit = ap (λ (r : W × List ℕ × Bool). r.2) go_1 ∙ opposite;
          sum =
              rw (go_0, go_1)
                (sums below_0.1 below_1.1 weight c b0 b1 h0 h1 h c_ok opposite
                  (correction_lem below_0.1 below_1.1 weight h0 h1 h));
          beside = same;
          bit_beside = same_bit;
          sum_beside = cancel;
        },
        correct_lem aes nonce v weight_parameter a (k0, k1) stream weight (t, not t)
            ∙ ap (λ (b : Bool). (cw, (below_0.0, below_1.0), (b0, b))) opposite,
      )
