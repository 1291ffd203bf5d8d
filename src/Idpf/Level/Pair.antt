-- ===== src/Idpf/Level/Pair.antt =====
-- src/idpf.rs: the two parties at one level, on the path of the input and beside it.
use mastic.Prelude.{ℕ, ◌≡◌, refl, ap, sym, subst, Bool, true, false, not, List, if◌then◌else◌}
use mastic.Idpf.Seeds.{xor_seeds}
use mastic.Idpf.Seeds.Laws.{IsBytes}
use mastic.Idpf.Value.{IdpfValue, IsGroup}
use mastic.Idpf.Value.Laws.{correction_lem, conditional_negate-InRange, shares_sum, shares_cancel}
use mastic.Idpf.Level.{
  FixedKeyXof, IdpfCorrectionWord, extend, convert, generate_correction_word, eval_next,
}
use mastic.Idpf.Level.Bits.{side, bits_kept, bits_lost, corrected_seeds_lost}
use mastic.Idpf.Level.Step.{
  IsStream, extend-IsBytes, child_seed, child_bit, child_key, cw_bits, cw_seed-IsBytes,
  eval_next_lem, generate_correction_word_lem,
}

-- A correction word that `eval_next` can use.
pub record IsCorrection {V : Type 0} (InRange : V → Type 0) (cw : IdpfCorrectionWord V)
    : Type 0 where
  pub seed-IsBytes : IsBytes 16 cw.seed
  pub value-InRange : InRange cw.value

module _ {K S V P : Type 0} {xof : FixedKeyXof K S} {v : IdpfValue V P S} {parameter : P}
    {InRange : V → Type 0} (stream : IsStream xof) (law : IsGroup v parameter InRange)
    (extend_key convert_key : K) where
  convert-InRange :
      (seed : List ℕ) → InRange (convert xof v parameter extend_key convert_key seed).1
  unfolding convert
  convert-InRange seed = law.generate-InRange (xof.fill_bytes (xof.with_seed convert_key seed) 16).1

  module _ (cw : IdpfCorrectionWord V) where
    abbrev pub outcome : Bool → List ℕ → Bool → Bool → V × List ℕ × Bool
    outcome is_leader key t x =
        eval_next xof v parameter extend_key convert_key is_leader key t cw x

    abbrev seed_below : List ℕ → Bool → Bool → List ℕ
    seed_below key t x = child_seed stream v parameter extend_key convert_key key t cw x

    abbrev bit_below : List ℕ → Bool → Bool → Bool
    bit_below key t x = child_bit stream v parameter extend_key convert_key key t cw x

    -- Where the seeds and the bits below are the same, so are the states, and the shares cancel.
    pub children_same :
        (k0 k1 : List ℕ) (t0 t1 x : Bool)
        → IsCorrection InRange cw
        → seed_below k1 t1 x ≡ seed_below k0 t0 x
        → bit_below k1 t1 x ≡ bit_below k0 t0 x
        → ((outcome false k1 t1 x).1 ≡ (outcome true k0 t0 x).1)
          × ((outcome false k1 t1 x).2 ≡ (outcome true k0 t0 x).2)
          × (v.add (outcome true k0 t0 x).0 (outcome false k1 t1 x).0 ≡ v.zero parameter)
    children_same k0 k1 t0 t1 x ok hs hb =
        rw
          (
            eval_next_lem stream v parameter extend_key convert_key true k0 t0 cw x ok.seed-IsBytes,
            eval_next_lem stream v parameter extend_key convert_key false k1 t1 cw x
                ok.seed-IsBytes,
            hs,
            hb,
          )
          (
            refl,
            refl,
            shares_cancel law
                (convert xof v parameter extend_key convert_key (seed_below k0 t0 x)).1 cw.value
                (bit_below k0 t0 x) (convert-InRange (seed_below k0 t0 x)) ok.value-InRange,
          )

  -- The two parties below a node on the path of the input, for the input bit `a` of that node.
  module _ (a : Bool) (value : V) (keys : List ℕ × List ℕ) (t : Bool) where
    abbrev pub generated : IdpfCorrectionWord V × (List ℕ × List ℕ) × (Bool × Bool)
    generated =
        generate_correction_word xof v parameter extend_key convert_key a value keys (t, not t)

    abbrev pub OnPath : IdpfCorrectionWord V × (List ℕ × List ℕ) × (Bool × Bool) → Type 0
    OnPath (cw, (key_0, key_1), (bit_0, bit_1)) =
        IsCorrection InRange cw
        × (bit_1 ≡ not bit_0)
        × (outcome cw true keys.0 t a ≡ ((outcome cw true keys.0 t a).0, key_0, bit_0))
        × (outcome cw false keys.1 (not t) a
            ≡ ((outcome cw false keys.1 (not t) a).0, key_1, bit_1))
        × (v.add (outcome cw true keys.0 t a).0 (outcome cw false keys.1 (not t) a).0 ≡ value)

    pub on_path : InRange value → OnPath generated
    on_path h =
        let (cw, hs, hb, hv, hg) =
          generate_correction_word_lem stream v parameter extend_key convert_key a keys value
            (t, not t) in
        let seed_ok : IsBytes 16 cw.seed =
          subst (IsBytes 16) (sym hs)
            (cw_seed-IsBytes stream v parameter extend_key convert_key a keys) in
        let opposite = kept cw hb in
        let w0 = below cw keys.0 t in
        let w1 = below cw keys.1 (not t) in
        let h0 = convert-InRange (seed_below cw keys.0 t a) in
        let h1 = convert-InRange (seed_below cw keys.1 (not t) a) in
        let c = v.add (v.sub value w0) w1 in
        let c_ok = law.add-InRange (v.sub value w0) w1 (law.sub-InRange value w0 h h0) h1 in
        let value_ok =
          subst InRange (sym hv)
            (conditional_negate-InRange law c (bit_below cw keys.1 (not t) a) c_ok) in
        subst OnPath (sym hg) (
          record { seed-IsBytes = seed_ok; value-InRange = value_ok },
          opposite,
          rw (next cw true keys.0 t seed_ok) refl,
          rw (next cw false keys.1 (not t) seed_ok) refl,
          rw (next cw true keys.0 t seed_ok, next cw false keys.1 (not t) seed_ok, hv, opposite)
              (shares_sum law w0 w1 value c (bit_below cw keys.0 t a) h0 h1 h c_ok
                (correction_lem law w0 w1 value h0 h1 h)),
        )
      where
        below : IdpfCorrectionWord V → List ℕ → Bool → V
        below cw key u = (child_key stream v parameter extend_key convert_key key u cw a).1

        kept :
            (cw : IdpfCorrectionWord V)
            → cw.control_bits ≡ cw_bits stream v parameter extend_key convert_key a keys
            → bit_below cw keys.1 (not t) a ≡ not (bit_below cw keys.0 t a)
        kept cw hb =
            rw (hb)
              (bits_kept a (extend xof keys.0 extend_key).1 (extend xof keys.1 extend_key).1 t)

        next :
            (cw : IdpfCorrectionWord V) (is_leader : Bool) (key : List ℕ) (u : Bool)
            → IsBytes 16 cw.seed
            → outcome cw is_leader key u a ≡ (
              v.conditional_negate
                  (v.add
                    (below cw key u)
                    (v.conditional_select (v.zero parameter) cw.value (bit_below cw key u a)))
                  (not is_leader),
              (child_key stream v parameter extend_key convert_key key u cw a).0,
              bit_below cw key u a,
            )
        next cw is_leader key u ok =
            eval_next_lem stream v parameter extend_key convert_key is_leader key u cw a ok

    -- On the other side the states become the same.
    pub off_path :
        InRange value
        → ((outcome generated.0 false keys.1 (not t) (not a)).1
            ≡ (outcome generated.0 true keys.0 t (not a)).1)
          × ((outcome generated.0 false keys.1 (not t) (not a)).2
              ≡ (outcome generated.0 true keys.0 t (not a)).2)
          × (v.add
                (outcome generated.0 true keys.0 t (not a)).0
                (outcome generated.0 false keys.1 (not t) (not a)).0
              ≡ v.zero parameter)
    off_path h =
        let ok = (on_path h).0 in
        let (cw, hs, hb, hv, hg) =
          generate_correction_word_lem stream v parameter extend_key convert_key a keys value
            (t, not t) in
        let same : generated.0 ≡ cw =
          ap (λ (g : IdpfCorrectionWord V × (List ℕ × List ℕ) × (Bool × Bool)). g.0) hg in
        children_same generated.0 keys.0 keys.1 t (not t) (not a) ok (rw (same, hs) (seeds)) (
          rw (same, hb)
            (bits_lost a (extend xof keys.0 extend_key).1 (extend xof keys.1 extend_key).1 t))
      where
        lost : List ℕ → List ℕ
        lost key = side (not a) (extend xof key extend_key).0

        seeds :
            (if not t
              then xor_seeds (lost keys.1) (xor_seeds (lost keys.0) (lost keys.1))
              else lost keys.1)
            ≡ (if t
                then xor_seeds (lost keys.0) (xor_seeds (lost keys.0) (lost keys.1))
                else lost keys.0)
        seeds =
            corrected_seeds_lost t (extend-IsBytes stream (not a) keys.0 extend_key)
              (extend-IsBytes stream (not a) keys.1 extend_key)
