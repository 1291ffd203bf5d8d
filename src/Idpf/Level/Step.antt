-- ===== src/Idpf/Level/Step.antt =====
-- src/idpf.rs: what `generate_correction_word` and `eval_next` compute, with the selections by
-- masks read as case distinctions.
use mastic.Prelude.{ℕ, ◌≡◌, refl, ◌∙◌, arith, Bool, true, false, not, ◌&&◌, List, if◌then◌else◌}
use mastic.Field.Words.Bits.{bit_and-le}
use mastic.Idpf.Seeds.{◌⊕◌, xor_seeds, conditional_xor_seeds, conditional_select_seed}
use mastic.Idpf.Seeds.Laws.{
  IsBytes, none, more, xor_seeds-IsBytes, conditional_xor_seeds_lem, conditional_select_seed_lem,
}
use mastic.Idpf.Value.{IdpfValue}
use mastic.Idpf.Level.{
  FixedKeyXof, IdpfCorrectionWord, steal, extend, convert, generate_correction_word, eval_next,
}
use mastic.Idpf.Level.Bits.{side, correction_bits}

-- The stream gives bytes, as many as asked for.
pub record IsStream {K S : Type 0} (xof : FixedKeyXof K S) : Type 0 where
  pub fill_bytes-IsBytes : (s : S) (n : ℕ) → IsBytes n (xof.fill_bytes s n).0

pub steal-IsBytes : {n : ℕ} {s : List ℕ} → IsBytes n s → IsBytes n (steal s).0
unfolding steal
steal-IsBytes none = none
steal-IsBytes (more {b = b} h p) = more (omega (arith, bit_and-le b b 254 (omega arith))) p

pub conditional_xor-IsBytes :
    {s t : List ℕ} (c : Bool)
    → IsBytes 16 s
    → IsBytes 16 t
    → IsBytes 16 (conditional_xor_seeds s t c)
conditional_xor-IsBytes c p q = rw (conditional_xor_seeds_lem c p q) (cases c p q)
  where
    cases :
        {s t : List ℕ} (c : Bool)
        → IsBytes 16 s
        → IsBytes 16 t
        → IsBytes 16 (if c then xor_seeds s t else s)
    cases true p q = xor_seeds-IsBytes p q
    cases false p q = p

module _ {K S : Type 0} {xof : FixedKeyXof K S} (stream : IsStream xof) where
  pub extend-IsBytes :
      (x : Bool) (seed : List ℕ) (key : K) → IsBytes 16 (side x (extend xof seed key).0)
  unfolding extend
  extend-IsBytes false seed key =
      steal-IsBytes (stream.fill_bytes-IsBytes (xof.with_seed key seed) 16)
  extend-IsBytes true seed key =
      steal-IsBytes (stream.fill_bytes-IsBytes (xof.fill_bytes (xof.with_seed key seed) 16).1 16)

  module _ {V P : Type 0} (v : IdpfValue V P S) (parameter : P) (extend_key convert_key : K) where
    -- The seed and the control bit below a node, on the side `x`.
    abbrev pub child_seed : List ℕ → Bool → IdpfCorrectionWord V → Bool → List ℕ
    child_seed key t cw x =
        if t
        then xor_seeds (side x (extend xof key extend_key).0) cw.seed
        else side x (extend xof key extend_key).0

    abbrev pub child_bit : List ℕ → Bool → IdpfCorrectionWord V → Bool → Bool
    child_bit key t cw x = side x (extend xof key extend_key).1 ⊕ (side x cw.control_bits && t)

    abbrev pub child_key : List ℕ → Bool → IdpfCorrectionWord V → Bool → List ℕ × V
    child_key key t cw x = convert xof v parameter extend_key convert_key (child_seed key t cw x)

    selected :
        (key : List ℕ) (t : Bool) (seed : List ℕ) (x : Bool)
        → IsBytes 16 seed
        → conditional_select_seed x (
          conditional_xor_seeds (extend xof key extend_key).0.0 seed t,
          conditional_xor_seeds (extend xof key extend_key).0.1 seed t,
        )
          ≡ (if t
              then xor_seeds (side x (extend xof key extend_key).0) seed
              else side x (extend xof key extend_key).0)
    selected key t seed x h =
        let left = extend-IsBytes false key extend_key in
        let right = extend-IsBytes true key extend_key in
        conditional_select_seed_lem x (conditional_xor-IsBytes t left h)
          (conditional_xor-IsBytes t right h)
        ∙ sides x left right
      where
        sides :
            (x : Bool)
            → IsBytes 16 (extend xof key extend_key).0.0
            → IsBytes 16 (extend xof key extend_key).0.1
            → (if x
                then conditional_xor_seeds (extend xof key extend_key).0.1 seed t
                else conditional_xor_seeds (extend xof key extend_key).0.0 seed t)
              ≡ (if t
                  then xor_seeds (side x (extend xof key extend_key).0) seed
                  else side x (extend xof key extend_key).0)
        sides false left right = conditional_xor_seeds_lem t left h
        sides true left right = conditional_xor_seeds_lem t right h

    pub eval_next_lem :
        (is_leader : Bool) (key : List ℕ) (t : Bool) (cw : IdpfCorrectionWord V) (x : Bool)
        → IsBytes 16 cw.seed
        → eval_next xof v parameter extend_key convert_key is_leader key t cw x ≡ (
          v.conditional_negate
              (v.add
                (child_key key t cw x).1
                (v.conditional_select (v.zero parameter) cw.value (child_bit key t cw x)))
              (not is_leader),
          (child_key key t cw x).0,
          child_bit key t cw x,
        )
    unfolding eval_next
    eval_next_lem is_leader key t cw false h = rw (selected key t cw.seed false h) refl
    eval_next_lem is_leader key t cw true h = rw (selected key t cw.seed true h) refl

    -- The correction word for an input bit, from the keys of the two parties.
    module _ (a : Bool) (keys : List ℕ × List ℕ) where
      abbrev pub cw_seed : List ℕ
      cw_seed =
          xor_seeds (side (not a) (extend xof keys.0 extend_key).0)
            (side (not a) (extend xof keys.1 extend_key).0)

      abbrev pub cw_bits : Bool × Bool
      cw_bits = correction_bits a (extend xof keys.0 extend_key).1 (extend xof keys.1 extend_key).1

      -- The child of a party on the side of the input.
      abbrev share : List ℕ → Bool → List ℕ × V
      share key t = convert xof v parameter extend_key convert_key (
          if t
          then xor_seeds (side a (extend xof key extend_key).0) cw_seed
          else side a (extend xof key extend_key).0)

      abbrev bit : List ℕ → Bool → Bool
      bit key t = side a (extend xof key extend_key).1 ⊕ (side a cw_bits && t)

      pub cw_seed-IsBytes : IsBytes 16 cw_seed
      cw_seed-IsBytes =
          xor_seeds-IsBytes (extend-IsBytes (not a) keys.0 extend_key)
            (extend-IsBytes (not a) keys.1 extend_key)

      selected_side :
          (x : Bool) (key : List ℕ)
          → conditional_select_seed x (extend xof key extend_key).0
            ≡ side x (extend xof key extend_key).0
      selected_side x key =
          conditional_select_seed_lem x (extend-IsBytes false key extend_key)
            (extend-IsBytes true key extend_key)

      corrected :
          (key : List ℕ) (t : Bool)
          → conditional_xor_seeds (side a (extend xof key extend_key).0) cw_seed t ≡ (
              if t
              then xor_seeds (side a (extend xof key extend_key).0) cw_seed
              else side a (extend xof key extend_key).0)
      corrected key t =
          conditional_xor_seeds_lem t (extend-IsBytes a key extend_key) cw_seed-IsBytes

      pub generate_correction_word_lem :
          (value : V) (t : Bool × Bool)
          → (cw : IdpfCorrectionWord V) × (cw.seed ≡ cw_seed)
            × (cw.control_bits ≡ cw_bits)
            × (cw.value
                ≡ v.conditional_negate
                    (v.add
                      (v.sub value (child_key keys.0 t.0 cw a).1)
                      (child_key keys.1 t.1 cw a).1)
                    (child_bit keys.1 t.1 cw a))
            × (generate_correction_word xof v parameter extend_key convert_key a value keys t ≡ (
              cw,
              ((child_key keys.0 t.0 cw a).0, (child_key keys.1 t.1 cw a).0),
              (child_bit keys.0 t.0 cw a, child_bit keys.1 t.1 cw a),
            ))
      unfolding generate_correction_word
      generate_correction_word_lem value t = (
        record {
          seed = cw_seed;
          control_bits = cw_bits;
          value =
              v.conditional_negate (v.add (v.sub value (share keys.0 t.0).1) (share keys.1 t.1).1)
                (bit keys.1 t.1);
        },
        refl,
        refl,
        refl,
        rw
            (
              selected_side a keys.0,
              selected_side a keys.1,
              selected_side (not a) keys.0,
              selected_side (not a) keys.1,
              corrected keys.0 t.0,
              corrected keys.1 t.1,
            )
            refl,
      )
