-- ===== src/Vidpf/Verify.antt =====
-- src/vidpf.rs: a generated public share, evaluated by the two servers.
use mastic.Prelude.{
  ℕ, suc, ◌+◌, ◌≤◌, ◌<◌, ◌^◌, ◌≡◌, refl, ◌∙◌, sym, subst, ◌⊎◌, inl, inr, Bool, true, false, List,
  [], ◌∷◌, length, drop, Option, none, some, Result, ok, err, ok-injective, ltb, ltb→lt, Bool-cases,
  if◌then◌else◌, arith,
}
use mastic.Idpf.Seeds.{repeat}
use mastic.Idpf.Value.{IdpfValue, IsGroup}
use mastic.Idpf.Tree.Program.{is_prefix}
use mastic.Vidpf.{
  VidpfError, level_too_big, index_level, get_random, VidpfServerId, s0, s1, VidpfKey,
  VidpfPublicShare, VidpfValueShare, SeedStream, TurboShake,
}
use mastic.Vidpf.Server.{key_gen, correct, gen_levels, gen_with_keys, gen, eval, init_from_key}
use mastic.Vidpf.Level.{IsSeedStream}
use mastic.Vidpf.Proof.{IsProofStream, node_proof_lem, node_proof-big}
use mastic.Vidpf.Program.{IsProgram, get_ok_or-drop, drop-suc, length-drop_cons}
use mastic.Vidpf.Program.Generate.{gen_levels_lem}
use mastic.Vidpf.Correct.{summed, program_runs}

module _ {S X T W P : Type 0} (aes : SeedStream S) (shake : TurboShake X T) (v : IdpfValue W P S)
    (weight_parameter : P) where
  -- The point function of an input and its weight, at a path.
  unfoldable pub weight_at : List Bool → W → List Bool → W
  weight_at input weight [] = v.zero weight_parameter
  weight_at input weight (b ∷ x) =
      if is_prefix (b ∷ x) input then weight else v.zero weight_parameter

  abbrev pub key : VidpfServerId → List ℕ → VidpfKey
  key id value = record { id = id; value = value }

module _ {S X T W P : Type 0} {aes : SeedStream S} {v : IdpfValue W P S} {weight_parameter : P}
    {InRange : W → Type 0} (shake : TurboShake X T) (stream : IsSeedStream aes)
    (proofs : IsProofStream shake) (law : IsGroup v weight_parameter InRange) (nonce : List ℕ) where
  too_big :
      (input : List Bool) (weight : W) (rest : List Bool) (i : ℕ) (s : List ℕ × List ℕ)
      (t : Bool × Bool)
      → drop i input ≡ rest
      → i ≤ 2 ^ 16
      → 2 ^ 16 < i + length rest
      → gen_levels aes shake v weight_parameter nonce input weight (length rest) i s t
        ≡ err level_too_big
  unfolding gen_levels
  too_big input weight [] i s t h k l = absurd (omega (arith, k, l))
  too_big input weight (a ∷ rest) i s t h k l =
      let r = correct aes nonce v weight_parameter a weight s t in
      elim (Bool-cases (ltb i (2 ^ 16))) [
        | inl e ↦
            let below = ltb→lt i (2 ^ 16) e in
            rw
              (
                get_ok_or-drop input i index_level h,
                node_proof_lem shake input i r.1.0 (length-drop_cons input i h) below,
                node_proof_lem shake input i r.1.1 (length-drop_cons input i h) below,
                too_big input weight rest (suc i) r.1 r.2 (drop-suc input i h)
                    (omega (arith, below)) (omega (arith, l)),
              )
              refl
        | inr e ↦
            rw
              (
                get_ok_or-drop input i index_level h,
                node_proof-big shake input i r.1.0 (length-drop_cons input i h) e,
              )
              refl
      ]

  -- With two seeds the input has a public share, unless it is too long.
  with_seeds :
      (input : List Bool) (weight : W) (k0 k1 : List ℕ)
      → InRange weight
      → length input ≤ 2 ^ 16
      → (public : VidpfPublicShare W) × (gen aes shake v weight_parameter nonce input weight
            (some k0, some k1)
          ≡ ok (
            public,
            (key aes shake v weight_parameter s0 k0, key aes shake v weight_parameter s1 k1),
          ))
        × IsProgram shake stream law nonce input weight 0 input k0 k1 false public.cw public.cs
        × (length public.cw ≡ length input)
  unfolding gen key_gen gen_with_keys
  with_seeds input weight k0 k1 ok_weight short =
      let (cws, css, run, program, count) =
        gen_levels_lem shake stream law nonce input weight ok_weight short input 0 k0 k1 false
          refl in
      (record { cw = cws; cs = css }, rw run refl, program, count)

  too_long :
      (input : List Bool) (weight : W) (k0 k1 : List ℕ)
      → 2 ^ 16 < length input
      → gen aes shake v weight_parameter nonce input weight (some k0, some k1) ≡ err level_too_big
  unfolding gen key_gen gen_with_keys
  too_long input weight k0 k1 h =
      rw (too_big input weight input 0 (k0, k1) (false, true) refl (omega arith) (omega (arith, h)))
        refl

  -- What `gen` answers, by what `getrandom` gave and the length of the input.
  abbrev pub GenCases : List Bool → W → Option (List ℕ) → Option (List ℕ) → Type 0
  GenCases input weight (some k0) (some k1) =
      ((2 ^ 16 < length input)
        × (gen aes shake v weight_parameter nonce input weight (some k0, some k1)
            ≡ err level_too_big))
      ⊎ ((length input ≤ 2 ^ 16)
          × (public : VidpfPublicShare W) × (gen aes shake v weight_parameter nonce input weight
                (some k0, some k1)
              ≡ ok (
                public,
                (key aes shake v weight_parameter s0 k0, key aes shake v weight_parameter s1 k1),
              ))
          × (length public.cw ≡ length input))
  GenCases input weight (some k0) none =
      gen aes shake v weight_parameter nonce input weight (some k0, none) ≡ err get_random
  GenCases input weight none random_1 =
      gen aes shake v weight_parameter nonce input weight (none, random_1) ≡ err get_random

  -- For a weight in range, the generation of a VIDPF fails where getrandom does, with LevelTooBig
  -- where the input has more than 2 ^ 16 bits, although the comment on that error speaks of 32
  -- bits, and otherwise gives the two keys and a correction word for each bit.
  pub gen-cases :
      (input : List Bool) (weight : W) (random_0 random_1 : Option (List ℕ))
      → InRange weight
      → GenCases input weight random_0 random_1
  unfolding gen key_gen
  gen-cases input weight none random_1 ok_weight = refl
  gen-cases input weight (some k0) none ok_weight = refl
  gen-cases input weight (some k0) (some k1) ok_weight =
      elim (Bool-cases (ltb (2 ^ 16) (length input))) [
        | inl e ↦
            let long = ltb→lt (2 ^ 16) (length input) e in
            inl (long, too_long input weight k0 k1 long)
        | inr e ↦
            let (public, made, program, count) =
              with_seeds input weight k0 k1 ok_weight (at_most (2 ^ 16) (length input) e) in
            inr (at_most (2 ^ 16) (length input) e, public, made, count)
      ]
    where
      at_most : (m n : ℕ) → ltb m n ≡ false → n ≤ m
      at_most m n e = ground arith

  Agrees : List Bool → W → VidpfPublicShare W → VidpfKey × VidpfKey → List Bool → Type 0
  Agrees input weight public keys x =
      (r0 : VidpfValueShare W) × (r1 : VidpfValueShare W) × (eval aes shake v weight_parameter nonce
          keys.0 public x
        ≡ ok r0)
      × (eval aes shake v weight_parameter nonce keys.1 public x ≡ ok r1)
      × (r1.proof ≡ r0.proof)
      × (v.add r0.share r1.share ≡ weight_at aes shake v weight_parameter input weight x)

  total :
      (input : List Bool) (weight : W) (public : VidpfPublicShare W) (x whole : List Bool)
      (short : length whole ≤ 2 ^ 16)
      → summed shake stream proofs law nonce input weight public whole short x input
          (v.add (v.zero weight_parameter) (v.zero weight_parameter))
        ≡ weight_at aes shake v weight_parameter input weight x
  unfolding weight_at
  total input weight public [] whole short = law.add-zero (v.zero weight_parameter) law.zero-InRange
  total input weight public (b ∷ x) whole short = refl

  eval_program :
      (input : List Bool) (weight : W) (k0 k1 : List ℕ) (public : VidpfPublicShare W)
      (x : List Bool)
      → IsProgram shake stream law nonce input weight 0 input k0 k1 false public.cw public.cs
      → length x ≤ length public.cw
      → length x ≤ 2 ^ 16
      → Agrees input weight public
          (key aes shake v weight_parameter s0 k0, key aes shake v weight_parameter s1 k1)
          x
  unfolding Agrees eval init_from_key
  eval_program input weight k0 k1 public x program h short =
      let (st0, st1, y0, y1, e0, e1, same, sum) =
        program_runs shake stream proofs law nonce input weight public x short program x
          (repeat 32 0) (v.zero weight_parameter) (v.zero weight_parameter) refl refl refl refl refl
          h in
      (
        record { share = y0; proof = st0.proof },
        record { share = y1; proof = st1.proof },
        rw e0 refl,
        rw e1 refl,
        same,
        sum ∙ total input weight public x x short,
      )

  -- The servers evaluate a path that is no longer than the input.
  pub eval-gen :
      (input : List Bool) (weight : W) (k0 k1 : List ℕ) (public : VidpfPublicShare W)
      (keys : VidpfKey × VidpfKey) (x : List Bool)
      → InRange weight
      → gen aes shake v weight_parameter nonce input weight (some k0, some k1) ≡ ok (public, keys)
      → length x ≤ length input
      → (r0 : VidpfValueShare W) × (r1 : VidpfValueShare W) × (eval aes shake v weight_parameter
            nonce keys.0 public x
          ≡ ok r0)
        × (eval aes shake v weight_parameter nonce keys.1 public x ≡ ok r1)
        × (r1.proof ≡ r0.proof)
        × (v.add r0.share r1.share ≡ weight_at aes shake v weight_parameter input weight x)
  unfolding Agrees
  eval-gen input weight k0 k1 public keys x ok_weight made h =
      elim (Bool-cases (ltb (2 ^ 16) (length input))) [
        | inl e ↦ absurd (
            err-ne-ok (sym (too_long input weight k0 k1 (ltb→lt (2 ^ 16) (length input) e)) ∙ made))
        | inr e ↦
            let short = at_most (2 ^ 16) (length input) e in
            let (made_share, made', program, count) =
              with_seeds input weight k0 k1 ok_weight short in
            let same = ok-injective (sym made' ∙ made) in
            subst
              (λ (r : VidpfPublicShare W × (VidpfKey × VidpfKey)). Agrees input weight r.0 r.1 x)
              same
              (eval_program input weight k0 k1 made_share x program (omega (arith, h, count))
                (omega (arith, h, short)))
      ]
    where
      at_most : (m n : ℕ) → ltb m n ≡ false → n ≤ m
      at_most m n e = ground arith

      err-ne-ok :
          {A : Type 0} {a : A} {f : VidpfError} → ◌≡◌ {A = Result VidpfError A} (err f) (ok a) → ⊥
      err-ne-ok h = cc
