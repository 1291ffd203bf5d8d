-- ===== src/Vidpf/Correct.antt =====
-- src/vidpf.rs: the two servers along a path, from the public share of an input.
use mastic.Prelude.{
  ℕ, suc, ◌≤◌, ◌^◌, ◌≡◌, refl, ap, ◌∙◌, sym, subst, inl, inr, Bool, true, false, not, List, [], ◌∷◌,
  ◌++◌, length, take, drop, Result, ok, if◌then◌else◌, arith,
}
use mastic.Idpf.Value.{IdpfValue, IsGroup}
use mastic.Idpf.Tree.Program.{is_prefix}
use mastic.Idpf.Tree.Shares.{same_bit-cases}
use mastic.Vidpf.{
  VidpfError, index_level, VidpfServerId, s0, s1, VidpfCorrectionWord, VidpfPublicShare,
  VidpfEvalState, SeedStream, TurboShake, xor_proof,
}
use mastic.Vidpf.Server.{eval_levels}
use mastic.Vidpf.Level.{IsSeedStream}
use mastic.Vidpf.Pair.{IsCorrection, next_same}
use mastic.Vidpf.Proof.{corrected_proofs, IsProofStream, node_bytes, node_bytes-IsBytes}
use mastic.Vidpf.Program.{
  IsProgram, done, more_levels, next_proof, go, eval_next_lem, get_ok_or-drop, drop-suc, take-suc,
  length-drop_cons,
}

module _ {S X T W P : Type 0} {aes : SeedStream S} {v : IdpfValue W P S} {weight_parameter : P}
    {InRange : W → Type 0} (shake : TurboShake X T) (stream : IsSeedStream aes)
    (proofs : IsProofStream shake) (law : IsGroup v weight_parameter InRange) (nonce : List ℕ)
    (input : List Bool) (weight : W) (public : VidpfPublicShare W) (x : List Bool)
    (short : length x ≤ 2 ^ 16) where
  -- Correction words with corrections of the proofs.
  data Corrections : List (VidpfCorrectionWord W) → List (List ℕ) → Type 0 where
    no_levels : Corrections [] []
    next_level :
        {cw : VidpfCorrectionWord W} {cs : List ℕ} {cws : List (VidpfCorrectionWord W)}
        {css : List (List ℕ)}
        → IsCorrection InRange cw
        → Corrections cws css
        → Corrections (cw ∷ cws) (cs ∷ css)

  IsProgram-Corrections :
      {i : ℕ} {rest : List Bool} {k0 k1 : List ℕ} {t : Bool} {cws : List (VidpfCorrectionWord W)}
      {css : List (List ℕ)}
      → IsProgram shake stream law nonce input weight i rest k0 k1 t cws css
      → Corrections cws css
  IsProgram-Corrections done = no_levels
  IsProgram-Corrections (more_levels l p) = next_level l.correction (IsProgram-Corrections p)

  abbrev run : VidpfServerId → ℕ → ℕ → VidpfEvalState → W → Result VidpfError (VidpfEvalState × W)
  run id left i state share =
      eval_levels aes shake v weight_parameter nonce id public x left i state share

  abbrev state : List ℕ → Bool → List ℕ → VidpfEvalState
  state seed t proof = record { seed = seed; control_bit = t; proof = proof }

  abbrev at : VidpfServerId → VidpfCorrectionWord W → Bool → List ℕ → Bool → W × List ℕ × Bool
  at id cw b seed t = go shake stream law nonce input weight id cw b seed t

  -- Two runs that end with one proof and shares of a weight.
  abbrev pub Ends :
      Result VidpfError (VidpfEvalState × W) → Result VidpfError (VidpfEvalState × W) → W → Type 0
  Ends r0 r1 total =
      (st0 : VidpfEvalState) × (st1 : VidpfEvalState) × (y0 : W) × (y1 : W) × (r0 ≡ ok (st0, y0))
      × (r1 ≡ ok (st1, y1))
      × (st1.proof ≡ st0.proof)
      × (v.add y0 y1 ≡ total)

  run_cons :
      (id : VidpfServerId) (b : Bool) (xs : List Bool) (i : ℕ) (seed : List ℕ) (t : Bool)
      (proof : List ℕ) (share : W) {cw : VidpfCorrectionWord W} {cs : List ℕ}
      {cws : List (VidpfCorrectionWord W)} {css : List (List ℕ)}
      → drop i public.cw ≡ cw ∷ cws
      → drop i public.cs ≡ cs ∷ css
      → drop i x ≡ b ∷ xs
      → run id (length (b ∷ xs)) i (state seed t proof) share
        ≡ run id
            (length xs)
            (suc i)
            (state (at id cw b seed t).1 (at id cw b seed t).2 (
              next_proof shake stream law nonce input weight
                (take (suc i) x)
                i
                (at id cw b seed t).1
                (at id cw b seed t).2
                cs
                proof))
            (at id cw b seed t).0
  unfolding eval_levels
  run_cons id b xs i seed t proof share hw hc hx =
      let inside = length-drop_cons x i hx in
      rw
        (eval_next_lem shake stream law nonce input weight id public x i seed t proof
          (get_ok_or-drop public.cw i index_level hw) (get_ok_or-drop x i index_level hx)
          (get_ok_or-drop public.cs i index_level hc) inside (omega (arith, inside, short)))
        refl

  -- Two servers in one state.
  same_runs :
      {cws : List (VidpfCorrectionWord W)} {css : List (List ℕ)}
      → Corrections cws css
      → (xs : List Bool) (i : ℕ) (seed : List ℕ) (t : Bool) (proof : List ℕ) (y0 y1 : W)
      → drop i public.cw ≡ cws
      → drop i public.cs ≡ css
      → drop i x ≡ xs
      → length xs ≤ length cws
      → v.add y0 y1 ≡ v.zero weight_parameter
      → Ends
          (run s0 (length xs) i (state seed t proof) y0)
          (run s1 (length xs) i (state seed t proof) y1)
          (v.zero weight_parameter)
  unfolding eval_levels
  same_runs c [] i seed t proof y0 y1 hw hc hx h z = (_, _, y0, y1, refl, refl, refl, z)
  same_runs no_levels (b ∷ xs) i seed t proof y0 y1 hw hc hx h z = elim h [ ]
  same_runs (next_level {cw = cw} {cs = cs} {cws = cws} {css = css} ok_cw c) (b ∷ xs) i seed t proof
        y0 y1 hw hc hx h z =
      let (e, e', sum) = next_same stream law nonce cw b seed seed t t ok_cw refl refl in
      rw
        (
          run_cons s0 b xs i seed t proof y0 hw hc hx,
          run_cons s1 b xs i seed t proof y1 hw hc hx,
          e,
          e',
        )
        (same_runs {cws = cws} {css = css} c xs (suc i) _ _ _ _ _ (drop-suc public.cw i hw)
          (drop-suc public.cs i hc) (drop-suc x i hx) (omega (arith, h)) sum)

  -- What the shares sum to: the weight where the bits of the path, one at least, are the next bits
  -- of the input.
  abbrev pub summed : List Bool → List Bool → W → W
  summed [] rest start = start
  summed (b ∷ xs) rest start = if is_prefix (b ∷ xs) rest then weight else v.zero weight_parameter

  summed_on :
      (b : Bool) (xs rest : List Bool) (start : W)
      → summed xs rest weight ≡ summed (b ∷ xs) (b ∷ rest) start
  unfolding is_prefix
  summed_on true [] rest start = refl
  summed_on false [] rest start = refl
  summed_on true (c ∷ xs) rest start = refl
  summed_on false (c ∷ xs) rest start = refl

  summed_off :
      (a : Bool) (xs rest : List Bool) (start : W)
      → v.zero weight_parameter ≡ summed (not a ∷ xs) (a ∷ rest) start
  unfolding is_prefix
  summed_off true xs rest start = refl
  summed_off false xs rest start = refl

  -- The proofs of the two servers stay the same on the path of the input.
  same_proof :
      (bits : List Bool) (i : ℕ) (k0 k1 : List ℕ) (t : Bool) (proof : List ℕ)
      → next_proof shake stream law nonce input weight bits i k1
          (not t)
          (xor_proof (node_bytes shake bits i k0) (node_bytes shake bits i k1))
          proof
        ≡ next_proof shake stream law nonce input weight bits i k0 t
            (xor_proof (node_bytes shake bits i k0) (node_bytes shake bits i k1))
            proof
  same_proof bits i k0 k1 t proof =
      rw
        (corrected_proofs t (node_bytes-IsBytes shake proofs bits i k0)
          (node_bytes-IsBytes shake proofs bits i k1))
        refl

  pub program_runs :
      {i : ℕ} {rest : List Bool} {k0 k1 : List ℕ} {t : Bool} {cws : List (VidpfCorrectionWord W)}
      {css : List (List ℕ)}
      → IsProgram shake stream law nonce input weight i rest k0 k1 t cws css
      → (xs : List Bool) (proof : List ℕ) (y0 y1 : W) → drop i public.cw ≡ cws
      → drop i public.cs ≡ css
      → drop i x ≡ xs
      → drop i input ≡ rest
      → take i x ≡ take i input
      → length xs ≤ length cws
      → Ends
          (run s0 (length xs) i (state k0 t proof) y0)
          (run s1 (length xs) i (state k1 (not t) proof) y1)
          (summed xs rest (v.add y0 y1))
  unfolding eval_levels
  program_runs p [] proof y0 y1 hw hc hx hi hp h = (_, _, y0, y1, refl, refl, refl, refl)
  program_runs done (b ∷ xs) proof y0 y1 hw hc hx hi hp h = elim h [ ]
  program_runs {i = i}
        (more_levels {a = a} {rest = rest} {k0 = k0} {k1 = k1} {t = t} {cw = cw} {cws = cws}
          {css = css} {k0' = k0'} {k1' = k1'} {t' = t'} l p)
        (b ∷ xs) proof y0 y1 hw hc hx hi hp h =
      elim (same_bit-cases b a) [
        | inl (e, s) ↦
            let hx' : drop i x ≡ a ∷ xs = hx ∙ ap (λ (c : Bool). c ∷ xs) e in
            let bits : take (suc i) x ≡ take (suc i) input =
              take-suc x i hx'
              ∙ ap (λ (r : List Bool). r ++ (a ∷ [])) hp
              ∙ sym (take-suc input i hi) in
            subst (Ends _ _)
              (ap (summed xs rest) l.sum
                ∙ summed_on a xs rest (v.add y0 y1)
                ∙ ap (λ (c : Bool). summed (c ∷ xs) (a ∷ rest) (v.add y0 y1)) (sym e))
              (rw
                (
                  run_cons s0 a xs i k0 t proof y0 hw hc hx',
                  run_cons s1 a xs i k1 (not t) proof y1 hw hc hx',
                  l.first,
                  l.first_bit,
                  l.second,
                  l.second_bit,
                  bits,
                  same_proof (take (suc i) input) i k0' k1' t' proof,
                )
                (program_runs {i = suc i} {rest = rest} {k0 = k0'} {k1 = k1'} {t = t'} {cws = cws}
                  {css = css} p xs _ _ _ (drop-suc public.cw i hw) (drop-suc public.cs i hc)
                  (drop-suc x i hx) (drop-suc input i hi) bits (omega (arith, h))))
        | inr (e, s) ↦
            let hx' : drop i x ≡ not a ∷ xs = hx ∙ ap (λ (c : Bool). c ∷ xs) e in
            subst (Ends _ _)
              (summed_off a xs rest (v.add y0 y1)
                ∙ ap (λ (c : Bool). summed (c ∷ xs) (a ∷ rest) (v.add y0 y1)) (sym e))
              (rw
                (
                  run_cons s0 (not a) xs i k0 t proof y0 hw hc hx',
                  run_cons s1 (not a) xs i k1 (not t) proof y1 hw hc hx',
                  l.beside,
                  l.bit_beside,
                )
                (same_runs {cws = cws} {css = css} (IsProgram-Corrections p) xs (suc i) _ _ _ _ _
                  (drop-suc public.cw i hw) (drop-suc public.cs i hc) (drop-suc x i hx)
                  (omega (arith, h)) l.sum_beside))
      ]
