-- ===== src/Vidpf/Program.antt =====
-- src/vidpf.rs: the public share that `gen_with_keys` makes, and the steps of the two servers along
-- a path.
pub mod Generate
use mastic.Prelude.{
  ℕ, zero, suc, ◌+◌, ◌≤◌, ◌<◌, ◌^◌, ◌≡◌, refl, ap, ◌∙◌, sym, subst, Bool, true, false, not, List,
  [], ◌∷◌, ◌++◌, length, take, drop, Result, ok, ◌>>=◌, arith,
}
use mastic.Idpf.Value.{IdpfValue, IsGroup}
use mastic.Vidpf.{
  VidpfError, index_level, VidpfServerId, s0, s1, VidpfCorrectionWord, VidpfPublicShare,
  VidpfEvalState, SeedStream, TurboShake, xor_proof, conditional_xor_proof, get_ok_or,
}
use mastic.Vidpf.Server.{node_proof, node_proof_adjustment, advance, gen_levels, eval_next}
use mastic.Vidpf.Level.{IsSeedStream}
use mastic.Vidpf.Pair.{IsCorrection, step_of, IsLevel}
use mastic.Vidpf.Proof.{
  corrected_proofs, IsProofStream, node_bytes, node_bytes-IsBytes, node_proof_lem,
}

pub get_ok_or-drop {ℓ κ} :
    {E : Type ℓ} {A : Type κ} (xs : List A) (i : ℕ) (error : E) {a : A} {rest : List A}
    → drop i xs ≡ a ∷ rest
    → get_ok_or xs i error ≡ ok a
get_ok_or-drop [] zero error h = cc
get_ok_or-drop [] (suc i) error h = cc
get_ok_or-drop (x ∷ xs) zero error h = cc
get_ok_or-drop (x ∷ xs) (suc i) error h = get_ok_or-drop xs i error h

pub drop-suc {ℓ} :
    {A : Type ℓ} (xs : List A) (i : ℕ) {a : A} {rest : List A}
    → drop i xs ≡ a ∷ rest
    → drop (suc i) xs ≡ rest
drop-suc [] zero h = cc
drop-suc [] (suc i) h = cc
drop-suc (x ∷ xs) zero h = cc
drop-suc (x ∷ xs) (suc i) h = drop-suc xs i h

pub take-suc {ℓ} :
    {A : Type ℓ} (xs : List A) (i : ℕ) {a : A} {rest : List A}
    → drop i xs ≡ a ∷ rest
    → take (suc i) xs ≡ take i xs ++ (a ∷ [])
take-suc [] zero h = cc
take-suc [] (suc i) h = cc
take-suc (x ∷ xs) zero h = cc
take-suc (x ∷ xs) (suc i) h = ap (λ r. x ∷ r) (take-suc xs i h)

pub length-drop_cons {ℓ} :
    {A : Type ℓ} (xs : List A) (i : ℕ) {a : A} {rest : List A}
    → drop i xs ≡ a ∷ rest
    → i < length xs
length-drop_cons [] zero h = cc
length-drop_cons [] (suc i) h = cc
length-drop_cons (x ∷ xs) zero h = omega arith
length-drop_cons (x ∷ xs) (suc i) h = omega (arith, length-drop_cons xs i h)

module _ {S X T W P : Type 0} {aes : SeedStream S} {v : IdpfValue W P S} {weight_parameter : P}
    {InRange : W → Type 0} (shake : TurboShake X T) (stream : IsSeedStream aes)
    (law : IsGroup v weight_parameter InRange) (nonce : List ℕ) (input : List Bool)
    (weight : W) where
  -- The correction words and the corrections of the proofs, from a level on.
  pub data IsProgram
      : ℕ
        → List Bool
        → List ℕ
        → List ℕ
        → Bool
        → List (VidpfCorrectionWord W)
        → List (List ℕ)
        → Type 0 where
    done : {i : ℕ} {k0 k1 : List ℕ} {t : Bool} → IsProgram i [] k0 k1 t [] []
    more_levels :
        {i : ℕ} {a : Bool} {rest : List Bool} {k0 k1 : List ℕ} {t : Bool}
        {cw : VidpfCorrectionWord W} {cws : List (VidpfCorrectionWord W)} {css : List (List ℕ)}
        {k0' k1' : List ℕ} {t' : Bool}
        → IsLevel stream law nonce a weight k0 k1 t cw k0' k1' t'
        → IsProgram (suc i) rest k0' k1' t' cws css
        → IsProgram i (a ∷ rest) k0 k1 t (cw ∷ cws) (
            xor_proof
              (node_bytes shake (take (suc i) input) i k0')
              (node_bytes shake (take (suc i) input) i k1')
            ∷ css)

  -- The proof below a node.
  abbrev pub next_proof : List Bool → ℕ → List ℕ → Bool → List ℕ → List ℕ → List ℕ
  next_proof bits i seed t cs proof =
      xor_proof
        (node_proof_adjustment shake
          (xor_proof (conditional_xor_proof (node_bytes shake bits i seed) cs t) proof))
        proof

  abbrev pub go : VidpfServerId → VidpfCorrectionWord W → Bool → List ℕ → Bool → W × List ℕ × Bool
  go id cw x seed t = step_of stream law nonce id cw x seed t

  pub eval_next_lem :
      (id : VidpfServerId) (public : VidpfPublicShare W) (x : List Bool) (i : ℕ) (seed : List ℕ)
      (t : Bool) (proof : List ℕ) {cw : VidpfCorrectionWord W} {cs : List ℕ} {b : Bool}
      → get_ok_or {E = VidpfError} public.cw i index_level ≡ ok cw
      → get_ok_or {E = VidpfError} x i index_level ≡ ok b
      → get_ok_or {E = VidpfError} public.cs i index_level ≡ ok cs
      → i < length x
      → i < 2 ^ 16
      → eval_next aes shake v weight_parameter nonce id public x i
          (record { seed = seed; control_bit = t; proof = proof })
        ≡ ok (
          record {
            seed = (go id cw b seed t).1;
            control_bit = (go id cw b seed t).2;
            proof =
                next_proof (take (suc i) x) i (go id cw b seed t).1 (go id cw b seed t).2 cs proof;
          },
          (go id cw b seed t).0,
        )
  unfolding eval_next
  eval_next_lem id public x i seed t proof {cw = cw} {b = b} h0 h1 h2 h k =
      rw (h0, h1, h2, node_proof_lem shake x i (go id cw b seed t).1 h k) refl
