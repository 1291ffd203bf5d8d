-- ===== src/Vidpf/Program/Generate.antt =====
-- src/vidpf.rs: the loop of `gen_with_keys`.
use mastic.Prelude.{
  ℕ, suc, ◌≤◌, ◌^◌, ◌≡◌, refl, ap, Bool, not, List, [], ◌∷◌, length, drop, ok, arith,
}
use mastic.Idpf.Value.{IdpfValue, IsGroup}
use mastic.Vidpf.{index_level, VidpfCorrectionWord, SeedStream, TurboShake}
use mastic.Vidpf.Server.{gen_levels}
use mastic.Vidpf.Level.{IsSeedStream}
use mastic.Vidpf.Pair.{correct-IsLevel}
use mastic.Vidpf.Proof.{node_proof_lem}
use mastic.Vidpf.Program.{IsProgram, done, more_levels, get_ok_or-drop, drop-suc, length-drop_cons}

module _ {S X T W P : Type 0} {aes : SeedStream S} {v : IdpfValue W P S} {weight_parameter : P}
    {InRange : W → Type 0} (shake : TurboShake X T) (stream : IsSeedStream aes)
    (law : IsGroup v weight_parameter InRange) (nonce : List ℕ) (input : List Bool) (weight : W)
    (ok_weight : InRange weight) (short : length input ≤ 2 ^ 16) where
  pub gen_levels_lem :
      (rest : List Bool) (i : ℕ) (k0 k1 : List ℕ) (t : Bool)
      → drop i input ≡ rest
      → (cws : List (VidpfCorrectionWord W)) × (css : List (List ℕ)) × (gen_levels aes shake v
            weight_parameter nonce input weight
            (length rest)
            i
            (k0, k1)
            (t, not t)
          ≡ ok (cws, css))
        × IsProgram shake stream law nonce input weight i rest k0 k1 t cws css
        × (length cws ≡ length rest)
  unfolding gen_levels
  gen_levels_lem [] i k0 k1 t h = ([], [], refl, done, refl)
  gen_levels_lem (a ∷ rest) i k0 k1 t h =
      let inside = length-drop_cons input i h in
      let (cw, k0', k1', t', is_level, made) =
        correct-IsLevel stream law nonce a weight k0 k1 t ok_weight in
      let (cws, css, run, program, count) =
        gen_levels_lem rest (suc i) k0' k1' t' (drop-suc input i h) in
      (
        cw ∷ cws,
        _,
        rw
            (
              get_ok_or-drop input i index_level h,
              made,
              node_proof_lem shake input i k0' inside (omega (arith, inside, short)),
              node_proof_lem shake input i k1' inside (omega (arith, inside, short)),
              run,
            )
            refl,
        more_levels is_level program,
        ap suc count,
      )
