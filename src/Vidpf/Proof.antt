-- ===== src/Vidpf/Proof.antt =====
-- src/vidpf.rs: the proofs of the nodes, the corrections of the two servers, and the chunks of the
-- path that a proof absorbs.
use mastic.Prelude.{
  ℕ, zero, suc, ◌≤◌, ◌<◌, ◌^◌, ◌≡◌, refl, ap, Bool, true, false, not, List, [], ◌∷◌, ◌++◌, length,
  take, drop, length-drop, ok, err, ltb, le→leb, lt→ltb, if◌then◌else◌, arith,
}
use mastic.Idpf.Seeds.{xor_seeds}
use mastic.Idpf.Seeds.Laws.{IsBytes, more, xor_seeds-IsBytes}
use mastic.Idpf.Level.Bits.{corrected_seeds_lost}
use mastic.Vidpf.{
  level_too_big, TurboShake, node_proof_tag, xor_proof, conditional_xor_proof, to_le_bytes, chunks,
  update_each,
}
use mastic.Vidpf.Server.{node_proof}

-- Chunks, one after the other, are the bits that were cut.
unfoldable pub concat : List (List Bool) → List Bool
concat [] = []
concat (chunk ∷ rest) = chunk ++ concat rest

take-drop_append : (n : ℕ) (xs : List Bool) → take n xs ++ drop n xs ≡ xs
take-drop_append zero xs = refl
take-drop_append (suc n) [] = refl
take-drop_append (suc n) (x ∷ xs) = rw (take-drop_append n xs)

pub concat-chunks :
    (fuel : ℕ) (bits : List Bool) → length bits ≤ fuel → concat (chunks fuel bits) ≡ bits
unfolding concat chunks
concat-chunks zero [] h = refl
concat-chunks zero (bit ∷ bits) h = elim h [ ]
concat-chunks (suc fuel) [] h = refl
concat-chunks (suc fuel) (bit ∷ bits) h =
    rw (concat-chunks fuel (drop 127 bits) (omega (arith, length-drop 127 bits, h)))
      (take-drop_append 128 (bit ∷ bits))

xor_proof-eq : (lhs rhs : List ℕ) → xor_proof lhs rhs ≡ xor_seeds lhs rhs
unfolding xor_proof xor_seeds
xor_proof-eq lhs rhs = refl

conditional_xor_proof_lem :
    {n : ℕ} {lhs rhs : List ℕ} (c : Bool)
    → IsBytes n lhs
    → IsBytes n rhs
    → conditional_xor_proof lhs rhs c ≡ (if c then xor_seeds lhs rhs else lhs)
unfolding conditional_xor_proof xor_seeds
conditional_xor_proof_lem true p q = refl
conditional_xor_proof_lem false IsBytes.none IsBytes.none = refl
conditional_xor_proof_lem false (more {b = a} ha p) (more hb q) =
    ap (λ (r : List ℕ). a ∷ r) (conditional_xor_proof_lem false p q)

-- Two servers with opposite control bits correct their proofs to the same one.
pub corrected_proofs :
    {n : ℕ} {pi_0 pi_1 : List ℕ} (t : Bool)
    → IsBytes n pi_0
    → IsBytes n pi_1
    → conditional_xor_proof pi_1 (xor_proof pi_0 pi_1) (not t)
      ≡ conditional_xor_proof pi_0 (xor_proof pi_0 pi_1) t
corrected_proofs {pi_0 = pi_0} {pi_1 = pi_1} t p q =
    rw
      (
        xor_proof-eq pi_0 pi_1,
        conditional_xor_proof_lem (not t) q (xor_seeds-IsBytes p q),
        conditional_xor_proof_lem t p (xor_seeds-IsBytes p q),
      )
      (corrected_seeds_lost t p q)

module _ {X T : Type 0} (shake : TurboShake X T) where
  -- The stream gives bytes, as many as asked for.
  pub record IsProofStream : Type 0 where
    pub fill_proof-IsBytes : (s : T) (n : ℕ) → IsBytes n (shake.fill_proof s n).0

  -- The proof of a node, by the bits of its path.
  unfoldable pub node_bytes : List Bool → ℕ → List ℕ → List ℕ
  node_bytes bits level seed =
      let x = update_each shake (shake.init seed node_proof_tag) (chunks (length bits) bits) in
      (shake.fill_proof (shake.into_seed_stream (shake.update x (to_le_bytes 2 level))) 32).0

  pub node_bytes-IsBytes :
      IsProofStream
      → (bits : List Bool) (level : ℕ) (seed : List ℕ) → IsBytes 32 (node_bytes bits level seed)
  unfolding node_bytes
  node_bytes-IsBytes stream bits level seed = stream.fill_proof-IsBytes _ 32

  pub node_proof_lem :
      (input : List Bool) (level : ℕ) (seed : List ℕ)
      → level < length input
      → level < 2 ^ 16
      → node_proof shake input level seed ≡ ok (node_bytes (take (suc level) input) level seed)
  unfolding node_proof node_bytes
  node_proof_lem input level seed h k =
      rw (le→leb (suc level) (length input) (omega (arith, h)), lt→ltb level (2 ^ 16) k) refl

  pub node_proof-big :
      (input : List Bool) (level : ℕ) (seed : List ℕ)
      → level < length input
      → ltb level (2 ^ 16) ≡ false
      → node_proof shake input level seed ≡ err level_too_big
  unfolding node_proof
  node_proof-big input level seed h e =
      rw (le→leb (suc level) (length input) (omega (arith, h)), e) refl
