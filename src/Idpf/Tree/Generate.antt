-- ===== src/Idpf/Tree/Generate.antt =====
-- src/idpf.rs: the loop over the inner levels of a generation.
use mastic.Prelude.{
  ℕ, zero, suc, ◌+◌, ◌≤◌, ◌<◌, ◌≡◌, refl, ap, Bool, false, not, List, [], ◌∷◌, length, take, drop,
  All, Result, ok, err, leb, lt→leb_false, Bool-cases, inl, inr, arith,
}
use mastic.Codec.Cursor.{index}
use mastic.Idpf.Errors.{IdpfError, invalid_parameter, too_many_values}
use mastic.Idpf.Value.{IdpfValue, IsGroup}
use mastic.Idpf.Level.{FixedKeyXof, IdpfCorrectionWord, generate_correction_word}
use mastic.Idpf.Level.Step.{IsStream}
use mastic.Idpf.Tree.{IdpfInput, gen_inner}
use mastic.Idpf.Tree.Program.{generated-IsLevel, IsProgram, done, more_levels}

-- The bit at an index, and the bits from there on.
pub index-drop :
    (input : List Bool) (i : ℕ)
    → i < length input
    → (a : Bool) × (index {E = IdpfError} input i ≡ ok a) × (drop i input ≡ a ∷ drop (suc i) input)
index-drop [] i h = elim h [ ]
index-drop (x ∷ input) zero h = (x, refl, refl)
index-drop (x ∷ input) (suc i) h = index-drop input i (omega (arith, h))

pub drop-all {ℓ} : {A : Type ℓ} (n : ℕ) (xs : List A) → length xs ≤ n → drop n xs ≡ []
drop-all zero [] h = refl
drop-all zero (x ∷ xs) h = elim h [ ]
drop-all (suc n) [] h = refl
drop-all (suc n) (x ∷ xs) h = drop-all n xs (omega (arith, h))

module _ {K S V P : Type 0} {xof : FixedKeyXof K S} {v : IdpfValue V P S} {parameter : P}
    {InRange : V → Type 0} (stream : IsStream xof) (law : IsGroup v parameter InRange)
    (extend_key convert_key : K) (input : IdpfInput) (last : ℕ) (fits : last ≤ length input) where
  abbrev loop :
      ℕ
      → List V
      → List ℕ × List ℕ
      → Bool × Bool
      → Result IdpfError (List (IdpfCorrectionWord V) × (List ℕ × List ℕ) × (Bool × Bool))
  loop level values keys bits =
      gen_inner xof v parameter extend_key convert_key input last level values keys bits

  pub gen_inner_lem :
      (level : ℕ) (values : List V) (k0 k1 : List ℕ) (t : Bool)
      → level + length values ≤ last
      → All InRange values
      → (cws : List (IdpfCorrectionWord V)) × (k0' : List ℕ) × (k1' : List ℕ) × (t' : Bool) × (loop
            level values
            (k0, k1)
            (t, not t)
          ≡ ok (cws, (k0', k1'), (t', not t')))
        × IsProgram stream law extend_key convert_key
            (take (length values) (drop level input))
            values
            k0
            k1
            t
            cws
            k0'
            k1'
            t'
        × (length cws ≡ length values)
  unfolding gen_inner
  gen_inner_lem level [] k0 k1 t h ok_values = ([], k0, k1, t, refl, done, refl)
  gen_inner_lem level (value ∷ values) k0 k1 t h (ok_value, ok_values) =
      let (a, at, bits) = index-drop input level (omega (arith, h, fits)) in
      let (cw, j0, j1, u, is_level, made) =
        generated-IsLevel stream law extend_key convert_key a value k0 k1 t ok_value in
      let (cws, k0', k1', t', run, program, count) =
        gen_inner_lem (suc level) values j0 j1 u (omega (arith, h)) ok_values in
      (
        cw ∷ cws,
        k0',
        k1',
        t',
        rw (lt→leb_false last level (omega (arith, h)), at, made, run) refl,
        rw bits (more_levels is_level program),
        ap suc count,
      )

  pub gen_inner-too_many :
      (level : ℕ) (values : List V) (keys : List ℕ × List ℕ) (bits : Bool × Bool)
      → level ≤ last
      → last < level + length values
      → loop level values keys bits ≡ err (invalid_parameter too_many_values)
  unfolding gen_inner
  gen_inner-too_many level [] keys bits h k = absurd (omega (arith, h, k))
  gen_inner-too_many level (value ∷ values) keys bits h k = elim (Bool-cases (leb last level)) [
    | inl e ↦ rw e refl
    | inr e ↦
        let (a, at, bits') = index-drop input level (omega (arith, below last level e, fits)) in
        let r = generate_correction_word xof v parameter extend_key convert_key a value keys bits in
        rw
          (
            e,
            at,
            gen_inner-too_many (suc level) values r.1 r.2 (below last level e) (omega (arith, k)),
          )
          refl
  ]
    where
      below : (m n : ℕ) → leb m n ≡ false → n < m
      below m n e = ground arith
