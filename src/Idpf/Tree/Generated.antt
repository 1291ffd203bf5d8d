-- ===== src/Idpf/Tree/Generated.antt =====
-- src/idpf.rs: what `gen_with_random` returns, by the number of values.
use mastic.Prelude.{
  ℕ, suc, ◌+◌, ◌-◌, ◌≤◌, ◌<◌, ◌≡◌, refl, ap, ◌∙◌, sym, Bool, true, false, not, List, [], ◌∷◌,
  length, take, drop, All, ok, err, panic, ◌==◌, ==_iff, le→leb, lt→leb_false, Bool-cases, ◌⊎◌, inl,
  inr, ltb, ltb→lt, arith,
}
use mastic.Codec.Cursor.{index}
use mastic.Idpf.Errors.{IdpfError, invalid_parameter, too_many_values, too_few_values}
use mastic.Idpf.Value.{IdpfValue, IsGroup}
use mastic.Idpf.Level.{FixedKeyXof, IdpfCorrectionWord, generate_correction_word}
use mastic.Idpf.Level.Step.{IsStream}
use mastic.Idpf.Tree.{
  IdpfInput, IdpfPublicShare, Idpf, extend_dst, convert_dst, gen_inner, gen_with_random,
}
use mastic.Idpf.Tree.Generate.{gen_inner_lem, gen_inner-too_many, index-drop, drop-all}
use mastic.Idpf.Tree.Program.{IsLevel, generated-IsLevel, IsProgram}

compare-cases : (m n : ℕ) → (m < n) ⊎ ((n < m) ⊎ (m ≡ n))
compare-cases m n = elim (Bool-cases (ltb m n)) [
  | inl e ↦ inl (ltb→lt m n e)
  | inr e ↦ elim (Bool-cases (m == n)) [
    | inl f ↦ inr (inr ((==_iff m n).0 f))
    | inr f ↦ inr (inl (above m n e f))
  ]
]
  where
    above : (m n : ℕ) → ltb m n ≡ false → (m == n) ≡ false → n < m
    above m n e f = ground arith

module _ {K S VI VL PI PL : Type 0} {xof : FixedKeyXof K S} {vi : IdpfValue VI PI S}
    {vl : IdpfValue VL PL S} (self : Idpf PI PL) {InRange : VI → Type 0} {InRangeLeaf : VL → Type 0}
    (stream : IsStream xof) (inner_law : IsGroup vi self.inner_node_value_parameter InRange)
    (leaf_law : IsGroup vl self.leaf_node_value_parameter InRangeLeaf) where
  -- A public share whose correction words lead along the bits of an input.
  pub record IsProgrammed (input : IdpfInput) (inner_values : List VI) (leaf_value : VL)
      (binder : List ℕ) (random : List ℕ × List ℕ) (public_share : IdpfPublicShare VI VL)
      : Type 0 where
    pub k0 : List ℕ
    pub k1 : List ℕ
    pub t : Bool
    pub a : Bool
    pub k0' : List ℕ
    pub k1' : List ℕ
    pub t' : Bool
    pub program :
        IsProgram stream inner_law
          (xof.new extend_dst binder)
          (xof.new convert_dst binder)
          (take (length inner_values) input)
          inner_values
          random.0
          random.1
          false
          public_share.inner_correction_words
          k0
          k1
          t
    pub last_bit : drop (length inner_values) input ≡ a ∷ []
    pub last_level :
        IsLevel stream leaf_law
          (xof.new extend_dst binder)
          (xof.new convert_dst binder)
          a
          leaf_value
          k0
          k1
          t
          public_share.leaf_correction_word
          k0'
          k1'
          t'
    pub count : length public_share.inner_correction_words ≡ length inner_values

  gen_with_random-run :
      (input : IdpfInput) (inner_values : List VI) (leaf_value : VL) (binder : List ℕ)
      (random : List ℕ × List ℕ)
      → length inner_values + 1 ≡ length input
      → (a : Bool) → (cws : List (IdpfCorrectionWord VI)) → (cw : IdpfCorrectionWord VL)
      → (keys : List ℕ × List ℕ) → (bits : Bool × Bool) → (keys' : List ℕ × List ℕ)
      → (bits' : Bool × Bool)
      → gen_inner xof vi self.inner_node_value_parameter
          (xof.new extend_dst binder)
          (xof.new convert_dst binder)
          input
          (length inner_values)
          0
          inner_values
          random
          (false, true)
        ≡ ok (cws, keys, bits)
      → length cws ≡ length inner_values
      → index {E = IdpfError} input (length inner_values) ≡ ok a
      → generate_correction_word xof vl self.leaf_node_value_parameter
          (xof.new extend_dst binder)
          (xof.new convert_dst binder)
          a
          leaf_value
          keys
          bits
        ≡ (cw, keys', bits')
      → gen_with_random xof vi vl self input inner_values leaf_value binder random
        ≡ ok (record { inner_correction_words = cws; leaf_correction_word = cw }, random)
  unfolding gen_with_random
  gen_with_random-run input inner_values leaf_value binder random h a cws cw keys bits keys' bits'
        run count at made =
      rw
        (
          le→leb 1 (length input) (omega (arith, h)),
          last,
          run,
          (==_iff (length cws) (length inner_values)).1 count,
          at,
          made,
        )
        refl
    where
      last : (length input - 1) ≡ length inner_values
      last = omega (arith, h)

  pub gen_with_random_lem :
      (input : IdpfInput) (inner_values : List VI) (leaf_value : VL) (binder : List ℕ)
      (random : List ℕ × List ℕ)
      → length inner_values + 1 ≡ length input
      → All InRange inner_values
      → InRangeLeaf leaf_value
      → (public_share : IdpfPublicShare VI VL) × (gen_with_random xof vi vl self input inner_values
            leaf_value binder random
          ≡ ok (public_share, random))
        × IsProgrammed input inner_values leaf_value binder random public_share
  unfolding gen_with_random
  gen_with_random_lem input inner_values leaf_value binder random h ok_values ok_leaf =
      let extend_key = xof.new extend_dst binder in
      let convert_key = xof.new convert_dst binder in
      let n = length inner_values in
      let (cws, k0, k1, t, run, program, count) =
        gen_inner_lem stream inner_law extend_key convert_key input n (omega (arith, h)) 0
          inner_values random.0 random.1 false (omega arith) ok_values in
      let (a, at, bits) = index-drop input n (omega (arith, h)) in
      let (cw, k0', k1', t', is_level, made) =
        generated-IsLevel stream leaf_law extend_key convert_key a leaf_value k0 k1 t ok_leaf in
      (
        record { inner_correction_words = cws; leaf_correction_word = cw },
        gen_with_random-run input inner_values leaf_value binder random h a cws cw (k0, k1)
            (t, not t) (k0', k1') (t', not t') run count at made,
        record {
          k0 = k0;
          k1 = k1;
          t = t;
          a = a;
          k0' = k0';
          k1' = k1';
          t' = t';
          program = program;
          last_bit =
              bits ∙ ap (λ (r : List Bool). a ∷ r) (drop-all (suc n) input (omega (arith, h)));
          last_level = is_level;
          count = count;
        },
      )

  without_bits :
      (input : IdpfInput) (inner_values : List VI) (leaf_value : VL) (binder : List ℕ)
      (random : List ℕ × List ℕ)
      → length input ≡ 0
      → gen_with_random xof vi vl self input inner_values leaf_value binder random ≡ panic
  unfolding gen_with_random
  without_bits input inner_values leaf_value binder random e =
      rw (lt→leb_false 1 (length input) (omega (arith, e))) refl

  too_many :
      (input : IdpfInput) (inner_values : List VI) (leaf_value : VL) (binder : List ℕ)
      (random : List ℕ × List ℕ)
      → 1 ≤ length input
      → length input < length inner_values + 1
      → gen_with_random xof vi vl self input inner_values leaf_value binder random
        ≡ err (invalid_parameter too_many_values)
  unfolding gen_with_random
  too_many input inner_values leaf_value binder random h k =
      rw
        (
          le→leb 1 (length input) h,
          gen_inner-too_many stream inner_law (xof.new extend_dst binder)
              (xof.new convert_dst binder) input (length input - 1) (omega arith) 0 inner_values
              random (false, true) (omega arith) (omega (arith, h, k)),
        )
        refl

  too_few :
      (input : IdpfInput) (inner_values : List VI) (leaf_value : VL) (binder : List ℕ)
      (random : List ℕ × List ℕ)
      → All InRange inner_values
      → length inner_values + 1 < length input
      → gen_with_random xof vi vl self input inner_values leaf_value binder random
        ≡ err (invalid_parameter too_few_values)
  unfolding gen_with_random
  too_few input inner_values leaf_value binder random ok_values k =
      let (cws, k0, k1, t, run, program, count) =
        gen_inner_lem stream inner_law (xof.new extend_dst binder) (xof.new convert_dst binder)
          input (length input - 1) (omega arith) 0 inner_values random.0 random.1 false
          (omega (arith, k)) ok_values in
      rw
        (
          le→leb 1 (length input) (omega (arith, k)),
          run,
          fewer (length cws) (length input - 1) (omega (arith, count, k)),
        )
        refl
    where
      fewer : (m n : ℕ) → m < n → (m == n) ≡ false
      fewer m n h = ground arith

  -- What `gen_with_random` answers: without a bit a panic, with a wrong number of values an error.
  abbrev pub GenCases : IdpfInput → List VI → VL → List ℕ → List ℕ × List ℕ → Type 0
  GenCases input inner_values leaf_value binder random =
      ((length input ≡ 0)
        × (gen_with_random xof vi vl self input inner_values leaf_value binder random ≡ panic))
      ⊎ (((1 ≤ length input)
            × (length input < length inner_values + 1)
            × (gen_with_random xof vi vl self input inner_values leaf_value binder random
                ≡ err (invalid_parameter too_many_values)))
          ⊎ (((length inner_values + 1 < length input)
                × (gen_with_random xof vi vl self input inner_values leaf_value binder random
                    ≡ err (invalid_parameter too_few_values)))
              ⊎ ((length inner_values + 1 ≡ length input)
                  × (public_share : IdpfPublicShare VI VL) × (gen_with_random xof vi vl self input
                        inner_values leaf_value binder random
                      ≡ ok (public_share, random))
                  × IsProgrammed input inner_values leaf_value binder random public_share)))

  -- For values in range, the generation panics without a bit, refuses more and fewer inner values
  -- than the input has bits but the last, and makes a public share otherwise.
  pub gen_with_random-cases :
      (input : IdpfInput) (inner_values : List VI) (leaf_value : VL) (binder : List ℕ)
      (random : List ℕ × List ℕ)
      → All InRange inner_values
      → InRangeLeaf leaf_value
      → GenCases input inner_values leaf_value binder random
  gen_with_random-cases input inner_values leaf_value binder random ok_values ok_leaf =
      elim (compare-cases (length input) (length inner_values + 1)) [
        | inl h ↦ elim (compare-cases 0 (length input)) [
          | inl k ↦ inr (
              inl (
                omega (arith, k),
                h,
                too_many input inner_values leaf_value binder random (omega (arith, k)) h,
              ))
          | inr k ↦
              inl (empty k, without_bits input inner_values leaf_value binder random (empty k))
        ]
        | inr (inl h) ↦
            inr (inr (inl (h, too_few input inner_values leaf_value binder random ok_values h)))
        | inr (inr h) ↦
            let (public_share, made, p) =
              gen_with_random_lem input inner_values leaf_value binder random (sym h) ok_values
                ok_leaf in
            inr (inr (inr (sym h, public_share, made, p)))
      ]
    where
      empty : {n : ℕ} → (n < 0) ⊎ (0 ≡ n) → n ≡ 0
      empty (inl h) = omega (arith, h)
      empty (inr h) = sym h
