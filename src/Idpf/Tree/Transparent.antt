-- ===== src/Idpf/Tree/Transparent.antt =====
-- src/idpf.rs: `eval` on every input, with any lawful cache.
use mastic.Prelude.{
  ℕ, zero, suc, ◌+◌, ◌-◌, ◌≤◌, ◌<◌, ◌≡◌, refl, ap, ◌∙◌, sym, subst, ◌⊎◌, inl, inr, Bool, true,
  false, not, List, [], length, take, Option, none, some, Option-cases, Result, ok, err, ◌>>=◌, ltb,
  ◌==◌, ==_iff, lt→ltb, ltb→lt, le→ltb_false, Bool-cases, arith,
}
use mastic.Field.Words.{as_int}
use mastic.Idpf.Errors.{
  IdpfError, invalid_parameter, invalid_aggregator_id, empty_prefix, prefix_too_long,
}
use mastic.Idpf.Value.{IdpfValue}
use mastic.Idpf.Level.{FixedKeyXof}
use mastic.Idpf.Cache.{IdpfCache, Values}
use mastic.Idpf.Cache.Laws.{IsLawful}
use mastic.Idpf.Tree.{
  IdpfInput, IdpfOutputShare, IdpfPublicShare, Idpf, extend_dst, convert_dst, eval_from_node,
  find_cached, eval,
}
use mastic.Idpf.Tree.Program.{walk}
use mastic.Idpf.Tree.Evaluate.{walk-nil, share_at, share_at-ok}
use mastic.Idpf.Tree.Refine.{Consistent, eval_from_node-IsConsistent}

module _ {K S VI VL PI PL C : Type 0} (xof : FixedKeyXof K S) (vi : IdpfValue VI PI S)
    (vl : IdpfValue VL PL S) (self : Idpf PI PL) (cache : IdpfCache C) where
  find_cached-cases :
      (c : C) (prefix : IdpfInput) (n : ℕ)
      → (find_cached xof vi vl self cache c prefix n ≡ none)
        ⊎ ((m : ℕ) × (values : Values) × (m ≤ n)
            × (find_cached xof vi vl self cache c prefix n ≡ some (m, values))
            × (cache.get c (take m prefix) ≡ some values))
  unfolding find_cached
  find_cached-cases c prefix zero = inl refl
  find_cached-cases c prefix (suc n) = elim (Option-cases (cache.get c (take (suc n) prefix))) [
    | inl e ↦ elim (find_cached-cases c prefix n) [
      | inl f ↦ inl (rw (e, find_cached) f)
      | inr (m, values, h, f, g) ↦ inr (m, values, omega (arith, h), rw (e, find_cached) f, g)
    ]
    | inr (values, e) ↦ inr (suc n, values, omega arith, rw (e, find_cached) refl, e)
  ]

  module _ (agg_id : ℕ) (public_share : IdpfPublicShare VI VL) (key : List ℕ) (prefix : IdpfInput)
      (binder : List ℕ) where
    -- The shape of a call that is no error.
    abbrev pub Fits : Type 0
    Fits =
        (agg_id ≤ 1)
        × (1 ≤ length prefix)
        × (length prefix ≤ length public_share.inner_correction_words + 1)

    abbrev evaluated : C → Option (ℕ × Values) → Result IdpfError (IdpfOutputShare VI VL × C)
    evaluated c hit = elim hit [
      | some (start_level, (cached_key, control_bit)) ↦
          eval_from_node xof vi vl self cache (agg_id == 0) public_share start_level cached_key
            (control_bit == 1) prefix binder c
      | none ↦
          eval_from_node xof vi vl self cache (agg_id == 0) public_share 0 key (not (agg_id == 0))
            prefix binder c
    ]

    eval_fits :
        (c : C)
        → Fits
        → eval xof vi vl self cache agg_id public_share key prefix binder c
          ≡ evaluated c (find_cached xof vi vl self cache c prefix (length prefix - 1))
    unfolding eval
    eval_fits c (h0, h1, h2) =
        rw
          (
            le→ltb_false 1 agg_id h0,
            positive (length prefix) h1,
            le→ltb_false (length public_share.inner_correction_words + 1) (length prefix) h2,
          )
          refl
      where
        positive : (n : ℕ) → 1 ≤ n → (n == 0) ≡ false
        positive n h = ground arith

    -- Wherever the evaluation starts, it ends with the share.
    Evaluates : IsLawful cache → C → Result IdpfError (IdpfOutputShare VI VL × C) → Type 0
    Evaluates lawful c result =
        (share : IdpfOutputShare VI VL) × (c' : C) × (result ≡ ok (share, c'))
        × (share_at xof vi vl self (agg_id == 0) public_share binder key prefix ≡ ok share)
        × Consistent xof vi vl self cache lawful (agg_id == 0) public_share binder key c'

    -- An evaluation with a lawful cache that was used with this key only gives the share of an
    -- evaluation without a cache, and leaves the cache such.
    pub eval_lem :
        (lawful : IsLawful cache) (c : C)
        → Fits
        → Consistent xof vi vl self cache lawful (agg_id == 0) public_share binder key c
        → (share : IdpfOutputShare VI VL) × (c' : C) × (eval xof vi vl self cache agg_id
              public_share key prefix binder c
            ≡ ok (share, c'))
          × (share_at xof vi vl self (agg_id == 0) public_share binder key prefix ≡ ok share)
          × Consistent xof vi vl self cache lawful (agg_id == 0) public_share binder key c'
    unfolding Evaluates share_at
    eval_lem lawful c fits consistent =
        subst (Evaluates lawful c) (sym (eval_fits c fits))
          (elim (find_cached-cases c prefix (length prefix - 1)) [
            | inl e ↦ rw e (
                ends (
                  eval_from_node-IsConsistent xof vi vl self cache lawful (agg_id == 0) public_share
                    binder key prefix 0 key (not (agg_id == 0)) c (omega (arith, fits.1)) fits.2
                    (sym (ap (λ (r : Option VI × List ℕ × Bool). r.1) root))
                    (sym (ap (λ (r : Option VI × List ℕ × Bool). r.2) root)) consistent))
            | inr (m, values, h, e, hit) ↦
                let it = consistent.found (take m prefix) values hit in
                rw e (
                  ends (
                    eval_from_node-IsConsistent xof vi vl self cache lawful (agg_id == 0)
                      public_share binder key prefix m values.0 (values.1 == 1) c
                      (omega (arith, h, fits.1)) fits.2 (ap (λ (r : Values). r.0) it)
                      (ap (λ (r : Values). r.1 == 1) it ∙ read_bit _) consistent))
          ])
      where
        root :
            walk xof vi self.inner_node_value_parameter
              (xof.new extend_dst binder)
              (xof.new convert_dst binder)
              (agg_id == 0)
              public_share.inner_correction_words
              []
              none
              key
              (not (agg_id == 0))
            ≡ (none, key, not (agg_id == 0))
        root =
            walk-nil xof vi self.inner_node_value_parameter (xof.new extend_dst binder)
              (xof.new convert_dst binder) (agg_id == 0) public_share.inner_correction_words none
              key (not (agg_id == 0))

        read_bit : (b : Bool) → (as_int b == 1) ≡ b
        read_bit true = refl
        read_bit false = refl

        ends :
            {result : Result IdpfError (IdpfOutputShare VI VL × C)}
            → (c' : C) × (result ≡ (
                share_at xof vi vl self (agg_id == 0) public_share binder key prefix >>= λ o.
                ok (o, c')))
              × Consistent xof vi vl self cache lawful (agg_id == 0) public_share binder key c'
            → Evaluates lawful c result
        ends (c', e, consistent') =
            let (share, at) =
              share_at-ok xof vi vl self (agg_id == 0) public_share binder key prefix fits.1
                fits.2 in
            (
              share,
              c',
              e ∙ ap (λ (r : Result IdpfError (IdpfOutputShare VI VL)). r >>= λ o. ok (o, c')) at,
              at,
              consistent',
            )

    abbrev run : C → Result IdpfError (IdpfOutputShare VI VL × C)
    run c = eval xof vi vl self cache agg_id public_share key prefix binder c

    invalid_id :
        (c : C) → 1 < agg_id → run c ≡ err (invalid_parameter (invalid_aggregator_id agg_id))
    unfolding eval
    invalid_id c h = rw (lt→ltb 1 agg_id h) refl

    no_prefix :
        (c : C) → agg_id ≤ 1 → length prefix ≡ 0 → run c ≡ err (invalid_parameter empty_prefix)
    unfolding eval
    no_prefix c h e = rw (le→ltb_false 1 agg_id h, e) refl

    long_prefix :
        (c : C)
        → agg_id ≤ 1
        → length public_share.inner_correction_words + 1 < length prefix
        → run c
          ≡ err (
              invalid_parameter
                (prefix_too_long (length prefix) (length public_share.inner_correction_words + 1)))
    unfolding eval
    long_prefix c h k =
        rw
          (
            le→ltb_false 1 agg_id h,
            positive (length public_share.inner_correction_words) (length prefix) k,
            lt→ltb (length public_share.inner_correction_words + 1) (length prefix) k,
          )
          refl
      where
        positive : (m n : ℕ) → m + 1 < n → (n == 0) ≡ false
        positive m n h = ground arith

    -- What `eval` answers: one of three errors, or a share.
    abbrev pub EvalCases : C → Type 0
    EvalCases c =
        ((1 < agg_id)
          × (eval xof vi vl self cache agg_id public_share key prefix binder c
              ≡ err (invalid_parameter (invalid_aggregator_id agg_id))))
        ⊎ (((agg_id ≤ 1)
              × (length prefix ≡ 0)
              × (eval xof vi vl self cache agg_id public_share key prefix binder c
                  ≡ err (invalid_parameter empty_prefix)))
            ⊎ (((agg_id ≤ 1)
                  × (length public_share.inner_correction_words + 1 < length prefix)
                  × (eval xof vi vl self cache agg_id public_share key prefix binder c
                      ≡ err (
                          invalid_parameter (
                            prefix_too_long (length prefix)
                              (length public_share.inner_correction_words + 1)))))
                ⊎ (Fits
                    × (share : IdpfOutputShare VI VL) × (c' : C) × (eval xof vi vl self cache agg_id
                          public_share key prefix binder c
                        ≡ ok (share, c')))))

    -- An evaluation refuses an aggregator above 1, then an empty prefix, then a prefix that is too
    -- long, and gives a share otherwise, with a lawful cache that was used with this key only.
    pub eval-cases :
        (lawful : IsLawful cache) (c : C)
        → Consistent xof vi vl self cache lawful (agg_id == 0) public_share binder key c
        → EvalCases c
    eval-cases lawful c consistent = elim (Bool-cases (ltb 1 agg_id)) [
      | inl e ↦ inl (ltb→lt 1 agg_id e, invalid_id c (ltb→lt 1 agg_id e))
      | inr e ↦ elim (Bool-cases (length prefix == 0)) [
        | inl f ↦
            let h = (==_iff (length prefix) 0).0 f in
            inr (inl (at_most 1 agg_id e, h, no_prefix c (at_most 1 agg_id e) h))
        | inr f ↦
            elim (Bool-cases
              (ltb (length public_share.inner_correction_words + 1) (length prefix))) [
                | inl g ↦
                    let h =
                      ltb→lt (length public_share.inner_correction_words + 1) (length prefix) g in
                    inr (inr (inl (at_most 1 agg_id e, h, long_prefix c (at_most 1 agg_id e) h)))
                | inr g ↦
                    let fits : Fits = (
                      at_most 1 agg_id e,
                      positive (length prefix) f,
                      at_most (length public_share.inner_correction_words + 1) (length prefix) g,
                    ) in
                    let (share, c', ran, at, consistent') = eval_lem lawful c fits consistent in
                    inr (inr (inr (fits, share, c', ran)))
              ]
      ]
    ]
      where
        at_most : (m n : ℕ) → ltb m n ≡ false → n ≤ m
        at_most m n e = ground arith

        positive : (n : ℕ) → (n == 0) ≡ false → 1 ≤ n
        positive n e = ground arith
