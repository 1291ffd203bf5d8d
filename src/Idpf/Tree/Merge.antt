-- ===== src/Idpf/Tree/Merge.antt =====
-- src/idpf.rs: a generated key, evaluated by the two parties with their caches.
use mastic.Prelude.{
  ℕ, zero, suc, ◌+◌, ◌-◌, ◌≤◌, ◌<◌, ◌≡◌, refl, ap, ◌∙◌, sym, subst, true, false, List, [], ◌∷◌,
  length, All, some, none, Result, ok, err, panic, ok-injective, ◌==◌, ==_iff, Bool-cases, inl, inr,
  if◌then◌else◌, arith,
}
use mastic.Idpf.Errors.{IdpfError}
use mastic.Idpf.Value.{IdpfValue, IsGroup}
use mastic.Idpf.Level.{FixedKeyXof}
use mastic.Idpf.Level.Step.{IsStream}
use mastic.Idpf.Cache.{IdpfCache}
use mastic.Idpf.Cache.Laws.{IsLawful}
use mastic.Idpf.Tree.{
  IdpfInput, IdpfOutputShare, inner, leaf, IdpfPublicShare, Idpf, merge, gen_with_random, eval,
}
use mastic.Idpf.Tree.Program.{is_prefix, value_at}
use mastic.Idpf.Tree.Evaluate.{share_at}
use mastic.Idpf.Tree.Refine.{Consistent}
use mastic.Idpf.Tree.Transparent.{eval_lem}
use mastic.Idpf.Tree.Generated.{IsProgrammed, gen_with_random-cases}
use mastic.Idpf.Tree.Correct.{Merges, inner_shares, leaf_shares}

value_at-some :
    {V : Type 0} (values : List V) (i : ℕ)
    → i < length values
    → (value : V) × (value_at values i ≡ some value)
unfolding value_at
value_at-some [] i h = elim h [ ]
value_at-some (x ∷ values) zero h = (x, refl)
value_at-some (x ∷ values) (suc i) h = value_at-some values i (omega (arith, h))

module _ {K S VI VL PI PL : Type 0} (xof : FixedKeyXof K S) (vi : IdpfValue VI PI S)
    (vl : IdpfValue VL PL S) (self : Idpf PI PL) where
  -- What an input, with its values, stands for at a prefix: the value of the level of the prefix
  -- where the prefix begins the input, and zero elsewhere.
  unfoldable pub point_function : IdpfInput → List VI → VL → IdpfInput → IdpfOutputShare VI VL
  point_function input inner_values leaf_value prefix =
      let level_value : VI = elim (value_at inner_values (length prefix - 1)) [
        | some value ↦ value
        | none ↦ vi.zero self.inner_node_value_parameter
      ] in
      if length prefix == length input
      then leaf
          (if is_prefix prefix input then leaf_value else vl.zero self.leaf_node_value_parameter)
      else inner
          (if is_prefix prefix input then level_value else vi.zero self.inner_node_value_parameter)

module _ {K S VI VL PI PL : Type 0} {xof : FixedKeyXof K S} {vi : IdpfValue VI PI S}
    {vl : IdpfValue VL PL S} (self : Idpf PI PL) {InRange : VI → Type 0} {InRangeLeaf : VL → Type 0}
    (stream : IsStream xof) (inner_law : IsGroup vi self.inner_node_value_parameter InRange)
    (leaf_law : IsGroup vl self.leaf_node_value_parameter InRangeLeaf) where
  shares_at :
      {input : IdpfInput} {inner_values : List VI} {leaf_value : VL} {binder : List ℕ}
      {random : List ℕ × List ℕ} {public_share : IdpfPublicShare VI VL}
      (p : IsProgrammed self stream inner_law leaf_law input inner_values leaf_value binder random
        public_share)
      (prefix : IdpfInput)
      → length inner_values + 1 ≡ length input
      → 1 ≤ length prefix
      → length prefix ≤ length input
      → Merges self stream inner_law leaf_law p prefix
          (point_function xof vi vl self input inner_values leaf_value prefix)
  unfolding point_function
  shares_at {input = input} p [] count h k = elim h [ ]
  shares_at {input = input} {inner_values = inner_values} p (x ∷ prefix) count h k =
      elim (Bool-cases (suc (length prefix) == length input)) [
        | inl e ↦ rw e (
            leaf_shares self stream inner_law leaf_law p (x ∷ prefix)
              (omega (arith, (==_iff (suc (length prefix)) (length input)).0 e, count)))
        | inr e ↦
            let (value, at) =
              value_at-some inner_values (length prefix)
                (omega (arith, less (suc (length prefix)) (length input) k e, count)) in
            rw (e, same (length prefix), at)
              (inner_shares self stream inner_law leaf_law p x prefix value at)
      ]
    where
      less : (m n : ℕ) → m ≤ n → (m == n) ≡ false → m < n
      less m n l e = ground arith

      same : (m : ℕ) → (suc m - 1) ≡ m
      same m = omega arith

  generated-IsProgrammed :
      (input : IdpfInput) (inner_values : List VI) (leaf_value : VL) (binder : List ℕ)
      (random : List ℕ × List ℕ) (public_share : IdpfPublicShare VI VL) (keys : List ℕ × List ℕ)
      → All InRange inner_values
      → InRangeLeaf leaf_value
      → gen_with_random xof vi vl self input inner_values leaf_value binder random
        ≡ ok (public_share, keys)
      → (length inner_values + 1 ≡ length input)
        × (keys ≡ random)
        × IsProgrammed self stream inner_law leaf_law input inner_values leaf_value binder random
            public_share
  generated-IsProgrammed input inner_values leaf_value binder random public_share keys ok_values
        ok_leaf e =
      elim (gen_with_random-cases self stream inner_law leaf_law input inner_values leaf_value
        binder random ok_values ok_leaf) [
          | inl (h, f) ↦ absurd (panic-ne-ok (sym f ∙ e))
          | inr (inl (h, k, f)) ↦ absurd (err-ne-ok (sym f ∙ e))
          | inr (inr (inl (h, f))) ↦ absurd (err-ne-ok (sym f ∙ e))
          | inr (inr (inr (h, share, f, p))) ↦
              let same = ok-injective (sym f ∙ e) in
              (
                h,
                sym (ap (λ (r : IdpfPublicShare VI VL × (List ℕ × List ℕ)). r.1) same),
                subst
                    (IsProgrammed self stream inner_law leaf_law input inner_values leaf_value
                      binder random)
                    (ap (λ (r : IdpfPublicShare VI VL × (List ℕ × List ℕ)). r.0) same) p,
              )
        ]
    where
      panic-ne-ok : {A : Type 0} {a : A} → ◌≡◌ {A = Result IdpfError A} panic (ok a) → ⊥
      panic-ne-ok h = cc

      err-ne-ok :
          {A : Type 0} {a : A} {f : IdpfError} → ◌≡◌ {A = Result IdpfError A} (err f) (ok a) → ⊥
      err-ne-ok h = cc

  -- The two parties, with a cache each that was used with this key only.
  pub merge-eval :
      {C D : Type 0} (cache : IdpfCache C) (cache' : IdpfCache D) (lawful : IsLawful cache)
      (lawful' : IsLawful cache') (input : IdpfInput) (inner_values : List VI) (leaf_value : VL)
      (binder : List ℕ) (random : List ℕ × List ℕ) (public_share : IdpfPublicShare VI VL)
      (keys : List ℕ × List ℕ) (prefix : IdpfInput) (c : C) (d : D)
      → All InRange inner_values
      → InRangeLeaf leaf_value
      → gen_with_random xof vi vl self input inner_values leaf_value binder random
        ≡ ok (public_share, keys)
      → 1 ≤ length prefix
      → length prefix ≤ length input
      → Consistent xof vi vl self cache lawful true public_share binder keys.0 c
      → Consistent xof vi vl self cache' lawful' false public_share binder keys.1 d
      → (share : IdpfOutputShare VI VL) × (c' : C) × (share' : IdpfOutputShare VI VL) × (d' : D)
        × (eval xof vi vl self cache 0 public_share keys.0 prefix binder c ≡ ok (share, c'))
        × (eval xof vi vl self cache' 1 public_share keys.1 prefix binder d ≡ ok (share', d'))
        × (merge vi vl share share'
            ≡ ok (point_function xof vi vl self input inner_values leaf_value prefix))
  merge-eval cache cache' lawful lawful' input inner_values leaf_value binder random public_share
        keys prefix c d ok_values ok_leaf made h k hc hd =
      let (count, same, p) =
        generated-IsProgrammed input inner_values leaf_value binder random public_share keys
          ok_values ok_leaf made in
      let fits : length prefix ≤ length public_share.inner_correction_words + 1 =
        omega (arith, k, count, p.count) in
      let (s0, s1, e0, e1, merged) = shares_at p prefix count h k in
      let (t0, c', run0, at0, hc') =
        eval_lem xof vi vl self cache 0 public_share keys.0 prefix binder lawful c
          (omega arith, h, fits) hc in
      let (t1, d', run1, at1, hd') =
        eval_lem xof vi vl self cache' 1 public_share keys.1 prefix binder lawful' d
          (omega arith, h, fits) hd in
      let first : s0 ≡ t0 = ok-injective (
        sym e0
        ∙ ap (λ (r : List ℕ × List ℕ). share_at xof vi vl self true public_share binder r.0 prefix)
            (sym same)
        ∙ at0) in
      let second : s1 ≡ t1 = ok-injective (
        sym e1
        ∙ ap (λ (r : List ℕ × List ℕ). share_at xof vi vl self false public_share binder r.1 prefix)
            (sym same)
        ∙ at1) in
      (t0, c', t1, d', run0, run1, rw (← first, ← second) merged)
