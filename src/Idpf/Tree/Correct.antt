-- ===== src/Idpf/Tree/Correct.antt =====
-- src/idpf.rs: the shares of the two parties merge to the value that was programmed.
use mastic.Prelude.{
  ℕ, zero, suc, ◌+◌, ◌-◌, ◌≤◌, ◌<◌, ◌≡◌, refl, ap, ◌∙◌, sym, inl, inr, Bool, true, false, not, List,
  [], ◌∷◌, length, length-take, take, drop, Option, some, none, ok, ◌==◌, ==_iff, if◌then◌else◌,
  arith,
}
use mastic.Codec.Cursor.{index}
use mastic.Idpf.Errors.{IdpfError}
use mastic.Idpf.Value.{IdpfValue, IsGroup}
use mastic.Idpf.Level.{FixedKeyXof, IdpfCorrectionWord, eval_next}
use mastic.Idpf.Level.Step.{IsStream}
use mastic.Idpf.Tree.{
  IdpfInput, IdpfOutputShare, inner, leaf, IdpfPublicShare, Idpf, extend_dst, convert_dst, merge,
}
use mastic.Idpf.Tree.Program.{same_bit, walk, is_prefix, value_at}
use mastic.Idpf.Level.Pair.{children_same}
use mastic.Idpf.Tree.Shares.{States, same_bit-cases, state, program-States, program-Outputs}
use mastic.Idpf.Tree.Refine.{take-drop}
use mastic.Idpf.Tree.Evaluate.{walk-append, inner_walk, share_at, finish}
use mastic.Idpf.Tree.Generate.{index-drop, drop-all}
use mastic.Idpf.Tree.Generated.{IsProgrammed}

value_at-lt :
    {V : Type 0} {value : V} (values : List V) (i : ℕ)
    → value_at values i ≡ some value
    → i < length values
unfolding value_at
value_at-lt [] i h = cc
value_at-lt (x ∷ values) zero h = omega arith
value_at-lt (x ∷ values) (suc i) h = omega (arith, value_at-lt values i h)

-- A prefix is compared with as many bits as it has.
is_prefix-take :
    (n : ℕ) (prefix input : List Bool)
    → length prefix ≤ n
    → is_prefix prefix (take n input) ≡ is_prefix prefix input
unfolding is_prefix
is_prefix-take n [] input h = refl
is_prefix-take zero (x ∷ prefix) input h = elim h [ ]
is_prefix-take (suc n) (x ∷ prefix) [] h = refl
is_prefix-take (suc n) (x ∷ prefix) (a ∷ input) h =
    ap (λ (b : Bool). if same_bit x a then b else false)
      (is_prefix-take n prefix input (omega (arith, h)))

-- The last bits are compared last.
is_prefix-last :
    (n : ℕ) (prefix input : List Bool) (y a : Bool)
    → drop n prefix ≡ y ∷ []
    → drop n input ≡ a ∷ []
    → is_prefix prefix input
      ≡ (if is_prefix (take n prefix) (take n input) then same_bit y a else false)
unfolding is_prefix
is_prefix-last zero prefix input y a h k = rw (h, k) (last (same_bit y a))
  where
    last : (b : Bool) → (if b then true else false) ≡ b
    last true = refl
    last false = refl
is_prefix-last (suc n) [] input y a h k = cc
is_prefix-last (suc n) (x ∷ prefix) [] y a h k = cc
is_prefix-last (suc n) (x ∷ prefix) (b ∷ input) y a h k =
    rw (is_prefix-last n prefix input y a h k)
      (swap (same_bit x b) (is_prefix (take n prefix) (take n input)))
  where
    swap :
        (c d : Bool)
        → (if c then if d then same_bit y a else false else false)
          ≡ (if if c then d else false then same_bit y a else false)
    swap true d = refl
    swap false d = refl

module _ {K S VI VL PI PL : Type 0} {xof : FixedKeyXof K S} {vi : IdpfValue VI PI S}
    {vl : IdpfValue VL PL S} (self : Idpf PI PL) {InRange : VI → Type 0} {InRangeLeaf : VL → Type 0}
    (stream : IsStream xof) (inner_law : IsGroup vi self.inner_node_value_parameter InRange)
    (leaf_law : IsGroup vl self.leaf_node_value_parameter InRangeLeaf) {input : IdpfInput}
    {inner_values : List VI} {leaf_value : VL} {binder : List ℕ} {random : List ℕ × List ℕ}
    {public_share : IdpfPublicShare VI VL}
    (p : IsProgrammed self stream inner_law leaf_law input inner_values leaf_value binder random
      public_share) where
  -- The shares of the two parties, and what they merge to.
  abbrev pub Merges : IdpfInput → IdpfOutputShare VI VL → Type 0
  Merges prefix expected =
      (s0 : IdpfOutputShare VI VL) × (s1 : IdpfOutputShare VI VL) × (share_at xof vi vl self true
          public_share binder random.0 prefix
        ≡ ok s0)
      × (share_at xof vi vl self false public_share binder random.1 prefix ≡ ok s1)
      × (merge vi vl s0 s1 ≡ ok expected)

  abbrev extend_key : K
  extend_key = xof.new extend_dst binder

  abbrev convert_key : K
  convert_key = xof.new convert_dst binder

  abbrev words : List (IdpfCorrectionWord VI)
  words = public_share.inner_correction_words

  abbrev n : ℕ
  n = length inner_values

  inner_short :
      (prefix : List Bool) → length prefix < n → (suc (length prefix) == length words + 1) ≡ false
  inner_short prefix h = fewer (suc (length prefix)) (length words + 1) (omega (arith, p.count, h))
    where
      fewer : (i j : ℕ) → i < j → (i == j) ≡ false
      fewer i j h = ground arith

  pub inner_shares :
      (x : Bool) (prefix : List Bool) (value : VI)
      → value_at inner_values (length prefix) ≡ some value
      → Merges (x ∷ prefix) (
          inner (
            if is_prefix (x ∷ prefix) input
            then value
            else vi.zero self.inner_node_value_parameter))
  unfolding share_at finish merge
  inner_shares x prefix value h =
      let short = value_at-lt inner_values (length prefix) h in
      let (r0, r1, e0, e1, sum) =
        program-Outputs stream inner_law extend_key convert_key p.program x prefix value none none
          h in
      (
        inner r0,
        inner r1,
        rw (inner_short prefix short, e0) refl,
        rw (inner_short prefix short, e1) refl,
        ap (λ (r : VI). ok (inner r))
            (sum
              ∙ ap (λ (b : Bool). if b then value else vi.zero self.inner_node_value_parameter)
                  (is_prefix-take n (x ∷ prefix) input (omega (arith, short)))),
      )

  abbrev leaf_out : Bool → List ℕ × Bool → Bool → VL
  leaf_out is_leader (key, t) y =
      (eval_next xof vl self.leaf_node_value_parameter extend_key convert_key is_leader key t
        public_share.leaf_correction_word y).0

  -- The last level, from the states above it.
  leaf_step :
      (on y : Bool) (s0 s1 : List ℕ × Bool)
      → States stream inner_law extend_key convert_key on p.k0 p.k1 p.t s0 s1
      → vl.add (leaf_out true s0 y) (leaf_out false s1 y) ≡ (
          if (if on then same_bit y p.a else false)
          then leaf_value
          else vl.zero self.leaf_node_value_parameter)
  leaf_step on y s0 s1 (inl (e, e0, e1)) = elim (same_bit-cases y p.a) [
    | inl (at, s) ↦ rw (e, e0, e1, s, at) p.last_level.sum
    | inr (at, s) ↦ rw (e, e0, e1, s, at) p.last_level.sum_beside
  ]
  leaf_step on y s0 s1 (inr (e, same)) =
      rw (e, same)
        (children_same stream leaf_law extend_key convert_key public_share.leaf_correction_word s0.0
          s0.0 s0.1 s0.1 y p.last_level.correction refl refl).2

  -- At the length of the input the inner levels lead to the last bit of the prefix.
  module _ (prefix : List Bool) (h : length prefix ≡ n + 1) (y : Bool)
      (at : index {E = IdpfError} prefix n ≡ ok y) where
    abbrev above : Bool → List ℕ → Option VI × List ℕ × Bool
    above is_leader key =
        inner_walk xof vi vl self is_leader public_share binder words (take n prefix) none key
          (not is_leader)

    walk_above :
        (is_leader : Bool) (key : List ℕ)
        → inner_walk xof vi vl self is_leader public_share binder words prefix none key
            (not is_leader)
          ≡ above is_leader key
    unfolding walk
    walk_above is_leader key =
        ap
          (λ (q : IdpfInput).
            inner_walk xof vi vl self is_leader public_share binder words q none key
              (not is_leader))
          (sym (take-drop n prefix))
        ∙ walk-append xof vi self.inner_node_value_parameter extend_key convert_key is_leader words
            (take n prefix) (drop n prefix) none key (not is_leader)
        ∙ ap
            (λ (w : List (IdpfCorrectionWord VI)).
              inner_walk xof vi vl self is_leader public_share binder w (drop n prefix)
                (above is_leader key).0 (above is_leader key).1 (above is_leader key).2)
            (drop-all (length (take n prefix)) words
              (omega (arith, length-take n prefix (omega (arith, h)), p.count)))

    share_leaf :
        (is_leader : Bool) (key : List ℕ)
        → share_at xof vi vl self is_leader public_share binder key prefix
          ≡ ok (
              leaf (
                leaf_out is_leader
                  (state stream inner_law extend_key convert_key (above is_leader key))
                  y))
    unfolding share_at finish
    share_leaf is_leader key =
        rw
          (
            walk_above is_leader key,
            (==_iff (length prefix) (length words + 1)).1 (omega (arith, h, p.count)),
            same,
            at,
          )
          refl
      where
        same : (length words + 1 - 1) ≡ n
        same = omega (arith, p.count)

  pub leaf_shares :
      (prefix : List Bool)
      → length prefix ≡ n + 1
      → Merges prefix (
          leaf
            (if is_prefix prefix input then leaf_value else vl.zero self.leaf_node_value_parameter))
  unfolding merge
  leaf_shares prefix h =
      let (y, at, bits) = index-drop prefix n (omega (arith, h)) in
      let states =
        program-States stream inner_law extend_key convert_key p.program (take n prefix) none none
          (length-take n prefix (omega (arith, h)) ∙ sym p.count) in
      let s0 = state stream inner_law extend_key convert_key (above prefix h y at true random.0) in
      let s1 = state stream inner_law extend_key convert_key (above prefix h y at false random.1) in
      (
        leaf (leaf_out true s0 y),
        leaf (leaf_out false s1 y),
        share_leaf prefix h y at true random.0,
        share_leaf prefix h y at false random.1,
        ap (λ (r : VL). ok (leaf r))
            (leaf_step (is_prefix (take n prefix) (take n input)) y s0 s1 states
              ∙ ap (λ (b : Bool). if b then leaf_value else vl.zero self.leaf_node_value_parameter)
                  (sym (
                    is_prefix-last n prefix input y p.a
                      (bits
                        ∙ ap (λ (r : List Bool). y ∷ r)
                            (drop-all (suc n) prefix (omega (arith, h))))
                      p.last_bit))),
      )
