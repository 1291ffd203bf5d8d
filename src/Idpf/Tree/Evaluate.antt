-- ===== src/Idpf/Tree/Evaluate.antt =====
-- src/idpf.rs: the evaluation on a prefix without a cache, and walks that start further down.
use mastic.Prelude.{
  ℕ, zero, suc, ◌+◌, ◌-◌, ◌≤◌, ◌<◌, ◌≡◌, refl, Bool, false, not, List, [], ◌∷◌, ◌++◌, length, drop,
  Option, none, some, Result, ok, ◌>>=◌, ◌==◌, ==_iff, Bool-cases, inl, inr, if◌then◌else◌, arith,
}
use mastic.Codec.Cursor.{index}
use mastic.Idpf.Errors.{IdpfError}
use mastic.Idpf.Value.{IdpfValue}
use mastic.Idpf.Level.{FixedKeyXof, IdpfCorrectionWord, eval_next}
use mastic.Idpf.Tree.{
  IdpfInput, IdpfOutputShare, inner, leaf, IdpfPublicShare, Idpf, extend_dst, convert_dst, unwrap,
}
use mastic.Idpf.Tree.Program.{walk}

pub index-ok {ℓ κ} :
    {E : Type ℓ} {A : Type κ} (xs : List A) (i : ℕ)
    → i < length xs
    → (a : A) × (index {E = E} xs i ≡ ok a)
index-ok [] i h = elim h [ ]
index-ok (x ∷ xs) zero h = (x, refl)
index-ok (x ∷ xs) (suc i) h = index-ok xs i (omega (arith, h))

module _ {K S V P : Type 0} (xof : FixedKeyXof K S) (v : IdpfValue V P S) (parameter : P)
    (extend_key convert_key : K) (is_leader : Bool) where
  abbrev go :
      List (IdpfCorrectionWord V) → List Bool → Option V → List ℕ → Bool → Option V × List ℕ × Bool
  go cws prefix last key t =
      walk xof v parameter extend_key convert_key is_leader cws prefix last key t

  pub walk-nil :
      (cws : List (IdpfCorrectionWord V)) (last : Option V) (key : List ℕ) (t : Bool)
      → go cws [] last key t ≡ (last, key, t)
  unfolding walk
  walk-nil [] last key t = refl
  walk-nil (cw ∷ cws) last key t = refl

  pub walk-cons :
      (cw : IdpfCorrectionWord V) (cws : List (IdpfCorrectionWord V)) (x : Bool) (last : Option V)
      (key : List ℕ) (t : Bool)
      → go (cw ∷ cws) (x ∷ []) last key t ≡ (
        some (eval_next xof v parameter extend_key convert_key is_leader key t cw x).0,
        (eval_next xof v parameter extend_key convert_key is_leader key t cw x).1,
        (eval_next xof v parameter extend_key convert_key is_leader key t cw x).2,
      )
  unfolding walk
  walk-cons cw [] x last key t = refl
  walk-cons cw (word ∷ cws) x last key t = refl

  -- A walk along two pieces of a path.
  pub walk-append :
      (cws : List (IdpfCorrectionWord V)) (front back : List Bool) (last : Option V) (key : List ℕ)
      (t : Bool)
      → go cws (front ++ back) last key t
        ≡ go
            (drop (length front) cws)
            back
            (go cws front last key t).0
            (go cws front last key t).1
            (go cws front last key t).2
  unfolding walk
  walk-append [] [] back last key t = refl
  walk-append [] (x ∷ front) back last key t = refl
  walk-append (cw ∷ cws) [] back last key t = refl
  walk-append (cw ∷ cws) (x ∷ front) back last key t =
      walk-append cws front back
        (some (eval_next xof v parameter extend_key convert_key is_leader key t cw x).0)
        (eval_next xof v parameter extend_key convert_key is_leader key t cw x).1
        (eval_next xof v parameter extend_key convert_key is_leader key t cw x).2

  -- The output of the level before is forgotten by the next level, and never part of the state.
  pub walk-last :
      (cws : List (IdpfCorrectionWord V)) (prefix : List Bool) (o o' : Option V) (key : List ℕ)
      (t : Bool)
      → ((go cws prefix o key t).1 ≡ (go cws prefix o' key t).1)
        × ((go cws prefix o key t).2 ≡ (go cws prefix o' key t).2)
  unfolding walk
  walk-last [] prefix o o' key t = (refl, refl)
  walk-last (cw ∷ cws) [] o o' key t = (refl, refl)
  walk-last (cw ∷ cws) (x ∷ prefix) o o' key t = (refl, refl)

  pub walk-last_output :
      (cws : List (IdpfCorrectionWord V)) (prefix : List Bool) (o o' : Option V) (key : List ℕ)
      (t : Bool)
      → 1 ≤ length cws
      → 1 ≤ length prefix
      → go cws prefix o key t ≡ go cws prefix o' key t
  unfolding walk
  walk-last_output [] prefix o o' key t h k = elim h [ ]
  walk-last_output (cw ∷ cws) [] o o' key t h k = elim k [ ]
  walk-last_output (cw ∷ cws) (x ∷ prefix) o o' key t h k = refl

module _ {K S : Type 0} (xof : FixedKeyXof K S) {VI VL PI PL : Type 0} (vi : IdpfValue VI PI S)
    (vl : IdpfValue VL PL S) (self : Idpf PI PL) (is_leader : Bool)
    (public_share : IdpfPublicShare VI VL) (binder : List ℕ) where
  -- The walk over the inner levels.
  abbrev pub inner_walk :
      List (IdpfCorrectionWord VI)
      → List Bool
      → Option VI
      → List ℕ
      → Bool
      → Option VI × List ℕ × Bool
  inner_walk cws prefix last key t =
      walk xof vi self.inner_node_value_parameter (xof.new extend_dst binder)
        (xof.new convert_dst binder) is_leader cws prefix last key t

  -- The output share behind the inner levels.
  unfoldable pub finish :
      IdpfInput → Option VI × List ℕ × Bool → Result IdpfError (IdpfOutputShare VI VL)
  finish prefix (last, key, control_bit) =
      if length prefix == length public_share.inner_correction_words + 1
      then (index prefix (length public_share.inner_correction_words + 1 - 1) >>= λ input_bit. ok (
          leaf
            (eval_next xof vl self.leaf_node_value_parameter (xof.new extend_dst binder)
              (xof.new convert_dst binder) is_leader key control_bit
              public_share.leaf_correction_word input_bit).0))
      else (unwrap last >>= λ output. ok (inner output))

  -- The share of a party with a seed.
  unfoldable pub share_at : List ℕ → IdpfInput → Result IdpfError (IdpfOutputShare VI VL)
  share_at key prefix =
      finish prefix (inner_walk public_share.inner_correction_words prefix none key (not is_leader))

  inner_walk-some :
      (cws : List (IdpfCorrectionWord VI)) (prefix : List Bool) (last : Option VI) (key : List ℕ)
      (t : Bool)
      → (1 ≤ length cws) × (1 ≤ length prefix)
      → (o : VI) × ((inner_walk cws prefix last key t).0 ≡ some o)
  unfolding walk
  inner_walk-some [] prefix last key t (h, k) = elim h [ ]
  inner_walk-some (cw ∷ cws) [] last key t (h, k) = elim k [ ]
  inner_walk-some (cw ∷ cws) (x ∷ prefix) last key t h = later cws prefix _ _ _
    where
      later :
          (cws : List (IdpfCorrectionWord VI)) (prefix : List Bool) (o : VI) (key : List ℕ)
          (t : Bool)
          → (o' : VI) × ((inner_walk cws prefix (some o) key t).0 ≡ some o')
      later [] prefix o key t = (o, refl)
      later (cw ∷ cws) [] o key t = (o, refl)
      later (cw ∷ cws) (x ∷ prefix) o key t = later cws prefix _ _ _

  -- A prefix that is not empty and not too long has a share.
  pub share_at-ok :
      (key : List ℕ) (prefix : IdpfInput)
      → 1 ≤ length prefix
      → length prefix ≤ length public_share.inner_correction_words + 1
      → (o : IdpfOutputShare VI VL) × (share_at key prefix ≡ ok o)
  unfolding share_at finish
  share_at-ok key prefix h k =
      elim (Bool-cases (length prefix == length public_share.inner_correction_words + 1)) [
        | inl e ↦
            let (b, at) =
              index-ok {E = IdpfError} prefix (length public_share.inner_correction_words + 1 - 1) (
                omega (
                  arith,
                  (==_iff (length prefix) (length public_share.inner_correction_words + 1)).0 e,
                )) in
            rw (e, at) (_, refl)
        | inr e ↦
            let (o, at) =
              inner_walk-some public_share.inner_correction_words prefix none key (not is_leader) (
                omega (
                  arith,
                  h,
                  k,
                  shorter (length prefix) (length public_share.inner_correction_words + 1) k e,
                ),
                h,
              ) in
            rw (e, at) (inner o, refl)
      ]
    where
      shorter : (m n : ℕ) → m ≤ n → (m == n) ≡ false → m + 1 ≤ n
      shorter m n l e = ground arith
