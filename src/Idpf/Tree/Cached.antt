-- ===== src/Idpf/Tree/Cached.antt =====
-- src/idpf.rs: an evaluation with a cache gives the share that an evaluation without one gives.
use mastic.Prelude.{
  ℕ, suc, ◌≡◌, refl, ap, ◌∙◌, sym, inl, inr, Bool, not, List, [], ◌∷◌, ◌++◌, append_assoc, length,
  length-append, take, drop, drop-drop, take-append_left, Option, none, some, arith,
}
use mastic.Field.Words.{as_int}
use mastic.Idpf.Value.{IdpfValue}
use mastic.Idpf.Level.{FixedKeyXof, IdpfCorrectionWord, eval_next}
use mastic.Idpf.Cache.{IdpfCache, Values, BitSlice}
use mastic.Idpf.Cache.Laws.{IsLawful}
use mastic.Idpf.Tree.{IdpfInput, eval_levels}
use mastic.Idpf.Tree.Program.{walk}
use mastic.Idpf.Tree.Evaluate.{walk-cons, walk-append}

module _ {K S V P C : Type 0} (xof : FixedKeyXof K S) (v : IdpfValue V P S) (parameter : P)
    (extend_key convert_key : K) (cache : IdpfCache C) (is_leader : Bool) where
  abbrev go :
      List (IdpfCorrectionWord V) → List Bool → Option V → List ℕ → Bool → Option V × List ℕ × Bool
  go cws prefix last key t =
      walk xof v parameter extend_key convert_key is_leader cws prefix last key t

  abbrev loop :
      IdpfInput
      → ℕ
      → List (IdpfCorrectionWord V)
      → List Bool
      → Option V
      → List ℕ
      → Bool
      → C
      → (Option V × List ℕ × Bool) × C
  loop prefix level cws bits last key t c =
      eval_levels xof v parameter extend_key convert_key cache is_leader prefix level cws bits last
        key t c

  -- The cache has no part in what the loop computes.
  pub eval_levels-walk :
      (prefix : IdpfInput) (level : ℕ) (cws : List (IdpfCorrectionWord V)) (bits : List Bool)
      (last : Option V) (key : List ℕ) (t : Bool) (c : C)
      → (loop prefix level cws bits last key t c).0 ≡ go cws bits last key t
  unfolding eval_levels walk
  eval_levels-walk prefix level [] bits last key t c = refl
  eval_levels-walk prefix level (cw ∷ cws) [] last key t c = refl
  eval_levels-walk prefix level (cw ∷ cws) (x ∷ bits) last key t c =
      eval_levels-walk prefix (suc level) cws bits _ _ _ _

  module _ (lawful : IsLawful cache) (words : List (IdpfCorrectionWord V)) (root : List ℕ) where
    -- The state of the party at a node.
    abbrev pub key_at : BitSlice → List ℕ
    key_at node = (go words node none root (not is_leader)).1

    abbrev pub bit_at : BitSlice → Bool
    bit_at node = (go words node none root (not is_leader)).2

    -- A cache that was used with this key and these correction words only.
    pub record IsConsistent (c : C) : Type 0 where
      pub found :
          (node : BitSlice) (values : Values)
          → cache.get c node ≡ some values
          → values ≡ (key_at node, as_int (bit_at node))

    -- Such as a new one.
    pub empty-IsConsistent :
        (c : C) → ((node : BitSlice) → cache.get c node ≡ none) → IsConsistent c
    empty-IsConsistent c h = record {
      found = λ node values e. absurd (none-ne-some (sym (h node) ∙ e));
    }
      where
        none-ne-some : {a : Values} → ◌≡◌ {A = Option Values} none (some a) → ⊥
        none-ne-some e = cc

    insert-IsConsistent :
        (c : C) (node : BitSlice)
        → IsConsistent c
        → IsConsistent (cache.insert c node (key_at node, as_int (bit_at node)))
    insert-IsConsistent c node h = record {
      found = λ input values e.
          elim (lawful.get-insert c node (key_at node, as_int (bit_at node)) input values e) [
            | inl (same, it) ↦ rw same it
            | inr before ↦ h.found input values before
          ];
    }

    -- One level further down the path.
    module _ (front : List Bool) (x : Bool) (cw : IdpfCorrectionWord V)
        (cws : List (IdpfCorrectionWord V)) (hw : drop (length front) words ≡ cw ∷ cws) where
      abbrev below : V × List ℕ × Bool
      below =
          eval_next xof v parameter extend_key convert_key is_leader (key_at front) (bit_at front)
            cw x

      walk_below :
          go words (front ++ (x ∷ [])) none root (not is_leader) ≡ (some below.0, below.1, below.2)
      walk_below =
          walk-append xof v parameter extend_key convert_key is_leader words front (x ∷ []) none
            root (not is_leader)
          ∙ ap
              (λ (w : List (IdpfCorrectionWord V)).
                go w (x ∷ []) (go words front none root (not is_leader)).0 (key_at front)
                  (bit_at front))
              hw
          ∙ walk-cons xof v parameter extend_key convert_key is_leader cw cws x
              (go words front none root (not is_leader)).0 (key_at front) (bit_at front)

      key_below : below.1 ≡ key_at (front ++ (x ∷ []))
      key_below = sym (ap (λ (r : Option V × List ℕ × Bool). r.1) walk_below)

      bit_below : below.2 ≡ bit_at (front ++ (x ∷ []))
      bit_below = sym (ap (λ (r : Option V × List ℕ × Bool). r.2) walk_below)

      drop_below : drop (length (front ++ (x ∷ []))) words ≡ cws
      drop_below =
          ap (λ (n : ℕ). drop n words) (length-append front (x ∷ []))
          ∙ sym (drop-drop (length front) 1 words)
          ∙ ap (λ (w : List (IdpfCorrectionWord V)). drop 1 w) hw

    pub eval_levels-IsConsistent :
        (prefix : IdpfInput) (front bits : List Bool) (cws : List (IdpfCorrectionWord V))
        (level : ℕ) (last : Option V) (key : List ℕ) (t : Bool) (c : C)
        → prefix ≡ front ++ bits
        → level ≡ length front
        → drop (length front) words ≡ cws
        → key ≡ key_at front
        → t ≡ bit_at front
        → IsConsistent c
        → IsConsistent (loop prefix level cws bits last key t c).1
    unfolding eval_levels
    eval_levels-IsConsistent prefix front bits [] level last key t c hp hl hw hk ht h = h
    eval_levels-IsConsistent prefix front [] (cw ∷ cws) level last key t c hp hl hw hk ht h = h
    eval_levels-IsConsistent prefix front (x ∷ bits) (cw ∷ cws) level last key t c hp hl hw hk ht
          h =
        let front' = front ++ (x ∷ []) in
        let hp' : prefix ≡ front' ++ bits = hp ∙ sym (append_assoc front (x ∷ []) bits) in
        let hl' : suc level ≡ length front' = omega (arith, hl, length-append front (x ∷ [])) in
        eval_levels-IsConsistent prefix front' bits cws (suc level) _ _ _ _ hp' hl'
          (drop_below front x cw cws hw) (rw (hk, ht) (key_below front x cw cws hw))
          (rw (hk, ht) (bit_below front x cw cws hw))
          (rw
            (
              taken prefix front' bits (suc level) hp' hl',
              hk,
              ht,
              key_below front x cw cws hw,
              bit_below front x cw cws hw,
            )
            (insert-IsConsistent c front' h))
      where
        taken :
            (prefix front bits : List Bool) (n : ℕ)
            → prefix ≡ front ++ bits
            → n ≡ length front
            → take n prefix ≡ front
        taken prefix front bits n e e' = rw (e, e') (take-append_left front bits)
