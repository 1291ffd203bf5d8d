-- ===== src/Idpf/Tree/Refine.antt =====
-- src/idpf.rs: `eval` with any lawful cache refines the evaluation without a cache.
use mastic.Prelude.{
  ℕ, zero, suc, ◌+◌, ◌-◌, ◌≤◌, ◌<◌, ◌≡◌, refl, ap, ◌∙◌, sym, inl, inr, Bool, true, false, not, List,
  [], ◌∷◌, ◌++◌, length, length-take, length-drop, take, drop, Option, none, Result, ok, err, panic,
  stuck, ◌>>=◌, ◌==◌, le→leb, Bool-cases, arith,
}
use mastic.Codec.Cursor.{index}
use mastic.Idpf.Errors.{IdpfError}
use mastic.Idpf.Value.{IdpfValue}
use mastic.Idpf.Level.{FixedKeyXof, IdpfCorrectionWord}
use mastic.Idpf.Cache.{IdpfCache, BitSlice}
use mastic.Idpf.Cache.Laws.{IsLawful}
use mastic.Idpf.Tree.{
  IdpfInput, IdpfOutputShare, IdpfPublicShare, Idpf, extend_dst, convert_dst, unwrap, eval_levels,
  eval_from_node,
}
use mastic.Idpf.Tree.Evaluate.{walk-append, walk-last, walk-last_output, inner_walk, finish}
use mastic.Idpf.Tree.Cached.{eval_levels-walk, IsConsistent, eval_levels-IsConsistent}

bind_assoc {ℓ κ μ ν} :
    {E : Type ℓ} {X : Type κ} {Y : Type μ} {Z : Type ν} (m : Result E X) (f : X → Result E Y)
    (g : Y → Result E Z)
    → (m >>= λ x. f x >>= g) ≡ ((m >>= f) >>= g)
bind_assoc (ok x) f g = refl
bind_assoc (err e) f g = refl
bind_assoc panic f g = refl
bind_assoc stuck f g = refl

pub take-drop {ℓ} : {A : Type ℓ} (n : ℕ) (xs : List A) → take n xs ++ drop n xs ≡ xs
take-drop zero xs = refl
take-drop (suc n) [] = refl
take-drop (suc n) (x ∷ xs) = rw (take-drop n xs)

module _ {K S VI VL PI PL C : Type 0} (xof : FixedKeyXof K S) (vi : IdpfValue VI PI S)
    (vl : IdpfValue VL PL S) (self : Idpf PI PL) (cache : IdpfCache C) (lawful : IsLawful cache)
    (is_leader : Bool) (public_share : IdpfPublicShare VI VL) (binder root : List ℕ) where
  abbrev words : List (IdpfCorrectionWord VI)
  words = public_share.inner_correction_words

  abbrev go :
      List (IdpfCorrectionWord VI)
      → List Bool
      → Option VI
      → List ℕ
      → Bool
      → Option VI × List ℕ × Bool
  go cws prefix last key t =
      inner_walk xof vi vl self is_leader public_share binder cws prefix last key t

  abbrev end : IdpfInput → Option VI × List ℕ × Bool → Result IdpfError (IdpfOutputShare VI VL)
  end prefix r = finish xof vi vl self is_leader public_share binder prefix r

  abbrev pub Consistent : C → Type 0
  Consistent c =
      IsConsistent xof vi self.inner_node_value_parameter (xof.new extend_dst binder)
        (xof.new convert_dst binder) cache is_leader lawful words root c

  abbrev node_key : BitSlice → List ℕ
  node_key node = (go words node none root (not is_leader)).1

  abbrev node_bit : BitSlice → Bool
  node_bit node = (go words node none root (not is_leader)).2

  abbrev loop : IdpfInput → ℕ → List ℕ → Bool → C → (Option VI × List ℕ × Bool) × C
  loop prefix n key t c =
      eval_levels xof vi self.inner_node_value_parameter (xof.new extend_dst binder)
        (xof.new convert_dst binder) cache is_leader prefix n (drop n words) (drop n prefix) none
        key t c

  eval_from_node_lem :
      (prefix : IdpfInput) (n : ℕ) (key : List ℕ) (t : Bool) (c : C)
      → n ≤ length words
      → n ≤ length prefix
      → eval_from_node xof vi vl self cache is_leader public_share n key t prefix binder c
        ≡ (end prefix (loop prefix n key t c).0 >>= λ o. ok (o, (loop prefix n key t c).1))
  unfolding eval_from_node finish
  eval_from_node_lem prefix n key t c h k =
      rw (le→leb n (length words) h, le→leb n (length prefix) k)
        (elim (Bool-cases (length prefix == length words + 1)) [
          | inl e ↦ rw e (bind_assoc (index prefix (length words + 1 - 1)) _ _)
          | inr e ↦ rw e (bind_assoc (unwrap (loop prefix n key t c).0.0) _ _)
        ])

  -- The output at a leaf depends on the state only.
  end_leaf :
      (prefix : IdpfInput) (r r' : Option VI × List ℕ × Bool)
      → (length prefix == length words + 1) ≡ true
      → r.1 ≡ r'.1
      → r.2 ≡ r'.2
      → end prefix r ≡ end prefix r'
  unfolding finish
  end_leaf prefix r r' e key bit = rw (e, key, bit) refl

  -- The walk from a node on ends as the walk from the root.
  from_node :
      (prefix : IdpfInput) (n : ℕ)
      → n < length prefix
      → length prefix ≤ length words + 1
      → end prefix (
          go
            (drop n words)
            (drop n prefix)
            none
            (node_key (take n prefix))
            (node_bit (take n prefix)))
        ≡ end prefix (go words prefix none root (not is_leader))
  from_node prefix n h k =
      elim (Bool-cases (length prefix == length words + 1)) [
        | inl e ↦
            end_leaf prefix (rest none) (rest above.0) e (forget none above.0).0
              (forget none above.0).1
        | inr e ↦ ap (end prefix) (
            walk-last_output xof vi self.inner_node_value_parameter (xof.new extend_dst binder)
              (xof.new convert_dst binder) is_leader (drop n words) (drop n prefix) none above.0
              above.1 above.2
              (omega
                (arith, length-drop n words, shorter (length prefix) (length words + 1) k e, h))
              (omega (arith, length-drop n prefix, h)))
      ]
      ∙ ap (end prefix) (sym whole)
    where
      above : Option VI × List ℕ × Bool
      above = go words (take n prefix) none root (not is_leader)

      rest : Option VI → Option VI × List ℕ × Bool
      rest last = go (drop n words) (drop n prefix) last above.1 above.2

      forget : (o o' : Option VI) → ((rest o).1 ≡ (rest o').1) × ((rest o).2 ≡ (rest o').2)
      forget o o' =
          walk-last xof vi self.inner_node_value_parameter (xof.new extend_dst binder)
            (xof.new convert_dst binder) is_leader (drop n words) (drop n prefix) o o' above.1
            above.2

      shorter : (m n : ℕ) → m ≤ n → (m == n) ≡ false → m + 1 ≤ n
      shorter m n l e = ground arith

      whole : go words prefix none root (not is_leader) ≡ rest above.0
      whole =
          ap (λ (p : IdpfInput). go words p none root (not is_leader)) (sym (take-drop n prefix))
          ∙ walk-append xof vi self.inner_node_value_parameter (xof.new extend_dst binder)
              (xof.new convert_dst binder) is_leader words (take n prefix) (drop n prefix) none root
              (not is_leader)
          ∙ ap (λ (m : ℕ). go (drop m words) (drop n prefix) above.0 above.1 above.2)
              (length-take n prefix (omega (arith, h)))

  pub eval_from_node-IsConsistent :
      (prefix : IdpfInput) (n : ℕ) (key : List ℕ) (t : Bool) (c : C)
      → n < length prefix
      → length prefix ≤ length words + 1
      → key ≡ node_key (take n prefix)
      → t ≡ node_bit (take n prefix)
      → Consistent c
      → (c' : C) × (eval_from_node xof vi vl self cache is_leader public_share n key t prefix binder
            c
          ≡ (end prefix (go words prefix none root (not is_leader)) >>= λ o. ok (o, c')))
        × Consistent c'
  eval_from_node-IsConsistent prefix n key t c h k hk ht ok_c = (
    (loop prefix n key t c).1,
    eval_from_node_lem prefix n key t c (omega (arith, h, k)) (omega (arith, h))
        ∙ ap
            (λ (r : Result IdpfError (IdpfOutputShare VI VL)).
              r >>= λ o. ok (o, (loop prefix n key t c).1))
            (ap (end prefix) (
                eval_levels-walk xof vi self.inner_node_value_parameter (xof.new extend_dst binder)
                  (xof.new convert_dst binder) cache is_leader prefix n (drop n words)
                  (drop n prefix) none key t c)
              ∙ rw (hk, ht) (from_node prefix n h k)),
    eval_levels-IsConsistent xof vi self.inner_node_value_parameter (xof.new extend_dst binder)
        (xof.new convert_dst binder) cache is_leader lawful words root prefix (take n prefix)
        (drop n prefix) (drop n words) n none key t c (sym (take-drop n prefix))
        (sym (length-take n prefix (omega (arith, h))))
        (ap (λ (m : ℕ). drop m words) (length-take n prefix (omega (arith, h)))) hk ht ok_c,
  )
