-- ===== src/Idpf/Value/Laws.antt =====
-- The values of src/idpf.rs as a group: the sum of two shares under a correction.
use mastic.Prelude.{◌≡◌, ap, ◌∙◌, sym, subst, Bool, true, false, not, if◌then◌else◌}
use mastic.Idpf.Value.{IdpfValue, IsGroup}

module _ {V P S : Type 0} {v : IdpfValue V P S} {param : P} {InRange : V → Type 0}
    (law : IsGroup v param InRange) where
  pub negate : V → V
  negate a = v.conditional_negate a true

  -- The rest of a sum after the negative of its first summand.
  add-negate_left :
      (a b : V) → InRange a → InRange b → v.add (v.add a b) (v.conditional_negate a true) ≡ b
  add-negate_left a b ha hb =
      let n = v.conditional_negate a true in
      let hn = law.negate-InRange a ha in
      ap (λ (t : V). v.add t n) (law.add_comm a b ha hb)
      ∙ law.add_assoc b a n hb ha hn
      ∙ ap (λ (t : V). v.add b t) (law.add-negate a ha)
      ∙ law.add-zero b hb

  -- `x` plus the negative of `y` is `b` where `x` is `y` plus `b`.
  pub add-negate-eq :
      (x y b : V)
      → InRange y
      → InRange b
      → x ≡ v.add y b
      → v.add x (v.conditional_negate y true) ≡ b
  add-negate-eq x y b hy hb h =
      ap (λ (t : V). v.add t (v.conditional_negate y true)) h ∙ add-negate_left y b hy hb

  -- A correction `c` with `c + w0` the same as `w1 + b`, added to the first share ...
  pub correct_first :
      (w0 w1 b c : V)
      → InRange w1
      → InRange b
      → v.add c w0 ≡ v.add w1 b
      → v.add (v.add c w0) (v.conditional_negate w1 true) ≡ b
  correct_first w0 w1 b c h1 hb h = add-negate-eq (v.add c w0) w1 b h1 hb h

  -- ... or its negative to the second one, before that is negated.
  pub correct_second :
      (w0 w1 b c : V)
      → InRange w0
      → InRange w1
      → InRange b
      → InRange c
      → v.add c w0 ≡ v.add w1 b
      → v.add w0 (v.conditional_negate (v.add (v.conditional_negate c true) w1) true) ≡ b
  correct_second w0 w1 b c h0 h1 hb hc h =
      let n = v.conditional_negate c true in
      let hn = law.negate-InRange c hc in
      add-negate-eq w0 (v.add n w1) b (law.add-InRange n w1 hn h1) hb (
        sym (
          law.add_assoc n w1 b hn h1 hb
          ∙ ap (λ (t : V). v.add n t) (sym h)
          ∙ law.add_comm n (v.add c w0) hn (law.add-InRange c w0 hc h0)
          ∙ add-negate_left c w0 hc h0))

  -- The correction that `generate_correction_word` computes.
  pub correction_lem :
      (w0 w1 b : V)
      → InRange w0
      → InRange w1
      → InRange b
      → v.add (v.add (v.sub b w0) w1) w0 ≡ v.add w1 b
  correction_lem w0 w1 b h0 h1 hb =
      let d = v.sub b w0 in
      let hd = law.sub-InRange b w0 hb h0 in
      law.add_assoc d w1 w0 hd h1 h0
      ∙ ap (λ (t : V). v.add d t) (law.add_comm w1 w0 h1 h0)
      ∙ sym (law.add_assoc d w0 w1 hd h0 h1)
      ∙ ap (λ (t : V). v.add t w1) (law.sub-add b w0 hb h0)
      ∙ law.add_comm b w1 hb h1

  pub conditional_negate-InRange :
      (a : V) (c : Bool) → InRange a → InRange (v.conditional_negate a c)
  conditional_negate-InRange a true h = law.negate-InRange a h
  conditional_negate-InRange a false h = subst InRange (sym (law.keep a)) h

  -- What a party adds to its share: the correction under its control bit.
  abbrev pub selected : V → Bool → V
  selected c t = v.conditional_select (v.zero param) c t

  pub selected-InRange : (c : V) (t : Bool) → InRange c → InRange (selected c t)
  selected-InRange c t h =
      subst InRange (sym (law.select (v.zero param) c t law.zero-InRange h)) (cases t)
    where
      cases : (t : Bool) → InRange (if t then c else v.zero param)
      cases true = h
      cases false = law.zero-InRange

  selected_on : (c : V) → InRange c → selected c true ≡ c
  selected_on c h = law.select (v.zero param) c true law.zero-InRange h

  add-selected_off : (w c : V) → InRange w → InRange c → v.add w (selected c false) ≡ w
  add-selected_off w c hw hc =
      ap (λ (t : V). v.add w t) (law.select (v.zero param) c false law.zero-InRange hc)
      ∙ law.add-zero w hw

  -- The shares of two parties with opposite control bits sum to `b`.
  pub shares_sum :
      (w0 w1 b c : V) (t : Bool)
      → InRange w0
      → InRange w1
      → InRange b
      → InRange c
      → v.add c w0 ≡ v.add w1 b
      → v.add
          (v.conditional_negate (v.add w0 (selected (v.conditional_negate c (not t)) t)) false)
          (v.conditional_negate (v.add w1 (selected (v.conditional_negate c (not t)) (not t))) true)
        ≡ b
  shares_sum w0 w1 b c true h0 h1 hb hc h =
      rw
        (
          law.keep c,
          selected_on c hc,
          law.keep (v.add w0 c),
          add-selected_off w1 c h1 hc,
          law.add_comm w0 c h0 hc,
        )
        (correct_first w0 w1 b c h1 hb h)
  shares_sum w0 w1 b c false h0 h1 hb hc h =
      let n = v.conditional_negate c true in
      let hn = law.negate-InRange c hc in
      rw (add-selected_off w0 n h0 hn, law.keep w0, selected_on n hn, law.add_comm w1 n h1 hn)
        (correct_second w0 w1 b c h0 h1 hb hc h)

  -- The shares of two parties in the same state cancel.
  pub shares_cancel :
      (w c : V) (t : Bool)
      → InRange w
      → InRange c
      → v.add
          (v.conditional_negate (v.add w (selected c t)) false)
          (v.conditional_negate (v.add w (selected c t)) true)
        ≡ v.zero param
  shares_cancel w c t hw hc =
      let s = v.add w (selected c t) in
      ap (λ (x : V). v.add x (v.conditional_negate s true)) (law.keep s)
      ∙ law.add-negate s (law.add-InRange w (selected c t) hw (selected-InRange c t hc))
