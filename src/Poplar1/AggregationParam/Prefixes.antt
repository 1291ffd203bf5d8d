-- ===== src/Poplar1/AggregationParam/Prefixes.antt =====
-- src/vdaf/poplar1.rs: the lists of prefixes that make an aggregation parameter.
use mastic.Prelude.{
  ℕ, zero, suc, ◌+◌, ◌^◌, ◌≤◌, ◌<◌, ◌≡◌, refl, ap, ◌∙◌, sym, subst, ◌↔◌, inl, inr, Bool, List, [],
  ◌∷◌, length, All, none, some, Result, ok, err, ok-injective, ◌>>◌, >>=-eq-ok, ltb, ltb→lt, lt→ltb,
  ◌==◌, ==_iff, Bool-cases, if◌then◌else◌, arith,
}
use mastic.Vdaf.{VdafError, uncategorized}
use mastic.Idpf.Tree.{IdpfInput}
use mastic.Poplar1.AggregationParam.{
  Poplar1AggregationParam, Order, less, same, greater, partial_cmp, after, check_order,
  check_prefixes, with_level, try_from_prefixes,
}
use mastic.Poplar1.AggregationParam.Numbers.{number, Compares, compares}

-- Each prefix spells a greater number than the one before.
unfoldable pub Ascending : List IdpfInput → Type 0
Ascending [] = Unit {0}
Ascending (p ∷ []) = Unit {0}
Ascending (p ∷ (q ∷ rest)) = (number p < number q) × Ascending (q ∷ rest)

abbrev HasLength : ℕ → IdpfInput → Type 0
HasLength len p = length p ≡ len

check_order_iff :
    (last p : IdpfInput)
    → length p ≡ length last
    → (check_order (some last) p ≡ ok tt) ↔ (number last < number p)
unfolding check_order
check_order_iff last p h = decide (partial_cmp p last) (compares p last h)
  where
    decide :
        (o : Order)
        → Compares o (number p) (number last)
        → (after o ≡ ok tt) ↔ (number last < number p)
    decide same c = (λ e. cc, λ l. absurd (omega (arith, c, l)))
    decide less c = (λ e. cc, λ l. absurd (omega (arith, c, l)))
    decide greater c = (λ e. c, λ l. refl)

-- The test of one prefix, and of the others behind it.
checked_head :
    (len : ℕ) (last p : IdpfInput) (rest : List IdpfInput)
    → length last ≡ len
    → check_prefixes len (some last) (p ∷ rest) ≡ ok tt
    → HasLength len p × (number last < number p) × (check_prefixes len (some p) rest ≡ ok tt)
unfolding check_prefixes
checked_head len last p rest h e = elim (Bool-cases (length p == len)) [
  | inl f ↦
      let same_length = (==_iff (length p) len).0 f in
      let (u, first, others) =
        >>=-eq-ok (check_order (some last) p) _ (subst (Checked len last p rest) f e) in
      (same_length, (check_order_iff last p (same_length ∙ sym h)).0 first, others)
  | inr f ↦
      absurd (refused (check_prefixes len (some p) rest) (subst (Checked len last p rest) f e))
]
  where
    Checked : ℕ → IdpfInput → IdpfInput → List IdpfInput → Bool → Type 0
    Checked len last p rest b =
        ((if b
            then check_order (some last) p
            else err (uncategorized "all prefixes must have the same length"))
          >> check_prefixes len (some p) rest)
        ≡ ok tt

    refused :
        (next : Result VdafError (Unit {0}))
        → (err (uncategorized "all prefixes must have the same length") >> next) ≡ ok tt
        → ⊥
    refused next h = cc

check_some_iff :
    (len : ℕ) (last : IdpfInput) (rest : List IdpfInput)
    → length last ≡ len
    → (check_prefixes len (some last) rest ≡ ok tt)
      ↔ (All (HasLength len) rest × Ascending (last ∷ rest))
unfolding check_prefixes Ascending
check_some_iff len last [] h = (λ e. (tt, tt), λ a. refl)
check_some_iff len last (p ∷ rest) h = (
  λ e.
      let (same_length, above, others) = checked_head len last p rest h e in
      let (lengths, ascending) = (check_some_iff len p rest same_length).0 others in
      ((same_length, lengths), (above, ascending)),
  λ ((same_length, lengths), (above, ascending)).
      rw
        (
          (==_iff (length p) len).1 same_length,
          (check_order_iff last p (same_length ∙ sym h)).1 above,
        )
        ((check_some_iff len p rest same_length).1 (lengths, ascending)),
)

check_first :
    (first : IdpfInput) (rest : List IdpfInput)
    → check_prefixes (length first) none (first ∷ rest)
      ≡ check_prefixes (length first) (some first) rest
unfolding check_prefixes check_order
check_first first rest = rw ((==_iff (length first) (length first)).1 refl) refl

with_level-ok :
    (n : ℕ) (prefixes : List IdpfInput) (param : Poplar1AggregationParam)
    → with_level n prefixes ≡ ok param
    → (param.level < 2 ^ 16) × (n ≡ param.level + 1) × (param.prefixes ≡ prefixes)
with_level-ok zero prefixes param e = cc
with_level-ok (suc level) prefixes param e = elim (Bool-cases (ltb level (2 ^ 16))) [
  | inl f ↦
      let same_param : ◌≡◌ {A = Poplar1AggregationParam}
          (record { level = level; prefixes = prefixes }) param =
        ok-injective (subst Levelled f e) in
      let at : level ≡ param.level = ap (λ (q : Poplar1AggregationParam). q.level) same_param in
      (
        omega (arith, ltb→lt level (2 ^ 16) f, at),
        omega (arith, at),
        sym (ap (λ (q : Poplar1AggregationParam). q.prefixes) same_param),
      )
  | inr f ↦ absurd (err-ne-ok (subst Levelled f e))
]
  where
    Levelled : Bool → Type 0
    Levelled b =
        (if b
          then ok (record { level = level; prefixes = prefixes })
          else err (uncategorized "prefixes are too long"))
        ≡ ok param

    err-ne-ok :
        {f : VdafError} → ◌≡◌ {A = Result VdafError Poplar1AggregationParam} (err f) (ok param) → ⊥
    err-ne-ok h = cc

counted-lt :
    (n : ℕ)
    → ◌≡◌ {A = Result VdafError (Unit {0})}
        (if ltb n (2 ^ 32) then ok tt else err (uncategorized "too many prefixes"))
        (ok tt)
    → n < 2 ^ 32
counted-lt n e = elim (Bool-cases (ltb n (2 ^ 32))) [
  | inl f ↦ ltb→lt n (2 ^ 32) f
  | inr f ↦ absurd (err-ne-ok (subst Counted f e))
]
  where
    Counted : Bool → Type 0
    Counted b =
        ◌≡◌ {A = Result VdafError (Unit {0})}
          (if b then ok tt else err (uncategorized "too many prefixes")) (ok tt)

    err-ne-ok : {f : VdafError} → ◌≡◌ {A = Result VdafError (Unit {0})} (err f) (ok tt) → ⊥
    err-ne-ok h = cc

-- The lists that the comment on `try_from_prefixes` describes, and the parameter made of one.
pub record IsParameter (prefixes : List IdpfInput) (param : Poplar1AggregationParam) : Type 0 where
  pub some_prefix : 1 ≤ length prefixes
  pub count : length prefixes < 2 ^ 32
  pub lengths : All (λ p. length p ≡ param.level + 1) prefixes
  pub short : param.level < 2 ^ 16
  pub ascending : Ascending prefixes
  pub kept : param.prefixes ≡ prefixes

-- A list of prefixes makes an aggregation parameter exactly if it is not empty, has fewer than
-- 2 ^ 32 prefixes, all of one length from 1 to 2 ^ 16, and spells an ascending sequence of numbers;
-- the parameter holds the list, and its level is the length less 1.
pub try_from_prefixes_iff :
    (prefixes : List IdpfInput) (param : Poplar1AggregationParam)
    → (try_from_prefixes prefixes ≡ ok param) ↔ IsParameter prefixes param
unfolding try_from_prefixes
try_from_prefixes_iff [] param = (λ e. cc, λ v. elim v.some_prefix [ ])
try_from_prefixes_iff (first ∷ rest) param = (
  λ e.
      let (u, counted, e') =
        >>=-eq-ok
          (if ltb (length (first ∷ rest)) (2 ^ 32)
            then ok tt
            else err (uncategorized "too many prefixes"))
          _ e in
      let (w, checked, levelled) =
        >>=-eq-ok (check_prefixes (length first) none (first ∷ rest)) _ e' in
      let (short, len, kept) = with_level-ok (length first) (first ∷ rest) param levelled in
      let (lengths, ascending) =
        (check_some_iff (length first) first rest refl).0
          (sym (check_first first rest) ∙ checked) in
      record {
        some_prefix = omega arith;
        count = counted-lt (length (first ∷ rest)) counted;
        lengths = subst (λ (n : ℕ). All (HasLength n) (first ∷ rest)) len (refl, lengths);
        short = short;
        ascending = ascending;
        kept = kept;
      },
  λ v.
      rw
        (
          lt→ltb (length (first ∷ rest)) (2 ^ 32) v.count,
          check_first first rest,
          (check_some_iff (length first) first rest refl).1 (
            subst (λ (n : ℕ). All (HasLength n) rest) (sym v.lengths.0) v.lengths.1,
            v.ascending,
          ),
          v.lengths.0 ∙ plus_one param.level,
          lt→ltb param.level (2 ^ 16) v.short,
        )
        (ap (λ (q : List IdpfInput). ok (record { level = param.level; prefixes = q }))
          (sym v.kept)),
)
  where
    plus_one : (n : ℕ) → n + 1 ≡ suc n
    plus_one n = omega arith
