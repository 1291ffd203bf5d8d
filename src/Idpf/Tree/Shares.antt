-- ===== src/Idpf/Tree/Shares.antt =====
-- src/idpf.rs: the states and the outputs of the two parties at a prefix, from the correction
-- words of an input.
use mastic.Prelude.{
  ℕ, ◌≡◌, refl, ◌⊎◌, inl, inr, Bool, true, false, not, List, [], ◌∷◌, length, Option, some,
  if◌then◌else◌, arith, All,
}
use mastic.Idpf.Value.{IdpfValue, IsGroup}
use mastic.Idpf.Level.{FixedKeyXof, IdpfCorrectionWord}
use mastic.Idpf.Level.Step.{IsStream}
use mastic.Idpf.Level.Pair.{IsCorrection}
use mastic.Idpf.Tree.Program.{
  same_bit, walk, is_prefix, value_at, outcome_at, IsLevel, IsProgram, done, more_levels, steps,
  steps_cons, IsProgram-All, steps-nil, same_states, same_outputs,
}

some-injective : {A : Type 0} {a b : A} → ◌≡◌ {A = Option A} (some a) (some b) → a ≡ b
some-injective h = cc

pub same_bit-cases :
    (x a : Bool) → ((x ≡ a) × (same_bit x a ≡ true)) ⊎ ((x ≡ not a) × (same_bit x a ≡ false))
same_bit-cases true true = inl (refl, refl)
same_bit-cases true false = inr (refl, refl)
same_bit-cases false true = inr (refl, refl)
same_bit-cases false false = inl (refl, refl)

module _ {K S V P : Type 0} {xof : FixedKeyXof K S} {v : IdpfValue V P S} {parameter : P}
    {InRange : V → Type 0} (stream : IsStream xof) (law : IsGroup v parameter InRange)
    (extend_key convert_key : K) where
  abbrev go :
      List (IdpfCorrectionWord V)
      → Bool
      → List Bool
      → Option V
      → List ℕ
      → Bool
      → Option V × List ℕ × Bool
  go cws is_leader prefix last key t =
      steps stream law extend_key convert_key cws is_leader prefix last key t

  abbrev at : IdpfCorrectionWord V → Bool → List ℕ → Bool → Bool → V × List ℕ × Bool
  at cw is_leader key t x = outcome_at stream law extend_key convert_key cw is_leader key t x

  -- On the path the parties have the states behind the program, beside it the same state.
  abbrev pub States : Bool → List ℕ → List ℕ → Bool → List ℕ × Bool → List ℕ × Bool → Type 0
  States on k0 k1 t s0 s1 =
      ((on ≡ true) × (s0 ≡ (k0, t)) × (s1 ≡ (k1, not t))) ⊎ ((on ≡ false) × (s1 ≡ s0))

  abbrev pub state : Option V × List ℕ × Bool → List ℕ × Bool
  state (last, key, control_bit) = (key, control_bit)

  -- Two last outputs that are there and sum to a value.
  abbrev pub Outputs : V → Option V → Option V → Type 0
  Outputs w o0 o1 = (r0 : V) × (r1 : V) × (o0 ≡ some r0) × (o1 ≡ some r1) × (v.add r0 r1 ≡ w)

  abbrev on_path : Bool → Bool → Bool → Bool
  on_path x a rest = if same_bit x a then rest else false

  module _ {a : Bool} {value : V} {k0 k1 : List ℕ} {t : Bool} {cw : IdpfCorrectionWord V}
      {k0' k1' : List ℕ} {t' : Bool}
      (l : IsLevel stream law extend_key convert_key a value k0 k1 t cw k0' k1' t')
      (cws : List (IdpfCorrectionWord V)) (ok : All (IsCorrection InRange) cws) where
    level-States :
        (x : Bool) (prefix : List Bool) (rest : Bool) (k0'' k1'' : List ℕ) (t'' : Bool)
        (o0 o1 : Option V)
        → ((o0 o1 : Option V)
            → States rest k0'' k1'' t''
                (state (go cws true prefix o0 k0' t'))
                (state (go cws false prefix o1 k1' (not t'))))
        → States
            (on_path x a rest)
            k0''
            k1''
            t''
            (state (go (cw ∷ cws) true (x ∷ prefix) o0 k0 t))
            (state (go (cw ∷ cws) false (x ∷ prefix) o1 k1 (not t)))
    level-States x prefix rest k0'' k1'' t'' o0 o1 below =
        rw
          (
            steps_cons stream law extend_key convert_key cw cws true x prefix o0 k0 t,
            steps_cons stream law extend_key convert_key cw cws false x prefix o1 k1 (not t),
          )
          (elim (same_bit-cases x a) [
            | inl (e, s) ↦
                rw (s, e, l.leader, l.leader_bit, l.helper, l.helper_bit)
                  (below (some (at cw true k0 t a).0) (some (at cw false k1 (not t) a).0))
            | inr (e, s) ↦
                rw (s, e, l.beside, l.bit_beside)
                  (inr (
                    refl,
                    pair (
                        same_states stream law extend_key convert_key cws prefix
                          (some (at cw true k0 t (not a)).0)
                          (some (at cw false k1 (not t) (not a)).0) (at cw true k0 t (not a)).1
                          (at cw true k0 t (not a)).2 ok),
                  ))
          ])
      where
        pair :
            {k k' : List ℕ} {b b' : Bool}
            → (k ≡ k') × (b ≡ b')
            → ◌≡◌ {A = List ℕ × Bool} (k, b) (k', b')
        pair (e, e') = λ i. (e i, e' i)

    -- The last output at the level itself ...
    last-Outputs :
        (x : Bool) (o0 o1 : Option V)
        → Outputs
            (if on_path x a true then value else v.zero parameter)
            (go (cw ∷ cws) true (x ∷ []) o0 k0 t).0
            (go (cw ∷ cws) false (x ∷ []) o1 k1 (not t)).0
    last-Outputs x o0 o1 =
        rw
          (
            steps_cons stream law extend_key convert_key cw cws true x [] o0 k0 t,
            steps_cons stream law extend_key convert_key cw cws false x [] o1 k1 (not t),
            steps_nil true (some (at cw true k0 t x).0) (at cw true k0 t x).1 (at cw true k0 t x).2,
            steps_nil false (some (at cw false k1 (not t) x).0) (at cw false k1 (not t) x).1
                (at cw false k1 (not t) x).2,
          )
          (
            (at cw true k0 t x).0,
            (at cw false k1 (not t) x).0,
            refl,
            refl,
            elim (same_bit-cases x a) [
              | inl (e, s) ↦ rw (s, e) l.sum
              | inr (e, s) ↦ rw (s, e) l.sum_beside
            ],
          )
      where
        steps_nil :
            (is_leader : Bool) (last : Option V) (key : List ℕ) (b : Bool)
            → go cws is_leader [] last key b ≡ (last, key, b)
        steps_nil is_leader last key b =
            steps-nil stream law extend_key convert_key cws is_leader last key b

    -- ... and further down.
    level-Outputs :
        (x : Bool) (prefix : List Bool) (rest : Bool) (w : V) (o0 o1 : Option V)
        → ((o0 o1 : Option V)
            → Outputs
                (if rest then w else v.zero parameter)
                (go cws true prefix o0 k0' t').0
                (go cws false prefix o1 k1' (not t')).0)
        → Outputs
            (if on_path x a rest then w else v.zero parameter)
            (go (cw ∷ cws) true (x ∷ prefix) o0 k0 t).0
            (go (cw ∷ cws) false (x ∷ prefix) o1 k1 (not t)).0
    level-Outputs x prefix rest w o0 o1 below =
        rw
          (
            steps_cons stream law extend_key convert_key cw cws true x prefix o0 k0 t,
            steps_cons stream law extend_key convert_key cw cws false x prefix o1 k1 (not t),
          )
          (elim (same_bit-cases x a) [
            | inl (e, s) ↦
                rw (s, e, l.leader, l.leader_bit, l.helper, l.helper_bit)
                  (below (some (at cw true k0 t a).0) (some (at cw false k1 (not t) a).0))
            | inr (e, s) ↦
                rw (s, e, l.beside, l.bit_beside)
                  (same_outputs stream law extend_key convert_key cws prefix
                    (at cw true k0 t (not a)).0 (at cw false k1 (not t) (not a)).0
                    (at cw true k0 t (not a)).1 (at cw true k0 t (not a)).2 ok l.sum_beside)
          ])

  pub program-States :
      {input : List Bool} {values : List V} {k0 k1 : List ℕ} {t : Bool}
      {cws : List (IdpfCorrectionWord V)} {k0' k1' : List ℕ} {t' : Bool}
      → IsProgram stream law extend_key convert_key input values k0 k1 t cws k0' k1' t'
      → (prefix : List Bool) (o0 o1 : Option V) → length prefix ≡ length cws
      → States
          (is_prefix prefix input)
          k0'
          k1'
          t'
          (state (go cws true prefix o0 k0 t))
          (state (go cws false prefix o1 k1 (not t)))
  unfolding is_prefix walk
  program-States done [] o0 o1 h = inl (refl, refl, refl)
  program-States done (x ∷ prefix) o0 o1 h = absurd (omega (arith, h))
  program-States (more_levels l p) [] o0 o1 h = absurd (omega (arith, h))
  program-States (more_levels l p) (x ∷ prefix) o0 o1 h =
      level-States l _ (IsProgram-All stream law extend_key convert_key p) x prefix _ _ _ _ o0 o1
        (λ o0 o1. program-States p prefix o0 o1 (omega (arith, h)))

  pub program-Outputs :
      {input : List Bool} {values : List V} {k0 k1 : List ℕ} {t : Bool}
      {cws : List (IdpfCorrectionWord V)} {k0' k1' : List ℕ} {t' : Bool}
      → IsProgram stream law extend_key convert_key input values k0 k1 t cws k0' k1' t'
      → (x : Bool) (prefix : List Bool) (w : V) (o0 o1 : Option V)
      → value_at values (length prefix) ≡ some w
      → Outputs
          (if is_prefix (x ∷ prefix) input then w else v.zero parameter)
          (go cws true (x ∷ prefix) o0 k0 t).0
          (go cws false (x ∷ prefix) o1 k1 (not t)).0
  unfolding is_prefix value_at
  program-Outputs done x prefix w o0 o1 h = cc
  program-Outputs (more_levels l p) x [] w o0 o1 h =
      rw (← some-injective h)
        (last-Outputs l _ (IsProgram-All stream law extend_key convert_key p) x o0 o1)
  program-Outputs (more_levels l p) x (y ∷ prefix) w o0 o1 h =
      level-Outputs l _ (IsProgram-All stream law extend_key convert_key p) x (y ∷ prefix) _ w o0 o1
        (λ o0 o1. program-Outputs p y prefix w o0 o1 h)
