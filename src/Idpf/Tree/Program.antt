-- ===== src/Idpf/Tree/Program.antt =====
-- src/idpf.rs: the correction words of a generated key along the path of its input, and what the
-- two parties compute from them on that path and beside it.
use mastic.Prelude.{
  ℕ, zero, suc, ◌≡◌, refl, ap, ◌∙◌, Bool, true, false, not, List, [], ◌∷◌, Option, none, some,
  if◌then◌else◌, All,
}
use mastic.Idpf.Value.{IdpfValue, IsGroup}
use mastic.Idpf.Level.{FixedKeyXof, IdpfCorrectionWord, generate_correction_word, eval_next}
use mastic.Idpf.Level.Step.{IsStream}
use mastic.Idpf.Level.Pair.{IsCorrection, children_same, on_path, off_path, generated}

-- The evaluation loop without the cache.
module _ {K S V P : Type 0} (xof : FixedKeyXof K S) (v : IdpfValue V P S) (parameter : P)
    (extend_key convert_key : K) (is_leader : Bool) where
  unfoldable pub walk :
      List (IdpfCorrectionWord V) → List Bool → Option V → List ℕ → Bool → Option V × List ℕ × Bool
  walk [] input_bits last key control_bit = (last, key, control_bit)
  walk (cw ∷ cws) [] last key control_bit = (last, key, control_bit)
  walk (cw ∷ cws) (input_bit ∷ input_bits) last key control_bit =
      let (out, key', control_bit') =
        eval_next xof v parameter extend_key convert_key is_leader key control_bit cw input_bit in
      walk cws input_bits (some out) key' control_bit'

abbrev pub same_bit : Bool → Bool → Bool
same_bit true b = b
same_bit false true = false
same_bit false false = true

-- Whether the bits `prefix` begin the bits `input`.
unfoldable pub is_prefix : List Bool → List Bool → Bool
is_prefix [] input = true
is_prefix (x ∷ prefix) [] = false
is_prefix (x ∷ prefix) (a ∷ input) = if same_bit x a then is_prefix prefix input else false

pub is_prefix_cons :
    (x a : Bool) (prefix input : List Bool) {b : Bool}
    → same_bit x a ≡ b
    → is_prefix (x ∷ prefix) (a ∷ input) ≡ (if b then is_prefix prefix input else false)
unfolding is_prefix
is_prefix_cons x a prefix input h = rw h refl

-- The value of a level, counted from 0.
unfoldable pub value_at : {V : Type 0} → List V → ℕ → Option V
value_at [] level = none
value_at (value ∷ values) zero = some value
value_at (value ∷ values) (suc level) = value_at values level

module _ {K S V P : Type 0} {xof : FixedKeyXof K S} {v : IdpfValue V P S} {parameter : P}
    {InRange : V → Type 0} (stream : IsStream xof) (law : IsGroup v parameter InRange)
    (extend_key convert_key : K) where
  abbrev pub outcome_at : IdpfCorrectionWord V → Bool → List ℕ → Bool → Bool → V × List ℕ × Bool
  outcome_at cw is_leader key t x =
      eval_next xof v parameter extend_key convert_key is_leader key t cw x

  -- The correction word of a level, for the bit and the value of the level and the states of the
  -- parties above and below it.
  pub record IsLevel (a : Bool) (value : V) (k0 k1 : List ℕ) (t : Bool) (cw : IdpfCorrectionWord V)
      (k0' k1' : List ℕ) (t' : Bool) : Type 0 where
    pub correction : IsCorrection InRange cw
    pub leader : (outcome_at cw true k0 t a).1 ≡ k0'
    pub leader_bit : (outcome_at cw true k0 t a).2 ≡ t'
    pub helper : (outcome_at cw false k1 (not t) a).1 ≡ k1'
    pub helper_bit : (outcome_at cw false k1 (not t) a).2 ≡ not t'
    pub sum : v.add (outcome_at cw true k0 t a).0 (outcome_at cw false k1 (not t) a).0 ≡ value
    pub beside : (outcome_at cw false k1 (not t) (not a)).1 ≡ (outcome_at cw true k0 t (not a)).1
    pub bit_beside :
        (outcome_at cw false k1 (not t) (not a)).2 ≡ (outcome_at cw true k0 t (not a)).2
    pub sum_beside :
        v.add (outcome_at cw true k0 t (not a)).0 (outcome_at cw false k1 (not t) (not a)).0
        ≡ v.zero parameter

  pub generated-IsLevel :
      (a : Bool) (value : V) (k0 k1 : List ℕ) (t : Bool)
      → InRange value
      → (cw : IdpfCorrectionWord V) × (k0' : List ℕ) × (k1' : List ℕ) × (t' : Bool) × IsLevel a
          value k0 k1 t cw k0' k1' t'
        × (generate_correction_word xof v parameter extend_key convert_key a value
              (k0, k1)
              (t, not t)
            ≡ (cw, (k0', k1'), (t', not t')))
  generated-IsLevel a value k0 k1 t h =
      let g = generated stream law extend_key convert_key a value (k0, k1) t in
      let (ok, opposite, lead, help, total) =
        on_path stream law extend_key convert_key a value (k0, k1) t h in
      let (key, bit, cancel) = off_path stream law extend_key convert_key a value (k0, k1) t h in
      (
        g.0,
        g.1.0,
        g.1.1,
        g.2.0,
        record {
          correction = ok;
          leader = ap (λ (r : V × List ℕ × Bool). r.1) lead;
          leader_bit = ap (λ (r : V × List ℕ × Bool). r.2) lead;
          helper = ap (λ (r : V × List ℕ × Bool). r.1) help;
          helper_bit = ap (λ (r : V × List ℕ × Bool). r.2) help ∙ opposite;
          sum = total;
          beside = key;
          bit_beside = bit;
          sum_beside = cancel;
        },
        ap (λ (b : Bool). (g.0, (g.1.0, g.1.1), (g.2.0, b))) opposite,
      )

  -- The correction words of consecutive levels.
  pub data IsProgram
      : List Bool
        → List V
        → List ℕ
        → List ℕ
        → Bool
        → List (IdpfCorrectionWord V)
        → List ℕ
        → List ℕ
        → Bool
        → Type 0 where
    done : {k0 k1 : List ℕ} {t : Bool} → IsProgram [] [] k0 k1 t [] k0 k1 t
    more_levels :
        {a : Bool} {input : List Bool} {value : V} {values : List V} {k0 k1 : List ℕ} {t : Bool}
        {cw : IdpfCorrectionWord V} {cws : List (IdpfCorrectionWord V)} {k0' k1' : List ℕ}
        {t' : Bool} {k0'' k1'' : List ℕ} {t'' : Bool}
        → IsLevel a value k0 k1 t cw k0' k1' t'
        → IsProgram input values k0' k1' t' cws k0'' k1'' t''
        → IsProgram (a ∷ input) (value ∷ values) k0 k1 t (cw ∷ cws) k0'' k1'' t''

  abbrev pub steps :
      List (IdpfCorrectionWord V)
      → Bool
      → List Bool
      → Option V
      → List ℕ
      → Bool
      → Option V × List ℕ × Bool
  steps cws is_leader prefix last key t =
      walk xof v parameter extend_key convert_key is_leader cws prefix last key t

  pub IsProgram-All :
      {input : List Bool} {values : List V} {k0 k1 : List ℕ} {t : Bool}
      {cws : List (IdpfCorrectionWord V)} {k0' k1' : List ℕ} {t' : Bool}
      → IsProgram input values k0 k1 t cws k0' k1' t'
      → All (IsCorrection InRange) cws
  IsProgram-All done = tt
  IsProgram-All (more_levels l p) = (l.correction, IsProgram-All p)

  pub steps_cons :
      (cw : IdpfCorrectionWord V) (cws : List (IdpfCorrectionWord V)) (is_leader x : Bool)
      (prefix : List Bool) (last : Option V) (key : List ℕ) (t : Bool)
      → steps (cw ∷ cws) is_leader (x ∷ prefix) last key t
        ≡ steps cws is_leader prefix
            (some (outcome_at cw is_leader key t x).0)
            (outcome_at cw is_leader key t x).1
            (outcome_at cw is_leader key t x).2
  unfolding walk
  steps_cons cw cws is_leader x prefix last key t = refl

  pub steps-nil :
      (cws : List (IdpfCorrectionWord V)) (is_leader : Bool) (last : Option V) (key : List ℕ)
      (t : Bool)
      → steps cws is_leader [] last key t ≡ (last, key, t)
  unfolding walk
  steps-nil [] is_leader last key t = refl
  steps-nil (cw ∷ cws) is_leader last key t = refl

  -- Two parties in the same state stay there ...
  pub same_states :
      (cws : List (IdpfCorrectionWord V)) (prefix : List Bool) (o0 o1 : Option V) (key : List ℕ)
      (t : Bool)
      → All (IsCorrection InRange) cws
      → ((steps cws false prefix o1 key t).1 ≡ (steps cws true prefix o0 key t).1)
        × ((steps cws false prefix o1 key t).2 ≡ (steps cws true prefix o0 key t).2)
  unfolding walk
  same_states [] prefix o0 o1 key t h = (refl, refl)
  same_states (cw ∷ cws) [] o0 o1 key t h = (refl, refl)
  same_states (cw ∷ cws) (x ∷ prefix) o0 o1 key t (h, hs) =
      let (e, e', sum) =
        children_same stream law extend_key convert_key cw key key t t x h refl refl in
      rw
        (steps_cons cw cws true x prefix o0 key t, steps_cons cw cws false x prefix o1 key t, e, e')
        (same_states cws prefix (some (outcome_at cw true key t x).0)
          (some (outcome_at cw false key t x).0) (outcome_at cw true key t x).1
          (outcome_at cw true key t x).2 hs)

  -- ... and their shares cancel.
  pub same_outputs :
      (cws : List (IdpfCorrectionWord V)) (prefix : List Bool) (o0 o1 : V) (key : List ℕ) (t : Bool)
      → All (IsCorrection InRange) cws
      → v.add o0 o1 ≡ v.zero parameter
      → (r0 : V) × (r1 : V) × ((steps cws true prefix (some o0) key t).0 ≡ some r0)
        × ((steps cws false prefix (some o1) key t).0 ≡ some r1)
        × (v.add r0 r1 ≡ v.zero parameter)
  unfolding walk
  same_outputs [] prefix o0 o1 key t h z = (o0, o1, refl, refl, z)
  same_outputs (cw ∷ cws) [] o0 o1 key t h z = (o0, o1, refl, refl, z)
  same_outputs (cw ∷ cws) (x ∷ prefix) o0 o1 key t (h, hs) z =
      let (e, e', sum) =
        children_same stream law extend_key convert_key cw key key t t x h refl refl in
      rw
        (
          steps_cons cw cws true x prefix (some o0) key t,
          steps_cons cw cws false x prefix (some o1) key t,
          e,
          e',
        )
        (same_outputs cws prefix (outcome_at cw true key t x).0 (outcome_at cw false key t x).0
          (outcome_at cw true key t x).1 (outcome_at cw true key t x).2 hs sum)
