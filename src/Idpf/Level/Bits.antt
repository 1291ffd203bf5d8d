-- ===== src/Idpf/Level/Bits.antt =====
-- src/idpf.rs, src/vidpf.rs: a correction word keeps the control bits of two parties different on
-- the path of the input, and makes their seeds and control bits equal beside it.
use mastic.Prelude.{ℕ, ◌≡◌, refl, ap, ◌∙◌, sym, Bool, true, false, not, ◌&&◌, List, if◌then◌else◌}
use mastic.Idpf.Seeds.{◌⊕◌, xor_seeds}
use mastic.Idpf.Seeds.Laws.{IsBytes, xor_seeds_comm, xor_seeds_cancel}

-- On the side of the input: `u0` and `u1` are the control bits before the correction.
corrected_bits_kept :
    (u0 u1 t : Bool) → (u1 ⊕ ((u0 ⊕ u1 ⊕ true) && not t)) ≡ not (u0 ⊕ ((u0 ⊕ u1 ⊕ true) && t))
corrected_bits_kept false false false = refl
corrected_bits_kept false false true = refl
corrected_bits_kept false true false = refl
corrected_bits_kept false true true = refl
corrected_bits_kept true false false = refl
corrected_bits_kept true false true = refl
corrected_bits_kept true true false = refl
corrected_bits_kept true true true = refl

-- On the other side.
corrected_bits_lost : (u0 u1 t : Bool) → (u1 ⊕ ((u0 ⊕ u1) && not t)) ≡ (u0 ⊕ ((u0 ⊕ u1) && t))
corrected_bits_lost false false false = refl
corrected_bits_lost false false true = refl
corrected_bits_lost false true false = refl
corrected_bits_lost false true true = refl
corrected_bits_lost true false false = refl
corrected_bits_lost true false true = refl
corrected_bits_lost true true false = refl
corrected_bits_lost true true true = refl

xor-false : (x : Bool) → x ⊕ false ≡ x
xor-false false = refl
xor-false true = refl

xor-twice : (x : Bool) → x ⊕ true ⊕ true ≡ x
xor-twice false = refl
xor-twice true = refl

-- The control bits of a side.
abbrev pub side {ℓ} : {A : Type ℓ} → Bool → A × A → A
side x (a, b) = if x then b else a

-- The control bits of the correction word for an input bit.
abbrev pub correction_bits : Bool → Bool × Bool → Bool × Bool → Bool × Bool
correction_bits a l r = (l.0 ⊕ r.0 ⊕ a ⊕ true, l.1 ⊕ r.1 ⊕ a)

pub bits_kept :
    (a : Bool) (l r : Bool × Bool) (t : Bool)
    → side a r ⊕ (side a (correction_bits a l r) && not t)
      ≡ not (side a l ⊕ (side a (correction_bits a l r) && t))
bits_kept false l r t = rw (xor-false (l.0 ⊕ r.0)) (corrected_bits_kept l.0 r.0 t)
bits_kept true l r t = corrected_bits_kept l.1 r.1 t

pub bits_lost :
    (a : Bool) (l r : Bool × Bool) (t : Bool)
    → side (not a) r ⊕ (side (not a) (correction_bits a l r) && not t)
      ≡ side (not a) l ⊕ (side (not a) (correction_bits a l r) && t)
bits_lost false l r t = rw (xor-false (l.1 ⊕ r.1)) (corrected_bits_lost l.1 r.1 t)
bits_lost true l r t = rw (xor-twice (l.0 ⊕ r.0)) (corrected_bits_lost l.0 r.0 t)

pub corrected_seeds_lost :
    {n : ℕ} {s0 s1 : List ℕ} (t : Bool)
    → IsBytes n s0
    → IsBytes n s1
    → (if not t then xor_seeds s1 (xor_seeds s0 s1) else s1)
      ≡ (if t then xor_seeds s0 (xor_seeds s0 s1) else s0)
corrected_seeds_lost true p q = sym (xor_seeds_cancel p q)
corrected_seeds_lost {s0 = s0} {s1 = s1} false p q =
    ap (xor_seeds s1) (xor_seeds_comm s0 s1) ∙ xor_seeds_cancel q p
