-- ===== src/Idpf/Cache/Normalized.antt =====
-- src/idpf.rs: the comparison of the words and the length is that of the bits.
use mastic.Prelude.{
  ℕ, zero, suc, ◌≤◌, ◌≡◌, refl, ap, ◌∙◌, sym, Bool, true, false, ◌&&◌, List, [], ◌∷◌, ◌++◌, length,
  length-drop, take, drop, ◌==◌, ==_iff, arith,
}
use mastic.Idpf.BitVec.{load_le, take-drop_bits}
use mastic.Idpf.Cache.{BitSlice, raw_slice, same_slice, normalized_eq}

load_le-eq : (a b : BitSlice) → length a ≡ length b → load_le a ≡ load_le b → a ≡ b
load_le-eq [] [] h e = refl
load_le-eq [] (y ∷ b) h e = absurd (omega (arith, h))
load_le-eq (x ∷ a) [] h e = absurd (omega (arith, h))
load_le-eq (true ∷ a) (true ∷ b) h e =
    ap (λ (t : BitSlice). true ∷ t) (load_le-eq a b (omega (arith, h)) (omega (arith, e)))
load_le-eq (false ∷ a) (false ∷ b) h e =
    ap (λ (t : BitSlice). false ∷ t) (load_le-eq a b (omega (arith, h)) (omega (arith, e)))
load_le-eq (true ∷ a) (false ∷ b) h e = absurd (omega (arith, e))
load_le-eq (false ∷ a) (true ∷ b) h e = absurd (omega (arith, e))

length-take_eq :
    (n : ℕ) (a b : BitSlice) → length a ≡ length b → length (take n a) ≡ length (take n b)
length-take_eq zero a b h = refl
length-take_eq (suc n) [] [] h = refl
length-take_eq (suc n) [] (y ∷ b) h = absurd (omega (arith, h))
length-take_eq (suc n) (x ∷ a) [] h = absurd (omega (arith, h))
length-take_eq (suc n) (x ∷ a) (y ∷ b) h = ap suc (length-take_eq n a b (omega (arith, h)))

same_slice-eq : (v w : List ℕ) → same_slice v w ≡ true → v ≡ w
same_slice-eq [] [] h = refl
same_slice-eq [] (w ∷ other) h = cc
same_slice-eq (v ∷ self) [] h = cc
same_slice-eq (v ∷ self) (w ∷ other) h =
    let (first, others) = both (v == w) (same_slice self other) h in
    let same = (==_iff v w).0 first in let rest = same_slice-eq self other others in cc
  where
    both : (a b : Bool) → (a && b) ≡ true → (a ≡ true) × (b ≡ true)
    both a b h = ground arith

same_slice_refl : (v : List ℕ) → same_slice v v ≡ true
same_slice_refl [] = refl
same_slice_refl (w ∷ v) = rw ((==_iff w w).1 refl, same_slice_refl v) refl

cons-eq : {v w : ℕ} {vs ws : List ℕ} → (v ∷ vs) ≡ (w ∷ ws) → (v ≡ w) × (vs ≡ ws)
cons-eq h = (cc, cc)

raw_slice-eq :
    (fuel : ℕ) (a b : BitSlice)
    → length a ≤ fuel
    → length a ≡ length b
    → raw_slice fuel a ≡ raw_slice fuel b
    → a ≡ b
unfolding raw_slice
raw_slice-eq fuel [] [] l h e = refl
raw_slice-eq fuel [] (y ∷ b) l h e = absurd (omega (arith, h))
raw_slice-eq fuel (x ∷ a) [] l h e = absurd (omega (arith, h))
raw_slice-eq zero (x ∷ a) (y ∷ b) l h e = elim l [ ]
raw_slice-eq (suc fuel) (x ∷ a) (y ∷ b) l h e =
    let (word, words) = cons-eq e in
    let front =
      load_le-eq (take 64 (x ∷ a)) (take 64 (y ∷ b)) (length-take_eq 64 (x ∷ a) (y ∷ b) h) word in
    let back =
      raw_slice-eq fuel (drop 63 a) (drop 63 b) (omega (arith, length-drop 63 a, l))
        (omega (arith, length-drop 63 a, length-drop 63 b, h)) words in
    sym (take-drop_bits 64 (x ∷ a))
    ∙ ap (λ (t : BitSlice). t ++ drop 63 a) front
    ∙ ap (λ (t : BitSlice). take 64 (y ∷ b) ++ t) back
    ∙ take-drop_bits 64 (y ∷ b)

pub normalized_eq-eq : (a b : BitSlice) → normalized_eq a b ≡ true → a ≡ b
unfolding normalized_eq
normalized_eq-eq a b h =
    let (words, lengths) =
      both (same_slice (raw_slice (length a) a) (raw_slice (length b) b)) (length a == length b)
        h in
    let same_length = (==_iff (length a) (length b)).0 lengths in
    raw_slice-eq (length a) a b (omega arith) same_length (
      same_slice-eq (raw_slice (length a) a) (raw_slice (length b) b) words
      ∙ ap (λ (n : ℕ). raw_slice n b) (sym same_length))
  where
    both : (a b : Bool) → (a && b) ≡ true → (a ≡ true) × (b ≡ true)
    both a b h = ground arith

pub normalized_eq_refl : (a : BitSlice) → normalized_eq a a ≡ true
unfolding normalized_eq
normalized_eq_refl a =
    rw (same_slice_refl (raw_slice (length a) a), (==_iff (length a) (length a)).1 refl) refl
