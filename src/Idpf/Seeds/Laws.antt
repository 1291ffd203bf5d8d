-- ===== src/Idpf/Seeds/Laws.antt =====
-- src/idpf.rs: the operations on seeds select, swap and cancel as their comments say.
use Prim.Native.Nat.{bit_and, bit_or, bit_xor}
use native.Mathlib.Nat.{mod-eq_of_lt}
use mastic.Prelude.{
  ℕ, zero, suc, ◌-◌, ◌%◌, ◌^◌, ◌<◌, ◌≡◌, refl, ap, ◌∙◌, arith, Bool, true, false, not, List, [],
  ◌∷◌, if◌then◌else◌,
}
use mastic.Field.Words.{as_int}
use mastic.Field.Words.Bits.{bit_and_low, bit_or_above, zero-bit_or, bit_and_comm}
use mastic.Field.Words.Xor.{bit_xor_comm, bit_xor-zero, bit_xor_cancel, bit_xor-lt}
use mastic.Idpf.Seeds.{
  zip_with, repeat, xor_seeds, and_seeds, or_seeds, control_bit_to_seed_mask, conditional_xor_seeds,
  conditional_select_seed, conditional_swap_seed,
}

-- An array of `n` bytes.
pub data IsBytes : ℕ → List ℕ → Type 0 where
  none : IsBytes zero []
  more : {n b : ℕ} {s : List ℕ} → b < 2 ^ 8 → IsBytes n s → IsBytes (suc n) (b ∷ s)

byte-xor : (a b : ℕ) → a < 2 ^ 8 → b < 2 ^ 8 → bit_xor a b < 2 ^ 8
byte-xor a b ha hb = bit_xor-lt 8 a b ha hb

xor-IsBytes : {n : ℕ} {s t : List ℕ} → IsBytes n s → IsBytes n t → IsBytes n (zip_with bit_xor s t)
xor-IsBytes none none = none
xor-IsBytes (more {b = a} ha p) (more {b = b} hb q) = more (byte-xor a b ha hb) (xor-IsBytes p q)

pub xor_seeds-IsBytes :
    {n : ℕ} {s t : List ℕ} → IsBytes n s → IsBytes n t → IsBytes n (xor_seeds s t)
unfolding xor_seeds
xor_seeds-IsBytes p q = xor-IsBytes p q

pub xor_seeds_comm : (s t : List ℕ) → xor_seeds s t ≡ xor_seeds t s
unfolding xor_seeds
xor_seeds_comm [] [] = refl
xor_seeds_comm [] (b ∷ t) = refl
xor_seeds_comm (a ∷ s) [] = refl
xor_seeds_comm (a ∷ s) (b ∷ t) = rw (bit_xor_comm a b, xor_seeds_comm s t)

-- An exclusive or undoes itself.
pub xor_seeds_cancel :
    {n : ℕ} {s t : List ℕ} → IsBytes n s → IsBytes n t → xor_seeds s (xor_seeds s t) ≡ t
unfolding xor_seeds
xor_seeds_cancel none none = refl
xor_seeds_cancel (more {b = a} ha p) (more {b = b} hb q) =
    rw (bit_xor_cancel a b, xor_seeds_cancel p q)

mask : Bool → ℕ
mask c = (2 ^ 8 - as_int c) % 2 ^ 8

and_ones : (a : ℕ) → a < 2 ^ 8 → bit_and a 255 ≡ a
and_ones a h = bit_and_low 8 a ∙ mod-eq_of_lt h

and_zeros : (a : ℕ) → bit_and a 0 ≡ 0
and_zeros a = omega (arith, bit_and_low 0 a)

or_zeros : (a : ℕ) → a < 2 ^ 8 → bit_or a 0 ≡ a
or_zeros a h = bit_or_above 8 a 0 h ∙ omega arith

xor_masked :
    {n : ℕ} {s t : List ℕ} (c : Bool)
    → IsBytes n s
    → IsBytes n t
    → zip_with bit_xor s (zip_with bit_and t (repeat n (mask c)))
      ≡ (if c then zip_with bit_xor s t else s)
unfolding mask
xor_masked true none none = refl
xor_masked false none none = refl
xor_masked true (more {b = a} ha p) (more {b = b} hb q) = rw (and_ones b hb, xor_masked true p q)
xor_masked false (more {b = a} ha p) (more {b = b} hb q) =
    rw (and_zeros b, bit_xor-zero a, xor_masked false p q)

pub conditional_xor_seeds_lem :
    {s t : List ℕ} (c : Bool)
    → IsBytes 16 s
    → IsBytes 16 t
    → conditional_xor_seeds s t c ≡ (if c then xor_seeds s t else s)
unfolding conditional_xor_seeds xor_seeds and_seeds control_bit_to_seed_mask mask
conditional_xor_seeds_lem c p q = xor_masked c p q

or_masked :
    {n : ℕ} {s t : List ℕ} (c : Bool)
    → IsBytes n s
    → IsBytes n t
    → zip_with bit_or
        (zip_with bit_and (repeat n (mask (not c))) s)
        (zip_with bit_and (repeat n (mask c)) t)
      ≡ (if c then t else s)
unfolding mask
or_masked true none none = refl
or_masked false none none = refl
or_masked true (more {b = a} ha p) (more {b = b} hb q) = rw (
  bit_and_comm 0 a,
  and_zeros a,
  bit_and_comm 255 b,
  and_ones b hb,
  zero-bit_or b,
  or_masked true p q,
)
or_masked false (more {b = a} ha p) (more {b = b} hb q) = rw (
  bit_and_comm 255 a,
  and_ones a ha,
  bit_and_comm 0 b,
  and_zeros b,
  or_zeros a ha,
  or_masked false p q,
)

pub conditional_select_seed_lem :
    {s t : List ℕ} (c : Bool)
    → IsBytes 16 s
    → IsBytes 16 t
    → conditional_select_seed c (s, t) ≡ (if c then t else s)
unfolding conditional_select_seed or_seeds and_seeds control_bit_to_seed_mask mask
conditional_select_seed_lem c p q = or_masked c p q

zip_left : {n : ℕ} {s t : List ℕ} → IsBytes n s → IsBytes n t → zip_with (λ (a b : ℕ). a) s t ≡ s
zip_left none none = refl
zip_left (more {b = a} ha p) (more hb q) = ap (λ (r : List ℕ). a ∷ r) (zip_left p q)

zip_right : {n : ℕ} {s t : List ℕ} → IsBytes n s → IsBytes n t → zip_with (λ (a b : ℕ). b) s t ≡ t
zip_right none none = refl
zip_right (more ha p) (more {b = b} hb q) = ap (λ (r : List ℕ). b ∷ r) (zip_right p q)

pub conditional_swap_seed_lem :
    {n : ℕ} {s t : List ℕ} (c : Bool)
    → IsBytes n s
    → IsBytes n t
    → conditional_swap_seed s t c ≡ (if c then (t, s) else (s, t))
unfolding conditional_swap_seed
conditional_swap_seed_lem true p q = λ i. (zip_right p q i, zip_left p q i)
conditional_swap_seed_lem false p q = λ i. (zip_left p q i, zip_right p q i)
