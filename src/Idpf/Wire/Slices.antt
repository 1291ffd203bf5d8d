-- ===== src/Idpf/Wire/Slices.antt =====
-- src/idpf.rs: what the decoder takes of the unpacked control bits.
use mastic.Prelude.{
  ℕ, zero, suc, ◌+◌, ◌-◌, ◌*◌, ◌≤◌, ◌≡◌, refl, ap, ◌∙◌, sym, subst, Bool, false, List, [], ◌∷◌,
  ◌++◌, append_assoc, length, length-append, take-append_left, drop-append_left, Result, ok, le→leb,
  arith,
}
use mastic.Codec.Cursor.{CodecError, index, sub_usize}
use mastic.Idpf.Seeds.{repeat}
use mastic.Idpf.Tree.{slice_from}
use mastic.Idpf.Wire.{any, slice_to}

pub index-append :
    (front back : List Bool) (bit : Bool) (j : ℕ)
    → length front ≡ j
    → ◌≡◌ {A = Result CodecError Bool} (index (front ++ (bit ∷ back)) j) (ok bit)
index-append [] back bit zero h = refl
index-append [] back bit (suc j) h = absurd (omega (arith, h))
index-append (b ∷ front) back bit zero h = absurd (omega (arith, h))
index-append (b ∷ front) back bit (suc j) h = index-append front back bit j (omega (arith, h))

pub slice_to-append :
    (front back : List Bool) (j : ℕ) → length front ≡ j → slice_to (front ++ back) j ≡ ok front
slice_to-append front back j h =
    subst (λ (n : ℕ). slice_to (front ++ back) n ≡ ok front) h
      (rw
        (
          le→leb (length front) (length (front ++ back)) (omega (arith, length-append front back)),
          take-append_left front back,
        )
        refl)

slice_from-append :
    (front back : List Bool) (j : ℕ)
    → length front ≡ j
    → ◌≡◌ {A = Result CodecError (List Bool)} (slice_from (front ++ back) j) (ok back)
slice_from-append front back j h =
    subst
      (λ (n : ℕ). ◌≡◌ {A = Result CodecError (List Bool)} (slice_from (front ++ back) n) (ok back))
      h
      (rw
        (
          le→leb (length front) (length (front ++ back)) (omega (arith, length-append front back)),
          drop-append_left front back,
        )
        refl)

pub any-repeat : (k : ℕ) → any (repeat k false) ≡ false
any-repeat zero = refl
any-repeat (suc k) = any-repeat k

-- What is read of the control bits: those of the inner words, the two of the leaf, and zeros.
module _ (front : List Bool) (bit next : Bool) (k levels : ℕ) (h : length front ≡ levels * 2) where
  abbrev pub unpacked : List Bool
  unpacked = front ++ (bit ∷ (next ∷ repeat k false))

  pub next_bit : ◌≡◌ {A = Result CodecError Bool} (index unpacked ((levels + 1) * 2 - 1)) (ok next)
  next_bit =
      ap (λ (bits : List Bool). index {E = CodecError} bits ((levels + 1) * 2 - 1))
        (sym (append_assoc front (bit ∷ []) (next ∷ repeat k false)))
      ∙ index-append (front ++ (bit ∷ [])) (repeat k false) next ((levels + 1) * 2 - 1)
          (omega (arith, h, length-append front (bit ∷ [])))

  pub unused_bits :
      ◌≡◌ {A = Result CodecError (List Bool)}
        (slice_from unpacked ((levels + 1) * 2))
        (ok (repeat k false))
  unused_bits =
      ap (λ (bits : List Bool). slice_from {E = CodecError} bits ((levels + 1) * 2))
        (sym (append_assoc front (bit ∷ (next ∷ [])) (repeat k false)))
      ∙ slice_from-append (front ++ (bit ∷ (next ∷ []))) (repeat k false) ((levels + 1) * 2)
          (omega (arith, h, length-append front (bit ∷ (next ∷ []))))

pub less_one : (n : ℕ) → 1 ≤ n → ◌≡◌ {A = Result CodecError ℕ} (sub_usize n 1) (ok (n - 1))
less_one n h = rw (le→leb 1 n h) refl
