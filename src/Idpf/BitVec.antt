-- ===== src/Idpf/BitVec.antt =====
-- The bit vectors of the crate bitvec in memory, from the least significant bit of a byte on, for
-- src/vidpf.rs and src/vdaf/poplar1.rs.
use native.Mathlib.Nat.{pow-suc}
use mastic.Prelude.{
  ℕ, zero, suc, ◌+◌, ◌-◌, ◌*◌, ◌/◌, ◌%◌, ◌^◌, ◌≤◌, ◌<◌, ◌≡◌, refl, ap, ◌∙◌, sym, Bool, true, false,
  List, [], ◌∷◌, ◌++◌, append-nil, append_assoc, length, length-append, subst, Bool-cases, inl, inr,
  leb, leb→le, take, drop, length-drop, length-take, ◌==◌, arith,
}
use mastic.Field.Words.{as_int}
use mastic.Idpf.Seeds.{repeat}

-- `load_le`: the number of the bits, the first being the least significant.
abbrev pub load_le : List Bool → ℕ
load_le [] = 0
load_le (bit ∷ bits) = as_int bit + 2 * load_le bits

-- The lowest `n` bits of a number.
abbrev pub bits_of : ℕ → ℕ → List Bool
bits_of zero x = []
bits_of (suc n) x = (x % 2 == 1) ∷ bits_of n (x / 2)

-- `collect::<BitVec<u8, Lsb0>>()` and `into_vec()`, the bits of the last byte that are not used
-- being zero: a byte takes a bit at least, so that the number of bits is enough fuel.
unfoldable pub into_vec : ℕ → List Bool → List ℕ
into_vec zero bits = []
into_vec (suc fuel) [] = []
into_vec (suc fuel) (bit ∷ bits) = load_le (take 8 (bit ∷ bits)) ∷ into_vec fuel (drop 7 bits)

-- `BitVec::<u8, Lsb0>::from_vec`.
unfoldable pub from_vec : List ℕ → List Bool
from_vec [] = []
from_vec (byte ∷ bytes) = bits_of 8 byte ++ from_vec bytes

pub load_le-lt : (bits : List Bool) → load_le bits < 2 ^ length bits
load_le-lt [] = omega arith
load_le-lt (true ∷ bits) = omega (arith, load_le-lt bits, pow-suc 2 (length bits))
load_le-lt (false ∷ bits) = omega (arith, load_le-lt bits, pow-suc 2 (length bits))

bits_of-zero : (n : ℕ) → bits_of n 0 ≡ repeat n false
bits_of-zero zero = refl
bits_of-zero (suc n) = ap (λ (r : List Bool). false ∷ r) (bits_of-zero n)

-- The bits of a number that was loaded, filled up with zeros.
bits_of-load_le :
    (n k : ℕ) (bits : List Bool)
    → length bits + k ≡ n
    → bits_of n (load_le bits) ≡ bits ++ repeat k false
bits_of-load_le n k [] h = bits_of-zero n ∙ ap (λ (m : ℕ). repeat m false) (omega (arith, h))
bits_of-load_le zero k (bit ∷ bits) h = absurd (omega (arith, h))
bits_of-load_le (suc n) k (true ∷ bits) h =
    rw (odd (load_le bits), half (load_le bits), bits_of-load_le n k bits (omega (arith, h))) refl
  where
    odd : (x : ℕ) → ((1 + 2 * x) % 2 == 1) ≡ true
    odd x = ground arith

    half : (x : ℕ) → (1 + 2 * x) / 2 ≡ x
    half x = omega arith
bits_of-load_le (suc n) k (false ∷ bits) h =
    rw (even (load_le bits), half (load_le bits), bits_of-load_le n k bits (omega (arith, h))) refl
  where
    even : (x : ℕ) → ((0 + 2 * x) % 2 == 1) ≡ false
    even x = ground arith

    half : (x : ℕ) → (0 + 2 * x) / 2 ≡ x
    half x = omega arith

into_vec-nil : (fuel : ℕ) → into_vec fuel [] ≡ []
unfolding into_vec
into_vec-nil zero = refl
into_vec-nil (suc fuel) = refl

take-all : (n : ℕ) (bits : List Bool) → length bits ≤ n → take n bits ≡ bits
take-all zero [] h = refl
take-all zero (b ∷ bits) h = elim h [ ]
take-all (suc n) [] h = refl
take-all (suc n) (b ∷ bits) h = rw (take-all n bits (omega (arith, h)))

drop-all_bits : (n : ℕ) (bits : List Bool) → length bits ≤ n → drop n bits ≡ []
drop-all_bits zero [] h = refl
drop-all_bits zero (b ∷ bits) h = elim h [ ]
drop-all_bits (suc n) [] h = refl
drop-all_bits (suc n) (b ∷ bits) h = drop-all_bits n bits (omega (arith, h))

pub take-drop_bits : (n : ℕ) (bits : List Bool) → take n bits ++ drop n bits ≡ bits
take-drop_bits zero bits = refl
take-drop_bits (suc n) [] = refl
take-drop_bits (suc n) (b ∷ bits) = rw (take-drop_bits n bits)

-- The highest `k` bits of the last byte are zero.
abbrev pub TopClear : ℕ → List ℕ → Type 0
TopClear k [] = Unit {0}
TopClear k (byte ∷ []) = byte < 2 ^ (8 - k)
TopClear k (byte ∷ (next ∷ bytes)) = TopClear k (next ∷ bytes)

-- The bytes of a bit vector: `k` zeros fill the last byte, whose other bits come first.
pub record IsPacked (bits : List Bool) (bytes : List ℕ) : Type 0 where
  pub k : ℕ
  pub k_small : k < 8
  pub unpacked : from_vec bytes ≡ bits ++ repeat k false
  pub size : length bytes * 8 ≡ length bits + k
  pub top : TopClear k bytes

short_byte :
    (bits : List Bool) → 1 ≤ length bits → length bits ≤ 8 → IsPacked bits (load_le bits ∷ [])
unfolding from_vec
short_byte bits h l = record {
  k = 8 - length bits;
  k_small = omega (arith, h, l);
  unpacked =
      append-nil (bits_of 8 (load_le bits))
      ∙ bits_of-load_le 8 (8 - length bits) bits (omega (arith, l));
  size = omega (arith, l);
  top = subst (λ (n : ℕ). load_le bits < 2 ^ n) (omega (arith, l)) (load_le-lt bits);
}

under_full :
    (chunk bits : List Bool) (bytes : List ℕ) (k : ℕ)
    → length chunk ≡ 8
    → length bytes * 8 ≡ length bits + k
    → TopClear k bytes
    → TopClear k (load_le chunk ∷ bytes)
under_full chunk bits [] k h size top =
    subst (λ (n : ℕ). load_le chunk < 2 ^ n) (omega (arith, h, size)) (load_le-lt chunk)
under_full chunk bits (byte ∷ bytes) k h size top = top

full_byte :
    (chunk bits : List Bool) (bytes : List ℕ)
    → length chunk ≡ 8
    → IsPacked bits bytes
    → IsPacked (chunk ++ bits) (load_le chunk ∷ bytes)
unfolding from_vec
full_byte chunk bits bytes h p = record {
  k = p.k;
  k_small = p.k_small;
  unpacked =
      ap (λ (r : List Bool). r ++ from_vec bytes)
        (bits_of-load_le 8 0 chunk (omega (arith, h)) ∙ append-nil chunk)
      ∙ ap (λ (r : List Bool). chunk ++ r) p.unpacked
      ∙ sym (append_assoc chunk bits (repeat p.k false));
  size = omega (arith, p.size, h, length-append chunk bits);
  top = under_full chunk bits bytes p.k h p.size p.top;
}

pub into_vec-IsPacked :
    (fuel : ℕ) (bits : List Bool) → length bits ≤ fuel → IsPacked bits (into_vec fuel bits)
unfolding into_vec from_vec
into_vec-IsPacked zero [] h = record {
  k = 0;
  k_small = omega arith;
  unpacked = refl;
  size = refl;
  top = tt;
}
into_vec-IsPacked zero (b ∷ bits) h = elim h [ ]
into_vec-IsPacked (suc fuel) [] h = record {
  k = 0;
  k_small = omega arith;
  unpacked = refl;
  size = refl;
  top = tt;
}
into_vec-IsPacked (suc fuel) (b ∷ bits) h = elim (Bool-cases (leb (length bits) 7)) [
  | inl e ↦
      let short = leb→le (length bits) 7 e in
      rw (drop-all_bits 7 bits short, into_vec-nil fuel, take-all 7 bits short)
        (short_byte (b ∷ bits) (omega arith) (omega (arith, short)))
  | inr e ↦
      let long = more (length bits) e in
      subst
        (λ (t : List Bool). IsPacked t (load_le (take 8 (b ∷ bits)) ∷ into_vec fuel (drop 7 bits)))
        (take-drop_bits 8 (b ∷ bits))
        (full_byte (take 8 (b ∷ bits)) (drop 7 bits) (into_vec fuel (drop 7 bits))
          (length-take 8 (b ∷ bits) (omega (arith, long)))
          (into_vec-IsPacked fuel (drop 7 bits) (omega (arith, length-drop 7 bits, h))))
]
  where
    more : (n : ℕ) → leb n 7 ≡ false → 8 ≤ n
    more n e = ground arith
