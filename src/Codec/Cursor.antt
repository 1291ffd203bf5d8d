-- ===== src/Codec/Cursor.antt =====
-- src/codec.rs: the errors, and what the code uses of `std::io::Cursor` over a byte slice.
use mastic.Prelude.{
  ℕ, zero, suc, ◌+◌, ◌-◌, ◌≤◌, ◌<◌, ◌≡◌, List, [], ◌∷◌, ◌++◌, leb, length, take, drop,
  if◌then◌else◌, Result, ok, err, panic, arith, take-append_left, drop-append_left, drop-drop,
  length-append, le→leb, length-drop, ap, ◌^◌,
}

-- The one kind of `std::io::Error` that reading from a slice gives.
pub data IoError : Type 0 where
  unexpected_eof : IoError

-- The errors that the modelled code boxes into `Other`, a VdafError without what it holds.
pub data OtherError : Type 0 where
  try_from_int vdaf_error : OtherError

pub data CodecError : Type 0 where
  io : IoError → CodecError
  bytes_left_over : ℕ → CodecError
  length_prefix_too_big : ℕ → CodecError
  length_prefix_overflow : CodecError
  other : OtherError → CodecError
  unexpected_value : CodecError

-- `Cursor<&[u8]>`: a slice and a position, which may lie behind the end.
pub record Cursor : Type 0 where
  pub inner : List ℕ
  pub position : ℕ

-- The position lies in the slice or at its end; a slice has at most `isize::MAX` bytes.
pub record IsValid (c : Cursor) : Type 0 where
  pub in_slice : c.position ≤ length c.inner
  pub fits : length c.inner < 2 ^ 63

abbrev pub new_cursor : List ℕ → Cursor
new_cursor bytes = record { inner = bytes; position = 0 }

abbrev pub remaining : Cursor → List ℕ
remaining c = drop c.position c.inner

abbrev pub advance : Cursor → ℕ → Cursor
advance c n = record c { position = c.position + n }

-- `Read::read_exact` into a buffer of `n` bytes.
unfoldable pub read_exact : ℕ → Cursor → Result IoError (List ℕ × Cursor)
read_exact n c =
    if leb n (length (remaining c))
    then ok (take n (remaining c), advance c n)
    else err unexpected_eof

-- An index expression `xs[i]`, and `a - b` on `usize` with overflow checks.
abbrev pub index {ℓ κ} : {E : Type ℓ} {A : Type κ} → List A → ℕ → Result E A
index [] i = panic
index (x ∷ xs) zero = ok x
index (x ∷ xs) (suc i) = index xs i

abbrev pub sub_usize {ℓ} : {E : Type ℓ} → ℕ → ℕ → Result E ℕ
sub_usize a b = if leb b a then ok (a - b) else panic

pub remaining-advance :
    (c : Cursor) (front rest : List ℕ)
    → remaining c ≡ front ++ rest
    → remaining (advance c (length front)) ≡ rest
remaining-advance c front rest h =
    rw (← drop-drop c.position (length front) c.inner, h) (drop-append_left front rest)

pub advance-IsValid :
    (c : Cursor) (front rest : List ℕ)
    → remaining c ≡ front ++ rest
    → IsValid c
    → IsValid (advance c (length front))
advance-IsValid c front rest h v = omega (
  arith,
  length-drop c.position c.inner,
  ap (λ (t : List ℕ). length t) h,
  length-append front rest,
)

pub read_exact-append :
    (c : Cursor) (front rest : List ℕ)
    → remaining c ≡ front ++ rest
    → read_exact (length front) c ≡ ok (front, advance c (length front))
unfolding read_exact
read_exact-append c front rest h = rw (
  h,
  le→leb (length front) (length (front ++ rest)) (omega (arith, length-append front rest)),
  take-append_left front rest,
)

-- A successful read of `n` bytes leaves the slice alone and moves on by `n`, within the slice.
pub read_exact_moves :
    (n : ℕ) (c c' : Cursor) (bytes : List ℕ)
    → read_exact n c ≡ ok (bytes, c')
    → (c' ≡ advance c n) × (bytes ≡ take n (remaining c)) × (n ≤ length (remaining c))
unfolding read_exact
read_exact_moves n c c' bytes h = ground arith
