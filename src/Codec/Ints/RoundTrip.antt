-- ===== src/Codec/Ints/RoundTrip.antt =====
-- src/codec.rs: each integer is read back from its encoding.
use mastic.Prelude.{
  ℕ, zero, suc, ◌+◌, ◌*◌, ◌/◌, ◌%◌, ◌^◌, ◌<◌, ◌≡◌, refl, List, [], ◌∷◌, ◌++◌, ok, ok-injective, sym,
  subst, some, arith, length, ◌∙◌, ap,
}
use native.Mathlib.Nat.{div-add-mod, div-div-eq-div-mul, pow-suc, add-mul, mod-eq_of_lt}
use mastic.Codec.Cursor.{Cursor, remaining, advance, read_exact-append}
use mastic.Codec.Traits.{
  param_decode, get_decoded, get_decoded-Reads, Encode, Decode, Reads, Writes,
}
use mastic.Codec.Ints.{
  to_be_bytes, from_be_bytes, read_big_endian, ReadBytesExt, u8_decode, u8_encode, u16_decode,
  u16_encode, u24_decode, u24_encode, u32_decode, u32_encode, u64_decode, u64_encode, u8_codec,
  u16_codec, u24_codec, u32_codec, u64_codec,
}

pub length-to_be_bytes : (w v : ℕ) → length (to_be_bytes w v) ≡ w
length-to_be_bytes zero v = refl
length-to_be_bytes (suc w) v = ap suc (length-to_be_bytes w v)

-- One digit more.
mod_step : (m v : ℕ) → v % (m * 256) ≡ v / m % 256 * m + v % m
mod_step m v = omega (
  arith,
  div-add-mod v (m * 256),
  ap (λ (t : ℕ). m * 256 * t) (div-div-eq-div-mul v m 256),
  div-add-mod v m,
  ap (λ (t : ℕ). m * t) (div-add-mod (v / m) 256),
)

pub from_be_bytes-to_be_bytes :
    (w acc v : ℕ) → from_be_bytes acc (to_be_bytes w v) ≡ acc * 256 ^ w + v % 256 ^ w
from_be_bytes-to_be_bytes zero acc v = omega arith
from_be_bytes-to_be_bytes (suc w) acc v =
    rw
      (
        from_be_bytes-to_be_bytes w (acc * 256 + v / 256 ^ w % 256) v,
        pow-suc 256 w,
        mod_step (256 ^ w) v,
        add-mul (acc * 256) (v / 256 ^ w % 256) (256 ^ w),
      )
      (omega arith)

-- What `w` bytes hold, read by `byteorder` off the front of what remains.
read_big_endian-Reads :
    (w v : ℕ) (c : Cursor) (rest : List ℕ)
    → v < 256 ^ w
    → remaining c ≡ to_be_bytes w v ++ rest
    → read_big_endian w c ≡ ok (v, advance c (length (to_be_bytes w v)))
read_big_endian-Reads w v c rest fits h =
    let value : from_be_bytes 0 (to_be_bytes w v) ≡ v =
      omega (arith, from_be_bytes-to_be_bytes w 0 v, mod-eq_of_lt fits) in
    let read = rw (length-to_be_bytes w v) at (read_exact-append c (to_be_bytes w v) rest h) in
    rw (read, value, length-to_be_bytes w v)

-- A byte is read back, and a decoder takes nothing else off the input.
pub u8_decode-Reads : (v : ℕ) → Reads u8_decode (v ∷ []) v
unfolding u8_decode
u8_decode-Reads v c rest valid h = rw (read_exact-append c (v ∷ []) rest h)

pub u8_encode-Writes : (v : ℕ) → Writes u8_encode v (v ∷ [])
unfolding u8_encode
u8_encode-Writes v bytes = refl

module _ ⦃byteorder : ReadBytesExt⦄ where
  pub u16_decode-Reads : (v : ℕ) → v < 2 ^ 16 → Reads u16_decode (to_be_bytes 2 v) v
  unfolding u16_decode
  u16_decode-Reads v fits c rest valid h =
      rw (byteorder.read_u16_lem c, read_big_endian-Reads 2 v c rest fits h)

  pub u24_decode-Reads : (v : ℕ) → v < 2 ^ 24 → Reads u24_decode (to_be_bytes 3 v) v
  unfolding u24_decode
  u24_decode-Reads v fits c rest valid h =
      rw (byteorder.read_u24_lem c, read_big_endian-Reads 3 v c rest fits h)

  pub u32_decode-Reads : (v : ℕ) → v < 2 ^ 32 → Reads u32_decode (to_be_bytes 4 v) v
  unfolding u32_decode
  u32_decode-Reads v fits c rest valid h =
      rw (byteorder.read_u32_lem c, read_big_endian-Reads 4 v c rest fits h)

  pub u64_decode-Reads : (v : ℕ) → v < 2 ^ 64 → Reads u64_decode (to_be_bytes 8 v) v
  unfolding u64_decode
  u64_decode-Reads v fits c rest valid h =
      rw (byteorder.read_u64_lem c, read_big_endian-Reads 8 v c rest fits h)

-- The integer types with a codec.
pub data IntType : Type 0 where
  u8 u16 u24 u32 u64 : IntType

abbrev pub bytes_of : IntType → ℕ
bytes_of u8 = 1
bytes_of u16 = 2
bytes_of u24 = 3
bytes_of u32 = 4
bytes_of u64 = 8

abbrev pub codec_of : IntType → Encode ℕ
codec_of u8 = u8_codec
codec_of u16 = u16_codec
codec_of u24 = u24_codec
codec_of u32 = u32_codec
codec_of u64 = u64_codec

abbrev pub decoder_of : ⦃byteorder : ReadBytesExt⦄ → IntType → Decode ℕ
decoder_of u8 = record { decode = u8_decode }
decoder_of u16 = record { decode = u16_decode }
decoder_of u24 = record { decode = u24_decode }
decoder_of u32 = record { decode = u32_decode }
decoder_of u64 = record { decode = u64_decode }

int_encode-to_be_bytes :
    (t : IntType) (v : ℕ)
    → v < 256 ^ bytes_of t
    → (codec_of t).encode v [] ≡ ok (to_be_bytes (bytes_of t) v)
unfolding u8_encode u16_encode u24_encode u32_encode u64_encode
int_encode-to_be_bytes u8 v h = ap (λ (b : ℕ). ok (b ∷ [])) (omega arith)
int_encode-to_be_bytes u16 v h = refl
int_encode-to_be_bytes u24 v h = refl
int_encode-to_be_bytes u32 v h = refl
int_encode-to_be_bytes u64 v h = refl

module _ ⦃byteorder : ReadBytesExt⦄ where
  int_decode-Reads :
      (t : IntType) (v : ℕ)
      → v < 256 ^ bytes_of t
      → Reads (decoder_of t).decode (to_be_bytes (bytes_of t) v) v
  int_decode-Reads u8 v h =
      subst (λ (b : ℕ). Reads u8_decode (b ∷ []) v) (omega arith) (u8_decode-Reads v)
  int_decode-Reads u16 v h = u16_decode-Reads v h
  int_decode-Reads u24 v h = u24_decode-Reads v h
  int_decode-Reads u32 v h = u32_decode-Reads v h
  int_decode-Reads u64 v h = u64_decode-Reads v h

  int_len : (t : IntType) (v : ℕ) → (codec_of t).encoded_len v ≡ some (bytes_of t)
  int_len u8 v = refl
  int_len u16 v = refl
  int_len u24 v = refl
  int_len u32 v = refl
  int_len u64 v = refl

  int_bytes_fit : (t : IntType) → bytes_of t < 2 ^ 63
  int_bytes_fit u8 = omega arith
  int_bytes_fit u16 = omega arith
  int_bytes_fit u24 = omega arith
  int_bytes_fit u32 = omega arith
  int_bytes_fit u64 = omega arith

  -- An integer that fits its type (24 bits for `U24`) is read back from its encoding, which has the
  -- announced length.
  pub get_decoded-int_encode :
      (t : IntType) (v : ℕ) (bytes : List ℕ)
      → v < 256 ^ bytes_of t
      → (codec_of t).encode v [] ≡ ok bytes
      → (get_decoded (decoder_of t) bytes ≡ ok v)
        × ((codec_of t).encoded_len v ≡ some (length bytes))
  unfolding get_decoded
  get_decoded-int_encode t v bytes fits h =
      let enc = to_be_bytes (bytes_of t) v in
      let written : bytes ≡ enc = ok-injective (sym h ∙ int_encode-to_be_bytes t v fits) in
      let size = length-to_be_bytes (bytes_of t) v in
      (
        rw written (
            get_decoded-Reads (param_decode {P = Unit {0}} (decoder_of t)) tt enc v
              (rw size (int_bytes_fit t)) (int_decode-Reads t v fits)),
        rw (written, size) (int_len t v),
      )
