-- ===== src/Codec/Ints.antt =====
-- src/codec.rs: the implementations of `Encode` and `Decode` for `()` and the unsigned integers.
-- `byteorder`, which reads the wider ones, is an instance argument.
pub mod RoundTrip
pub mod Total
use mastic.Prelude.{
  ℕ, zero, suc, ◌+◌, ◌*◌, ◌/◌, ◌%◌, ◌^◌, ◌<◌, ◌≡◌, refl, List, [], ◌∷◌, ◌++◌, Option, some, Result,
  ok, ◌>>=◌, map_err, drop,
}
use mastic.Codec.Cursor.{CodecError, io, IoError, Cursor, read_exact, index}
use mastic.Codec.Traits.{Encoder, Decoder, Encode, Decode}

-- The `w` big-endian bytes of `v`, and the number that bytes stand for, behind `acc`.
abbrev pub to_be_bytes : ℕ → ℕ → List ℕ
to_be_bytes zero v = []
to_be_bytes (suc w) v = (v / 256 ^ w % 256) ∷ to_be_bytes w v

abbrev pub from_be_bytes : ℕ → List ℕ → ℕ
from_be_bytes acc [] = acc
from_be_bytes acc (b ∷ bs) = from_be_bytes (acc * 256 + b) bs

abbrev pub read_big_endian : ℕ → Cursor → Result IoError (ℕ × Cursor)
read_big_endian w c = do (bytes, c') ← read_exact w c; ok (from_be_bytes 0 bytes, c')

-- `byteorder::ReadBytesExt` at `BigEndian`. Its documentation: each method reads an unsigned
-- big-endian integer of that many bits, with the errors of `Read::read_exact`.
pub record ReadBytesExt : Type 0 where
  pub read_u16 : Cursor → Result IoError (ℕ × Cursor)
  pub read_u24 : Cursor → Result IoError (ℕ × Cursor)
  pub read_u32 : Cursor → Result IoError (ℕ × Cursor)
  pub read_u64 : Cursor → Result IoError (ℕ × Cursor)
  pub read_u16_lem : (c : Cursor) → read_u16 c ≡ read_big_endian 2 c
  pub read_u24_lem : (c : Cursor) → read_u24 c ≡ read_big_endian 3 c
  pub read_u32_lem : (c : Cursor) → read_u32 c ≡ read_big_endian 4 c
  pub read_u64_lem : (c : Cursor) → read_u64 c ≡ read_big_endian 8 c

unfoldable pub unit_decode : Decoder (Unit {0})
unit_decode c = ok (tt, c)

unfoldable pub unit_encode : Encoder (Unit {0})
unit_encode value bytes = ok bytes

unfoldable pub u8_decode : Decoder ℕ
u8_decode c = do (value, c') ← map_err io (read_exact 1 c); v ← index value 0; ok (v, c')

unfoldable pub u8_encode : Encoder ℕ
u8_encode value bytes = ok (bytes ++ (value ∷ []))

unfoldable pub u16_encode : Encoder ℕ
u16_encode value bytes = ok (bytes ++ to_be_bytes 2 value)

-- A `U24` is the `u32` that it wraps.
unfoldable pub u24_encode : Encoder ℕ
u24_encode value bytes = ok (bytes ++ drop 1 (to_be_bytes 4 value))

unfoldable pub u32_encode : Encoder ℕ
u32_encode value bytes = ok (bytes ++ to_be_bytes 4 value)

unfoldable pub u64_encode : Encoder ℕ
u64_encode value bytes = ok (bytes ++ to_be_bytes 8 value)

module _ ⦃byteorder : ReadBytesExt⦄ where
  unfoldable pub u16_decode : Decoder ℕ
  u16_decode c = map_err io (byteorder.read_u16 c)

  unfoldable pub u24_decode : Decoder ℕ
  u24_decode c = map_err io (byteorder.read_u24 c)

  unfoldable pub u32_decode : Decoder ℕ
  u32_decode c = map_err io (byteorder.read_u32 c)

  unfoldable pub u64_decode : Decoder ℕ
  u64_decode c = map_err io (byteorder.read_u64 c)

abbrev pub unit_codec : Encode (Unit {0})
unit_codec = record { encode = unit_encode; encoded_len = λ _. some 0 }

abbrev pub u8_codec : Encode ℕ
u8_codec = record { encode = u8_encode; encoded_len = λ _. some 1 }

abbrev pub u16_codec : Encode ℕ
u16_codec = record { encode = u16_encode; encoded_len = λ _. some 2 }

abbrev pub u24_codec : Encode ℕ
u24_codec = record { encode = u24_encode; encoded_len = λ _. some 3 }

abbrev pub u32_codec : Encode ℕ
u32_codec = record { encode = u32_encode; encoded_len = λ _. some 4 }

abbrev pub u64_codec : Encode ℕ
u64_codec = record { encode = u64_encode; encoded_len = λ _. some 8 }
