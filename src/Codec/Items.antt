-- ===== src/Codec/Items.antt =====
-- src/codec.rs: variable-length vectors behind a length prefix.
pub mod Encode
pub mod Decode
pub mod RoundTrip
use mastic.Prelude.{
  ℕ, zero, suc, ◌+◌, ◌-◌, ◌%◌, ◌^◌, List, [], ◌∷◌, ◌++◌, ◌||◌, ltb, leb, length, take, drop,
  write_at, if◌then◌else◌, Result, ok, err, panic, stuck, ◌>>=◌,
}
use mastic.Codec.Cursor.{
  CodecError, length_prefix_too_big, length_prefix_overflow, other, try_from_int, Cursor,
  new_cursor, sub_usize,
}
use mastic.Codec.Traits.{Encoder, Decoder, ParameterizedEncode, ParameterizedDecode}
use mastic.Codec.Ints.{
  to_be_bytes, ReadBytesExt, u8_decode, u16_decode, u24_decode, u32_decode, u16_encode, u24_encode,
  u32_encode,
}

-- `TryFrom` between unsigned integers, into one of `bits` bits.
abbrev pub try_from : ℕ → ℕ → CodecError → Result CodecError ℕ
try_from bits n e = if ltb n (2 ^ bits) then ok n else err e

module _ {ℓ κ} {P : Type ℓ} {A : Type κ} where
  -- The loop over the items that the four encoders share.
  unfoldable pub encode_each :
      ParameterizedEncode P A → P → List A → List ℕ → Result CodecError (List ℕ)
  encode_each e param [] bytes = ok bytes
  encode_each e param (item ∷ items) bytes = do
    bytes' ← e.encode_with_param param item bytes
    encode_each e param items bytes'

  -- A write at `len_offset` is in range: the subtraction before it has succeeded.
  unfoldable pub encode_u8_items : ParameterizedEncode P A → P → Encoder (List A)
  encode_u8_items e param items bytes = do
    let len_offset = length bytes
    bytes' ← encode_each e param items (bytes ++ (0 ∷ []))
    added ← sub_usize (length bytes') len_offset
    body ← sub_usize added 1
    len ← try_from 8 body length_prefix_overflow
    ok (write_at bytes' len_offset (len ∷ []))

  unfoldable pub encode_u16_items : ParameterizedEncode P A → P → Encoder (List A)
  encode_u16_items e param items bytes = do
    let len_offset = length bytes
    reserved ← u16_encode 0 bytes
    bytes' ← encode_each e param items reserved
    added ← sub_usize (length bytes') len_offset
    body ← sub_usize added 2
    len ← try_from 16 body length_prefix_overflow
    ok (write_at bytes' len_offset (to_be_bytes 2 len))

  unfoldable pub encode_u24_items : ParameterizedEncode P A → P → Encoder (List A)
  encode_u24_items e param items bytes = do
    let len_offset = length bytes
    reserved ← u24_encode 0 bytes
    bytes' ← encode_each e param items reserved
    added ← sub_usize (length bytes') len_offset
    body ← sub_usize added 3
    len ← try_from 32 body length_prefix_overflow
    if ltb 0xffffff len
        then err length_prefix_overflow
        else ok (write_at bytes' len_offset (drop 1 (to_be_bytes 4 len)))

  unfoldable pub encode_u32_items : ParameterizedEncode P A → P → Encoder (List A)
  encode_u32_items e param items bytes = do
    let len_offset = length bytes
    reserved ← u32_encode 0 bytes
    bytes' ← encode_each e param items reserved
    added ← sub_usize (length bytes') len_offset
    body ← sub_usize added 4
    len ← try_from 32 body length_prefix_overflow
    ok (write_at bytes' len_offset (to_be_bytes 4 len))

  -- `while sub.position() < length`, on fuel.
  unfoldable pub decode_loop :
      ParameterizedDecode P A → P → ℕ → ℕ → List A → Cursor → Result CodecError (List A × Cursor)
  decode_loop d param len zero decoded sub = stuck
  decode_loop d param len (suc fuel) decoded sub =
      let more = do
        (item, sub') ← d.decode_with_param param sub
        decode_loop d param len fuel (decoded ++ (item ∷ [])) sub'
      in if ltb sub.position len then more else ok (decoded, sub)

  -- A round takes a byte at least, so `len` rounds and the last test are enough.
  unfoldable pub decode_items : ParameterizedDecode P A → ℕ → P → Decoder (List A)
  decode_items d len param bytes =
      let initial_position = bytes.position in
      let items_end = (initial_position + len) % 2 ^ 64 in
      let overflowed = leb (2 ^ 64) (initial_position + len) in
      let items = take (items_end - initial_position) (drop initial_position bytes.inner) in
      let rest = do
        (decoded, sub) ← decode_loop d param len (suc len) [] (new_cursor items)
        ok (decoded, record bytes { position = initial_position + sub.position })
      in if overflowed || ltb (length bytes.inner) items_end
        then err (length_prefix_too_big len)
        else rest

  unfoldable pub decode_u8_items : ParameterizedDecode P A → P → Decoder (List A)
  decode_u8_items d param bytes = do
    (len, bytes') ← u8_decode bytes
    decode_items d len param bytes'

  module _ ⦃byteorder : ReadBytesExt⦄ where
    unfoldable pub decode_u16_items : ParameterizedDecode P A → P → Decoder (List A)
    decode_u16_items d param bytes = do
      (len, bytes') ← u16_decode bytes
      decode_items d len param bytes'

    unfoldable pub decode_u24_items : ParameterizedDecode P A → P → Decoder (List A)
    decode_u24_items d param bytes = do
      (len, bytes') ← u24_decode bytes
      decode_items d len param bytes'

    -- A `u32` is converted to a `usize` of 64 bits.
    unfoldable pub decode_u32_items : ParameterizedDecode P A → P → Decoder (List A)
    decode_u32_items d param bytes = do
      (value, bytes') ← u32_decode bytes
      len ← try_from 64 value (other try_from_int)
      decode_items d len param bytes'
