-- ===== src/Codec/Examples.antt =====
-- src/codec.rs: runs, and the theorems at concrete inputs.
use mastic.Prelude.{
  ℕ, ◌+◌, ◌≤◌, ◌≡◌, ◌≢◌, refl, List, [], ◌∷◌, All, some, ok, err, stuck, arith, write_at,
}
use mastic.Codec.Cursor.{length_prefix_too_big, new_cursor, read_exact}
use mastic.Codec.Traits.{
  ParameterizedDecode, param_encode, param_decode, get_decoded, get_decoded_with_param,
}
use mastic.Codec.Ints.{
  ReadBytesExt, read_big_endian, u8_encode, u8_decode, u8_codec, u16_encode, u16_decode, u24_encode,
}
use mastic.Codec.Ints.RoundTrip.{
  u24, codec_of, decoder_of, get_decoded-int_encode, u8_decode-Reads, u8_encode-Writes,
}
use mastic.Codec.Ints.Total.{u8_decode-Consumes, u8_decode-ne-stuck}
use mastic.Codec.Items.{encode_u16_items, decode_u16_items, decode_items, decode_loop, encode_each}
use mastic.Codec.Items.Encode.{WritesItem}
use mastic.Codec.Items.Decode.{ReadsItem, decode_items_exact}
use mastic.Codec.Items.RoundTrip.{
  u16, encoder, decoder, encoder-eq-prefixed, get_decoded-encoder, decoder-ne-stuck,
}

-- A reader that does what the documentation of `byteorder` says.
instance abbrev pub big_endian : ReadBytesExt
big_endian = record {
  read_u16 = λ c. read_big_endian 2 c;
  read_u24 = λ c. read_big_endian 3 c;
  read_u32 = λ c. read_big_endian 4 c;
  read_u64 = λ c. read_big_endian 8 c;
  read_u16_lem = λ c. refl;
  read_u24_lem = λ c. refl;
  read_u32_lem = λ c. refl;
  read_u64_lem = λ c. refl;
}

abbrev byte : ParameterizedDecode (Unit {0}) ℕ
byte = param_decode (record { decode = u8_decode })

abbrev single : ℕ → List ℕ
single b = b ∷ []

written : All (WritesItem {P = Unit {0}} (param_encode u8_codec) tt single) (5 ∷ 7 ∷ [])
written = (u8_encode-Writes 5, (u8_encode-Writes 7, tt))

read : All (ReadsItem byte tt single) (5 ∷ 7 ∷ [])
read = ((u8_decode-Reads 5, omega arith), ((u8_decode-Reads 7, omega arith), tt))

two_items :
    encode_u16_items {P = Unit {0}} (param_encode u8_codec) tt (5 ∷ 7 ∷ []) []
    ≡ ok (0 ∷ 2 ∷ 5 ∷ 7 ∷ [])
unfolding encode_u16_items u16_encode encode_each u8_encode write_at
two_items = refl

-- The prefix says three bytes and two are there.
cut_off :
    get_decoded_with_param
      (record { decode_with_param = decode_u16_items byte })
      tt
      (0 ∷ 3 ∷ 5 ∷ 7 ∷ [])
    ≡ err (length_prefix_too_big 3)
unfolding get_decoded_with_param decode_u16_items u16_decode read_exact decode_items
cut_off = refl

encoder-eq-prefixed_example :
    encoder {P = Unit {0}} u16 (param_encode u8_codec) tt (5 ∷ 7 ∷ []) (9 ∷ [])
    ≡ ok (9 ∷ 0 ∷ 2 ∷ 5 ∷ 7 ∷ [])
encoder-eq-prefixed_example =
    encoder-eq-prefixed u16 (param_encode u8_codec) tt single (5 ∷ 7 ∷ []) (9 ∷ []) written

get_decoded-encoder_example :
    get_decoded_with_param (record { decode_with_param = decoder u16 byte }) tt (0 ∷ 2 ∷ 5 ∷ 7 ∷ [])
    ≡ ok (5 ∷ 7 ∷ [])
get_decoded-encoder_example =
    get_decoded-encoder u16 (param_encode u8_codec) byte tt single (5 ∷ 7 ∷ []) (0 ∷ 2 ∷ 5 ∷ 7 ∷ [])
      written read two_items

decoder-ne-stuck_example : decoder u16 byte tt (new_cursor (0 ∷ 3 ∷ 5 ∷ [])) ≢ stuck
decoder-ne-stuck_example =
    decoder-ne-stuck u16 byte tt u8_decode-Consumes u8_decode-ne-stuck (new_cursor (0 ∷ 3 ∷ 5 ∷ []))

two_of_three :
    decode_items byte 2 tt (new_cursor (5 ∷ 7 ∷ 9 ∷ []))
    ≡ ok (5 ∷ 7 ∷ [], record { inner = 5 ∷ 7 ∷ 9 ∷ []; position = 2 })
unfolding decode_items decode_loop u8_decode read_exact
two_of_three = refl

decode_items_exact_example :
    (◌≡◌ {A = List ℕ} (5 ∷ 7 ∷ 9 ∷ []) (5 ∷ 7 ∷ 9 ∷ [])) × (◌≡◌ {A = ℕ} 2 (0 + 2)) × (0 + 2 ≤ 3)
decode_items_exact_example =
    decode_items_exact byte tt u8_decode-Consumes 2 (new_cursor (5 ∷ 7 ∷ 9 ∷ [])) (5 ∷ 7 ∷ [])
      (record { inner = 5 ∷ 7 ∷ 9 ∷ []; position = 2 }) two_of_three

get_decoded-int_encode_example :
    (get_decoded (decoder_of u24) (1 ∷ 2 ∷ 3 ∷ []) ≡ ok 0x010203)
    × ((codec_of u24).encoded_len 0x010203 ≡ some 3)
unfolding u24_encode
get_decoded-int_encode_example =
    get_decoded-int_encode u24 0x010203 (1 ∷ 2 ∷ 3 ∷ []) (omega arith) refl
