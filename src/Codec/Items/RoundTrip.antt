-- ===== src/Codec/Items/RoundTrip.antt =====
-- src/codec.rs: the vector encoders and decoders of all four prefixes, side by side.
use mastic.Prelude.{
  ℕ, ◌+◌, ◌^◌, ◌<◌, ◌≡◌, List, [], ◌∷◌, ◌++◌, All, ltb, ltb→lt, Bool-cases, inl, inr, ok-injective,
  length-append, ◌∙◌, lt→ltb, length, ok, stuck, ◌≢◌, >>=-ne-stuck, arith, sym, subst,
}
use mastic.Codec.Cursor.{Cursor, other, try_from_int}
use mastic.Codec.Traits.{
  Encoder, Decoder, ParameterizedEncode, ParameterizedDecode, Reads, Reads-bind,
  get_decoded_with_param, get_decoded-Reads, Consumes,
}
use mastic.Codec.Ints.{to_be_bytes, ReadBytesExt, u8_decode, u16_decode, u24_decode, u32_decode}
use mastic.Codec.Ints.RoundTrip.{
  length-to_be_bytes, u8_decode-Reads, u16_decode-Reads, u24_decode-Reads, u32_decode-Reads,
}
use mastic.Codec.Ints.Total.{
  u8_decode-ne-stuck, u16_decode-ne-stuck, u24_decode-ne-stuck, u32_decode-ne-stuck,
}
use mastic.Codec.Items.{
  encode_u8_items, encode_u16_items, encode_u24_items, encode_u32_items, decode_u8_items,
  decode_u16_items, decode_u24_items, decode_u32_items, try_from,
}
use mastic.Codec.Items.Encode.{
  encodings, WritesItem, prefixed, encode_u8_items_lem, encode_u16_items_lem, encode_u24_items_lem,
  encode_u32_items_lem, low_byte,
}
use mastic.Codec.Items.Decode.{ReadsItem, decode_items-Reads, decode_items-ne-stuck}

-- The four kinds of length prefix, and their bytes.
pub data Prefix : Type 0 where
  u8 u16 u24 u32 : Prefix

abbrev pub width : Prefix → ℕ
width u8 = 1
width u16 = 2
width u24 = 3
width u32 = 4

module _ {ℓ κ} {P : Type ℓ} {A : Type κ} where
  abbrev pub encoder : Prefix → ParameterizedEncode P A → P → Encoder (List A)
  encoder u8 = encode_u8_items
  encoder u16 = encode_u16_items
  encoder u24 = encode_u24_items
  encoder u32 = encode_u32_items

  abbrev pub decoder :
      ⦃byteorder : ReadBytesExt⦄ → Prefix → ParameterizedDecode P A → P → Decoder (List A)
  decoder u8 = decode_u8_items
  decoder u16 = decode_u16_items
  decoder u24 = decode_u24_items
  decoder u32 = decode_u32_items

prefix_fits : (w : Prefix) (n : ℕ) → n < 256 ^ width w → width w + n < 2 ^ 63
prefix_fits u8 n h = omega arith
prefix_fits u16 n h = omega arith
prefix_fits u24 n h = omega arith
prefix_fits u32 n h = omega arith

module _ {ℓ κ} {P : Type ℓ} {A : Type κ} where
  -- Each encoder appends the big-endian byte length and the items, and refuses a vector whose
  -- encoding is longer than the prefix can say.
  pub encoder-eq-prefixed :
      (w : Prefix) (e : ParameterizedEncode P A) (param : P) (enc : A → List ℕ) (items : List A)
      (bytes : List ℕ)
      → All (WritesItem e param enc) items
      → encoder w e param items bytes ≡ prefixed enc (width w) items bytes
  encoder-eq-prefixed u8 = encode_u8_items_lem
  encoder-eq-prefixed u16 = encode_u16_items_lem
  encoder-eq-prefixed u24 = encode_u24_items_lem
  encoder-eq-prefixed u32 = encode_u32_items_lem

  -- Each decoder reads such a vector back, if no item has an empty encoding.
  pub decoder-Reads :
      ⦃byteorder : ReadBytesExt⦄
      → (w : Prefix) (d : ParameterizedDecode P A) (param : P) (enc : A → List ℕ) (items : List A)
      → All (ReadsItem d param enc) items
      → length (encodings enc items) < 256 ^ width w
      → Reads
          (decoder w d param)
          (to_be_bytes (width w) (length (encodings enc items)) ++ encodings enc items)
          items
  unfolding decode_u8_items decode_u16_items decode_u24_items decode_u32_items
  decoder-Reads u8 d param enc items h fits =
      let body = encodings enc items in
      subst (λ (p : List ℕ). Reads (decode_u8_items d param) (p ++ body) items)
        (sym (low_byte (length body) fits))
        (Reads-bind u8_decode _ (length body ∷ []) body (length body) items
          (u8_decode-Reads (length body)) (decode_items-Reads d param enc items h (omega arith)))
  decoder-Reads u16 d param enc items h fits =
      let body = encodings enc items in
      Reads-bind u16_decode _ (to_be_bytes 2 (length body)) body (length body) items
        (u16_decode-Reads (length body) fits) (decode_items-Reads d param enc items h (omega arith))
  decoder-Reads u24 d param enc items h fits =
      let body = encodings enc items in
      Reads-bind u24_decode _ (to_be_bytes 3 (length body)) body (length body) items
        (u24_decode-Reads (length body) fits) (decode_items-Reads d param enc items h (omega arith))
  decoder-Reads u32 d param enc items h fits =
      let body = encodings enc items in
      Reads-bind u32_decode _ (to_be_bytes 4 (length body)) body (length body) items
        (u32_decode-Reads (length body) fits)
        λ c rest valid r.
          rw (lt→ltb (length body) (2 ^ 64) (omega arith))
            (decode_items-Reads d param enc items h (omega arith) c rest valid r)

  -- Each decoder ends on every input, if an item's decoder does and takes a byte at least.
  pub decoder-ne-stuck :
      ⦃byteorder : ReadBytesExt⦄
      → (w : Prefix) (d : ParameterizedDecode P A) (param : P)
      → Consumes 1 (d.decode_with_param param)
      → ((c : Cursor) → d.decode_with_param param c ≢ stuck)
      → (c : Cursor) → decoder w d param c ≢ stuck
  unfolding decode_u8_items decode_u16_items decode_u24_items decode_u32_items
  decoder-ne-stuck u8 d param moves total c =
      >>=-ne-stuck (u8_decode c) _ (u8_decode-ne-stuck c)
        λ (len, c') e. decode_items-ne-stuck d param moves total len c'
  decoder-ne-stuck u16 d param moves total c =
      >>=-ne-stuck (u16_decode c) _ (u16_decode-ne-stuck c)
        λ (len, c') e. decode_items-ne-stuck d param moves total len c'
  decoder-ne-stuck u24 d param moves total c =
      >>=-ne-stuck (u24_decode c) _ (u24_decode-ne-stuck c)
        λ (len, c') e. decode_items-ne-stuck d param moves total len c'
  decoder-ne-stuck u32 d param moves total c =
      >>=-ne-stuck (u32_decode c) _ (u32_decode-ne-stuck c) λ (value, c') e.
        >>=-ne-stuck (try_from 64 value (other try_from_int)) _ (ground arith)
          λ len e'. decode_items-ne-stuck d param moves total len c'

  -- Encoding a vector and decoding the bytes gives the vector, and uses the whole input, if that
  -- holds of each item and no item has an empty encoding.
  pub get_decoded-encoder :
      ⦃byteorder : ReadBytesExt⦄
      → (w : Prefix) (e : ParameterizedEncode P A) (d : ParameterizedDecode P A) (param : P)
        (enc : A → List ℕ) (items : List A) (bytes : List ℕ)
      → All (WritesItem e param enc) items
      → All (ReadsItem d param enc) items
      → encoder w e param items [] ≡ ok bytes
      → get_decoded_with_param (record { decode_with_param = decoder w d }) param bytes ≡ ok items
  get_decoded-encoder w e d param enc items bytes hw hr h =
      let body = encodings enc items in
      let whole = to_be_bytes (width w) (length body) ++ body in
      let spec = encoder-eq-prefixed w e param enc items [] hw in
      elim (Bool-cases (ltb (length body) (256 ^ width w))) [
        | inl small ↦
            let fits = ltb→lt _ _ small in
            let written : bytes ≡ whole = ok-injective (sym h ∙ rw small at spec) in
            rw written (
              get_decoded-Reads (record { decode_with_param = decoder w d }) param whole items
                (rw
                  (
                    length-append (to_be_bytes (width w) (length body)) body,
                    length-to_be_bytes (width w) (length body),
                  )
                  (prefix_fits w (length body) fits))
                (decoder-Reads w d param enc items hr fits))
        | inr large ↦ cc (rw (large, h) at spec)
      ]
