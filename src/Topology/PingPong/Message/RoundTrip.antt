-- ===== src/Topology/PingPong/Message/RoundTrip.antt =====
-- src/topology/ping_pong.rs: messages are read back, have the announced length, and are refused
-- where a field is too long or the type is unknown.
use mastic.Prelude.{
  ℕ, ◌^◌, ◌<◌, ◌≡◌, ◌≢◌, refl, ap, subst, List, [], ◌∷◌, ◌++◌, append_assoc, All, ltb, length,
  length-append, if◌then◌else◌, Bool, true, ◌&&◌, some, ok, ok-injective, err, stuck, >>=-ne-stuck,
  arith, Bool-cases, inl, inr, ltb→lt,
}
use mastic.Codec.Cursor.{length_prefix_overflow, unexpected_value, Cursor, IsValid, remaining}
use mastic.Codec.Traits.{Reads, Reads-bind, Reads-map, get_decoded, get_decoded-Reads, param_decode}
use mastic.Codec.Ints.{to_be_bytes, ReadBytesExt, u8_encode, u8_decode}
use mastic.Codec.Ints.RoundTrip.{u8_decode-Reads, u8_encode-Writes}
use mastic.Codec.Ints.Total.{u8_decode-Consumes, u8_decode-ne-stuck}
use mastic.Codec.Items.{encode_u32_items, decode_u32_items}
use mastic.Codec.Items.Encode.{encodings, WritesItem, encode_u32_items_lem}
use mastic.Codec.Items.Decode.{ReadsItem}
use mastic.Codec.Items.RoundTrip.{u32, decoder-Reads, decoder-ne-stuck}
use mastic.Topology.PingPong.Message.{
  PingPongMessage, initialize, continue, finish, byte_encode, byte_decode, message_encode,
  message_encoded_len, message_decode, initialize_decode, continue_decode, finish_decode,
}

abbrev pub single : ℕ → List ℕ
single b = b ∷ []

encodings-single : (bs : List ℕ) → encodings single bs ≡ bs
encodings-single [] = refl
encodings-single (b ∷ bs) = rw (encodings-single bs)

pub bytes_written : (bs : List ℕ) → All (WritesItem byte_encode tt single) bs
bytes_written [] = tt
bytes_written (b ∷ bs) = (u8_encode-Writes b, bytes_written bs)

pub bytes_read : (bs : List ℕ) → All (ReadsItem byte_decode tt single) bs
bytes_read [] = tt
bytes_read (b ∷ bs) = ((u8_decode-Reads b, omega arith), bytes_read bs)

-- A byte string behind its length.
abbrev opaque : List ℕ → List ℕ
opaque bs = to_be_bytes 4 (length bs) ++ bs

encode_opaque :
    (bs bytes : List ℕ)
    → encode_u32_items byte_encode tt bs bytes
      ≡ (if ltb (length bs) (2 ^ 32) then ok (bytes ++ opaque bs) else err length_prefix_overflow)
encode_opaque bs bytes =
    rw encodings-single at (encode_u32_items_lem byte_encode tt single bs bytes (bytes_written bs))

-- The type byte and the fields, each behind its length.
abbrev pub message_bytes : PingPongMessage → List ℕ
message_bytes (initialize prep_share) = 0 ∷ opaque prep_share
message_bytes (continue prep_msg prep_share) = 1 ∷ (opaque prep_msg ++ opaque prep_share)
message_bytes (finish prep_msg) = 2 ∷ opaque prep_msg

-- Each field's length fits a `u32`.
abbrev pub fits : PingPongMessage → Bool
fits (initialize prep_share) = ltb (length prep_share) (2 ^ 32)
fits (continue prep_msg prep_share) =
    ltb (length prep_msg) (2 ^ 32) && ltb (length prep_share) (2 ^ 32)
fits (finish prep_msg) = ltb (length prep_msg) (2 ^ 32)

-- Encoding appends the type and the fields; it fails exactly if a field is longer than a `u32` says.
pub message_encode-message_bytes :
    (m : PingPongMessage) (bytes : List ℕ)
    → message_encode m bytes
      ≡ (if fits m then ok (bytes ++ message_bytes m) else err length_prefix_overflow)
unfolding message_encode u8_encode
message_encode-message_bytes (initialize share) bytes =
    rw (encode_opaque share (bytes ++ (0 ∷ [])), append_assoc bytes (0 ∷ []) (opaque share))
message_encode-message_bytes (finish msg) bytes =
    rw (encode_opaque msg (bytes ++ (2 ∷ [])), append_assoc bytes (2 ∷ []) (opaque msg))
message_encode-message_bytes (continue msg share) bytes =
    rw (encode_opaque msg (bytes ++ (1 ∷ []))) (elim (Bool-cases (ltb (length msg) (2 ^ 32))) [
      | inl small ↦
          rw (small, encode_opaque share ((bytes ++ (1 ∷ [])) ++ opaque msg)) (simp append_assoc)
      | inr large ↦ rw large
    ])

written :
    (m : PingPongMessage) (bytes : List ℕ)
    → message_encode m [] ≡ ok bytes
    → bytes ≡ message_bytes m
written m bytes h = elim (Bool-cases (fits m)) [
  | inl small ↦ ok-injective (rw (small, h) at (message_encode-message_bytes m []))
  | inr large ↦ cc (rw (large, h) at (message_encode-message_bytes m []))
]

length-message_bytes :
    (m : PingPongMessage) → message_encoded_len m ≡ some (length (message_bytes m))
unfolding message_encoded_len
length-message_bytes (initialize share) = ap (λ (n : ℕ). some n) (omega arith)
length-message_bytes (finish msg) = ap (λ (n : ℕ). some n) (omega arith)
length-message_bytes (continue msg share) =
    ap (λ (n : ℕ). some n) (omega (arith, length-append msg (opaque share)))

-- The announced length is that of the encoding.
pub message_encoded_len-length :
    (m : PingPongMessage) (bytes : List ℕ)
    → message_encode m [] ≡ ok bytes
    → message_encoded_len m ≡ some (length bytes)
message_encoded_len-length m bytes h = rw (written m bytes h) (length-message_bytes m)

bytes_fit : (m : PingPongMessage) → fits m ≡ true → length (message_bytes m) < 2 ^ 63
bytes_fit (initialize share) h = omega (arith, ltb→lt _ _ h)
bytes_fit (finish msg) h = omega (arith, ltb→lt _ _ h)
bytes_fit (continue msg share) h = ground (arith, length-append msg (opaque share))

module _ ⦃byteorder : ReadBytesExt⦄ where
  opaque-Reads :
      (bs : List ℕ) → length bs < 2 ^ 32 → Reads (decode_u32_items byte_decode tt) (opaque bs) bs
  opaque-Reads bs h =
      subst
        (λ (t : List ℕ). Reads (decode_u32_items byte_decode tt) (to_be_bytes 4 (length t) ++ t) bs)
        (encodings-single bs)
        (decoder-Reads u32 byte_decode tt single bs (bytes_read bs) (rw (encodings-single bs) h))

  -- A message is read back from its bytes, whatever follows them.
  pub message_decode-Reads :
      (m : PingPongMessage) → fits m ≡ true → Reads message_decode (message_bytes m) m
  unfolding message_decode
  message_decode-Reads (initialize share) h =
      Reads-bind u8_decode _ (0 ∷ []) (opaque share) 0 (initialize share) (u8_decode-Reads 0) (
        Reads-map (decode_u32_items byte_decode tt) initialize (opaque share) share
          (opaque-Reads share (ltb→lt _ _ h)))
  message_decode-Reads (finish msg) h =
      Reads-bind u8_decode _ (2 ∷ []) (opaque msg) 2 (finish msg) (u8_decode-Reads 2) (
        Reads-map (decode_u32_items byte_decode tt) finish (opaque msg) msg
          (opaque-Reads msg (ltb→lt _ _ h)))
  message_decode-Reads (continue msg share) h =
      Reads-bind u8_decode _ (1 ∷ []) (opaque msg ++ opaque share) 1 (continue msg share)
        (u8_decode-Reads 1)
        (Reads-bind (decode_u32_items byte_decode tt) _ (opaque msg) (opaque share) msg
          (continue msg share) (opaque-Reads msg (ground arith))
          (Reads-map (decode_u32_items byte_decode tt) (λ s. continue msg s) (opaque share) share
            (opaque-Reads share (ground arith))))

  -- Encoding a message and decoding the bytes gives the message, and uses the whole input.
  pub get_decoded-message_encode :
      (m : PingPongMessage) (bytes : List ℕ)
      → message_encode m [] ≡ ok bytes
      → get_decoded (record { decode = message_decode }) bytes ≡ ok m
  unfolding get_decoded
  get_decoded-message_encode m bytes h = elim (Bool-cases (fits m)) [
    | inl small ↦ rw (written m bytes h) (
        get_decoded-Reads (param_decode {P = Unit {0}} (record { decode = message_decode })) tt
          (message_bytes m) m (bytes_fit m small) (message_decode-Reads m small))
    | inr large ↦ cc (rw (large, h) at (message_encode-message_bytes m []))
  ]

  -- A message type above 2 is refused, with no field read.
  pub message_decode_unknown :
      (c : Cursor) (t : ℕ) (rest : List ℕ)
      → IsValid c
      → remaining c ≡ t ∷ rest
      → 2 < t
      → message_decode c ≡ err unexpected_value
  unfolding message_decode
  message_decode_unknown c t rest v h large = rw (u8_decode-Reads t c rest v h) (ground arith)

  field-ne-stuck : (c : Cursor) → decode_u32_items byte_decode tt c ≢ stuck
  field-ne-stuck = decoder-ne-stuck u32 byte_decode tt u8_decode-Consumes u8_decode-ne-stuck

  initialize_decode-ne-stuck : (c : Cursor) → initialize_decode c ≢ stuck
  unfolding initialize_decode
  initialize_decode-ne-stuck c =
      >>=-ne-stuck (decode_u32_items byte_decode tt c) _ (field-ne-stuck c) λ r e p. cc

  continue_decode-ne-stuck : (c : Cursor) → continue_decode c ≢ stuck
  unfolding continue_decode
  continue_decode-ne-stuck c =
      >>=-ne-stuck (decode_u32_items byte_decode tt c) _ (field-ne-stuck c) λ (msg, c') e.
        >>=-ne-stuck (decode_u32_items byte_decode tt c') _ (field-ne-stuck c') λ r e' p. cc

  finish_decode-ne-stuck : (c : Cursor) → finish_decode c ≢ stuck
  unfolding finish_decode
  finish_decode-ne-stuck c =
      >>=-ne-stuck (decode_u32_items byte_decode tt c) _ (field-ne-stuck c) λ r e p. cc

  -- Decoding ends on every input.
  pub message_decode-ne-stuck : (c : Cursor) → message_decode c ≢ stuck
  unfolding message_decode
  message_decode-ne-stuck c = >>=-ne-stuck (u8_decode c) _ (u8_decode-ne-stuck c) λ (t, c') e.
      ground (
        arith,
        initialize_decode-ne-stuck c',
        continue_decode-ne-stuck c',
        finish_decode-ne-stuck c',
      )
