-- ===== src/Codec/Items/Encode.antt =====
-- src/codec.rs: what the vector encoders append, and when they refuse.
use mastic.Prelude.{
  ℕ, ◌+◌, ◌^◌, ◌<◌, ◌≡◌, refl, ap, List, [], ◌∷◌, ◌++◌, All, ltb, length, write_at, write_at-append,
  if◌then◌else◌, Result, ok, err, arith, append-nil, append_assoc, length-append,
}
use mastic.Codec.Cursor.{CodecError, length_prefix_overflow}
use mastic.Codec.Traits.{ParameterizedEncode, Writes}
use mastic.Codec.Ints.{to_be_bytes, u16_encode, u24_encode, u32_encode}
use mastic.Codec.Items.{
  encode_each, encode_u8_items, encode_u16_items, encode_u24_items, encode_u32_items,
}

-- The three parts that the length arithmetic of an encoder sees.
body_length :
    (bytes gap body : List ℕ)
    → length ((bytes ++ gap) ++ body) ≡ length bytes + length gap + length body
body_length bytes gap body =
    omega (arith, length-append (bytes ++ gap) body, length-append bytes gap)

patch_prefix :
    (bytes gap body patch : List ℕ)
    → length gap ≡ length patch
    → write_at ((bytes ++ gap) ++ body) (length bytes) patch ≡ bytes ++ (patch ++ body)
patch_prefix bytes gap body patch e =
    rw (append_assoc bytes gap body) (write_at-append bytes gap body patch e)

pub low_byte : (n : ℕ) → n < 256 → to_be_bytes 1 n ≡ n ∷ []
low_byte n h = ap (λ (t : ℕ). t ∷ []) (omega arith)

-- The encodings of all items, in order.
abbrev pub encodings {ℓ} : {A : Type ℓ} → (A → List ℕ) → List A → List ℕ
encodings enc [] = []
encodings enc (a ∷ items) = enc a ++ encodings enc items

-- The vector behind a prefix of `w` bytes, or the refusal of one that is too long.
abbrev pub prefixed {ℓ} :
    {A : Type ℓ} → (A → List ℕ) → ℕ → List A → List ℕ → Result CodecError (List ℕ)
prefixed enc w items bytes =
    let body = encodings enc items in
    if ltb (length body) (256 ^ w)
    then ok (bytes ++ (to_be_bytes w (length body) ++ body))
    else err length_prefix_overflow

module _ {ℓ κ} {P : Type ℓ} {A : Type κ} (e : ParameterizedEncode P A) (param : P)
    (enc : A → List ℕ) where
  abbrev pub WritesItem : A → Type 0
  WritesItem a = Writes (e.encode_with_param param) a (enc a)

  pub encode_each-encodings :
      (items : List A) (bytes : List ℕ)
      → All WritesItem items
      → encode_each e param items bytes ≡ ok (bytes ++ encodings enc items)
  unfolding encode_each
  encode_each-encodings [] bytes h = rw append-nil
  encode_each-encodings (a ∷ items) bytes (ha, h) =
      rw (ha bytes, encode_each-encodings items (bytes ++ enc a) h, append_assoc)

  pub encode_u8_items_lem :
      (items : List A) (bytes : List ℕ)
      → All WritesItem items
      → encode_u8_items e param items bytes ≡ prefixed enc 1 items bytes
  unfolding encode_u8_items
  encode_u8_items_lem items bytes h =
      let body = encodings enc items in
      rw (encode_each-encodings items (bytes ++ (0 ∷ [])) h, body_length bytes (0 ∷ []) body)
        (ground
          (arith, patch_prefix bytes (0 ∷ []) body (length body ∷ []) refl, low_byte (length body)))

  pub encode_u16_items_lem :
      (items : List A) (bytes : List ℕ)
      → All WritesItem items
      → encode_u16_items e param items bytes ≡ prefixed enc 2 items bytes
  unfolding encode_u16_items u16_encode
  encode_u16_items_lem items bytes h =
      let body = encodings enc items in
      rw
        (
          encode_each-encodings items (bytes ++ to_be_bytes 2 0) h,
          body_length bytes (to_be_bytes 2 0) body,
        )
        (ground
          (arith, patch_prefix bytes (to_be_bytes 2 0) body (to_be_bytes 2 (length body)) refl))

  pub encode_u24_items_lem :
      (items : List A) (bytes : List ℕ)
      → All WritesItem items
      → encode_u24_items e param items bytes ≡ prefixed enc 3 items bytes
  unfolding encode_u24_items u24_encode
  encode_u24_items_lem items bytes h =
      let body = encodings enc items in
      rw
        (
          encode_each-encodings items (bytes ++ to_be_bytes 3 0) h,
          body_length bytes (to_be_bytes 3 0) body,
        )
        (ground
          (arith, patch_prefix bytes (to_be_bytes 3 0) body (to_be_bytes 3 (length body)) refl))

  pub encode_u32_items_lem :
      (items : List A) (bytes : List ℕ)
      → All WritesItem items
      → encode_u32_items e param items bytes ≡ prefixed enc 4 items bytes
  unfolding encode_u32_items u32_encode
  encode_u32_items_lem items bytes h =
      let body = encodings enc items in
      rw
        (
          encode_each-encodings items (bytes ++ to_be_bytes 4 0) h,
          body_length bytes (to_be_bytes 4 0) body,
        )
        (ground
          (arith, patch_prefix bytes (to_be_bytes 4 0) body (to_be_bytes 4 (length body)) refl))
