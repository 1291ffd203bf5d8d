-- ===== src/Idpf/Wire/RoundTrip.antt =====
-- src/idpf.rs: a public share is read back from its encoding.
use mathlib.Core.Option.{bind}
use native.Mathlib.Nat.{add_assoc}
use mastic.Prelude.{
  ℕ, ◌+◌, ◌-◌, ◌*◌, ◌/◌, ◌≡◌, refl, ap, ◌∙◌, Bool, false, List, [], ◌∷◌, ◌++◌, append-nil,
  append_assoc, length, length-append, All, Option, some, map_err, arith,
}
use mastic.Codec.Cursor.{
  io, advance, advance-IsValid, remaining-advance, read_exact, read_exact-append,
}
use mastic.Codec.Traits.{Encoder, Decoder, Writes, Reads, Reads-bind}
use mastic.Codec.Items.Encode.{encodings}
use mastic.Idpf.Seeds.{repeat}
use mastic.Idpf.BitVec.{into_vec, from_vec, IsPacked, into_vec-IsPacked}
use mastic.Idpf.Level.{IdpfCorrectionWord}
use mastic.Idpf.Tree.{IdpfPublicShare}
use mastic.Idpf.Wire.{
  word_bits, words_bits, public_share_encode, public_share_encoded_len, words_and_leaf,
  public_share_decode,
}
use mastic.Idpf.Wire.Words.{
  Survives, word_bytes, word_encode-Writes, words_encode-Writes, word_decode-Reads,
  words_decode-Reads, words_bits-append, length-words_bits, add_encoded_len_lem,
}
use mastic.Idpf.Wire.Slices.{
  index-append, slice_to-append, any-repeat, next_bit, unused_bits, less_one,
}

-- The values of inner and leaf words, with the bytes that stand for each.
module _ {VI VL : Type 0} (vi_encode : Encoder VI) (vi_decode : Decoder VI) (vi_len : VI → Option ℕ)
    (vi_enc : VI → List ℕ) (vl_encode : Encoder VL) (vl_decode : Decoder VL)
    (vl_len : VL → Option ℕ) (vl_enc : VL → List ℕ) where
  abbrev inner_bytes : List (IdpfCorrectionWord VI) → List ℕ
  inner_bytes words = encodings (word_bytes vi_encode vi_decode vi_len vi_enc) words

  abbrev leaf_bytes : IdpfCorrectionWord VL → List ℕ
  leaf_bytes word = word_bytes vl_encode vl_decode vl_len vl_enc word

  words_and_leaf-Reads :
      (share : IdpfPublicShare VI VL) (k : ℕ)
      → All (Survives vi_encode vi_decode vi_len vi_enc) share.inner_correction_words
      → Survives vl_encode vl_decode vl_len vl_enc share.leaf_correction_word
      → Reads
          (words_and_leaf vi_decode vl_decode (length share.inner_correction_words + 1) (
            words_bits share.inner_correction_words []
            ++ word_bits share.leaf_correction_word (repeat k false)))
          (inner_bytes share.inner_correction_words ++ leaf_bytes share.leaf_correction_word)
          share
  unfolding words_and_leaf
  words_and_leaf-Reads share k hi hl c rest valid r =
      let words = share.inner_correction_words in
      let leaf = share.leaf_correction_word in
      let levels = length words in
      let front = words_bits words [] in
      let bit = leaf.control_bits.0 in
      let next = leaf.control_bits.1 in
      let h = length-words_bits words in
      let inner = inner_bytes words in
      let r' = r ∙ append_assoc inner (leaf_bytes leaf) rest in
      rw
        (
          less_one (levels + 1) (omega arith),
          minus levels,
          slice_to-append front (word_bits leaf (repeat k false)) (levels * 2) h,
          words_decode-Reads vi_encode vi_decode vi_len vi_enc words hi c (leaf_bytes leaf ++ rest)
              valid r',
          index-append front (next ∷ repeat k false) bit (levels * 2) h,
          less_one ((levels + 1) * 2) (omega arith),
          next_bit front bit next k levels h,
          word_decode-Reads vl_encode vl_decode vl_len vl_enc leaf hl (advance c (length inner))
              rest (advance-IsValid c inner (leaf_bytes leaf ++ rest) r' valid)
              (remaining-advance c inner (leaf_bytes leaf ++ rest) r'),
          unused_bits front bit next k levels h,
          any-repeat k,
          length-append inner (leaf_bytes leaf),
          add_assoc c.position (length inner) (length (leaf_bytes leaf)),
        )
        refl
    where
      minus : (n : ℕ) → n + 1 - 1 ≡ n
      minus n = omega arith

  abbrev control : IdpfPublicShare VI VL → List Bool
  control share = words_bits share.inner_correction_words (word_bits share.leaf_correction_word [])

  abbrev packed : IdpfPublicShare VI VL → List ℕ
  packed share = into_vec (length (control share)) (control share)

  abbrev share_bytes : IdpfPublicShare VI VL → List ℕ
  share_bytes share =
      packed share
      ++ (inner_bytes share.inner_correction_words ++ leaf_bytes share.leaf_correction_word)

  module _ (share : IdpfPublicShare VI VL)
      (hi : All (Survives vi_encode vi_decode vi_len vi_enc) share.inner_correction_words)
      (hl : Survives vl_encode vl_decode vl_len vl_enc share.leaf_correction_word) where
    control-IsPacked : IsPacked (control share) (packed share)
    control-IsPacked = into_vec-IsPacked (length (control share)) (control share) (omega arith)

    control-split :
        (back : List Bool)
        → control share ++ back
          ≡ words_bits share.inner_correction_words [] ++ word_bits share.leaf_correction_word back
    control-split back =
        ap (λ (bits : List Bool). bits ++ back)
          (words_bits-append share.inner_correction_words (word_bits share.leaf_correction_word []))
        ∙ append_assoc (words_bits share.inner_correction_words [])
            (word_bits share.leaf_correction_word []) back

    length-control : length (control share) ≡ (length share.inner_correction_words + 1) * 2
    length-control =
        ap (λ (bits : List Bool). length bits)
          (words_bits-append share.inner_correction_words (word_bits share.leaf_correction_word []))
        ∙ omega (
          arith,
          length-append (words_bits share.inner_correction_words [])
              (word_bits share.leaf_correction_word []),
          length-words_bits share.inner_correction_words,
        )

    packed_number : length (packed share) ≡ (length share.inner_correction_words + 1 + 3) / 4
    packed_number = omega (arith, control-IsPacked.size, control-IsPacked.k_small, length-control)

    written : Writes (public_share_encode vi_encode vl_encode) share (share_bytes share)
    unfolding public_share_encode
    written bytes =
        rw
          (
            words_encode-Writes vi_encode vi_decode vi_len vi_enc share.inner_correction_words hi
                (bytes ++ packed share),
            word_encode-Writes vl_encode vl_decode vl_len vl_enc share.leaf_correction_word hl
                ((bytes ++ packed share) ++ inner_bytes share.inner_correction_words),
            append_assoc (bytes ++ packed share) (inner_bytes share.inner_correction_words)
                (leaf_bytes share.leaf_correction_word),
            append_assoc bytes (packed share)
                (inner_bytes share.inner_correction_words ++ leaf_bytes share.leaf_correction_word),
          )
          refl

    packed_bytes :
        Reads
          (λ c. map_err io (read_exact ((length share.inner_correction_words + 1 + 3) / 4) c))
          (packed share)
          (packed share)
    packed_bytes c rest valid r =
        rw (← packed_number, read_exact-append c (packed share) rest r) refl

    read :
        Reads
          (public_share_decode vi_decode vl_decode (length share.inner_correction_words + 1))
          (share_bytes share)
          share
    unfolding public_share_decode
    read =
        Reads-bind
          (λ c. map_err io (read_exact ((length share.inner_correction_words + 1 + 3) / 4) c))
          (λ bytes.
            words_and_leaf vi_decode vl_decode (length share.inner_correction_words + 1)
              (from_vec bytes))
          (packed share)
          (inner_bytes share.inner_correction_words ++ leaf_bytes share.leaf_correction_word)
          (packed share) share packed_bytes
          (rw (control-IsPacked.unpacked, control-split (repeat control-IsPacked.k false))
            (words_and_leaf-Reads share control-IsPacked.k hi hl))

    announced : public_share_encoded_len vi_len vl_len share ≡ some (length (share_bytes share))
    unfolding public_share_encoded_len bind
    announced =
        let words = length share.inner_correction_words + 1 in
        let start = (words * 2 + 7) / 8 + words * 16 in
        let (inner, first, size) =
          add_encoded_len_lem vi_encode vi_decode vi_len vi_enc share.inner_correction_words start
            hi in
        let (leaf, second, leaf_size) =
          add_encoded_len_lem vl_encode vl_decode vl_len vl_enc (share.leaf_correction_word ∷ [])
            (start + inner) (hl, tt) in
        rw (first, second)
          (ap some (
            omega (
              arith,
              size,
              leaf_size,
              packed_number,
              ap (λ (l : List ℕ). length l) (append-nil (leaf_bytes share.leaf_correction_word)),
              length-append (packed share) (
                  inner_bytes share.inner_correction_words
                  ++ leaf_bytes share.leaf_correction_word),
              length-append (inner_bytes share.inner_correction_words)
                  (leaf_bytes share.leaf_correction_word),
            )))

  -- A public share whose seeds have 16 bytes is encoded, its encoding has the announced length, and
  -- is read back by the number of its words, whatever follows it, if that holds of each value.
  pub public_share_decode-public_share_encode :
      (share : IdpfPublicShare VI VL)
      → All (Survives vi_encode vi_decode vi_len vi_enc) share.inner_correction_words
      → Survives vl_encode vl_decode vl_len vl_enc share.leaf_correction_word
      → (enc : List ℕ) × Writes (public_share_encode vi_encode vl_encode) share enc
        × Reads
            (public_share_decode vi_decode vl_decode (length share.inner_correction_words + 1))
            enc
            share
        × (public_share_encoded_len vi_len vl_len share ≡ some (length enc))
  public_share_decode-public_share_encode share hi hl =
      (share_bytes share, written share hi hl, read share hi hl, announced share hi hl)
