-- ===== src/Idpf/Wire/Words.antt =====
-- src/idpf.rs: the correction words of a public share, one behind the other.
use mathlib.Core.Option.{bind}
use native.Mathlib.Nat.{add_assoc}
use mastic.Prelude.{
  ℕ, ◌+◌, ◌*◌, ◌≡◌, refl, ap, subst, Bool, List, [], ◌∷◌, ◌++◌, append-nil, append_assoc, length,
  length-append, All, Option, some, ok, arith,
}
use mastic.Codec.Cursor.{read_exact-append}
use mastic.Codec.Traits.{Encoder, Decoder, Writes, Reads, Reads-bind, Reads-map}
use mastic.Codec.Items.Encode.{encodings}
use mastic.Idpf.Level.{IdpfCorrectionWord}
use mastic.Idpf.Wire.{
  seed_encode, seed_decode, words_bits, word_encode, words_encode, word_decode, words_decode,
  add_encoded_len,
}

seed_decode-Reads : (seed : List ℕ) → length seed ≡ 16 → Reads (seed_decode 16) seed seed
unfolding seed_decode
seed_decode-Reads seed h c rest valid r =
    subst (λ (n : ℕ). seed_decode n c ≡ ok (seed, record c { position = c.position + length seed }))
      h (rw (read_exact-append c seed rest r) refl)

module _ {V : Type 0} where
  pub words_bits-append :
      (words : List (IdpfCorrectionWord V)) (bits : List Bool)
      → words_bits words bits ≡ words_bits words [] ++ bits
  unfolding words_bits
  words_bits-append [] bits = refl
  words_bits-append (word ∷ words) bits = rw (words_bits-append words bits) refl

  pub length-words_bits :
      (words : List (IdpfCorrectionWord V)) → length (words_bits words []) ≡ length words * 2
  unfolding words_bits
  length-words_bits [] = refl
  length-words_bits (word ∷ words) = omega (arith, length-words_bits words)

-- The interface of the values, and the bytes `enc` that stand for one.
module _ {V : Type 0} (encode : Encoder V) (decode : Decoder V) (encoded_len : V → Option ℕ)
    (enc : V → List ℕ) where
  -- The seed has its 16 bytes, and the value is written as `enc`, with the announced length, and
  -- read back.
  pub record Survives (word : IdpfCorrectionWord V) : Type 0 where
    pub seed_size : length word.seed ≡ 16
    pub written : Writes encode word.value (enc word.value)
    pub announced : encoded_len word.value ≡ some (length (enc word.value))
    pub read : Reads decode (enc word.value) word.value

  abbrev pub word_bytes : IdpfCorrectionWord V → List ℕ
  word_bytes word = word.seed ++ enc word.value

  pub word_encode-Writes :
      (word : IdpfCorrectionWord V)
      → Survives word
      → Writes (word_encode encode) word (word_bytes word)
  unfolding word_encode seed_encode
  word_encode-Writes word s bytes = rw (s.written (bytes ++ word.seed), append_assoc) refl

  pub words_encode-Writes :
      (words : List (IdpfCorrectionWord V))
      → All Survives words
      → Writes (words_encode encode) words (encodings word_bytes words)
  unfolding words_encode
  words_encode-Writes [] h bytes = rw append-nil
  words_encode-Writes (word ∷ words) (s, h) bytes = rw (
    word_encode-Writes word s bytes,
    words_encode-Writes words h (bytes ++ word_bytes word),
    append_assoc bytes (word_bytes word) (encodings word_bytes words),
  )

  pub word_decode-Reads :
      (word : IdpfCorrectionWord V)
      → Survives word
      → Reads (word_decode decode word.control_bits) (word_bytes word) word
  unfolding word_decode
  word_decode-Reads word s =
      Reads-bind (seed_decode 16) _ word.seed (enc word.value) word.seed word
        (seed_decode-Reads word.seed s.seed_size)
        (Reads-map decode
          (λ (value : V). record {
            seed = word.seed;
            control_bits = word.control_bits;
            value = value;
          })
          (enc word.value) word.value s.read)

  pub words_decode-Reads :
      (words : List (IdpfCorrectionWord V))
      → All Survives words
      → Reads (words_decode decode (words_bits words [])) (encodings word_bytes words) words
  unfolding words_decode words_bits
  words_decode-Reads [] h c rest valid r =
      ap (λ (n : ℕ). ok ([], record c { position = n })) (omega arith)
  words_decode-Reads (word ∷ words) (s, h) c rest valid r =
      Reads-bind (word_decode decode word.control_bits) _ (word_bytes word)
        (encodings word_bytes words) word (word ∷ words) (word_decode-Reads word s)
        (Reads-map (words_decode decode (words_bits words []))
          (λ (rest : List (IdpfCorrectionWord V)). word ∷ rest) (encodings word_bytes words) words
          (words_decode-Reads words h))
        c rest valid r

  -- What `encoded_len` adds for the values, beside the seeds.
  pub add_encoded_len_lem :
      (words : List (IdpfCorrectionWord V)) (len : ℕ)
      → All Survives words
      → (values : ℕ) × (add_encoded_len encoded_len words len ≡ some (len + values))
        × (length (encodings word_bytes words) ≡ length words * 16 + values)
  unfolding add_encoded_len bind
  add_encoded_len_lem [] len h = (0, ap some (omega arith), omega arith)
  add_encoded_len_lem (word ∷ words) len (s, h) =
      let n = length (enc word.value) in
      let (values, added, size) = add_encoded_len_lem words (len + n) h in
      (
        n + values,
        rw (s.announced, added, add_assoc) refl,
        omega (
          arith,
          size,
          s.seed_size,
          length-append word.seed (enc word.value),
          length-append (word_bytes word) (encodings word_bytes words),
        ),
      )
