-- ===== src/Idpf/Wire.antt =====
-- src/idpf.rs: the encoding of a public share, and of a seed in src/vdaf/xof.rs. The number of bits
-- is that of an input, whose multiples fit a usize.

pub mod Words
pub mod Slices
pub mod RoundTrip
use mathlib.Core.Option.{bind}
use mastic.Prelude.{
  ℕ, zero, suc, ◌+◌, ◌*◌, ◌/◌, Bool, true, false, List, [], ◌∷◌, ◌++◌, length, take, Option, some,
  none, Result, ok, err, panic, ◌>>=◌, map_err, leb, if◌then◌else◌,
}
use mastic.Codec.Cursor.{CodecError, io, unexpected_value, Cursor, read_exact, index, sub_usize}
use mastic.Codec.Traits.{Encoder, Decoder}
use mastic.Idpf.BitVec.{into_vec, from_vec}
use mastic.Idpf.Level.{IdpfCorrectionWord}
use mastic.Idpf.Tree.{IdpfPublicShare, slice_from}

unfoldable pub seed_encode : Encoder (List ℕ)
seed_encode self bytes = ok (bytes ++ self)

unfoldable pub seed_decode : ℕ → Decoder (List ℕ)
seed_decode seed_size c = map_err io (read_exact seed_size c)

-- `BitSlice::any`.
abbrev pub any : List Bool → Bool
any [] = false
any (true ∷ bits) = true
any (false ∷ bits) = any bits

-- The slice `xs[0..end]`.
abbrev pub slice_to {ℓ} : {A : Type ℓ} → List A → ℕ → Result CodecError (List A)
slice_to xs end = if leb end (length xs) then ok (take end xs) else panic

module _ {V : Type 0} where
  abbrev pub word_bits : IdpfCorrectionWord V → List Bool → List Bool
  word_bits word bits = word.control_bits.0 ∷ word.control_bits.1 ∷ bits

  -- The control bits of the words, in front of others.
  unfoldable pub words_bits : List (IdpfCorrectionWord V) → List Bool → List Bool
  words_bits [] bits = bits
  words_bits (word ∷ words) bits = word_bits word (words_bits words bits)

  unfoldable pub word_encode : Encoder V → Encoder (IdpfCorrectionWord V)
  word_encode encode word bytes = seed_encode word.seed bytes >>= λ bytes'. encode word.value bytes'

  unfoldable pub words_encode : Encoder V → Encoder (List (IdpfCorrectionWord V))
  words_encode encode [] bytes = ok bytes
  words_encode encode (word ∷ words) bytes =
      word_encode encode word bytes >>= λ bytes'. words_encode encode words bytes'

  unfoldable pub word_decode : Decoder V → Bool × Bool → Decoder (IdpfCorrectionWord V)
  word_decode decode bits c = seed_decode 16 c >>= λ (seed, c'). decode c' >>= λ (value, c'').
      ok (record { seed = seed; control_bits = bits; value = value }, c'')

  -- The loop over chunks of two bits.
  unfoldable pub words_decode : Decoder V → List Bool → Decoder (List (IdpfCorrectionWord V))
  words_decode decode [] c = ok ([], c)
  words_decode decode (bit ∷ []) c = panic
  words_decode decode (bit ∷ (next ∷ bits)) c = word_decode decode (bit, next) c >>= λ (word, c').
      words_decode decode bits c' >>= λ (words, c''). ok (word ∷ words, c'')

  -- What the loop of `encoded_len` adds up.
  unfoldable pub add_encoded_len : (V → Option ℕ) → List (IdpfCorrectionWord V) → ℕ → Option ℕ
  add_encoded_len encoded_len [] len = some len
  add_encoded_len encoded_len (word ∷ words) len =
      bind (encoded_len word.value) λ n. add_encoded_len encoded_len words (len + n)

module _ {VI VL : Type 0} where
  unfoldable pub public_share_encode : Encoder VI → Encoder VL → Encoder (IdpfPublicShare VI VL)
  public_share_encode vi vl self bytes =
      let control_bits =
        words_bits self.inner_correction_words (word_bits self.leaf_correction_word []) in
      words_encode vi self.inner_correction_words
        (bytes ++ into_vec (length control_bits) control_bits)
      >>= λ bytes'. word_encode vl self.leaf_correction_word bytes'

  unfoldable pub public_share_encoded_len :
      (VI → Option ℕ) → (VL → Option ℕ) → IdpfPublicShare VI VL → Option ℕ
  public_share_encoded_len vi vl self =
      let words = length self.inner_correction_words + 1 in
      bind (add_encoded_len vi self.inner_correction_words ((words * 2 + 7) / 8 + words * 16))
        λ len. add_encoded_len vl (self.leaf_correction_word ∷ []) len

  -- The correction words behind the unpacked control bits.
  unfoldable pub words_and_leaf :
      Decoder VI → Decoder VL → ℕ → List Bool → Decoder (IdpfPublicShare VI VL)
  words_and_leaf vi vl bits unpacked c = do
    levels ← sub_usize bits 1
    inner_bits ← slice_to unpacked (levels * 2)
    (inner, c') ← words_decode vi inner_bits c
    bit ← index unpacked (levels * 2)
    last ← sub_usize (bits * 2) 1
    next ← index unpacked last
    (leaf, c'') ← word_decode vl (bit, next) c'
    unused ← slice_from unpacked (bits * 2)
    if any unused
        then err unexpected_value
        else ok (record { inner_correction_words = inner; leaf_correction_word = leaf }, c'')

  unfoldable pub public_share_decode : Decoder VI → Decoder VL → ℕ → Decoder (IdpfPublicShare VI VL)
  public_share_decode vi vl bits c = map_err io (read_exact ((bits + 3) / 4) c) >>= λ (packed, c').
      words_and_leaf vi vl bits (from_vec packed) c'
