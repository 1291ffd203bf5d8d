-- ===== src/Codec/Traits.antt =====
-- src/codec.rs: the traits as records of functions, their default methods and blanket
-- implementations, and what it means that a decoder reads back what an encoder writes.
use mastic.Prelude.{
  ℕ, ◌+◌, ◌≡◌, List, [], ◌++◌, Option, ◌==◌, length, if◌then◌else◌, Result, ok, err, ◌>>=◌, arith,
  append-nil, append_assoc, length-append, ap, >>=-eq-ok, ◌∙◌, sym, ◌≤◌, ◌<◌, ◌^◌,
}
use native.Mathlib.Nat.{add_assoc}
use mastic.Codec.Cursor.{
  CodecError, bytes_left_over, Cursor, new_cursor, remaining, advance, sub_usize, IsValid,
  advance-IsValid, remaining-advance,
}

abbrev pub Encoder {ℓ} : Type ℓ → Type ℓ
Encoder A = A → List ℕ → Result CodecError (List ℕ)

abbrev pub Decoder {ℓ} : Type ℓ → Type ℓ
Decoder A = Cursor → Result CodecError (A × Cursor)

pub record Encode {ℓ} (A : Type ℓ) : Type ℓ where
  pub encode : Encoder A
  pub encoded_len : A → Option ℕ

pub record Decode {ℓ} (A : Type ℓ) : Type ℓ where
  pub decode : Decoder A

pub record ParameterizedEncode {ℓ κ} (P : Type ℓ) (A : Type κ) : Type (ℓ ⊔ κ) where
  pub encode_with_param : P → Encoder A
  pub encoded_len_with_param : P → A → Option ℕ

pub record ParameterizedDecode {ℓ κ} (P : Type ℓ) (A : Type κ) : Type (ℓ ⊔ κ) where
  pub decode_with_param : P → Decoder A

module _ {ℓ κ} {P : Type ℓ} {A : Type κ} where
  abbrev pub param_encode : Encode A → ParameterizedEncode P A
  param_encode e = record {
    encode_with_param = λ _. e.encode;
    encoded_len_with_param = λ _. e.encoded_len;
  }

  abbrev pub param_decode : Decode A → ParameterizedDecode P A
  param_decode d = record { decode_with_param = λ _. d.decode }

  -- The length hint only reserves capacity.
  unfoldable pub get_encoded_with_param :
      ParameterizedEncode P A → P → A → Result CodecError (List ℕ)
  get_encoded_with_param e param a = e.encode_with_param param a []

  unfoldable pub get_decoded_with_param : ParameterizedDecode P A → P → List ℕ → Result CodecError A
  get_decoded_with_param d param bytes = do
    (decoded, cursor) ← d.decode_with_param param (new_cursor bytes)
    let left = sub_usize (length bytes) cursor.position >>= λ n. err (bytes_left_over n)
    if cursor.position == length bytes then ok decoded else left

-- `e` appends the bytes `enc` to any buffer.
abbrev pub Writes {ℓ} : {A : Type ℓ} → Encoder A → A → List ℕ → Type 0
Writes e a enc = (bytes : List ℕ) → e a bytes ≡ ok (bytes ++ enc)

-- `d` reads `a` off the bytes `enc`, whatever follows them, and moves on by their number.
abbrev pub Reads {ℓ} : {A : Type ℓ} → Decoder A → List ℕ → A → Type ℓ
Reads d enc a =
    (c : Cursor) (rest : List ℕ)
    → IsValid c
    → remaining c ≡ enc ++ rest
    → d c ≡ ok (a, advance c (length enc))

-- A success leaves the slice alone and moves on, by `least` bytes at least, within the slice.
pub record Moves (least : ℕ) (c c' : Cursor) : Type 0 where
  pub same : c'.inner ≡ c.inner
  pub forward : c.position + least ≤ c'.position
  pub within : c'.position ≤ length c.inner

abbrev pub Consumes {ℓ} : {A : Type ℓ} → ℕ → Decoder A → Type ℓ
Consumes {A} least d = (c : Cursor) (a : A) (c' : Cursor) → d c ≡ ok (a, c') → Moves least c c'

module _ {ℓ κ} {P : Type ℓ} {A : Type κ} where
  -- A round trip through a buffer of its own.
  pub get_decoded-Reads :
      (d : ParameterizedDecode P A) (param : P) (enc : List ℕ) (a : A)
      → length enc < 2 ^ 63
      → Reads (d.decode_with_param param) enc a
      → get_decoded_with_param d param enc ≡ ok a
  unfolding get_decoded_with_param
  get_decoded-Reads d param enc a fits h =
      rw (h (new_cursor enc) [] (omega arith) (sym (append-nil enc))) (ground arith)

-- Decoders in a row read encodings in a row.
module _ {ℓ κ} {A : Type ℓ} {B : Type κ} where
  pub Reads-bind :
      (d : Decoder A) (k : A → Decoder B) (front back : List ℕ) (a : A) (b : B)
      → Reads d front a
      → Reads (k a) back b
      → Reads (λ c. d c >>= λ (x, c'). k x c') (front ++ back) b
  Reads-bind d k front back a b hd hk c rest valid h =
      let h' = h ∙ append_assoc front back rest in
      rw (
        hd c (back ++ rest) valid h',
        hk (advance c (length front)) rest (advance-IsValid c front (back ++ rest) h' valid)
            (remaining-advance c front (back ++ rest) h'),
        length-append front back,
        add_assoc c.position (length front) (length back),
      )

  -- A decoder whose value is wrapped by a function that reads nothing.
  pub Reads-map :
      (d : Decoder A) (f : A → B) (enc : List ℕ) (a : A)
      → Reads d enc a
      → Reads (λ c. d c >>= λ (x, c'). ok (f x, c')) enc (f a)
  Reads-map d f enc a h c rest valid r = rw (h c rest valid r)

  -- Decoders in a row move on by what each takes.
  pub Consumes-bind :
      (m n : ℕ) (d : Decoder A) (k : A → Decoder B)
      → Consumes m d
      → ((a : A) → Consumes n (k a))
      → Consumes (m + n) (λ c. d c >>= λ (x, c'). k x c')
  Consumes-bind m n d k hd hk c b c' e =
      let ((a, c₁), first, rest) = >>=-eq-ok (d c) _ e in
      let p = hd c a c₁ first in
      let q = hk a c₁ b c' rest in
      record {
        same = q.same ∙ p.same;
        forward = omega (arith, p.forward, q.forward);
        within = omega (arith, q.within, ap (λ (t : List ℕ). length t) p.same);
      }

module _ {ℓ} {A : Type ℓ} where
  -- `Encode::get_encoded` and `Decode::get_decoded`, at the parameter `()`.
  unfoldable pub get_encoded : Encode A → A → Result CodecError (List ℕ)
  unfolding get_encoded_with_param
  get_encoded e a =
      let e' : ParameterizedEncode (Unit {0}) A = param_encode e in get_encoded_with_param e' tt a

  unfoldable pub get_decoded : Decode A → List ℕ → Result CodecError A
  unfolding get_decoded_with_param
  get_decoded d bytes =
      let d' : ParameterizedDecode (Unit {0}) A = param_decode d in
      get_decoded_with_param d' tt bytes
