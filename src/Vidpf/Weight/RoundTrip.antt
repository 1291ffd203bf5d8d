-- ===== src/Vidpf/Weight/RoundTrip.antt =====
-- src/vidpf.rs: `Encode` and `ParameterizedDecode` of a `VidpfWeight`.
use mastic.Prelude.{
  ℕ, ap, List, [], ◌∷◌, ◌++◌, append-nil, append_assoc, length, All, ok, ◌>>=◌, arith,
}
use mastic.Codec.Traits.{Encoder, Decoder, Writes, Reads, Reads-bind, Reads-map}
use mastic.Codec.Items.Encode.{encodings}
use mastic.Vidpf.Weight.{weight_encode, weight_decode}

module _ {F : Type 0} (encode : Encoder F) (decode : Decoder F) (enc : F → List ℕ) where
  writes :
      (w : List F)
      → All (λ e. Writes encode e (enc e)) w
      → Writes (weight_encode encode) w (encodings enc w)
  unfolding weight_encode
  writes [] h bytes = rw append-nil
  writes (e ∷ w) (he, h) bytes = rw (he bytes, writes w h (bytes ++ enc e), append_assoc)

  reads :
      (w : List F)
      → All (λ e. Reads decode (enc e) e) w
      → Reads (weight_decode decode (length w)) (encodings enc w) w
  unfolding weight_decode
  reads [] h c rest valid r = ap (λ (n : ℕ). ok ([], record c { position = n })) (omega arith)
  reads (e ∷ w) (he, h) c rest valid r =
      Reads-bind decode (λ a c. weight_decode decode (length w) c >>= λ (v, c'). ok (a ∷ v, c'))
        (enc e) (encodings enc w) e (e ∷ w) he
        (Reads-map (weight_decode decode (length w)) (λ (v : List F). e ∷ v) (encodings enc w) w
          (reads w h))
        c rest valid r

  -- The elements stand one behind the other, and are read back by their number.
  pub weight_decode-weight_encode :
      (w : List F)
      → All (λ e. Writes encode e (enc e)) w
      → All (λ e. Reads decode (enc e) e) w
      → Writes (weight_encode encode) w (encodings enc w)
        × Reads (weight_decode decode (length w)) (encodings enc w) w
  weight_decode-weight_encode w h k = (writes w h, reads w k)
