-- ===== src/Vidpf/Weight.antt =====
-- src/vidpf.rs: `VidpfWeight`, a vector of field elements, as a value of a VIDPF.
pub mod Laws
pub mod RoundTrip
use mastic.Prelude.{
  ℕ, zero, suc, ◌*◌, Bool, List, [], ◌∷◌, length, Option, some, Result, ok, panic, ◌>>=◌, ◌==◌,
  if◌then◌else◌, map,
}
use mastic.Codec.Cursor.{CodecError, Cursor}
use mastic.Codec.Traits.{Encoder, Decoder}
use mastic.Idpf.Seeds.{zip_with, repeat}
use mastic.Idpf.Value.{IdpfValue}
use mastic.Vidpf.{VidpfError}

module _ {F S : Type 0} (f : IdpfValue F (Unit {0}) S) where
  -- The elements are drawn one after the other.
  unfoldable pub generate_weight : S → ℕ → List F × S
  generate_weight seed_stream zero = ([], seed_stream)
  generate_weight seed_stream (suc length) =
      let (element, seed_stream') = f.generate seed_stream tt in
      let (elements, seed_stream'') = generate_weight seed_stream' length in
      (element ∷ elements, seed_stream'')

  unfoldable pub weight_zero : ℕ → List F
  weight_zero length = repeat length (f.zero tt)

  unfoldable pub weight_conditional_negate : List F → Bool → List F
  weight_conditional_negate self choice = map (λ (a : F). f.conditional_negate a choice) self

  -- `add` and `add_assign`, `sub` and `conditional_select` with the assertion on the lengths.
  unfoldable pub weight_add : List F → List F → Result VidpfError (List F)
  weight_add self rhs = if length self == length rhs then ok (zip_with f.add self rhs) else panic

  unfoldable pub weight_sub : List F → List F → Result VidpfError (List F)
  weight_sub self rhs = if length self == length rhs then ok (zip_with f.sub self rhs) else panic

  unfoldable pub weight_conditional_select : List F → List F → Bool → Result VidpfError (List F)
  weight_conditional_select lhs rhs choice =
      if length lhs == length rhs
      then ok (zip_with (λ (a b : F). f.conditional_select a b choice) lhs rhs)
      else panic

  -- The trait on weights of one length, where no assertion fails.
  abbrev pub weight_value : IdpfValue (List F) ℕ S
  weight_value = record {
    generate = generate_weight;
    zero = weight_zero;
    add = zip_with f.add;
    sub = zip_with f.sub;
    conditional_negate = weight_conditional_negate;
    conditional_select =
        λ lhs rhs choice. zip_with (λ (a b : F). f.conditional_select a b choice) lhs rhs;
  }

module _ {F : Type 0} where
  unfoldable pub weight_encode : Encoder F → Encoder (List F)
  weight_encode encode [] bytes = ok bytes
  weight_encode encode (e ∷ self) bytes =
      encode e bytes >>= λ bytes'. weight_encode encode self bytes'

  unfoldable pub weight_encoded_len : ℕ → List F → Option ℕ
  weight_encoded_len encoded_size self = some (length self * encoded_size)

  unfoldable pub weight_decode : Decoder F → ℕ → Decoder (List F)
  weight_decode decode zero c = ok ([], c)
  weight_decode decode (suc left) c =
      decode c >>= λ (e, c'). weight_decode decode left c' >>= λ (v, c''). ok (e ∷ v, c'')
