-- ===== src/Poplar1/AggregationParam/Wire/RoundTrip.antt =====
-- src/vdaf/poplar1.rs: an aggregation parameter is read back from its encoding.
use mathlib.Core.List.{reverse-reverse, reverse-cons}
use native.Mathlib.Nat.{div-eq_of_lt}
use mastic.Prelude.{
  ℕ, ◌+◌, ◌-◌, ◌*◌, ◌/◌, ◌%◌, ◌^◌, ◌≤◌, ◌<◌, ◌≡◌, refl, ap, ◌∙◌, sym, subst, Bool, false, List, [],
  ◌∷◌, ◌++◌, append_assoc, map, reverse, length, some, Result, ok, lt→ltb, ◌==◌, ==_iff, Bool-cases,
  inl, inr, arith,
}
use mastic.Codec.Cursor.{CodecError, read_exact-append, index}
use mastic.Codec.Traits.{Writes, Reads, Reads-bind}
use mastic.Codec.Ints.{ReadBytesExt, to_be_bytes, u16_encode, u16_decode, u32_encode, u32_decode}
use mastic.Codec.Ints.RoundTrip.{u16_decode-Reads, u32_decode-Reads}
use mastic.Idpf.Seeds.{repeat}
use mastic.Idpf.BitVec.{into_vec, from_vec, IsPacked, TopClear, into_vec-IsPacked}
use mastic.Idpf.Tree.{IdpfInput}
use mastic.Poplar1.AggregationParam.{Poplar1AggregationParam, try_from_prefixes}
use mastic.Poplar1.AggregationParam.Prefixes.{IsParameter, try_from_prefixes_iff}
use mastic.Poplar1.AggregationParam.Wire.{
  reversed_bits, agg_param_encode, agg_param_encoded_len, chunks_exact, check_unused,
  prefixes_decode, agg_param_decode,
}
use mastic.Poplar1.AggregationParam.Wire.Chunks.{
  length-reversed_bits, chunks_exact-reversed_bits, length-reverse,
}

index-append :
    (xs ys : List ℕ) (v : ℕ)
    → ◌≡◌ {A = Result CodecError ℕ} (index xs 0) (ok v)
    → ◌≡◌ {A = Result CodecError ℕ} (index (xs ++ ys) 0) (ok v)
index-append [] ys v h = cc
index-append (x ∷ xs) ys v h = h

-- The first of the reversed bytes.
top_byte :
    (k byte : ℕ) (bytes : List ℕ)
    → TopClear k (byte ∷ bytes)
    → (v : ℕ) × (◌≡◌ {A = Result CodecError ℕ} (index (reverse (byte ∷ bytes)) 0) (ok v))
      × (v < 2 ^ (8 - k))
top_byte k byte [] h = (byte, refl, h)
top_byte k byte (next ∷ bytes) h =
    let (v, first, small) = top_byte k next bytes h in
    (
      v,
      ap (λ (r : List ℕ). index {E = CodecError} r 0) (reverse-cons byte (next ∷ bytes))
          ∙ index-append (reverse (next ∷ bytes)) (byte ∷ []) v first,
      small,
    )

unused :
    (n k : ℕ) (bytes : List ℕ)
    → k < 8
    → length bytes * 8 ≡ n + k
    → TopClear k bytes
    → check_unused (reverse bytes) n ≡ ok tt
unfolding check_unused
unused n k [] small size top = rw ((==_iff (n % 8) 0).1 (omega (arith, size))) refl
unused n k (byte ∷ bytes) small size top = elim (Bool-cases (n % 8 == 0)) [
  | inl e ↦ rw (e) refl
  | inr e ↦
      let (v, first, clear) = top_byte k byte bytes top in
      let zero_bits =
        (==_iff (v / 2 ^ (n % 8)) 0).1
          (below v (n % 8) (subst (λ (m : ℕ). v < 2 ^ m) (exact e) clear)) in
      rw (e, first, zero_bits) refl
]
  where
    below : (v m : ℕ) → v < 2 ^ m → v / 2 ^ m ≡ 0
    below v m h = div-eq_of_lt h

    positive : (m : ℕ) → (m == 0) ≡ false → 1 ≤ m
    positive m e = ground arith

    exact : (n % 8 == 0) ≡ false → 8 - k ≡ n % 8
    exact e = omega (arith, size, small, positive (n % 8) e)

rounded : (m n k : ℕ) → m * 8 ≡ n + k → k < 8 → m ≡ (n + 7) / 8
rounded m n k h small = omega (arith, h, small)

-- The packed bits of the prefixes of a parameter.
abbrev packed : Poplar1AggregationParam → List ℕ
packed param = let bits = reversed_bits param.prefixes in into_vec (length bits) bits

abbrev encoding : Poplar1AggregationParam → List ℕ
encoding param =
    to_be_bytes 2 param.level ++ (to_be_bytes 4 (length param.prefixes) ++ reverse (packed param))

module _ (param : Poplar1AggregationParam) (v : IsParameter param.prefixes param) where
  agg_param_encode-Writes : Writes agg_param_encode param (encoding param)
  unfolding agg_param_encode u16_encode u32_encode
  agg_param_encode-Writes bytes = rw (lt→ltb (length param.prefixes) (2 ^ 32) v.count) (
      ap (λ (r : List ℕ). ok r)
        (append_assoc (bytes ++ to_be_bytes 2 param.level) (to_be_bytes 4 (length param.prefixes))
            (reverse (packed param))
          ∙ append_assoc bytes (to_be_bytes 2 param.level)
              (to_be_bytes 4 (length param.prefixes) ++ reverse (packed param))))

  bits_number : length (reversed_bits param.prefixes) ≡ (param.level + 1) * length param.prefixes
  bits_number = length-reversed_bits (param.level + 1) param.prefixes v.lengths

  packed-IsPacked : IsPacked (reversed_bits param.prefixes) (packed param)
  packed-IsPacked =
      into_vec-IsPacked (length (reversed_bits param.prefixes)) (reversed_bits param.prefixes)
        (omega arith)

  packed_number : length (packed param) ≡ ((param.level + 1) * length param.prefixes + 7) / 8
  packed_number =
      rounded (length (packed param)) (length (reversed_bits param.prefixes)) packed-IsPacked.k
        packed-IsPacked.size packed-IsPacked.k_small
      ∙ ap (λ (n : ℕ). (n + 7) / 8) bits_number

  unpack :
      map
        (λ (chunk : List Bool). reverse chunk)
        (chunks_exact
          (param.level + 1)
          (length param.prefixes)
          (from_vec (reverse (reverse (packed param)))))
      ≡ param.prefixes
  unpack =
      rw (reverse-reverse (packed param), packed-IsPacked.unpacked)
        (chunks_exact-reversed_bits (param.level + 1) param.prefixes
          (repeat packed-IsPacked.k false) v.lengths)

  prefixes_decode-Reads :
      Reads (prefixes_decode param.level (length param.prefixes)) (reverse (packed param)) param
  unfolding prefixes_decode
  prefixes_decode-Reads c rest valid h =
      rw
        (
          ← packed_number,
          ← length-reverse (packed param),
          read_exact-append c (reverse (packed param)) rest h,
          ← bits_number,
          unused (length (reversed_bits param.prefixes)) packed-IsPacked.k (packed param)
              packed-IsPacked.k_small packed-IsPacked.size packed-IsPacked.top,
          unpack,
          (try_from_prefixes_iff param.prefixes param).1 v,
        )
        refl

  agg_param_decode-Reads :
      ⦃byteorder : ReadBytesExt⦄ → Reads agg_param_decode (encoding param) param
  unfolding agg_param_decode
  agg_param_decode-Reads =
      Reads-bind u16_decode _ (to_be_bytes 2 param.level)
        (to_be_bytes 4 (length param.prefixes) ++ reverse (packed param)) param.level param
        (u16_decode-Reads param.level v.short)
        (Reads-bind u32_decode (prefixes_decode param.level) (to_be_bytes 4 (length param.prefixes))
          (reverse (packed param)) (length param.prefixes) param
          (u32_decode-Reads (length param.prefixes) v.count) prefixes_decode-Reads)

  length-encoding : agg_param_encoded_len param ≡ some (length (encoding param))
  unfolding agg_param_encoded_len
  length-encoding = ap some (omega (arith, packed_number, length-reverse (packed param)))

-- An aggregation parameter that was made of a list of prefixes is encoded, its encoding has the
-- announced length, and is read back as that parameter, whatever follows it.
pub agg_param_decode-agg_param_encode :
    ⦃byteorder : ReadBytesExt⦄ (prefixes : List IdpfInput) (param : Poplar1AggregationParam)
    → try_from_prefixes prefixes ≡ ok param
    → (enc : List ℕ) × Writes agg_param_encode param enc
      × Reads agg_param_decode enc param
      × (agg_param_encoded_len param ≡ some (length enc))
agg_param_decode-agg_param_encode prefixes param e =
    let v = (try_from_prefixes_iff prefixes param).0 e in
    let w = subst (λ (q : List IdpfInput). IsParameter q param) (sym v.kept) v in
    (
      encoding param,
      agg_param_encode-Writes param w,
      agg_param_decode-Reads param w,
      length-encoding param w,
    )
