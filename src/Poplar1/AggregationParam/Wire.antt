-- ===== src/Poplar1/AggregationParam/Wire.antt =====
-- src/vdaf/poplar1.rs: the encoding of an aggregation parameter.
pub mod Chunks
pub mod RoundTrip
use mastic.Prelude.{
  ℕ, zero, suc, ◌+◌, ◌*◌, ◌/◌, ◌%◌, ◌^◌, Bool, List, [], ◌∷◌, ◌++◌, map, reverse, length, take,
  drop, Option, some, Result, ok, err, panic, ◌>>=◌, ◌>>◌, map_err, ltb, leb, ◌==◌, if◌then◌else◌,
}
use mastic.Codec.Cursor.{
  CodecError, io, other, vdaf_error, unexpected_value, Cursor, read_exact, index,
}
use mastic.Codec.Traits.{Encoder, Decoder}
use mastic.Codec.Ints.{ReadBytesExt, u16_encode, u16_decode, u32_encode, u32_decode}
use mastic.Idpf.BitVec.{into_vec, from_vec}
use mastic.Idpf.Tree.{IdpfInput}
use mastic.Poplar1.AggregationParam.{Poplar1AggregationParam, try_from_prefixes}

-- The bits of all prefixes, each from its last bit on.
unfoldable pub reversed_bits : List IdpfInput → List Bool
reversed_bits [] = []
reversed_bits (input ∷ prefixes) = reverse input ++ reversed_bits prefixes

unfoldable pub agg_param_encode : Encoder Poplar1AggregationParam
agg_param_encode self bytes = do
  prefix_count ← if ltb (length self.prefixes) (2 ^ 32) then ok (length self.prefixes) else panic
  bytes' ← u16_encode self.level bytes
  bytes'' ← u32_encode prefix_count bytes'
  let bits = reversed_bits self.prefixes
  ok (bytes'' ++ reverse (into_vec (length bits) bits))

unfoldable pub agg_param_encoded_len : Poplar1AggregationParam → Option ℕ
agg_param_encoded_len self =
    let packed_bit_count = (self.level + 1) * length self.prefixes in
    some (6 + (packed_bit_count + 7) / 8)

-- `chunks_exact(n)`, at most `count` of them.
unfoldable pub chunks_exact : ℕ → ℕ → List Bool → List (List Bool)
chunks_exact n zero bits = []
chunks_exact n (suc count) bits =
    let rest = chunks_exact n count (drop n bits) in
    if leb n (length bits) then take n bits ∷ rest else []

unfoldable pub check_unused : List ℕ → ℕ → Result CodecError (Unit {0})
check_unused packed packed_bit_count =
    if packed_bit_count % 8 == 0
    then ok tt
    else (index packed 0 >>= λ first.
        if first / 2 ^ (packed_bit_count % 8) == 0 then ok tt else err unexpected_value)

-- What stands behind the level and the number of prefixes. Their product fits a usize.
unfoldable pub prefixes_decode : ℕ → ℕ → Decoder Poplar1AggregationParam
prefixes_decode level prefix_count c =
    let packed_bit_count = (level + 1) * prefix_count in
    map_err io (read_exact ((packed_bit_count + 7) / 8) c) >>= λ (packed, c').
    check_unused packed packed_bit_count
    >> (let bits = from_vec (reverse packed) in
        let prefixes =
          map (λ (chunk : List Bool). reverse chunk) (chunks_exact (level + 1) prefix_count bits) in
        map_err (λ e. other vdaf_error) (try_from_prefixes prefixes) >>= λ param. ok (param, c'))

module _ ⦃byteorder : ReadBytesExt⦄ where
  unfoldable pub agg_param_decode : Decoder Poplar1AggregationParam
  agg_param_decode c = do
    (level, c') ← u16_decode c
    (prefix_count, c'') ← u32_decode c'
    prefixes_decode level prefix_count c''
