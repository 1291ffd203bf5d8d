-- ===== src/Poplar1/Examples.antt =====
-- The theorems on src/vdaf/poplar1.rs at the prefixes 01, 10 and 11, and at pairs of Field64 elements.
use mastic.Prelude.{
  Bool, arith, ℕ, ◌/◌, ◌%◌, ◌<◌, if◌then◌else◌, ◌≡◌, refl, ◌↔◌, true, false, List, [], ◌∷◌, some,
  ok, err, length,
}
use mastic.Codec.Traits.{Reads, Writes}
use mastic.Codec.Examples.{big_endian}
use mastic.Codec.Ints.{u16_encode, u32_encode}
use mastic.Vdaf.{uncategorized}
use mastic.Idpf.Value.{IdpfValue, IsGroup}
use mastic.Idpf.Value.Field.{field_value, field64-IsGroup}
use mastic.Field.Fp64.{fp64}
use mastic.Field.Element.{field64}
use mastic.Poplar1.PairValue.{pair_value}
use mastic.Poplar1.PairValue.Laws.{IsPair, pair_value-IsGroup}
use mastic.Idpf.Tree.{IdpfInput}
use mastic.Idpf.BitVec.{into_vec}
use mastic.Poplar1.AggregationParam.{
  Poplar1AggregationParam, try_from_prefixes, check_prefixes, check_order, partial_cmp,
}
use mastic.Poplar1.AggregationParam.Prefixes.{IsParameter, try_from_prefixes_iff}
use mastic.Poplar1.AggregationParam.Wire.{
  agg_param_encode, agg_param_encoded_len, agg_param_decode, reversed_bits,
}
use mastic.Poplar1.AggregationParam.Wire.RoundTrip.{agg_param_decode-agg_param_encode}

abbrev prefixes : List IdpfInput
prefixes = (false ∷ true ∷ []) ∷ (true ∷ false ∷ []) ∷ (true ∷ true ∷ []) ∷ []

abbrev param : Poplar1AggregationParam
param = record { level = 1; prefixes = prefixes }

made : try_from_prefixes prefixes ≡ ok param
unfolding try_from_prefixes check_prefixes check_order partial_cmp
made = refl

repeated :
    try_from_prefixes ((true ∷ []) ∷ (true ∷ []) ∷ [])
    ≡ err (uncategorized "prefixes must be nonrepeating")
unfolding try_from_prefixes check_prefixes check_order partial_cmp
repeated = refl

-- The first prefix is in the lowest bits of the last byte.
written : agg_param_encode param [] ≡ ok (0 ∷ 1 ∷ 0 ∷ 0 ∷ 0 ∷ 3 ∷ 57 ∷ [])
unfolding agg_param_encode reversed_bits into_vec u16_encode u32_encode
written = refl

try_from_prefixes_iff_example : (try_from_prefixes prefixes ≡ ok param) ↔ IsParameter prefixes param
try_from_prefixes_iff_example = try_from_prefixes_iff prefixes param

agg_param_decode-agg_param_encode_example :
    (enc : List ℕ) × Writes agg_param_encode param enc
    × Reads agg_param_decode enc param
    × (agg_param_encoded_len param ≡ some (length enc))
agg_param_decode-agg_param_encode_example = agg_param_decode-agg_param_encode prefixes param made

abbrev select : ℕ → ℕ → Bool → ℕ
select a b choice = if choice then b else a

abbrev generate_random : ℕ → ℕ × ℕ
generate_random s = (s % 256, s / 256)

abbrev word_value : IdpfValue ℕ (Unit {0}) ℕ
word_value = field_value select generate_random field64

word_value-IsGroup : IsGroup word_value tt (λ e. e < fp64.p)
word_value-IsGroup = field64-IsGroup select generate_random (λ a b c. refl) (λ s. omega arith)

pair_value-IsGroup_example : IsGroup (pair_value word_value) tt (IsPair word_value-IsGroup)
pair_value-IsGroup_example = pair_value-IsGroup word_value-IsGroup
