-- ===== src/Poplar1/AggregationParam.antt =====
-- src/vdaf/poplar1.rs: the aggregation parameter, a list of candidate prefixes.
pub mod Numbers
pub mod Prefixes
pub mod Wire
use mastic.Prelude.{
  ℕ, zero, suc, ◌^◌, Bool, true, false, not, List, [], ◌∷◌, length, Option, none, some, Result, ok,
  err, ◌>>=◌, ◌>>◌, ltb, ◌==◌, if◌then◌else◌,
}
use mastic.Vdaf.{VdafError, uncategorized}
use mastic.Idpf.Tree.{IdpfInput}

pub record Poplar1AggregationParam : Type 0 where
  pub level : ℕ
  pub prefixes : List IdpfInput

-- `Ordering`, and the order of bit slices: by the first bit that differs, then by the length.
pub data Order : Type 0 where
  less same greater : Order

unfoldable pub partial_cmp : IdpfInput → IdpfInput → Order
partial_cmp [] [] = same
partial_cmp [] (b ∷ other) = less
partial_cmp (a ∷ self) [] = greater
partial_cmp (false ∷ self) (true ∷ other) = less
partial_cmp (true ∷ self) (false ∷ other) = greater
partial_cmp (false ∷ self) (false ∷ other) = partial_cmp self other
partial_cmp (true ∷ self) (true ∷ other) = partial_cmp self other

abbrev pub after : Order → Result VdafError (Unit {0})
after same = err (uncategorized "prefixes must be nonrepeating")
after less = err (uncategorized "prefixes must be in lexicographic order")
after greater = ok tt

-- The test against the prefix before.
unfoldable pub check_order : Option IdpfInput → IdpfInput → Result VdafError (Unit {0})
check_order none prefix = ok tt
check_order (some last_prefix) prefix = after (partial_cmp prefix last_prefix)

unfoldable pub check_prefixes : ℕ → Option IdpfInput → List IdpfInput → Result VdafError (Unit {0})
check_prefixes len last_prefix [] = ok tt
check_prefixes len last_prefix (prefix ∷ rest) =
    (if length prefix == len
      then check_order last_prefix prefix
      else err (uncategorized "all prefixes must have the same length"))
    >> check_prefixes len (some prefix) rest

-- `checked_sub(1)` of the length, and the conversion to u16.
abbrev pub with_level : ℕ → List IdpfInput → Result VdafError Poplar1AggregationParam
with_level zero prefixes = err (uncategorized "prefixes are too short")
with_level (suc level) prefixes =
    if ltb level (2 ^ 16)
    then ok (record { level = level; prefixes = prefixes })
    else err (uncategorized "prefixes are too long")

unfoldable pub try_from_prefixes : List IdpfInput → Result VdafError Poplar1AggregationParam
try_from_prefixes [] = err (uncategorized "at least one prefix is required")
try_from_prefixes (first ∷ rest) =
    (if ltb (length (first ∷ rest)) (2 ^ 32)
      then ok tt
      else err (uncategorized "too many prefixes"))
    >> (check_prefixes (length first) none (first ∷ rest)
        >> with_level (length first) (first ∷ rest))
