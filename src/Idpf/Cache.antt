-- ===== src/Idpf/Cache.antt =====
-- src/idpf.rs: the caches of intermediate results. A node is the list of the bits of its path; a
-- `NormalizedBitVec` is that list too, with the comparison of its words and its length.
pub mod Normalized
pub mod Laws
use mastic.Prelude.{
  ℕ, zero, suc, take, ◌≡◌, refl, ap, ◌∙◌, sym, Bool, true, false, ◌&&◌, List, [], ◌∷◌, ◌++◌,
  reverse, length, drop, Option, none, some, ltb, ◌==◌, if◌then◌else◌,
}
use mastic.Idpf.BitVec.{load_le}

-- A key and a control bit.
abbrev pub Values : Type 0
Values = List ℕ × ℕ

abbrev pub BitSlice : Type 0
BitSlice = List Bool

pub record IdpfCache (C : Type 0) : Type 0 where
  pub get : C → BitSlice → Option Values
  pub insert : C → BitSlice → Values → C

pub data NoCache : Type 0 where
  no_cache : NoCache

abbrev pub no_cache_cache : IdpfCache NoCache
no_cache_cache = record { get = λ cache input. none; insert = λ cache input values. cache }

-- `as_raw_slice` of a `NormalizedBitVec`: words of 64 bits, the bits of the last word that are not
-- used being cleared. A word takes a bit at least, so that the number of bits is enough fuel.
unfoldable pub raw_slice : ℕ → BitSlice → List ℕ
raw_slice zero bits = []
raw_slice (suc fuel) [] = []
raw_slice (suc fuel) (bit ∷ bits) = load_le (take 64 (bit ∷ bits)) ∷ raw_slice fuel (drop 63 bits)

abbrev pub same_slice : List ℕ → List ℕ → Bool
same_slice [] [] = true
same_slice [] (w ∷ other) = false
same_slice (v ∷ self) [] = false
same_slice (v ∷ self) (w ∷ other) = (v == w) && same_slice self other

unfoldable pub normalized_eq : BitSlice → BitSlice → Bool
normalized_eq self other =
    same_slice (raw_slice (length self) self) (raw_slice (length other) other)
    && (length self == length other)

-- The first entry for a node.
unfoldable pub lookup : List (BitSlice × Values) → BitSlice → Option Values
lookup [] input = none
lookup ((node, values) ∷ entries) input =
    if normalized_eq input node then some values else lookup entries input

-- The hash map has an entry for each of its keys.
pub record HashMapCache : Type 0 where
  pub map : List (BitSlice × Values)

abbrev pub new_hash_map_cache : HashMapCache
new_hash_map_cache = record { map = [] }

-- `entry(normalized).or_insert(values)`
unfoldable pub or_insert : List (BitSlice × Values) → BitSlice → Values → List (BitSlice × Values)
or_insert entries input values = elim (lookup entries input) [
  | some present ↦ entries
  | none ↦ (input, values) ∷ entries
]

abbrev pub hash_map_cache : IdpfCache HashMapCache
hash_map_cache = record {
  get = λ cache input. lookup cache.map input;
  insert = λ cache input values. record { map = or_insert cache.map input values };
}

-- The deque, from its front on, has the capacity that it was made with.
pub record RingBufferCache : Type 0 where
  pub ring : List (BitSlice × Values)
  pub capacity : ℕ

-- `with_capacity` is what `VecDeque::with_capacity` allocates, at least the capacity asked for.
unfoldable pub new_ring_buffer_cache : (ℕ → ℕ) → ℕ → RingBufferCache
new_ring_buffer_cache with_capacity capacity = record {
  ring = [];
  capacity = with_capacity (if ltb capacity 1 then 1 else capacity);
}

unfoldable pub ring_insert : RingBufferCache → BitSlice → Values → RingBufferCache
ring_insert cache input values =
    let kept = if length cache.ring == cache.capacity then drop 1 cache.ring else cache.ring in
    record { ring = kept ++ ((input, values) ∷ []); capacity = cache.capacity }

abbrev pub ring_buffer_cache : IdpfCache RingBufferCache
ring_buffer_cache = record {
  get = λ cache input. lookup (reverse cache.ring) input;
  insert = λ cache input values. ring_insert cache input values;
}
