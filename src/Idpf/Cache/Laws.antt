-- ===== src/Idpf/Cache/Laws.antt =====
-- src/idpf.rs: a cache may forget a node, and holds for a node what was inserted for it.
use mathlib.Core.List.{reverse-cons, reverse-append}
use mastic.Prelude.{
  ltb, ℕ, ◌+◌, ◌≤◌, ◌≡◌, refl, subst, ◌⊎◌, inl, inr, Bool, true, false, List, [], ◌∷◌, ◌++◌,
  reverse, length, length-append, drop, Option, none, some, Bool-cases, Option-cases, ◌==◌, ==_iff,
  if◌then◌else◌, arith,
}
use mastic.Idpf.Cache.{
  Values, BitSlice, IdpfCache, no_cache_cache, normalized_eq, lookup, or_insert, hash_map_cache,
  RingBufferCache, new_ring_buffer_cache, ring_insert, ring_buffer_cache,
}
use mastic.Idpf.Cache.Normalized.{normalized_eq-eq, normalized_eq_refl}

-- After an insertion a hit is what was inserted, or a hit from before.
pub record IsLawful {C : Type 0} (cache : IdpfCache C) : Type 0 where
  pub get-insert :
      (c : C) (node : BitSlice) (values : Values) (input : BitSlice) (found : Values)
      → cache.get (cache.insert c node values) input ≡ some found
      → ((input ≡ node) × (found ≡ values)) ⊎ (cache.get c input ≡ some found)

-- A hit behind an entry in front.
lookup-cons :
    (node : BitSlice) (values : Values) (entries : List (BitSlice × Values)) (input : BitSlice)
    (found : Values)
    → lookup ((node, values) ∷ entries) input ≡ some found
    → ((input ≡ node) × (found ≡ values)) ⊎ (lookup entries input ≡ some found)
unfolding lookup
lookup-cons node values entries input found h = elim (Bool-cases (normalized_eq input node)) [
  | inl e ↦ inl (normalized_eq-eq input node e, cc)
  | inr e ↦
      inr (subst (λ (t : Bool). (if t then some values else lookup entries input) ≡ some found) e h)
]

-- An entry at the end is found after all others only.
lookup-append :
    (entries back : List (BitSlice × Values)) (input : BitSlice) (found : Values)
    → lookup entries input ≡ some found
    → lookup (entries ++ back) input ≡ some found
unfolding lookup
lookup-append [] back input found h = cc
lookup-append ((node, values) ∷ entries) back input found h =
    elim (Bool-cases (normalized_eq input node)) [
      | inl e ↦
          rw e (
            subst (λ (t : Bool). (if t then some values else lookup entries input) ≡ some found) e
              h)
      | inr e ↦ rw e (
          lookup-append entries back input found (
            subst (λ (t : Bool). (if t then some values else lookup entries input) ≡ some found) e
              h))
    ]

pub no_cache-IsLawful : IsLawful no_cache_cache
no_cache-IsLawful = record { get-insert = λ c node values input found h. inr h }

or_insert-get :
    (entries : List (BitSlice × Values)) (node : BitSlice) (values : Values) (input : BitSlice)
    (found : Values)
    → lookup (or_insert entries node values) input ≡ some found
    → ((input ≡ node) × (found ≡ values)) ⊎ (lookup entries input ≡ some found)
unfolding or_insert
or_insert-get entries node values input found h = elim (Option-cases (lookup entries node)) [
  | inl e ↦ lookup-cons node values entries input found (subst Found e h)
  | inr (present, e) ↦ inr (subst Found e h)
]
  where
    Found : Option Values → Type 0
    Found o =
        lookup (elim o [ some p ↦ entries | none ↦ (node, values) ∷ entries ]) input ≡ some found

pub hash_map-IsLawful : IsLawful hash_map_cache
hash_map-IsLawful = record {
  get-insert = λ c node values input found h. or_insert-get c.map node values input found h;
}

-- What is evicted was the last to be found.
lookup-evicted :
    (ring : List (BitSlice × Values)) (input : BitSlice) (found : Values)
    → lookup (reverse (drop 1 ring)) input ≡ some found
    → lookup (reverse ring) input ≡ some found
lookup-evicted [] input found h = h
lookup-evicted (entry ∷ ring) input found h =
    rw (reverse-cons entry ring) (lookup-append (reverse ring) (entry ∷ []) input found h)

ring_insert-get :
    (c : RingBufferCache) (node : BitSlice) (values : Values) (input : BitSlice) (found : Values)
    → lookup (reverse (ring_insert c node values).ring) input ≡ some found
    → ((input ≡ node) × (found ≡ values)) ⊎ (lookup (reverse c.ring) input ≡ some found)
unfolding ring_insert
ring_insert-get c node values input found h = elim (Bool-cases (length c.ring == c.capacity)) [
  | inl e ↦ newest (drop 1 c.ring) (subst Found e h) (lookup-evicted c.ring input found)
  | inr e ↦ newest c.ring (subst Found e h) (λ k. k)
]
  where
    Found : Bool → Type 0
    Found b =
        lookup (reverse ((if b then drop 1 c.ring else c.ring) ++ ((node, values) ∷ []))) input
        ≡ some found

    newest :
        (kept : List (BitSlice × Values))
        → lookup (reverse (kept ++ ((node, values) ∷ []))) input ≡ some found
        → (lookup (reverse kept) input ≡ some found → lookup (reverse c.ring) input ≡ some found)
        → ((input ≡ node) × (found ≡ values)) ⊎ (lookup (reverse c.ring) input ≡ some found)
    newest kept h old =
        elim (lookup-cons node values (reverse kept) input found (
          subst (λ (t : List (BitSlice × Values)). lookup t input ≡ some found)
            (reverse-append kept ((node, values) ∷ [])) h)) [ inl e ↦ inl e | inr e ↦ inr (old e) ]

pub ring_buffer-IsLawful : IsLawful ring_buffer_cache
ring_buffer-IsLawful = record {
  get-insert = λ c node values input found h. ring_insert-get c node values input found h;
}

-- The ring buffer holds no more entries than its capacity, and room for one.
pub record IsBounded (c : RingBufferCache) : Type 0 where
  pub room : 1 ≤ c.capacity
  pub fits : length c.ring ≤ c.capacity

pub new_ring_buffer-IsBounded :
    (with_capacity : ℕ → ℕ) (capacity : ℕ)
    → ((n : ℕ) → n ≤ with_capacity n)
    → IsBounded (new_ring_buffer_cache with_capacity capacity)
unfolding new_ring_buffer_cache
new_ring_buffer-IsBounded with_capacity capacity h = record {
  room =
      let asked : 1 ≤ (if ltb capacity 1 then 1 else capacity) = ground arith in
      omega (arith, asked, h (if ltb capacity 1 then 1 else capacity));
  fits = omega arith;
}

-- An insertion into a ring buffer that holds no more entries than its capacity, which is positive,
-- leaves it so, and the new entry is found.
pub ring_insert-IsBounded :
    (c : RingBufferCache) (node : BitSlice) (values : Values)
    → IsBounded c
    → IsBounded (ring_insert c node values)
      × (lookup (reverse (ring_insert c node values).ring) node ≡ some values)
unfolding ring_insert lookup
ring_insert-IsBounded c node values h = (
  record { room = h.room; fits = bound (Bool-cases (length c.ring == c.capacity)) },
  rw
      (reverse-append (if length c.ring == c.capacity then drop 1 c.ring else c.ring)
        ((node, values) ∷ []))
      (rw (normalized_eq_refl node) refl),
)
  where
    shorter :
        (ring : List (BitSlice × Values)) → 1 ≤ length ring → length (drop 1 ring) + 1 ≡ length ring
    shorter [] e = elim e [ ]
    shorter (x ∷ ring) e = omega arith

    below : (m n : ℕ) → m ≤ n → (m == n) ≡ false → m + 1 ≤ n
    below m n l e = ground arith

    bound :
        ((length c.ring == c.capacity) ≡ true) ⊎ ((length c.ring == c.capacity) ≡ false)
        → length (
            (if length c.ring == c.capacity then drop 1 c.ring else c.ring)
            ++ ((node, values) ∷ []))
          ≤ c.capacity
    bound (inl e) =
        let full = (==_iff (length c.ring) c.capacity).0 e in
        rw (e, length-append (drop 1 c.ring) ((node, values) ∷ []))
          (omega (arith, full, h.room, shorter c.ring (omega (arith, full, h.room))))
    bound (inr e) =
        rw (e, length-append c.ring ((node, values) ∷ []))
          (omega (arith, h.fits, below (length c.ring) c.capacity h.fits e))

-- After an insertion each of the three caches answers with what was inserted, or as before, or not
-- at all.
pub caches-IsLawful : IsLawful no_cache_cache × IsLawful hash_map_cache × IsLawful ring_buffer_cache
caches-IsLawful = (no_cache-IsLawful, hash_map-IsLawful, ring_buffer-IsLawful)
