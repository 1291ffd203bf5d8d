-- ===== src/Idpf/Examples.antt =====
-- The theorems on src/idpf.rs at concrete inputs: a stream that repeats a byte of the seed, and
-- values that are single bits.
use mastic.Prelude.{
  ℕ, ◌+◌, ◌++◌, length, ◌≡◌, refl, arith, Bool, true, false, List, [], ◌∷◌, ◌==◌, ok, some, reverse,
}
use mastic.Codec.Traits.{Writes, Reads}
use mastic.Codec.Ints.{u8_encode, u8_decode}
use mastic.Codec.Ints.RoundTrip.{u8_decode-Reads, u8_encode-Writes}
use mastic.Idpf.BitVec.{into_vec}
use mastic.Idpf.Level.{IdpfCorrectionWord}
use mastic.Idpf.Wire.{
  public_share_encode, public_share_decode, public_share_encoded_len, words_encode, words_bits,
  word_encode, seed_encode,
}
use mastic.Idpf.Wire.Words.{Survives}
use mastic.Idpf.Wire.RoundTrip.{public_share_decode-public_share_encode}
use mastic.Idpf.Seeds.{
  repeat, xor_seeds, and_seeds, or_seeds, control_bit_to_seed_mask, conditional_xor_seeds,
  conditional_select_seed,
}
use mastic.Idpf.Toy.{toy_xof, toy-IsStream, bit_value, bit-IsGroup}
use mastic.Idpf.Level.{steal, extend, convert, generate_correction_word}
use mastic.Idpf.Cache.{
  IdpfCache, lookup, HashMapCache, new_hash_map_cache, hash_map_cache, RingBufferCache,
  ring_buffer_cache, ring_insert,
}
use mastic.Idpf.Cache.Laws.{
  IsLawful, hash_map-IsLawful, ring_buffer-IsLawful, IsBounded, ring_insert-IsBounded,
}
use mastic.Idpf.Tree.{
  Idpf, IdpfPublicShare, IdpfOutputShare, extend_dst, convert_dst, gen_inner, gen_with_random, eval,
  merge,
}
use mastic.Idpf.Tree.Cached.{empty-IsConsistent}
use mastic.Idpf.Tree.Refine.{Consistent}
use mastic.Idpf.Tree.Evaluate.{share_at}
use mastic.Idpf.Tree.Transparent.{eval_lem, EvalCases, eval-cases}
use mastic.Idpf.Tree.Generated.{GenCases, gen_with_random-cases}
use mastic.Idpf.Tree.Merge.{point_function, merge-eval}

abbrev toy : Idpf (Unit {0}) (Unit {0})
toy = record { inner_node_value_parameter = tt; leaf_node_value_parameter = tt }

abbrev leader_seed : List ℕ
leader_seed = repeat 16 17

abbrev helper_seed : List ℕ
helper_seed = repeat 16 200

abbrev binder : List ℕ
binder = 5 ∷ []

abbrev input : List Bool
input = true ∷ false ∷ []

-- What the generation gives for this input.
abbrev public_share : IdpfPublicShare Bool Bool
public_share = record {
  inner_correction_words =
      record { seed = 200 ∷ repeat 15 201; control_bits = (true, false); value = true } ∷ [];
  leaf_correction_word = record { seed = repeat 16 2; control_bits = (true, false); value = true };
}

generated :
    gen_with_random toy_xof bit_value bit_value toy input
      (true ∷ [])
      true
      binder
      (leader_seed, helper_seed)
    ≡ ok (public_share, (leader_seed, helper_seed))
unfolding gen_with_random gen_inner generate_correction_word extend convert steal
    conditional_select_seed conditional_xor_seeds xor_seeds and_seeds or_seeds
    control_bit_to_seed_mask
generated = refl

abbrev Fresh : {C : Type 0} → (cache : IdpfCache C) → IsLawful cache → C → Bool → List ℕ → Type 0
Fresh cache lawful c is_leader key =
    Consistent toy_xof bit_value bit_value toy cache lawful is_leader public_share binder key c

ring-Fresh :
    Fresh ring_buffer_cache ring_buffer-IsLawful
      (record { ring = []; capacity = 2 })
      true
      leader_seed
unfolding lookup
ring-Fresh =
    empty-IsConsistent toy_xof bit_value tt (toy_xof.new extend_dst binder)
      (toy_xof.new convert_dst binder) ring_buffer_cache true ring_buffer-IsLawful
      public_share.inner_correction_words leader_seed (record { ring = []; capacity = 2 })
      (λ node. refl)

map-Fresh : Fresh hash_map_cache hash_map-IsLawful new_hash_map_cache false helper_seed
unfolding lookup
map-Fresh =
    empty-IsConsistent toy_xof bit_value tt (toy_xof.new extend_dst binder)
      (toy_xof.new convert_dst binder) hash_map_cache false hash_map-IsLawful
      public_share.inner_correction_words helper_seed new_hash_map_cache (λ node. refl)

abbrev Shares : Type 0
Shares = IdpfOutputShare Bool Bool

merge-eval_example :
    (share : Shares) × (c' : RingBufferCache) × (share' : Shares) × (d' : HashMapCache) × (eval
        toy_xof bit_value bit_value toy ring_buffer_cache 0 public_share leader_seed input binder
        (record { ring = []; capacity = 2 })
      ≡ ok (share, c'))
    × (eval toy_xof bit_value bit_value toy hash_map_cache 1 public_share helper_seed input binder
          new_hash_map_cache
        ≡ ok (share', d'))
    × (merge bit_value bit_value share share'
        ≡ ok (point_function toy_xof bit_value bit_value toy input (true ∷ []) true input))
merge-eval_example =
    merge-eval toy toy-IsStream bit-IsGroup bit-IsGroup ring_buffer_cache hash_map_cache
      ring_buffer-IsLawful hash_map-IsLawful input (true ∷ []) true binder
      (leader_seed, helper_seed) public_share (leader_seed, helper_seed) input
      (record { ring = []; capacity = 2 }) new_hash_map_cache (tt, tt) tt generated (omega arith)
      (omega arith) ring-Fresh map-Fresh

abbrev small_ring : RingBufferCache
small_ring = record { ring = []; capacity = 2 }

eval_lem_example :
    (share : Shares) × (c' : RingBufferCache) × (eval toy_xof bit_value bit_value toy
        ring_buffer_cache 0 public_share leader_seed input binder small_ring
      ≡ ok (share, c'))
    × (share_at toy_xof bit_value bit_value toy (0 == 0) public_share binder leader_seed input
        ≡ ok share)
    × Fresh ring_buffer_cache ring_buffer-IsLawful c' (0 == 0) leader_seed
eval_lem_example =
    eval_lem toy_xof bit_value bit_value toy ring_buffer_cache 0 public_share leader_seed input
      binder ring_buffer-IsLawful small_ring (omega arith, omega arith, omega arith) ring-Fresh

-- A prefix that is too long.
eval-cases_example :
    EvalCases toy_xof bit_value bit_value toy ring_buffer_cache 0 public_share leader_seed
      (true ∷ true ∷ true ∷ [])
      binder
      small_ring
eval-cases_example =
    eval-cases toy_xof bit_value bit_value toy ring_buffer_cache 0 public_share leader_seed
      (true ∷ true ∷ true ∷ []) binder ring_buffer-IsLawful small_ring ring-Fresh

-- A value too few.
gen_with_random-cases_example :
    GenCases toy toy-IsStream bit-IsGroup bit-IsGroup input [] true binder
      (leader_seed, helper_seed)
gen_with_random-cases_example =
    gen_with_random-cases toy toy-IsStream bit-IsGroup bit-IsGroup input [] true binder
      (leader_seed, helper_seed) tt tt

abbrev full_ring : RingBufferCache
full_ring = record { ring = (true ∷ [], (leader_seed, 1)) ∷ []; capacity = 1 }

ring_insert-IsBounded_example :
    IsBounded (ring_insert full_ring (false ∷ []) (helper_seed, 0))
    × (lookup (reverse (ring_insert full_ring (false ∷ []) (helper_seed, 0)).ring) (false ∷ [])
        ≡ some (helper_seed, 0))
ring_insert-IsBounded_example =
    ring_insert-IsBounded full_ring (false ∷ []) (helper_seed, 0)
      (record { room = omega arith; fits = omega arith })

-- Values that are a byte.
abbrev word : List ℕ → Bool × Bool → ℕ → IdpfCorrectionWord ℕ
word seed bits value = record { seed = seed; control_bits = bits; value = value }

abbrev byte_share : IdpfPublicShare ℕ ℕ
byte_share = record {
  inner_correction_words = word (repeat 16 1) (true, false) 5 ∷ [];
  leaf_correction_word = word (repeat 16 2) (true, true) 7;
}

-- The control bits of the first word are the lowest of the first byte.
byte_share_written :
    public_share_encode u8_encode u8_encode byte_share []
    ≡ ok (13 ∷ (repeat 16 1 ++ (5 ∷ (repeat 16 2 ++ (7 ∷ [])))))
unfolding public_share_encode words_encode words_bits word_encode seed_encode into_vec u8_encode
byte_share_written = refl

abbrev ByteSurvives : IdpfCorrectionWord ℕ → Type 0
ByteSurvives = Survives u8_encode u8_decode (λ v. some 1) (λ v. v ∷ [])

byte-Survives :
    (seed : List ℕ) (bits : Bool × Bool) (v : ℕ)
    → length seed ≡ 16
    → ByteSurvives (word seed bits v)
byte-Survives seed bits v h = record {
  seed_size = h;
  written = u8_encode-Writes v;
  announced = refl;
  read = u8_decode-Reads v;
}

public_share_decode-public_share_encode_example :
    (enc : List ℕ) × Writes (public_share_encode u8_encode u8_encode) byte_share enc
    × Reads
        (public_share_decode u8_decode u8_decode (length byte_share.inner_correction_words + 1))
        enc
        byte_share
    × (public_share_encoded_len (λ v. some 1) (λ v. some 1) byte_share ≡ some (length enc))
public_share_decode-public_share_encode_example =
    public_share_decode-public_share_encode u8_encode u8_decode (λ v. some 1) (λ v. v ∷ [])
      u8_encode u8_decode (λ v. some 1) (λ v. v ∷ []) byte_share
      (byte-Survives (repeat 16 1) (true, false) 5 refl, tt)
      (byte-Survives (repeat 16 2) (true, true) 7 refl)
