-- ===== src/Vdaf/Dummy/Aggregate.antt =====
-- src/vdaf/dummy.rs: sharding, aggregating and unsharding give the expected result.
use mastic.Prelude.{ℕ, zero, suc, ◌+◌, ◌%◌, ◌<◌, ◌≡◌, refl, List, [], ◌∷◌, All, arith, map}
use mastic.Vdaf.Dummy.{
  accumulate, aggregate_from, aggregate, shard, unshard, sum, expected_aggregate_result,
}

-- A measurement and the random byte that shards it.
abbrev pub IsInput : ℕ × ℕ → Type 0
IsInput (measurement, r) = (measurement < 256) × (r < 256)

abbrev pub measurement_of : ℕ × ℕ → ℕ
measurement_of (measurement, r) = measurement

abbrev nth_or_zero : List ℕ → ℕ → ℕ
nth_or_zero [] i = 0
nth_or_zero (x ∷ xs) zero = x
nth_or_zero (x ∷ xs) (suc i) = nth_or_zero xs i

-- The input share of an aggregator, which becomes its output share.
abbrev pub share_of : ℕ → ℕ × ℕ → ℕ
share_of agg_id (measurement, r) = nth_or_zero (shard measurement r) agg_id

aggregate_from-sum :
    (acc : ℕ) (xs : List ℕ) → acc < 256 → aggregate_from acc xs ≡ (acc + sum xs) % 256
unfolding aggregate_from accumulate sum
aggregate_from-sum acc [] h = omega arith
aggregate_from-sum acc (x ∷ xs) h =
    omega (arith, aggregate_from-sum ((acc + x) % 256) xs (omega arith))

shares-sum :
    (inputs : List (ℕ × ℕ))
    → All IsInput inputs
    → (sum (map (share_of 0) inputs) + sum (map (share_of 1) inputs)) % 256
      ≡ sum (map measurement_of inputs) % 256
unfolding sum shard
shares-sum [] h = refl
shares-sum ((m, r) ∷ inputs) ((hm, hr), h) = omega (arith, shares-sum inputs h)

-- Each aggregator sums its shares of all inputs; the two sums unshard to the expected result.
pub unshard-aggregate :
    (param : ℕ) (inputs : List (ℕ × ℕ))
    → All IsInput inputs
    → unshard param (aggregate (map (share_of 0) inputs) ∷ aggregate (map (share_of 1) inputs) ∷ [])
      ≡ expected_aggregate_result param (map measurement_of inputs)
unfolding unshard aggregate expected_aggregate_result
unshard-aggregate param inputs h = omega (
  arith,
  aggregate_from-sum 0 (map (share_of 0) inputs) (omega arith),
  aggregate_from-sum 0 (map (share_of 1) inputs) (omega arith),
  shares-sum inputs h,
)
