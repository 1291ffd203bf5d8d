-- ===== src/Vdaf/Dummy.antt =====
-- src/vdaf/dummy.rs: the VDAF without cryptography on which the topology is tested.
pub mod Aggregate
pub mod Rounds
mod Examples
use mastic.Prelude.{
  ℕ, ◌+◌, ◌-◌, ◌%◌, ◌^◌, List, [], ◌∷◌, Bool, ◌==◌, ltb, if◌then◌else◌, Result, ok, err, panic,
  ◌>>=◌, ◌>>◌,
}
use mastic.Codec.Traits.{Encode, param_decode}
use mastic.Codec.Ints.{unit_codec, unit_decode}
use mastic.Vdaf.{VdafError, PrepareTransition, Aggregator}

abbrev pub modulus : ℕ
modulus = 256

pub record PrepareState : Type 0 where
  pub input_share : ℕ
  pub current_round : ℕ

abbrev pub Transition : Type 0
Transition = PrepareTransition PrepareState (Unit {0}) ℕ

-- The two functions that a test can replace.
pub record DummyVdaf : Type 0 where
  pub prep_init_fn : ℕ → Result VdafError (Unit {0})
  pub prep_step_fn : PrepareState → Result VdafError Transition

-- `current_round + 1` on `u32`, with overflow checks.
unfoldable pub step : ℕ → PrepareState → Result VdafError Transition
step rounds state =
    let new_round = state.current_round + 1 in
    if ltb new_round (2 ^ 32)
    then (if new_round == rounds
        then ok (PrepareTransition.finish state.input_share)
        else ok (PrepareTransition.continue (record state { current_round = new_round }) tt))
    else panic

abbrev pub new : ℕ → DummyVdaf
new rounds = record { prep_init_fn = λ _. ok tt; prep_step_fn = λ state. step rounds state }

-- The trait `Aggregator`: the verify key and the public share are empty.
abbrev pub aggregator : DummyVdaf → Aggregator
aggregator self = record {
  VerifyKey = Unit {0};
  AggregationParam = ℕ;
  Nonce = List ℕ;
  PublicShare = Unit {0};
  InputShare = ℕ;
  OutputShare = ℕ;
  PrepareState = PrepareState;
  PrepareShare = Unit {0};
  PrepareMessage = Unit {0};
  prep_share_encode = unit_codec;
  prep_share_decode = param_decode (record { decode = unit_decode });
  prep_msg_encode = unit_codec;
  prep_msg_decode = param_decode (record { decode = unit_decode });
  prepare_init = λ verify_key agg_id aggregation_param nonce public_share input_share. do
    self.prep_init_fn aggregation_param
    ok (record { input_share = input_share; current_round = 0 }, tt);
  prepare_shares_to_prepare_message = λ agg_param shares. ok tt;
  prepare_next = λ state message. self.prep_step_fn state;
}

-- `AggregateShare`: `merge` and `accumulate` are the same sum.
unfoldable pub accumulate : ℕ → ℕ → ℕ
accumulate self out_share = (self + out_share) % modulus

unfoldable pub aggregate_from : ℕ → List ℕ → ℕ
aggregate_from aggregate_share [] = aggregate_share
aggregate_from aggregate_share (output_share ∷ output_shares) =
    aggregate_from (accumulate aggregate_share output_share) output_shares

unfoldable pub aggregate : List ℕ → ℕ
unfolding aggregate_from accumulate
aggregate output_shares = aggregate_from 0 output_shares

-- The first input share is the random byte `r`; `overflowing_sub` on `u8` gives the second.
unfoldable pub shard : ℕ → ℕ → List ℕ
shard measurement r = r ∷ ((measurement + 256 - r) % 256) ∷ []

unfoldable pub fold_shares : ℕ → List ℕ → ℕ
fold_shares acc [] = acc
fold_shares acc (share ∷ shares) = fold_shares ((acc + share) % modulus) shares

unfoldable pub unshard : ℕ → List ℕ → ℕ
unfolding fold_shares
unshard aggregation_param agg_shares = fold_shares 0 agg_shares + aggregation_param

unfoldable pub sum : List ℕ → ℕ
sum [] = 0
sum (m ∷ measurements) = m + sum measurements

unfoldable pub expected_aggregate_result : ℕ → List ℕ → ℕ
unfolding sum
expected_aggregate_result aggregation_parameter measurements =
    sum measurements % modulus + aggregation_parameter
