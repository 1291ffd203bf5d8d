-- ===== src/Vdaf/Dummy/Rounds.antt =====
-- src/vdaf/dummy.rs: the dummy VDAF takes the number of rounds that it is made for.
use mastic.Prelude.{
  ℕ, zero, suc, ◌+◌, ◌^◌, ◌<◌, ◌≡◌, refl, List, [], ok, stuck, leb, if◌then◌else◌, arith,
}
use mastic.Codec.Traits.{get_encoded, get_decoded_with_param}
use mastic.Codec.Ints.{unit_encode, unit_decode, unit_codec}
use mastic.Vdaf.{PrepareTransition}
use mastic.Vdaf.Dummy.{PrepareState, step, new, aggregator}
use mastic.Topology.PingPong.Protocol.{Sends, Prepares, last, round, run, run-Prepares}

abbrev at_round : ℕ → ℕ → PrepareState
at_round input_share current_round = record {
  input_share = input_share;
  current_round = current_round;
}

step_last :
    (rounds x k : ℕ)
    → suc k ≡ rounds
    → rounds < 2 ^ 32
    → step rounds (at_round x k) ≡ ok (PrepareTransition.finish x)
unfolding step
step_last rounds x k e fits = ground arith

step_on :
    (rounds x k : ℕ)
    → suc k < rounds
    → rounds < 2 ^ 32
    → step rounds (at_round x k) ≡ ok (PrepareTransition.continue (at_round x (suc k)) tt)
unfolding step
step_on rounds x k h fits = ground arith

-- The empty share and message survive the wire.
sends : (s : PrepareState) → Sends unit_codec (aggregator (new 1)).prep_share_decode s tt
unfolding get_encoded get_decoded_with_param unit_encode unit_decode
sends s = ([], refl, refl)

Prepares-dummy :
    (rounds param x y left k : ℕ)
    → suc left + k ≡ rounds
    → rounds < 2 ^ 32
    → Prepares (aggregator (new rounds)) param (suc left) (at_round x k) (at_round y k) tt x y
Prepares-dummy rounds param x y zero k e fits =
    last (sends _) (sends _) (step_last rounds x k (omega arith) fits)
      (step_last rounds y k (omega arith) fits)
Prepares-dummy rounds param x y (suc left) k e fits =
    round tt tt (sends _) (sends _) (step_on rounds x k (omega arith) fits)
      (step_on rounds y k (omega arith) fits) (sends _) (sends _) refl
      (Prepares-dummy rounds param x y left (suc k) (omega arith) fits)

-- Made for a positive number of rounds below 2 ^ 32, the dummy VDAF has ended the exchange, with
-- the two input shares as output shares, once that many calls of `evaluate` are made, and not with
-- fewer.
pub run-dummy :
    (rounds calls param x y : ℕ) (nonce : List ℕ)
    → 0 < rounds
    → rounds < 2 ^ 32
    → run (aggregator (new rounds)) param calls tt nonce tt x y
      ≡ (if leb rounds calls then ok (x, y) else stuck)
run-dummy zero calls param x y nonce pos fits = elim pos [ ]
run-dummy (suc left) calls param x y nonce pos fits =
    run-Prepares (aggregator (new (suc left))) param (suc left) calls tt nonce tt x y (at_round x 0)
      (at_round y 0) tt tt tt x y refl refl (sends _) refl
      (Prepares-dummy (suc left) param x y left 0 (omega arith) fits)
