-- ===== src/Topology/PingPong.antt =====
-- src/topology/ping_pong.rs: two aggregators, leader and helper, that take turns.
pub mod Message
pub mod State
pub mod Continued
pub mod Protocol
use mastic.Prelude.{
  ℕ, List, [], ◌∷◌, reverse, Bool, true, false, Option, none, some, Result, ok, err, ◌>>=◌, map_err,
  if◌then◌else◌,
}
use mastic.Codec.Traits.{get_encoded, get_decoded_with_param}
use mastic.Vdaf.{PrepareTransition, Aggregator}
use Message.{PingPongMessage, variant}
use State.{
  PingPongError, vdaf_prepare_init, vdaf_prepare_shares_to_prepare_message, vdaf_prepare_next,
  codec_prep_share, codec_prep_message, host_state_mismatch, peer_message_mismatch,
  PingPongTransition, PingPongState, PingPongContinuedValue, with_message, finished_no_message,
}

module _ (vdaf : Aggregator) where
  open vdaf use {
    VerifyKey, AggregationParam, Nonce, PublicShare, InputShare, OutputShare, PrepareState,
    PrepareShare, PrepareMessage, prep_share_encode, prep_share_decode, prep_msg_encode,
    prep_msg_decode, prepare_init, prepare_shares_to_prepare_message, prepare_next,
  }

  abbrev Outbound : Type 0
  Outbound = PingPongState vdaf × PingPongMessage

  after_next :
      List ℕ
      → PrepareTransition PrepareState PrepareShare OutputShare
      → Result PingPongError Outbound
  after_next prep_msg (PrepareTransition.continue prep_state prep_share) = do
    share ← map_err codec_prep_share (get_encoded prep_share_encode prep_share)
    ok (PingPongState.continued prep_state, PingPongMessage.continue prep_msg share)
  after_next prep_msg (PrepareTransition.finish output_share) =
      ok (PingPongState.finished output_share, PingPongMessage.finish prep_msg)

  -- `PingPongTransition::evaluate`
  unfoldable pub evaluate : PingPongTransition vdaf → Result PingPongError Outbound
  unfolding after_next
  evaluate self = do
    prep_msg ← map_err codec_prep_message (get_encoded prep_msg_encode self.current_prepare_message)
    transition ←
        map_err vdaf_prepare_next
          (prepare_next self.previous_prepare_state self.current_prepare_message)
    after_next prep_msg transition

  unfoldable pub leader_initialized :
      VerifyKey
      → AggregationParam
      → Nonce
      → PublicShare
      → InputShare
      → Result PingPongError Outbound
  leader_initialized verify_key agg_param nonce public_share input_share = do
    (prep_state, prep_share) ←
        map_err vdaf_prepare_init
          (prepare_init verify_key 0 agg_param nonce public_share input_share)
    share ← map_err codec_prep_share (get_encoded prep_share_encode prep_share)
    ok (PingPongState.continued prep_state, PingPongMessage.initialize share)

  inbound_share : PrepareState → PingPongMessage → Result PingPongError PrepareShare
  inbound_share prep_state (PingPongMessage.initialize prep_share) =
      map_err codec_prep_share (get_decoded_with_param prep_share_decode prep_state prep_share)
  inbound_share prep_state inbound = err (peer_message_mismatch (variant inbound) "initialize")

  unfoldable pub helper_initialized :
      VerifyKey
      → AggregationParam
      → Nonce
      → PublicShare
      → InputShare
      → PingPongMessage
      → Result PingPongError (PingPongTransition vdaf)
  unfolding inbound_share
  helper_initialized verify_key agg_param nonce public_share input_share inbound = do
    (prep_state, prep_share) ←
        map_err vdaf_prepare_init
          (prepare_init verify_key 1 agg_param nonce public_share input_share)
    inbound_prep_share ← inbound_share prep_state inbound
    current_prepare_message ←
        map_err vdaf_prepare_shares_to_prepare_message
          (prepare_shares_to_prepare_message agg_param (inbound_prep_share ∷ prep_share ∷ []))
    ok (record {
      previous_prepare_state = prep_state;
      current_prepare_message = current_prepare_message;
    })

  -- The `match` on the transition and the peer's share, with the message for its errors.
  answer :
      Bool
      → AggregationParam
      → PingPongMessage
      → PrepareTransition PrepareState PrepareShare OutputShare
      → Option (List ℕ)
      → Result PingPongError (PingPongContinuedValue vdaf)
  answer is_leader agg_param inbound
        (PrepareTransition.continue next_prep_state next_host_prep_share)
        (some next_peer_prep_share) =
      do
        peer_share ←
            map_err codec_prep_share
              (get_decoded_with_param prep_share_decode next_prep_state next_peer_prep_share)
        let prep_shares = peer_share ∷ next_host_prep_share ∷ []
        current_prepare_message ← map_err vdaf_prepare_shares_to_prepare_message (
            prepare_shares_to_prepare_message agg_param
              (if is_leader then reverse prep_shares else prep_shares))
        ok (
            with_message (record {
              previous_prepare_state = next_prep_state;
              current_prepare_message = current_prepare_message;
            }))
  answer is_leader agg_param inbound (PrepareTransition.finish output_share) none =
      ok (finished_no_message output_share)
  answer is_leader agg_param inbound
        (PrepareTransition.continue next_prep_state next_host_prep_share) none =
      err (peer_message_mismatch (variant inbound) "continue")
  answer is_leader agg_param inbound (PrepareTransition.finish output_share)
        (some next_peer_prep_share) =
      err (peer_message_mismatch (variant inbound) "finish")

  -- From the decoding of the prepare message on.
  next :
      Bool
      → PrepareState
      → AggregationParam
      → PingPongMessage
      → List ℕ
      → Option (List ℕ)
      → Result PingPongError (PingPongContinuedValue vdaf)
  unfolding answer
  next is_leader host_prep_state agg_param inbound prep_msg next_peer_prep_share = do
    msg ←
        map_err codec_prep_message (get_decoded_with_param prep_msg_decode host_prep_state prep_msg)
    transition ← map_err vdaf_prepare_next (prepare_next host_prep_state msg)
    answer is_leader agg_param inbound transition next_peer_prep_share

  inspect :
      Bool
      → PrepareState
      → AggregationParam
      → PingPongMessage
      → Result PingPongError (PingPongContinuedValue vdaf)
  unfolding next
  inspect is_leader host_prep_state agg_param (PingPongMessage.initialize prep_share) =
      err (peer_message_mismatch (variant (PingPongMessage.initialize prep_share)) "continue")
  inspect is_leader host_prep_state agg_param (PingPongMessage.continue prep_msg prep_share) =
      next is_leader host_prep_state agg_param (PingPongMessage.continue prep_msg prep_share)
        prep_msg (some prep_share)
  inspect is_leader host_prep_state agg_param (PingPongMessage.finish prep_msg) =
      next is_leader host_prep_state agg_param (PingPongMessage.finish prep_msg) prep_msg none

  unfoldable pub continued :
      Bool
      → PingPongState vdaf
      → AggregationParam
      → PingPongMessage
      → Result PingPongError (PingPongContinuedValue vdaf)
  unfolding inspect
  continued is_leader (PingPongState.continued state) agg_param inbound =
      inspect is_leader state agg_param inbound
  continued is_leader (PingPongState.finished output_share) agg_param inbound =
      err (host_state_mismatch "finished" "continue")

  unfoldable pub leader_continued :
      PingPongState vdaf
      → AggregationParam
      → PingPongMessage
      → Result PingPongError (PingPongContinuedValue vdaf)
  unfolding continued
  leader_continued leader_state agg_param inbound = continued true leader_state agg_param inbound

  unfoldable pub helper_continued :
      PingPongState vdaf
      → AggregationParam
      → PingPongMessage
      → Result PingPongError (PingPongContinuedValue vdaf)
  unfolding continued
  helper_continued helper_state agg_param inbound = continued false helper_state agg_param inbound
