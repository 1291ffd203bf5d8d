-- ===== src/Topology/PingPong/State.antt =====
-- src/topology/ping_pong.rs: the states of a host, and the errors.
use Prim.Native.String.{String}
use mastic.Codec.Cursor.{CodecError}
use mastic.Vdaf.{VdafError, Aggregator}

pub data PingPongError : Type 0 where
  vdaf_prepare_init : VdafError → PingPongError
  vdaf_prepare_shares_to_prepare_message : VdafError → PingPongError
  vdaf_prepare_next : VdafError → PingPongError
  codec_prep_share : CodecError → PingPongError
  codec_prep_message : CodecError → PingPongError
  -- What was found, and what was expected.
  host_state_mismatch : String → String → PingPongError
  peer_message_mismatch : String → String → PingPongError
  internal_error : String → PingPongError

module _ (vdaf : Aggregator) where
  pub record PingPongTransition : Type 0 where
    pub previous_prepare_state : vdaf.PrepareState
    pub current_prepare_message : vdaf.PrepareMessage

  pub data PingPongState : Type 0 where
    continued : vdaf.PrepareState → PingPongState
    finished : vdaf.OutputShare → PingPongState

  pub data PingPongContinuedValue : Type 0 where
    with_message : PingPongTransition → PingPongContinuedValue
    finished_no_message : vdaf.OutputShare → PingPongContinuedValue
