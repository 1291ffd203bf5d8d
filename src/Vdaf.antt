-- ===== src/Vdaf.antt =====
-- src/vdaf.rs: what a VDAF offers to the topology that runs its preparation.
pub mod Dummy
use Prim.Native.String.{String}
use mastic.Prelude.{ℕ, List, Result}
use mastic.Idpf.Errors.{IdpfError}
use mastic.Codec.Traits.{Encode, ParameterizedDecode}

-- The other errors that a VDAF wraps are told apart by their origin only.
pub data VdafError : Type 0 where
  uncategorized : String → VdafError
  idpf : IdpfError → VdafError
  field io_error flp prng get_random vidpf other : VdafError

-- `PrepareTransition`, over the types of the aggregator.
pub data PrepareTransition (State Share Output : Type 0) : Type 0 where
  continue : State → Share → PrepareTransition State Share Output
  finish : Output → PrepareTransition State Share Output

-- The trait `Aggregator`, at one value of the implementing type: `&self` is in the functions.
pub record Aggregator : Type 1 where
  pub VerifyKey : Type 0
  pub AggregationParam : Type 0
  pub Nonce : Type 0
  pub PublicShare : Type 0
  pub InputShare : Type 0
  pub OutputShare : Type 0
  pub PrepareState : Type 0
  pub PrepareShare : Type 0
  pub PrepareMessage : Type 0
  pub prep_share_encode : Encode PrepareShare
  pub prep_share_decode : ParameterizedDecode PrepareState PrepareShare
  pub prep_msg_encode : Encode PrepareMessage
  pub prep_msg_decode : ParameterizedDecode PrepareState PrepareMessage
  pub prepare_init :
      VerifyKey
      → ℕ
      → AggregationParam
      → Nonce
      → PublicShare
      → InputShare
      → Result VdafError (PrepareState × PrepareShare)
  pub prepare_shares_to_prepare_message :
      AggregationParam → List PrepareShare → Result VdafError PrepareMessage
  pub prepare_next :
      PrepareState
      → PrepareMessage
      → Result VdafError (PrepareTransition PrepareState PrepareShare OutputShare)
