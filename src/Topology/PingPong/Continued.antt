-- ===== src/Topology/PingPong/Continued.antt =====
-- src/topology/ping_pong.rs: when a host that continues succeeds, and with what.
use mastic.Prelude.{
  ◌≡◌, refl, ◌↔◌, List, [], ◌∷◌, reverse, Bool, true, false, none, some, ok, >>=-eq-ok, map_err,
  map_err-eq-ok, ok-injective, if◌then◌else◌, subst, ℕ,
}
use mastic.Codec.Traits.{get_decoded_with_param}
use mastic.Vdaf.{PrepareTransition, Aggregator}
use mastic.Topology.PingPong.{continued, answer}
use mastic.Topology.PingPong.Message.{PingPongMessage}
use mastic.Topology.PingPong.State.{
  vdaf_prepare_shares_to_prepare_message, vdaf_prepare_next, codec_prep_share, codec_prep_message,
  PingPongTransition, PingPongState, PingPongContinuedValue, with_message, finished_no_message,
}

module _ (vdaf : Aggregator) where
  open vdaf use {
    AggregationParam, OutputShare, PrepareState, PrepareShare, PrepareMessage, prep_share_decode,
    prep_msg_decode, prepare_shares_to_prepare_message, prepare_next,
  }

  -- The shares in the order of the aggregators, the leader's first.
  abbrev pub in_order : Bool → PrepareShare → PrepareShare → List PrepareShare
  in_order is_leader host peer = if is_leader then host ∷ peer ∷ [] else peer ∷ host ∷ []

  ordered :
      (is_leader : Bool) (host peer : PrepareShare)
      → (if is_leader then reverse (peer ∷ host ∷ []) else peer ∷ host ∷ [])
        ≡ in_order is_leader host peer
  ordered true host peer = refl
  ordered false host peer = refl

  -- What a host in a prepare state answers to a message of its peer.
  pub data Answers (is_leader : Bool) (agg_param : AggregationParam) (state : PrepareState)
      : PingPongMessage → PingPongContinuedValue vdaf → Type 0 where
    finishes :
        {bytes : List ℕ} {output : OutputShare} (msg : PrepareMessage)
        → get_decoded_with_param prep_msg_decode state bytes ≡ ok msg
        → prepare_next state msg ≡ ok (PrepareTransition.finish output)
        → Answers is_leader agg_param state
            (PingPongMessage.finish bytes)
            (finished_no_message output)
    goes_on :
        {bytes peer_bytes : List ℕ} {t : PingPongTransition vdaf} (msg : PrepareMessage)
        (share peer_share : PrepareShare)
        → get_decoded_with_param prep_msg_decode state bytes ≡ ok msg
        → prepare_next state msg ≡ ok (PrepareTransition.continue t.previous_prepare_state share)
        → get_decoded_with_param prep_share_decode t.previous_prepare_state peer_bytes
          ≡ ok peer_share
        → prepare_shares_to_prepare_message agg_param (in_order is_leader share peer_share)
          ≡ ok t.current_prepare_message
        → Answers is_leader agg_param state
            (PingPongMessage.continue bytes peer_bytes)
            (with_message t)

  -- A success is such an answer.
  continued-Answers :
      (is_leader : Bool) (agg_param : AggregationParam) (state : PrepareState)
      (inbound : PingPongMessage) (value : PingPongContinuedValue vdaf)
      → continued vdaf is_leader (PingPongState.continued state) agg_param inbound ≡ ok value
      → Answers is_leader agg_param state inbound value
  unfolding continued
  continued-Answers is_leader agg_param state (PingPongMessage.initialize share) value h = cc
  continued-Answers is_leader agg_param state (PingPongMessage.finish bytes) value h =
      let (msg, e₁, h₁) =
        >>=-eq-ok (map_err codec_prep_message (get_decoded_with_param prep_msg_decode state bytes))
          _ h in
      let (transition, e₂, h₂) =
        >>=-eq-ok (map_err vdaf_prepare_next (prepare_next state msg)) _ h₁ in
      ends transition value msg (map_err-eq-ok _ _ e₁) (map_err-eq-ok _ _ e₂) h₂
    where
      ends :
          (transition : PrepareTransition PrepareState PrepareShare OutputShare)
          (value : PingPongContinuedValue vdaf) (msg : PrepareMessage)
          → get_decoded_with_param prep_msg_decode state bytes ≡ ok msg
          → prepare_next state msg ≡ ok transition
          → answer vdaf is_leader agg_param (PingPongMessage.finish bytes) transition none
            ≡ ok value
          → Answers is_leader agg_param state (PingPongMessage.finish bytes) value
      ends (PrepareTransition.continue s share) v msg e₁ e₂ h = cc
      ends (PrepareTransition.finish out) v msg e₁ e₂ h =
          subst (Answers is_leader agg_param state (PingPongMessage.finish bytes)) (ok-injective h)
            (finishes msg e₁ e₂)
  continued-Answers is_leader agg_param state (PingPongMessage.continue bytes peer_bytes) value h =
      let inbound = PingPongMessage.continue bytes peer_bytes in
      let (msg, e₁, h₁) =
        >>=-eq-ok (map_err codec_prep_message (get_decoded_with_param prep_msg_decode state bytes))
          _ h in
      let (transition, e₂, h₂) =
        >>=-eq-ok (map_err vdaf_prepare_next (prepare_next state msg)) _ h₁ in
      ends transition value msg (map_err-eq-ok _ _ e₁) (map_err-eq-ok _ _ e₂) h₂
    where
      ends :
          (transition : PrepareTransition PrepareState PrepareShare OutputShare)
          (value : PingPongContinuedValue vdaf) (msg : PrepareMessage)
          → get_decoded_with_param prep_msg_decode state bytes ≡ ok msg
          → prepare_next state msg ≡ ok transition
          → answer vdaf is_leader agg_param
              (PingPongMessage.continue bytes peer_bytes)
              transition
              (some peer_bytes)
            ≡ ok value
          → Answers is_leader agg_param state (PingPongMessage.continue bytes peer_bytes) value
      ends (PrepareTransition.finish out) v msg e₁ e₂ h = cc
      ends (PrepareTransition.continue s share) v msg e₁ e₂ h =
          let (peer, e₃, h₃) =
            >>=-eq-ok
              (map_err codec_prep_share (get_decoded_with_param prep_share_decode s peer_bytes)) _
              h in
          let (m, e₄, h₄) =
            >>=-eq-ok
              (map_err vdaf_prepare_shares_to_prepare_message (
                prepare_shares_to_prepare_message agg_param
                  (if is_leader then reverse (peer ∷ share ∷ []) else peer ∷ share ∷ [])))
              _ h₃ in
          subst (Answers is_leader agg_param state (PingPongMessage.continue bytes peer_bytes))
            (ok-injective h₄)
            (goes_on {t = record { previous_prepare_state = s; current_prepare_message = m }} msg
              share peer e₁ e₂ (map_err-eq-ok _ _ e₃)
              (subst
                (λ (xs : List PrepareShare). prepare_shares_to_prepare_message agg_param xs ≡ ok m)
                (ordered is_leader share peer) (map_err-eq-ok _ _ e₄)))

  pub Answers-continued :
      (is_leader : Bool) (agg_param : AggregationParam) (state : PrepareState)
      {inbound : PingPongMessage} {value : PingPongContinuedValue vdaf}
      → Answers is_leader agg_param state inbound value
      → continued vdaf is_leader (PingPongState.continued state) agg_param inbound ≡ ok value
  unfolding continued
  Answers-continued is_leader agg_param state (finishes msg e₁ e₂) = rw (e₁, e₂)
  Answers-continued is_leader agg_param state (goes_on msg share peer e₁ e₂ e₃ e₄) =
      rw (e₁, e₂) (rw (e₃, ordered is_leader share peer, e₄))

  -- A host that is asked to go on succeeds exactly if it is in a prepare state, the message is no
  -- `Initialize`, and the VDAF finishes on a `Finish` message and continues on a `Continue` message;
  -- then the leader's share comes first, whoever the host is.
  pub continued_iff :
      (is_leader : Bool) (agg_param : AggregationParam) (host : PingPongState vdaf)
      (inbound : PingPongMessage) (value : PingPongContinuedValue vdaf)
      → (continued vdaf is_leader host agg_param inbound ≡ ok value) ↔ (
          (state : PrepareState) × (host ≡ PingPongState.continued state)
          × Answers is_leader agg_param state inbound value)
  continued_iff is_leader agg_param host inbound value = (into host, back)
    where
      into :
          (host : PingPongState vdaf)
          → continued vdaf is_leader host agg_param inbound ≡ ok value
          → (state : PrepareState) × (host ≡ PingPongState.continued state)
            × Answers is_leader agg_param state inbound value
      into (PingPongState.continued state) h =
          (state, refl, continued-Answers is_leader agg_param state inbound value h)
      into (PingPongState.finished output) h = unfold continued in cc

      back :
          (state : PrepareState) × (host ≡ PingPongState.continued state)
            × Answers is_leader agg_param state inbound value
          → continued vdaf is_leader host agg_param inbound ≡ ok value
      back (state, e, a) = rw e (Answers-continued is_leader agg_param state a)
