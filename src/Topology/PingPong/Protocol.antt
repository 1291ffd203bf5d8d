-- ===== src/Topology/PingPong/Protocol.antt =====
-- src/topology/ping_pong.rs: a whole exchange of messages carries out the preparation of the VDAF.
-- The exchange is what the users of the topology do: each host evaluates its transition, and sends
-- the message to the other.
use mastic.Prelude.{
  ℕ, zero, suc, ◌≡◌, refl, ◌∙◌, arith, leb, leb→le, List, [], ◌∷◌, Bool, true, false, not, Result,
  ok, panic, stuck, ◌>>=◌, if◌then◌else◌,
}
use mastic.Codec.Traits.{Encode, ParameterizedDecode, get_encoded, get_decoded_with_param}
use mastic.Vdaf.{PrepareTransition, Aggregator}
use mastic.Topology.PingPong.{evaluate, leader_initialized, helper_initialized, continued}
use mastic.Topology.PingPong.State.{
  PingPongError, PingPongTransition, PingPongState, with_message, finished_no_message,
}
use mastic.Topology.PingPong.Continued.{finishes, goes_on, Answers-continued}

-- `x` survives the wire to a receiver in state `s`.
abbrev pub Sends : {S A : Type 0} → Encode A → ParameterizedDecode S A → S → A → Type 0
Sends e d s x =
    (bytes : List ℕ) × (get_encoded e x ≡ ok bytes) × (get_decoded_with_param d s bytes ≡ ok x)

-- A round takes a call.
leb-pred : (n calls : ℕ) {enough : Bool} → leb (suc n) (suc calls) ≡ enough → leb n calls ≡ enough
leb-pred n calls e = pred n calls ∙ e
  where
    pred : (n calls : ℕ) → leb n calls ≡ leb (suc n) (suc calls)
    pred n calls = ground arith

refused : (calls : ℕ) → leb 1 (suc calls) ≡ false → ⊥
refused calls e = ground arith

module _ {E A : Type 0} where
  no_calls :
      (n : ℕ) (a : A) {enough : Bool}
      → leb (suc n) 0 ≡ enough
      → ◌≡◌ {A = Result E A} stuck (if enough then ok a else stuck)
  no_calls n a {enough = false} e = refl
  no_calls n a {enough = true} e = elim (leb→le (suc n) 0 e) [ ]

  one_call :
      (calls : ℕ) (a : A) {enough : Bool}
      → leb 1 (suc calls) ≡ enough
      → ◌≡◌ {A = Result E A} (ok a) (if enough then ok a else stuck)
  one_call calls a {enough = true} e = refl
  one_call calls a {enough = false} e = absurd (refused calls e)

module _ (vdaf : Aggregator) (agg_param : vdaf.AggregationParam) where
  open vdaf use {
    OutputShare, PrepareState, PrepareShare, PrepareMessage, prep_share_encode, prep_share_decode,
    prep_msg_encode, prep_msg_decode, prepare_shares_to_prepare_message, prepare_next,
  }

  abbrev SendsShare : PrepareState → PrepareShare → Type 0
  SendsShare = Sends prep_share_encode prep_share_decode

  abbrev SendsMessage : PrepareState → PrepareMessage → Type 0
  SendsMessage = Sends prep_msg_encode prep_msg_decode

  -- The preparation by leader and helper from their states and a prepare message on: both step in
  -- each round, and the shares of a round, the leader's first, make the next message.
  pub data Prepares
      : ℕ → PrepareState → PrepareState → PrepareMessage → OutputShare → OutputShare → Type 0 where
    last :
        {l h : PrepareState} {m : PrepareMessage} {out_l out_h : OutputShare}
        → SendsMessage l m
        → SendsMessage h m
        → prepare_next l m ≡ ok (PrepareTransition.finish out_l)
        → prepare_next h m ≡ ok (PrepareTransition.finish out_h)
        → Prepares 1 l h m out_l out_h
    round :
        {n : ℕ} {l h l' h' : PrepareState} {m m' : PrepareMessage} {out_l out_h : OutputShare}
        (p_l p_h : PrepareShare)
        → SendsMessage l m
        → SendsMessage h m
        → prepare_next l m ≡ ok (PrepareTransition.continue l' p_l)
        → prepare_next h m ≡ ok (PrepareTransition.continue h' p_h)
        → SendsShare h' p_l
        → SendsShare l' p_h
        → prepare_shares_to_prepare_message agg_param (p_l ∷ p_h ∷ []) ≡ ok m'
        → Prepares n l' h' m' out_l out_h
        → Prepares (suc n) l h m out_l out_h

  -- What the peer of the sender ends with, and the output shares in the order of the aggregators.
  conclude :
      Bool → PingPongState vdaf → OutputShare → Result PingPongError (OutputShare × OutputShare)
  conclude is_leader (PingPongState.finished mine) theirs =
      ok (if is_leader then (mine, theirs) else (theirs, mine))
  conclude is_leader (PingPongState.continued state) theirs = panic

  -- `is_leader` says who holds the transition. Each round of preparation takes one call.
  pub exchange :
      ℕ
      → Bool
      → PingPongTransition vdaf
      → PingPongState vdaf
      → Result PingPongError (OutputShare × OutputShare)
  exchange zero is_leader transition peer = stuck
  exchange (suc rounds) is_leader transition peer = evaluate vdaf transition >>= λ (state, message).
      continued vdaf (not is_leader) peer agg_param message >>= λ value. elim value [
        | with_message answer ↦ exchange rounds (not is_leader) answer state
        | finished_no_message theirs ↦ conclude is_leader state theirs
      ]

  abbrev holds : Bool → PrepareState → PrepareState → PrepareState
  holds is_leader l h = if is_leader then l else h

  abbrev step_from : PrepareState → PrepareMessage → PingPongTransition vdaf
  step_from state m = record { previous_prepare_state = state; current_prepare_message = m }

  -- The exchange of a preparation of `n` rounds, with `calls` calls of `evaluate` to use.
  exchange-Prepares :
      (calls : ℕ) {n : ℕ} {l h : PrepareState} {m : PrepareMessage} {out_l out_h : OutputShare}
      (enough is_leader : Bool)
      → Prepares n l h m out_l out_h
      → leb n calls ≡ enough
      → exchange calls is_leader
          (step_from (holds is_leader l h) m)
          (PingPongState.continued (holds is_leader h l))
        ≡ (if enough then ok (out_l, out_h) else stuck)
  unfolding exchange evaluate conclude
  exchange-Prepares zero enough is_leader (last sl sh nl nh) e = no_calls 0 _ e
  exchange-Prepares zero enough is_leader (round {n = n} p_l p_h sl sh nl nh dl dh c rest) e =
      no_calls n _ e
  exchange-Prepares (suc calls) enough true (last (bl, el, dl) (bh, eh, dh) nl nh) e =
      rw (eh, nl)
        (rw (Answers-continued vdaf false agg_param _ (finishes _ dh nh)) (one_call calls _ e))
  exchange-Prepares (suc calls) enough false (last (bl, el, dl) (bh, eh, dh) nl nh) e =
      rw (el, nh)
        (rw (Answers-continued vdaf true agg_param _ (finishes _ dl nl)) (one_call calls _ e))
  exchange-Prepares (suc calls) enough true
        (round {n = n} p_l p_h (bl, el, dl) (bh, eh, dh) nl nh (sl, esl, dsl) (sh, esh, dsh) c rest)
        e =
      rw (eh, nl)
        (rw (esl, Answers-continued vdaf false agg_param _ (goes_on _ p_h p_l dh nh dsl c))
          (exchange-Prepares calls enough false rest (leb-pred n calls e)))
  exchange-Prepares (suc calls) enough false
        (round {n = n} p_l p_h (bl, el, dl) (bh, eh, dh) nl nh (sl, esl, dsl) (sh, esh, dsh) c rest)
        e =
      rw (el, nh)
        (rw (esh, Answers-continued vdaf true agg_param _ (goes_on _ p_l p_h dl nl dsh c))
          (exchange-Prepares calls enough true rest (leb-pred n calls e)))

  open vdaf use {VerifyKey, Nonce, PublicShare, InputShare, prepare_init}

  -- Both hosts start on a report, and then take turns.
  pub run :
      ℕ
      → VerifyKey
      → Nonce
      → PublicShare
      → InputShare
      → InputShare
      → Result PingPongError (OutputShare × OutputShare)
  unfolding exchange
  run rounds verify_key nonce public_share leader_share helper_share =
      leader_initialized vdaf verify_key agg_param nonce public_share leader_share
      >>= λ (leader_state, message).
          helper_initialized vdaf verify_key agg_param nonce public_share helper_share message
          >>= λ transition. exchange rounds false transition leader_state

  -- If the VDAF prepares a report in `n` rounds and its shares and messages survive the wire, then
  -- the hosts, taking turns from the leader's first message on, have both finished with the output
  -- shares of the VDAF once they have made `n` calls of `evaluate`, and not with fewer.
  pub run-Prepares :
      (n calls : ℕ) (verify_key : VerifyKey) (nonce : Nonce) (public_share : PublicShare)
      (leader_share helper_share : InputShare) (l h : PrepareState) (p_l p_h : PrepareShare)
      (m : PrepareMessage) (out_l out_h : OutputShare)
      → prepare_init verify_key 0 agg_param nonce public_share leader_share ≡ ok (l, p_l)
      → prepare_init verify_key 1 agg_param nonce public_share helper_share ≡ ok (h, p_h)
      → SendsShare h p_l
      → prepare_shares_to_prepare_message agg_param (p_l ∷ p_h ∷ []) ≡ ok m
      → Prepares n l h m out_l out_h
      → run calls verify_key nonce public_share leader_share helper_share
        ≡ (if leb n calls then ok (out_l, out_h) else stuck)
  unfolding run leader_initialized helper_initialized
  run-Prepares n calls verify_key nonce public_share leader_share helper_share l h p_l p_h m out_l
        out_h init_l init_h (bytes, sent, received) combined prepares =
      rw (init_l, init_h)
        (rw sent
          (rw received (rw combined (exchange-Prepares calls (leb n calls) false prepares refl))))
