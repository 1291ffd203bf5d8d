-- ===== src/Topology/Examples.antt =====
-- src/topology/ping_pong.rs: runs, and the theorems at concrete inputs.
use mastic.Prelude.{ℕ, ◌≡◌, ◌↔◌, refl, List, [], ◌∷◌, true, ok}
use mastic.Codec.Traits.{get_decoded, get_encoded, get_decoded_with_param}
use mastic.Codec.Ints.{unit_encode, unit_decode}
use mastic.Codec.Examples.{big_endian}
use mastic.Vdaf.Dummy.{PrepareState, step, new, aggregator}
use mastic.Topology.PingPong.{continued}
use mastic.Topology.PingPong.State.{PingPongState, finished_no_message, PingPongContinuedValue}
use mastic.Topology.PingPong.Continued.{Answers, continued_iff}
use mastic.Topology.PingPong.Protocol.{run, run-Prepares, last}
use mastic.Topology.PingPong.Message.{PingPongMessage, message_encode, message_decode}
use mastic.Topology.PingPong.Message.RoundTrip.{
  message_encode-message_bytes, get_decoded-message_encode,
}

abbrev go_on : PingPongMessage
go_on = PingPongMessage.continue (7 ∷ []) (8 ∷ 9 ∷ [])

abbrev go_on_bytes : List ℕ
go_on_bytes = 1 ∷ 0 ∷ 0 ∷ 0 ∷ 1 ∷ 7 ∷ 0 ∷ 0 ∷ 0 ∷ 2 ∷ 8 ∷ 9 ∷ []

message_encode-message_bytes_example : message_encode go_on [] ≡ ok go_on_bytes
message_encode-message_bytes_example = message_encode-message_bytes go_on []

go_on_encoded : message_encode go_on [] ≡ ok go_on_bytes
go_on_encoded = message_encode-message_bytes go_on []

get_decoded-message_encode_example :
    get_decoded (record { decode = message_decode }) go_on_bytes ≡ ok go_on
get_decoded-message_encode_example = get_decoded-message_encode go_on go_on_bytes go_on_encoded

abbrev start : ℕ → PrepareState
start x = record { input_share = x; current_round = 0 }

abbrev value : PingPongContinuedValue (aggregator (new 1))
value = finished_no_message 4

abbrev host : PingPongState (aggregator (new 1))
host = PingPongState.continued (start 4)

continued_iff_example :
    (continued (aggregator (new 1)) true host 0 (PingPongMessage.finish []) ≡ ok value) ↔ (
      (state : PrepareState) × (host ≡ PingPongState.continued state)
      × Answers (aggregator (new 1)) true 0 state (PingPongMessage.finish []) value)
continued_iff_example =
    continued_iff (aggregator (new 1)) true 0 host (PingPongMessage.finish []) value

run-Prepares_example : run (aggregator (new 1)) 0 1 tt [] tt 4 6 ≡ ok (4, 6)
unfolding get_encoded get_decoded_with_param unit_encode unit_decode step
run-Prepares_example =
    run-Prepares (aggregator (new 1)) 0 1 1 tt [] tt 4 6 (start 4) (start 6) tt tt tt 4 6 refl refl
      ([], refl, refl) refl (last ([], refl, refl) ([], refl, refl) refl refl)
