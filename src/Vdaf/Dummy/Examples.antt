-- ===== src/Vdaf/Dummy/Examples.antt =====
-- src/vdaf/dummy.rs: the theorems at concrete inputs.
use mastic.Prelude.{◌≡◌, [], stuck, arith}
use mastic.Vdaf.Dummy.{aggregator, new}
use mastic.Vdaf.Dummy.Rounds.{run-dummy}
use mastic.Topology.PingPong.Protocol.{run}

-- Two calls do not end three rounds.
run-dummy_example : run (aggregator (new 3)) 7 2 tt [] tt 200 56 ≡ stuck
run-dummy_example = run-dummy 3 2 7 200 56 [] (omega arith) (omega arith)
