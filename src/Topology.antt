-- ===== src/Topology.antt =====
-- src/topology: communication topologies for preparation.
pub mod PingPong
mod Examples
