-- ===== src/Poplar1.antt =====
-- src/vdaf/poplar1.rs: parts of Poplar1.
pub mod AggregationParam
pub mod PairValue
mod Examples
