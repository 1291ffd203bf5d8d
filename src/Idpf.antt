-- ===== src/Idpf.antt =====
-- src/idpf.rs: incremental distributed point functions.
pub mod Errors
pub mod BitVec
pub mod Wire
pub mod Seeds
pub mod Value
pub mod Level
pub mod Cache
pub mod Tree
pub mod Toy
mod Examples
