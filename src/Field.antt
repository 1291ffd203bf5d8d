-- ===== src/Field.antt =====
-- Field arithmetic (src/fp64.rs) and the machine words under it.
pub mod Words
pub mod Congruence
pub mod Montgomery
pub mod Fp64
pub mod Fp128
pub mod Element
pub mod Roots
mod Examples
