-- ===== src/Dram.antt =====
-- include/hbm_sim/dram and src/dram
pub mod Kinds
pub mod Spec
pub mod Address
pub mod Semantics
pub mod State
