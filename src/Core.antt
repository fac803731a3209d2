-- ===== src/Core.antt =====
-- include/hbm_sim/core and src/core
pub mod AddrMap
pub mod StackMap
pub mod Data
