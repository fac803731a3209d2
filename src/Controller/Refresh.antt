-- ===== src/Controller/Refresh.antt =====
-- RefreshManager of include/hbm_sim/controller/refresh.hpp and src/controller/refresh.cpp: when a
-- refresh is due, postponed or pulled in, and which banks a batch of refreshes is for.
pub mod Batch
pub mod Tick
pub mod Ledger
pub mod Served
pub mod History
pub mod Rotation
