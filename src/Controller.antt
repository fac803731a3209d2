-- ===== src/Controller.antt =====
-- include/hbm_sim/controller and src/controller
pub mod Scheduler
pub mod RowPolicy
pub mod Rfm
pub mod Timing
pub mod Executor
pub mod Queues
pub mod Refresh
pub mod Guards
pub mod Arbiter
