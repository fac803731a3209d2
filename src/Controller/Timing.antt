-- ===== src/Controller/Timing.antt =====
-- TimingEngine of src/controller/timing.cpp: the timing gates that reach across banks.
pub mod Scope
pub mod Engine
pub mod Constraints
pub mod Window
