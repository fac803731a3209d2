-- ===== src/Stats.antt =====
-- The counters of include/hbm_sim/stats/stats.hpp that the modelled code updates: one for each
-- command, and those of maintenance, RFM and the LPDDR clock. They are 64 bits wide in the source
-- and are not wrapped here.
use mem_sim.Base.{ℕ}

pub record Stats : Type 0 where
  pub act : ℕ
  pub act1 : ℕ
  pub act2 : ℕ
  pub pre : ℕ
  pub prepb : ℕ
  pub preab : ℕ
  pub cas_rd : ℕ
  pub cas_wr : ℕ
  pub rd : ℕ
  pub wr : ℕ
  pub rda : ℕ
  pub wra : ℕ
  pub refab : ℕ
  pub refpb : ℕ
  pub refdb : ℕ
  pub rfmab : ℕ
  pub rfmpb : ℕ
  pub mrw : ℕ
  pub mrr : ℕ
  pub wck_sync : ℕ
  pub wck_train : ℕ
  pub dvfs : ℕ
  pub pde : ℕ
  pub pdx : ℕ
  pub srefen : ℕ
  pub srefex : ℕ
  pub ecc_scrub : ℕ
  pub ras_err : ℕ
  pub rfm_events : ℕ
  pub rfm_per_bank_events : ℕ
  pub rfm_all_bank_events : ℕ
  pub wck_syncs : ℕ
  pub wck_sync_skips : ℕ
  pub wck_training_events : ℕ
  pub mode_register_ops : ℕ
  pub dvfs_transitions : ℕ
  pub ras_ecc_events : ℕ
  pub rfm_decrements : ℕ
