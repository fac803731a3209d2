-- ===== src/Examples.antt =====
-- Concrete values that the examples share.
pub mod Address
pub mod Command
pub mod Policies
pub mod Mitigation
pub mod Gates
pub mod Banks
pub mod Ownership
pub mod Refresh
pub mod Guards
pub mod Arbiter
pub mod Data
use mem_sim.Base.{◌≡◌, refl, true, false, [], ◌∷◌, arith, ok}
use mem_sim.Dram.Kinds.{
  LowPowerMode, DramStandard, LpddrEfficiencyMode, cas_sync, per_bank, RefreshTemperatureMode,
  default, TimingScope, act,
}
use mem_sim.Dram.Spec.{
  Organization, Timing, DramSpec, TimingConstraint, validate_organization, IsPositive,
}
use mem_sim.Dram.Spec.Capacity.{validate_organization-IsPositive}
use mem_sim.Dram.Address.{DecodedAddress, InRange}
use mem_sim.Stats.{Stats}

abbrev pub small_org : Organization
small_org = record {
  channels = 2;
  pseudo_channels = 2;
  sids = 1;
  ranks = 2;
  bank_groups = 4;
  banks_per_group = 2;
  rows = 16;
  columns = 8;
  line_size = 64;
  dram_transaction_bytes = 32;
}

abbrev pub small_timing : Timing
small_timing = record {
  n_bl = 2;
  n_cl = 4;
  n_cwl = 3;
  n_rcdrd = 5;
  n_rcdwr = 5;
  n_rp = 5;
  n_ras = 9;
  n_rc = 14;
  n_rtp = 2;
  n_wr = 6;
  n_ccds = 2;
  n_ccdl = 3;
  n_rrds = 2;
  n_rrdl = 3;
  n_faw = 12;
  n_aad_min = 1;
  n_aad_max = 4;
  n_wck2ck = 2;
  n_wckpst = 3;
  n_cas = 1;
  n_cs = 1;
  n_ppd = 1;
  n_rpab = 6;
  n_wtrs = 1;
  n_wtrl = 1;
  n_rtw = 1;
  n_ccdr = 1;
  n_rfc = 30;
  n_rfcpb = 15;
  n_rfmab = 1;
  n_rfmpb = 1;
  n_rrefd = 1;
  n_refdb2act = 1;
  n_refdb2refdbs = 1;
  n_refdb2refdbl = 1;
  n_refi = 390;
  n_refipb = 50;
  n_mrw = 1;
  n_mrr = 1;
  n_wcksync = 1;
  n_wcktrain = 1;
  n_dvfs = 1;
  n_pdex = 1;
  n_srefex = 1;
  n_eccscrub = 1;
  n_raserr = 1;
  n_linkretry = 1;
}

-- ACT to ACT of one bank group.
abbrev pub row_gap : TimingConstraint
row_gap = record {
  scope = TimingScope.bank_group;
  preceding = act ∷ [];
  following = act ∷ [];
  latency = 3;
  window = 0;
  sibling = false;
}

abbrev pub small_spec : DramSpec
small_spec = record {
  standard = DramStandard.hbm3;
  org = small_org;
  timing = small_timing;
  speed_bin_mbps = 1;
  density_reference_channels = 0;
  stack_height = 1;
  split_activate = false;
  lpddr_family = false;
  data_rate_mbps = 1;
  data_bus_bits = 1;
  internal_prefetch_size = 1;
  tick_multiplier = 1;
  supports_refresh = true;
  refresh_policy = per_bank;
  lpddr_dual_bank_refresh = false;
  supports_rfm = true;
  rfm_policy = per_bank;
  hbm_link_crc_bits_per_request = 1;
  hbm_ras_metadata_bits_per_request = 1;
  hbm_ecc_bits_per_request = 1;
  rfm_act_threshold = 2;
  rfm_decrement = 2;
  lpddr_efficiency_mode = LpddrEfficiencyMode.normal;
  lpddr_wck_mode = cas_sync;
  lpddr_wck_ratio = 1;
  lpddr_ca_parity_enabled = false;
  lpddr_dbi_bits_per_request = 1;
  lpddr_link_ecc_bits_per_request = 1;
  lpddr_ca_parity_bits_per_command = 1;
  refresh_postpone_limit = 1;
  refresh_pullin_limit = 1;
  refresh_credit_limit = 1;
  refresh_temperature_mode = RefreshTemperatureMode.normal;
  refresh_high_temp_multiplier = 1;
  address_mapping = default;
  metadata_bits_per_request = 1;
  ecc_bits_per_request = 1;
  supports_ecc = false;
  hbm_edge_pairing = true;
  hbm_strict_edge_pairing = true;
  hbm_link_retry_enabled = false;
  lpddr_link_protection = false;
  lpddr_link_ecc_enabled = false;
  low_power_mode = LowPowerMode.off;
  timing_constraints = row_gap ∷ [];
  activation_scope = TimingScope.rank;
  row_bus_scope = TimingScope.pseudo_channel;
  column_bus_scope = TimingScope.pseudo_channel;
  wck_scope = TimingScope.channel;
}

abbrev pub no_stats : Stats
no_stats = record {
  act = 0;
  act1 = 0;
  act2 = 0;
  pre = 0;
  prepb = 0;
  preab = 0;
  cas_rd = 0;
  cas_wr = 0;
  rd = 0;
  wr = 0;
  rda = 0;
  wra = 0;
  refab = 0;
  refpb = 0;
  refdb = 0;
  rfmab = 0;
  rfmpb = 0;
  mrw = 0;
  mrr = 0;
  wck_sync = 0;
  wck_train = 0;
  dvfs = 0;
  pde = 0;
  pdx = 0;
  srefen = 0;
  srefex = 0;
  ecc_scrub = 0;
  ras_err = 0;
  rfm_events = 0;
  rfm_per_bank_events = 0;
  rfm_all_bank_events = 0;
  wck_syncs = 0;
  wck_sync_skips = 0;
  wck_training_events = 0;
  mode_register_ops = 0;
  dvfs_transitions = 0;
  ras_ecc_events = 0;
  rfm_decrements = 0;
}

abbrev pub somewhere : DecodedAddress
somewhere = record {
  channel = 1;
  pseudo_channel = 1;
  sid = 0;
  rank = 1;
  bank_group = 2;
  bank = 1;
  row = 9;
  column = 5;
}

-- A bank of the same rank, and one of another.
abbrev pub neighbour : DecodedAddress
neighbour = record {
  channel = 1;
  pseudo_channel = 1;
  sid = 0;
  rank = 1;
  bank_group = 3;
  bank = 0;
  row = 2;
  column = 0;
}

pub small_valid : validate_organization small_org ≡ ok tt
unfolding validate_organization
small_valid = refl

pub small-IsPositive : IsPositive small_org
small-IsPositive = validate_organization-IsPositive small_org small_valid

pub somewhere-InRange : InRange small_org somewhere
somewhere-InRange = record {
  channel = omega arith;
  pseudo_channel = omega arith;
  sid = omega arith;
  rank = omega arith;
  bank_group = omega arith;
  bank = omega arith;
  row = omega arith;
  column = omega arith;
}

pub neighbour-InRange : InRange small_org neighbour
neighbour-InRange = record {
  channel = omega arith;
  pseudo_channel = omega arith;
  sid = omega arith;
  rank = omega arith;
  bank_group = omega arith;
  bank = omega arith;
  row = omega arith;
  column = omega arith;
}
