-- ===== src/Dram/Spec.antt =====
-- The structures of include/hbm_sim/dram/spec.hpp that the modelled code reads, and the checks of
-- src/dram/spec.cpp on the organisation. Every `int` here is non-negative in a validated spec, or
-- is read only through tests `x <= 0` and `max(0, x)`, where 0 stands for the negative values too.
pub mod Capacity
pub mod Validate
use mem_sim.Base.{
  ℕ, ◌-◌, ◌*◌, ◌/◌, ◌%◌, ◌^◌, ◌<◌, max, Bool, not, ◌&&◌, ◌||◌, List, [], ◌∷◌, ltb, ◌==◌,
  if◌then◌else◌, invalid_argument, overflow_error, Result, ok, err, ◌>>=◌, ◌>>◌, throw_if,
}
use mem_sim.Dram.Kinds.{
  LowPowerMode, Command, TimingScope, LpddrEfficiencyMode, LpddrWckMode, MaintenancePolicyKind,
  RefreshTemperatureMode, AddressMappingKind, DramStandard,
}

pub record Organization : Type 0 where
  pub channels : ℕ
  pub pseudo_channels : ℕ
  pub sids : ℕ
  pub ranks : ℕ
  pub bank_groups : ℕ
  pub banks_per_group : ℕ
  pub rows : ℕ
  pub columns : ℕ
  pub line_size : ℕ
  pub dram_transaction_bytes : ℕ

-- tCK_ps, a double, is not modelled.
pub record Timing : Type 0 where
  pub n_bl : ℕ
  pub n_cl : ℕ
  pub n_cwl : ℕ
  pub n_rcdrd : ℕ
  pub n_rcdwr : ℕ
  pub n_rp : ℕ
  pub n_ras : ℕ
  pub n_rc : ℕ
  pub n_rtp : ℕ
  pub n_wr : ℕ
  pub n_ccds : ℕ
  pub n_ccdl : ℕ
  pub n_rrds : ℕ
  pub n_rrdl : ℕ
  pub n_faw : ℕ
  pub n_aad_min : ℕ
  pub n_aad_max : ℕ
  pub n_wck2ck : ℕ
  pub n_wckpst : ℕ
  pub n_cas : ℕ
  pub n_cs : ℕ
  pub n_ppd : ℕ
  pub n_rpab : ℕ
  pub n_wtrs : ℕ
  pub n_wtrl : ℕ
  pub n_rtw : ℕ
  pub n_ccdr : ℕ
  pub n_rfc : ℕ
  pub n_rfcpb : ℕ
  pub n_rfmab : ℕ
  pub n_rfmpb : ℕ
  pub n_rrefd : ℕ
  pub n_refdb2act : ℕ
  pub n_refdb2refdbs : ℕ
  pub n_refdb2refdbl : ℕ
  pub n_refi : ℕ
  pub n_refipb : ℕ
  pub n_mrw : ℕ
  pub n_mrr : ℕ
  pub n_wcksync : ℕ
  pub n_wcktrain : ℕ
  pub n_dvfs : ℕ
  pub n_pdex : ℕ
  pub n_srefex : ℕ
  pub n_eccscrub : ℕ
  pub n_raserr : ℕ
  pub n_linkretry : ℕ

-- The texts `note` and `parameter` are not modelled.
pub record TimingConstraint : Type 0 where
  pub scope : TimingScope
  pub preceding : List Command
  pub following : List Command
  pub latency : ℕ
  pub window : ℕ
  pub sibling : Bool

-- The fields that the modelled code reads.
pub record DramSpec : Type 0 where
  pub standard : DramStandard
  pub org : Organization
  pub timing : Timing
  pub speed_bin_mbps : ℕ
  pub density_reference_channels : ℕ
  pub stack_height : ℕ
  pub split_activate : Bool
  pub lpddr_family : Bool
  pub data_rate_mbps : ℕ
  pub data_bus_bits : ℕ
  pub internal_prefetch_size : ℕ
  pub tick_multiplier : ℕ
  pub supports_refresh : Bool
  pub refresh_policy : MaintenancePolicyKind
  pub lpddr_dual_bank_refresh : Bool
  pub supports_rfm : Bool
  pub rfm_policy : MaintenancePolicyKind
  pub hbm_link_crc_bits_per_request : ℕ
  pub hbm_ras_metadata_bits_per_request : ℕ
  pub hbm_ecc_bits_per_request : ℕ
  pub rfm_act_threshold : ℕ
  pub rfm_decrement : ℕ
  pub lpddr_efficiency_mode : LpddrEfficiencyMode
  pub lpddr_wck_mode : LpddrWckMode
  pub lpddr_wck_ratio : ℕ
  pub lpddr_ca_parity_enabled : Bool
  pub lpddr_dbi_bits_per_request : ℕ
  pub lpddr_link_ecc_bits_per_request : ℕ
  pub lpddr_ca_parity_bits_per_command : ℕ
  pub refresh_postpone_limit : ℕ
  pub refresh_pullin_limit : ℕ
  pub refresh_credit_limit : ℕ
  pub refresh_temperature_mode : RefreshTemperatureMode
  pub refresh_high_temp_multiplier : ℕ
  pub address_mapping : AddressMappingKind
  pub metadata_bits_per_request : ℕ
  pub ecc_bits_per_request : ℕ
  pub supports_ecc : Bool
  pub hbm_edge_pairing : Bool
  pub hbm_strict_edge_pairing : Bool
  pub hbm_link_retry_enabled : Bool
  pub lpddr_link_protection : Bool
  pub lpddr_link_ecc_enabled : Bool
  pub low_power_mode : LowPowerMode
  pub timing_constraints : List TimingConstraint
  pub activation_scope : TimingScope
  pub row_bus_scope : TimingScope
  pub column_bus_scope : TimingScope
  pub wck_scope : TimingScope

abbrev pub u64_max : ℕ
u64_max = 2 ^ 64 - 1

abbrev pub int_max : ℕ
int_max = 2 ^ 31 - 1

-- DramSpec::checked_product, the loop over the factors with the product so far.
unfoldable pub checked_product_from : ℕ → List ℕ → Result ℕ
checked_product_from result [] = ok result
checked_product_from result (factor ∷ factors) =
    let rest = checked_product_from (result * factor) factors in
    if factor == 0
    then err invalid_argument
    else if ltb (u64_max / factor) result
    then err overflow_error
    else rest

unfoldable pub checked_product : List ℕ → Result ℕ
unfolding checked_product_from
checked_product factors = checked_product_from 1 factors

unfoldable pub banks_per_channel : Organization → Result ℕ
banks_per_channel o = do
  count ←
      checked_product
        (o.pseudo_channels ∷ o.sids ∷ o.ranks ∷ o.bank_groups ∷ o.banks_per_group ∷ [])
  if ltb int_max count then err overflow_error else ok count

unfoldable pub total_banks : Organization → Result ℕ
total_banks o = do
  count ←
      checked_product
        (o.channels ∷ o.pseudo_channels ∷ o.sids ∷ o.ranks ∷ o.bank_groups ∷ o.banks_per_group ∷ [])
  if ltb int_max count then err overflow_error else ok count

unfoldable pub total_addressable_transactions : Organization → Result ℕ
total_addressable_transactions o = checked_product (
    o.channels ∷ o.pseudo_channels ∷ o.sids ∷ o.ranks ∷ o.bank_groups ∷ o.banks_per_group ∷ o.rows
    ∷ o.columns ∷ [])

unfoldable pub transaction_bytes : Organization → ℕ
transaction_bytes o =
    if ltb 0 o.dram_transaction_bytes then o.dram_transaction_bytes else max 1 o.line_size

unfoldable pub addressable_capacity_bytes : Organization → Result ℕ
addressable_capacity_bytes o = do
  transactions ← total_addressable_transactions o
  let bytes = transaction_bytes o
  if not (transactions == 0) && ltb (u64_max / transactions) bytes
      then err overflow_error
      else ok (transactions * bytes)

-- The first two checks of validate_spec, on the organisation.
unfoldable pub validate_organization : Organization → Result (Unit {0})
validate_organization o = do
  throw_if
      (o.channels == 0
        || o.pseudo_channels == 0
        || o.sids == 0
        || o.ranks == 0
        || o.bank_groups == 0
        || o.banks_per_group == 0
        || o.rows == 0
        || o.columns == 0
        || o.line_size == 0)
      invalid_argument
  throw_if (ltb 0 o.dram_transaction_bytes && not (o.line_size % o.dram_transaction_bytes == 0))
      invalid_argument

-- What the first check leaves: every dimension is positive.
pub record IsPositive (o : Organization) : Type 0 where
  pub channels : 0 < o.channels
  pub pseudo_channels : 0 < o.pseudo_channels
  pub sids : 0 < o.sids
  pub ranks : 0 < o.ranks
  pub bank_groups : 0 < o.bank_groups
  pub banks_per_group : 0 < o.banks_per_group
  pub rows : 0 < o.rows
  pub columns : 0 < o.columns
  pub line_size : 0 < o.line_size
