-- ===== src/Dram/Spec/Validate.antt =====
-- validate_spec of src/dram/spec.cpp. The tests on its doubles (density_gb, tCK_ps) enter as their
-- outcomes; a count that is natural here passes the tests for a negative value.
use mem_sim.Base.{
  ◌+◌, ◌%◌, ◌≤◌, ◌<◌, ◌≡◌, Bool, true, false, not, ◌&&◌, ◌||◌, arith, ltb, ◌==◌, invalid_argument,
  Result, ok, ◌>>=◌, ◌>>◌, throw_if, >>-ok,
}
use mem_sim.Dram.Kinds.{DramStandard, LpddrWckMode, burst_sync, cas_sync, always_on}
use mem_sim.Dram.Spec.{DramSpec, validate_organization, addressable_capacity_bytes, IsPositive}
use mem_sim.Dram.Spec.Capacity.{validate_organization-IsPositive}

pub record DoubleTests : Type 0 where
  -- density_gb and tCK_ps are finite and positive
  pub finite_positive : Bool
  -- density_gb is near the density of the geometry
  pub density_matches : Bool
  -- tCK_ps is near the clock of the data rate
  pub clock_matches : Bool

unfoldable pub is_lpddr5 : DramStandard → Bool
is_lpddr5 DramStandard.lpddr5 = true
is_lpddr5 _ = false

unfoldable pub is_lpddr6 : DramStandard → Bool
is_lpddr6 DramStandard.lpddr6 = true
is_lpddr6 _ = false

unfoldable pub is_burst_sync : LpddrWckMode → Bool
is_burst_sync burst_sync = true
is_burst_sync cas_sync = false
is_burst_sync always_on = false

-- The checks on rates, capacity and clock.
unfoldable pub validate_rates : DoubleTests → DramSpec → Result (Unit {0})
unfolding is_lpddr5 is_lpddr6
validate_rates tests s = do
  throw_if
      (s.data_rate_mbps == 0
        || s.data_bus_bits == 0
        || s.internal_prefetch_size == 0
        || s.speed_bin_mbps == 0
        || not tests.finite_positive
        || s.tick_multiplier == 0)
      invalid_argument
  throw_if (not s.lpddr_family && s.stack_height == 0) invalid_argument
  capacity ← addressable_capacity_bytes s.org
  throw_if (capacity == 0) invalid_argument
  throw_if (ltb 0 s.density_reference_channels && not (s.org.channels == 1)) invalid_argument
  throw_if (not tests.density_matches) invalid_argument
  throw_if (not (s.speed_bin_mbps == s.data_rate_mbps)) invalid_argument
  throw_if
      ((is_lpddr5 s.standard && not (s.lpddr_wck_ratio == 2) && not (s.lpddr_wck_ratio == 4))
        || (is_lpddr6 s.standard && not (s.lpddr_wck_ratio == 2)))
      invalid_argument
  throw_if (not tests.clock_matches) invalid_argument

-- The checks on the modes and their limits.
unfoldable pub validate_modes : DramSpec → Result (Unit {0})
unfolding is_burst_sync
validate_modes s = do
  throw_if (s.refresh_high_temp_multiplier == 0) invalid_argument
  throw_if (s.lpddr_family && s.lpddr_wck_ratio == 0) invalid_argument
  throw_if (s.supports_rfm && (s.rfm_act_threshold == 0 || s.rfm_decrement == 0)) invalid_argument
  throw_if (is_burst_sync s.lpddr_wck_mode) invalid_argument
  throw_if
      (s.split_activate && (s.timing.n_aad_min == 0 || ltb s.timing.n_aad_max s.timing.n_aad_min))
      invalid_argument
  throw_if
      (s.lpddr_dual_bank_refresh && (ltb s.org.bank_groups 2 || not (s.org.bank_groups % 2 == 0)))
      invalid_argument
  throw_if (ltb s.timing.n_rc (s.timing.n_ras + s.timing.n_rp)) invalid_argument

unfoldable pub validate_spec : DoubleTests → DramSpec → Result (Unit {0})
unfolding validate_rates validate_modes
validate_spec tests s = do validate_organization s.org; validate_rates tests s; validate_modes s

-- What a spec that passes satisfies.
pub record IsValid (s : DramSpec) : Type 0 where
  pub organization : validate_organization s.org ≡ ok tt
  pub positive : IsPositive s.org
  pub ticks : 0 < s.tick_multiplier
  pub temperature : 0 < s.refresh_high_temp_multiplier
  pub rfm : s.supports_rfm ≡ true → (0 < s.rfm_act_threshold) × (0 < s.rfm_decrement)
  pub split :
      s.split_activate ≡ true → (0 < s.timing.n_aad_min) × (s.timing.n_aad_min ≤ s.timing.n_aad_max)
  pub pairs :
      s.lpddr_dual_bank_refresh ≡ true → (2 ≤ s.org.bank_groups) × (s.org.bank_groups % 2 ≡ 0)
  pub row_cycle : s.timing.n_ras + s.timing.n_rp ≤ s.timing.n_rc

validate_rates-ticks :
    (tests : DoubleTests) (s : DramSpec) → validate_rates tests s ≡ ok tt → 0 < s.tick_multiplier
unfolding validate_rates
validate_rates-ticks tests s h = ground arith

-- The guards of validate_modes, one after the other.
validate_modes-guards :
    (s : DramSpec)
    → validate_modes s ≡ ok tt
    → (0 < s.refresh_high_temp_multiplier)
      × (s.supports_rfm ≡ true → (0 < s.rfm_act_threshold) × (0 < s.rfm_decrement))
      × (s.split_activate ≡ true
          → (0 < s.timing.n_aad_min) × (s.timing.n_aad_min ≤ s.timing.n_aad_max))
      × (s.lpddr_dual_bank_refresh ≡ true → (2 ≤ s.org.bank_groups) × (s.org.bank_groups % 2 ≡ 0))
      × (s.timing.n_ras + s.timing.n_rp ≤ s.timing.n_rc)
unfolding validate_modes
validate_modes-guards s h = (ground arith, ground arith, ground arith, ground arith, ground arith)

-- A spec that passes validate_spec has positive dimensions, a tick multiplier and a temperature
-- divisor, thresholds for RFM where it is on, a window for split activation where it is on, an
-- even number of bank groups where REFdb is on, and a row cycle that holds its two parts.
pub validate_spec-IsValid :
    (tests : DoubleTests) (s : DramSpec) → validate_spec tests s ≡ ok tt → IsValid s
unfolding validate_spec
validate_spec-IsValid tests s h =
    let (organization, h0) = >>-ok (validate_organization s.org) _ h in
    let (rates, modes) = >>-ok (validate_rates tests s) (validate_modes s) h0 in
    let (temperature, rfm, split, pairs, row_cycle) = validate_modes-guards s modes in
    record {
      organization = organization;
      positive = validate_organization-IsPositive s.org organization;
      ticks = validate_rates-ticks tests s rates;
      temperature = temperature;
      rfm = rfm;
      split = split;
      pairs = pairs;
      row_cycle = row_cycle;
    }
