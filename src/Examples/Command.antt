-- ===== src/Examples/Command.antt =====
-- Concrete specs that pass the checks.
use mem_sim.Base.{◌≡◌, refl, true, ok}
use mem_sim.Dram.Spec.{
  total_banks, checked_product, checked_product_from, addressable_capacity_bytes,
  total_addressable_transactions, transaction_bytes, validate_organization,
}
use mem_sim.Dram.Spec.Validate.{DoubleTests, validate_spec, validate_rates, validate_modes}
use mem_sim.Examples.{small_org, small_spec}

abbrev pub good_doubles : DoubleTests
good_doubles = record { finite_positive = true; density_matches = true; clock_matches = true }

pub small_spec_passes : validate_spec good_doubles small_spec ≡ ok tt
unfolding validate_spec validate_organization validate_rates validate_modes
    addressable_capacity_bytes total_addressable_transactions transaction_bytes checked_product
    checked_product_from
small_spec_passes = refl

small_banks_count : total_banks small_org ≡ ok 64
unfolding total_banks checked_product checked_product_from
small_banks_count = refl
