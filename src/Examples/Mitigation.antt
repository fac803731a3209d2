-- ===== src/Examples/Mitigation.antt =====
-- The theorems on RFM at concrete inputs.
use mem_sim.Base.{
  ◌+◌, ◌-◌, ◌≤◌, ◌≡◌, refl, true, false, not, ◌&&◌, ◌||◌, none, some, List, [], ◌∷◌, arith, leb,
  ◌==◌, if◌then◌else◌, get_or, replicate, ok,
}
use mem_sim.Dram.Kinds.{rfmpb}
use mem_sim.Dram.Spec.{total_banks, checked_product, checked_product_from}
use mem_sim.Dram.Address.{flat_bank}
use mem_sim.Dram.Address.Ranks.{rank_number}
use mem_sim.Controller.Rfm
use mem_sim.Controller.Rfm.{RfmManager, on_activate, on_rfmab, decrement_value}
use mem_sim.Controller.Rfm.Ranks.{IsSized, on_rfmab-count}
use mem_sim.Controller.Rfm.Counts.{
  Event, activated, run, step, count, pending, on_activate_per_bank, outstanding_is_due,
}
use mem_sim.Examples.{
  small_org, small_spec, small-IsPositive, no_stats, somewhere, neighbour, somewhere-InRange,
  neighbour-InRange,
}
use mem_sim.Examples.Command.{good_doubles, small_spec_passes}

-- Every bank of the manager has been activated once.
abbrev manager : RfmManager
manager = record {
  act_count_since_rfm = replicate 64 1;
  rfm_pending_bank = replicate 64 false;
  rfm_pending_all_bank = replicate 8 false;
}

manager-IsSized : IsSized small_org manager
manager-IsSized = record { counts = refl; flags = refl; ranks = refl }

on_activate_per_bank_example :
    let a = on_activate small_spec somewhere manager no_stats in
    let asks =
      leb 2 (count small_spec manager somewhere + 1)
      && not (pending small_spec manager somewhere) in
    (a.command ≡ (if asks then some (record { command = rfmpb; decoded = somewhere }) else none))
    × (count small_spec a.manager somewhere ≡ count small_spec manager somewhere + 1)
    × (pending small_spec a.manager somewhere ≡ (asks || pending small_spec manager somewhere))
on_activate_per_bank_example =
    on_activate_per_bank small_spec manager no_stats manager-IsSized somewhere somewhere-InRange
      refl (omega arith) refl

on_rfmab-count_example :
    get_or
      (on_rfmab small_spec somewhere manager no_stats).0.act_count_since_rfm
      (flat_bank small_org neighbour)
      0
    ≡ (let count = get_or manager.act_count_since_rfm (flat_bank small_org neighbour) 0 in
        if rank_number small_org neighbour == rank_number small_org somewhere
        then count - decrement_value small_spec
        else count)
on_rfmab-count_example =
    on_rfmab-count small_spec small-IsPositive manager no_stats manager-IsSized somewhere neighbour
      somewhere-InRange neighbour-InRange

abbrev fresh : RfmManager
fresh = record {
  act_count_since_rfm = replicate 64 0;
  rfm_pending_bank = replicate 64 false;
  rfm_pending_all_bank = replicate 8 false;
}

fresh-reset : Rfm.reset good_doubles small_spec ≡ ok fresh
unfolding Rfm.reset total_banks checked_product checked_product_from
fresh-reset = rw small_spec_passes refl

abbrev events : List Event
events = activated somewhere ∷ activated neighbour ∷ activated somewhere ∷ []

events-pending : pending small_spec (run small_spec no_stats fresh events) somewhere ≡ true
unfolding run step on_activate flat_bank
events-pending = refl

outstanding_is_due_example : 2 ≤ count small_spec (run small_spec no_stats fresh events) somewhere
outstanding_is_due_example =
    outstanding_is_due good_doubles small_spec fresh no_stats events somewhere fresh-reset
      (somewhere-InRange, (neighbour-InRange, (somewhere-InRange, tt))) somewhere-InRange
      events-pending
