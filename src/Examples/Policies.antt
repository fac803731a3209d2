-- ===== src/Examples/Policies.antt =====
-- The theorems on the scheduler and the row policy at concrete inputs.
use mem_sim.Base.{
  ◌≡◌, refl, ◌⊎◌, true, false, none, some, List, [], ◌∷◌, arith, leb, if◌then◌else◌, ok,
}
use mem_sim.Dram.Kinds.{rd, act, fcfs, frfcfs, closed_cap}
use mem_sim.Dram.Semantics.{command_meta}
use mem_sim.Controller.Scheduler.{SchedulerCandidateView, select_scheduled_request}
use mem_sim.Controller.Scheduler.Oldest.{
  Best, Never, IsOldest, is_issuable, is_eligible, frfcfs-Best, fcfs_in_order,
}
use mem_sim.Controller.RowPolicy
use mem_sim.Controller.RowPolicy.{
  RowPolicyEngine, should_auto_precharge, should_schedule_precharge, mark_precharge_pending,
}
use mem_sim.Controller.RowPolicy.History
use mem_sim.Controller.RowPolicy.History.{
  Issue, accesses_since_reset, NoReset, auto_precharge_exact, precharge_queued_once,
}

-- An old request whose bank is not ready, a younger one that is, and a third that may not go.
abbrev candidates : List SchedulerCandidateView
candidates =
    record { request_index = 0; arrival = 7; command = act; eligible = true; timing_ready = true }
    ∷ record { request_index = 1; arrival = 3; command = rd; eligible = true; timing_ready = false }
    ∷ record { request_index = 2; arrival = 1; command = rd; eligible = false; timing_ready = true }
    ∷ []

frfcfs-Best_example : Best is_issuable candidates (select_scheduled_request frfcfs candidates)
frfcfs-Best_example = frfcfs-Best candidates

fcfs_in_order_example :
    (Never is_eligible candidates × (select_scheduled_request fcfs candidates ≡ none))
    ⊎ ((c : SchedulerCandidateView) × IsOldest is_eligible candidates c
        × (select_scheduled_request fcfs candidates ≡ (if c.timing_ready then some c else none)))
fcfs_in_order_example = fcfs_in_order candidates

-- Four banks, a cap of two.
abbrev engine : RowPolicyEngine
engine = record {
  cap = 2;
  column_accesses = 0 ∷ 0 ∷ 0 ∷ 0 ∷ [];
  precharge_pending = false ∷ false ∷ false ∷ false ∷ [];
}

engine-reset : RowPolicy.reset 4 2 ≡ ok engine
unfolding RowPolicy.reset
engine-reset = refl

abbrev issues : List Issue
issues = (1, rd) ∷ (2, act) ∷ (1, rd) ∷ (1, act) ∷ []

auto_precharge_exact_example :
    should_auto_precharge (History.run engine issues) closed_cap 1
    ≡ leb 2 (accesses_since_reset 1 issues)
auto_precharge_exact_example = auto_precharge_exact 4 2 engine engine-reset issues 1 (omega arith)

issues-NoReset : NoReset 1 issues
unfolding command_meta
issues-NoReset = (refl, (refl, (refl, (refl, tt))))

precharge_queued_once_example :
    should_schedule_precharge (History.run (mark_precharge_pending engine 1) issues) closed_cap 1 0
    ≡ false
precharge_queued_once_example =
    precharge_queued_once 4 engine issues 1 0 closed_cap (record { counts = refl; flags = refl })
      (omega arith) issues-NoReset
