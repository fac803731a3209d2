-- ===== src/Examples/Banks.antt =====
-- The theorem on the executor at a concrete input.
use mem_sim.Base.{◌≡◌, refl, false, some, if◌then◌else◌, replicate}
use mem_sim.Dram.Kinds.{RequestType, rd, preab}
use mem_sim.Dram.Address.{flat_bank}
use mem_sim.Controller.Executor.{Request, CommandExecutor}
use mem_sim.Controller.Executor.Issue.{issue}
use mem_sim.Controller.Executor.Moves.{initial_bank, state_at, next_state, is_for}
use mem_sim.Controller.Executor.Protocol.{issue-state}
use mem_sim.Examples.{
  small_org, small_spec, small-IsPositive, no_stats, somewhere, neighbour, somewhere-InRange,
  neighbour-InRange,
}
use mem_sim.Examples.Gates.{engine}

-- All banks open, at row 9.
abbrev pub executor : CommandExecutor
executor = record {
  banks = replicate 64 (record initial_bank { open_row = some 9 });
  timing_engine = engine;
  rfm_manager = record {
    act_count_since_rfm = replicate 64 0;
    rfm_pending_bank = replicate 64 false;
    rfm_pending_all_bank = replicate 8 false;
  };
  stats = no_stats;
}

abbrev request : Request
request = record {
  type = RequestType.read;
  next = rd;
  arrival = 0;
  decoded = somewhere;
  issued_first_activate = false;
  cas_sync_issued = false;
}

issue-state_example :
    state_at
      (issue small_spec request preab 20 executor).executor.banks
      (flat_bank small_org neighbour)
    ≡ (if is_for small_org preab somewhere neighbour
        then next_state preab (state_at executor.banks (flat_bank small_org neighbour))
        else state_at executor.banks (flat_bank small_org neighbour))
issue-state_example =
    issue-state small_spec small-IsPositive request 20 executor somewhere-InRange refl preab
      neighbour neighbour-InRange
