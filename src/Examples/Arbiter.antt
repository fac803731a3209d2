-- ===== src/Examples/Arbiter.antt =====
-- The theorem on the choice of a command at a concrete input.
use mem_sim.Base.{◌≡◌, refl, true, false, some, [], ◌∷◌, ltb, ok, any_in}
use mem_sim.Dram.Kinds.{RequestType, Command, BusClass, frfcfs, open_page}
use mem_sim.Dram.Address.{flat_bank}
use mem_sim.Dram.Semantics.{command_meta, lpddr_refdb_partner}
use mem_sim.Dram.State.{check_command_state, check_command}
use mem_sim.Controller.Scheduler.{select_scheduled_request, scan, visit}
use mem_sim.Controller.Timing.Scope.{scope_count, scope_index}
use mem_sim.Controller.Timing.Engine.{
  row_state, wck_state, bank_group_state, scope_state, scope_vector,
}
use mem_sim.Controller.Timing.Window
use mem_sim.Controller.Timing.Constraints.{
  constraint_ready, all_ready, skips, contains, both_banks, is_bank_scope, pair_of, refdb_state,
  gate,
}
use mem_sim.Controller.Executor.{rank_bank_range}
use mem_sim.Controller.Executor.Moves.{protocol_state}
use mem_sim.Controller.Guards.{
  is_maintenance_request, any_bank_busy_in_channel, is_busy, wck_ready_for_data,
}
use mem_sim.Controller.Guards.Snapshot.{state_ok, snapshot}
use mem_sim.Controller.Guards.Ready.{timing_ok, constraint_timing_ok, gates_ok, activate_ready}
use mem_sim.Controller.Guards.Next.{next_command}
use mem_sim.Controller.Guards.Bus.{would_close_active, bus_matches, is_rising_edge, is_row_command}
use mem_sim.Controller.Arbiter.{
  request_buffer, view, views, candidate_eligible, phy_admission_ok, is_data_command,
  pick_best_ready_from,
}
use mem_sim.Controller.Arbiter.Choose.{
  pick_urgent_act2, pick_priority_if, head_of, retire_satisfied, pick_rw_if, set_write_mode,
  any_dependency,
}
use mem_sim.Controller.Queues.{RequestQueueKind}
use mem_sim.Controller.Arbiter.{Surroundings, Arbiter, Candidate}
use mem_sim.Controller.Arbiter.Choose.{choose}
use mem_sim.Controller.Arbiter.Issuable.{IsIssuable}
use mem_sim.Controller.Arbiter.Picks.{choose-IsIssuable}
use mem_sim.Examples.{small_spec}
use mem_sim.Examples.Guards.{idle, asks}

-- No PHY, no overlaps, and reads only.
abbrev env : Surroundings
env = record {
  scheduler = frfcfs;
  row_policy = open_page;
  has_phy = false;
  behavioral = false;
  can_accept_command = λ cmd. true;
  can_accept_data = λ cmd. true;
  unresolved_overlapping_write = λ req. false;
  unresolved_overlapping_read = λ req. false;
  above_high = λ n. ltb 4 n;
  below_low = λ n. ltb n 2;
}

abbrev one_read : Arbiter
one_read = record {
  controller = idle;
  active_queue = [];
  priority_queue = [];
  read_queue = asks RequestType.read Command.nop ∷ [];
  write_queue = [];
  row_policy = record { cap = 4; column_accesses = []; precharge_pending = [] };
  write_mode = false;
}

abbrev activation : Candidate
activation = record {
  index = 0;
  buffer = RequestQueueKind.read;
  command = Command.act;
  bus = BusClass.row;
}

activation_chosen : choose small_spec env one_read BusClass.row ≡ ok (one_read, some activation)
unfolding choose pick_urgent_act2 pick_priority_if head_of retire_satisfied pick_rw_if
    set_write_mode pick_best_ready_from select_scheduled_request scan visit views request_buffer
    next_command is_maintenance_request flat_bank view candidate_eligible bus_matches is_rising_edge
    is_row_command command_meta would_close_active phy_admission_ok timing_ok state_ok snapshot
    check_command_state check_command protocol_state any_bank_busy_in_channel any_in is_busy
    wck_ready_for_data Window.wck_ready_for_data constraint_timing_ok constraint_ready all_ready
    skips contains both_banks is_bank_scope pair_of refdb_state gate scope_state scope_vector
    scope_index scope_count gates_ok activate_ready row_state bank_group_state Window.faw_ready
    Window.recent wck_state lpddr_refdb_partner rank_bank_range any_dependency is_data_command
activation_chosen = refl

choose-IsIssuable_example : IsIssuable small_spec env one_read BusClass.row activation
choose-IsIssuable_example =
    choose-IsIssuable small_spec env BusClass.row one_read one_read activation activation_chosen
