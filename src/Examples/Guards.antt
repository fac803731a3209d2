-- ===== src/Examples/Guards.antt =====
-- The theorems on the controller's tests at concrete inputs.
use mem_sim.Base.{
  ℕ, ◌≡◌, refl, ◌≢◌, true, false, none, some, [], ◌∷◌, arith, ltb, get_or, set, replicate, any_in,
}
use mem_sim.Controller.Timing.Scope.{scope_count, scope_index}
use mem_sim.Controller.Timing.Engine.{row_state, wck_state, scope_state, scope_vector}
use mem_sim.Controller.Timing.Window
use mem_sim.Controller.Timing.Constraints.{
  constraint_ready, all_ready, skips, contains, both_banks, is_bank_scope, pair_of, refdb_state,
  gate,
}
use mem_sim.Controller.Executor.{rank_bank_range}
use mem_sim.Controller.Executor.Moves.{protocol_state}
use mem_sim.Dram.Semantics.{lpddr_refdb_partner, read_command_for, command_meta}
use mem_sim.Dram.State.{check_command, opened}
use mem_sim.Controller.Guards.{
  is_maintenance_request, any_bank_busy_in_rank, any_bank_busy_in_channel, is_busy,
  wck_ready_for_data,
}
use mem_sim.Controller.Guards.Ready.{constraint_timing_ok, gates_ok, channel_idle_ready}
use mem_sim.Controller.Guards.Next.{next_command}
use mem_sim.Controller.Guards.Bus.{
  bank_key, bus_matches, can_issue_falling_edge_pre, is_rising_edge, record_rising_row_command,
  would_close_active, is_all_bank_row_command,
}
use mem_sim.Controller.Guards.Consistent.{
  Reachable, started, issued, IsConsistent, Reachable-IsConsistent,
}
use mem_sim.Controller.Guards.Proposal.{next_command-state_ok}
use mem_sim.Controller.Guards.Progress.{commands_of, commands_of_ends}
use mem_sim.Controller.Guards.Kept.{paired_falling_edge, would_close_active-issue}
use mem_sim.Dram.Kinds.{RequestType, Command, BusClass, open_page}
use mem_sim.Dram.Address.{DecodedAddress, flat_bank, InRange, SameBank}
use mem_sim.Controller.Executor.{Request}
use mem_sim.Controller.Executor.Issue.{issue}
use mem_sim.Controller.Executor.Moves.{initial_bank, state_at}
use mem_sim.Controller.Queues.{RequestQueueKind}
use mem_sim.Controller.Guards.{Controller, RisingEdgeCommandInfo}
use mem_sim.Controller.Guards.Coordinates.{decoded_from_flat_bank, decoded_from_flat_bank-inverse}
use mem_sim.Controller.Guards.Snapshot.{state_ok, snapshot}
use mem_sim.Controller.Guards.Ready.{timing_ok}
use mem_sim.Controller.Guards.Idle.{RankIdle, ChannelIdle, rank_refresh_idle, channel_command_idle}
use mem_sim.Dram.State.{check_command_state}
use mem_sim.Examples.{
  small_org, small_spec, small-IsPositive, somewhere, neighbour, somewhere-InRange,
  neighbour-InRange,
}
use mem_sim.Examples.Banks.{executor}

abbrev quiet_edge : RisingEdgeCommandInfo
quiet_edge = record {
  command = Command.nop;
  pseudo_channel = none;
  bank_key = none;
  next_pairing_falling_edge = 0;
}

-- All banks closed.
abbrev pub idle : Controller
idle = record {
  executor = record executor { banks = replicate 64 initial_bank };
  active_counts = replicate 64 0;
  clk = 21;
  rising_edge = quiet_edge;
  low_power_active = false;
  explicit_power_down_active = false;
  explicit_self_refresh_active = false;
  wck_retrain_required = false;
}

abbrev pub asks : RequestType → Command → Request
asks type next = record {
  type = type;
  decoded = somewhere;
  next = next;
  arrival = 0;
  issued_first_activate = false;
  cas_sync_issued = false;
}

decoded_from_flat_bank-inverse_example :
    ((n : ℕ) → flat_bank small_org (decoded_from_flat_bank small_org n) ≡ n)
    × ((d : DecodedAddress)
        → InRange small_org d
        → SameBank (decoded_from_flat_bank small_org (flat_bank small_org d)) d)
decoded_from_flat_bank-inverse_example = decoded_from_flat_bank-inverse small_org small-IsPositive

ready_cases :
    (timing_ok small_spec idle (asks RequestType.maintenance Command.refab) Command.refab ≡ true)
    × (timing_ok small_spec idle (asks RequestType.maintenance Command.mrw) Command.mrw ≡ true)
unfolding timing_ok state_ok check_command_state snapshot is_maintenance_request
    any_bank_busy_in_rank any_in rank_bank_range is_busy constraint_timing_ok constraint_ready
    all_ready skips contains gates_ok row_state scope_index protocol_state channel_idle_ready
    any_bank_busy_in_channel wck_ready_for_data both_banks is_bank_scope pair_of refdb_state gate
    scope_state scope_vector flat_bank lpddr_refdb_partner check_command Window.wck_ready_for_data
    wck_state scope_count
ready_cases = (refl, refl)

rank_refresh_idle_example : RankIdle small_spec idle somewhere
rank_refresh_idle_example =
    rank_refresh_idle small_spec small-IsPositive idle (asks RequestType.maintenance Command.refab)
      somewhere-InRange refl Command.refab refl ready_cases.0

channel_command_idle_example : ChannelIdle small_spec idle somewhere
channel_command_idle_example =
    channel_command_idle small_spec small-IsPositive idle (asks RequestType.maintenance Command.mrw)
      somewhere-InRange refl Command.mrw refl ready_cases.1

abbrev reader : Request
reader = asks RequestType.read Command.nop

ordinary_reader : is_maintenance_request reader ≡ false
unfolding is_maintenance_request
ordinary_reader = refl

act_legal : state_ok small_spec idle reader Command.act ≡ true
unfolding state_ok snapshot check_command_state protocol_state flat_bank
act_legal = refl

idle-Reachable : Reachable small_spec idle.executor.banks
idle-Reachable = started 64

Reachable-IsConsistent_example :
    IsConsistent small_spec
      (get_or (issue small_spec reader Command.act 21 idle.executor).executor.banks 3 initial_bank)
Reachable-IsConsistent_example =
    Reachable-IsConsistent small_spec _ 3 (issued idle reader Command.act idle-Reachable act_legal)

wants_act : next_command small_spec open_page idle reader ≡ some Command.act
unfolding next_command is_maintenance_request flat_bank
wants_act = refl

next_command-state_ok_example : state_ok small_spec idle reader Command.act ≡ true
next_command-state_ok_example =
    next_command-state_ok small_spec open_page idle reader Command.act idle-Reachable refl refl
      (λ e. cc) (ground (arith, ordinary_reader)) wants_act

commands_of_ends_example :
    commands_of small_spec open_page (4 ∷ 2 ∷ 7 ∷ []) idle reader ≡ Command.act ∷ Command.rd ∷ []
unfolding read_command_for flat_bank
commands_of_ends_example =
    commands_of_ends small_spec open_page reader ordinary_reader refl refl idle 4 2 7 idle-Reachable
      (omega arith)

-- All banks open at row 9, and one of them has an active request.
abbrev busy : Controller
busy = record idle {
  executor = executor;
  active_counts = set (replicate 64 0) (flat_bank small_org neighbour) 1;
}

prepb_spares :
    (state_ok small_spec busy reader Command.prepb ≡ true)
    × (would_close_active small_spec busy reader Command.prepb RequestQueueKind.read ≡ false)
    × (ltb 0 (get_or busy.active_counts (flat_bank small_org neighbour) 0) ≡ true)
    × (state_at busy.executor.banks (flat_bank small_org neighbour) ≡ opened)
unfolding state_ok snapshot check_command_state protocol_state would_close_active flat_bank
    is_all_bank_row_command command_meta
prepb_spares = (refl, refl, refl, refl)

would_close_active-issue_example :
    state_at
      (issue small_spec reader Command.prepb 21 executor).executor.banks
      (flat_bank small_org neighbour)
    ≡ opened
unfolding flat_bank
would_close_active-issue_example =
    would_close_active-issue small_spec small-IsPositive busy reader somewhere-InRange refl refl
      Command.prepb neighbour RequestQueueKind.read neighbour-InRange refl refl prepb_spares.0
      prepb_spares.1 prepb_spares.2 prepb_spares.3

-- An activation at cycle 21, and a precharge of another bank at the falling edge that it is paired to.
abbrev paired : Controller
paired = record (record_rising_row_command small_spec reader Command.act idle) { clk = 24 }

abbrev closer : Request
closer = record reader { decoded = neighbour }

paired_cases :
    (is_rising_edge idle ≡ true)
    × (paired.clk ≡ paired.rising_edge.next_pairing_falling_edge)
    × (bus_matches small_spec paired closer Command.prepb BusClass.row ≡ true)
unfolding is_rising_edge record_rising_row_command bus_matches can_issue_falling_edge_pre
    is_all_bank_row_command command_meta bank_key
paired_cases = (refl, refl, refl)

paired_falling_edge_example :
    (Command.prepb ≡ Command.prepb)
    × (is_all_bank_row_command Command.act ≡ false)
    × (bank_key small_spec neighbour ≢ bank_key small_spec somewhere)
paired_falling_edge_example =
    paired_falling_edge small_spec idle paired reader closer Command.act Command.prepb refl refl
      paired_cases.0 refl paired_cases.1 refl paired_cases.2
