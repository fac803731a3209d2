-- ===== src/Controller/Guards/Snapshot.antt =====
-- Controller::state_ok: the snapshot that the command state machine judges.
use mem_sim.Base.{Bool, true, false, not, ◌&&◌, ◌||◌, if◌then◌else◌}
use mem_sim.Dram.Kinds.{Command, LowPowerMode}
use mem_sim.Dram.Spec.{DramSpec}
use mem_sim.Dram.State.{CommandStateSnapshot, check_command_state}
use mem_sim.Controller.Executor.{Request}
use mem_sim.Controller.Executor.Moves.{protocol_state}
use mem_sim.Controller.Guards.{
  Controller, bank_of, opens, wck_ready_for_data, any_bank_busy_in_rank, any_bank_busy_in_channel,
  is_maintenance_request,
}

-- The commands that the source tests the rank for, and not the channel.
abbrev pub is_rank_command : Command → Bool
is_rank_command Command.preab = true
is_rank_command Command.refab = true
is_rank_command Command.rfmab = true
is_rank_command _ = false

abbrev pub is_self_refresh : LowPowerMode → Bool
is_self_refresh LowPowerMode.self_refresh = true
is_self_refresh _ = false

unfoldable pub snapshot : DramSpec → Controller → Request → Command → CommandStateSnapshot
snapshot spec c req cmd =
    let bank = bank_of spec c req.decoded in
    let self_refresh_mode = is_self_refresh spec.low_power_mode in
    record {
      bank_state = protocol_state bank;
      row_hit = opens bank.open_row req.decoded.row;
      wck_ready = wck_ready_for_data spec c req;
      any_bank_busy =
          if is_rank_command cmd
          then any_bank_busy_in_rank spec c req.decoded
          else any_bank_busy_in_channel spec c req.decoded;
      split_activate = spec.split_activate;
      lpddr_family = spec.lpddr_family;
      maintenance = is_maintenance_request req;
      issued_first_activate = req.issued_first_activate;
      low_power_active =
          c.explicit_power_down_active || (c.low_power_active && not self_refresh_mode);
      self_refresh_active =
          c.explicit_self_refresh_active || (c.low_power_active && self_refresh_mode);
      training_active = false;
      dvfs_transition_active = false;
      wck_training_required = c.wck_retrain_required;
      ras_ecc_supported = spec.supports_ecc || spec.lpddr_link_ecc_enabled;
      link_retry_supported = spec.hbm_link_retry_enabled || spec.lpddr_link_protection;
    }

unfoldable pub state_ok : DramSpec → Controller → Request → Command → Bool
state_ok spec c req cmd = (check_command_state (snapshot spec c req cmd) cmd).legal
