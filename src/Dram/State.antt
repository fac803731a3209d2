-- ===== src/Dram/State.antt =====
-- The command state machine of src/dram/state.cpp: which command is legal in which state.
use mem_sim.Base.{Bool, true, false, not, ◌&&◌, ◌||◌, if◌then◌else◌}
use Prim.Native.String.{String}
use mem_sim.Dram.Kinds.{
  Command, act, act1, act2, pre, prepb, preab, casrd, caswr, rd, wr, rda, wra, refab, refpb, refdb,
  rfmab, rfmpb, mrw, mrr, wcksync, wcktrain, dvfs, pde, pdx, srefen, srefex, eccscrub, raserr, nop,
}

pub data BankProtocolState : Type 0 where
  closed activating opened : BankProtocolState

pub record CommandStateSnapshot : Type 0 where
  pub bank_state : BankProtocolState
  pub row_hit : Bool
  pub wck_ready : Bool
  pub any_bank_busy : Bool
  pub split_activate : Bool
  pub lpddr_family : Bool
  pub maintenance : Bool
  pub issued_first_activate : Bool
  pub low_power_active : Bool
  pub self_refresh_active : Bool
  pub training_active : Bool
  pub dvfs_transition_active : Bool
  pub wck_training_required : Bool
  pub ras_ecc_supported : Bool
  pub link_retry_supported : Bool

pub record CommandStateResult : Type 0 where
  pub legal : Bool
  pub reason : String

abbrev pub is_closed : BankProtocolState → Bool
is_closed closed = true
is_closed _ = false

abbrev pub is_activating : BankProtocolState → Bool
is_activating activating = true
is_activating _ = false

abbrev pub is_opened : BankProtocolState → Bool
is_opened opened = true
is_opened _ = false

abbrev pub is_srefex : Command → Bool
is_srefex srefex = true
is_srefex _ = false

abbrev result : Bool → String → CommandStateResult
result legal reason = record { legal = legal; reason = reason }

-- The results that several commands share a case for.
abbrev data_result : CommandStateSnapshot → CommandStateResult
data_result s =
    result
      (is_opened s.bank_state
        && s.row_hit
        && (not s.lpddr_family || (s.wck_ready && not s.wck_training_required)))
      "RD/WR requires row hit and, for LPDDR, trained active WCK"

abbrev per_bank_result : CommandStateSnapshot → CommandStateResult
per_bank_result s =
    result (s.maintenance && is_closed s.bank_state)
      "per-bank maintenance requires a closed target bank"

abbrev all_bank_result : CommandStateSnapshot → CommandStateResult
all_bank_result s =
    result (s.maintenance && not s.any_bank_busy) "all-bank maintenance requires all banks idle"

abbrev mode_register_result : CommandStateSnapshot → CommandStateResult
mode_register_result s =
    result
      (s.maintenance
        && not s.any_bank_busy
        && not s.low_power_active
        && not s.self_refresh_active
        && not s.training_active
        && not s.dvfs_transition_active)
      "mode register access requires an idle channel outside low-power/training/DVFS"

-- The switch over the command.
unfoldable pub check_command : CommandStateSnapshot → Command → CommandStateResult
check_command s act =
    result (not s.split_activate && is_closed s.bank_state) "ACT requires a closed non-split bank"
check_command s act1 =
    result (s.split_activate && is_closed s.bank_state) "ACT1 requires a closed split-activate bank"
check_command s act2 =
    result (s.split_activate && is_activating s.bank_state && s.issued_first_activate)
      "ACT2 requires the owning ACT1 request"
check_command s pre = result (is_opened s.bank_state) "PREpb requires an opened bank"
check_command s prepb = result (is_opened s.bank_state) "PREpb requires an opened bank"
check_command s preab = result s.any_bank_busy "PREab requires at least one busy bank"
check_command s casrd =
    result (s.lpddr_family && is_opened s.bank_state && s.row_hit && not s.wck_training_required)
      "CAS requires an opened LPDDR row and no pending WCK training"
check_command s caswr =
    result (s.lpddr_family && is_opened s.bank_state && s.row_hit && not s.wck_training_required)
      "CAS requires an opened LPDDR row and no pending WCK training"
check_command s rd = data_result s
check_command s wr = data_result s
check_command s rda = data_result s
check_command s wra = data_result s
check_command s refpb = per_bank_result s
check_command s refdb = per_bank_result s
check_command s rfmpb = per_bank_result s
check_command s refab = all_bank_result s
check_command s rfmab = all_bank_result s
check_command s mrw = mode_register_result s
check_command s mrr = mode_register_result s
check_command s wcksync =
    result
      (s.lpddr_family
        && not s.low_power_active
        && not s.self_refresh_active
        && not s.training_active
        && not s.dvfs_transition_active
        && not s.wck_training_required)
      "WCK sync requires LPDDR mode outside low-power/training/DVFS and no pending WCK training"
check_command s wcktrain =
    result
      (s.lpddr_family
        && s.maintenance
        && not s.any_bank_busy
        && not s.low_power_active
        && not s.self_refresh_active
        && not s.dvfs_transition_active)
      "WCK training requires an idle LPDDR channel"
check_command s dvfs =
    result
      (s.lpddr_family
        && s.maintenance
        && not s.any_bank_busy
        && not s.low_power_active
        && not s.self_refresh_active
        && not s.training_active)
      "DVFS transition requires an idle LPDDR channel"
check_command s pde =
    result
      (s.maintenance
        && not s.any_bank_busy
        && not s.low_power_active
        && not s.self_refresh_active
        && not s.training_active
        && not s.dvfs_transition_active)
      "power-down entry requires an idle active channel"
check_command s pdx =
    result (s.maintenance && s.low_power_active && not s.self_refresh_active)
      "power-down exit requires power-down state"
check_command s srefen =
    result
      (s.maintenance
        && not s.any_bank_busy
        && not s.self_refresh_active
        && not s.training_active
        && not s.dvfs_transition_active)
      "self-refresh entry requires an idle active channel"
check_command s srefex =
    result (s.maintenance && s.self_refresh_active) "self-refresh exit requires self-refresh state"
check_command s eccscrub =
    result
      (s.maintenance
        && s.ras_ecc_supported
        && not s.any_bank_busy
        && not s.low_power_active
        && not s.self_refresh_active)
      "ECC scrub requires RAS/ECC support and an idle channel"
check_command s raserr =
    result
      (s.maintenance
        && (s.ras_ecc_supported || s.link_retry_supported)
        && not s.training_active
        && not s.dvfs_transition_active)
      "RAS/link recovery requires RAS/ECC or link retry support"
check_command s nop = result false "NOP is not issuable"

unfoldable pub check_command_state : CommandStateSnapshot → Command → CommandStateResult
unfolding check_command
check_command_state s cmd =
    if s.self_refresh_active && not (is_srefex cmd)
    then result false "self-refresh requires SREFEX before other commands"
    else check_command s cmd
