-- ===== src/Controller/Guards.antt =====
-- The state of Controller, of include/hbm_sim/controller/controller.hpp, that its tests of a command
-- read, and the tests of banks of src/controller/controller.cpp.
pub mod Snapshot
pub mod Ready
pub mod Next
pub mod Bus
pub mod Coordinates
pub mod Idle
pub mod Proposal
pub mod Progress
pub mod Consistent
pub mod Kept
use mem_sim.Base.{
  ℕ, ◌+◌, ◌-◌, ◌*◌, min, max, Bool, true, false, not, ◌&&◌, ◌||◌, Option, none, some, List, ltb,
  leb, ◌==◌, if◌then◌else◌, length, get_or, any_in,
}
use mem_sim.Dram.Kinds.{RequestType, Command}
use mem_sim.Dram.Spec.{DramSpec, Organization}
use mem_sim.Dram.Address.{DecodedAddress, flat_bank, clamp_below}
use mem_sim.Dram.Semantics.{lpddr_refdb_partner}
use mem_sim.Controller.Executor.{BankState, Request, CommandExecutor, rank_bank_range}
use mem_sim.Controller.Executor.Moves.{initial_bank}
use mem_sim.Controller.Timing.Window

-- The pseudo-channel and the key of no bank are none, -1 in the source.
pub record RisingEdgeCommandInfo : Type 0 where
  pub command : Command
  pub pseudo_channel : Option ℕ
  pub bank_key : Option ℕ
  pub next_pairing_falling_edge : ℕ

-- The banks, the timing engine, the RFM counts and the statistics are what the executor refers to.
pub record Controller : Type 0 where
  pub executor : CommandExecutor
  pub active_counts : List ℕ
  pub clk : ℕ
  pub rising_edge : RisingEdgeCommandInfo
  pub low_power_active : Bool
  pub explicit_power_down_active : Bool
  pub explicit_self_refresh_active : Bool
  pub wck_retrain_required : Bool

abbrev pub is_read : RequestType → Bool
is_read RequestType.read = true
is_read _ = false

abbrev pub is_maintenance : RequestType → Bool
is_maintenance RequestType.maintenance = true
is_maintenance _ = false

unfoldable pub is_maintenance_request : Request → Bool
is_maintenance_request req = is_maintenance req.type

-- `bank.open_row >= 0` and `bank.open_row == row`
abbrev pub is_open : Option ℕ → Bool
is_open (some row) = true
is_open none = false

abbrev pub opens : Option ℕ → ℕ → Bool
opens (some open_row) row = open_row == row
opens none row = false

abbrev pub bank_of : DramSpec → Controller → DecodedAddress → BankState
bank_of spec c d = get_or c.executor.banks (flat_bank spec.org d) initial_bank

unfoldable pub is_busy : BankState → Bool
is_busy bank = bank.activating || is_open bank.open_row

-- The value of banks_per_channel where the dimensions have passed the checks.
abbrev pub channel_size : Organization → ℕ
channel_size o = o.pseudo_channels * o.sids * o.ranks * o.bank_groups * o.banks_per_group

unfoldable pub any_bank_busy_in_channel : DramSpec → Controller → DecodedAddress → Bool
any_bank_busy_in_channel spec c d =
    let banks_per_channel = max 1 (channel_size spec.org) in
    let channel = clamp_below d.channel spec.org.channels in
    let begin = channel * banks_per_channel in
    let end = min (length c.executor.banks) (begin + banks_per_channel) in
    any_in is_busy c.executor.banks begin (end - begin)

unfoldable pub any_bank_busy_in_rank : DramSpec → Controller → DecodedAddress → Bool
any_bank_busy_in_rank spec c d =
    let (begin, end) = rank_bank_range spec c.executor d in
    any_in is_busy c.executor.banks begin (end - begin)

unfoldable pub any_bank_activating_in_rank : DramSpec → Controller → DecodedAddress → Bool
any_bank_activating_in_rank spec c d =
    let (begin, end) = rank_bank_range spec c.executor d in
    any_in (λ (b : BankState). b.activating) c.executor.banks begin (end - begin)

unfoldable pub dual_bank_target_idle : DramSpec → Controller → DecodedAddress → Bool
dual_bank_target_idle spec c d =
    let bank = bank_of spec c d in
    let partner_bank = bank_of spec c (lpddr_refdb_partner spec.org d) in
    if bank.activating || is_open bank.open_row || ltb c.clk bank.next_act
    then false
    else not partner_bank.activating
      && not (is_open partner_bank.open_row)
      && leb partner_bank.next_act c.clk

unfoldable pub wck_ready_for_data : DramSpec → Controller → Request → Bool
wck_ready_for_data spec c req =
    Window.wck_ready_for_data spec req.decoded c.clk c.executor.timing_engine
