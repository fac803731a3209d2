-- ===== src/Dram/Kinds.antt =====
-- The enumerations of include/hbm_sim/core/common.hpp.
use mem_sim.Base.{ℕ}

pub data RequestType : Type 0 where
  read write maintenance : RequestType

pub data Command : Type 0 where
  act act1 act2 pre prepb preab casrd caswr : Command
  rd wr rda wra refab refpb refdb rfmab rfmpb : Command
  mrw mrr wcksync wcktrain dvfs pde pdx srefen srefex : Command
  eccscrub raserr nop : Command

abbrev pub command_count : ℕ
command_count = 29

-- static_cast<std::size_t>(cmd): the position in the enumeration.
abbrev pub command_index : Command → ℕ
command_index act = 0
command_index act1 = 1
command_index act2 = 2
command_index pre = 3
command_index prepb = 4
command_index preab = 5
command_index casrd = 6
command_index caswr = 7
command_index rd = 8
command_index wr = 9
command_index rda = 10
command_index wra = 11
command_index refab = 12
command_index refpb = 13
command_index refdb = 14
command_index rfmab = 15
command_index rfmpb = 16
command_index mrw = 17
command_index mrr = 18
command_index wcksync = 19
command_index wcktrain = 20
command_index dvfs = 21
command_index pde = 22
command_index pdx = 23
command_index srefen = 24
command_index srefex = 25
command_index eccscrub = 26
command_index raserr = 27
command_index nop = 28

pub data SchedulerKind : Type 0 where
  frfcfs fcfs : SchedulerKind

pub data RowPolicyKind : Type 0 where
  open_page closed_page closed_cap : RowPolicyKind

pub data BusClass : Type 0 where
  row column unified : BusClass

pub data LowPowerMode : Type 0 where
  off power_down self_refresh : LowPowerMode

pub data AddressMappingKind : Type 0 where
  default ro_ba_ra_co_ch ch_ra_ba_ro_co ro_co_ra_ba_ch : AddressMappingKind

pub data LpddrEfficiencyMode : Type 0 where
  normal static dynamic : LpddrEfficiencyMode

pub data LpddrWckMode : Type 0 where
  cas_sync always_on burst_sync : LpddrWckMode

pub data MaintenancePolicyKind : Type 0 where
  per_bank all_bank : MaintenancePolicyKind

pub data RefreshTemperatureMode : Type 0 where
  normal high extended : RefreshTemperatureMode

pub data TimingScope : Type 0 where
  channel pseudo_channel sid rank bank_group bank : TimingScope

pub data DramStandard : Type 0 where
  unknown hbm3 hbm4 lpddr5 lpddr6 : DramStandard
