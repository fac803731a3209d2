-- ===== src/Controller/Executor.antt =====
-- CommandExecutor of src/controller/executor.cpp: what an issued command does to the banks, the
-- timing buckets, the RFM counts and the statistics.
pub mod Parts
pub mod Issue
pub mod Moves
pub mod Protocol
use mem_sim.Base.{ℕ, ◌+◌, ◌-◌, ◌*◌, min, max, Bool, Option, List, length, modify, modify_range}
use mem_sim.Dram.Kinds.{RequestType, Command, TimingScope}
use mem_sim.Dram.Spec.{DramSpec}
use mem_sim.Dram.Address.{DecodedAddress, flat_bank, clamp_below}
use mem_sim.Controller.Timing.Scope.{scope_index}
use mem_sim.Controller.Timing.Engine.{TimingScopeState, TimingEngine}
use mem_sim.Controller.Rfm.{RfmManager}
use mem_sim.Stats.{Stats}

-- include/hbm_sim/dram/bank_state.hpp; a closed bank has no open row, -1 in the source.
pub record BankState : Type 0 where
  pub open_row : Option ℕ
  pub next_act : ℕ
  pub next_pre : ℕ
  pub next_rd : ℕ
  pub next_wr : ℕ
  pub next_any_col : ℕ
  pub next_act2 : ℕ
  pub act2_deadline : ℕ
  pub activating : Bool

-- The fields of include/hbm_sim/core/request.hpp that issue and the controller's tests read.
pub record Request : Type 0 where
  pub type : RequestType
  pub decoded : DecodedAddress
  pub next : Command
  pub arrival : ℕ
  pub issued_first_activate : Bool
  pub cas_sync_issued : Bool

-- The objects that the executor holds references to.
pub record CommandExecutor : Type 0 where
  pub banks : List BankState
  pub timing_engine : TimingEngine
  pub rfm_manager : RfmManager
  pub stats : Stats

-- The first bank of the rank, and the first behind it.
unfoldable pub rank_bank_range : DramSpec → CommandExecutor → DecodedAddress → ℕ × ℕ
rank_bank_range spec x decoded =
    let o = spec.org in
    let banks_per_rank = max 1 (o.bank_groups * o.banks_per_group) in
    let channel = clamp_below decoded.channel o.channels in
    let pc = clamp_below decoded.pseudo_channel o.pseudo_channels in
    let sid = clamp_below decoded.sid o.sids in
    let rank = clamp_below decoded.rank o.ranks in
    let rank_index =
      ((channel * max 1 o.pseudo_channels + pc) * max 1 o.sids + sid) * max 1 o.ranks + rank in
    let begin = rank_index * banks_per_rank in
    (begin, min (length x.banks) (begin + banks_per_rank))

-- Writes through the references `bank`, `row`, `col`, `bg` and `wck` of issue.
unfoldable pub on_bank :
    DramSpec → DecodedAddress → (BankState → BankState) → CommandExecutor → CommandExecutor
on_bank spec d f x = record x { banks = modify x.banks (flat_bank spec.org d) f }

unfoldable pub on_row :
    DramSpec
    → DecodedAddress
    → (TimingScopeState → TimingScopeState)
    → CommandExecutor
    → CommandExecutor
on_row spec d f x =
    let e = x.timing_engine in
    record x {
      timing_engine = record e {
        row_scopes = modify e.row_scopes (scope_index spec.org spec.row_bus_scope d) f;
      };
    }

unfoldable pub on_col :
    DramSpec
    → DecodedAddress
    → (TimingScopeState → TimingScopeState)
    → CommandExecutor
    → CommandExecutor
on_col spec d f x =
    let e = x.timing_engine in
    record x {
      timing_engine = record e {
        column_scopes = modify e.column_scopes (scope_index spec.org spec.column_bus_scope d) f;
      };
    }

unfoldable pub on_bg :
    DramSpec
    → DecodedAddress
    → (TimingScopeState → TimingScopeState)
    → CommandExecutor
    → CommandExecutor
on_bg spec d f x =
    let e = x.timing_engine in
    record x {
      timing_engine = record e {
        bank_group_scopes =
            modify e.bank_group_scopes (scope_index spec.org TimingScope.bank_group d) f;
      };
    }

unfoldable pub on_wck :
    DramSpec
    → DecodedAddress
    → (TimingScopeState → TimingScopeState)
    → CommandExecutor
    → CommandExecutor
on_wck spec d f x =
    let e = x.timing_engine in
    record x {
      timing_engine = record e {
        wck_scopes = modify e.wck_scopes (scope_index spec.org spec.wck_scope d) f;
      };
    }

unfoldable pub on_stats : (Stats → Stats) → CommandExecutor → CommandExecutor
on_stats f x = record x { stats = f x.stats }

unfoldable pub on_rank :
    DramSpec → DecodedAddress → (BankState → BankState) → CommandExecutor → CommandExecutor
on_rank spec d f x =
    let (begin, end) = rank_bank_range spec x d in
    record x { banks = modify_range x.banks begin (end - begin) f }
