-- ===== src/Examples/Refresh.antt =====
-- The theorems on refresh at concrete inputs.
use mathlib.Core.List.{Memᴰ}
use mem_sim.Dram.Kinds.{refpb}
use mem_sim.Controller.Refresh.Batch.{positions_per_sid}
use mem_sim.Controller.Refresh.Rotation.{InRotation, round, batch_after, batch_after-every_bank}
use mem_sim.Examples.{somewhere, somewhere-InRange, small-IsPositive}
use mem_sim.Controller.Refresh.Batch.{RankRefreshState, refresh_interval}
use mem_sim.Controller.Refresh.Tick.{RefreshManager, initial_rank, reset, catch_up}
use mem_sim.Controller.Refresh.Ledger.{Passes, catch_up-Passes, IsAhead}
use mem_sim.Controller.Refresh.History.{
  TickInput, Run, run, IsBalanced, interval_ticks, credit_ledger,
}
use mem_sim.Controller.Timing.Scope.{timing_delay}
use mem_sim.Examples.{small_spec}
use mem_sim.Examples.Command.{good_doubles, small_spec_passes}
use mem_sim.Base.{ℕ, ◌+◌, ◌<◌, ◌≡◌, refl, true, false, [], ◌∷◌, arith, ok, All}

abbrev rank : RankRefreshState
rank = record initial_rank { next_refresh_cycle = 50 }

abbrev manager : RefreshManager
manager = record { rank_states = rank ∷ rank ∷ []; rank_cursor = 0; self_refresh_active = false }

manager_fresh : reset good_doubles small_spec 0 ≡ ok manager
unfolding reset refresh_interval timing_delay
manager_fresh = rw small_spec_passes refl

small_interval : 0 < refresh_interval small_spec
unfolding refresh_interval
small_interval = omega arith

abbrev at : ℕ → TickInput
at clk = record { clk = clk; prefer_postpone = false; allow_pull_in = true }

catch_up-Passes_example :
    let t = (catch_up 120 50 false rank).state in
    (120 < t.next_refresh_cycle) × (k : ℕ) × Passes 50 k rank t
catch_up-Passes_example = catch_up-Passes 120 50 rank (omega arith)

credit_ledger_example :
    (r : Run) × (run good_doubles small_spec manager (at 120 ∷ at 40 ∷ []) ≡ ok r)
    × IsBalanced small_spec (0 + interval_ticks small_spec) r
    × All (IsAhead 120) r.manager.rank_states
credit_ledger_example =
    credit_ledger good_doubles small_spec refl small_interval 0 manager (at 120) (at 40 ∷ [])
      manager_fresh

rank-InRotation : InRotation small_spec rank
unfolding positions_per_sid
rank-InRotation = record { flat = omega arith; sid = omega arith }

batch_after-every_bank_example :
    (k : ℕ) × (k < round small_spec)
    × Memᴰ
        (record { command = refpb; decoded = record somewhere { row = 0; column = 0 } })
        (batch_after small_spec 1 rank k)
batch_after-every_bank_example =
    batch_after-every_bank small_spec rank somewhere refl refl small-IsPositive rank-InRotation
      somewhere-InRange
