-- ===== src/Examples/Gates.antt =====
-- The theorems on the timing engine at concrete inputs.
use mathlib.Core.List.Memᴰ
use mem_sim.Base.{◌+◌, ◌≤◌, ◌≡◌, refl, true, List, [], ◌∷◌, arith, ltb, leb, length, replicate, ok}
use mem_sim.Dram.Kinds.{TimingScope, act}
use mem_sim.Dram.Address.{DecodedAddress}
use mem_sim.Controller.Timing.Scope.{scope_count, scope_index, timing_delay}
use mem_sim.Controller.Timing.Engine
use mem_sim.Controller.Timing.Engine.{
  TimingScopeState, TimingEngine, initial_scope, initial_refdb, scope_state, scope_vector,
  set_scope_vector, mutable_scope,
}
use mem_sim.Controller.Timing.Constraints.{
  constraint_ready, constraint_ready_at, all_ready, apply_constraints, apply_all, apply_constraint,
  update, skips, contains, gate, both_banks,
}
use mem_sim.Controller.Timing.Constraints.Enforced.{reaches}
use mem_sim.Controller.Timing.Constraints.Ready.{constraint_ready-constraint_ready_at}
use mem_sim.Controller.Timing.Constraints.History.{Issue, run, ready_after_latency}
use mem_sim.Controller.Timing.Window.{faw_ready, prune_recent_acts}
use mem_sim.Controller.Timing.Window.History
use mem_sim.Controller.Timing.Window.History.{
  Event, activated, pruned, acts, faw_window, faw_ready_exact,
}
use mem_sim.Controller.Timing.Window.Within.{within}
use mem_sim.Examples.{small_org, small_spec, row_gap, somewhere}
use mem_sim.Examples.Command.{good_doubles, small_spec_passes}

abbrev pub buckets : TimingScope → List TimingScopeState
buckets scope = replicate (scope_count small_org scope) initial_scope

abbrev pub engine : TimingEngine
engine = record {
  channel_scopes = buckets TimingScope.channel;
  pseudo_channel_scopes = buckets TimingScope.pseudo_channel;
  sid_scopes = buckets TimingScope.sid;
  rank_scopes = buckets TimingScope.rank;
  refdb_states = replicate (scope_count small_org TimingScope.rank) initial_refdb;
  activation_scopes = buckets TimingScope.rank;
  row_scopes = buckets TimingScope.pseudo_channel;
  column_scopes = buckets TimingScope.pseudo_channel;
  bank_group_scopes = buckets TimingScope.bank_group;
  bank_scopes = buckets TimingScope.bank;
  wck_scopes = buckets TimingScope.channel;
}

engine-reset : Engine.reset good_doubles small_spec ≡ ok engine
unfolding Engine.reset
engine-reset = rw small_spec_passes refl

-- The other bank of the bank group.
abbrev beside : DecodedAddress
beside = record somewhere { bank = 0 }

abbrev activation : Issue
activation = record { decoded = somewhere; command = act; clk = 10 }

constraint_ready-constraint_ready_at_example :
    constraint_ready (run small_spec engine (activation ∷ [])) small_spec beside act 12
    ≡ leb (constraint_ready_at (run small_spec engine (activation ∷ [])) small_spec beside act) 12
constraint_ready-constraint_ready_at_example =
    constraint_ready-constraint_ready_at (run small_spec engine (activation ∷ [])) small_spec beside
      act 12 (omega arith)

row_gap-contains : (contains act row_gap.preceding ≡ true) × (contains act row_gap.following ≡ true)
unfolding contains
row_gap-contains = (refl, refl)

row_gap-reaches : reaches small_org row_gap somewhere beside ≡ true
unfolding reaches scope_index
row_gap-reaches = refl

beside-ready :
    constraint_ready (run small_spec engine (activation ∷ [])) small_spec beside act 13 ≡ true
unfolding constraint_ready all_ready run apply_constraints apply_all apply_constraint update skips
    contains gate both_banks scope_state scope_vector set_scope_vector mutable_scope scope_index
    scope_count timing_delay
beside-ready = refl

ready_after_latency_example : 10 + timing_delay small_spec 3 ≤ 13
ready_after_latency_example =
    ready_after_latency good_doubles small_spec engine (activation ∷ []) activation row_gap act
      beside 13 engine-reset (Memᴰ.head refl) (Memᴰ.head refl) refl row_gap-contains.0
      row_gap-contains.1 row_gap-reaches beside-ready

-- Five activations of one rank, the first of them out of the window of twelve cycles at cycle 13.
abbrev events : List Event
events =
    activated somewhere 9
    ∷ activated beside 7
    ∷ pruned 6
    ∷ activated somewhere 5
    ∷ activated beside 3
    ∷ activated somewhere 1
    ∷ []

faw_ready_exact_example :
    faw_ready small_spec beside
      (prune_recent_acts small_spec 13 (History.run small_spec engine events))
    ≡ ltb (length (within (faw_window small_spec) 13 (acts small_spec beside events))) 4
faw_ready_exact_example =
    faw_ready_exact good_doubles small_spec engine beside 13 events engine-reset
      (omega arith, (omega arith, (omega arith, (omega arith, (omega arith, (omega arith, tt))))))
