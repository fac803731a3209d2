-- ===== src/Controller/Timing/Constraints/History.antt =====
-- TimingEngine::constraint_ready against the history of issued commands.
use mathlib.Core.List.{Memᴰ}
use mem_sim.Base.{
  ℕ, ◌+◌, ◌≤◌, ◌≡◌, refl, sym, ap, ◌∙◌, true, false, List, [], ◌∷◌, arith, length, replicate,
  length-replicate, ok, >>-ok, get_or-replicate_self,
}
use mem_sim.Dram.Kinds.{Command, command_index, TimingScope}
use mem_sim.Dram.Spec.{DramSpec, Organization, TimingConstraint}
use mem_sim.Dram.Spec.Validate.{DoubleTests, validate_spec}
use mem_sim.Dram.Address.{DecodedAddress}
use mem_sim.Controller.Timing.Scope.{scope_index, scope_count, timing_delay}
use mem_sim.Controller.Timing.Engine.{
  RefdbState, TimingEngine, reset, initial_scope, scope_vector, scope_state,
}
use mem_sim.Controller.Timing.Engine.Gates.{
  IsHigher, IsSized, IsRaised-refl, IsRaised-trans, IsHigher-IsSized,
}
use mem_sim.Controller.Timing.Constraints.{
  skips, contains, apply_constraints, constraint_ready, all_ready, gate,
}
use mem_sim.Controller.Timing.Constraints.Update.{le_trans}
use mem_sim.Controller.Timing.Constraints.Enforced.{reaches, apply_all-IsHigher, apply_all-gate}

pub record Issue : Type 0 where
  pub decoded : DecodedAddress
  pub command : Command
  pub clk : ℕ

-- The engine after a history of issued commands, the newest first.
unfoldable pub run : DramSpec → TimingEngine → List Issue → TimingEngine
run spec e [] = e
run spec e (i ∷ older) = apply_constraints spec i.decoded i.command i.clk (run spec e older)

-- The counters of REFdb stand outside the buckets.
counted-IsHigher :
    (e : TimingEngine) (states : List RefdbState) → IsHigher e (record e { refdb_states = states })
unfolding scope_vector
counted-IsHigher e states TimingScope.channel = IsRaised-refl _
counted-IsHigher e states TimingScope.pseudo_channel = IsRaised-refl _
counted-IsHigher e states TimingScope.sid = IsRaised-refl _
counted-IsHigher e states TimingScope.rank = IsRaised-refl _
counted-IsHigher e states TimingScope.bank_group = IsRaised-refl _
counted-IsHigher e states TimingScope.bank = IsRaised-refl _

apply_constraints-IsHigher :
    (spec : DramSpec) (i : Issue) (e : TimingEngine)
    → IsHigher e (apply_constraints spec i.decoded i.command i.clk e)
unfolding apply_constraints
apply_constraints-IsHigher spec i e = λ s.
    IsRaised-trans (counted-IsHigher e _ s)
      (apply_all-IsHigher spec i.decoded i.command i.clk _ spec.timing_constraints s)

apply_constraints-gate :
    (spec : DramSpec) (i : Issue) (e : TimingEngine) (c : TimingConstraint) (cmd : Command)
    (other : DecodedAddress)
    → IsSized spec.org e
    → Memᴰ c spec.timing_constraints
    → skips c c.preceding i.command ≡ false
    → contains cmd c.following ≡ true
    → reaches spec.org c i.decoded other ≡ true
    → i.clk + timing_delay spec c.latency
      ≤ gate (apply_constraints spec i.decoded i.command i.clk e) spec.org c.scope other cmd
unfolding apply_constraints
apply_constraints-gate spec i e c cmd other s m sk co r =
    apply_all-gate spec i.decoded i.command i.clk _ spec.timing_constraints c cmd other
      (IsHigher-IsSized spec.org e _ (counted-IsHigher e _) s) m sk co r

run-IsSized :
    (spec : DramSpec) (e : TimingEngine) (h : List Issue)
    → IsSized spec.org e
    → IsSized spec.org (run spec e h)
unfolding run
run-IsSized spec e [] s = s
run-IsSized spec e (i ∷ older) s =
    IsHigher-IsSized spec.org (run spec e older) _
      (apply_constraints-IsHigher spec i (run spec e older)) (run-IsSized spec e older s)

run-gate :
    (spec : DramSpec) (e : TimingEngine) (h : List Issue) (i : Issue) (c : TimingConstraint)
    (cmd : Command) (other : DecodedAddress)
    → IsSized spec.org e
    → Memᴰ i h
    → Memᴰ c spec.timing_constraints
    → skips c c.preceding i.command ≡ false
    → contains cmd c.following ≡ true
    → reaches spec.org c i.decoded other ≡ true
    → i.clk + timing_delay spec c.latency ≤ gate (run spec e h) spec.org c.scope other cmd
unfolding run gate scope_state
run-gate spec e [] i c cmd other s n m sk co r = elim n [ ]
run-gate spec e (j ∷ older) i c cmd other s (Memᴰ.head h) m sk co r = rw (sym h) (
    apply_constraints-gate spec i (run spec e older) c cmd other (run-IsSized spec e older s) m sk
      co r)
run-gate spec e (j ∷ older) i c cmd other s (Memᴰ.tail n) m sk co r =
    le_trans (run-gate spec e older i c cmd other s n m sk co r) (
      (apply_constraints-IsHigher spec j (run spec e older) c.scope).gates
        (scope_index spec.org c.scope other) (command_index cmd))

contains-skips :
    (c : TimingConstraint) (commands : List Command) (cmd : Command)
    → c.window ≡ 0
    → contains cmd commands ≡ true
    → skips c commands cmd ≡ false
unfolding skips
contains-skips c commands cmd gap h = ground arith

all_ready-gate :
    (e : TimingEngine) (spec : DramSpec) (d : DecodedAddress) (cmd : Command) (clk : ℕ)
    (cs : List TimingConstraint) (c : TimingConstraint)
    → Memᴰ c cs
    → skips c c.following cmd ≡ false
    → all_ready e spec d cmd clk cs ≡ true
    → gate e spec.org c.scope d cmd ≤ clk
unfolding all_ready
all_ready-gate e spec d cmd clk [] c m sk r = elim m [ ]
all_ready-gate e spec d cmd clk (x ∷ xs) c (Memᴰ.head h) sk r =
    let first : all_ready e spec d cmd clk (c ∷ xs) ≡ true = rw h r in ground (arith, first, sk)
all_ready-gate e spec d cmd clk (x ∷ xs) c (Memᴰ.tail m) sk r =
    all_ready-gate e spec d cmd clk xs c m sk (ground (arith, r))

assigned-IsSized :
    (o : Organization) (e : TimingEngine)
    → ((s : TimingScope) → scope_vector e s ≡ replicate (scope_count o s) initial_scope)
    → IsSized o e
assigned-IsSized o e h = record {
  buckets = λ s. ap length (h s) ∙ length-replicate (scope_count o s) initial_scope;
  tables = λ s i. rw (h s, get_or-replicate_self (scope_count o s) i initial_scope) refl;
}

reset-scope_vector :
    (tests : DoubleTests) (spec : DramSpec) (e : TimingEngine) (s : TimingScope)
    → reset tests spec ≡ ok e
    → scope_vector e s ≡ replicate (scope_count spec.org s) initial_scope
unfolding reset scope_vector
reset-scope_vector tests spec e TimingScope.channel h =
    ground (arith, >>-ok (validate_spec tests spec) _ h)
reset-scope_vector tests spec e _ h = ground (arith, >>-ok (validate_spec tests spec) _ h)

-- From a reset engine, after any history of issued commands, a command is ready at an address only
-- when, for every command of the history and every constraint of the table that has no window,
-- names the two and reaches the address, as its own bucket or as a sibling, the constraint's
-- latency has passed since.
pub ready_after_latency :
    (tests : DoubleTests) (spec : DramSpec) (e : TimingEngine) (h : List Issue) (i : Issue)
    (c : TimingConstraint) (cmd : Command) (other : DecodedAddress) (clk : ℕ)
    → reset tests spec ≡ ok e
    → Memᴰ i h
    → Memᴰ c spec.timing_constraints
    → c.window ≡ 0
    → contains i.command c.preceding ≡ true
    → contains cmd c.following ≡ true
    → reaches spec.org c i.decoded other ≡ true
    → constraint_ready (run spec e h) spec other cmd clk ≡ true
    → i.clk + timing_delay spec c.latency ≤ clk
unfolding constraint_ready
ready_after_latency tests spec e h i c cmd other clk fresh n m gap before after r ready =
    le_trans
      (run-gate spec e h i c cmd other
        (assigned-IsSized spec.org e (λ s. reset-scope_vector tests spec e s fresh)) n m
        (contains-skips c c.preceding i.command gap before) after r)
      (all_ready-gate (run spec e h) spec other cmd clk spec.timing_constraints c m
        (contains-skips c c.following cmd gap after) (ground (arith, ready)))
