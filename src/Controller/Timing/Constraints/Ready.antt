-- ===== src/Controller/Timing/Constraints/Ready.antt =====
-- TimingEngine::constraint_ready and constraint_ready_at.
use mem_sim.Base.{ℕ, ◌<◌, max, ◌≡◌, ◌&&◌, List, [], ◌∷◌, arith, leb}
use mem_sim.Dram.Semantics.{lpddr_refdb_partner}
use mem_sim.Dram.Kinds.{TimingScope, Command}
use mem_sim.Dram.Spec.{DramSpec, TimingConstraint, u64_max}
use mem_sim.Dram.Address.{DecodedAddress}
use mem_sim.Controller.Timing.Engine.{TimingEngine}
use mem_sim.Controller.Timing.Constraints.{
  gate, refdb_state, constraint_ready, constraint_ready_at, all_ready, latest_gate,
}

latest_gate-all_ready :
    (e : TimingEngine) (spec : DramSpec) (d : DecodedAddress) (cmd : Command) (clk ready : ℕ)
    (cs : List TimingConstraint)
    → leb (latest_gate e spec d cmd ready cs) clk ≡ (leb ready clk && all_ready e spec d cmd clk cs)
unfolding latest_gate all_ready
latest_gate-all_ready e spec d cmd clk ready [] = ground arith
latest_gate-all_ready e spec d cmd clk ready (c ∷ cs) =
    let own = max ready (gate e spec.org c.scope d cmd) in
    let both = max own (gate e spec.org TimingScope.bank (lpddr_refdb_partner spec.org d) cmd) in
    ground (
      arith,
      latest_gate-all_ready e spec d cmd clk ready cs,
      latest_gate-all_ready e spec d cmd clk own cs,
      latest_gate-all_ready e spec d cmd clk both cs,
    )

-- At every clock below the largest value of a cycle, a command is ready exactly when the clock has
-- reached the cycle that constraint_ready_at gives.
pub constraint_ready-constraint_ready_at :
    (e : TimingEngine) (spec : DramSpec) (d : DecodedAddress) (cmd : Command) (clk : ℕ)
    → clk < u64_max
    → constraint_ready e spec d cmd clk ≡ leb (constraint_ready_at e spec d cmd) clk
unfolding constraint_ready constraint_ready_at
constraint_ready-constraint_ready_at e spec d cmd clk h = ground (
  arith,
  latest_gate-all_ready e spec d cmd clk 0 spec.timing_constraints,
  latest_gate-all_ready e spec d cmd clk (refdb_state e spec.org d).ready spec.timing_constraints,
)
