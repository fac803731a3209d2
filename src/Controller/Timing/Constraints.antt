-- ===== src/Controller/Timing/Constraints.antt =====
-- The table-driven constraints of src/controller/timing.cpp, and the REFdb counters.
pub mod Ready
pub mod Update
pub mod Enforced
pub mod History
use mem_sim.Base.{
  ℕ, zero, suc, ◌+◌, ◌-◌, ◌*◌, ◌/◌, ◌%◌, max, Bool, true, false, not, ◌&&◌, ◌||◌, List, [], ◌∷◌,
  map, ltb, ◌==◌, if◌then◌else◌, get_or, set, modify, modify_range,
}
use mem_sim.Dram.Kinds.{TimingScope, Command, command_index, refdb, refab, srefex}
use mem_sim.Dram.Spec.{Organization, DramSpec, TimingConstraint, u64_max}
use mem_sim.Dram.Address.{DecodedAddress}
use mem_sim.Dram.Semantics.{lpddr_refdb_partner}
use mem_sim.Controller.Timing.Scope.{scope_index, timing_delay, sibling_range}
use mem_sim.Controller.Timing.Engine.{
  TimingScopeState, RefdbState, TimingEngine, initial_refdb, scope_state, mutable_scope,
  scope_vector, set_scope_vector,
}

-- std::find
unfoldable pub contains : Command → List Command → Bool
contains c [] = false
contains c (x ∷ xs) = if command_index c == command_index x then true else contains c xs

abbrev pub is_refdb : Command → Bool
is_refdb refdb = true
is_refdb _ = false

unfoldable pub is_bank_scope : TimingScope → Bool
is_bank_scope TimingScope.bank = true
is_bank_scope _ = false

unfoldable pub pair_of : Organization → DecodedAddress → ℕ
pair_of o d = (d.bank_group / 2) * o.banks_per_group + d.bank

unfoldable pub refdb_state : TimingEngine → Organization → DecodedAddress → RefdbState
refdb_state e o d = get_or e.refdb_states (scope_index o TimingScope.rank d) initial_refdb

-- The gate of a command in the bucket of an address.
unfoldable pub gate : TimingEngine → Organization → TimingScope → DecodedAddress → Command → ℕ
gate e o scope d cmd = get_or (scope_state e o scope d).next_command (command_index cmd) 0

-- Whether a REFdb counts for both of its banks in this constraint.
unfoldable pub both_banks : DramSpec → Command → TimingConstraint → Bool
both_banks spec cmd c = is_refdb cmd && spec.lpddr_dual_bank_refresh && is_bank_scope c.scope

-- `constraint.window > 0 || find(constraint.following, cmd) == end`
unfoldable pub skips : TimingConstraint → List Command → Command → Bool
skips c commands cmd = ltb 0 c.window || not (contains cmd commands)

-- The loop of constraint_ready.
unfoldable pub all_ready :
    TimingEngine → DramSpec → DecodedAddress → Command → ℕ → List TimingConstraint → Bool
all_ready e spec d cmd clk [] = true
all_ready e spec d cmd clk (c ∷ cs) =
    let rest = all_ready e spec d cmd clk cs in
    if skips c c.following cmd
    then rest
    else if ltb clk (gate e spec.org c.scope d cmd)
    then false
    else if both_banks spec cmd c
        && ltb clk (gate e spec.org TimingScope.bank (lpddr_refdb_partner spec.org d) cmd)
    then false
    else rest

unfoldable pub constraint_ready : TimingEngine → DramSpec → DecodedAddress → Command → ℕ → Bool
constraint_ready e spec d cmd clk =
    let refresh = refdb_state e spec.org d in
    if spec.lpddr_dual_bank_refresh
      && is_refdb cmd
      && (ltb clk refresh.ready || get_or refresh.visited_pairs (pair_of spec.org d) false)
    then false
    else all_ready e spec d cmd clk spec.timing_constraints

-- The loop of constraint_ready_at, with the latest gate so far.
unfoldable pub latest_gate :
    TimingEngine → DramSpec → DecodedAddress → Command → ℕ → List TimingConstraint → ℕ
latest_gate e spec d cmd ready [] = ready
latest_gate e spec d cmd ready (c ∷ cs) =
    let own = max ready (gate e spec.org c.scope d cmd) in
    let both = max own (gate e spec.org TimingScope.bank (lpddr_refdb_partner spec.org d) cmd) in
    latest_gate e spec d cmd
      (if skips c c.following cmd then ready else if both_banks spec cmd c then both else own) cs

unfoldable pub constraint_ready_at : TimingEngine → DramSpec → DecodedAddress → Command → ℕ
constraint_ready_at e spec d cmd =
    let refresh = refdb_state e spec.org d in
    if spec.lpddr_dual_bank_refresh && is_refdb cmd
    then if get_or refresh.visited_pairs (pair_of spec.org d) false
      then u64_max
      else latest_gate e spec d cmd refresh.ready spec.timing_constraints
    else latest_gate e spec d cmd 0 spec.timing_constraints

-- The lambda `update`, for the commands that follow.
unfoldable pub update : List Command → ℕ → TimingScopeState → TimingScopeState
update [] ready scope = scope
update (following ∷ rest) ready scope = update rest ready (record scope {
  next_command = modify scope.next_command (command_index following) (λ n. max n ready);
})

-- The loop over the siblings: all of the range but the current one.
unfoldable pub update_siblings :
    List TimingScopeState
    → ℕ
    → ℕ
    → ℕ
    → (TimingScopeState → TimingScopeState)
    → List TimingScopeState
update_siblings scopes index zero current f = scopes
update_siblings scopes index (suc count) current f =
    update_siblings (if index == current then scopes else modify scopes index f) (suc index) count
      current f

-- One round of the loop of apply_constraints.
unfoldable pub apply_constraint :
    DramSpec → DecodedAddress → Command → ℕ → TimingEngine → TimingConstraint → TimingEngine
apply_constraint spec d issued clk e c =
    let o = spec.org in
    let raise = update c.following (clk + timing_delay spec c.latency) in
    let (begin, end) = sibling_range o c.scope d in
    let own = mutable_scope e o c.scope d raise in
    if skips c c.preceding issued
    then e
    else if not c.sibling
    then if both_banks spec issued c
      then mutable_scope own o TimingScope.bank (lpddr_refdb_partner o d) raise
      else own
    else set_scope_vector e c.scope (
        update_siblings (scope_vector e c.scope) begin (end - begin) (scope_index o c.scope d)
          raise)

unfoldable pub apply_all :
    DramSpec → DecodedAddress → Command → ℕ → TimingEngine → List TimingConstraint → TimingEngine
apply_all spec d issued clk e [] = e
apply_all spec d issued clk e (c ∷ cs) =
    apply_all spec d issued clk (apply_constraint spec d issued clk e c) cs

-- The REFdb counter of a rank after a REFdb, a REFab and a SREFEX.
unfoldable pub refdb_issued : DramSpec → DecodedAddress → ℕ → RefdbState → RefdbState
refdb_issued spec d clk refresh =
    let o = spec.org in
    let t = spec.timing in
    let pairs = (o.bank_groups / 2) * o.banks_per_group in
    let visited = set refresh.visited_pairs (pair_of o d) true in
    let count = (refresh.bank_count + 1) % pairs in
    let short_gap = if ltb 0 t.n_refdb2refdbs then t.n_refdb2refdbs else t.n_rrdl in
    let long_gap = if ltb 0 t.n_refdb2refdbl then t.n_refdb2refdbl else short_gap in
    record {
      bank_count = count;
      ready = clk + timing_delay spec (if count == 0 then long_gap else short_gap);
      visited_pairs = if count == 0 then map (λ _. false) visited else visited;
    }

unfoldable pub refab_issued : DramSpec → ℕ → RefdbState → RefdbState
refab_issued spec clk refresh = record {
  bank_count = 0;
  ready = clk + timing_delay spec spec.timing.n_rfc;
  visited_pairs = map (λ _. false) refresh.visited_pairs;
}

unfoldable pub srefex_issued : RefdbState → RefdbState
srefex_issued refresh = record {
  bank_count = 0;
  ready = 0;
  visited_pairs = map (λ _. false) refresh.visited_pairs;
}

unfoldable pub apply_refdb :
    DramSpec → DecodedAddress → Command → ℕ → List RefdbState → List RefdbState
apply_refdb spec d refdb clk states =
    modify states (scope_index spec.org TimingScope.rank d) (refdb_issued spec d clk)
apply_refdb spec d refab clk states =
    modify states (scope_index spec.org TimingScope.rank d) (refab_issued spec clk)
apply_refdb spec d srefex clk states =
    let (begin, end) = sibling_range spec.org TimingScope.pseudo_channel d in
    let ranks_per_pc = spec.org.sids * spec.org.ranks in
    modify_range states (begin * ranks_per_pc) ((end - begin) * ranks_per_pc) srefex_issued
apply_refdb spec d _ clk states = states

unfoldable pub apply_constraints :
    DramSpec → DecodedAddress → Command → ℕ → TimingEngine → TimingEngine
apply_constraints spec d issued clk e =
    let counted = record e {
      refdb_states =
          if spec.lpddr_dual_bank_refresh
          then apply_refdb spec d issued clk e.refdb_states
          else e.refdb_states;
    } in
    apply_all spec d issued clk counted spec.timing_constraints
