-- ===== src/Controller/Timing/Window.antt =====
-- The activation window (tFAW) and the WCK window of src/controller/timing.cpp.
pub mod Within
pub mod History
use mem_sim.Base.{
  ℕ, ◌-◌, max, Bool, true, false, not, ◌&&◌, List, [], ◌∷◌, ◌++◌, map, ltb, leb, ◌==◌,
  if◌then◌else◌, length, get_or, modify,
}
use mem_sim.Dram.Kinds.{LpddrWckMode, always_on}
use mem_sim.Dram.Spec.{DramSpec}
use mem_sim.Dram.Address.{DecodedAddress}
use mem_sim.Controller.Timing.Scope.{scope_index, timing_delay}
use mem_sim.Controller.Timing.Engine.{TimingScopeState, TimingEngine, initial_scope, wck_state}

-- The loop that pops the front of the deque while it is out of the window.
unfoldable pub prune : ℕ → ℕ → List ℕ → List ℕ
prune window clk [] = []
prune window clk (front ∷ acts) =
    let rest = prune window clk acts in
    if leb front clk && leb window (clk - front) then rest else front ∷ acts

unfoldable pub prune_recent_acts : DramSpec → ℕ → TimingEngine → TimingEngine
prune_recent_acts spec clk e =
    let window = timing_delay spec (max 1 spec.timing.n_faw) in
    record e {
      activation_scopes =
          map (λ (s : TimingScopeState). record s { recent_acts = prune window clk s.recent_acts })
            e.activation_scopes;
    }

-- With no scopes there is nothing to write, as in the early return of the source.
unfoldable pub record_activate : DramSpec → DecodedAddress → ℕ → TimingEngine → TimingEngine
record_activate spec d clk e = record e {
  activation_scopes =
      modify e.activation_scopes (scope_index spec.org spec.activation_scope d)
        (λ (s : TimingScopeState). record s { recent_acts = s.recent_acts ++ clk ∷ [] });
}

unfoldable pub recent : DramSpec → DecodedAddress → TimingEngine → List ℕ
recent spec d e =
    let bucket =
      get_or e.activation_scopes (scope_index spec.org spec.activation_scope d) initial_scope in
    bucket.recent_acts

unfoldable pub faw_ready : DramSpec → DecodedAddress → TimingEngine → Bool
faw_ready spec d e =
    if length e.activation_scopes == 0 then true else ltb (length (recent spec d e)) 4

abbrev is_always_on : LpddrWckMode → Bool
is_always_on always_on = true
is_always_on _ = false

unfoldable pub wck_ready_for_data : DramSpec → DecodedAddress → ℕ → TimingEngine → Bool
wck_ready_for_data spec d clk e =
    let wck = wck_state e spec d in
    if not spec.lpddr_family
    then true
    else if is_always_on spec.lpddr_wck_mode
    then true
    else leb wck.wck_ready_at clk && ltb clk wck.wck_active_until
