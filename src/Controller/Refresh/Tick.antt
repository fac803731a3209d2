-- ===== src/Controller/Refresh/Tick.antt =====
-- RefreshManager::reset, tick and set_self_refresh.
use mem_sim.Base.{
  ℕ, zero, suc, ◌+◌, ◌/◌, ◌%◌, max, Bool, true, false, not, ◌&&◌, ◌||◌, Option, none, some, List,
  [], map, ltb, leb, ◌==◌, if◌then◌else◌, length, get_or, set, replicate, Result, ok, ◌>>=◌, ◌>>◌,
  ℤ, pos, pos_part, plus_one, minus_one, is_positive, is_natural, sum_ℤ,
}
use mem_sim.Dram.Spec.{DramSpec}
use mem_sim.Dram.Spec.Validate.{DoubleTests, validate_spec}
use mem_sim.Controller.Timing.Scope.{timing_delay}
use mem_sim.Controller.Refresh.Batch.{
  MaintenanceCommand, RankRefreshState, refresh_interval, seed_refresh_batch,
}

pub record RefreshManager : Type 0 where
  pub rank_states : List RankRefreshState
  pub rank_cursor : ℕ
  pub self_refresh_active : Bool

pub record RefreshTickResult : Type 0 where
  pub started_batch : Bool
  pub postponed : Bool
  pub pulled_in : Bool
  pub credit : ℤ
  pub commands : List MaintenanceCommand

abbrev pub initial_result : RefreshTickResult
initial_result = record {
  started_batch = false;
  postponed = false;
  pulled_in = false;
  credit = pos 0;
  commands = [];
}

abbrev pub initial_rank : RankRefreshState
initial_rank = record {
  next_refresh_cycle = 0;
  sid_cursor = 0;
  flat_bank_cursor = 0;
  credit = pos 0;
  postpone_count = 0;
  pullin_count = 0;
}

unfoldable pub reset : DoubleTests → DramSpec → ℕ → Result RefreshManager
reset tests spec clk = do
  validate_spec tests spec
  let first = clk + timing_delay spec (refresh_interval spec)
  ok (record {
    rank_states =
        replicate (max 1 spec.org.ranks) (record initial_rank { next_refresh_cycle = first });
    rank_cursor = 0;
    self_refresh_active = false;
  })

unfoldable pub set_self_refresh : Bool → RefreshManager → RefreshManager
set_self_refresh active m = record m { self_refresh_active = active }

unfoldable pub aggregate_credit : List RankRefreshState → ℤ
aggregate_credit states = sum_ℤ (map (λ (s : RankRefreshState). s.credit) states)

-- A rank's state, and whether a deadline of it has passed in this tick.
pub record Due : Type 0 where
  pub state : RankRefreshState
  pub newly_due : Bool

-- `while (clk >= state.next_refresh_cycle)`, on fuel.
unfoldable pub pass_deadlines : ℕ → ℕ → ℕ → Bool → Due → Due
pass_deadlines zero clk interval_ticks asleep due = due
pass_deadlines (suc fuel) clk interval_ticks asleep due =
    let s = due.state in
    let rest = pass_deadlines fuel clk interval_ticks asleep (record {
      state = record s {
        credit = if asleep then s.credit else plus_one s.credit;
        next_refresh_cycle = s.next_refresh_cycle + interval_ticks;
      };
      newly_due = true;
    }) in
    if leb s.next_refresh_cycle clk then rest else due

-- One round of the loop over the ranks.
unfoldable pub catch_up : ℕ → ℕ → Bool → RankRefreshState → Due
catch_up clk interval_ticks asleep s =
    let due =
      pass_deadlines (clk + 1) clk interval_ticks asleep
        (record { state = s; newly_due = false }) in
    let t = due.state in
    record due { state = if is_natural t.credit then record t { pullin_count = 0 } else t }

abbrev pub states_of : List Due → List RankRefreshState
states_of dues = map (λ (d : Due). d.state) dues

abbrev pub no_due : Due
no_due = record { state = initial_rank; newly_due = false }

-- What leaves tick: the states, the cursor and the result without its credit.
pub record Outcome : Type 0 where
  pub states : List RankRefreshState
  pub cursor : ℕ
  pub result : RefreshTickResult

-- The rank is given a batch, which takes one from its credit.
unfoldable pub start_batch :
    DramSpec → List Due → ℕ → (RankRefreshState → RankRefreshState) → Bool → Outcome
start_batch spec dues rank settle pulled_in =
    let (commands, s) = seed_refresh_batch spec rank (get_or dues rank no_due).state in
    let paid = settle (record s { credit = minus_one s.credit }) in
    let states = set (states_of dues) rank paid in
    record {
      states = states;
      cursor = (rank + 1) % length dues;
      result = record {
        started_batch = true;
        postponed = false;
        pulled_in = pulled_in;
        credit = aggregate_credit states;
        commands = commands;
      };
    }

unfoldable pub postpone : List Due → ℕ → Outcome
postpone dues rank =
    let s = (get_or dues rank no_due).state in
    let states = set (states_of dues) rank (record s { postpone_count = s.postpone_count + 1 }) in
    record {
      states = states;
      cursor = (rank + 1) % length dues;
      result = record initial_result { postponed = true; credit = aggregate_credit states };
    }

-- `credit_limit == 0 || state.credit <= credit_limit`, on a positive credit
unfoldable pub can_postpone : DramSpec → Bool → Due → Bool
can_postpone spec prefer_postpone d =
    let s = d.state in
    d.newly_due
    && prefer_postpone
    && ltb 0 spec.refresh_postpone_limit
    && ltb s.postpone_count spec.refresh_postpone_limit
    && (spec.refresh_credit_limit == 0 || leb (pos_part s.credit) spec.refresh_credit_limit)

unfoldable pub keeps_waiting : DramSpec → Bool → Due → Bool
keeps_waiting spec prefer_postpone d =
    prefer_postpone
    && not d.newly_due
    && ltb 0 d.state.postpone_count
    && ltb d.state.postpone_count spec.refresh_postpone_limit

abbrev pub settle_due : RankRefreshState → RankRefreshState
settle_due s = if is_positive s.credit then s else record s { postpone_count = 0 }

-- The loop over the ranks that owe a refresh, `rounds` of it left.
unfoldable pub serve_due : DramSpec → Bool → List Due → ℕ → ℕ → ℕ → Option Outcome
serve_due spec prefer_postpone dues cursor zero offset = none
serve_due spec prefer_postpone dues cursor (suc rounds) offset =
    let rank = (cursor + offset) % length dues in
    let d = get_or dues rank no_due in
    let rest = serve_due spec prefer_postpone dues cursor rounds (offset + 1) in
    if not (is_positive d.state.credit)
    then rest
    else if can_postpone spec prefer_postpone d
    then some (postpone dues rank)
    else if keeps_waiting spec prefer_postpone d
    then rest
    else some (start_batch spec dues rank settle_due false)

abbrev pub is_zero : ℤ → Bool
is_zero (pos zero) = true
is_zero _ = false

unfoldable pub can_pull_in : DramSpec → ℕ → RankRefreshState → Bool
can_pull_in spec clk s =
    let in_window =
      leb s.next_refresh_cycle (clk + timing_delay spec (max 1 (refresh_interval spec / 2))) in
    is_zero s.credit && in_window && ltb s.pullin_count spec.refresh_pullin_limit

abbrev pub settle_pull_in : RankRefreshState → RankRefreshState
settle_pull_in s = record s { pullin_count = s.pullin_count + 1 }

-- The loop over the ranks that may refresh early.
unfoldable pub serve_early : DramSpec → ℕ → List Due → ℕ → ℕ → ℕ → Option Outcome
serve_early spec clk dues cursor zero offset = none
serve_early spec clk dues cursor (suc rounds) offset =
    let rank = (cursor + offset) % length dues in
    let d = get_or dues rank no_due in
    let rest = serve_early spec clk dues cursor rounds (offset + 1) in
    if can_pull_in spec clk d.state
    then some (start_batch spec dues rank settle_pull_in true)
    else rest

abbrev pub unserved : List Due → ℕ → Outcome
unserved dues cursor = record {
  states = states_of dues;
  cursor = cursor;
  result = record initial_result { credit = aggregate_credit (states_of dues) };
}

abbrev pub or_else : Option Outcome → Outcome → Outcome
or_else (some o) other = o
or_else none other = other

-- The rest of tick, once the deadlines are counted.
unfoldable pub serve : DramSpec → ℕ → Bool → Bool → List Due → ℕ → Outcome
serve spec clk prefer_postpone allow_pull_in dues cursor =
    let early =
      if allow_pull_in && ltb 0 spec.refresh_pullin_limit
      then serve_early spec clk dues cursor (length dues) 0
      else none in
    or_else (serve_due spec prefer_postpone dues cursor (length dues) 0)
      (or_else early (unserved dues cursor))

unfoldable pub tick_sized :
    DramSpec → ℕ → Bool → Bool → RefreshManager → RefreshManager × RefreshTickResult
tick_sized spec clk prefer_postpone allow_pull_in m =
    let interval_ticks = timing_delay spec (refresh_interval spec) in
    let dues = map (catch_up clk interval_ticks m.self_refresh_active) m.rank_states in
    let o =
      if m.self_refresh_active
      then unserved dues m.rank_cursor
      else serve spec clk prefer_postpone allow_pull_in dues m.rank_cursor in
    (record m { rank_states = o.states; rank_cursor = o.cursor }, o.result)

unfoldable pub tick :
    DoubleTests
    → DramSpec
    → ℕ
    → Bool
    → Bool
    → RefreshManager
    → Result (RefreshManager × RefreshTickResult)
tick tests spec clk prefer_postpone allow_pull_in m =
    if not spec.supports_refresh || refresh_interval spec == 0 then ok (m, initial_result) else do
      sized ← (if length m.rank_states == max 1 spec.org.ranks then ok m else reset tests spec clk)
      ok (tick_sized spec clk prefer_postpone allow_pull_in sized)
