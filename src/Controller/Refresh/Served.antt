-- ===== src/Controller/Refresh/Served.antt =====
-- What RefreshManager::tick does to the credit once the deadlines are counted.
use mem_sim.Base.{
  ℕ, zero, suc, ◌+◌, ◌%◌, ◌<◌, ◌≡◌, refl, ap, ◌∙◌, inl, inr, Bool, true, false, ◌&&◌, Option, none,
  some, List, [], ◌∷◌, arith, ltb, if◌then◌else◌, Bool-cases, length, get_or, length-set,
  length-map, pos_part, neg_part, minus_one, is_positive, minus_one-balance, All,
}
use mem_sim.Dram.Spec.{DramSpec}
use mem_sim.Controller.Refresh.Batch.{RankRefreshState, seed_refresh_batch, advance}
use mem_sim.Controller.Refresh.Tick.{
  can_postpone, keeps_waiting, can_pull_in, or_else, Due, Outcome, states_of, no_due,
  aggregate_credit, start_batch, postpone, serve_due, serve_early, serve, unserved, initial_rank,
  settle_due, settle_pull_in,
}
use mem_sim.Controller.Refresh.Ledger.{sum_next, IsAhead, sum_next-set, All-IsAhead-set, credit-set}
use native.Mathlib.Nat.{mod-lt}

abbrev pub batches : Bool → ℕ
batches started = if started then 1 else 0

-- A batch takes one from the credit, nothing else changes it, and the deadlines stay.
pub record IsServed (clk : ℕ) (states : List RankRefreshState) (o : Outcome) : Type 0 where
  pub size : length o.states ≡ length states
  pub ahead : All (IsAhead clk) o.states
  pub cycles : sum_next o.states ≡ sum_next states
  pub balance :
      pos_part (aggregate_credit o.states)
        + batches o.result.started_batch
        + neg_part (aggregate_credit states)
      ≡ neg_part (aggregate_credit o.states) + pos_part (aggregate_credit states)
  pub reported : o.result.credit ≡ aggregate_credit o.states

seed_refresh_batch_keeps :
    (spec : DramSpec) (rank : ℕ) (s : RankRefreshState)
    → let t = (seed_refresh_batch spec rank s).1 in
      (t.credit ≡ s.credit) × (t.next_refresh_cycle ≡ s.next_refresh_cycle)
unfolding seed_refresh_batch advance
seed_refresh_batch_keeps spec rank s = (ground arith, ground arith)

state_at :
    (dues : List Due) (rank : ℕ)
    → (get_or dues rank no_due).state ≡ get_or (states_of dues) rank initial_rank
state_at [] rank = refl
state_at (d ∷ dues) zero = refl
state_at (d ∷ dues) (suc rank) = state_at dues rank

module _ (spec : DramSpec) (clk : ℕ) (dues : List Due)
    (a : All (IsAhead clk) (states_of dues)) where
  start_batch-IsServed :
      (rank : ℕ) (settle : RankRefreshState → RankRefreshState) (pulled_in : Bool)
      → ((s : RankRefreshState)
          → ((settle s).credit ≡ s.credit) × ((settle s).next_refresh_cycle ≡ s.next_refresh_cycle))
      → rank < length dues
      → IsServed clk (states_of dues) (start_batch spec dues rank settle pulled_in)
  unfolding start_batch
  start_batch-IsServed rank settle pulled_in keeps h =
      let d = (get_or dues rank no_due).state in
      let s = (seed_refresh_batch spec rank d).1 in
      let (same_credit, same_cycle) = seed_refresh_batch_keeps spec rank d in
      let (settled, on_time) = keeps (record s { credit = minus_one s.credit }) in
      let cycle =
        on_time
        ∙ same_cycle
        ∙ ap (λ (x : RankRefreshState). x.next_refresh_cycle) (state_at dues rank) in
      let lt : rank < length (states_of dues) = rw (length-map (λ (x : Due). x.state) dues) h in
      let old : s.credit ≡ (get_or (states_of dues) rank initial_rank).credit =
        same_credit ∙ ap (λ (x : RankRefreshState). x.credit) (state_at dues rank) in
      record {
        size = length-set (states_of dues) rank _;
        ahead = All-IsAhead-set clk (states_of dues) rank _ cycle a;
        cycles = sum_next-set (states_of dues) rank _ cycle;
        balance = omega (
          arith,
          credit-set (states_of dues) rank (settle (record s { credit = minus_one s.credit })) lt,
          minus_one-balance s.credit,
          ap pos_part settled,
          ap neg_part settled,
          ap pos_part old,
          ap neg_part old,
        );
        reported = refl;
      }

  postpone-IsServed :
      (rank : ℕ) → rank < length dues → IsServed clk (states_of dues) (postpone dues rank)
  unfolding postpone
  postpone-IsServed rank h =
      let d = (get_or dues rank no_due).state in
      let cycle = ap (λ (x : RankRefreshState). x.next_refresh_cycle) (state_at dues rank) in
      let old = ap (λ (x : RankRefreshState). x.credit) (state_at dues rank) in
      let lt : rank < length (states_of dues) = rw (length-map (λ (x : Due). x.state) dues) h in
      record {
        size = length-set (states_of dues) rank _;
        ahead = All-IsAhead-set clk (states_of dues) rank _ cycle a;
        cycles = sum_next-set (states_of dues) rank _ cycle;
        balance = omega (
          arith,
          credit-set (states_of dues) rank (record d { postpone_count = d.postpone_count + 1 }) lt,
          ap pos_part old,
          ap neg_part old,
        );
        reported = refl;
      }

  unserved-IsServed : (cursor : ℕ) → IsServed clk (states_of dues) (unserved dues cursor)
  unserved-IsServed cursor = record {
    size = refl;
    ahead = a;
    cycles = refl;
    balance = omega arith;
    reported = refl;
  }

  abbrev AllServed : Option Outcome → Type 0
  AllServed none = Unit
  AllServed (some o) = IsServed clk (states_of dues) o

  settle_due_keeps :
      (s : RankRefreshState)
      → ((settle_due s).credit ≡ s.credit)
        × ((settle_due s).next_refresh_cycle ≡ s.next_refresh_cycle)
  settle_due_keeps s = (ground arith, ground arith)

  serve_due-IsServed :
      (prefer : Bool) (cursor rounds offset : ℕ)
      → 0 < length dues
      → AllServed (serve_due spec prefer dues cursor rounds offset)
  unfolding serve_due
  serve_due-IsServed prefer cursor zero offset h = tt
  serve_due-IsServed prefer cursor (suc rounds) offset h =
      let rank = (cursor + offset) % length dues in
      let d = get_or dues rank no_due in
      let rest = serve_due-IsServed prefer cursor rounds (offset + 1) h in
      let lt = mod-lt (cursor + offset) h in
      elim (Bool-cases (is_positive d.state.credit)) [
        | inr n ↦ rw n rest
        | inl y ↦ elim (Bool-cases (can_postpone spec prefer d)) [
          | inl p ↦ rw (y, p) (postpone-IsServed rank lt)
          | inr np ↦ elim (Bool-cases (keeps_waiting spec prefer d)) [
            | inl w ↦ rw (y, np, w) rest
            | inr nw ↦
                rw (y, np, nw) (start_batch-IsServed rank settle_due false settle_due_keeps lt)
          ]
        ]
      ]

  serve_early-IsServed :
      (cursor rounds offset : ℕ)
      → 0 < length dues
      → AllServed (serve_early spec clk dues cursor rounds offset)
  unfolding serve_early
  serve_early-IsServed cursor zero offset h = tt
  serve_early-IsServed cursor (suc rounds) offset h =
      let rank = (cursor + offset) % length dues in
      let d = get_or dues rank no_due in
      elim (Bool-cases (can_pull_in spec clk d.state)) [
        | inl y ↦ rw y (
            start_batch-IsServed rank settle_pull_in true (λ s. (refl, refl))
              (mod-lt (cursor + offset) h))
        | inr n ↦ rw n (serve_early-IsServed cursor rounds (offset + 1) h)
      ]

  or_else-IsServed :
      (o : Option Outcome) (other : Outcome)
      → AllServed o
      → IsServed clk (states_of dues) other
      → IsServed clk (states_of dues) (or_else o other)
  or_else-IsServed none other h k = k
  or_else-IsServed (some o) other h k = h

  pub serve-IsServed :
      (prefer allow : Bool) (cursor : ℕ)
      → 0 < length dues
      → IsServed clk (states_of dues) (serve spec clk prefer allow dues cursor)
  unfolding serve
  serve-IsServed prefer allow cursor h =
      let last = unserved-IsServed cursor in
      let first = serve_due-IsServed prefer cursor (length dues) 0 h in
      or_else-IsServed (serve_due spec prefer dues cursor (length dues) 0) _ first
        (elim (Bool-cases (allow && ltb 0 spec.refresh_pullin_limit)) [
          | inl y ↦ rw y (
              or_else-IsServed (serve_early spec clk dues cursor (length dues) 0) _
                (serve_early-IsServed cursor (length dues) 0 h) last)
          | inr n ↦ rw n last
        ])
