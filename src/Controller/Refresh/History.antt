-- ===== src/Controller/Refresh/History.antt =====
-- RefreshManager::tick over a history of ticks.
use mem_sim.Base.{
  ℕ, zero, suc, ◌+◌, ◌*◌, ◌<◌, max, ◌≡◌, refl, ap, ap₂, ◌∙◌, Bool, true, false, List, [], ◌∷◌, map,
  arith, length, replicate, length-replicate, Result, ok, ◌>>=◌, >>-ok, length-map, ok-injective,
  pos, pos_part, neg_part, ◌+ℤ◌, sum_ℤ, All,
}
use mem_sim.Dram.Spec.{DramSpec}
use mem_sim.Dram.Spec.Validate.{DoubleTests, validate_spec}
use mem_sim.Controller.Timing.Scope.{timing_delay}
use mem_sim.Controller.Refresh.Batch.{RankRefreshState, refresh_interval}
use mem_sim.Controller.Refresh.Tick.{
  RefreshManager, aggregate_credit, serve, tick_sized, tick, reset, initial_rank, catch_up,
}
use mem_sim.Controller.Refresh.Ledger.{sum_next, IsAhead, catch_up-AllPass}
use mem_sim.Controller.Refresh.Served.{batches, serve-IsServed}

pub record TickInput : Type 0 where
  pub clk : ℕ
  pub prefer_postpone : Bool
  pub allow_pull_in : Bool

-- The manager after ticks while awake, and the batches that they started.
pub record Run : Type 0 where
  pub manager : RefreshManager
  pub started : ℕ

unfoldable pub tick_once : DoubleTests → DramSpec → TickInput → Run → Result Run
tick_once tests spec i r = do
  (m, result) ← tick tests spec i.clk i.prefer_postpone i.allow_pull_in r.manager
  ok (record { manager = m; started = r.started + batches result.started_batch })

-- The newest tick first.
unfoldable pub run : DoubleTests → DramSpec → RefreshManager → List TickInput → Result Run
run tests spec m [] = ok (record { manager = m; started = 0 })
run tests spec m (i ∷ older) = run tests spec m older >>= tick_once tests spec i

abbrev pub interval_ticks : DramSpec → ℕ
interval_ticks spec = timing_delay spec (refresh_interval spec)

-- `k` deadlines have passed in all, the first of each rank at `first`; each is either paid by a
-- batch or in the credit.
pub record IsBalanced (spec : DramSpec) (first : ℕ) (r : Run) : Type 0 where
  pub size : length r.manager.rank_states ≡ max 1 spec.org.ranks
  pub awake : r.manager.self_refresh_active ≡ false
  pub passed : ℕ
  pub cycles :
      sum_next r.manager.rank_states ≡ max 1 spec.org.ranks * first + passed * interval_ticks spec
  pub balance :
      pos_part (aggregate_credit r.manager.rank_states) + r.started
      ≡ neg_part (aggregate_credit r.manager.rank_states) + passed

sum_next-replicate :
    (n : ℕ) (s : RankRefreshState) → sum_next (replicate n s) ≡ n * s.next_refresh_cycle
sum_next-replicate zero s = omega arith
sum_next-replicate (suc n) s = omega (arith, sum_next-replicate n s)

aggregate_credit-replicate :
    (n : ℕ) (s : RankRefreshState) → s.credit ≡ pos 0 → aggregate_credit (replicate n s) ≡ pos 0
unfolding aggregate_credit sum_ℤ ◌+ℤ◌
aggregate_credit-replicate zero s h = refl
aggregate_credit-replicate (suc n) s h = ap₂ (λ x y. x +ℤ y) h (aggregate_credit-replicate n s h)

pos-mul : (a b : ℕ) → 0 < a → 0 < a * max 1 b
pos-mul a b h = grind arith

interval_ticks-pos : (spec : DramSpec) → 0 < refresh_interval spec → 0 < interval_ticks spec
unfolding timing_delay
interval_ticks-pos spec h = ground (arith, pos-mul (refresh_interval spec) spec.tick_multiplier h)

module _ (tests : DoubleTests) (spec : DramSpec) (on : spec.supports_refresh ≡ true)
    (interval : 0 < refresh_interval spec) where
  tick-eq :
      (i : TickInput) (m : RefreshManager)
      → length m.rank_states ≡ max 1 spec.org.ranks
      → tick tests spec i.clk i.prefer_postpone i.allow_pull_in m
        ≡ ok (tick_sized spec i.clk i.prefer_postpone i.allow_pull_in m)
  unfolding tick
  tick-eq i m s = ground (arith, on, interval, s)

  tick_once-IsBalanced :
      (i : TickInput) (first : ℕ) (r : Run)
      → IsBalanced spec first r
      → (q : Run) × (tick_once tests spec i r ≡ ok q)
        × IsBalanced spec first q
        × All (IsAhead i.clk) q.manager.rank_states
  unfolding tick_once tick_sized
  tick_once-IsBalanced i first r b =
      let m = r.manager in
      let dues = map (catch_up i.clk (interval_ticks spec) false) m.rank_states in
      let (size, ahead, k, p) =
        catch_up-AllPass i.clk (interval_ticks spec) m.rank_states
          (interval_ticks-pos spec interval) in
      let some_rank : 0 < length dues =
        rw (length-map (catch_up i.clk (interval_ticks spec) false) m.rank_states, b.size)
          (omega arith) in
      let o = serve spec i.clk i.prefer_postpone i.allow_pull_in dues m.rank_cursor in
      let v =
        serve-IsServed spec i.clk dues ahead i.prefer_postpone i.allow_pull_in m.rank_cursor
          some_rank in
      (
        record {
          manager = record m { rank_states = o.states; rank_cursor = o.cursor };
          started = r.started + batches o.result.started_batch;
        },
        rw (tick-eq i m b.size, b.awake) refl,
        record {
          size = v.size ∙ size ∙ b.size;
          awake = b.awake;
          passed = b.passed + k;
          cycles = omega (arith, v.cycles, p.cycles, b.cycles);
          balance = omega (arith, v.balance, p.balance, b.balance);
        },
        v.ahead,
      )

  run-IsBalanced :
      (first : ℕ) (m : RefreshManager) (h : List TickInput)
      → IsBalanced spec first (record { manager = m; started = 0 })
      → (r : Run) × (run tests spec m h ≡ ok r) × IsBalanced spec first r
  unfolding run
  run-IsBalanced first m [] b = (record { manager = m; started = 0 }, refl, b)
  run-IsBalanced first m (i ∷ older) b =
      let (r, e, c) = run-IsBalanced first m older b in
      let (q, f, d, ahead) = tick_once-IsBalanced i first r c in (q, rw e f, d)

  reset-IsBalanced :
      (clk : ℕ) (m : RefreshManager)
      → reset tests spec clk ≡ ok m
      → IsBalanced spec (clk + interval_ticks spec) (record { manager = m; started = 0 })
  unfolding reset
  reset-IsBalanced clk m h =
      let first = record initial_rank { next_refresh_cycle = clk + interval_ticks spec } in
      let made = (>>-ok (validate_spec tests spec) _ h).1 in
      rw (← ok-injective made) (record {
        size = length-replicate (max 1 spec.org.ranks) _;
        awake = refl;
        passed = 0;
        cycles = omega (arith, sum_next-replicate (max 1 spec.org.ranks) first);
        balance =
            let none_left = aggregate_credit-replicate (max 1 spec.org.ranks) first refl in
            omega (arith, ap pos_part none_left, ap neg_part none_left);
      })

  -- With refresh on and an interval above zero, every history of ticks of a reset manager
  -- succeeds, after it every rank's next deadline lies behind the clock of the newest tick, and
  -- the deadlines that have passed, one interval apart from the first of each rank on, are the
  -- batches started and the credit that is left together.
  pub credit_ledger :
      (clk : ℕ) (m : RefreshManager) (i : TickInput) (h : List TickInput)
      → reset tests spec clk ≡ ok m
      → (r : Run) × (run tests spec m (i ∷ h) ≡ ok r)
        × IsBalanced spec (clk + interval_ticks spec) r
        × All (IsAhead i.clk) r.manager.rank_states
  unfolding run
  credit_ledger clk m i h fresh =
      let (r, e, c) =
        run-IsBalanced (clk + interval_ticks spec) m h (reset-IsBalanced clk m fresh) in
      let (q, f, d, ahead) = tick_once-IsBalanced i (clk + interval_ticks spec) r c in
      (q, rw e f, d, ahead)
