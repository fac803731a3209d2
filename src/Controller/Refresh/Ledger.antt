-- ===== src/Controller/Refresh/Ledger.antt =====
-- The credit of RefreshManager against the deadlines that have passed and the batches started.
use mem_sim.Base.{
  ℕ, zero, suc, ◌+◌, ◌*◌, ◌<◌, ◌≡◌, refl, ap, inl, inr, true, false, List, [], ◌∷◌, map, arith, leb,
  Bool-cases, length, get_or, set, pos_part, neg_part, plus_one, is_natural, sum_ℤ, +ℤ-balance,
  plus_one-balance, All,
}
use mem_sim.Controller.Refresh.Batch.{RankRefreshState}
use mem_sim.Controller.Refresh.Tick.{
  Due, pass_deadlines, catch_up, states_of, aggregate_credit, initial_rank,
}

-- `k` deadlines lie between the two states of a rank, each of which adds one to the credit.
pub record Passes (interval k : ℕ) (s t : RankRefreshState) : Type 0 where
  pub cycle : t.next_refresh_cycle ≡ s.next_refresh_cycle + k * interval
  pub balance : pos_part t.credit + neg_part s.credit ≡ neg_part t.credit + pos_part s.credit + k

-- The loop ends with the clock before the next deadline, given fuel for each cycle up to it.
pass_deadlines-Passes :
    (fuel clk interval : ℕ) (due : Due)
    → 0 < interval
    → clk < due.state.next_refresh_cycle + fuel
    → let t = (pass_deadlines fuel clk interval false due).state in
      (clk < t.next_refresh_cycle) × (k : ℕ) × Passes interval k due.state t
unfolding pass_deadlines
pass_deadlines-Passes zero clk interval due p h =
    (omega arith, 0, record { cycle = omega arith; balance = omega arith })
pass_deadlines-Passes (suc fuel) clk interval due p h =
    let s = due.state in
    let next : Due = record {
      state = record s {
        credit = plus_one s.credit;
        next_refresh_cycle = s.next_refresh_cycle + interval;
      };
      newly_due = true;
    } in
    elim (Bool-cases (leb s.next_refresh_cycle clk)) [
      | inl y ↦
          let (done, k, q) = pass_deadlines-Passes fuel clk interval next p (omega arith) in
          rw y (
            done,
            suc k,
            record {
              cycle = omega (arith, q.cycle);
              balance = omega (arith, q.balance, plus_one-balance s.credit);
            },
          )
      | inr n ↦ rw n (ground (arith, n), 0, record { cycle = omega arith; balance = omega arith })
    ]

-- With an interval above zero and outside self-refresh, the loop over the deadlines of a rank ends
-- with the next deadline behind the clock, after some number of rounds that each move the deadline
-- by one interval and add one to the credit.
pub catch_up-Passes :
    (clk interval : ℕ) (s : RankRefreshState)
    → 0 < interval
    → let t = (catch_up clk interval false s).state in
      (clk < t.next_refresh_cycle) × (k : ℕ) × Passes interval k s t
unfolding catch_up
catch_up-Passes clk interval s p =
    let start : Due = record { state = s; newly_due = false } in
    let t = (pass_deadlines (clk + 1) clk interval false start).state in
    let (done, k, q) = pass_deadlines-Passes (clk + 1) clk interval start p (omega arith) in
    elim (Bool-cases (is_natural t.credit)) [
      | inl y ↦ rw y (done, k, record { cycle = q.cycle; balance = q.balance })
      | inr n ↦ rw n (done, k, q)
    ]

abbrev pub sum_next : List RankRefreshState → ℕ
sum_next [] = 0
sum_next (s ∷ ss) = s.next_refresh_cycle + sum_next ss

abbrev pub IsAhead : ℕ → RankRefreshState → Type 0
IsAhead clk s = clk < s.next_refresh_cycle

-- The same of all ranks together.
pub record AllPass (interval k : ℕ) (ss ts : List RankRefreshState) : Type 0 where
  pub cycles : sum_next ts ≡ sum_next ss + k * interval
  pub balance :
      pos_part (aggregate_credit ts) + neg_part (aggregate_credit ss)
      ≡ neg_part (aggregate_credit ts) + pos_part (aggregate_credit ss) + k

pub catch_up-AllPass :
    (clk interval : ℕ) (ss : List RankRefreshState)
    → 0 < interval
    → let ts = states_of (map (catch_up clk interval false) ss) in
      (length ts ≡ length ss) × All (IsAhead clk) ts × (k : ℕ) × AllPass interval k ss ts
unfolding aggregate_credit sum_ℤ
catch_up-AllPass clk interval [] p =
    (refl, tt, 0, record { cycles = omega arith; balance = omega arith })
catch_up-AllPass clk interval (s ∷ ss) p =
    let (done, k, q) = catch_up-Passes clk interval s p in
    let (size, all, ks, r) = catch_up-AllPass clk interval ss p in
    let t = (catch_up clk interval false s).state in
    let ts = states_of (map (catch_up clk interval false) ss) in
    (
      ap suc size,
      (done, all),
      k + ks,
      record {
        cycles = omega (arith, q.cycle, r.cycles);
        balance = omega (
          arith,
          q.balance,
          r.balance,
          +ℤ-balance s.credit (aggregate_credit ss),
          +ℤ-balance t.credit (aggregate_credit ts),
        );
      },
    )

-- A write to one rank that keeps its deadline.
pub sum_next-set :
    (ss : List RankRefreshState) (i : ℕ) (t : RankRefreshState)
    → t.next_refresh_cycle ≡ (get_or ss i initial_rank).next_refresh_cycle
    → sum_next (set ss i t) ≡ sum_next ss
sum_next-set [] i t h = refl
sum_next-set (s ∷ ss) zero t h = omega (arith, h)
sum_next-set (s ∷ ss) (suc i) t h = omega (arith, sum_next-set ss i t h)

pub All-IsAhead-set :
    (clk : ℕ) (ss : List RankRefreshState) (i : ℕ) (t : RankRefreshState)
    → t.next_refresh_cycle ≡ (get_or ss i initial_rank).next_refresh_cycle
    → All (IsAhead clk) ss
    → All (IsAhead clk) (set ss i t)
All-IsAhead-set clk [] i t h a = tt
All-IsAhead-set clk (s ∷ ss) zero t h a = (omega (arith, h, a.0), a.1)
All-IsAhead-set clk (s ∷ ss) (suc i) t h a = (a.0, All-IsAhead-set clk ss i t h a.1)

pub credit-set :
    (ss : List RankRefreshState) (i : ℕ) (t : RankRefreshState)
    → i < length ss
    → pos_part (aggregate_credit (set ss i t))
        + pos_part (get_or ss i initial_rank).credit
        + neg_part (aggregate_credit ss)
        + neg_part t.credit
      ≡ neg_part (aggregate_credit (set ss i t))
        + neg_part (get_or ss i initial_rank).credit
        + pos_part (aggregate_credit ss)
        + pos_part t.credit
unfolding aggregate_credit sum_ℤ
credit-set [] i t h = absurd (omega arith)
credit-set (s ∷ ss) zero t h =
    omega
      (arith, +ℤ-balance s.credit (aggregate_credit ss), +ℤ-balance t.credit (aggregate_credit ss))
credit-set (s ∷ ss) (suc i) t h = omega (
  arith,
  credit-set ss i t (omega arith),
  +ℤ-balance s.credit (aggregate_credit ss),
  +ℤ-balance s.credit (aggregate_credit (set ss i t)),
)
