-- ===== src/Controller/RowPolicy/History.antt =====
-- The engine against the history of the commands that were issued.
use mem_sim.Base.{
  ℕ, suc, ◌+◌, ◌<◌, ◌≡◌, refl, ◌∙◌, Bool, true, false, ◌&&◌, ◌||◌, List, [], ◌∷◌, arith, leb, ◌==◌,
  if◌then◌else◌, length, get_or, replicate, length-replicate, length-set, length-modify, get_or-set,
  get_or-modify, get_or-replicate, ok, length-map, get_or-map,
}
use mem_sim.Dram.Kinds.{Command, RowPolicyKind, closed_cap}
use mem_sim.Dram.Semantics.{command_meta}
use mem_sim.Controller.RowPolicy.{
  RowPolicyEngine, reset, should_schedule_precharge, should_auto_precharge, mark_precharge_pending,
  on_issue,
}

-- A command and the flat bank that it went to.
abbrev pub Issue : Type 0
Issue = ℕ × Command

-- The engine after a history of issues, the newest first.
unfoldable pub run : RowPolicyEngine → List Issue → RowPolicyEngine
run e [] = e
run e (i ∷ older) = on_issue (run e older) closed_cap i.0 i.1

-- The issue resets the count and the flag of the bank: a closing command to it, or a closing command
-- on all banks, whatever bank and rank that goes to.
abbrev pub resets : ℕ → Issue → Bool
resets b i = (command_meta i.1).closing && ((command_meta i.1).all_bank || (i.0 == b))

abbrev pub accesses : ℕ → Issue → Bool
accesses b i = (command_meta i.1).accessing && (i.0 == b)

-- The column accesses to the bank since its count was last reset, in a history.
pub accesses_since_reset : ℕ → List Issue → ℕ
accesses_since_reset b [] = 0
accesses_since_reset b (i ∷ older) =
    let before = accesses_since_reset b older in
    if resets b i then 0 else if accesses b i then suc before else before

pub record IsSized (n : ℕ) (e : RowPolicyEngine) : Type 0 where
  pub counts : length e.column_accesses ≡ n
  pub flags : length e.precharge_pending ≡ n

on_issue-IsSized :
    (n : ℕ) (e : RowPolicyEngine) (i : Issue)
    → IsSized n e
    → IsSized n (on_issue e closed_cap i.0 i.1)
unfolding on_issue
on_issue-IsSized n e i s = ground (
  arith,
  length-map {B = ℕ} (λ (_ : ℕ). 0) e.column_accesses,
  length-map (λ (_ : Bool). false) e.precharge_pending,
  length-set e.column_accesses i.0 0,
  length-set e.precharge_pending i.0 false,
  length-modify e.column_accesses i.0 (λ n. n + 1),
)

on_issue-count :
    (n : ℕ) (e : RowPolicyEngine) (i : Issue) (b : ℕ)
    → IsSized n e
    → b < n
    → get_or (on_issue e closed_cap i.0 i.1).column_accesses b 0 ≡ (
        if resets b i
        then 0
        else if accesses b i
        then suc (get_or e.column_accesses b 0)
        else get_or e.column_accesses b 0)
unfolding on_issue
on_issue-count n e i b s h = ground (
  arith,
  get_or-map {B = ℕ} (λ (_ : ℕ). 0) e.column_accesses b 0 0,
  get_or-set e.column_accesses i.0 b 0 0,
  get_or-modify e.column_accesses i.0 b (λ n. n + 1) 0,
)

on_issue-pending :
    (n : ℕ) (e : RowPolicyEngine) (i : Issue) (b : ℕ)
    → IsSized n e
    → b < n
    → get_or (on_issue e closed_cap i.0 i.1).precharge_pending b false
      ≡ (if resets b i then false else get_or e.precharge_pending b false)
unfolding on_issue
on_issue-pending n e i b s h = ground (
  arith,
  get_or-map (λ (_ : Bool). false) e.precharge_pending b false false,
  get_or-set e.precharge_pending i.0 b false false,
)

on_issue-cap : (e : RowPolicyEngine) (i : Issue) → (on_issue e closed_cap i.0 i.1).cap ≡ e.cap
unfolding on_issue
on_issue-cap e i = ground arith

module _ (n : ℕ) (e : RowPolicyEngine) (sized : IsSized n e) where
  run-IsSized : (h : List Issue) → IsSized n (run e h)
  unfolding run
  run-IsSized [] = sized
  run-IsSized (i ∷ older) = on_issue-IsSized n (run e older) i (run-IsSized older)

  run-cap : (h : List Issue) → (run e h).cap ≡ e.cap
  unfolding run
  run-cap [] = refl
  run-cap (i ∷ older) = on_issue-cap (run e older) i ∙ run-cap older

module _ (n cap : ℕ) (e : RowPolicyEngine) (fresh : reset n cap ≡ ok e) where
  reset-eq :
      e
      ≡ record { cap = cap; column_accesses = replicate n 0; precharge_pending = replicate n false }
  unfolding reset
  reset-eq = ground arith

  reset-IsSized : IsSized n e
  reset-IsSized =
      rw reset-eq (record { counts = length-replicate n 0; flags = length-replicate n false })

  run-count :
      (h : List Issue) (b : ℕ)
      → b < n
      → get_or (run e h).column_accesses b 0 ≡ accesses_since_reset b h
  unfolding run accesses_since_reset
  run-count [] b lt = rw reset-eq (get_or-replicate n b 0 0 lt)
  run-count (i ∷ older) b lt = ground (
    arith,
    on_issue-count n (run e older) i b (run-IsSized n e reset-IsSized older) lt,
    run-count older b lt,
  )

  -- From a reset engine, after any history of issues under ClosedCAP, should_auto_precharge holds
  -- of a bank in range exactly when the bank has had at least `cap` column accesses since its
  -- count was last reset, by a closing command to it or by a closing command on all banks to any
  -- bank of the channel.
  pub auto_precharge_exact :
      (h : List Issue) (b : ℕ)
      → b < n
      → should_auto_precharge (run e h) closed_cap b ≡ leb cap (accesses_since_reset b h)
  unfolding should_auto_precharge
  auto_precharge_exact h b lt = ground (
    arith,
    run-count h b lt,
    run-cap n e reset-IsSized h,
    run-IsSized n e reset-IsSized h,
    reset-eq,
  )

-- No issue of the history resets the bank.
abbrev pub NoReset : ℕ → List Issue → Type 0
NoReset b [] = Unit
NoReset b (i ∷ older) = (resets b i ≡ false) × NoReset b older

mark-IsSized :
    (n : ℕ) (e : RowPolicyEngine) (b : ℕ) → IsSized n e → IsSized n (mark_precharge_pending e b)
unfolding mark_precharge_pending
mark-IsSized n e b s = ground (arith, length-set e.precharge_pending b true)

mark-pending :
    (n : ℕ) (e : RowPolicyEngine) (b : ℕ)
    → IsSized n e
    → b < n
    → get_or (mark_precharge_pending e b).precharge_pending b false ≡ true
unfolding mark_precharge_pending
mark-pending n e b s lt = ground (arith, get_or-set e.precharge_pending b b true false)

run-pending :
    (n : ℕ) (e : RowPolicyEngine) (h : List Issue) (b : ℕ)
    → IsSized n e
    → b < n
    → NoReset b h
    → get_or e.precharge_pending b false ≡ true
    → get_or (run e h).precharge_pending b false ≡ true
unfolding run
run-pending n e [] b s lt o p = p
run-pending n e (i ∷ older) b s lt o p = ground (
  arith,
  on_issue-pending n (run e older) i b (run-IsSized n e s older) lt,
  run-pending n e older b s lt o.1 p,
)

-- Once a precharge of a bank is marked as queued, no second one is scheduled under any policy,
-- whatever is issued under ClosedCAP, as long as no closing command goes to the bank and no
-- closing command on all banks to any bank of the channel, also of another rank.
pub precharge_queued_once :
    (n : ℕ) (e : RowPolicyEngine) (h : List Issue) (b active : ℕ) (policy : RowPolicyKind)
    → IsSized n e
    → b < n
    → NoReset b h
    → should_schedule_precharge (run (mark_precharge_pending e b) h) policy b active ≡ false
unfolding should_schedule_precharge
precharge_queued_once n e h b active policy s lt o = ground (
  arith,
  run-pending n (mark_precharge_pending e b) h b (mark-IsSized n e b s) lt o
      (mark-pending n e b s lt),
)
