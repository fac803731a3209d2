-- ===== src/Controller/RowPolicy.antt =====
-- RowPolicyEngine of src/controller/row_policy.cpp: per-bank counts of column accesses for the
-- ClosedCAP policy.
pub mod History
use mem_sim.Base.{
  ℕ, ◌+◌, Bool, true, false, not, ◌&&◌, ◌||◌, List, map, ltb, leb, ◌==◌, if◌then◌else◌, length,
  get_or, set, modify, replicate, invalid_argument, Result, ok, ◌>>=◌, ◌>>◌, throw_if,
}
use mem_sim.Dram.Kinds.{Command, RowPolicyKind, closed_cap}
use mem_sim.Dram.Semantics.{command_meta}

pub record RowPolicyEngine : Type 0 where
  pub cap : ℕ
  pub column_accesses : List ℕ
  pub precharge_pending : List Bool

unfoldable pub reset : ℕ → ℕ → Result RowPolicyEngine
reset bank_count cap = do
  throw_if (bank_count == 0) invalid_argument
  throw_if (cap == 0) invalid_argument
  ok (record {
    cap = cap;
    column_accesses = replicate bank_count 0;
    precharge_pending = replicate bank_count false;
  })

abbrev pub is_closed_cap : RowPolicyKind → Bool
is_closed_cap closed_cap = true
is_closed_cap _ = false

abbrev pub valid_bank : RowPolicyEngine → ℕ → Bool
valid_bank e flat_bank = ltb flat_bank (length e.column_accesses)

unfoldable pub should_schedule_precharge : RowPolicyEngine → RowPolicyKind → ℕ → ℕ → Bool
should_schedule_precharge e policy flat_bank active_requests =
    if not (is_closed_cap policy) || not (valid_bank e flat_bank)
    then false
    else if ltb 0 active_requests || get_or e.precharge_pending flat_bank false
    then false
    else leb e.cap (get_or e.column_accesses flat_bank 0)

unfoldable pub should_auto_precharge : RowPolicyEngine → RowPolicyKind → ℕ → Bool
should_auto_precharge e policy flat_bank =
    if not (is_closed_cap policy) || not (valid_bank e flat_bank)
    then false
    else leb e.cap (get_or e.column_accesses flat_bank 0)

unfoldable pub mark_precharge_pending : RowPolicyEngine → ℕ → RowPolicyEngine
mark_precharge_pending e flat_bank =
    if valid_bank e flat_bank
    then record e { precharge_pending = set e.precharge_pending flat_bank true }
    else e

unfoldable pub on_issue : RowPolicyEngine → RowPolicyKind → ℕ → Command → RowPolicyEngine
on_issue e policy flat_bank issued =
    let meta = command_meta issued in
    if not (is_closed_cap policy)
    then e
    else if meta.all_bank && meta.closing
    then record e {
      column_accesses = map (λ _. 0) e.column_accesses;
      precharge_pending = map (λ _. false) e.precharge_pending;
    }
    else if not (valid_bank e flat_bank)
    then e
    else if meta.closing
    then record e {
      column_accesses = set e.column_accesses flat_bank 0;
      precharge_pending = set e.precharge_pending flat_bank false;
    }
    else if meta.accessing
    then record e { column_accesses = modify e.column_accesses flat_bank (λ n. n + 1) }
    else e
