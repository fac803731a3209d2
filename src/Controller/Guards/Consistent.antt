-- ===== src/Controller/Guards/Consistent.antt =====
-- The banks that legal commands lead to: where ACT1 waits for its ACT2, no row is open.
use mem_sim.Base.{
  ℕ, zero, suc, ◌≡◌, refl, sym, ◌∙◌, true, false, none, List, [], ◌∷◌, arith, get_or, modify,
  replicate, modify_range, get_or-replicate_self,
}
use mem_sim.Dram.Kinds.{Command}
use mem_sim.Dram.Spec.{DramSpec}
use mem_sim.Dram.Address.{flat_bank}
use mem_sim.Dram.State.{check_command_state}
use mem_sim.Controller.Executor.{
  BankState, Request, on_bank, on_row, on_col, on_bg, on_wck, on_stats, on_rank,
}
use mem_sim.Controller.Executor.Parts.{
  close_rank_banks, gate_rank_banks_after, hold_row, record_act, activate_scopes, issue_data,
  read_bank, write_bank, auto_precharge_bank, start_wck, act_bank, act1_bank, act2_bank,
  precharge_bank, gate_bank, notify_rfm,
}
use mem_sim.Controller.Executor.Issue.{issue, transition}
use mem_sim.Controller.Executor.Moves.{initial_bank, protocol_state, issue_data-banks}
use mem_sim.Controller.Guards.{Controller, bank_of}
use mem_sim.Controller.Guards.Snapshot.{snapshot, state_ok}

pub record IsConsistent (spec : DramSpec) (b : BankState) : Type 0 where
  pub no_row : b.activating ≡ true → b.open_row ≡ none
  pub split : b.activating ≡ true → spec.split_activate ≡ true

abbrev pub AllConsistent : DramSpec → List BankState → Type 0
AllConsistent spec banks = (i : ℕ) → IsConsistent spec (get_or banks i initial_bank)

initial-IsConsistent : (spec : DramSpec) → IsConsistent spec initial_bank
initial-IsConsistent spec = record { no_row = λ e. refl; split = λ e. cc }

still : {spec : DramSpec} (b : BankState) → b.activating ≡ false → IsConsistent spec b
still b h = record { no_row = λ e. cc; split = λ e. cc }

modify-AllConsistent :
    (spec : DramSpec) (banks : List BankState) (k : ℕ) (f : BankState → BankState)
    → AllConsistent spec banks
    → IsConsistent spec (f (get_or banks k initial_bank))
    → AllConsistent spec (modify banks k f)
modify-AllConsistent spec [] k f a h i = a i
modify-AllConsistent spec (b ∷ bs) zero f a h zero = h
modify-AllConsistent spec (b ∷ bs) zero f a h (suc i) = a (suc i)
modify-AllConsistent spec (b ∷ bs) (suc k) f a h zero = a zero
modify-AllConsistent spec (b ∷ bs) (suc k) f a h (suc i) =
    modify-AllConsistent spec bs k f (λ j. a (suc j)) h i

modify_range-AllConsistent :
    (spec : DramSpec) (banks : List BankState) (begin count : ℕ) (f : BankState → BankState)
    → AllConsistent spec banks
    → ((b : BankState) → IsConsistent spec b → IsConsistent spec (f b))
    → AllConsistent spec (modify_range banks begin count f)
unfolding modify_range
modify_range-AllConsistent spec banks begin zero f a h = a
modify_range-AllConsistent spec banks begin (suc count) f a h =
    modify_range-AllConsistent spec (modify banks begin f) (suc begin) count f
      (modify-AllConsistent spec banks begin f a (h _ (a begin))) h

-- What the parts of issue do to a consistent bank.
kept-IsConsistent :
    {spec : DramSpec} (b b2 : BankState)
    → b2.activating ≡ b.activating
    → b2.open_row ≡ b.open_row
    → IsConsistent spec b
    → IsConsistent spec b2
kept-IsConsistent b b2 e f h = record {
  no_row = λ k. f ∙ h.no_row (sym e ∙ k);
  split = λ k. h.split (sym e ∙ k);
}

closed-IsConsistent :
    {spec : DramSpec} (b b2 : BankState)
    → b2.activating ≡ b.activating
    → b2.open_row ≡ none
    → IsConsistent spec b
    → IsConsistent spec b2
closed-IsConsistent b b2 e f h = record { no_row = λ k. f; split = λ k. h.split (sym e ∙ k) }

act-IsConsistent :
    (spec : DramSpec) (c : Controller) (req : Request)
    → state_ok spec c req Command.act ≡ true
    → IsConsistent spec (act_bank spec req.decoded c.clk (bank_of spec c req.decoded))
unfolding state_ok snapshot check_command_state protocol_state act_bank
act-IsConsistent spec c req l = still _ (ground (arith, l))

act1-IsConsistent :
    (spec : DramSpec) (c : Controller) (req : Request)
    → state_ok spec c req Command.act1 ≡ true
    → IsConsistent spec (act1_bank spec c.clk (bank_of spec c req.decoded))
unfolding state_ok snapshot check_command_state protocol_state act1_bank
act1-IsConsistent spec c req l = record {
  no_row = λ k. ground (arith, l);
  split = λ k. ground (arith, l);
}

module _ (spec : DramSpec) (c : Controller) (req : Request)
    (a : AllConsistent spec c.executor.banks) where
  written :
      (f : BankState → BankState)
      → IsConsistent spec (f (bank_of spec c req.decoded))
      → AllConsistent spec (modify c.executor.banks (flat_bank spec.org req.decoded) f)
  written f h = modify-AllConsistent spec c.executor.banks _ f a h

  written_data :
      (f : BankState → BankState) (until : ℕ)
      → IsConsistent spec (f (bank_of spec c req.decoded))
      → AllConsistent spec (issue_data spec req f c.clk until c.executor).banks
  written_data f until h = rw (issue_data-banks spec req f c.clk until c.executor) (written f h)

  transition-AllConsistent :
      (cmd : Command)
      → state_ok spec c req cmd ≡ true
      → AllConsistent spec (transition spec req cmd c.clk c.executor).banks
  unfolding transition on_bank on_stats notify_rfm activate_scopes record_act hold_row on_row on_bg
      on_col on_wck start_wck gate_rank_banks_after close_rank_banks on_rank act2_bank
      precharge_bank gate_bank read_bank write_bank auto_precharge_bank
  transition-AllConsistent Command.act l = written _ (act-IsConsistent spec c req l)
  transition-AllConsistent Command.act1 l = written _ (act1-IsConsistent spec c req l)
  transition-AllConsistent Command.act2 l = written (act2_bank req.decoded) (still _ refl)
  transition-AllConsistent Command.pre l = written (precharge_bank spec c.clk) (still _ refl)
  transition-AllConsistent Command.prepb l = written (precharge_bank spec c.clk) (still _ refl)
  transition-AllConsistent Command.rd l =
      written_data (read_bank spec c.clk) _ (kept-IsConsistent _ _ refl refl (a _))
  transition-AllConsistent Command.wr l =
      written_data (write_bank spec c.clk) _ (kept-IsConsistent _ _ refl refl (a _))
  transition-AllConsistent Command.rda l =
      written_data (λ b. auto_precharge_bank spec _ (read_bank spec c.clk b)) _
        (closed-IsConsistent _ _ refl refl (a _))
  transition-AllConsistent Command.wra l =
      written_data (λ b. auto_precharge_bank spec _ (write_bank spec c.clk b)) _
        (closed-IsConsistent _ _ refl refl (a _))
  transition-AllConsistent Command.refpb l =
      written (gate_bank _) (kept-IsConsistent _ _ refl refl (a _))
  transition-AllConsistent Command.rfmpb l =
      written (gate_bank _) (kept-IsConsistent _ _ refl refl (a _))
  transition-AllConsistent Command.refdb l =
      let once = written (gate_bank _) (kept-IsConsistent _ _ refl refl (a _)) in
      modify-AllConsistent spec _ _ _ once (kept-IsConsistent _ _ refl refl (once _))
  transition-AllConsistent Command.refab l =
      modify_range-AllConsistent spec c.executor.banks _ _ _ a
        (λ b h. kept-IsConsistent b _ refl refl h)
  transition-AllConsistent Command.rfmab l =
      modify_range-AllConsistent spec c.executor.banks _ _ _ a
        (λ b h. kept-IsConsistent b _ refl refl h)
  transition-AllConsistent Command.preab l =
      modify_range-AllConsistent spec c.executor.banks _ _ _ a (λ b h. still _ refl)
  transition-AllConsistent _ l = a

-- The bank arrays of a controller: closed at first, then changed by the commands that it issues, each
-- of which the state machine has passed.
pub data Reachable (spec : DramSpec) : List BankState → Type 0 where
  started : (n : ℕ) → Reachable spec (replicate n initial_bank)
  issued :
      (c : Controller) (req : Request) (cmd : Command)
      → Reachable spec c.executor.banks
      → state_ok spec c req cmd ≡ true
      → Reachable spec (issue spec req cmd c.clk c.executor).executor.banks

-- Where every bank is closed at first and every issued command has passed state_ok, a bank that is
-- activating has no open row, and there is split activation.
pub Reachable-IsConsistent :
    (spec : DramSpec) (banks : List BankState) (i : ℕ)
    → Reachable spec banks
    → IsConsistent spec (get_or banks i initial_bank)
unfolding issue
Reachable-IsConsistent spec banks i (started n) =
    rw (get_or-replicate_self n i initial_bank) (initial-IsConsistent spec)
Reachable-IsConsistent spec banks i (issued c req cmd r l) =
    transition-AllConsistent spec c req (λ j. Reachable-IsConsistent spec _ j r) cmd l i
