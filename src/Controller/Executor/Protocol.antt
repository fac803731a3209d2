-- ===== src/Controller/Executor/Protocol.antt =====
-- What a command does to the protocol state of each bank.
use mem_sim.Base.{
  ℕ, ◌+◌, ◌*◌, ◌≤◌, ◌<◌, ◌≡◌, refl, ap, ◌∙◌, inl, inr, arith, ◌==◌, if◌then◌else◌, Bool-cases,
  length, get_or, modify,
}
use mem_sim.Dram.Kinds.{Command}
use mem_sim.Dram.Spec.{DramSpec, IsPositive}
use mem_sim.Dram.Address.{DecodedAddress, flat_bank, InRange}
use mem_sim.Dram.Address.Ranks.{
  rank_number, get_or-modify_rank, max_one, next_digit, rank_number-lt, flat_bank-lt-banks,
}
use mem_sim.Dram.State.{BankProtocolState}
use mem_sim.Controller.Timing.Scope.{timing_delay}
use mem_sim.Controller.Rfm.{rank_index}
use mem_sim.Controller.Rfm.Ranks.{rank_index-rank_number}
use mem_sim.Controller.Executor.{
  BankState, Request, CommandExecutor, rank_bank_range, on_bank, on_row, on_col, on_bg, on_wck,
  on_stats, on_rank,
}
use mem_sim.Controller.Executor.Parts.{
  write_recovery, close_rank_banks, gate_rank_banks_after, hold_row, record_act, activate_scopes,
  issue_data, read_bank, write_bank, auto_precharge_bank, start_wck, act_bank, act1_bank, act2_bank,
  precharge_bank, gate_bank, notify_rfm, until_read, until_write,
}
use mem_sim.Controller.Executor.Issue.{issue, transition}
use mem_sim.Controller.Executor.Moves.{
  initial_bank, protocol_state, next_state, is_for, state_at, one_bank, kept, kept_range, if_same,
  act-state, act1-state, act2-state, precharge-state, auto_precharge-state, read-state, write-state,
  gate-state, closed_by_preab, banks_pos, later-state, issue_data-banks,
}

module _ (spec : DramSpec) (p : IsPositive spec.org) (req : Request) (clk : ℕ) (x : CommandExecutor)
    (r : InRange spec.org req.decoded)
    (size : length x.banks
      ≡ spec.org.channels
        * spec.org.pseudo_channels
        * spec.org.sids
        * spec.org.ranks
        * (spec.org.bank_groups * spec.org.banks_per_group)) where
  valid : flat_bank spec.org req.decoded < length x.banks
  valid = rw size (flat_bank-lt-banks spec.org req.decoded r)

  data_closed :
      (f : BankState → BankState) (until pre_at : ℕ)
      → ((b : BankState) → protocol_state (f b) ≡ protocol_state b)
      → (e : DecodedAddress)
      → state_at
          (issue_data spec req (λ b. auto_precharge_bank spec pre_at (f b)) clk until x).banks
          (flat_bank spec.org e)
        ≡ (if flat_bank spec.org req.decoded == flat_bank spec.org e
            then next_state Command.rda (state_at x.banks (flat_bank spec.org e))
            else state_at x.banks (flat_bank spec.org e))
  data_closed f until pre_at k e =
      let g = λ (b : BankState). auto_precharge_bank spec pre_at (f b) in
      ap (λ banks. state_at banks (flat_bank spec.org e)) (issue_data-banks spec req g clk until x)
      ∙ one_bank x.banks _ (flat_bank spec.org e) g (next_state Command.rda) valid
          (λ b. auto_precharge-state spec pre_at (f b) ∙ ap (next_state Command.rda) (k b))

  rank_fits :
      rank_number spec.org req.decoded * (spec.org.bank_groups * spec.org.banks_per_group)
        + spec.org.bank_groups * spec.org.banks_per_group
      ≤ length x.banks
  rank_fits = rw size (
      next_digit (rank_number spec.org req.decoded) _
        (spec.org.bank_groups * spec.org.banks_per_group) (rank_number-lt spec.org req.decoded r))

  pub rank_bank_range-eq : rank_bank_range spec x req.decoded ≡ (
    rank_number spec.org req.decoded * (spec.org.bank_groups * spec.org.banks_per_group),
    rank_number spec.org req.decoded * (spec.org.bank_groups * spec.org.banks_per_group)
        + spec.org.bank_groups * spec.org.banks_per_group,
  )
  unfolding rank_bank_range rank_index
  rank_bank_range-eq =
      rw
        (
          rank_index-rank_number spec.org p req.decoded r,
          max_one (spec.org.bank_groups * spec.org.banks_per_group) (banks_pos spec.org p),
        )
        (ap
          (λ (n : ℕ). (
            rank_number spec.org req.decoded * (spec.org.bank_groups * spec.org.banks_per_group),
            n,
          ))
          (omega (arith, rank_fits)))

  -- A write to the banks of the rank that sends each of them to the state `t`.
  in_rank_closed :
      (f : BankState → BankState) (t : BankProtocolState)
      → ((b : BankState) → protocol_state (f b) ≡ t)
      → (e : DecodedAddress) → InRange spec.org e
      → state_at (on_rank spec req.decoded f x).banks (flat_bank spec.org e) ≡ (
          if rank_number spec.org e == rank_number spec.org req.decoded
          then t
          else state_at x.banks (flat_bank spec.org e))
  unfolding on_rank
  in_rank_closed f t k e q =
      let cell = get_or-modify_rank spec.org req.decoded e x.banks f initial_bank r q rank_fits in
      elim (Bool-cases (rank_number spec.org e == rank_number spec.org req.decoded)) [
        | inl y ↦
            rw (rank_bank_range-eq, cell, y)
              (k (get_or x.banks (flat_bank spec.org e) initial_bank))
        | inr n ↦ rw (rank_bank_range-eq, cell, n) refl
      ]

  data_kept :
      (f : BankState → BankState) (until : ℕ)
      → ((b : BankState) → protocol_state (f b) ≡ protocol_state b)
      → (e : DecodedAddress)
      → state_at (issue_data spec req f clk until x).banks (flat_bank spec.org e)
        ≡ state_at x.banks (flat_bank spec.org e)
  data_kept f until k e =
      ap (λ banks. state_at banks (flat_bank spec.org e)) (issue_data-banks spec req f clk until x)
      ∙ kept x.banks _ (flat_bank spec.org e) f k

  transition-state :
      (cmd : Command) (e : DecodedAddress)
      → InRange spec.org e
      → state_at (transition spec req cmd clk x).banks (flat_bank spec.org e) ≡ (
          if is_for spec.org cmd req.decoded e
          then next_state cmd (state_at x.banks (flat_bank spec.org e))
          else state_at x.banks (flat_bank spec.org e))
  unfolding transition is_for next_state on_bank on_stats notify_rfm activate_scopes record_act
      hold_row on_row on_bg on_col on_wck start_wck gate_rank_banks_after close_rank_banks on_rank
  transition-state Command.act e q =
      one_bank x.banks _ (flat_bank spec.org e) (act_bank spec req.decoded clk)
        (next_state Command.act) valid (act-state spec req.decoded clk)
  transition-state Command.act1 e q =
      one_bank x.banks _ (flat_bank spec.org e) (act1_bank spec clk) (next_state Command.act1) valid
        (act1-state spec clk)
  transition-state Command.act2 e q =
      one_bank x.banks _ (flat_bank spec.org e) (act2_bank req.decoded) (next_state Command.act2)
        valid (act2-state req.decoded)
  transition-state Command.pre e q =
      one_bank x.banks _ (flat_bank spec.org e) (precharge_bank spec clk) (next_state Command.pre)
        valid (precharge-state spec clk)
  transition-state Command.prepb e q =
      one_bank x.banks _ (flat_bank spec.org e) (precharge_bank spec clk) (next_state Command.prepb)
        valid (precharge-state spec clk)
  transition-state Command.rd e q =
      data_kept (read_bank spec clk) (until_read spec clk) (read-state spec clk) e ∙ if_same _ _
  transition-state Command.wr e q =
      data_kept (write_bank spec clk) (until_write spec clk) (write-state spec clk) e ∙ if_same _ _
  transition-state Command.rda e q =
      data_closed (read_bank spec clk) (until_read spec clk)
        (clk + timing_delay spec spec.timing.n_rtp) (read-state spec clk) e
  transition-state Command.wra e q =
      data_closed (write_bank spec clk) (until_write spec clk) (clk + write_recovery spec)
        (write-state spec clk) e
  transition-state Command.refpb e q =
      kept x.banks _ (flat_bank spec.org e) (gate_bank _) (gate-state _) ∙ if_same _ _
  transition-state Command.rfmpb e q =
      kept x.banks _ (flat_bank spec.org e) (gate_bank _) (gate-state _) ∙ if_same _ _
  transition-state Command.refdb e q =
      kept (modify x.banks _ (gate_bank _)) _ (flat_bank spec.org e) _ (λ b. later-state b _)
      ∙ kept x.banks _ (flat_bank spec.org e) (gate_bank _) (gate-state _)
      ∙ if_same _ _
  transition-state Command.refab e q =
      kept_range x.banks _ _ (flat_bank spec.org e) _ (λ b. later-state b _) ∙ if_same _ _
  transition-state Command.rfmab e q =
      kept_range x.banks _ _ (flat_bank spec.org e) _ (λ b. later-state b _) ∙ if_same _ _
  transition-state Command.preab e q = in_rank_closed _ _ (λ b. closed_by_preab b _) e q
  transition-state _ e q = if_same _ _

  -- With positive dimensions, a bank array of the size of the organisation and addresses in range,
  -- a command moves the protocol state of every bank as the state machine of one bank says: PREab
  -- the banks of its rank, every other command the bank that it is for, and no command any other.
  pub issue-state :
      (cmd : Command) (e : DecodedAddress)
      → InRange spec.org e
      → state_at (issue spec req cmd clk x).executor.banks (flat_bank spec.org e) ≡ (
          if is_for spec.org cmd req.decoded e
          then next_state cmd (state_at x.banks (flat_bank spec.org e))
          else state_at x.banks (flat_bank spec.org e))
  unfolding issue
  issue-state cmd e q = transition-state cmd e q
