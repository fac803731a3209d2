-- ===== src/Controller/Guards/Kept.antt =====
-- would_close_active and bus_matches: what the filters of candidates keep from happening.
use mem_sim.Base.{
  ℕ, ◌+◌, ◌-◌, ◌*◌, ◌%◌, ◌≡◌, ap, subst, ◌∙◌, ◌≢◌, inl, inr, Bool, true, false, arith, ltb, ◌==◌,
  if◌then◌else◌, Bool-cases, length, get_or, any_in, any_in-get_or,
}
use mem_sim.Dram.Kinds.{Command, BusClass}
use mem_sim.Dram.Spec.{DramSpec, IsPositive}
use mem_sim.Dram.Address.{DecodedAddress, flat_bank, InRange}
use mem_sim.Dram.Address.Ranks.{rank_number, in_rank_range, flat_bank-lt-banks}
use mem_sim.Dram.Semantics.{command_meta}
use mem_sim.Dram.State.{opened, closed, check_command_state}
use mem_sim.Controller.Queues.{RequestQueueKind, is_active}
use mem_sim.Controller.Executor.{Request}
use mem_sim.Controller.Executor.Issue.{issue}
use mem_sim.Controller.Executor.Moves.{protocol_state, state_at, is_for, next_state}
use mem_sim.Controller.Executor.Protocol.{rank_bank_range-eq, issue-state}
use mem_sim.Controller.Guards.{RisingEdgeCommandInfo, Controller, bank_of}
use mem_sim.Controller.Guards.Snapshot.{snapshot, state_ok}
use mem_sim.Controller.Guards.Bus.{
  is_act, bank_key, can_issue_falling_edge_pre, record_rising_row_command, would_close_active,
  bus_matches, is_rising_edge, is_all_bank_row_command,
}
use mem_sim.Controller.Guards.Idle.{bank_total}

-- Apart from the closing commands, those that leave an open bank open.
abbrev pub closes_own_bank : Command → Bool
closes_own_bank Command.pre = true
closes_own_bank Command.rda = true
closes_own_bank Command.wra = true
closes_own_bank _ = false

module _ (spec : DramSpec) (p : IsPositive spec.org) (c : Controller) (req : Request)
    (r : InRange spec.org req.decoded) (size : length c.executor.banks ≡ bank_total spec.org)
    (counts : length c.active_counts ≡ bank_total spec.org) where
  spared_rank :
      (e : DecodedAddress) (source : RequestQueueKind)
      → InRange spec.org e
      → is_active source ≡ false
      → would_close_active spec c req Command.preab source ≡ false
      → ltb 0 (get_or c.active_counts (flat_bank spec.org e) 0) ≡ true
      → (rank_number spec.org e == rank_number spec.org req.decoded) ≡ false
  unfolding would_close_active is_all_bank_row_command command_meta
  spared_rank e source q other w busy =
      let o = spec.org in
      let n = o.bank_groups * o.banks_per_group in
      let begin = rank_number o req.decoded * n in
      let quiet : any_in (ltb 0) c.active_counts begin (begin + n - begin) ≡ false =
        subst (λ (w : ℕ × ℕ). any_in (ltb 0) c.active_counts w.0 (w.1 - w.0) ≡ false)
          (rank_bank_range-eq spec p req 0 c.executor r size) (ground (arith, w, other)) in
      let within = in_rank_range o req.decoded e r q in
      elim (Bool-cases (rank_number o e == rank_number o req.decoded)) [
        | inl y ↦
            let idle =
              any_in-get_or (ltb 0) c.active_counts begin (begin + n - begin) (flat_bank o e) 0
                quiet (ground (arith, within, y)) (ground (arith, within, y))
                (rw counts (flat_bank-lt-banks o e q)) in
            cc
        | inr m ↦ m
      ]

  act1_closed :
      state_ok spec c req Command.act1 ≡ true → protocol_state (bank_of spec c req.decoded) ≡ closed
  unfolding state_ok snapshot check_command_state
  act1_closed l = ground (arith, l)

  spared_bank :
      (e : DecodedAddress) (source : RequestQueueKind)
      → is_active source ≡ false
      → would_close_active spec c req Command.prepb source ≡ false
      → ltb 0 (get_or c.active_counts (flat_bank spec.org e) 0) ≡ true
      → (flat_bank spec.org req.decoded == flat_bank spec.org e) ≡ false
  unfolding would_close_active is_all_bank_row_command command_meta
  spared_bank e source other w busy = ground (arith, w, busy, other)

  -- By the class of the command.
  still_open :
      (cmd : Command) (e : DecodedAddress) (source : RequestQueueKind)
      → InRange spec.org e
      → is_active source ≡ false
      → closes_own_bank cmd ≡ false
      → state_ok spec c req cmd ≡ true
      → would_close_active spec c req cmd source ≡ false
      → ltb 0 (get_or c.active_counts (flat_bank spec.org e) 0) ≡ true
      → state_at c.executor.banks (flat_bank spec.org e) ≡ opened
      → (if is_for spec.org cmd req.decoded e
          then next_state cmd (state_at c.executor.banks (flat_bank spec.org e))
          else state_at c.executor.banks (flat_bank spec.org e))
        ≡ opened
  unfolding is_for next_state
  still_open Command.preab e source q other k l w busy h =
      rw (spared_rank e source q other w busy) h
  still_open Command.prepb e source q other k l w busy h = rw (spared_bank e source other w busy) h
  still_open Command.act1 e source q other k l w busy h = ground (arith, act1_closed l, h)
  still_open _ e source q other k l w busy h = ground (arith, h)

  -- With positive dimensions, arrays of the size of the organisation and addresses in range, a
  -- command other than PRE, RDA and WRA from a queue other than the active one, that state_ok
  -- passes and would_close_active does not refuse, leaves open every open bank that has active
  -- requests.
  pub would_close_active-issue :
      (cmd : Command) (e : DecodedAddress) (source : RequestQueueKind)
      → InRange spec.org e
      → is_active source ≡ false
      → closes_own_bank cmd ≡ false
      → state_ok spec c req cmd ≡ true
      → would_close_active spec c req cmd source ≡ false
      → ltb 0 (get_or c.active_counts (flat_bank spec.org e) 0) ≡ true
      → state_at c.executor.banks (flat_bank spec.org e) ≡ opened
      → state_at (issue spec req cmd c.clk c.executor).executor.banks (flat_bank spec.org e)
        ≡ opened
  would_close_active-issue cmd e source q other k l w busy h =
      issue-state spec p req c.clk c.executor r size cmd e q
      ∙ still_open cmd e source q other k l w busy h

falling_next : (n : ℕ) (b : Bool) → n % 2 == 1 ≡ true → (n + (if b then 3 else 1)) % 2 == 1 ≡ false
falling_next n true h = ground (arith, h)
falling_next n false h = ground (arith, h)

-- With strict edge pairing, at the falling edge that the last row command recorded at a rising
-- edge is paired to, a command of the same pseudo-channel matches the row bus only if it is PREpb,
-- the recorded command is not on all banks, and the two bank keys differ.
pub paired_falling_edge :
    (spec : DramSpec) (before now : Controller) (earlier req : Request) (issued cmd : Command)
    → spec.hbm_edge_pairing ≡ true
    → spec.hbm_strict_edge_pairing ≡ true
    → is_rising_edge before ≡ true
    → now.rising_edge ≡ (record_rising_row_command spec earlier issued before).rising_edge
    → now.clk ≡ now.rising_edge.next_pairing_falling_edge
    → req.decoded.pseudo_channel ≡ earlier.decoded.pseudo_channel
    → bus_matches spec now req cmd BusClass.row ≡ true
    → (cmd ≡ Command.prepb)
      × (is_all_bank_row_command issued ≡ false)
      × (bank_key spec req.decoded ≢ bank_key spec earlier.decoded)
unfolding bus_matches can_issue_falling_edge_pre record_rising_row_command is_rising_edge
paired_falling_edge spec before now earlier req issued cmd on strict odd edge clk same m =
    let due : now.clk ≡ before.clk + (if is_act issued then 3 else 1) =
      clk ∙ ap (λ (e : RisingEdgeCommandInfo). e.next_pairing_falling_edge) edge in
    let falling : now.clk % 2 == 1 ≡ false = rw due (falling_next before.clk (is_act issued) odd) in
    let command = ap (λ (e : RisingEdgeCommandInfo). e.command) edge in
    let pc = ap (λ (e : RisingEdgeCommandInfo). e.pseudo_channel) edge in
    let key = ap (λ (e : RisingEdgeCommandInfo). e.bank_key) edge in
    ground (arith, on, strict, falling, command, pc, key, clk, same, m)
