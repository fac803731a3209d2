-- ===== src/Controller/Guards/Progress.antt =====
-- next_command and issue together, for one request: the commands up to its data command.
use mem_sim.Base.{
  ℕ, ◌+◌, ◌<◌, ◌≡◌, refl, ap, ◌∙◌, inl, inr, true, false, Option, none, some, List, [], ◌∷◌, arith,
  if◌then◌else◌, Bool-cases, length, length-modify, get_or-modify,
}
use mem_sim.Dram.Kinds.{Command, RowPolicyKind}
use mem_sim.Dram.Spec.{DramSpec}
use mem_sim.Dram.Address.{flat_bank}
use mem_sim.Dram.Semantics.{command_meta, read_command_for, write_command_for}
use mem_sim.Controller.Executor.{BankState, Request, on_bank, on_row, on_bg, on_stats}
use mem_sim.Controller.Executor.Parts.{
  hold_row, record_act, activate_scopes, act_bank, precharge_bank, notify_rfm,
}
use mem_sim.Controller.Executor.Issue.{issue, transition, mark_request}
use mem_sim.Controller.Executor.Moves.{initial_bank}
use mem_sim.Controller.Guards.{Controller, bank_of, is_read, is_open, opens, is_maintenance_request}
use mem_sim.Controller.Guards.Next.{next_command, next_column}
use mem_sim.Controller.Guards.Consistent.{Reachable, Reachable-IsConsistent}

-- The controller after a command and a wait.
abbrev pub issued_at : DramSpec → Controller → Request → Command → ℕ → Controller
issued_at spec c req cmd wait = record c {
  executor = (issue spec req cmd c.clk c.executor).executor;
  clk = c.clk + wait;
}

-- A data command is the last one of its request.
unfoldable pub follow : Option Command → (Command → List Command) → List Command
follow none rest = []
follow (some cmd) rest = cmd ∷ (if (command_meta cmd).data_command then [] else rest cmd)

-- The commands that the request asks for when each is issued, with a wait of any length behind it.
unfoldable pub commands_of : DramSpec → RowPolicyKind → List ℕ → Controller → Request → List Command
commands_of spec row_policy [] c req = []
commands_of spec row_policy (wait ∷ waits) c req =
    follow (next_command spec row_policy c req) (λ cmd.
      commands_of spec row_policy waits (issued_at spec c req cmd wait)
        (issue spec req cmd c.clk c.executor).request)

abbrev pub data_command_for : RowPolicyKind → Request → Command
data_command_for row_policy req =
    if is_read req.type then read_command_for row_policy else write_command_for row_policy

data_is_data :
    (row_policy : RowPolicyKind) (req : Request)
    → (command_meta (data_command_for row_policy req)).data_command ≡ true
unfolding command_meta read_command_for write_command_for
data_is_data row_policy req = ground arith

module _ (spec : DramSpec) (row_policy : RowPolicyKind) (req : Request)
    (ordinary : is_maintenance_request req ≡ false) (lpddr : spec.lpddr_family ≡ false)
    (whole : spec.split_activate ≡ false) where
  hit :
      (c : Controller)
      → opens (bank_of spec c req.decoded).open_row req.decoded.row ≡ true
      → next_command spec row_policy c req ≡ some (data_command_for row_policy req)
  unfolding next_command next_column
  hit c h = ground (arith, h, ordinary, lpddr)

  conflict :
      (c : Controller)
      → opens (bank_of spec c req.decoded).open_row req.decoded.row ≡ false
      → is_open (bank_of spec c req.decoded).open_row ≡ true
      → next_command spec row_policy c req ≡ some Command.prepb
  unfolding next_command
  conflict c n h = ground (arith, n, h, ordinary)

  miss :
      (c : Controller)
      → is_open (bank_of spec c req.decoded).open_row ≡ false
      → (bank_of spec c req.decoded).activating ≡ false
      → next_command spec row_policy c req ≡ some Command.act
  unfolding next_command
  miss c n h = ground (arith, n, h, ordinary, whole)

  bank_after_act :
      (c : Controller) (w : ℕ)
      → flat_bank spec.org req.decoded < length c.executor.banks
      → (bank_of spec (issued_at spec c req Command.act w) req.decoded).open_row
        ≡ some req.decoded.row
  unfolding issue transition on_bank on_stats notify_rfm activate_scopes record_act on_row on_bg
      act_bank
  bank_after_act c w h =
      let i = flat_bank spec.org req.decoded in
      ap (λ (b : BankState). b.open_row)
        (get_or-modify c.executor.banks i i (act_bank spec req.decoded c.clk) initial_bank h)
      ∙ ground arith

  bank_after_prepb :
      (c : Controller) (w : ℕ)
      → flat_bank spec.org req.decoded < length c.executor.banks
      → bank_of spec (issued_at spec c req Command.prepb w) req.decoded
        ≡ precharge_bank spec c.clk (bank_of spec c req.decoded)
  unfolding issue transition on_bank on_stats hold_row on_row
  bank_after_prepb c w h =
      let i = flat_bank spec.org req.decoded in
      get_or-modify c.executor.banks i i (precharge_bank spec c.clk) initial_bank h ∙ ground arith

  length_after_prepb :
      (c : Controller) (w : ℕ)
      → length (issued_at spec c req Command.prepb w).executor.banks ≡ length c.executor.banks
  unfolding issue transition on_bank on_stats hold_row on_row
  length_after_prepb c w = length-modify c.executor.banks _ (precharge_bank spec c.clk)

  first :
      (c : Controller) (cmd : Command) (w : ℕ) (ws : List ℕ)
      → next_command spec row_policy c req ≡ some cmd
      → commands_of spec row_policy (w ∷ ws) c req
        ≡ cmd
          ∷ (if (command_meta cmd).data_command
              then []
              else commands_of spec row_policy ws
                  (issued_at spec c req cmd w)
                  (mark_request spec cmd req))
  unfolding commands_of follow issue
  first c cmd w ws e =
      ap
        (λ o. follow o (λ cmd2.
          commands_of spec row_policy ws (issued_at spec c req cmd2 w)
            (issue spec req cmd2 c.clk c.executor).request))
        e

  from_hit :
      (c : Controller) (w : ℕ) (ws : List ℕ)
      → opens (bank_of spec c req.decoded).open_row req.decoded.row ≡ true
      → commands_of spec row_policy (w ∷ ws) c req ≡ data_command_for row_policy req ∷ []
  from_hit c w ws h =
      first c (data_command_for row_policy req) w ws (hit c h)
      ∙ rw (data_is_data row_policy req) refl

  from_miss :
      (c : Controller) (w v : ℕ) (ws : List ℕ)
      → flat_bank spec.org req.decoded < length c.executor.banks
      → is_open (bank_of spec c req.decoded).open_row ≡ false
      → (bank_of spec c req.decoded).activating ≡ false
      → commands_of spec row_policy (w ∷ v ∷ ws) c req
        ≡ Command.act ∷ data_command_for row_policy req ∷ []
  unfolding command_meta mark_request
  from_miss c w v ws valid n h =
      first c Command.act w (v ∷ ws) (miss c n h)
      ∙ ap (λ cmds. Command.act ∷ cmds)
          (from_hit (issued_at spec c req Command.act w) v ws
            (ground (arith, bank_after_act c w valid)))

  from_conflict :
      (c : Controller) (u w v : ℕ) (ws : List ℕ)
      → flat_bank spec.org req.decoded < length c.executor.banks
      → opens (bank_of spec c req.decoded).open_row req.decoded.row ≡ false
      → is_open (bank_of spec c req.decoded).open_row ≡ true
      → commands_of spec row_policy (u ∷ w ∷ v ∷ ws) c req
        ≡ Command.prepb ∷ Command.act ∷ data_command_for row_policy req ∷ []
  unfolding command_meta mark_request precharge_bank
  from_conflict c u w v ws valid n h =
      let after = bank_after_prepb c u valid in
      first c Command.prepb u (w ∷ v ∷ ws) (conflict c n h)
      ∙ ap (λ cmds. Command.prepb ∷ cmds)
          (from_miss (issued_at spec c req Command.prepb u) w v ws
            (rw (length_after_prepb c u) valid) (ap (λ (b : BankState). is_open b.open_row) after)
            (ap (λ (b : BankState). b.activating) after))

  -- Without split activation and outside LPDDR, on banks that legal commands lead to, a read or
  -- write of a bank of the array that has each command issued that it asks for, whatever the waits
  -- between them, gets to its data command: at once if its row is open, after PREpb and ACT if
  -- another row is, and after ACT if none is.
  pub commands_of_ends :
      (c : Controller) (u w v : ℕ)
      → Reachable spec c.executor.banks
      → flat_bank spec.org req.decoded < length c.executor.banks
      → commands_of spec row_policy (u ∷ w ∷ v ∷ []) c req ≡ (
          if opens (bank_of spec c req.decoded).open_row req.decoded.row
          then data_command_for row_policy req ∷ []
          else if is_open (bank_of spec c req.decoded).open_row
          then Command.prepb ∷ Command.act ∷ data_command_for row_policy req ∷ []
          else Command.act ∷ data_command_for row_policy req ∷ [])
  commands_of_ends c u w v reachable valid =
      let b = bank_of spec c req.decoded in
      let consistent =
        Reachable-IsConsistent spec c.executor.banks (flat_bank spec.org req.decoded) reachable in
      elim (Bool-cases (opens b.open_row req.decoded.row)) [
        | inl y ↦ rw y (from_hit c u (w ∷ v ∷ []) y)
        | inr n ↦ elim (Bool-cases (is_open b.open_row)) [
          | inl y ↦ rw (n, y) (from_conflict c u w v [] valid n y)
          | inr m ↦
              rw (n, m) (from_miss c u w (v ∷ []) valid m (ground (arith, consistent.split, whole)))
        ]
      ]
