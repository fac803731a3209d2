-- ===== src/Controller/Guards/Proposal.antt =====
-- What next_command proposes, against the command state machine.
use mem_sim.Base.{
  ℕ, ◌≡◌, ◌≢◌, inl, inr, Bool, true, false, not, ◌&&◌, ◌||◌, some, arith, Bool-cases,
}
use mem_sim.Dram.Kinds.{Command, RowPolicyKind}
use mem_sim.Dram.Spec.{DramSpec}
use mem_sim.Dram.Address.{flat_bank}
use mem_sim.Dram.Semantics.{read_command_for, write_command_for}
use mem_sim.Dram.State.{check_command_state, closed}
use mem_sim.Controller.Executor.{Request}
use mem_sim.Controller.Executor.Moves.{protocol_state}
use mem_sim.Controller.Guards.{Controller, bank_of, opens, is_maintenance_request}
use mem_sim.Controller.Guards.Snapshot.{snapshot, state_ok, is_self_refresh}
use mem_sim.Controller.Guards.Next.{next_maintenance, refreshes_rank, next_command, next_column}
use mem_sim.Controller.Guards.Consistent.{Reachable, Reachable-IsConsistent, IsConsistent}

abbrev pub asleep : DramSpec → Controller → Bool
asleep spec c =
    c.explicit_self_refresh_active || (c.low_power_active && is_self_refresh spec.low_power_mode)

module _ (spec : DramSpec) (row_policy : RowPolicyKind) (c : Controller) (req : Request)
    (consistent : IsConsistent spec (bank_of spec c req.decoded)) (awake : asleep spec c ≡ false)
    (trained : c.wck_retrain_required ≡ false) where
  open-still :
      (row : ℕ)
      → opens (bank_of spec c req.decoded).open_row row ≡ true
      → (bank_of spec c req.decoded).activating ≡ false
  open-still row h = ground (arith, h, consistent.no_row)

  column_legal :
      (cmd : Command)
      → opens (bank_of spec c req.decoded).open_row req.decoded.row ≡ true
      → next_column spec row_policy c req ≡ some cmd
      → state_ok spec c req cmd ≡ true
  unfolding state_ok snapshot check_command_state protocol_state next_column read_command_for
      write_command_for
  column_legal cmd h e = ground (arith, h, e, awake, trained, open-still req.decoded.row h)

  ordinary_legal :
      (cmd : Command)
      → is_maintenance_request req ≡ false
      → (req.issued_first_activate ≡ true → protocol_state (bank_of spec c req.decoded) ≢ closed)
      → next_command spec row_policy c req ≡ some cmd
      → state_ok spec c req cmd ≡ true
  unfolding state_ok snapshot check_command_state protocol_state next_command
  ordinary_legal cmd ordinary own e =
      let row = req.decoded.row in
      elim (Bool-cases (opens (bank_of spec c req.decoded).open_row row)) [
        | inl y ↦ column_legal cmd y (ground (arith, e, y, ordinary))
        | inr n ↦ ground (arith, n, e, awake, ordinary, own, consistent.no_row, consistent.split)
      ]

  rank_maintenance_legal :
      (cmd : Command)
      → is_maintenance_request req ≡ true
      → refreshes_rank req.next ≡ true
      → next_command spec row_policy c req ≡ some cmd
      → state_ok spec c req cmd ≡ true
  unfolding state_ok snapshot check_command_state next_command next_maintenance
  rank_maintenance_legal cmd m h e = ground (arith, m, h, e, awake)

-- On banks that commands passed by the state machine lead to, outside self-refresh and with no WCK
-- training outstanding, every command that next_command proposes is legal in the state machine,
-- for an ordinary request whose bank is not closed again after its ACT1 and for a maintenance
-- request that ends in REFab or RFMab.
pub next_command-state_ok :
    (spec : DramSpec) (row_policy : RowPolicyKind) (c : Controller) (req : Request) (cmd : Command)
    → Reachable spec c.executor.banks
    → asleep spec c ≡ false
    → c.wck_retrain_required ≡ false
    → (req.issued_first_activate ≡ true → protocol_state (bank_of spec c req.decoded) ≢ closed)
    → (is_maintenance_request req && not (refreshes_rank req.next)) ≡ false
    → next_command spec row_policy c req ≡ some cmd
    → state_ok spec c req cmd ≡ true
next_command-state_ok spec row_policy c req cmd reachable awake trained own kind e =
    let consistent =
      Reachable-IsConsistent spec c.executor.banks (flat_bank spec.org req.decoded) reachable in
    elim (Bool-cases (is_maintenance_request req)) [
      | inl y ↦
          rank_maintenance_legal spec row_policy c req consistent awake trained cmd y
            (ground (arith, y, kind)) e
      | inr n ↦ ordinary_legal spec row_policy c req consistent awake trained cmd n own e
    ]
