-- ===== src/Controller/Guards/Next.antt =====
-- Controller::next_command: which command a request needs next.
use mem_sim.Base.{
  ◌+◌, max, Bool, true, false, not, ◌&&◌, ◌||◌, Option, none, some, ltb, leb, if◌then◌else◌,
}
use mem_sim.Dram.Kinds.{Command, RowPolicyKind}
use mem_sim.Dram.Spec.{DramSpec}
use mem_sim.Dram.Semantics.{read_command_for, write_command_for}
use mem_sim.Controller.Timing.Scope.{timing_delay}
use mem_sim.Controller.Timing.Engine.{wck_state}
use mem_sim.Controller.Timing.Constraints.{constraint_ready_at, is_refdb}
use mem_sim.Controller.Executor.{Request}
use mem_sim.Controller.Guards.{
  Controller, bank_of, is_open, opens, is_read, is_maintenance_request, wck_ready_for_data,
  any_bank_busy_in_rank, dual_bank_target_idle,
}

abbrev pub refreshes_rank : Command → Bool
refreshes_rank Command.refab = true
refreshes_rank Command.rfmab = true
refreshes_rank _ = false

abbrev pub refreshes_bank : Command → Bool
refreshes_bank Command.refpb = true
refreshes_bank Command.refdb = true
refreshes_bank Command.rfmpb = true
refreshes_bank _ = false

-- The branch of maintenance requests.
unfoldable pub next_maintenance : DramSpec → Controller → Request → Command
next_maintenance spec c req =
    let bank = bank_of spec c req.decoded in
    if refreshes_rank req.next && any_bank_busy_in_rank spec c req.decoded
    then Command.preab
    else if refreshes_bank req.next && (bank.activating || is_open bank.open_row)
    then Command.prepb
    else if is_refdb req.next
        && not (dual_bank_target_idle spec c req.decoded)
        && any_bank_busy_in_rank spec c req.decoded
    then Command.preab
    else req.next

abbrev pub data_command : Request → Command
data_command req = if is_read req.type then Command.rd else Command.wr

-- `std::max(data_gate, prospective_ready) >= prospective_end`
unfoldable pub window_too_early : DramSpec → Controller → Request → Bool
window_too_early spec c req =
    let t = spec.timing in
    let bank = bank_of spec c req.decoded in
    let data_gate =
      max (if is_read req.type then bank.next_rd else bank.next_wr)
        (constraint_ready_at c.executor.timing_engine spec req.decoded (data_command req)) in
    let cas_to_data = max t.n_cas t.n_wck2ck in
    let prospective_ready = c.clk + timing_delay spec (max 1 cas_to_data) in
    let prospective_end = c.clk + timing_delay spec (max t.n_wckpst (t.n_wck2ck + 1)) in
    leb prospective_end (max data_gate prospective_ready)

-- The branch in which the bank's open row is the request's.
unfoldable pub next_column : DramSpec → RowPolicyKind → Controller → Request → Option Command
next_column spec row_policy c req =
    let wck = wck_state c.executor.timing_engine spec req.decoded in
    if spec.lpddr_family && not (wck_ready_for_data spec c req)
    then if ltb c.clk wck.wck_ready_at && ltb c.clk wck.wck_active_until
      then none
      else if window_too_early spec c req
      then none
      else some (if is_read req.type then Command.casrd else Command.caswr)
    else some
        (if is_read req.type then read_command_for row_policy else write_command_for row_policy)

unfoldable pub next_command : DramSpec → RowPolicyKind → Controller → Request → Option Command
next_command spec row_policy c req =
    let bank = bank_of spec c req.decoded in
    if is_maintenance_request req
    then some (next_maintenance spec c req)
    else if opens bank.open_row req.decoded.row
    then next_column spec row_policy c req
    else if is_open bank.open_row
    then some Command.prepb
    else if bank.activating
    then if req.issued_first_activate then some Command.act2 else none
    else if spec.split_activate
    then some (if req.issued_first_activate then Command.act2 else Command.act1)
    else some Command.act
