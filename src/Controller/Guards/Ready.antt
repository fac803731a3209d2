-- ===== src/Controller/Guards/Ready.antt =====
-- Controller::timing_ok: the command state machine, the table of constraints, and the gates of the
-- bank and its buckets.
use mem_sim.Base.{ℕ, Bool, false, not, ◌&&◌, ◌||◌, leb, if◌then◌else◌}
use mem_sim.Dram.Kinds.{Command}
use mem_sim.Dram.Spec.{DramSpec}
use mem_sim.Dram.Semantics.{lpddr_refdb_partner}
use mem_sim.Controller.Timing.Engine.{row_state, column_state, bank_group_state, wck_state}
use mem_sim.Controller.Timing.Constraints.{constraint_ready}
use mem_sim.Controller.Timing.Window.{faw_ready}
use mem_sim.Controller.Executor.{Request}
use mem_sim.Controller.Guards.{
  Controller, bank_of, is_open, opens, wck_ready_for_data, any_bank_busy_in_rank,
  any_bank_busy_in_channel, any_bank_activating_in_rank, dual_bank_target_idle,
}
use mem_sim.Controller.Guards.Snapshot.{state_ok}

unfoldable pub constraint_timing_ok : DramSpec → Controller → Request → Command → Bool
constraint_timing_ok spec c req cmd =
    constraint_ready c.executor.timing_engine spec req.decoded cmd c.clk

-- The cases that several commands share.
unfoldable pub activate_ready : DramSpec → Controller → Request → Bool
activate_ready spec c req =
    let d = req.decoded in
    let e = c.executor.timing_engine in
    leb (bank_of spec c d).next_act c.clk
    && leb (row_state e spec d).next_row c.clk
    && leb (row_state e spec d).next_act c.clk
    && leb (bank_group_state e spec d).next_act c.clk
    && faw_ready spec d e

unfoldable pub precharge_ready : DramSpec → Controller → Request → Bool
precharge_ready spec c req =
    let bank = bank_of spec c req.decoded in
    not bank.activating
    && is_open bank.open_row
    && leb bank.next_pre c.clk
    && leb (row_state c.executor.timing_engine spec req.decoded).next_row c.clk

unfoldable pub cas_ready : DramSpec → Controller → Request → Bool
cas_ready spec c req =
    let d = req.decoded in
    let e = c.executor.timing_engine in
    spec.lpddr_family
    && opens (bank_of spec c d).open_row d.row
    && leb (column_state e spec d).next_col c.clk
    && leb (wck_state e spec d).next_cas c.clk

-- The case of reads and writes, with the bank's gate for the direction.
unfoldable pub data_ready : DramSpec → Controller → Request → ℕ → Bool
data_ready spec c req next =
    let d = req.decoded in
    let e = c.executor.timing_engine in
    let bank = bank_of spec c d in
    opens bank.open_row d.row
    && leb next c.clk
    && leb bank.next_any_col c.clk
    && leb (column_state e spec d).next_col c.clk
    && leb (bank_group_state e spec d).next_col c.clk
    && (not spec.lpddr_family || wck_ready_for_data spec c req)

unfoldable pub bank_maintenance_ready : DramSpec → Controller → Request → Bool
bank_maintenance_ready spec c req =
    let bank = bank_of spec c req.decoded in
    not bank.activating
    && not (is_open bank.open_row)
    && leb bank.next_act c.clk
    && leb (row_state c.executor.timing_engine spec req.decoded).next_row c.clk

unfoldable pub channel_idle_ready : DramSpec → Controller → Request → Bool
channel_idle_ready spec c req =
    not (any_bank_busy_in_channel spec c req.decoded)
    && leb (row_state c.executor.timing_engine spec req.decoded).next_row c.clk

-- The switch of timing_ok.
unfoldable pub gates_ok : DramSpec → Controller → Request → Command → Bool
gates_ok spec c req Command.act =
    not (bank_of spec c req.decoded).activating && activate_ready spec c req
gates_ok spec c req Command.act1 =
    not (bank_of spec c req.decoded).activating
    && not (any_bank_activating_in_rank spec c req.decoded)
    && activate_ready spec c req
gates_ok spec c req Command.act2 =
    let bank = bank_of spec c req.decoded in
    bank.activating
    && req.issued_first_activate
    && leb bank.next_act2 c.clk
    && leb (row_state c.executor.timing_engine spec req.decoded).next_row c.clk
gates_ok spec c req Command.pre = precharge_ready spec c req
gates_ok spec c req Command.prepb = precharge_ready spec c req
gates_ok spec c req Command.casrd = cas_ready spec c req
gates_ok spec c req Command.caswr = cas_ready spec c req
gates_ok spec c req Command.rd = data_ready spec c req (bank_of spec c req.decoded).next_rd
gates_ok spec c req Command.rda = data_ready spec c req (bank_of spec c req.decoded).next_rd
gates_ok spec c req Command.wr = data_ready spec c req (bank_of spec c req.decoded).next_wr
gates_ok spec c req Command.wra = data_ready spec c req (bank_of spec c req.decoded).next_wr
gates_ok spec c req Command.refpb =
    bank_maintenance_ready spec c req && faw_ready spec req.decoded c.executor.timing_engine
gates_ok spec c req Command.refdb =
    let d = req.decoded in
    dual_bank_target_idle spec c d
    && leb (bank_of spec c d).next_act c.clk
    && leb (bank_of spec c (lpddr_refdb_partner spec.org d)).next_act c.clk
    && leb (row_state c.executor.timing_engine spec d).next_row c.clk
    && faw_ready spec d c.executor.timing_engine
gates_ok spec c req Command.rfmpb = bank_maintenance_ready spec c req
gates_ok spec c req Command.preab =
    leb (row_state c.executor.timing_engine spec req.decoded).next_row c.clk
gates_ok spec c req Command.refab =
    not (any_bank_busy_in_rank spec c req.decoded)
    && leb (row_state c.executor.timing_engine spec req.decoded).next_row c.clk
gates_ok spec c req Command.rfmab =
    not (any_bank_busy_in_rank spec c req.decoded)
    && leb (row_state c.executor.timing_engine spec req.decoded).next_row c.clk
gates_ok spec c req Command.mrw = channel_idle_ready spec c req
gates_ok spec c req Command.mrr = channel_idle_ready spec c req
gates_ok spec c req Command.wcktrain = channel_idle_ready spec c req
gates_ok spec c req Command.dvfs = channel_idle_ready spec c req
gates_ok spec c req Command.pde = channel_idle_ready spec c req
gates_ok spec c req Command.srefen = channel_idle_ready spec c req
gates_ok spec c req Command.eccscrub = channel_idle_ready spec c req
gates_ok spec c req Command.wcksync =
    let e = c.executor.timing_engine in
    spec.lpddr_family
    && leb (column_state e spec req.decoded).next_col c.clk
    && leb (wck_state e spec req.decoded).next_cas c.clk
gates_ok spec c req Command.pdx =
    leb (row_state c.executor.timing_engine spec req.decoded).next_row c.clk
gates_ok spec c req Command.srefex =
    leb (row_state c.executor.timing_engine spec req.decoded).next_row c.clk
gates_ok spec c req Command.raserr =
    leb (row_state c.executor.timing_engine spec req.decoded).next_row c.clk
gates_ok spec c req Command.nop = false

unfoldable pub timing_ok : DramSpec → Controller → Request → Command → Bool
timing_ok spec c req cmd =
    if not (state_ok spec c req cmd)
    then false
    else if not (constraint_timing_ok spec c req cmd)
    then false
    else gates_ok spec c req cmd
