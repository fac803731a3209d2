-- ===== src/Controller/Guards/Bus.antt =====
-- Controller::bus_matches, would_close_active and the pairing of edges.
use mem_sim.Base.{
  ℕ, ◌+◌, ◌-◌, ◌*◌, ◌%◌, Bool, true, false, not, ◌&&◌, ◌||◌, Option, none, some, ltb, ◌==◌,
  if◌then◌else◌, get_or, any_in,
}
use mem_sim.Dram.Kinds.{Command, BusClass}
use mem_sim.Dram.Spec.{DramSpec}
use mem_sim.Dram.Address.{DecodedAddress, flat_bank}
use mem_sim.Dram.Semantics.{command_meta}
use mem_sim.Controller.Executor.{Request, rank_bank_range}
use mem_sim.Controller.Queues.{RequestQueueKind, is_active}
use mem_sim.Controller.Guards.{Controller}

unfoldable pub is_row_command : Command → Bool
is_row_command cmd = (command_meta cmd).row_command

unfoldable pub is_column_command : Command → Bool
is_column_command cmd = (command_meta cmd).column_command

unfoldable pub is_all_bank_row_command : Command → Bool
is_all_bank_row_command cmd = (command_meta cmd).all_bank

unfoldable pub is_rising_edge : Controller → Bool
is_rising_edge c = c.clk % 2 == 1

unfoldable pub bank_key : DramSpec → DecodedAddress → ℕ
bank_key spec d = (d.sid * spec.org.bank_groups + d.bank_group) * spec.org.banks_per_group + d.bank

abbrev pub is_act : Command → Bool
is_act Command.act = true
is_act _ = false

abbrev pub is_prepb : Command → Bool
is_prepb Command.prepb = true
is_prepb _ = false

abbrev pub is_preab : Command → Bool
is_preab Command.preab = true
is_preab _ = false

-- A number of the source that is -1 for none, against one that is not.
abbrev pub is_number : Option ℕ → ℕ → Bool
is_number (some n) m = n == m
is_number none m = false

unfoldable pub can_issue_falling_edge_pre : DramSpec → Controller → Request → Command → Bool
can_issue_falling_edge_pre spec c req cmd =
    let edge = c.rising_edge in
    if not (c.clk == edge.next_pairing_falling_edge)
    then true
    else if not (is_number edge.pseudo_channel req.decoded.pseudo_channel)
    then true
    else if is_all_bank_row_command edge.command
    then false
    else is_prepb cmd && not (is_number edge.bank_key (bank_key spec req.decoded))

unfoldable pub record_rising_row_command : DramSpec → Request → Command → Controller → Controller
record_rising_row_command spec req cmd c = record c {
  rising_edge = record {
    command = cmd;
    pseudo_channel = some req.decoded.pseudo_channel;
    bank_key = if is_all_bank_row_command cmd then none else some (bank_key spec req.decoded);
    next_pairing_falling_edge = c.clk + (if is_act cmd then 3 else 1);
  };
}

unfoldable pub bus_matches : DramSpec → Controller → Request → Command → BusClass → Bool
bus_matches spec c req cmd BusClass.unified = true
bus_matches spec c req cmd BusClass.row =
    if spec.hbm_edge_pairing && not (is_rising_edge c)
    then (is_prepb cmd || is_preab cmd)
      && (not spec.hbm_strict_edge_pairing || can_issue_falling_edge_pre spec c req cmd)
    else is_row_command cmd
bus_matches spec c req cmd BusClass.column =
    if spec.hbm_edge_pairing && not (is_rising_edge c)
    then false
    else not (is_row_command cmd) && is_column_command cmd

-- The commands that may close a bank of another request.
abbrev pub is_closing : Command → Bool
is_closing Command.prepb = true
is_closing Command.refpb = true
is_closing Command.refdb = true
is_closing Command.rfmpb = true
is_closing Command.preab = true
is_closing Command.refab = true
is_closing Command.rfmab = true
is_closing _ = false

unfoldable pub would_close_active :
    DramSpec → Controller → Request → Command → RequestQueueKind → Bool
would_close_active spec c req cmd source =
    let (begin, end) = rank_bank_range spec c.executor req.decoded in
    if is_active source
    then false
    else if not (is_closing cmd)
    then false
    else if is_all_bank_row_command cmd
    then any_in (ltb 0) c.active_counts begin (end - begin)
    else ltb 0 (get_or c.active_counts (flat_bank spec.org req.decoded) 0)
