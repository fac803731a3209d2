-- ===== src/Controller/Arbiter/Choose.antt =====
-- pick_urgent_act2, pick_priority_if, pick_rw_if, set_write_mode and choose. The counts of forced ACT2
-- and of backpressure are not kept.
use mem_sim.Base.{
  ℕ, ◌+◌, Bool, true, false, not, ◌&&◌, ◌||◌, Option, none, some, List, [], ◌∷◌, ltb, ◌==◌,
  if◌then◌else◌, length, Result, ok, ◌>>=◌, ◌>>◌, throw_if, runtime_error,
}
use mem_sim.Dram.Kinds.{Command, BusClass}
use mem_sim.Dram.Spec.{DramSpec}
use mem_sim.Dram.Address.{flat_bank}
use mem_sim.Controller.RowPolicy
use mem_sim.Controller.Queues.{RequestQueueKind}
use mem_sim.Controller.Executor.{Request}
use mem_sim.Controller.Guards.{Controller, bank_of, is_open}
use mem_sim.Controller.Guards.Ready.{timing_ok}
use mem_sim.Controller.Guards.Next.{next_command}
use mem_sim.Controller.Guards.Bus.{is_prepb}
use mem_sim.Controller.Arbiter.{
  Surroundings, Arbiter, Candidate, candidate_eligible, phy_admission_ok, pick_best_ready_from,
}

-- The best request so far: its index, deadline and arrival.
pub record Urgent : Type 0 where
  pub index : ℕ
  pub deadline : ℕ
  pub arrival : ℕ

abbrev pub wants_act2 : Option Command → Bool
wants_act2 (some Command.act2) = true
wants_act2 _ = false

abbrev pub is_better : ℕ → ℕ → Option Urgent → Bool
is_better deadline arrival none = true
is_better deadline arrival (some best) =
    ltb deadline best.deadline || (deadline == best.deadline && ltb arrival best.arrival)

-- The deadline has come, and the command may issue.
unfoldable pub is_urgent : DramSpec → Surroundings → Controller → BusClass → Request → Bool
is_urgent spec env c bus req =
    wants_act2 (next_command spec env.row_policy c req)
    && not (ltb c.clk (bank_of spec c req.decoded).act2_deadline)
    && candidate_eligible spec env c req Command.act2 bus RequestQueueKind.active false
    && timing_ok spec c req Command.act2
    && phy_admission_ok env Command.act2

unfoldable pub urgent_from :
    DramSpec
    → Surroundings
    → Controller
    → BusClass
    → ℕ
    → Option Urgent
    → List Request
    → Result (Option Urgent)
urgent_from spec env c bus i best [] = ok best
urgent_from spec env c bus i best (req ∷ reqs) = do
  let deadline = (bank_of spec c req.decoded).act2_deadline
  throw_if (wants_act2 (next_command spec env.row_policy c req) && ltb deadline c.clk) runtime_error
  urgent_from spec env c bus (i + 1)
      (if is_urgent spec env c bus req && is_better deadline req.arrival best
        then some (record { index = i; deadline = deadline; arrival = req.arrival })
        else best)
      reqs

abbrev pub is_column : BusClass → Bool
is_column BusClass.column = true
is_column _ = false

abbrev pub is_row : BusClass → Bool
is_row BusClass.row = true
is_row _ = false

abbrev pub urgent_candidate : BusClass → Option Urgent → Option Candidate
urgent_candidate bus none = none
urgent_candidate bus (some u) = some (record {
  index = u.index;
  buffer = RequestQueueKind.active;
  command = Command.act2;
  bus = bus;
})

unfoldable pub pick_urgent_act2 :
    DramSpec → Surroundings → Arbiter → BusClass → Result (Option Candidate)
pick_urgent_act2 spec env a bus = if not spec.split_activate || is_column bus then ok none else do
  best ← urgent_from spec env a.controller bus 0 none a.active_queue
  ok (urgent_candidate bus best)

-- The loop that retires precharges of closed banks from the front of the priority queue.
unfoldable pub retire_satisfied :
    DramSpec
    → Surroundings
    → Controller
    → RowPolicy.RowPolicyEngine
    → List Request
    → List Request × RowPolicy.RowPolicyEngine
retire_satisfied spec env c engine [] = ([], engine)
retire_satisfied spec env c engine (head ∷ queue) =
    let bank = bank_of spec c head.decoded in
    let rest =
      retire_satisfied spec env c
        (RowPolicy.on_issue engine env.row_policy (flat_bank spec.org head.decoded) Command.prepb)
        queue in
    if not (is_prepb head.next) || bank.activating || is_open bank.open_row
    then (head ∷ queue, engine)
    else rest

-- The head of the priority queue, if its next command may issue.
unfoldable pub head_candidate :
    DramSpec → Surroundings → Controller → BusClass → Request → Option Command → Option Candidate
head_candidate spec env c bus req none = none
head_candidate spec env c bus req (some cmd) =
    if not (candidate_eligible spec env c req cmd bus RequestQueueKind.priority true)
      || not (timing_ok spec c req cmd)
      || not (phy_admission_ok env cmd)
    then none
    else some (record { index = 0; buffer = RequestQueueKind.priority; command = cmd; bus = bus })

unfoldable pub head_of :
    DramSpec → Surroundings → Controller → BusClass → List Request → Option Candidate
head_of spec env c bus [] = none
head_of spec env c bus (req ∷ queue) =
    head_candidate spec env c bus req (next_command spec env.row_policy c req)

unfoldable pub pick_priority_if :
    DramSpec → Surroundings → Arbiter → BusClass → Arbiter × Option Candidate
pick_priority_if spec env a bus =
    let (queue, engine) = retire_satisfied spec env a.controller a.row_policy a.priority_queue in
    (
      record a { priority_queue = queue; row_policy = engine },
      head_of spec env a.controller bus queue,
    )

unfoldable pub set_write_mode : Surroundings → Arbiter → Arbiter
set_write_mode env a =
    let writes = length a.write_queue in
    let no_reads = length a.read_queue == 0 in
    record a {
      write_mode =
          if not a.write_mode
          then env.above_high writes || no_reads
          else not (env.below_low writes && not no_reads);
    }

abbrev pub or_pick : Option Candidate → Option Candidate → Option Candidate
or_pick none other = other
or_pick (some c) other = some c

unfoldable pub any_dependency : Surroundings → List Request → Bool
any_dependency env [] = false
any_dependency env (req ∷ reqs) = env.unresolved_overlapping_read req || any_dependency env reqs

unfoldable pub pick_rw_if :
    DramSpec → Surroundings → Arbiter → BusClass → Arbiter × Option Candidate
pick_rw_if spec env before bus =
    let a = set_write_mode env before in
    let reads = pick_best_ready_from spec env a RequestQueueKind.read bus true in
    let writes = pick_best_ready_from spec env a RequestQueueKind.write bus true in
    let dependent = if any_dependency env a.write_queue then reads else none in
    (a, if a.write_mode then or_pick writes dependent else reads)

-- The last step of choose, with what the priority path returned.
abbrev pub or_ordinary :
    DramSpec → Surroundings → BusClass → Arbiter → Option Candidate → Arbiter × Option Candidate
or_ordinary spec env bus a (some c) = (a, some c)
or_ordinary spec env bus a none =
    if length a.priority_queue == 0 then pick_rw_if spec env a bus else (a, none)

abbrev pub or_later :
    DramSpec → Surroundings → BusClass → Arbiter → Option Candidate → Arbiter × Option Candidate
or_later spec env bus a (some c) = (a, some c)
or_later spec env bus a none =
    let (after, candidate) = pick_priority_if spec env a bus in
    or_ordinary spec env bus after candidate

unfoldable pub choose :
    DramSpec → Surroundings → Arbiter → BusClass → Result (Arbiter × Option Candidate)
choose spec env a bus = do
  urgent ← pick_urgent_act2 spec env a bus
  let active =
      if not (is_row bus)
      then pick_best_ready_from spec env a RequestQueueKind.active bus false
      else none
  ok (or_later spec env bus a (or_pick urgent active))
