-- ===== src/Controller/Arbiter.antt =====
-- Controller::choose and the pick functions of src/controller/controller.cpp: the candidates of a
-- bus, and the tests of one.
pub mod Choose
pub mod Issuable
pub mod Picks
use mem_sim.Base.{
  ℕ, ◌+◌, Bool, true, false, not, ◌&&◌, Option, none, some, List, [], ◌∷◌, if◌then◌else◌,
}
use mem_sim.Dram.Kinds.{RequestType, Command, BusClass, SchedulerKind, RowPolicyKind}
use mem_sim.Dram.Spec.{DramSpec}
use mem_sim.Dram.Semantics.{command_meta}
use mem_sim.Controller.Scheduler.{SchedulerCandidateView, select_scheduled_request}
use mem_sim.Controller.RowPolicy.{RowPolicyEngine}
use mem_sim.Controller.Queues.{RequestQueueKind}
use mem_sim.Controller.Executor.{Request}
use mem_sim.Controller.Guards.{Controller, is_read}
use mem_sim.Controller.Guards.Ready.{timing_ok}
use mem_sim.Controller.Guards.Next.{next_command}
use mem_sim.Controller.Guards.Bus.{bus_matches, would_close_active}

-- The options, and what the choice asks of the PHY model, of the byte ranges of the data path and of
-- the watermarks in floating point.
pub record Surroundings : Type 0 where
  pub scheduler : SchedulerKind
  pub row_policy : RowPolicyKind
  pub has_phy : Bool
  pub behavioral : Bool
  pub can_accept_command : Command → Bool
  pub can_accept_data : Command → Bool
  pub unresolved_overlapping_write : Request → Bool
  pub unresolved_overlapping_read : Request → Bool
  pub above_high : ℕ → Bool
  pub below_low : ℕ → Bool

-- The fields of Controller that the choice reads and writes.
pub record Arbiter : Type 0 where
  pub controller : Controller
  pub active_queue : List Request
  pub priority_queue : List Request
  pub read_queue : List Request
  pub write_queue : List Request
  pub row_policy : RowPolicyEngine
  pub write_mode : Bool

-- A candidate that is not valid is none.
pub record Candidate : Type 0 where
  pub index : ℕ
  pub buffer : RequestQueueKind
  pub command : Command
  pub bus : BusClass

unfoldable pub request_buffer : Arbiter → RequestQueueKind → List Request
request_buffer a RequestQueueKind.active = a.active_queue
request_buffer a RequestQueueKind.priority = a.priority_queue
request_buffer a RequestQueueKind.read = a.read_queue
request_buffer a RequestQueueKind.write = a.write_queue

abbrev pub is_write : RequestType → Bool
is_write RequestType.write = true
is_write _ = false

unfoldable pub is_data_command : Command → Bool
is_data_command cmd = (command_meta cmd).data_command

unfoldable pub candidate_eligible :
    DramSpec
    → Surroundings
    → Controller
    → Request
    → Command
    → BusClass
    → RequestQueueKind
    → Bool
    → Bool
candidate_eligible spec env c req cmd bus kind avoid_active_close =
    if env.has_phy
      && env.behavioral
      && is_read req.type
      && is_data_command cmd
      && env.unresolved_overlapping_write req
    then false
    else if is_write req.type && env.unresolved_overlapping_read req
    then false
    else if not (bus_matches spec c req cmd bus)
    then false
    else if avoid_active_close && would_close_active spec c req cmd kind
    then false
    else true

unfoldable pub phy_admission_ok : Surroundings → Command → Bool
phy_admission_ok env cmd =
    if not env.has_phy
    then true
    else if not (env.can_accept_command cmd)
    then false
    else if is_data_command cmd && not (env.can_accept_data cmd)
    then false
    else true

-- The view of one request for the scheduler.
unfoldable pub view :
    DramSpec
    → Surroundings
    → Controller
    → RequestQueueKind
    → BusClass
    → Bool
    → ℕ
    → Request
    → Command
    → SchedulerCandidateView
view spec env c kind bus avoid_active_close i req cmd =
    let eligible = candidate_eligible spec env c req cmd bus kind avoid_active_close in
    let ready = eligible && timing_ok spec c req cmd in
    record {
      request_index = i;
      arrival = req.arrival;
      command = cmd;
      eligible = if ready then phy_admission_ok env cmd else eligible;
      timing_ready = ready;
    }

abbrev pub push_view :
    Option Command
    → (Command → SchedulerCandidateView)
    → List SchedulerCandidateView
    → List SchedulerCandidateView
push_view none make rest = rest
push_view (some cmd) make rest = make cmd ∷ rest

-- The loop over a buffer, from the index `i` on.
unfoldable pub views :
    DramSpec
    → Surroundings
    → Controller
    → RequestQueueKind
    → BusClass
    → Bool
    → ℕ
    → List Request
    → List SchedulerCandidateView
views spec env c kind bus avoid i [] = []
views spec env c kind bus avoid i (req ∷ reqs) =
    push_view (next_command spec env.row_policy c req) (view spec env c kind bus avoid i req)
      (views spec env c kind bus avoid (i + 1) reqs)

abbrev pub chosen : RequestQueueKind → BusClass → Option SchedulerCandidateView → Option Candidate
chosen kind bus none = none
chosen kind bus (some v) =
    some (record { index = v.request_index; buffer = kind; command = v.command; bus = bus })

unfoldable pub pick_best_ready_from :
    DramSpec → Surroundings → Arbiter → RequestQueueKind → BusClass → Bool → Option Candidate
pick_best_ready_from spec env a kind bus avoid = chosen kind bus (
    select_scheduled_request env.scheduler
      (views spec env a.controller kind bus avoid 0 (request_buffer a kind)))
