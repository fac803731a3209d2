-- ===== src/Controller/Scheduler.antt =====
-- select_scheduled_request of src/controller/scheduler.cpp.
pub mod Oldest
use mem_sim.Base.{ℕ, Bool, true, not, ◌&&◌, Option, none, some, List, [], ◌∷◌, ltb, if◌then◌else◌}
use mem_sim.Dram.Kinds.{Command, SchedulerKind, fcfs, frfcfs}

pub record SchedulerCandidateView : Type 0 where
  pub request_index : ℕ
  pub arrival : ℕ
  pub command : Command
  pub eligible : Bool
  pub timing_ready : Bool

-- `!best.has_value() || candidate.arrival < best->arrival`
abbrev pub replaces : SchedulerCandidateView → Option SchedulerCandidateView → Bool
replaces c none = true
replaces c (some best) = ltb c.arrival best.arrival

pub record Scan : Type 0 where
  pub first_eligible : Option SchedulerCandidateView
  pub first_ready : Option SchedulerCandidateView

-- One round of the loop.
unfoldable pub visit : Scan → SchedulerCandidateView → Scan
visit s c = if not c.eligible then s else record {
  first_eligible = if replaces c s.first_eligible then some c else s.first_eligible;
  first_ready = if c.timing_ready && replaces c s.first_ready then some c else s.first_ready;
}

unfoldable pub scan : Scan → List SchedulerCandidateView → Scan
scan s [] = s
scan s (c ∷ cs) = scan (visit s c) cs

abbrev if_ready : Option SchedulerCandidateView → Option SchedulerCandidateView
if_ready none = none
if_ready (some c) = if c.timing_ready then some c else none

-- The two kinds are all there are, so the first test of the source never throws.
unfoldable pub select_scheduled_request :
    SchedulerKind → List SchedulerCandidateView → Option SchedulerCandidateView
unfolding scan visit
select_scheduled_request fcfs candidates =
    if_ready (scan (record { first_eligible = none; first_ready = none }) candidates).first_eligible
select_scheduled_request frfcfs candidates =
    (scan (record { first_eligible = none; first_ready = none }) candidates).first_ready
