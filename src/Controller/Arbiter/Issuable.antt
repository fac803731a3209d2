-- ===== src/Controller/Arbiter/Issuable.antt =====
-- Whatever choose returns has passed the tests of the controller.
use mem_sim.Base.{
  ℕ, suc, ◌+◌, ◌≡◌, refl, sym, ap, subst, ◌∙◌, inl, inr, Bool, true, false, ◌&&◌, Option, none,
  some, List, [], ◌∷◌, ◌++◌, arith, Bool-cases, get_elem?, All,
}
use mem_sim.Dram.Kinds.{Command, BusClass, SchedulerKind, fcfs, frfcfs}
use mem_sim.Dram.Spec.{DramSpec}
use mem_sim.Controller.Scheduler.{SchedulerCandidateView, select_scheduled_request}
use mem_sim.Controller.Scheduler.Oldest.{frfcfs-Best, fcfs_in_order, is_issuable, IsOldest, Best}
use mem_sim.Controller.Queues.{RequestQueueKind, is_active}
use mem_sim.Controller.Executor.{Request}
use mem_sim.Controller.Guards.{Controller}
use mem_sim.Controller.Guards.Snapshot.{state_ok}
use mem_sim.Controller.Guards.Ready.{timing_ok}
use mem_sim.Controller.Guards.Next.{next_command}
use mem_sim.Controller.Guards.Bus.{bus_matches, would_close_active}
use mem_sim.Controller.Arbiter.{
  Surroundings, Arbiter, Candidate, candidate_eligible, phy_admission_ok, pick_best_ready_from,
  view, views, push_view, chosen, request_buffer,
}

pub record IsIssuable (spec : DramSpec) (env : Surroundings) (a : Arbiter) (bus : BusClass)
    (cand : Candidate) : Type 0 where
  pub req : Request
  pub there : get_elem? (request_buffer a cand.buffer) cand.index ≡ some req
  pub asked : next_command spec env.row_policy a.controller req ≡ some cand.command
  pub ready : timing_ok spec a.controller req cand.command ≡ true
  pub legal : state_ok spec a.controller req cand.command ≡ true
  pub matches : bus_matches spec a.controller req cand.command bus ≡ true
  pub spares :
      is_active cand.buffer ≡ false
      → would_close_active spec a.controller req cand.command cand.buffer ≡ false
  pub admitted : phy_admission_ok env cand.command ≡ true

pub timing_ok-state_ok :
    (spec : DramSpec) (c : Controller) (req : Request) (cmd : Command)
    → timing_ok spec c req cmd ≡ true
    → state_ok spec c req cmd ≡ true
unfolding timing_ok
timing_ok-state_ok spec c req cmd h = ground (arith, h)

abbrev pub Picked : DramSpec → Surroundings → Arbiter → BusClass → Option Candidate → Type 0
Picked spec env a bus none = Unit
Picked spec env a bus (some c) = IsIssuable spec env a bus c

All-split {ℓ} : {A : Type ℓ} (P : A → Type 0) (xs ys : List A) (x : A) → All P (xs ++ x ∷ ys) → P x
All-split P [] ys x h = h.0
All-split P (z ∷ xs) ys x h = All-split P xs ys x h.1

selected-issuable :
    (P : SchedulerCandidateView → Type 0) (kind : SchedulerKind) (cs : List SchedulerCandidateView)
    (v : SchedulerCandidateView)
    → All P cs
    → select_scheduled_request kind cs ≡ some v
    → (is_issuable v ≡ true) × P v
selected-issuable P frfcfs cs v h e =
    let o : IsOldest is_issuable cs v =
      subst (λ (s : Option SchedulerCandidateView). Best is_issuable cs s) e (frfcfs-Best cs) in
    (o.passes, All-split P o.before o.after v (subst (λ xs. All P xs) o.split h))
selected-issuable P fcfs cs v h e = elim (fcfs_in_order cs) [
  | inl (never, n) ↦ cc
  | inr (c, o, n) ↦ elim (Bool-cases c.timing_ready) [
    | inl y ↦
        let same : c ≡ v = ground (arith, n, e, y) in
        rw (← same) (
          ground (arith, o.passes, y),
          All-split P o.before o.after c (subst (λ xs. All P xs) o.split h),
        )
    | inr m ↦ ground (arith, n, e, m)
  ]
]

module _ (spec : DramSpec) (env : Surroundings) (c : Controller) where
  pub eligible-parts :
      (req : Request) (cmd : Command) (bus : BusClass) (kind : RequestQueueKind) (avoid : Bool)
      → candidate_eligible spec env c req cmd bus kind avoid ≡ true
      → (bus_matches spec c req cmd bus ≡ true)
        × ((avoid && would_close_active spec c req cmd kind) ≡ false)
  unfolding candidate_eligible
  eligible-parts req cmd bus kind avoid h = ground (arith, h)

  -- What the view of a request in the buffer tells.
  record IsView (kind : RequestQueueKind) (bus : BusClass) (avoid : Bool) (whole : List Request)
      (v : SchedulerCandidateView) : Type 0 where
    req : Request
    there : get_elem? whole v.request_index ≡ some req
    asked : next_command spec env.row_policy c req ≡ some v.command
    tested :
        is_issuable v ≡ true
        → (candidate_eligible spec env c req v.command bus kind avoid ≡ true)
          × (timing_ok spec c req v.command ≡ true)
          × (phy_admission_ok env v.command ≡ true)

  view-IsView :
      (kind : RequestQueueKind) (bus : BusClass) (avoid : Bool) (whole : List Request) (i : ℕ)
      (req : Request) (cmd : Command)
      → get_elem? whole i ≡ some req
      → next_command spec env.row_policy c req ≡ some cmd
      → IsView kind bus avoid whole (view spec env c kind bus avoid i req cmd)
  unfolding view
  view-IsView kind bus avoid whole i req cmd there asked = record {
    req = req;
    there = there;
    asked = asked;
    tested = λ h. (ground (arith, h), ground (arith, h), ground (arith, h));
  }

  push-All :
      (P : SchedulerCandidateView → Type 0) (o : Option Command)
      (make : Command → SchedulerCandidateView) (rest : List SchedulerCandidateView)
      → ((cmd : Command) → o ≡ some cmd → P (make cmd))
      → All P rest
      → All P (push_view o make rest)
  push-All P none make rest h k = k
  push-All P (some cmd) make rest h k = (h cmd refl, k)

  views-All :
      (kind : RequestQueueKind) (bus : BusClass) (avoid : Bool) (whole reqs : List Request) (i : ℕ)
      → ((j : ℕ) → get_elem? reqs j ≡ get_elem? whole (i + j))
      → All (IsView kind bus avoid whole) (views spec env c kind bus avoid i reqs)
  unfolding views
  views-All kind bus avoid whole [] i h = tt
  views-All kind bus avoid whole (req ∷ reqs) i h =
      push-All _ (next_command spec env.row_policy c req) (view spec env c kind bus avoid i req) _
        (λ cmd e.
          view-IsView kind bus avoid whole i req cmd
            (ap (λ k. get_elem? whole k) (omega arith) ∙ sym (h 0)) e)
        (views-All kind bus avoid whole reqs (i + 1)
          (λ j. h (suc j) ∙ ap (λ k. get_elem? whole k) (omega arith)))

module _ (spec : DramSpec) (env : Surroundings) (a : Arbiter) (bus : BusClass) where
  chosen-Picked :
      (kind : RequestQueueKind) (avoid : Bool) (o : Option SchedulerCandidateView)
      → (is_active kind ≡ false → avoid ≡ true)
      → select_scheduled_request env.scheduler
          (views spec env a.controller kind bus avoid 0 (request_buffer a kind))
        ≡ o
      → Picked spec env a bus (chosen kind bus o)
  chosen-Picked kind avoid none h e = tt
  chosen-Picked kind avoid (some v) h e =
      let whole = request_buffer a kind in
      let (issuable, w) =
        selected-issuable (IsView spec env a.controller kind bus avoid whole) env.scheduler _ v
          (views-All spec env a.controller kind bus avoid whole whole 0
            (λ j. ap (λ k. get_elem? whole k) (omega arith)))
          e in
      let (eligible, ready, admitted) = w.tested issuable in
      let (matches, spares) =
        eligible-parts spec env a.controller w.req v.command bus kind avoid eligible in
      record {
        req = w.req;
        there = w.there;
        asked = w.asked;
        ready = ready;
        legal = timing_ok-state_ok spec a.controller w.req v.command ready;
        matches = matches;
        spares = λ k. ground (arith, spares, h k);
        admitted = admitted;
      }

  pub pick_best-Picked :
      (kind : RequestQueueKind) (avoid : Bool)
      → (is_active kind ≡ false → avoid ≡ true)
      → Picked spec env a bus (pick_best_ready_from spec env a kind bus avoid)
  unfolding pick_best_ready_from
  pick_best-Picked kind avoid h = chosen-Picked kind avoid _ h refl
