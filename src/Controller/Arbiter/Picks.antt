-- ===== src/Controller/Arbiter/Picks.antt =====
-- The candidates of choose, path by path.
use mem_sim.Base.{
  ℕ, suc, ◌+◌, ◌≡◌, refl, sym, ap, subst, ◌∙◌, inl, inr, Bool, true, false, not, ◌&&◌, ◌||◌, Option,
  none, some, List, [], ◌∷◌, arith, ltb, ◌==◌, if◌then◌else◌, Bool-cases, length, get_elem?, Result,
  ok, err, ◌>>=◌, throw_if, >>-ok, ok-injective, runtime_error,
}
use mem_sim.Dram.Kinds.{Command, BusClass}
use mem_sim.Dram.Spec.{DramSpec}
use mem_sim.Controller.Queues.{RequestQueueKind}
use mem_sim.Controller.Executor.{Request}
use mem_sim.Controller.Guards.{Controller, bank_of}
use mem_sim.Controller.Guards.Ready.{timing_ok}
use mem_sim.Controller.Guards.Next.{next_command}
use mem_sim.Controller.Arbiter.{
  request_buffer, Surroundings, Arbiter, Candidate, candidate_eligible, phy_admission_ok,
  pick_best_ready_from,
}
use mem_sim.Controller.Arbiter.Choose.{
  is_row, is_column, Urgent, is_urgent, is_better, wants_act2, urgent_from, urgent_candidate,
  pick_urgent_act2, head_candidate, head_of, pick_priority_if, set_write_mode, any_dependency,
  or_pick, pick_rw_if, or_ordinary, or_later, choose,
}
use mem_sim.Controller.Arbiter.Issuable.{
  timing_ok-state_ok, IsIssuable, Picked, eligible-parts, pick_best-Picked,
}

abbrev Found :
    DramSpec → Surroundings → Controller → BusClass → List Request → Option Urgent → Type 0
Found spec env c bus whole none = Unit
Found spec env c bus whole (some u) =
    (req : Request) × (get_elem? whole u.index ≡ some req) × (is_urgent spec env c bus req ≡ true)

act2_wanted : (o : Option Command) → wants_act2 o ≡ true → o ≡ some Command.act2
act2_wanted (some Command.act2) h = refl
act2_wanted (some _) h = cc
act2_wanted none h = cc

module _ (spec : DramSpec) (env : Surroundings) (c : Controller) (bus : BusClass) where
  urgent_from-Found :
      (whole reqs : List Request) (i : ℕ) (best o : Option Urgent)
      → ((j : ℕ) → get_elem? reqs j ≡ get_elem? whole (i + j))
      → Found spec env c bus whole best
      → urgent_from spec env c bus i best reqs ≡ ok o
      → Found spec env c bus whole o
  unfolding urgent_from
  urgent_from-Found whole [] i best o h f e =
      subst (λ (b : Option Urgent). Found spec env c bus whole b) (ok-injective e) f
  urgent_from-Found whole (req ∷ reqs) i best o h f e =
      let deadline = (bank_of spec c req.decoded).act2_deadline in
      let rest =
        (>>-ok
          (throw_if (wants_act2 (next_command spec env.row_policy c req) && ltb deadline c.clk)
            runtime_error)
          _ e).1 in
      urgent_from-Found whole reqs (i + 1) _ o
        (λ j. h (suc j) ∙ ap (λ k. get_elem? whole k) (omega arith))
        (elim (Bool-cases (is_urgent spec env c bus req && is_better deadline req.arrival best)) [
          | inl y ↦
              rw y (req, ap (λ k. get_elem? whole k) (omega arith) ∙ sym (h 0), ground (arith, y))
          | inr n ↦ rw n f
        ])
        rest

module _ (spec : DramSpec) (env : Surroundings) (bus : BusClass) where
  urgent-Picked :
      (a : Arbiter) (o : Option Urgent)
      → Found spec env a.controller bus a.active_queue o
      → Picked spec env a bus (urgent_candidate bus o)
  unfolding is_urgent request_buffer
  urgent-Picked a none f = tt
  urgent-Picked a (some u) (req, there, h) =
      let eligible : candidate_eligible spec env a.controller req Command.act2 bus
            RequestQueueKind.active false
          ≡ true =
        ground (arith, h) in
      record {
        req = req;
        there = there;
        asked = act2_wanted _ (ground (arith, h));
        ready = ground (arith, h);
        legal = timing_ok-state_ok spec a.controller req Command.act2 (ground (arith, h));
        matches =
            (eligible-parts spec env a.controller req Command.act2 bus RequestQueueKind.active false
              eligible).0;
        spares = λ k. cc;
        admitted = ground (arith, h);
      }

  urgent_result-Picked :
      (a : Arbiter) (o : Option Candidate) (r : Result (Option Urgent))
      → urgent_from spec env a.controller bus 0 none a.active_queue ≡ r
      → (r >>= λ best. ok (urgent_candidate bus best)) ≡ ok o
      → Picked spec env a bus o
  urgent_result-Picked a o (err what) h e = cc
  urgent_result-Picked a o (ok best) h e =
      let found =
        urgent_from-Found spec env a.controller bus a.active_queue a.active_queue 0 none best
          (λ j. ap (λ k. get_elem? a.active_queue k) (omega arith)) tt h in
      subst (λ (p : Option Candidate). Picked spec env a bus p) (ok-injective e)
        (urgent-Picked a best found)

  pick_urgent_act2-Picked :
      (a : Arbiter) (o : Option Candidate)
      → pick_urgent_act2 spec env a bus ≡ ok o
      → Picked spec env a bus o
  unfolding pick_urgent_act2
  pick_urgent_act2-Picked a o e = elim (Bool-cases (not spec.split_activate || is_column bus)) [
    | inl y ↦ let nothing : o ≡ none = ground (arith, e, y) in rw nothing tt
    | inr n ↦ urgent_result-Picked a o _ refl (
        subst
          (λ (b : Bool).
            (if b
              then ok none
              else urgent_from spec env a.controller bus 0 none a.active_queue >>= λ best.
                  ok (urgent_candidate bus best))
            ≡ ok o)
          n e)
  ]

  head-Picked :
      (a : Arbiter) (queue : List Request) (req : Request) (o : Option Command)
      → a.priority_queue ≡ req ∷ queue
      → next_command spec env.row_policy a.controller req ≡ o
      → Picked spec env a bus (head_candidate spec env a.controller bus req o)
  unfolding head_candidate request_buffer
  head-Picked a queue req none h e = tt
  head-Picked a queue req (some cmd) h e =
      let eligible =
        candidate_eligible spec env a.controller req cmd bus RequestQueueKind.priority true in
      let ready = timing_ok spec a.controller req cmd in
      elim (Bool-cases (not eligible || not ready || not (phy_admission_ok env cmd))) [
        | inl y ↦ rw y tt
        | inr n ↦
            let (matches, spares) =
              eligible-parts spec env a.controller req cmd bus RequestQueueKind.priority true
                (ground (arith, n)) in
            rw n (record {
              req = req;
              there = ap (λ q. get_elem? q 0) h;
              asked = e;
              ready = ground (arith, n);
              legal = timing_ok-state_ok spec a.controller req cmd (ground (arith, n));
              matches = matches;
              spares = λ k. spares;
              admitted = ground (arith, n);
            })
      ]

  head_of-Picked :
      (a : Arbiter) (queue : List Request)
      → a.priority_queue ≡ queue
      → Picked spec env a bus (head_of spec env a.controller bus queue)
  unfolding head_of
  head_of-Picked a [] h = tt
  head_of-Picked a (req ∷ queue) h = head-Picked a queue req _ h refl

  pick_priority_if-Picked :
      (a : Arbiter)
      → let (after, o) = pick_priority_if spec env a bus in Picked spec env after bus o
  unfolding pick_priority_if
  pick_priority_if-Picked a = head_of-Picked _ _ refl

  or_pick-Picked :
      (a : Arbiter) (o p : Option Candidate)
      → Picked spec env a bus o
      → Picked spec env a bus p
      → Picked spec env a bus (or_pick o p)
  or_pick-Picked a none p h k = k
  or_pick-Picked a (some c) p h k = h

  if-Picked :
      (a : Arbiter) (b : Bool) (o p : Option Candidate)
      → Picked spec env a bus o
      → Picked spec env a bus p
      → Picked spec env a bus (if b then o else p)
  if-Picked a true o p h k = h
  if-Picked a false o p h k = k

  pick_rw_if-Picked :
      (a : Arbiter) → let (after, o) = pick_rw_if spec env a bus in Picked spec env after bus o
  unfolding pick_rw_if
  pick_rw_if-Picked a =
      let after = set_write_mode env a in
      let reads = pick_best-Picked spec env after bus RequestQueueKind.read true (λ h. refl) in
      let writes = pick_best-Picked spec env after bus RequestQueueKind.write true (λ h. refl) in
      if-Picked after after.write_mode _ _
        (or_pick-Picked after _ _ writes
          (if-Picked after (any_dependency env after.write_queue) _ _ reads tt))
        reads

  or_ordinary-Picked :
      (a : Arbiter) (o : Option Candidate)
      → Picked spec env a bus o
      → let (after, p) = or_ordinary spec env bus a o in Picked spec env after bus p
  or_ordinary-Picked a (some c) h = h
  or_ordinary-Picked a none h = elim (Bool-cases (length a.priority_queue == 0)) [
    | inl y ↦ rw y (pick_rw_if-Picked a)
    | inr n ↦ rw n tt
  ]

  or_later-Picked :
      (a : Arbiter) (o : Option Candidate)
      → Picked spec env a bus o
      → let (after, p) = or_later spec env bus a o in Picked spec env after bus p
  or_later-Picked a (some c) h = h
  or_later-Picked a none h = or_ordinary-Picked _ _ (pick_priority_if-Picked a)

  choose_result-Picked :
      (a after : Arbiter) (o : Option Candidate) (r : Result (Option Candidate))
      → pick_urgent_act2 spec env a bus ≡ r
      → (r >>= λ urgent. ok (
          or_later spec env bus a (
            or_pick urgent (
              if not (is_row bus)
              then pick_best_ready_from spec env a RequestQueueKind.active bus false
              else none))))
        ≡ ok (after, o)
      → Picked spec env after bus o
  choose_result-Picked a after o (err what) h e = cc
  choose_result-Picked a after o (ok urgent) h e =
      subst (λ (p : Arbiter × Option Candidate). Picked spec env p.0 bus p.1) (ok-injective e)
        (or_later-Picked a _ (
          or_pick-Picked a urgent _ (pick_urgent_act2-Picked a urgent h) (
            if-Picked a (not (is_row bus)) _ none
              (pick_best-Picked spec env a bus RequestQueueKind.active false (λ k. cc)) tt)))

  -- Whatever choose returns is the next command of the request at the index it names in the queue
  -- it names, has passed timing_ok and with it the state machine, matches the bus that was asked
  -- for, is admitted by the PHY, and, unless it is from the active queue, would not close a bank
  -- with active requests.
  pub choose-IsIssuable :
      (a after : Arbiter) (cand : Candidate)
      → choose spec env a bus ≡ ok (after, some cand)
      → IsIssuable spec env after bus cand
  unfolding choose
  choose-IsIssuable a after cand h = choose_result-Picked a after (some cand) _ refl h
