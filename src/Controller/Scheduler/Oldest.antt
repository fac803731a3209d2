-- ===== src/Controller/Scheduler/Oldest.antt =====
-- select_scheduled_request against the oldest candidate of a list.
use mem_sim.Base.{
  ℕ, suc, ◌≤◌, ◌≡◌, refl, ◌⊎◌, inl, inr, Bool, true, false, ◌&&◌, Option, none, some, List, [], ◌∷◌,
  ◌++◌, arith, ltb, if◌then◌else◌, Bool-cases,
}
use mem_sim.Dram.Kinds.{fcfs, frfcfs}
use mem_sim.Controller.Scheduler.{
  if_ready, SchedulerCandidateView, Scan, replaces, visit, scan, select_scheduled_request,
}
use mathlib.Core.List.{append_assoc, append-nil}

abbrev Test : Type 0
Test = SchedulerCandidateView → Bool

-- Every candidate of the list that passes the test arrived at `bound` or later.
abbrev pub Since : Test → ℕ → List SchedulerCandidateView → Type 0
Since p bound [] = Unit
Since p bound (c ∷ cs) = (p c ≡ true → bound ≤ c.arrival) × Since p bound cs

abbrev pub Never : Test → List SchedulerCandidateView → Type 0
Never p [] = Unit
Never p (c ∷ cs) = (p c ≡ false) × Never p cs

-- `c` passes the test, everything before it in the queue that passes is younger, and nothing
-- behind it that passes is older.
pub record IsOldest (p : Test) (cs : List SchedulerCandidateView) (c : SchedulerCandidateView)
    : Type 0 where
  pub before : List SchedulerCandidateView
  pub after : List SchedulerCandidateView
  pub split : cs ≡ before ++ c ∷ after
  pub passes : p c ≡ true
  pub first : Since p (suc c.arrival) before
  pub oldest : Since p c.arrival after

abbrev pub Best : Test → List SchedulerCandidateView → Option SchedulerCandidateView → Type 0
Best p cs none = Never p cs
Best p cs (some c) = IsOldest p cs c

Since-append :
    (p : Test) (n : ℕ) (xs ys : List SchedulerCandidateView)
    → Since p n xs
    → Since p n ys
    → Since p n (xs ++ ys)
Since-append p n [] ys h k = k
Since-append p n (x ∷ xs) ys h k = (h.0, Since-append p n xs ys h.1 k)

Since-mono :
    (p : Test) (m n : ℕ) (xs : List SchedulerCandidateView) → m ≤ n → Since p n xs → Since p m xs
Since-mono p m n [] h k = tt
Since-mono p m n (x ∷ xs) h k = ((λ e. omega (arith, k.0 e)), Since-mono p m n xs h k.1)

Never-Since : (p : Test) (n : ℕ) (xs : List SchedulerCandidateView) → Never p xs → Since p n xs
Never-Since p n [] h = tt
Never-Since p n (x ∷ xs) h = ((λ e. cc), Never-Since p n xs h.1)

Never-append :
    (p : Test) (xs ys : List SchedulerCandidateView) → Never p xs → Never p ys → Never p (xs ++ ys)
Never-append p [] ys h k = k
Never-append p (x ∷ xs) ys h k = (h.0, Never-append p xs ys h.1 k)

-- One more candidate at the end of what was seen.
abbrev update :
    Test → Option SchedulerCandidateView → SchedulerCandidateView → Option SchedulerCandidateView
update p acc c = if p c && replaces c acc then some c else acc

update-Best :
    (p : Test) (seen : List SchedulerCandidateView) (acc : Option SchedulerCandidateView)
    (c : SchedulerCandidateView)
    → Best p seen acc
    → Best p (seen ++ c ∷ []) (update p acc c)
update-Best p seen none c h = elim (Bool-cases (p c)) [
  | inl y ↦ rw y (record {
    before = seen;
    after = [];
    split = refl;
    passes = y;
    first = Never-Since p _ seen h;
    oldest = tt;
  })
  | inr n ↦ rw n (Never-append p seen (c ∷ []) h (n, tt))
]
update-Best p seen (some b) c h = elim (Bool-cases (p c && ltb c.arrival b.arrival)) [
  | inl y ↦ rw y (record {
    before = seen;
    after = [];
    split = refl;
    passes = ground arith;
    first = rw h.split (
        Since-append p _ h.before _ (Since-mono p _ _ h.before (ground arith) h.first)
          ((λ e. ground arith), Since-mono p _ _ h.after (ground arith) h.oldest));
    oldest = tt;
  })
  | inr n ↦ rw n (record {
    before = h.before;
    after = h.after ++ c ∷ [];
    split = rw (h.split) (append_assoc h.before (b ∷ h.after) (c ∷ []));
    passes = h.passes;
    first = h.first;
    oldest = Since-append p _ h.after _ h.oldest ((λ e. ground arith), tt);
  })
]

abbrev pub is_eligible : Test
is_eligible c = c.eligible

abbrev pub is_issuable : Test
is_issuable c = c.eligible && c.timing_ready

visit_eligible :
    (s : Scan) (c : SchedulerCandidateView)
    → (visit s c).first_eligible ≡ update is_eligible s.first_eligible c
unfolding visit
visit_eligible s c = ground arith

visit_ready :
    (s : Scan) (c : SchedulerCandidateView)
    → (visit s c).first_ready ≡ update is_issuable s.first_ready c
unfolding visit
visit_ready s c = ground arith

scan-Best :
    (seen cs : List SchedulerCandidateView) (s : Scan)
    → Best is_eligible seen s.first_eligible
    → Best is_issuable seen s.first_ready
    → Best is_eligible (seen ++ cs) (scan s cs).first_eligible
      × Best is_issuable (seen ++ cs) (scan s cs).first_ready
unfolding scan
scan-Best seen [] s e r = rw (append-nil seen) (e, r)
scan-Best seen (c ∷ cs) s e r =
    let rest =
      scan-Best (seen ++ c ∷ []) cs (visit s c)
        (rw (visit_eligible s c) (update-Best is_eligible seen s.first_eligible c e))
        (rw (visit_ready s c) (update-Best is_issuable seen s.first_ready c r)) in
    rw (append_assoc seen (c ∷ []) cs) at rest

abbrev empty_scan : Scan
empty_scan = record { first_eligible = none; first_ready = none }

-- FR-FCFS returns the oldest candidate that is eligible and timing-ready, the first in the queue
-- among those of one age, and returns none only if no candidate is both.
pub frfcfs-Best :
    (cs : List SchedulerCandidateView) → Best is_issuable cs (select_scheduled_request frfcfs cs)
unfolding select_scheduled_request
frfcfs-Best cs = (scan-Best [] cs empty_scan tt tt).1

-- FCFS returns the oldest eligible candidate if it is timing-ready; if it is not, nothing is
-- returned, and no younger candidate overtakes it.
pub fcfs_in_order :
    (cs : List SchedulerCandidateView)
    → (Never is_eligible cs × (select_scheduled_request fcfs cs ≡ none))
      ⊎ ((c : SchedulerCandidateView) × IsOldest is_eligible cs c
          × (select_scheduled_request fcfs cs ≡ (if c.timing_ready then some c else none)))
unfolding select_scheduled_request
fcfs_in_order cs =
    fcfs_cases (scan empty_scan cs).first_eligible (scan-Best [] cs empty_scan tt tt).0
  where
    fcfs_cases :
        (o : Option SchedulerCandidateView)
        → Best is_eligible cs o
        → (Never is_eligible cs × (if_ready o ≡ none))
          ⊎ ((c : SchedulerCandidateView) × IsOldest is_eligible cs c
              × (if_ready o ≡ (if c.timing_ready then some c else none)))
    fcfs_cases none h = inl (h, refl)
    fcfs_cases (some c) h = inr (c, h, refl)
