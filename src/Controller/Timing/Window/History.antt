-- ===== src/Controller/Timing/Window/History.antt =====
-- The tFAW window of TimingEngine against the history of activations.
use mem_sim.Base.{
  ℕ, ◌≤◌, max, ◌≡◌, refl, ap, ◌∙◌, inl, inr, false, List, [], ◌∷◌, ◌++◌, arith, ltb, ◌==◌,
  if◌then◌else◌, Bool-cases, length, get_or, replicate, length-replicate, length-modify,
  get_or-modify, ok, >>-ok, length-map, get_or-map, get_or-replicate_self,
}
use mem_sim.Dram.Spec.{DramSpec}
use mem_sim.Dram.Spec.Validate.{DoubleTests, validate_spec}
use mem_sim.Dram.Address.{DecodedAddress}
use mem_sim.Controller.Timing.Scope.{scope_index, scope_count, timing_delay}
use mem_sim.Controller.Timing.Scope.Bounds.{scope_index-lt-scope_count}
use mem_sim.Controller.Timing.Engine.{TimingScopeState, TimingEngine, reset, initial_scope}
use mem_sim.Controller.Timing.Window.Within.{
  within, Ascending, Ascending-later, Ascending-snoc, prune-Ascending, within-append, within-prune,
  prune-within,
}
use mem_sim.Controller.Timing.Window.{prune, prune_recent_acts, record_activate, recent, faw_ready}

pub data Event : Type 0 where
  activated : DecodedAddress → ℕ → Event
  pruned : ℕ → Event

abbrev time : Event → ℕ
time (activated d clk) = clk
time (pruned clk) = clk

unfoldable pub step : DramSpec → TimingEngine → Event → TimingEngine
step spec e (activated d clk) = record_activate spec d clk e
step spec e (pruned clk) = prune_recent_acts spec clk e

-- The engine after a history of events, the newest first.
unfoldable pub run : DramSpec → TimingEngine → List Event → TimingEngine
run spec e [] = e
run spec e (ev ∷ older) = step spec (run spec e older) ev

-- The clocks of the events never go back, and are at most `now`.
abbrev pub InOrder : ℕ → List Event → Type 0
InOrder now [] = Unit
InOrder now (ev ∷ older) = (time ev ≤ now) × InOrder (time ev) older

-- The activations of the history in the bucket of `d`, the oldest first.
unfoldable pub acts : DramSpec → DecodedAddress → List Event → List ℕ
acts spec d [] = []
acts spec d (activated e clk ∷ older) =
    let before = acts spec d older in
    if scope_index spec.org spec.activation_scope e == scope_index spec.org spec.activation_scope d
    then before ++ clk ∷ []
    else before
acts spec d (pruned clk ∷ older) = acts spec d older

abbrev pub faw_window : DramSpec → ℕ
faw_window spec = timing_delay spec (max 1 spec.timing.n_faw)

-- What the bucket of `d` holds, against the activations of the history.
record Tracks (spec : DramSpec) (d : DecodedAddress) (e : TimingEngine) (now : ℕ) (h : List Event)
    : Type 0 where
  sized : length e.activation_scopes ≡ scope_count spec.org spec.activation_scope
  ascending : Ascending 0 now (recent spec d e)
  agree :
      (clk : ℕ)
      → now ≤ clk
      → within (faw_window spec) clk (recent spec d e)
        ≡ within (faw_window spec) clk (acts spec d h)

recent-record_activate :
    (spec : DramSpec) (d at : DecodedAddress) (clk : ℕ) (e : TimingEngine)
    → length e.activation_scopes ≡ scope_count spec.org spec.activation_scope
    → recent spec d (record_activate spec at clk e) ≡ (
        if scope_index spec.org spec.activation_scope at
          == scope_index spec.org spec.activation_scope d
        then recent spec d e ++ clk ∷ []
        else recent spec d e)
unfolding recent record_activate
recent-record_activate spec d at clk e s =
    let i = scope_index spec.org spec.activation_scope at in
    let j = scope_index spec.org spec.activation_scope d in
    ground (
      arith,
      get_or-modify e.activation_scopes i j
          (λ (x : TimingScopeState). record x { recent_acts = x.recent_acts ++ clk ∷ [] })
          initial_scope (rw s (scope_index-lt-scope_count spec.org spec.activation_scope at)),
    )

recent-prune_recent_acts :
    (spec : DramSpec) (d : DecodedAddress) (clk : ℕ) (e : TimingEngine)
    → length e.activation_scopes ≡ scope_count spec.org spec.activation_scope
    → recent spec d (prune_recent_acts spec clk e) ≡ prune (faw_window spec) clk (recent spec d e)
unfolding recent prune_recent_acts
recent-prune_recent_acts spec d clk e s =
    ap (λ (x : TimingScopeState). x.recent_acts)
      (get_or-map _ e.activation_scopes (scope_index spec.org spec.activation_scope d) initial_scope
        initial_scope (rw s (scope_index-lt-scope_count spec.org spec.activation_scope d)))

step-sized :
    (spec : DramSpec) (e : TimingEngine) (ev : Event)
    → length e.activation_scopes ≡ scope_count spec.org spec.activation_scope
    → length (step spec e ev).activation_scopes ≡ scope_count spec.org spec.activation_scope
unfolding step record_activate prune_recent_acts
step-sized spec e (activated d clk) s = length-modify e.activation_scopes _ _ ∙ s
step-sized spec e (pruned clk) s = length-map _ e.activation_scopes ∙ s

run-Tracks :
    (spec : DramSpec) (d : DecodedAddress) (e : TimingEngine) (now : ℕ) (h : List Event)
    → Tracks spec d e 0 []
    → InOrder now h
    → Tracks spec d (run spec e h) now h
unfolding run step acts
run-Tracks spec d e now [] s o = record {
  sized = s.sized;
  ascending = Ascending-later (recent spec d e) 0 0 now (omega arith) s.ascending;
  agree = λ clk le. s.agree clk (omega arith);
}
run-Tracks spec d e now (pruned clk ∷ older) s o =
    let t = run-Tracks spec d e clk older s o.1 in
    let eq = recent-prune_recent_acts spec d clk (run spec e older) t.sized in
    record {
      sized = step-sized spec (run spec e older) (pruned clk) t.sized;
      ascending = rw eq (
          Ascending-later _ 0 clk now o.0 (
            prune-Ascending (faw_window spec) clk (recent spec d (run spec e older)) 0 clk
              t.ascending));
      agree = λ c le.
          rw
            (
              eq,
              within-prune (faw_window spec) clk c (recent spec d (run spec e older))
                  (omega (arith, o.0, le)),
            )
            (t.agree c (omega (arith, o.0, le)));
    }
run-Tracks spec d e now (activated at clk ∷ older) s o =
    let t = run-Tracks spec d e clk older s o.1 in
    let r = recent spec d (run spec e older) in
    let w = faw_window spec in
    let eq = recent-record_activate spec d at clk (run spec e older) t.sized in
    let same =
      scope_index spec.org spec.activation_scope at
      == scope_index spec.org spec.activation_scope d in
    record {
      sized = step-sized spec (run spec e older) (activated at clk) t.sized;
      ascending = elim (Bool-cases same) [
        | inl y ↦
            rw (eq, y)
              (Ascending-later _ 0 clk now o.0
                (Ascending-snoc r 0 clk clk (omega arith) t.ascending))
        | inr n ↦ rw (eq, n) (Ascending-later _ 0 clk now o.0 t.ascending)
      ];
      agree = λ c le. elim (Bool-cases same) [
        | inl y ↦
            rw
              (
                eq,
                y,
                within-append w c r (clk ∷ []),
                within-append w c (acts spec d older) (clk ∷ []),
                t.agree c (omega (arith, o.0, le)),
              )
              refl
        | inr n ↦ rw (eq, n) (t.agree c (omega (arith, o.0, le)))
      ];
    }

reset-activation_scopes :
    (tests : DoubleTests) (spec : DramSpec) (e : TimingEngine)
    → reset tests spec ≡ ok e
    → e.activation_scopes ≡ replicate (scope_count spec.org spec.activation_scope) initial_scope
unfolding reset
reset-activation_scopes tests spec e h = ground (arith, >>-ok (validate_spec tests spec) _ h)

recent_empty :
    (spec : DramSpec) (e : TimingEngine) (d : DecodedAddress) (n : ℕ)
    → e.activation_scopes ≡ replicate n initial_scope
    → recent spec d e ≡ []
unfolding recent
recent_empty spec e d n eq =
    let i = scope_index spec.org spec.activation_scope d in
    ap (λ (xs : List TimingScopeState). (get_or xs i initial_scope).recent_acts) eq
    ∙ ap (λ (x : TimingScopeState). x.recent_acts) (get_or-replicate_self n i initial_scope)

reset-Tracks :
    (tests : DoubleTests) (spec : DramSpec) (e : TimingEngine) (d : DecodedAddress)
    → reset tests spec ≡ ok e
    → Tracks spec d e 0 []
unfolding acts
reset-Tracks tests spec e d h =
    let n = scope_count spec.org spec.activation_scope in
    let eq = reset-activation_scopes tests spec e h in
    let clear = recent_empty spec e d n eq in
    record {
      sized = ap length eq ∙ length-replicate n initial_scope;
      ascending = rw clear (omega arith);
      agree = λ clk le. rw clear refl;
    }

nonempty :
    (spec : DramSpec) (d : DecodedAddress) (e : TimingEngine) (clk : ℕ)
    → length e.activation_scopes ≡ scope_count spec.org spec.activation_scope
    → (length (prune_recent_acts spec clk e).activation_scopes == 0) ≡ false
unfolding prune_recent_acts
nonempty spec d e clk s = ground (
  arith,
  length-map {B = TimingScopeState}
      (λ (x : TimingScopeState). record x {
        recent_acts = prune (faw_window spec) clk x.recent_acts;
      })
      e.activation_scopes,
  scope_index-lt-scope_count spec.org spec.activation_scope d,
)

-- From a reset engine, after any history of activations and prunings whose clocks never go back,
-- pruning makes the tFAW test of an address say exactly whether fewer than four activations of its
-- bucket lie within the tFAW window that ends now.
pub faw_ready_exact :
    (tests : DoubleTests) (spec : DramSpec) (e : TimingEngine) (d : DecodedAddress) (now : ℕ)
    (h : List Event)
    → reset tests spec ≡ ok e
    → InOrder now h
    → faw_ready spec d (prune_recent_acts spec now (run spec e h))
      ≡ ltb (length (within (faw_window spec) now (acts spec d h))) 4
unfolding faw_ready
faw_ready_exact tests spec e d now h fresh o =
    let t = run-Tracks spec d e now h (reset-Tracks tests spec e d fresh) o in
    rw
      (
        nonempty spec d (run spec e h) now t.sized,
        recent-prune_recent_acts spec d now (run spec e h) t.sized,
        prune-within (faw_window spec) now (recent spec d (run spec e h)) 0 now t.ascending,
        t.agree now (omega arith),
      )
      refl
