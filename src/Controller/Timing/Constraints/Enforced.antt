-- ===== src/Controller/Timing/Constraints/Enforced.antt =====
-- What one constraint of the table writes when a command is issued.
use mathlib.Core.List.{Memᴰ}
use mem_sim.Base.{
  ℕ, ◌+◌, ◌-◌, ◌≤◌, ◌<◌, ◌≡◌, sym, inl, inr, Bool, true, false, not, ◌&&◌, List, [], ◌∷◌, arith,
  ltb, leb, ◌==◌, if◌then◌else◌, ==→eq, Bool-cases, length, modify,
}
use mem_sim.Dram.Kinds.{Command, command_index, TimingScope}
use mem_sim.Dram.Spec.{DramSpec, Organization, TimingConstraint}
use mem_sim.Dram.Address.{DecodedAddress}
use mem_sim.Controller.Timing.Scope.Bounds.{scope_index-lt-scope_count}
use mem_sim.Dram.Semantics.{lpddr_refdb_partner}
use mem_sim.Controller.Timing.Scope.{scope_index, timing_delay, sibling_range}
use mem_sim.Controller.Timing.Engine.{
  TimingScopeState, TimingEngine, scope_vector, set_scope_vector, mutable_scope, scope_state,
}
use mem_sim.Controller.Timing.Engine.Gates.{
  bucket, command_gate, Raises, IsHigher, IsSized, IsRaised-refl, IsRaised-trans, modify-IsRaised,
  scope_vector-set_scope_vector, set_scope_vector-IsHigher, IsHigher-IsSized,
}
use mem_sim.Controller.Timing.Constraints.{
  both_banks, skips, contains, update, apply_constraint, apply_all, gate,
}
use mem_sim.Controller.Timing.Constraints.Update.{
  le_trans, update-Raises, modify-gate, update_siblings-gate, update_siblings-IsRaised,
}

-- Which buckets a constraint reaches from that of `d`: its own, or its siblings.
unfoldable pub reaches : Organization → TimingConstraint → DecodedAddress → DecodedAddress → Bool
reaches o c d e =
    let (begin, end) = sibling_range o c.scope d in
    let target = scope_index o c.scope e in
    let current = scope_index o c.scope d in
    if c.sibling
    then leb begin target && ltb target end && not (target == current)
    else target == current

module _ (spec : DramSpec) (d : DecodedAddress) (issued : Command) (clk : ℕ) where
  write-IsHigher :
      (e : TimingEngine) (scope : TimingScope) (at : DecodedAddress)
      (f : TimingScopeState → TimingScopeState)
      → Raises f
      → IsHigher e (mutable_scope e spec.org scope at f)
  unfolding mutable_scope
  write-IsHigher e scope at f r =
      set_scope_vector-IsHigher e scope _
        (modify-IsRaised (scope_vector e scope) (scope_index spec.org scope at) f r)

  apply_constraint-IsHigher :
      (e : TimingEngine) (c : TimingConstraint)
      → IsHigher e (apply_constraint spec d issued clk e c)
  unfolding apply_constraint
  apply_constraint-IsHigher e c =
      let f = update c.following (clk + timing_delay spec c.latency) in
      let r = update-Raises c.following (clk + timing_delay spec c.latency) in
      elim (Bool-cases (skips c c.preceding issued)) [
        | inl y ↦ rw y (λ (s : TimingScope). IsRaised-refl (scope_vector e s))
        | inr n ↦ elim (Bool-cases c.sibling) [
          | inl y ↦
              rw (n, y)
                (set_scope_vector-IsHigher e c.scope _
                  (update_siblings-IsRaised (scope_vector e c.scope) _ _ _ f r))
          | inr alone ↦ elim (Bool-cases (both_banks spec issued c)) [
            | inl both ↦
                rw (both, n, alone)
                  (λ (s : TimingScope).
                    IsRaised-trans (write-IsHigher e c.scope d f r s)
                      (write-IsHigher _ TimingScope.bank (lpddr_refdb_partner spec.org d) f r s))
            | inr one ↦ rw (one, n, alone) (write-IsHigher e c.scope d f r)
          ]
        ]
      ]

  pub apply_all-IsHigher :
      (e : TimingEngine) (cs : List TimingConstraint)
      → IsHigher e (apply_all spec d issued clk e cs)
  unfolding apply_all
  apply_all-IsHigher e [] = λ s. IsRaised-refl _
  apply_all-IsHigher e (c ∷ cs) = λ s.
      IsRaised-trans (apply_constraint-IsHigher e c s)
        (apply_all-IsHigher (apply_constraint spec d issued clk e c) cs s)

  -- The constraint itself holds its followers back in the buckets that it reaches.
  apply_constraint-gate :
      (e : TimingEngine) (c : TimingConstraint) (cmd : Command) (other : DecodedAddress)
      → IsSized spec.org e
      → skips c c.preceding issued ≡ false
      → contains cmd c.following ≡ true
      → reaches spec.org c d other ≡ true
      → clk + timing_delay spec c.latency
        ≤ gate (apply_constraint spec d issued clk e c) spec.org c.scope other cmd
  unfolding apply_constraint mutable_scope gate scope_state reaches
  apply_constraint-gate e c cmd other s sk h r =
      let ready = clk + timing_delay spec c.latency in
      let raise = update c.following ready in
      let current = scope_index spec.org c.scope d in
      let target = scope_index spec.org c.scope other in
      let range = sibling_range spec.org c.scope d in
      let xs = scope_vector e c.scope in
      let len : target < length xs =
        rw (s.buckets c.scope) (scope_index-lt-scope_count spec.org c.scope other) in
      elim (Bool-cases c.sibling) [
        | inl y ↦
            rw (sk, y, scope_vector-set_scope_vector e c.scope)
              (update_siblings-gate c.following ready cmd xs range.0 (range.1 - range.0) current
                target h (s.tables c.scope) (ground (arith, r, y)) (ground (arith, r, y)) len
                (ground (arith, r, y)))
        | inr n ↦
            let same : target ≡ current = ==→eq target current (ground (arith, r, n)) in
            let own : ready
                ≤ command_gate
                    (bucket
                      (scope_vector (set_scope_vector e c.scope (modify xs current raise)) c.scope)
                      target)
                    (command_index cmd) =
              rw (scope_vector-set_scope_vector e c.scope, same)
                (modify-gate c.following ready cmd xs current h (s.tables c.scope)
                  (omega (arith, len, same))) in
            elim (Bool-cases (both_banks spec issued c)) [
              | inl both ↦
                  rw (both, sk, n)
                    (le_trans own (
                      (write-IsHigher (set_scope_vector e c.scope (modify xs current raise))
                          TimingScope.bank (lpddr_refdb_partner spec.org d) raise
                          (update-Raises c.following ready) c.scope).gates
                        target (command_index cmd)))
              | inr one ↦ rw (one, sk, n) own
            ]
      ]

  pub apply_all-gate :
      (e : TimingEngine) (cs : List TimingConstraint) (c : TimingConstraint) (cmd : Command)
      (other : DecodedAddress)
      → IsSized spec.org e
      → Memᴰ c cs
      → skips c c.preceding issued ≡ false
      → contains cmd c.following ≡ true
      → reaches spec.org c d other ≡ true
      → clk + timing_delay spec c.latency
        ≤ gate (apply_all spec d issued clk e cs) spec.org c.scope other cmd
  unfolding apply_all gate scope_state
  apply_all-gate e [] c cmd other s m sk co r = elim m [ ]
  apply_all-gate e (x ∷ xs) c cmd other s (Memᴰ.head h) sk co r = rw (sym h) (
      le_trans (apply_constraint-gate e c cmd other s sk co r) (
        (apply_all-IsHigher (apply_constraint spec d issued clk e c) xs c.scope).gates
          (scope_index spec.org c.scope other) (command_index cmd)))
  apply_all-gate e (x ∷ xs) c cmd other s (Memᴰ.tail m) sk co r =
      apply_all-gate (apply_constraint spec d issued clk e x) xs c cmd other
        (IsHigher-IsSized spec.org e _ (apply_constraint-IsHigher e x) s) m sk co r
