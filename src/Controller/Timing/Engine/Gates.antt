-- ===== src/Controller/Timing/Engine/Gates.antt =====
-- One engine whose gates are nowhere lower than another's, bucket by bucket.
use mem_sim.Base.{
  ℕ, zero, suc, ◌≤◌, ◌≡◌, refl, ap, ◌∙◌, ◌⊎◌, inl, inr, List, [], ◌∷◌, arith, length, get_or,
  modify, length-modify,
}
use mem_sim.Dram.Kinds.{TimingScope, command_count}
use mem_sim.Dram.Spec.{Organization}
use mem_sim.Controller.Timing.Scope.{scope_count}
use mem_sim.Controller.Timing.Engine.{
  TimingScopeState, TimingEngine, initial_scope, scope_vector, set_scope_vector,
}

abbrev pub bucket : List TimingScopeState → ℕ → TimingScopeState
bucket xs i = get_or xs i initial_scope

abbrev pub command_gate : TimingScopeState → ℕ → ℕ
command_gate s n = get_or s.next_command n 0

pub record Raises (f : TimingScopeState → TimingScopeState) : Type 0 where
  pub tables : (s : TimingScopeState) → length (f s).next_command ≡ length s.next_command
  pub gates : (s : TimingScopeState) (n : ℕ) → command_gate s n ≤ command_gate (f s) n

pub record IsRaised (xs ys : List TimingScopeState) : Type 0 where
  pub same_length : length ys ≡ length xs
  pub tables : (i : ℕ) → length (bucket ys i).next_command ≡ length (bucket xs i).next_command
  pub gates : (i n : ℕ) → command_gate (bucket xs i) n ≤ command_gate (bucket ys i) n

pub IsRaised-refl : (xs : List TimingScopeState) → IsRaised xs xs
IsRaised-refl xs = record { same_length = refl; tables = λ i. refl; gates = λ i n. omega arith }

pub IsRaised-trans :
    {xs ys zs : List TimingScopeState} → IsRaised xs ys → IsRaised ys zs → IsRaised xs zs
IsRaised-trans r s = record {
  same_length = s.same_length ∙ r.same_length;
  tables = λ i. s.tables i ∙ r.tables i;
  gates = λ i n. omega (arith, r.gates i n, s.gates i n);
}

get_or-modify_cases :
    (xs : List TimingScopeState) (i j : ℕ) (f : TimingScopeState → TimingScopeState)
    → (bucket (modify xs i f) j ≡ f (bucket xs j)) ⊎ (bucket (modify xs i f) j ≡ bucket xs j)
get_or-modify_cases [] i j f = inr refl
get_or-modify_cases (x ∷ xs) zero zero f = inl refl
get_or-modify_cases (x ∷ xs) zero (suc j) f = inr refl
get_or-modify_cases (x ∷ xs) (suc i) zero f = inr refl
get_or-modify_cases (x ∷ xs) (suc i) (suc j) f = get_or-modify_cases xs i j f

pub modify-IsRaised :
    (xs : List TimingScopeState) (i : ℕ) (f : TimingScopeState → TimingScopeState)
    → Raises f
    → IsRaised xs (modify xs i f)
modify-IsRaised xs i f r = record {
  same_length = length-modify xs i f;
  tables = λ j. elim (get_or-modify_cases xs i j f) [
    | inl h ↦ ap (λ s. length s.next_command) h ∙ r.tables (bucket xs j)
    | inr h ↦ ap (λ s. length s.next_command) h
  ];
  gates = λ j n. elim (get_or-modify_cases xs i j f) [
    | inl h ↦ rw h (r.gates (bucket xs j) n)
    | inr h ↦ rw h (omega arith)
  ];
}

-- In every scope.
abbrev pub IsHigher : TimingEngine → TimingEngine → Type 0
IsHigher e f = (s : TimingScope) → IsRaised (scope_vector e s) (scope_vector f s)

pub scope_vector-set_scope_vector :
    (e : TimingEngine) (s : TimingScope) (v : List TimingScopeState)
    → scope_vector (set_scope_vector e s v) s ≡ v
unfolding scope_vector set_scope_vector
scope_vector-set_scope_vector e TimingScope.channel v = refl
scope_vector-set_scope_vector e _ v = refl

pub set_scope_vector-IsHigher :
    (e : TimingEngine) (s : TimingScope) (v : List TimingScopeState)
    → IsRaised (scope_vector e s) v
    → IsHigher e (set_scope_vector e s v)
unfolding scope_vector set_scope_vector
set_scope_vector-IsHigher e TimingScope.channel v r TimingScope.channel = r
set_scope_vector-IsHigher e TimingScope.pseudo_channel v r TimingScope.pseudo_channel = r
set_scope_vector-IsHigher e TimingScope.sid v r TimingScope.sid = r
set_scope_vector-IsHigher e TimingScope.rank v r TimingScope.rank = r
set_scope_vector-IsHigher e TimingScope.bank_group v r TimingScope.bank_group = r
set_scope_vector-IsHigher e TimingScope.bank v r TimingScope.bank = r
set_scope_vector-IsHigher e _ v r _ = IsRaised-refl _

-- Each scope has its buckets, and each bucket a gate for every command.
pub record IsSized (o : Organization) (e : TimingEngine) : Type 0 where
  pub buckets : (s : TimingScope) → length (scope_vector e s) ≡ scope_count o s
  pub tables :
      (s : TimingScope) (i : ℕ) → length (bucket (scope_vector e s) i).next_command ≡ command_count

pub IsHigher-IsSized :
    (o : Organization) (e f : TimingEngine) → IsHigher e f → IsSized o e → IsSized o f
IsHigher-IsSized o e f h s = record {
  buckets = λ scope. (h scope).same_length ∙ s.buckets scope;
  tables = λ scope i. (h scope).tables i ∙ s.tables scope i;
}
