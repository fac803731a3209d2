-- ===== src/Controller/Timing/Constraints/Update.antt =====
-- The writes of TimingEngine::apply_constraints, bucket by bucket.
use mem_sim.Base.{
  ℕ, zero, suc, ◌+◌, ◌≤◌, ◌<◌, max, ◌≡◌, refl, ◌∙◌, ◌⊎◌, inl, inr, true, false, List, [], ◌∷◌,
  arith, ◌==◌, ==→eq, ==_refl, Bool-cases, length, get_or, modify, length-modify, get_or-modify,
}
use mem_sim.Dram.Kinds.{Command, command_index, command_count}
use mem_sim.Controller.Timing.Engine.{TimingScopeState, initial_scope}
use mem_sim.Controller.Timing.Engine.Gates.{
  bucket, command_gate, Raises, IsRaised, IsRaised-refl, IsRaised-trans, modify-IsRaised,
}
use mem_sim.Controller.Timing.Constraints.{contains, update, update_siblings}

command_index-lt : (c : Command) → command_index c < command_count
command_index-lt Command.act = omega arith
command_index-lt _ = omega arith

-- What one round of update does to the table.
abbrev raised : ℕ → Command → TimingScopeState → TimingScopeState
raised ready c s = record s {
  next_command = modify s.next_command (command_index c) (λ n. max n ready);
}

gate-modify_cases :
    (xs : List ℕ) (i n ready : ℕ)
    → (get_or (modify xs i (λ m. max m ready)) n 0 ≡ max (get_or xs n 0) ready)
      ⊎ (get_or (modify xs i (λ m. max m ready)) n 0 ≡ get_or xs n 0)
gate-modify_cases [] i n ready = inr refl
gate-modify_cases (x ∷ xs) zero zero ready = inl refl
gate-modify_cases (x ∷ xs) zero (suc n) ready = inr refl
gate-modify_cases (x ∷ xs) (suc i) zero ready = inr refl
gate-modify_cases (x ∷ xs) (suc i) (suc n) ready = gate-modify_cases xs i n ready

raised-Raises : (ready : ℕ) (c : Command) → Raises (raised ready c)
raised-Raises ready c = record {
  tables = λ s. length-modify s.next_command (command_index c) (λ m. max m ready);
  gates = λ s n. elim (gate-modify_cases s.next_command (command_index c) n ready) [
    | inl h ↦ omega (arith, h)
    | inr h ↦ omega (arith, h)
  ];
}

pub update-Raises : (commands : List Command) (ready : ℕ) → Raises (update commands ready)
unfolding update
update-Raises [] ready = record { tables = λ s. refl; gates = λ s n. omega arith }
update-Raises (c ∷ cs) ready =
    let one = raised-Raises ready c in
    let rest = update-Raises cs ready in
    record {
      tables = λ s. rest.tables (raised ready c s) ∙ one.tables s;
      gates = λ s n. omega (arith, rest.gates (raised ready c s) n, one.gates s n);
    }

-- Each command of the list is held back until `ready`.
update-gate :
    (commands : List Command) (ready : ℕ) (cmd : Command) (s : TimingScopeState)
    → contains cmd commands ≡ true
    → length s.next_command ≡ command_count
    → ready ≤ command_gate (update commands ready s) (command_index cmd)
unfolding update contains
update-gate [] ready cmd s h size = cc
update-gate (c ∷ cs) ready cmd s h size = elim (Bool-cases (command_index cmd == command_index c)) [
  | inl y ↦
      let lt = command_index-lt c in
      let own =
        get_or-modify s.next_command (command_index c) (command_index cmd) (λ n. max n ready) 0
          (rw size lt) in
      let kept = (update-Raises cs ready).gates (raised ready c s) (command_index cmd) in
      ground (arith, own, kept, y)
  | inr n ↦
      update-gate cs ready cmd (raised ready c s) (ground (arith, h, n))
        ((raised-Raises ready c).tables s ∙ size)
]

pub update_siblings-IsRaised :
    (xs : List TimingScopeState) (index count current : ℕ) (f : TimingScopeState → TimingScopeState)
    → Raises f
    → IsRaised xs (update_siblings xs index count current f)
unfolding update_siblings
update_siblings-IsRaised xs index zero current f r = IsRaised-refl xs
update_siblings-IsRaised xs index (suc count) current f r = elim (Bool-cases (index == current)) [
  | inl y ↦ rw y (update_siblings-IsRaised xs (suc index) count current f r)
  | inr n ↦ rw n (
      IsRaised-trans (modify-IsRaised xs index f r)
        (update_siblings-IsRaised (modify xs index f) (suc index) count current f r))
]

pub le_trans : {a b c : ℕ} → a ≤ b → b ≤ c → a ≤ c
le_trans h k = omega arith

pub modify-gate :
    (commands : List Command) (ready : ℕ) (cmd : Command) (xs : List TimingScopeState) (j : ℕ)
    → contains cmd commands ≡ true
    → ((i : ℕ) → length (bucket xs i).next_command ≡ command_count)
    → j < length xs
    → ready ≤ command_gate (bucket (modify xs j (update commands ready)) j) (command_index cmd)
modify-gate commands ready cmd xs j h t len =
    rw (get_or-modify xs j j (update commands ready) initial_scope len, ==_refl j)
      (update-gate commands ready cmd (bucket xs j) h (t j))

-- The loop over the siblings holds every one of them back, and not the current bucket.
pub update_siblings-gate :
    (commands : List Command) (ready : ℕ) (cmd : Command) (xs : List TimingScopeState)
    (index count current j : ℕ)
    → contains cmd commands ≡ true
    → ((i : ℕ) → length (bucket xs i).next_command ≡ command_count)
    → index ≤ j
    → j < index + count
    → j < length xs
    → (j == current) ≡ false
    → ready
      ≤ command_gate
          (bucket (update_siblings xs index count current (update commands ready)) j)
          (command_index cmd)
unfolding update_siblings
update_siblings-gate commands ready cmd xs index zero current j h t lo hi len other =
    absurd (omega arith)
update_siblings-gate commands ready cmd xs index (suc count) current j h t lo hi len other =
    let f = update commands ready in
    let one = modify-IsRaised xs index f (update-Raises commands ready) in
    let later =
      update_siblings-IsRaised (modify xs j f) (suc j) count current f
        (update-Raises commands ready) in
    elim (Bool-cases (index == j)) [
      | inl y ↦
          let here : index ≡ j = ==→eq index j y in
          let apart : (index == current) ≡ false = rw here other in
          rw (apart, here)
            (le_trans (modify-gate commands ready cmd xs j h t len)
              (later.gates j (command_index cmd)))
      | inr n ↦ elim (Bool-cases (index == current)) [
        | inl y ↦ rw y (
            update_siblings-gate commands ready cmd xs (suc index) count current j h t
              (ground arith) (omega arith) len other)
        | inr away ↦ rw away (
            update_siblings-gate commands ready cmd (modify xs index f) (suc index) count current j
              h (λ i. one.tables i ∙ t i) (ground arith) (omega arith)
              (omega (arith, one.same_length)) other)
      ]
    ]
