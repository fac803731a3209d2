-- ===== src/Controller/Executor/Moves.antt =====
-- The protocol state of a bank, and what the parts of issue do to it.
use mem_sim.Base.{
  ℕ, zero, suc, ◌*◌, ◌<◌, max, ◌≡◌, refl, ◌∙◌, inl, inr, Bool, true, false, none, some, List, [],
  ◌∷◌, arith, ◌==◌, if◌then◌else◌, Bool-cases, length, get_or, modify, get_or-modify, modify_range,
}
use mem_sim.Dram.Kinds.{Command}
use mem_sim.Dram.Spec.{DramSpec, Organization, IsPositive}
use mem_sim.Dram.Address.{DecodedAddress, flat_bank}
use mem_sim.Dram.Address.Ranks.{rank_number}
use mem_sim.Dram.State.{BankProtocolState, closed, activating, opened}
use mem_sim.Controller.Executor.{
  BankState, Request, CommandExecutor, on_bank, on_col, on_bg, on_wck, on_stats,
}
use mem_sim.Controller.Executor.Parts.{
  data_scopes, extend_wck, issue_data, read_bank, write_bank, auto_precharge_bank, act_bank,
  act1_bank, act2_bank, precharge_bank, gate_bank,
}

abbrev pub initial_bank : BankState
initial_bank = record {
  open_row = none;
  next_act = 0;
  next_pre = 0;
  next_rd = 0;
  next_wr = 0;
  next_any_col = 0;
  next_act2 = 0;
  act2_deadline = 0;
  activating = false;
}

-- The state that Controller::state_ok sees.
unfoldable pub protocol_state : BankState → BankProtocolState
protocol_state b =
    if b.activating then activating else elim b.open_row [ some row ↦ opened | none ↦ closed ]

-- The state machine of one bank, of which the command is for that bank.
unfoldable pub next_state : Command → BankProtocolState → BankProtocolState
next_state Command.act activating = activating
next_state Command.act _ = opened
next_state Command.act1 s = activating
next_state Command.act2 s = opened
next_state Command.pre s = closed
next_state Command.prepb s = closed
next_state Command.preab s = closed
next_state Command.rda activating = activating
next_state Command.rda _ = closed
next_state Command.wra activating = activating
next_state Command.wra _ = closed
next_state _ s = s

-- PREab is for the banks of the rank, every other command that moves a bank for the one bank.
unfoldable pub is_for : Organization → Command → DecodedAddress → DecodedAddress → Bool
is_for o Command.preab d e = rank_number o e == rank_number o d
is_for o _ d e = flat_bank o d == flat_bank o e

abbrev pub state_at : List BankState → ℕ → BankProtocolState
state_at banks i = protocol_state (get_or banks i initial_bank)

pub one_bank :
    (banks : List BankState) (i j : ℕ) (f : BankState → BankState)
    (g : BankProtocolState → BankProtocolState)
    → i < length banks
    → ((b : BankState) → protocol_state (f b) ≡ g (protocol_state b))
    → state_at (modify banks i f) j ≡ (if i == j then g (state_at banks j) else state_at banks j)
one_bank banks i j f g h k = elim (Bool-cases (i == j)) [
  | inl y ↦ rw (get_or-modify banks i j f initial_bank h, y) (k (get_or banks j initial_bank))
  | inr n ↦ rw (get_or-modify banks i j f initial_bank h, n) refl
]

pub kept :
    (banks : List BankState) (i j : ℕ) (f : BankState → BankState)
    → ((b : BankState) → protocol_state (f b) ≡ protocol_state b)
    → state_at (modify banks i f) j ≡ state_at banks j
kept [] i j f k = refl
kept (b ∷ bs) zero zero f k = k b
kept (b ∷ bs) zero (suc j) f k = refl
kept (b ∷ bs) (suc i) zero f k = refl
kept (b ∷ bs) (suc i) (suc j) f k = kept bs i j f k

pub kept_range :
    (banks : List BankState) (begin count j : ℕ) (f : BankState → BankState)
    → ((b : BankState) → protocol_state (f b) ≡ protocol_state b)
    → state_at (modify_range banks begin count f) j ≡ state_at banks j
unfolding modify_range
kept_range banks begin zero j f k = refl
kept_range banks begin (suc count) j f k =
    kept_range (modify banks begin f) (suc begin) count j f k ∙ kept banks begin j f k

pub if_same {ℓ} : {A : Type ℓ} (b : Bool) (a : A) → a ≡ (if b then a else a)
if_same true a = refl
if_same false a = refl

pub act-state :
    (spec : DramSpec) (d : DecodedAddress) (clk : ℕ) (b : BankState)
    → protocol_state (act_bank spec d clk b) ≡ next_state Command.act (protocol_state b)
unfolding act_bank protocol_state next_state
act-state spec d clk b = ground arith

pub act1-state :
    (spec : DramSpec) (clk : ℕ) (b : BankState) → protocol_state (act1_bank spec clk b) ≡ activating
unfolding act1_bank protocol_state
act1-state spec clk b = refl

pub act2-state : (d : DecodedAddress) (b : BankState) → protocol_state (act2_bank d b) ≡ opened
unfolding act2_bank protocol_state
act2-state d b = refl

pub precharge-state :
    (spec : DramSpec) (clk : ℕ) (b : BankState)
    → protocol_state (precharge_bank spec clk b) ≡ closed
unfolding precharge_bank protocol_state
precharge-state spec clk b = refl

pub auto_precharge-state :
    (spec : DramSpec) (at : ℕ) (b : BankState)
    → protocol_state (auto_precharge_bank spec at b) ≡ next_state Command.rda (protocol_state b)
unfolding auto_precharge_bank protocol_state next_state
auto_precharge-state spec at b = ground arith

pub read-state :
    (spec : DramSpec) (clk : ℕ) (b : BankState)
    → protocol_state (read_bank spec clk b) ≡ protocol_state b
unfolding read_bank protocol_state
read-state spec clk b = refl

pub write-state :
    (spec : DramSpec) (clk : ℕ) (b : BankState)
    → protocol_state (write_bank spec clk b) ≡ protocol_state b
unfolding write_bank protocol_state
write-state spec clk b = refl

pub gate-state : (at : ℕ) (b : BankState) → protocol_state (gate_bank at b) ≡ protocol_state b
unfolding gate_bank protocol_state
gate-state at b = refl

pub closed_by_preab :
    (b : BankState) (at : ℕ)
    → protocol_state
        (record b { open_row = none; activating = false; next_act = max b.next_act at })
      ≡ closed
unfolding protocol_state
closed_by_preab b at = refl

pub banks_pos : (o : Organization) → IsPositive o → 0 < o.bank_groups * o.banks_per_group
banks_pos o p = grind (arith, p.bank_groups, p.banks_per_group)

pub later-state :
    (b : BankState) (at : ℕ)
    → protocol_state (record b { next_act = max b.next_act at }) ≡ protocol_state b
unfolding protocol_state
later-state b at = refl

extend_wck-banks :
    (spec : DramSpec) (d : DecodedAddress) (issued : Bool) (until : ℕ) (x : CommandExecutor)
    → (extend_wck spec d issued until x).banks ≡ x.banks
unfolding extend_wck on_wck on_stats
extend_wck-banks spec d issued until x = ground arith

pub issue_data-banks :
    (spec : DramSpec) (req : Request) (f : BankState → BankState) (clk until : ℕ)
    (x : CommandExecutor)
    → (issue_data spec req f clk until x).banks ≡ modify x.banks (flat_bank spec.org req.decoded) f
unfolding issue_data data_scopes on_bank on_col on_bg
issue_data-banks spec req f clk until x = extend_wck-banks spec req.decoded _ until _
