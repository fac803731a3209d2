-- ===== src/Controller/Timing/Engine.antt =====
-- The state of TimingEngine, of include/hbm_sim/controller/timing.hpp, its reset, and the access to
-- one bucket of a scope. A reference to a bucket is its scope and index here.
pub mod Gates
use mem_sim.Base.{
  ℕ, ◌*◌, ◌/◌, Bool, false, List, [], if◌then◌else◌, get_or, modify, replicate, Result, ok, ◌>>=◌,
  ◌>>◌,
}
use mem_sim.Dram.Kinds.{TimingScope, command_count}
use mem_sim.Dram.Spec.{Organization, DramSpec}
use mem_sim.Dram.Spec.Validate.{DoubleTests, validate_spec}
use mem_sim.Dram.Address.{DecodedAddress}
use mem_sim.Controller.Timing.Scope.{scope_count, scope_index}

pub record TimingScopeState : Type 0 where
  pub next_row : ℕ
  pub next_act : ℕ
  pub next_col : ℕ
  pub next_cas : ℕ
  pub wck_ready_at : ℕ
  pub wck_active_until : ℕ
  pub recent_acts : List ℕ
  pub next_command : List ℕ

abbrev pub initial_scope : TimingScopeState
initial_scope = record {
  next_row = 0;
  next_act = 0;
  next_col = 0;
  next_cas = 0;
  wck_ready_at = 0;
  wck_active_until = 0;
  recent_acts = [];
  next_command = replicate command_count 0;
}

pub record RefdbState : Type 0 where
  pub bank_count : ℕ
  pub ready : ℕ
  pub visited_pairs : List Bool

abbrev pub initial_refdb : RefdbState
initial_refdb = record { bank_count = 0; ready = 0; visited_pairs = [] }

pub record TimingEngine : Type 0 where
  pub channel_scopes : List TimingScopeState
  pub pseudo_channel_scopes : List TimingScopeState
  pub sid_scopes : List TimingScopeState
  pub rank_scopes : List TimingScopeState
  pub refdb_states : List RefdbState
  pub activation_scopes : List TimingScopeState
  pub row_scopes : List TimingScopeState
  pub column_scopes : List TimingScopeState
  pub bank_group_scopes : List TimingScopeState
  pub bank_scopes : List TimingScopeState
  pub wck_scopes : List TimingScopeState

-- `assign(scope_count(spec, scope), {})`
abbrev assigned : Organization → TimingScope → List TimingScopeState
assigned o scope = replicate (scope_count o scope) initial_scope

unfoldable pub reset : DoubleTests → DramSpec → Result TimingEngine
reset tests spec = do
  validate_spec tests spec
  let o = spec.org
  let pairs = (o.bank_groups / 2) * o.banks_per_group
  let refdb = record initial_refdb {
    visited_pairs = if spec.lpddr_dual_bank_refresh then replicate pairs false else [];
  }
  ok (record {
    channel_scopes = assigned o TimingScope.channel;
    pseudo_channel_scopes = assigned o TimingScope.pseudo_channel;
    sid_scopes = assigned o TimingScope.sid;
    rank_scopes = assigned o TimingScope.rank;
    refdb_states = replicate (scope_count o TimingScope.rank) refdb;
    activation_scopes = assigned o spec.activation_scope;
    row_scopes = assigned o spec.row_bus_scope;
    column_scopes = assigned o spec.column_bus_scope;
    bank_group_scopes = assigned o TimingScope.bank_group;
    bank_scopes = assigned o TimingScope.bank;
    wck_scopes = assigned o spec.wck_scope;
  })

unfoldable pub scope_vector : TimingEngine → TimingScope → List TimingScopeState
scope_vector e TimingScope.channel = e.channel_scopes
scope_vector e TimingScope.pseudo_channel = e.pseudo_channel_scopes
scope_vector e TimingScope.sid = e.sid_scopes
scope_vector e TimingScope.rank = e.rank_scopes
scope_vector e TimingScope.bank_group = e.bank_group_scopes
scope_vector e TimingScope.bank = e.bank_scopes

-- What is written through the reference that scope_vector returns.
unfoldable pub set_scope_vector : TimingEngine → TimingScope → List TimingScopeState → TimingEngine
set_scope_vector e TimingScope.channel v = record e { channel_scopes = v }
set_scope_vector e TimingScope.pseudo_channel v = record e { pseudo_channel_scopes = v }
set_scope_vector e TimingScope.sid v = record e { sid_scopes = v }
set_scope_vector e TimingScope.rank v = record e { rank_scopes = v }
set_scope_vector e TimingScope.bank_group v = record e { bank_group_scopes = v }
set_scope_vector e TimingScope.bank v = record e { bank_scopes = v }

unfoldable pub scope_state :
    TimingEngine → Organization → TimingScope → DecodedAddress → TimingScopeState
scope_state e o scope d = get_or (scope_vector e scope) (scope_index o scope d) initial_scope

-- A write through mutable_scope.
unfoldable pub mutable_scope :
    TimingEngine
    → Organization
    → TimingScope
    → DecodedAddress
    → (TimingScopeState → TimingScopeState)
    → TimingEngine
mutable_scope e o scope d f =
    set_scope_vector e scope (modify (scope_vector e scope) (scope_index o scope d) f)

-- The accessors that the executor reads and writes through.
unfoldable pub row_state : TimingEngine → DramSpec → DecodedAddress → TimingScopeState
row_state e spec d = get_or e.row_scopes (scope_index spec.org spec.row_bus_scope d) initial_scope

unfoldable pub column_state : TimingEngine → DramSpec → DecodedAddress → TimingScopeState
column_state e spec d =
    get_or e.column_scopes (scope_index spec.org spec.column_bus_scope d) initial_scope

unfoldable pub bank_group_state : TimingEngine → DramSpec → DecodedAddress → TimingScopeState
bank_group_state e spec d =
    get_or e.bank_group_scopes (scope_index spec.org TimingScope.bank_group d) initial_scope

unfoldable pub wck_state : TimingEngine → DramSpec → DecodedAddress → TimingScopeState
wck_state e spec d = get_or e.wck_scopes (scope_index spec.org spec.wck_scope d) initial_scope
