-- ===== src/Controller/Refresh/Batch.antt =====
-- RefreshManager::seed_refresh_batch and the intervals of refresh.cpp.
use mem_sim.Base.{
  ℕ, ◌+◌, ◌*◌, ◌/◌, ◌%◌, max, Bool, true, false, List, [], ◌∷◌, ltb, leb, if◌then◌else◌, ℤ, upto,
  for_each,
}
use mem_sim.Dram.Kinds.{Command, refab, refpb, refdb, RefreshTemperatureMode}
use mem_sim.Dram.Spec.{DramSpec}
use mem_sim.Dram.Address.{DecodedAddress}
use mem_sim.Controller.Rfm.{is_all_bank}

pub record MaintenanceCommand : Type 0 where
  pub command : Command
  pub decoded : DecodedAddress

pub record RankRefreshState : Type 0 where
  pub next_refresh_cycle : ℕ
  pub sid_cursor : ℕ
  pub flat_bank_cursor : ℕ
  pub credit : ℤ
  pub postpone_count : ℕ
  pub pullin_count : ℕ

abbrev is_normal_temperature : RefreshTemperatureMode → Bool
is_normal_temperature RefreshTemperatureMode.normal = true
is_normal_temperature _ = false

unfoldable pub refresh_interval : DramSpec → ℕ
refresh_interval spec =
    let t = spec.timing in
    let interval =
      if is_all_bank spec.refresh_policy
      then t.n_refi
      else if ltb 0 t.n_refipb
      then t.n_refipb
      else t.n_refi in
    if is_normal_temperature spec.refresh_temperature_mode
    then interval
    else max 1 (interval / max 1 spec.refresh_high_temp_multiplier)

-- A DecodedAddress as it is constructed.
abbrev pub initial_address : DecodedAddress
initial_address = record {
  channel = 0;
  pseudo_channel = 0;
  sid = 0;
  rank = 0;
  bank_group = 0;
  bank = 0;
  row = 0;
  column = 0;
}

unfoldable pub all_bank_batch : DramSpec → ℕ → List MaintenanceCommand
all_bank_batch spec rank = for_each (upto (max 1 spec.org.pseudo_channels)) (λ pc.
    for_each (upto (max 1 spec.org.sids)) (λ sid.
      record {
        command = refab;
        decoded = record initial_address { pseudo_channel = pc; sid = sid; rank = rank };
      }
      ∷ []))

unfoldable pub positions_per_sid : DramSpec → ℕ
positions_per_sid spec =
    let bank_groups = max 1 spec.org.bank_groups in
    let banks_per_group = max 1 spec.org.banks_per_group in
    if spec.lpddr_dual_bank_refresh
    then max 1 (bank_groups / 2) * banks_per_group
    else bank_groups * banks_per_group

-- The command of one channel and pseudo-channel, at a position of the rotation.
unfoldable pub position_command : DramSpec → ℕ → ℕ → ℕ → ℕ → ℕ → MaintenanceCommand
position_command spec rank flat sid ch pc =
    let banks_per_group = max 1 spec.org.banks_per_group in
    let group = flat / banks_per_group in
    record {
      command = if spec.lpddr_dual_bank_refresh then refdb else refpb;
      decoded = record initial_address {
        channel = ch;
        pseudo_channel = pc;
        sid = sid;
        rank = rank;
        bank_group = if spec.lpddr_dual_bank_refresh then group * 2 else group;
        bank = flat % banks_per_group;
      };
    }

unfoldable pub position_batch : DramSpec → ℕ → ℕ → ℕ → List MaintenanceCommand
position_batch spec rank flat sid = for_each (upto (max 1 spec.org.channels)) (λ ch.
    for_each (upto (max 1 spec.org.pseudo_channels))
      (λ pc. position_command spec rank flat sid ch pc ∷ []))

-- The two cursors behind a batch.
unfoldable pub advance : DramSpec → RankRefreshState → RankRefreshState
advance spec s =
    let sid_count = max 1 spec.org.sids in
    let next = s.flat_bank_cursor + 1 in
    if leb (positions_per_sid spec) next
    then record s { flat_bank_cursor = 0; sid_cursor = (s.sid_cursor + 1) % sid_count }
    else record s { flat_bank_cursor = next }

unfoldable pub seed_refresh_batch :
    DramSpec → ℕ → RankRefreshState → List MaintenanceCommand × RankRefreshState
seed_refresh_batch spec rank s =
    if is_all_bank spec.refresh_policy then (all_bank_batch spec rank, s) else (
      position_batch spec rank (s.flat_bank_cursor % positions_per_sid spec)
          (s.sid_cursor % max 1 spec.org.sids),
      advance spec s,
    )
