-- ===== src/Controller/Rfm.antt =====
-- RfmManager of src/controller/rfm.cpp: activation counts, and the RFM commands that they ask for.
pub mod Ranks
pub mod Counts
use mem_sim.Base.{
  ℕ, ◌+◌, ◌-◌, ◌*◌, min, max, Bool, true, false, not, ◌||◌, Option, none, some, List, ltb, leb,
  ◌==◌, if◌then◌else◌, length, get_or, set, modify, replicate, Result, ok, ◌>>=◌, ◌>>◌,
  modify_range,
}
use mem_sim.Dram.Kinds.{Command, rfmab, rfmpb, MaintenancePolicyKind, all_bank, per_bank}
use mem_sim.Dram.Spec.{DramSpec, Organization, total_banks}
use mem_sim.Dram.Spec.Validate.{DoubleTests, validate_spec}
use mem_sim.Dram.Address.{DecodedAddress, flat_bank, clamp_below}
use mem_sim.Stats.{Stats}

pub record RfmMaintenanceCommand : Type 0 where
  pub command : Command
  pub decoded : DecodedAddress

pub record RfmManager : Type 0 where
  pub act_count_since_rfm : List ℕ
  pub rfm_pending_bank : List Bool
  pub rfm_pending_all_bank : List Bool

unfoldable pub reset : DoubleTests → DramSpec → Result RfmManager
reset tests spec = do
  validate_spec tests spec
  bank_count ← total_banks spec.org
  let rank_count =
      max 1 spec.org.channels
      * max 1 spec.org.pseudo_channels
      * max 1 spec.org.sids
      * max 1 spec.org.ranks
  ok (record {
    act_count_since_rfm = replicate bank_count 0;
    rfm_pending_bank = replicate bank_count false;
    rfm_pending_all_bank = replicate rank_count false;
  })

unfoldable pub rank_index : Organization → DecodedAddress → ℕ
rank_index o decoded =
    let channel = clamp_below decoded.channel o.channels in
    let pc = clamp_below decoded.pseudo_channel o.pseudo_channels in
    let sid = clamp_below decoded.sid o.sids in
    let rank = clamp_below decoded.rank o.ranks in
    ((channel * max 1 o.pseudo_channels + pc) * max 1 o.sids + sid) * max 1 o.ranks + rank

-- The first bank of the rank, and the first behind it.
unfoldable pub rank_bank_range : RfmManager → Organization → DecodedAddress → ℕ × ℕ
rank_bank_range m o decoded =
    let banks_per_rank = max 1 (o.bank_groups * o.banks_per_group) in
    let begin = rank_index o decoded * banks_per_rank in
    (begin, min (length m.act_count_since_rfm) (begin + banks_per_rank))

abbrev pub valid_bank : RfmManager → ℕ → Bool
valid_bank m flat = ltb flat (length m.act_count_since_rfm)

unfoldable pub decrement_value : DramSpec → ℕ
decrement_value spec =
    let fallback = if ltb 0 spec.rfm_act_threshold then spec.rfm_act_threshold else 1 in
    max 1 (if ltb 0 spec.rfm_decrement then spec.rfm_decrement else fallback)

abbrev pub is_all_bank : MaintenancePolicyKind → Bool
is_all_bank all_bank = true
is_all_bank per_bank = false

-- What on_activate returns, and the two objects that it changes.
pub record Activation : Type 0 where
  pub command : Option RfmMaintenanceCommand
  pub manager : RfmManager
  pub stats : Stats

abbrev idle : RfmManager → Stats → Activation
idle m stats = record { command = none; manager = m; stats = stats }

-- The rest of on_activate, once the count of the bank has reached the threshold.
unfoldable pub request_all_bank : DramSpec → DecodedAddress → RfmManager → Stats → Activation
request_all_bank spec decoded m stats =
    let target_rank = rank_index spec.org decoded in
    if leb (length m.rfm_pending_all_bank) target_rank
      || get_or m.rfm_pending_all_bank target_rank false
    then idle m stats
    else record {
      command = some (record { command = rfmab; decoded = decoded });
      manager = record m { rfm_pending_all_bank = set m.rfm_pending_all_bank target_rank true };
      stats = record stats {
        rfm_events = stats.rfm_events + 1;
        rfm_all_bank_events = stats.rfm_all_bank_events + 1;
      };
    }

unfoldable pub request_per_bank : DramSpec → DecodedAddress → RfmManager → Stats → Activation
request_per_bank spec decoded m stats =
    let flat = flat_bank spec.org decoded in
    if get_or m.rfm_pending_bank flat false then idle m stats else record {
      command = some (record { command = rfmpb; decoded = decoded });
      manager = record m { rfm_pending_bank = set m.rfm_pending_bank flat true };
      stats = record stats {
        rfm_events = stats.rfm_events + 1;
        rfm_per_bank_events = stats.rfm_per_bank_events + 1;
      };
    }

unfoldable pub on_activate : DramSpec → DecodedAddress → RfmManager → Stats → Activation
unfolding request_all_bank request_per_bank
on_activate spec decoded m stats =
    let flat = flat_bank spec.org decoded in
    let counted = record m {
      act_count_since_rfm = modify m.act_count_since_rfm flat (λ n. n + 1);
    } in
    if not spec.supports_rfm || spec.rfm_act_threshold == 0
    then idle m stats
    else if not (valid_bank m flat)
    then idle m stats
    else if ltb (get_or counted.act_count_since_rfm flat 0) spec.rfm_act_threshold
    then idle counted stats
    else if is_all_bank spec.rfm_policy
    then request_all_bank spec decoded counted stats
    else request_per_bank spec decoded counted stats

unfoldable pub on_rfmpb : DramSpec → DecodedAddress → RfmManager → Stats → RfmManager × Stats
on_rfmpb spec decoded m stats =
    let flat = flat_bank spec.org decoded in
    if not (valid_bank m flat) then (m, stats) else (
      record m {
        act_count_since_rfm = modify m.act_count_since_rfm flat (λ n. n - decrement_value spec);
        rfm_pending_bank = set m.rfm_pending_bank flat false;
      },
      record stats { rfm_decrements = stats.rfm_decrements + 1 },
    )

unfoldable pub on_rfmab : DramSpec → DecodedAddress → RfmManager → Stats → RfmManager × Stats
on_rfmab spec decoded m stats =
    let decrement = decrement_value spec in
    let (begin, end) = rank_bank_range m spec.org decoded in
    let target_rank = rank_index spec.org decoded in
    (
      record {
        act_count_since_rfm =
            modify_range m.act_count_since_rfm begin (end - begin) (λ n. n - decrement);
        rfm_pending_bank = modify_range m.rfm_pending_bank begin (end - begin) (λ _. false);
        rfm_pending_all_bank =
            if ltb target_rank (length m.rfm_pending_all_bank)
            then set m.rfm_pending_all_bank target_rank false
            else m.rfm_pending_all_bank;
      },
      record stats { rfm_decrements = stats.rfm_decrements + 1 },
    )
