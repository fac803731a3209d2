-- ===== src/Controller/Rfm/Counts.antt =====
-- The RFM manager over any sequence of activations and RFM commands.
use mem_sim.Dram.Spec.Validate.{validate_spec, validate_spec-IsValid}
use mem_sim.Dram.Spec.{total_banks}
use mem_sim.Dram.Spec.Capacity.{total_banks_sound}
use mem_sim.Dram.Address.Ranks.{max_one}
use native.Mathlib.Nat.{mul_assoc}
use mem_sim.Base.{
  ℕ, ◌+◌, ◌-◌, ◌*◌, ◌≤◌, ◌<◌, max, ◌≡◌, sym, ◌∙◌, Bool, true, false, not, ◌&&◌, ◌||◌, none, some,
  List, [], ◌∷◌, arith, leb, if◌then◌else◌, length, get_or, replicate, length-replicate, length-set,
  length-modify, get_or-set, get_or-modify, ok, >>=-ok, >>-ok, length-modify_range, ok-injective,
  get_or-replicate_self,
}
use mem_sim.Dram.Kinds.{rfmpb, per_bank}
use mem_sim.Dram.Spec.{Organization, DramSpec, IsPositive}
use mem_sim.Dram.Address.{DecodedAddress, flat_bank, InRange}
use mem_sim.Dram.Address.Ranks.{flat_bank-lt-banks}
use mem_sim.Controller.Rfm.{
  total_banks, validate_spec, DoubleTests, RfmManager, on_activate, on_rfmpb, on_rfmab,
  decrement_value, rank_index, rank_bank_range, reset,
}
use mem_sim.Controller.Rfm.Ranks.{IsSized, on_rfmab-count, on_rfmab-pending}
use mem_sim.Stats.{Stats}

abbrev pub count : DramSpec → RfmManager → DecodedAddress → ℕ
count spec m e = get_or m.act_count_since_rfm (flat_bank spec.org e) 0

abbrev pub pending : DramSpec → RfmManager → DecodedAddress → Bool
pending spec m e = get_or m.rfm_pending_bank (flat_bank spec.org e) false

module _ (spec : DramSpec) (m : RfmManager) (stats : Stats) (s : IsSized spec.org m)
    (d : DecodedAddress) (r : InRange spec.org d) where
  valid : flat_bank spec.org d < length m.act_count_since_rfm
  valid = rw s.counts (flat_bank-lt-banks spec.org d r)

  -- With RFM on, under the per-bank policy and with a positive threshold, an activation of a bank
  -- in range asks for RFMpb of that bank exactly when the count, this activation included, has
  -- reached the threshold and no RFMpb of the bank is outstanding; the bank is then marked
  -- outstanding, and its count grows by one in every case.
  pub on_activate_per_bank :
      spec.supports_rfm ≡ true
      → 0 < spec.rfm_act_threshold
      → spec.rfm_policy ≡ per_bank
      → let a = on_activate spec d m stats in
        let asks = leb spec.rfm_act_threshold (count spec m d + 1) && not (pending spec m d) in
        (a.command ≡ (if asks then some (record { command = rfmpb; decoded = d }) else none))
        × (count spec a.manager d ≡ count spec m d + 1)
        × (pending spec a.manager d ≡ (asks || pending spec m d))
  unfolding on_activate
  on_activate_per_bank on t policy =
      let v = valid in
      let c =
        get_or-modify m.act_count_since_rfm (flat_bank spec.org d) (flat_bank spec.org d)
          (λ n. n + 1) 0 v in
      let f =
        get_or-set m.rfm_pending_bank (flat_bank spec.org d) (flat_bank spec.org d) true false
          (rw s.flags v) in
      (ground arith, ground arith, ground arith)

-- What the executor tells the manager.
pub data Event : Type 0 where
  activated rfm_bank_done rfm_rank_done : DecodedAddress → Event

abbrev target : Event → DecodedAddress
target (activated d) = d
target (rfm_bank_done d) = d
target (rfm_rank_done d) = d

unfoldable pub step : DramSpec → Stats → RfmManager → Event → RfmManager
step spec stats m (activated d) = (on_activate spec d m stats).manager
step spec stats m (rfm_bank_done d) = (on_rfmpb spec d m stats).0
step spec stats m (rfm_rank_done d) = (on_rfmab spec d m stats).0

step-IsSized :
    (spec : DramSpec) (stats : Stats) (m : RfmManager) (ev : Event)
    → IsSized spec.org m
    → IsSized spec.org (step spec stats m ev)
unfolding step on_activate on_rfmpb on_rfmab
step-IsSized spec stats m (activated d) s = ground (
  arith,
  length-modify m.act_count_since_rfm (flat_bank spec.org d) (λ n. n + 1),
  length-set m.rfm_pending_bank (flat_bank spec.org d) true,
  length-set m.rfm_pending_all_bank (rank_index spec.org d) true,
)
step-IsSized spec stats m (rfm_bank_done d) s = ground (
  arith,
  length-modify m.act_count_since_rfm (flat_bank spec.org d) (λ n. n - decrement_value spec),
  length-set m.rfm_pending_bank (flat_bank spec.org d) false,
)
step-IsSized spec stats m (rfm_rank_done d) s = ground (
  arith,
  length-modify_range m.act_count_since_rfm (rank_bank_range m spec.org d).0
      ((rank_bank_range m spec.org d).1 - (rank_bank_range m spec.org d).0)
      (λ n. n - decrement_value spec),
  length-modify_range m.rfm_pending_bank (rank_bank_range m spec.org d).0
      ((rank_bank_range m spec.org d).1 - (rank_bank_range m spec.org d).0) (λ _. false),
  length-set m.rfm_pending_all_bank (rank_index spec.org d) false,
)

-- Where an RFMpb is outstanding the count has reached the threshold.
abbrev pub IsDue : DramSpec → RfmManager → DecodedAddress → Type 0
IsDue spec m e = pending spec m e ≡ true → spec.rfm_act_threshold ≤ count spec m e

step-IsDue :
    (spec : DramSpec) (p : IsPositive spec.org) (stats : Stats) (m : RfmManager) (ev : Event)
    (e : DecodedAddress)
    → IsSized spec.org m
    → InRange spec.org (target ev)
    → InRange spec.org e
    → IsDue spec m e
    → IsDue spec (step spec stats m ev) e
unfolding step on_activate on_rfmpb
step-IsDue spec p stats m (activated d) e s r q due = ground (
  arith,
  get_or-modify m.act_count_since_rfm (flat_bank spec.org d) (flat_bank spec.org e) (λ n. n + 1) 0,
  get_or-modify m.act_count_since_rfm (flat_bank spec.org d) (flat_bank spec.org d) (λ n. n + 1) 0,
  get_or-set m.rfm_pending_bank (flat_bank spec.org d) (flat_bank spec.org e) true false,
  s.flags,
  flat_bank-lt-banks spec.org d r,
  s.counts,
)
step-IsDue spec p stats m (rfm_bank_done d) e s r q due = ground (
  arith,
  get_or-modify m.act_count_since_rfm (flat_bank spec.org d) (flat_bank spec.org e)
      (λ n. n - decrement_value spec) 0,
  get_or-set m.rfm_pending_bank (flat_bank spec.org d) (flat_bank spec.org e) false false,
  s.flags,
  flat_bank-lt-banks spec.org d r,
  s.counts,
)
step-IsDue spec p stats m (rfm_rank_done d) e s r q due =
    ground
      (arith, on_rfmab-count spec p m stats s d e r q, on_rfmab-pending spec p m stats s d e r q)

unfoldable pub run : DramSpec → Stats → RfmManager → List Event → RfmManager
run spec stats m [] = m
run spec stats m (ev ∷ older) = step spec stats (run spec stats m older) ev

abbrev pub TargetsInRange : Organization → List Event → Type 0
TargetsInRange o [] = Unit
TargetsInRange o (ev ∷ older) = InRange o (target ev) × TargetsInRange o older

run-IsSized :
    (spec : DramSpec) (stats : Stats) (m : RfmManager) (h : List Event)
    → IsSized spec.org m
    → IsSized spec.org (run spec stats m h)
unfolding run
run-IsSized spec stats m [] s = s
run-IsSized spec stats m (ev ∷ older) s =
    step-IsSized spec stats (run spec stats m older) ev (run-IsSized spec stats m older s)

run-IsDue :
    (spec : DramSpec) (p : IsPositive spec.org) (stats : Stats) (m : RfmManager) (h : List Event)
    (e : DecodedAddress)
    → IsSized spec.org m
    → TargetsInRange spec.org h
    → InRange spec.org e
    → IsDue spec m e
    → IsDue spec (run spec stats m h) e
unfolding run
run-IsDue spec p stats m [] e s t q due = due
run-IsDue spec p stats m (ev ∷ older) e s t q due =
    step-IsDue spec p stats (run spec stats m older) ev e (run-IsSized spec stats m older s) t.0 q
      (run-IsDue spec p stats m older e s t.1 q due)

-- What reset builds.
abbrev blank : Organization → ℕ → RfmManager
blank o banks = record {
  act_count_since_rfm = replicate banks 0;
  rfm_pending_bank = replicate banks false;
  rfm_pending_all_bank =
      replicate (max 1 o.channels * max 1 o.pseudo_channels * max 1 o.sids * max 1 o.ranks) false;
}

blank-IsSized :
    (o : Organization) (p : IsPositive o) (banks : ℕ)
    → banks ≡ o.channels * o.pseudo_channels * o.sids * o.ranks * o.bank_groups * o.banks_per_group
    → IsSized o (blank o banks)
blank-IsSized o p banks size = record {
  counts = length-replicate banks 0 ∙ size ∙ mul_assoc _ o.bank_groups o.banks_per_group;
  flags = length-replicate banks false ∙ sym (length-replicate banks 0);
  ranks =
      rw
        (
          max_one o.channels p.channels,
          max_one o.pseudo_channels p.pseudo_channels,
          max_one o.sids p.sids,
          max_one o.ranks p.ranks,
        )
        (length-replicate _ false);
}

reset-IsSized :
    (tests : DoubleTests) (spec : DramSpec) (m : RfmManager)
    → reset tests spec ≡ ok m
    → IsPositive spec.org × IsSized spec.org m × ((e : DecodedAddress) → pending spec m e ≡ false)
unfolding reset
reset-IsSized tests spec m h =
    let (valid, rest) = >>-ok (validate_spec tests spec) _ h in
    let (banks, counted, made) = >>=-ok (total_banks spec.org) _ rest in
    let p = (validate_spec-IsValid tests spec valid).positive in
    let e = sym (ok-injective made) in
    (
      p,
      rw e (blank-IsSized spec.org p banks (total_banks_sound spec.org banks counted).0),
      λ d. rw e (get_or-replicate_self banks (flat_bank spec.org d) false),
    )

-- From a reset manager, after any sequence of activations and finished RFM commands in range, no
-- RFMpb is outstanding for a bank whose count is below the threshold.
pub outstanding_is_due :
    (tests : DoubleTests) (spec : DramSpec) (m : RfmManager) (stats : Stats) (h : List Event)
    (e : DecodedAddress)
    → reset tests spec ≡ ok m
    → TargetsInRange spec.org h
    → InRange spec.org e
    → pending spec (run spec stats m h) e ≡ true
    → spec.rfm_act_threshold ≤ count spec (run spec stats m h) e
outstanding_is_due tests spec m stats h e fresh t q =
    let (p, s, clear) = reset-IsSized tests spec m fresh in
    run-IsDue spec p stats m h e s t q (λ (pend : pending spec m e ≡ true). cc (clear e))
