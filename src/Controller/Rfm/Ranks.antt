-- ===== src/Controller/Rfm/Ranks.antt =====
-- RfmManager::on_rfmab and the banks of a rank.
use mem_sim.Base.{
  ℕ, ◌+◌, ◌-◌, ◌*◌, ◌≤◌, ◌<◌, ◌≡◌, ap, Bool, false, arith, ◌==◌, if◌then◌else◌, length, get_or,
}
use mem_sim.Dram.Spec.{Organization, DramSpec, IsPositive}
use mem_sim.Dram.Address.{DecodedAddress, flat_bank, InRange}
use mem_sim.Dram.Address.Ranks.{
  next_digit, rank_number, rank_number-lt, clamp_below_self, max_one, get_or-modify_rank,
  next_digit,
}
use mem_sim.Controller.Rfm.{RfmManager, rank_index, rank_bank_range, on_rfmab, decrement_value}
use mem_sim.Stats.{Stats}

-- The manager holds one count and one flag for each bank of the organisation.
pub record IsSized (o : Organization) (m : RfmManager) : Type 0 where
  pub counts :
      length m.act_count_since_rfm
      ≡ o.channels * o.pseudo_channels * o.sids * o.ranks * (o.bank_groups * o.banks_per_group)
  pub flags : length m.rfm_pending_bank ≡ length m.act_count_since_rfm
  pub ranks : length m.rfm_pending_all_bank ≡ o.channels * o.pseudo_channels * o.sids * o.ranks

module _ (o : Organization) (p : IsPositive o) where
  pub rank_index-rank_number : (d : DecodedAddress) → InRange o d → rank_index o d ≡ rank_number o d
  unfolding rank_index rank_number
  rank_index-rank_number d r = rw (
    clamp_below_self d.channel o.channels r.channel,
    clamp_below_self d.pseudo_channel o.pseudo_channels r.pseudo_channel,
    clamp_below_self d.sid o.sids r.sid,
    clamp_below_self d.rank o.ranks r.rank,
    max_one o.pseudo_channels p.pseudo_channels,
    max_one o.sids p.sids,
    max_one o.ranks p.ranks,
  )

  banks_pos : 0 < o.bank_groups * o.banks_per_group
  banks_pos = grind (arith, p.bank_groups, p.banks_per_group)

  rank_range_fits :
      (m : RfmManager) (d : DecodedAddress)
      → InRange o d
      → IsSized o m
      → rank_number o d * (o.bank_groups * o.banks_per_group) + o.bank_groups * o.banks_per_group
        ≤ length m.act_count_since_rfm
  rank_range_fits m d r s =
      rw s.counts
        (next_digit (rank_number o d) _ (o.bank_groups * o.banks_per_group) (rank_number-lt o d r))

  -- The rank's range is not cut off by the end of the arrays.
  pub rank_bank_range-eq :
      (m : RfmManager) (d : DecodedAddress)
      → InRange o d
      → IsSized o m
      → rank_bank_range m o d ≡ (
        rank_number o d * (o.bank_groups * o.banks_per_group),
        rank_number o d * (o.bank_groups * o.banks_per_group) + o.bank_groups * o.banks_per_group,
      )
  unfolding rank_bank_range
  rank_bank_range-eq m d r s =
      rw (rank_index-rank_number d r, max_one (o.bank_groups * o.banks_per_group) banks_pos)
        (ap (λ (n : ℕ). (rank_number o d * (o.bank_groups * o.banks_per_group), n))
          (omega (arith, rank_range_fits m d r s)))

module _ (spec : DramSpec) (p : IsPositive spec.org) (m : RfmManager) (stats : Stats)
    (s : IsSized spec.org m) (d e : DecodedAddress) (r : InRange spec.org d)
    (q : InRange spec.org e) where
  -- Whether the bank of `e` lies in the rank of `d`.
  abbrev pub in_rank : Bool
  in_rank = rank_number spec.org e == rank_number spec.org d

  -- RFMab of a rank takes the decrement, or all there is, from the count of each bank of the rank
  -- and leaves the count of every other bank.
  pub on_rfmab-count :
      get_or (on_rfmab spec d m stats).0.act_count_since_rfm (flat_bank spec.org e) 0 ≡ (
        let count = get_or m.act_count_since_rfm (flat_bank spec.org e) 0 in
        if in_rank then count - decrement_value spec else count)
  unfolding on_rfmab
  on_rfmab-count = rw (
    rank_bank_range-eq spec.org p m d r s,
    get_or-modify_rank spec.org d e m.act_count_since_rfm (λ n. n - decrement_value spec) 0 r q
        (rank_range_fits spec.org p m d r s),
  )

  pub on_rfmab-pending :
      get_or (on_rfmab spec d m stats).0.rfm_pending_bank (flat_bank spec.org e) false
      ≡ (if in_rank then false else get_or m.rfm_pending_bank (flat_bank spec.org e) false)
  unfolding on_rfmab
  on_rfmab-pending = rw (
    rank_bank_range-eq spec.org p m d r s,
    get_or-modify_rank spec.org d e m.rfm_pending_bank (λ _. false) false r q
        (rw s.flags (rank_range_fits spec.org p m d r s)),
  )
