-- ===== src/Dram/Address/Flat.antt =====
-- DecodedAddress::flat_bank as a numbering of the banks.
use mem_sim.Base.{ℕ, ◌*◌, ◌<◌, ◌≡◌, arith, ok}
use mem_sim.Dram.Spec.{Organization, total_banks}
use mem_sim.Dram.Spec.Capacity.{total_banks_sound}
use mem_sim.Dram.Address.{DecodedAddress, flat_bank, InRange, SameBank}
use mem_sim.Base.Digits.{digit-lt, digit_unique}

abbrev bank_count : Organization → ℕ
bank_count o = o.channels * o.pseudo_channels * o.sids * o.ranks * o.bank_groups * o.banks_per_group

flat_bank-lt : (o : Organization) (d : DecodedAddress) → InRange o d → flat_bank o d < bank_count o
unfolding flat_bank
flat_bank-lt o d r =
    digit-lt
      (digit-lt (digit-lt (digit-lt (digit-lt r.channel r.pseudo_channel) r.sid) r.rank)
        r.bank_group)
      r.bank

-- Coordinates in range have a flat index below the checked count of banks.
pub flat_bank-lt-total_banks :
    (o : Organization) (d : DecodedAddress) (n : ℕ)
    → InRange o d
    → total_banks o ≡ ok n
    → flat_bank o d < n
flat_bank-lt-total_banks o d n r h = omega (arith, flat_bank-lt o d r, total_banks_sound o n h)

-- Two banks in range share a flat index only if all their bank coordinates agree.
pub flat_bank-SameBank :
    (o : Organization) (d e : DecodedAddress)
    → InRange o d
    → InRange o e
    → flat_bank o d ≡ flat_bank o e
    → SameBank d e
unfolding flat_bank
flat_bank-SameBank o d e r s h =
    let (h4, h5) = digit_unique _ _ r.bank s.bank h in
    let (h3, g4) = digit_unique _ _ r.bank_group s.bank_group h4 in
    let (h2, g3) = digit_unique _ _ r.rank s.rank h3 in
    let (h1, g2) = digit_unique _ _ r.sid s.sid h2 in
    let (g0, g1) = digit_unique _ _ r.pseudo_channel s.pseudo_channel h1 in
    record { channel = g0; pseudo_channel = g1; sid = g2; rank = g3; bank_group = g4; bank = h5 }
