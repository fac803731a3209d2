-- ===== src/Core/AddrMap.antt =====
-- AddressMapper of src/core/addr_map.cpp: a byte address decoded into DRAM coordinates.
mod Digits
pub mod Line
pub mod Bijection
use mem_sim.Base.{ℕ, ◌/◌, ◌%◌, max, Bool, true, false, not, ◌&&◌, if◌then◌else◌}
use mem_sim.Dram.Kinds.{
  AddressMappingKind, default, ro_ba_ra_co_ch, ch_ra_ba_ro_co, ro_co_ra_ba_ch, LpddrEfficiencyMode,
}
use mem_sim.Dram.Spec.{Organization, DramSpec, transaction_bytes}
use mem_sim.Dram.Address.{DecodedAddress}

-- The digit, and what the reference argument `value` holds afterwards.
unfoldable pub take_mod : ℕ → ℕ → ℕ × ℕ
take_mod value modulus = let safe_mod = max 1 modulus in (value % safe_mod, value / safe_mod)

unfoldable pub is_normal : LpddrEfficiencyMode → Bool
is_normal LpddrEfficiencyMode.normal = true
is_normal _ = false

unfoldable pub apply_lpddr_efficiency : DramSpec → DecodedAddress → DecodedAddress
unfolding is_normal
apply_lpddr_efficiency spec d =
    if spec.lpddr_family && not (is_normal spec.lpddr_efficiency_mode)
    then record d { pseudo_channel = 0 }
    else d

-- The fields that take_bank_composite fills, and the rest of the line.
pub record BankComposite : Type 0 where
  pub bank : ℕ
  pub bank_group : ℕ
  pub pseudo_channel : ℕ
  pub sid : ℕ
  pub line : ℕ

unfoldable pub take_bank_composite : ℕ → Organization → BankComposite
take_bank_composite line o =
    let (bank, line1) = take_mod line o.banks_per_group in
    let (bank_group, line2) = take_mod line1 o.bank_groups in
    let (pseudo_channel, line3) = take_mod line2 o.pseudo_channels in
    let (sid, line4) = take_mod line3 o.sids in
    record {
      bank = bank;
      bank_group = bank_group;
      pseudo_channel = pseudo_channel;
      sid = sid;
      line = line4;
    }

abbrev pub fill : BankComposite → ℕ → ℕ → ℕ → ℕ → DecodedAddress
fill ba rank channel row column = record {
  channel = channel;
  pseudo_channel = ba.pseudo_channel;
  sid = ba.sid;
  rank = rank;
  bank_group = ba.bank_group;
  bank = ba.bank;
  row = row;
  column = column;
}

-- The switch of decode, on the transaction number.
unfoldable pub decode_line : AddressMappingKind → Organization → ℕ → DecodedAddress
unfolding take_bank_composite
decode_line default o line =
    let (column, line1) = take_mod line o.columns in
    let ba = take_bank_composite line1 o in
    let (rank, line2) = take_mod ba.line o.ranks in
    let (channel, line3) = take_mod line2 o.channels in
    let (row, line4) = take_mod line3 o.rows in fill ba rank channel row column
decode_line ro_ba_ra_co_ch o line =
    let (channel, line1) = take_mod line o.channels in
    let (column, line2) = take_mod line1 o.columns in
    let (rank, line3) = take_mod line2 o.ranks in
    let ba = take_bank_composite line3 o in
    let (row, line4) = take_mod ba.line o.rows in fill ba rank channel row column
decode_line ch_ra_ba_ro_co o line =
    let (column, line1) = take_mod line o.columns in
    let (row, line2) = take_mod line1 o.rows in
    let ba = take_bank_composite line2 o in
    let (rank, line3) = take_mod ba.line o.ranks in
    let (channel, line4) = take_mod line3 o.channels in fill ba rank channel row column
decode_line ro_co_ra_ba_ch o line =
    let (channel, line1) = take_mod line o.channels in
    let ba = take_bank_composite line1 o in
    let (rank, line2) = take_mod ba.line o.ranks in
    let (column, line3) = take_mod line2 o.columns in
    let (row, line4) = take_mod line3 o.rows in fill ba rank channel row column

unfoldable pub decode : DramSpec → ℕ → DecodedAddress
unfolding decode_line apply_lpddr_efficiency take_mod
decode spec address =
    let line = address / max 1 (transaction_bytes spec.org) in
    apply_lpddr_efficiency spec (decode_line spec.address_mapping spec.org line)
