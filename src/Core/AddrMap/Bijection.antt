-- ===== src/Core/AddrMap/Bijection.antt =====
-- AddressMapper::decode and the numbering of the transactions.
use native.Mathlib.Nat.{div-add-mod'}
use mem_sim.Base.Digits.{digit-div}
use mem_sim.Base.{ℕ, ◌+◌, ◌*◌, ◌/◌, ◌%◌, ◌<◌, max, ◌≡◌, false, not, ◌&&◌, arith, ok}
use mem_sim.Dram.Kinds.{AddressMappingKind, default, ro_ba_ra_co_ch, ch_ra_ba_ro_co, ro_co_ra_ba_ch}
use mem_sim.Dram.Spec.{Organization, IsPositive, DramSpec, validate_organization, transaction_bytes}
use mem_sim.Dram.Spec.Capacity.{validate_organization-IsPositive}
use mem_sim.Dram.Address.{DecodedAddress, InRange}
use mem_sim.Core.AddrMap.{fill, take_mod, take_bank_composite, decode_line, decode, is_normal}
use mem_sim.Core.AddrMap.Digits.{
  max_one, div-lt, take_mod-last, take_mod-lt, take_mod-recompose, take_mod-rest-lt, take_mod-digit,
  take_mod_self,
}
use mem_sim.Core.AddrMap.Line.{line_of, line_count, with_bank}

module _ (o : Organization) (line : ℕ) (p : IsPositive o) where
  take_bank_composite-InRange :
      let ba = take_bank_composite line o in
      (ba.bank < o.banks_per_group)
      × (ba.bank_group < o.bank_groups)
      × (ba.pseudo_channel < o.pseudo_channels)
      × (ba.sid < o.sids)
  unfolding take_bank_composite
  take_bank_composite-InRange = (
    take_mod-lt _ _ p.banks_per_group,
    take_mod-lt _ _ p.bank_groups,
    take_mod-lt _ _ p.pseudo_channels,
    take_mod-lt _ _ p.sids,
  )

decode_line-InRange :
    (k : AddressMappingKind) (o : Organization) (line : ℕ)
    → IsPositive o
    → InRange o (decode_line k o line)
unfolding decode_line
decode_line-InRange default o line p =
    let ba = take_bank_composite-InRange o _ p in
    record {
      channel = take_mod-lt _ _ p.channels;
      pseudo_channel = ba.2;
      sid = ba.3;
      rank = take_mod-lt _ _ p.ranks;
      bank_group = ba.1;
      bank = ba.0;
      row = take_mod-lt _ _ p.rows;
      column = take_mod-lt _ _ p.columns;
    }
decode_line-InRange _ o line p =
    let ba = take_bank_composite-InRange o _ p in
    record {
      channel = take_mod-lt _ _ p.channels;
      pseudo_channel = ba.2;
      sid = ba.3;
      rank = take_mod-lt _ _ p.ranks;
      bank_group = ba.1;
      bank = ba.0;
      row = take_mod-lt _ _ p.rows;
      column = take_mod-lt _ _ p.columns;
    }

decode_line-line_of :
    (k : AddressMappingKind) (o : Organization) (d : DecodedAddress)
    → InRange o d
    → decode_line k o (line_of k o d) ≡ d
unfolding decode_line line_of
decode_line-line_of default o d r = simp (
  take_mod-digit _ _ _ r.column,
  take_mod-digit _ _ _ r.bank,
  take_mod-digit _ _ _ r.bank_group,
  take_mod-digit _ _ _ r.pseudo_channel,
  take_mod-digit _ _ _ r.sid,
  take_mod-digit _ _ _ r.rank,
  take_mod-digit _ _ _ r.channel,
  take_mod_self _ _ r.row,
)
decode_line-line_of _ o d r = simp (
  take_mod-digit _ _ _ r.column,
  take_mod-digit _ _ _ r.bank,
  take_mod-digit _ _ _ r.bank_group,
  take_mod-digit _ _ _ r.pseudo_channel,
  take_mod-digit _ _ _ r.sid,
  take_mod-digit _ _ _ r.rank,
  take_mod-digit _ _ _ r.channel,
  take_mod_self _ _ r.channel,
  take_mod-digit _ _ _ r.row,
  take_mod_self _ _ r.row,
)

module _ (o : Organization) (p : IsPositive o) where
  bank_rest-lt :
      (line high : ℕ)
      → line < high * o.sids * o.pseudo_channels * o.bank_groups * o.banks_per_group
      → (take_bank_composite line o).line < high
  unfolding take_bank_composite
  bank_rest-lt line high h = take_mod-rest-lt _ _ _ p.sids (
      take_mod-rest-lt _ _ _ p.pseudo_channels
        (take_mod-rest-lt _ _ _ p.bank_groups (take_mod-rest-lt _ _ _ p.banks_per_group h)))

  with_bank-composite :
      (line rank channel row column : ℕ)
      → let ba = take_bank_composite line o in
        with_bank o (fill ba rank channel row column) ba.line ≡ line
  unfolding take_bank_composite
  with_bank-composite line rank channel row column = simp (
    take_mod-recompose _ _ p.sids,
    take_mod-recompose _ _ p.pseudo_channels,
    take_mod-recompose _ _ p.bank_groups,
    take_mod-recompose _ _ p.banks_per_group,
  )

  line_of-decode_line :
      (k : AddressMappingKind) (line : ℕ)
      → line < line_count o
      → line_of k o (decode_line k o line) ≡ line
  unfolding decode_line line_of
  line_of-decode_line default line h =
      let l1 = (take_mod line o.columns).1 in
      let l2 = (take_bank_composite l1 o).line in
      let b1 = take_mod-rest-lt line _ _ p.columns (omega arith) in
      let b2 = bank_rest-lt l1 (o.rows * o.channels * o.ranks) b1 in
      let b3 = take_mod-rest-lt _ _ _ p.channels (take_mod-rest-lt l2 _ _ p.ranks b2) in
      simp (
        take_mod-last _ _ b3,
        take_mod-recompose _ _ p.channels,
        take_mod-recompose _ _ p.ranks,
        take_mod-recompose _ _ p.columns,
        take_mod-recompose _ _ p.rows,
        with_bank-composite,
      )
  line_of-decode_line ro_ba_ra_co_ch line h =
      let l1 = (take_mod line o.channels).1 in
      let l2 = (take_mod l1 o.columns).1 in
      let l3 = (take_mod l2 o.ranks).1 in
      let b1 =
        take_mod-rest-lt line
          (o.rows * o.sids * o.pseudo_channels * o.bank_groups * o.banks_per_group * o.ranks
            * o.columns)
          _ p.channels (omega arith) in
      let b3 = take_mod-rest-lt l2 _ _ p.ranks (take_mod-rest-lt l1 _ _ p.columns b1) in
      simp (
        take_mod-last _ _ (bank_rest-lt l3 o.rows b3),
        take_mod-recompose _ _ p.channels,
        take_mod-recompose _ _ p.ranks,
        take_mod-recompose _ _ p.columns,
        with_bank-composite,
      )
  line_of-decode_line ch_ra_ba_ro_co line h =
      let l1 = (take_mod line o.columns).1 in
      let l2 = (take_mod l1 o.rows).1 in
      let l3 = (take_bank_composite l2 o).line in
      let b1 =
        take_mod-rest-lt line
          (o.channels * o.ranks * o.sids * o.pseudo_channels * o.bank_groups * o.banks_per_group
            * o.rows)
          _ p.columns (omega arith) in
      let b2 = take_mod-rest-lt l1 _ _ p.rows b1 in
      let b3 = take_mod-rest-lt l3 _ _ p.ranks (bank_rest-lt l2 (o.channels * o.ranks) b2) in
      simp (
        take_mod-last _ _ b3,
        take_mod-recompose _ _ p.channels,
        take_mod-recompose _ _ p.ranks,
        take_mod-recompose _ _ p.columns,
        take_mod-recompose _ _ p.rows,
        with_bank-composite,
      )
  line_of-decode_line ro_co_ra_ba_ch line h =
      let l1 = (take_mod line o.channels).1 in
      let l2 = (take_bank_composite l1 o).line in
      let l3 = (take_mod l2 o.ranks).1 in
      let b1 =
        take_mod-rest-lt line
          (o.rows * o.columns * o.ranks * o.sids * o.pseudo_channels * o.bank_groups
            * o.banks_per_group)
          _ p.channels (omega arith) in
      let b2 =
        take_mod-rest-lt l2 _ _ p.ranks (bank_rest-lt l1 (o.rows * o.columns * o.ranks) b1) in
      simp (
        take_mod-last _ _ (take_mod-rest-lt l3 _ _ p.columns b2),
        take_mod-recompose _ _ p.channels,
        take_mod-recompose _ _ p.ranks,
        take_mod-recompose _ _ p.columns,
        with_bank-composite,
      )

-- The efficiency modes of LPDDR are off, so that decode leaves the pseudo-channel as it is.
abbrev pub IsPlain : DramSpec → Type 0
IsPlain spec = (spec.lpddr_family && not (is_normal spec.lpddr_efficiency_mode)) ≡ false

-- The address of the transaction at these coordinates.
abbrev pub address_of : DramSpec → DecodedAddress → ℕ
address_of spec d = line_of spec.address_mapping spec.org d * transaction_bytes spec.org

transaction_bytes-pos : (o : Organization) → IsPositive o → 0 < transaction_bytes o
unfolding transaction_bytes
transaction_bytes-pos o p = ground arith

decode_eq :
    (spec : DramSpec) (address : ℕ)
    → IsPlain spec
    → IsPositive spec.org
    → decode spec address
      ≡ decode_line spec.address_mapping spec.org (address / transaction_bytes spec.org)
unfolding decode
decode_eq spec address plain p = rw (plain, max_one _ (transaction_bytes-pos spec.org p))

module _ (spec : DramSpec) (valid : validate_organization spec.org ≡ ok tt) where
  -- In a device whose organisation passes the checks, every address, also one beyond the capacity,
  -- decodes to coordinates below their dimensions.
  pub decode-InRange : (address : ℕ) → InRange spec.org (decode spec address)
  unfolding decode
  decode-InRange address =
      let p = validate_organization-IsPositive spec.org valid in
      let r =
        decode_line-InRange spec.address_mapping spec.org
          (address / max 1 (transaction_bytes spec.org)) p in
      ground arith

  -- With the efficiency modes off and an organisation that passes the checks, every byte of a
  -- transaction decodes to the in-range coordinates that the transaction's address is made from,
  -- under each of the four mappings.
  pub decode-address_of :
      (d : DecodedAddress) (offset : ℕ)
      → IsPlain spec
      → InRange spec.org d
      → offset < transaction_bytes spec.org
      → decode spec (address_of spec d + offset) ≡ d
  decode-address_of d offset plain r h =
      rw
        (
          decode_eq spec _ plain (validate_organization-IsPositive spec.org valid),
          digit-div (line_of spec.address_mapping spec.org d) h,
        )
        (decode_line-line_of spec.address_mapping spec.org d r)

  -- With the efficiency modes off and an organisation that passes the checks, an address below the
  -- capacity of the device is recovered from its decoded coordinates, up to its offset in the
  -- transaction, under each of the four mappings.
  pub address_of-decode :
      (address : ℕ)
      → IsPlain spec
      → address < line_count spec.org * transaction_bytes spec.org
      → address_of spec (decode spec address) + address % transaction_bytes spec.org ≡ address
  address_of-decode address plain h =
      let p = validate_organization-IsPositive spec.org valid in
      rw
        (
          decode_eq spec address plain p,
          line_of-decode_line spec.org p spec.address_mapping (address / transaction_bytes spec.org)
              (div-lt address _ _ h),
        )
        (div-add-mod' address (transaction_bytes spec.org))
