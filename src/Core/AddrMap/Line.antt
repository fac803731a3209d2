-- ===== src/Core/AddrMap/Line.antt =====
-- The transaction number that a mapping gives to coordinates: each template read as the digits of
-- a mixed-radix number, and nothing of the decoder in it.
use mem_sim.Base.{ℕ, ◌+◌, ◌*◌}
use mem_sim.Dram.Kinds.{AddressMappingKind, default, ro_ba_ra_co_ch, ch_ra_ba_ro_co, ro_co_ra_ba_ch}
use mem_sim.Dram.Spec.{Organization}
use mem_sim.Dram.Address.{DecodedAddress}

-- `high` with the bank digits below it.
abbrev pub with_bank : Organization → DecodedAddress → ℕ → ℕ
with_bank o d high =
    (((high * o.sids + d.sid) * o.pseudo_channels + d.pseudo_channel) * o.bank_groups
        + d.bank_group)
      * o.banks_per_group
    + d.bank

unfoldable pub line_of : AddressMappingKind → Organization → DecodedAddress → ℕ
line_of default o d =
    with_bank o d ((d.row * o.channels + d.channel) * o.ranks + d.rank) * o.columns + d.column
line_of ro_ba_ra_co_ch o d =
    ((with_bank o d d.row * o.ranks + d.rank) * o.columns + d.column) * o.channels + d.channel
line_of ch_ra_ba_ro_co o d =
    (with_bank o d (d.channel * o.ranks + d.rank) * o.rows + d.row) * o.columns + d.column
line_of ro_co_ra_ba_ch o d =
    with_bank o d ((d.row * o.columns + d.column) * o.ranks + d.rank) * o.channels + d.channel

-- The number of transactions.
abbrev pub line_count : Organization → ℕ
line_count o =
    o.channels * o.pseudo_channels * o.sids * o.ranks * o.bank_groups * o.banks_per_group * o.rows
    * o.columns
