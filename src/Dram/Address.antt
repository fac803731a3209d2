-- ===== src/Dram/Address.antt =====
-- DecodedAddress of include/hbm_sim/core/addr_map.hpp: the coordinates of one transaction.
pub mod Flat
pub mod Ranks
use mem_sim.Base.{ℕ, ◌+◌, ◌-◌, ◌*◌, ◌<◌, min, max, ◌≡◌}
use mem_sim.Dram.Spec.{Organization}

pub record DecodedAddress : Type 0 where
  pub channel : ℕ
  pub pseudo_channel : ℕ
  pub sid : ℕ
  pub rank : ℕ
  pub bank_group : ℕ
  pub bank : ℕ
  pub row : ℕ
  pub column : ℕ

-- The bank coordinates as an index into the bank array.
unfoldable pub flat_bank : Organization → DecodedAddress → ℕ
flat_bank o d =
    let x0 = d.channel in
    let x1 = x0 * o.pseudo_channels + d.pseudo_channel in
    let x2 = x1 * o.sids + d.sid in
    let x3 = x2 * o.ranks + d.rank in
    let x4 = x3 * o.bank_groups + d.bank_group in x4 * o.banks_per_group + d.bank

-- Every coordinate lies below its dimension.
pub record InRange (o : Organization) (d : DecodedAddress) : Type 0 where
  pub channel : d.channel < o.channels
  pub pseudo_channel : d.pseudo_channel < o.pseudo_channels
  pub sid : d.sid < o.sids
  pub rank : d.rank < o.ranks
  pub bank_group : d.bank_group < o.bank_groups
  pub bank : d.bank < o.banks_per_group
  pub row : d.row < o.rows
  pub column : d.column < o.columns

-- The fields that select a bank agree.
pub record SameBank (d e : DecodedAddress) : Type 0 where
  pub channel : d.channel ≡ e.channel
  pub pseudo_channel : d.pseudo_channel ≡ e.pseudo_channel
  pub sid : d.sid ≡ e.sid
  pub rank : d.rank ≡ e.rank
  pub bank_group : d.bank_group ≡ e.bank_group
  pub bank : d.bank ≡ e.bank

-- `std::clamp(x, 0, std::max(1, n) - 1)`
abbrev pub clamp_below : ℕ → ℕ → ℕ
clamp_below x n = min x (max 1 n - 1)
