-- ===== src/Controller/Timing/Scope.antt =====
-- The scopes of src/controller/timing.cpp: how many buckets a scope has, and which is an address's.
pub mod Bounds
use mem_sim.Base.{ℕ, ◌+◌, ◌*◌, min, max, ◌==◌, if◌then◌else◌}
use mem_sim.Dram.Kinds.{TimingScope}
use mem_sim.Dram.Spec.{Organization, DramSpec}
use mem_sim.Dram.Address.{DecodedAddress, clamp_below}

unfoldable pub scope_count : Organization → TimingScope → ℕ
scope_count o TimingScope.channel = max 1 o.channels
scope_count o TimingScope.pseudo_channel = max 1 o.channels * max 1 o.pseudo_channels
scope_count o TimingScope.sid = max 1 o.channels * max 1 o.pseudo_channels * max 1 o.sids
scope_count o TimingScope.rank =
    max 1 o.channels * max 1 o.pseudo_channels * max 1 o.sids * max 1 o.ranks
scope_count o TimingScope.bank_group =
    max 1 o.channels * max 1 o.pseudo_channels * max 1 o.sids * max 1 o.ranks * max 1 o.bank_groups
scope_count o TimingScope.bank =
    max 1 o.channels
    * max 1 o.pseudo_channels
    * max 1 o.sids
    * max 1 o.ranks
    * max 1 o.bank_groups
    * max 1 o.banks_per_group

-- One more level of the mixed-radix code.
abbrev pub next_level : ℕ → ℕ → ℕ → ℕ
next_level x dimension coordinate = x * max 1 dimension + clamp_below coordinate dimension

-- The early returns of the source, one clause each.
unfoldable pub scope_index : Organization → TimingScope → DecodedAddress → ℕ
scope_index o TimingScope.channel d = clamp_below d.channel o.channels
scope_index o TimingScope.pseudo_channel d =
    next_level (clamp_below d.channel o.channels) o.pseudo_channels d.pseudo_channel
scope_index o TimingScope.sid d =
    let x = next_level (clamp_below d.channel o.channels) o.pseudo_channels d.pseudo_channel in
    next_level x o.sids d.sid
scope_index o TimingScope.rank d =
    let x = next_level (clamp_below d.channel o.channels) o.pseudo_channels d.pseudo_channel in
    let x = next_level x o.sids d.sid in next_level x o.ranks d.rank
scope_index o TimingScope.bank_group d =
    let x = next_level (clamp_below d.channel o.channels) o.pseudo_channels d.pseudo_channel in
    let x = next_level x o.sids d.sid in
    let x = next_level x o.ranks d.rank in next_level x o.bank_groups d.bank_group
scope_index o TimingScope.bank d =
    let x = next_level (clamp_below d.channel o.channels) o.pseudo_channels d.pseudo_channel in
    let x = next_level x o.sids d.sid in
    let x = next_level x o.ranks d.rank in
    let x = next_level x o.bank_groups d.bank_group in next_level x o.banks_per_group d.bank

unfoldable pub timing_delay : DramSpec → ℕ → ℕ
timing_delay spec cycles = if cycles == 0 then 0 else cycles * max 1 spec.tick_multiplier

-- The switch of sibling_range: the first bucket under the parent, and how many there are.
unfoldable pub siblings : Organization → TimingScope → DecodedAddress → ℕ × ℕ
siblings o TimingScope.channel d = (0, max 1 o.channels)
siblings o TimingScope.pseudo_channel d =
    (scope_index o TimingScope.channel d * max 1 o.pseudo_channels, max 1 o.pseudo_channels)
siblings o TimingScope.sid d =
    (scope_index o TimingScope.pseudo_channel d * max 1 o.sids, max 1 o.sids)
siblings o TimingScope.rank d = (scope_index o TimingScope.sid d * max 1 o.ranks, max 1 o.ranks)
siblings o TimingScope.bank_group d =
    (scope_index o TimingScope.rank d * max 1 o.bank_groups, max 1 o.bank_groups)
siblings o TimingScope.bank d =
    (scope_index o TimingScope.bank_group d * max 1 o.banks_per_group, max 1 o.banks_per_group)

unfoldable pub sibling_range : Organization → TimingScope → DecodedAddress → ℕ × ℕ
sibling_range o scope d =
    let (begin, count) = siblings o scope d in
    let total = scope_count o scope in (min begin total, min (begin + count) total)
