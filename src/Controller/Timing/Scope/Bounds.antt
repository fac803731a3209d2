-- ===== src/Controller/Timing/Scope/Bounds.antt =====
-- TimingEngine::scope_index against scope_count.
use mem_sim.Base.{ℕ, ◌*◌, ◌<◌, max, arith}
use mem_sim.Base.Digits.{digit-lt}
use mem_sim.Dram.Kinds.{TimingScope}
use mem_sim.Dram.Spec.{Organization}
use mem_sim.Dram.Address.{DecodedAddress, clamp_below}
use mem_sim.Controller.Timing.Scope.{scope_count, scope_index, next_level}

clamp_below-lt : (x n : ℕ) → clamp_below x n < max 1 n
clamp_below-lt x n = omega arith

next_level-lt : {x n : ℕ} (d c : ℕ) → x < n → next_level x d c < n * max 1 d
next_level-lt d c h = digit-lt h (clamp_below-lt c d)

module _ (o : Organization) (d : DecodedAddress) where
  pseudo_channel-lt :
      scope_index o TimingScope.pseudo_channel d < scope_count o TimingScope.pseudo_channel
  unfolding scope_index scope_count
  pseudo_channel-lt =
      next_level-lt o.pseudo_channels d.pseudo_channel (clamp_below-lt d.channel o.channels)

  sid-lt : scope_index o TimingScope.sid d < scope_count o TimingScope.sid
  unfolding scope_index scope_count
  sid-lt = next_level-lt o.sids d.sid pseudo_channel-lt

  rank-lt : scope_index o TimingScope.rank d < scope_count o TimingScope.rank
  unfolding scope_index scope_count
  rank-lt = next_level-lt o.ranks d.rank sid-lt

  bank_group-lt : scope_index o TimingScope.bank_group d < scope_count o TimingScope.bank_group
  unfolding scope_index scope_count
  bank_group-lt = next_level-lt o.bank_groups d.bank_group rank-lt

-- The bucket of any address, in range or not, exists in every scope.
pub scope_index-lt-scope_count :
    (o : Organization) (scope : TimingScope) (d : DecodedAddress)
    → scope_index o scope d < scope_count o scope
unfolding scope_index scope_count
scope_index-lt-scope_count o TimingScope.channel d = clamp_below-lt d.channel o.channels
scope_index-lt-scope_count o TimingScope.pseudo_channel d = pseudo_channel-lt o d
scope_index-lt-scope_count o TimingScope.sid d = sid-lt o d
scope_index-lt-scope_count o TimingScope.rank d = rank-lt o d
scope_index-lt-scope_count o TimingScope.bank_group d = bank_group-lt o d
scope_index-lt-scope_count o TimingScope.bank d =
    next_level-lt o.banks_per_group d.bank (bank_group-lt o d)
