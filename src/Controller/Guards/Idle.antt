-- ===== src/Controller/Guards/Idle.antt =====
-- What the tests of a rank or a channel of the controller tell of each of its banks.
use mem_sim.Base.{
  ℕ, suc, ◌+◌, ◌-◌, ◌*◌, ◌≤◌, ◌<◌, max, ◌≡◌, sym, subst, ◌∙◌, Bool, true, false, arith, length,
  any_in, any_in-get_or,
}
use mem_sim.Dram.Kinds.{Command}
use mem_sim.Dram.Spec.{DramSpec, Organization, IsPositive}
use mem_sim.Controller.Guards.Next.{refreshes_rank}
use mem_sim.Dram.Address.{clamp_below, DecodedAddress, flat_bank, InRange}
use mem_sim.Dram.Address.Ranks.{
  clamp_below_self, max_one, rank_number, in_rank_range, flat_bank-lt-banks,
}
use mem_sim.Dram.State.{closed}
use mem_sim.Controller.Executor.{BankState, Request}
use mem_sim.Controller.Executor.Moves.{initial_bank, protocol_state, state_at}
use mem_sim.Controller.Executor.Protocol.{rank_bank_range-eq}
use mem_sim.Controller.Guards.{
  channel_size, Controller, is_busy, any_bank_busy_in_rank, any_bank_busy_in_channel,
}
use mem_sim.Controller.Guards.Ready.{timing_ok, gates_ok, channel_idle_ready}

abbrev pub bank_total : Organization → ℕ
bank_total o =
    o.channels * o.pseudo_channels * o.sids * o.ranks * (o.bank_groups * o.banks_per_group)

idle-closed : (b : BankState) → is_busy b ≡ false → protocol_state b ≡ closed
unfolding is_busy protocol_state
idle-closed b h = ground (arith, h)

-- The states in which no bank of a rank, or of a channel, is busy.
abbrev pub RankIdle : DramSpec → Controller → DecodedAddress → Type 0
RankIdle spec c d =
    (e : DecodedAddress)
    → InRange spec.org e
    → rank_number spec.org e ≡ rank_number spec.org d
    → state_at c.executor.banks (flat_bank spec.org e) ≡ closed

abbrev pub ChannelIdle : DramSpec → Controller → DecodedAddress → Type 0
ChannelIdle spec c d =
    (e : DecodedAddress)
    → InRange spec.org e
    → e.channel ≡ d.channel
    → state_at c.executor.banks (flat_bank spec.org e) ≡ closed

-- Maintenance of a whole channel, in the words of the switch of timing_ok.
abbrev pub needs_idle_channel : Command → Bool
needs_idle_channel Command.mrw = true
needs_idle_channel Command.mrr = true
needs_idle_channel Command.wcktrain = true
needs_idle_channel Command.dvfs = true
needs_idle_channel Command.pde = true
needs_idle_channel Command.srefen = true
needs_idle_channel Command.eccscrub = true
needs_idle_channel _ = false

digit_between :
    {lo x hi y b : ℕ} → lo ≤ x → x < hi → y < b → (lo * b ≤ x * b + y) × (x * b + y < hi * b)
digit_between h k l = (grind arith, grind arith)

channel_range :
    (o : Organization) (e : DecodedAddress)
    → InRange o e
    → (e.channel * channel_size o ≤ flat_bank o e)
      × (flat_bank o e < e.channel * channel_size o + channel_size o)
unfolding flat_bank
channel_range o e q =
    let (l1, h1) =
      digit_between {lo = e.channel} {x = e.channel} {hi = suc e.channel} (omega arith)
        (omega arith) q.pseudo_channel in
    let (l2, h2) = digit_between l1 h1 q.sid in
    let (l3, h3) = digit_between l2 h2 q.rank in
    let (l4, h4) = digit_between l3 h3 q.bank_group in
    let (l5, h5) = digit_between l4 h4 q.bank in (omega (arith, l5), omega (arith, h5))

positive_mul : {a b : ℕ} → 0 < a → 0 < b → 0 < a * b
positive_mul h k = grind arith

channel_size-pos : (o : Organization) → IsPositive o → 0 < channel_size o
channel_size-pos o p =
    positive_mul
      (positive_mul (positive_mul (positive_mul p.pseudo_channels p.sids) p.ranks) p.bank_groups)
      p.banks_per_group

module _ (spec : DramSpec) (p : IsPositive spec.org) (c : Controller) (req : Request)
    (r : InRange spec.org req.decoded) (size : length c.executor.banks ≡ bank_total spec.org) where
  idle_rank :
      (e : DecodedAddress)
      → InRange spec.org e
      → rank_number spec.org e ≡ rank_number spec.org req.decoded
      → any_bank_busy_in_rank spec c req.decoded ≡ false
      → state_at c.executor.banks (flat_bank spec.org e) ≡ closed
  unfolding any_bank_busy_in_rank
  idle_rank e q same idle =
      let o = spec.org in
      let n = o.bank_groups * o.banks_per_group in
      let begin = rank_number o req.decoded * n in
      let quiet : any_in is_busy c.executor.banks begin (begin + n - begin) ≡ false =
        subst (λ (w : ℕ × ℕ). any_in is_busy c.executor.banks w.0 (w.1 - w.0) ≡ false)
          (rank_bank_range-eq spec p req 0 c.executor r size) idle in
      let within = in_rank_range o req.decoded e r q in
      idle-closed _ (
        any_in-get_or is_busy c.executor.banks begin _ (flat_bank o e) initial_bank quiet
          (ground (arith, within, same)) (ground (arith, within, same))
          (rw size (flat_bank-lt-banks o e q)))

  idle_channel :
      (e : DecodedAddress)
      → InRange spec.org e
      → e.channel ≡ req.decoded.channel
      → any_bank_busy_in_channel spec c req.decoded ≡ false
      → state_at c.executor.banks (flat_bank spec.org e) ≡ closed
  unfolding any_bank_busy_in_channel
  idle_channel e q same idle =
      let o = spec.org in
      let n = channel_size o in
      let (lo, hi) = channel_range o e q in
      let fits : flat_bank o e < length c.executor.banks = rw size (flat_bank-lt-banks o e q) in
      let begin-eq : clamp_below req.decoded.channel o.channels ≡ e.channel =
        clamp_below_self req.decoded.channel o.channels r.channel ∙ sym same in
      let size-eq : max 1 n ≡ n = max_one n (channel_size-pos o p) in
      idle-closed _ (
        any_in-get_or is_busy c.executor.banks _ _ (flat_bank o e) initial_bank idle
          (rw (begin-eq, size-eq) lo) (rw (begin-eq, size-eq) (omega (arith, lo, hi, fits))) fits)

  -- With positive dimensions, a bank array of the size of the organisation and an address in
  -- range, timing_ok passes REFab or RFMab only while every bank of the rank of the request is
  -- closed.
  pub rank_refresh_idle :
      (cmd : Command)
      → refreshes_rank cmd ≡ true
      → timing_ok spec c req cmd ≡ true
      → RankIdle spec c req.decoded
  unfolding timing_ok gates_ok
  rank_refresh_idle Command.refab h t e q same = idle_rank e q same (ground (arith, t))
  rank_refresh_idle Command.rfmab h t e q same = idle_rank e q same (ground (arith, t))
  rank_refresh_idle _ h t e q same = cc

  -- With positive dimensions, a bank array of the size of the organisation and an address in
  -- range, timing_ok passes MRW, MRR, WCK training, DVFS, power-down entry, self-refresh entry or
  -- ECC scrubbing only while every bank of the channel of the request is closed.
  pub channel_command_idle :
      (cmd : Command)
      → needs_idle_channel cmd ≡ true
      → timing_ok spec c req cmd ≡ true
      → ChannelIdle spec c req.decoded
  unfolding timing_ok gates_ok channel_idle_ready
  channel_command_idle Command.mrw h t e q same = idle_channel e q same (ground (arith, t))
  channel_command_idle Command.mrr h t e q same = idle_channel e q same (ground (arith, t))
  channel_command_idle Command.wcktrain h t e q same = idle_channel e q same (ground (arith, t))
  channel_command_idle Command.dvfs h t e q same = idle_channel e q same (ground (arith, t))
  channel_command_idle Command.pde h t e q same = idle_channel e q same (ground (arith, t))
  channel_command_idle Command.srefen h t e q same = idle_channel e q same (ground (arith, t))
  channel_command_idle Command.eccscrub h t e q same = idle_channel e q same (ground (arith, t))
  channel_command_idle _ h t e q same = cc
