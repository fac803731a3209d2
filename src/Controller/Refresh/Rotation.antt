-- ===== src/Controller/Refresh/Rotation.antt =====
-- The rotation of per-bank refresh over the banks of a rank.
use mem_sim.Base.{
  ℕ, zero, suc, ◌+◌, ◌-◌, ◌*◌, ◌%◌, ◌<◌, max, ◌≡◌, refl, sym, ap, ◌∙◌, inl, inr, true, false, List,
  arith, ltb, leb, ◌==◌, if◌then◌else◌, ==→eq, Bool-cases, upto, Memᴰ-for_each, Memᴰ-range_from,
}
use mem_sim.Base.Digits.{digit_unique, digit-div, digit-mod, digit-lt}
use mathlib.Core.List.{Memᴰ}
use native.Mathlib.Nat.{zero-add, mod-eq_of_lt, mod_self}
use mem_sim.Dram.Kinds.{refpb}
use mem_sim.Dram.Spec.{DramSpec, IsPositive}
use mem_sim.Dram.Address.{DecodedAddress, InRange}
use mem_sim.Dram.Address.Ranks.{max_one, next_digit}
use mem_sim.Controller.Rfm.{is_all_bank}
use mem_sim.Controller.Refresh.Batch.{
  MaintenanceCommand, RankRefreshState, positions_per_sid, position_command, position_batch,
  advance, seed_refresh_batch,
}

-- The state of a rank behind `n` batches, and the batch that follows.
unfoldable pub state_after : DramSpec → ℕ → RankRefreshState → ℕ → RankRefreshState
state_after spec rank s zero = s
state_after spec rank s (suc n) = (seed_refresh_batch spec rank (state_after spec rank s n)).1

unfoldable pub batch_after : DramSpec → ℕ → RankRefreshState → ℕ → List MaintenanceCommand
batch_after spec rank s n = (seed_refresh_batch spec rank (state_after spec rank s n)).0

-- The cursors are in range.
pub record InRotation (spec : DramSpec) (s : RankRefreshState) : Type 0 where
  pub flat : s.flat_bank_cursor < positions_per_sid spec
  pub sid : s.sid_cursor < max 1 spec.org.sids

abbrev pub place : DramSpec → RankRefreshState → ℕ
place spec s = s.sid_cursor * positions_per_sid spec + s.flat_bank_cursor

abbrev pub round : DramSpec → ℕ
round spec = max 1 spec.org.sids * positions_per_sid spec

next_sid : (x n : ℕ) → x < n → (x + 1) % n ≡ (if x + 1 == n then 0 else x + 1)
next_sid x n h = elim (Bool-cases (x + 1 == n)) [
  | inl y ↦ rw y (ap (λ k. (x + 1) % k) (sym (==→eq (x + 1) n y)) ∙ mod_self (x + 1))
  | inr m ↦ rw m (mod-eq_of_lt (ground (arith, m)))
]

-- The numbers of a step of two digits: with the low one at its end, and before it.
carry_all : (sid flat n p : ℕ) → flat + 1 ≡ p → sid + 1 ≡ n → (sid * p + flat + 1 == n * p) ≡ true
carry_all sid flat n p h k = ground (arith, ap (λ x. x * p) k)

carry :
    (sid flat n p : ℕ)
    → flat + 1 ≡ p
    → sid + 1 < n
    → ((sid * p + flat + 1 == n * p) ≡ false) × ((sid + 1) * p + 0 ≡ sid * p + flat + 1)
carry sid flat n p h k = let q = next_digit (sid + 1) n p k in (ground (arith, q), omega (arith, h))

no_carry : (sid flat n p : ℕ) → flat + 1 < p → sid < n → (sid * p + flat + 1 == n * p) ≡ false
no_carry sid flat n p h k = ground (arith, next_digit sid n p k)

advance-place :
    (spec : DramSpec) (s : RankRefreshState)
    → InRotation spec s
    → InRotation spec (advance spec s)
      × (place spec (advance spec s)
          ≡ (if place spec s + 1 == round spec then 0 else place spec s + 1))
unfolding advance
advance-place spec s r =
    let p = positions_per_sid spec in
    let n = max 1 spec.org.sids in
    let flat = s.flat_bank_cursor in
    elim (Bool-cases (leb p (flat + 1))) [
      | inl y ↦
          let last : flat + 1 ≡ p = ground (arith, r.flat, y) in
          elim (Bool-cases (s.sid_cursor + 1 == n)) [
            | inl z ↦
                let wraps = carry_all s.sid_cursor flat n p last (==→eq (s.sid_cursor + 1) n z) in
                rw (y, next_sid s.sid_cursor n r.sid, z, wraps)
                  (record { flat = ground (arith, r.flat); sid = omega arith }, omega arith)
            | inr m ↦
                let below : s.sid_cursor + 1 < n = ground (arith, r.sid, m) in
                let (short, moved) = carry s.sid_cursor flat n p last below in
                rw (y, next_sid s.sid_cursor n r.sid, m, short)
                  (record { flat = ground (arith, r.flat); sid = below }, moved)
          ]
      | inr m ↦
          let below : flat + 1 < p = ground (arith, m) in
          rw (m, no_carry s.sid_cursor flat n p below r.sid)
            (record { flat = below; sid = r.sid }, omega arith)
    ]

module _ (spec : DramSpec) (one : is_all_bank spec.refresh_policy ≡ false) (rank : ℕ) where
  seed-advance : (s : RankRefreshState) → (seed_refresh_batch spec rank s).1 ≡ advance spec s
  unfolding seed_refresh_batch
  seed-advance s = rw one refl

  state_after-place :
      (s : RankRefreshState) (k : ℕ)
      → InRotation spec s
      → k < round spec
      → InRotation spec (state_after spec rank s k)
        × (place spec (state_after spec rank s k) ≡ (
            if ltb (place spec s + k) (round spec)
            then place spec s + k
            else place spec s + k - round spec))
  unfolding state_after
  state_after-place s zero r h = (r, ground (arith, digit-lt r.sid r.flat))
  state_after-place s (suc k) r h =
      let (q, e) = state_after-place s k r (omega arith) in
      let (t, f) = advance-place spec (state_after spec rank s k) q in
      rw (seed-advance (state_after spec rank s k))
        (t, ground (arith, e, f, h, digit-lt r.sid r.flat))

  -- The distance to a place that lies ahead in the rotation, around its end where it has to.
  reached :
      (s : RankRefreshState) (target : ℕ)
      → InRotation spec s
      → target < round spec
      → (k : ℕ) × (k < round spec)
        × InRotation spec (state_after spec rank s k)
        × (place spec (state_after spec rank s k) ≡ target)
  reached s target r h = elim (Bool-cases (leb (place spec s) target)) [
    | inl y ↦
        let near : target - place spec s < round spec = omega arith in
        let (q, e) = state_after-place s (target - place spec s) r near in
        (target - place spec s, near, q, ground (arith, e, y, h))
    | inr n ↦
        let far : target + round spec - place spec s < round spec = ground (arith, n) in
        let (q, e) = state_after-place s (target + round spec - place spec s) r far in
        (target + round spec - place spec s, far, q, ground (arith, e, n, h, digit-lt r.sid r.flat))
  ]

  in_batch :
      (s : RankRefreshState) (d : DecodedAddress)
      → IsPositive spec.org
      → spec.lpddr_dual_bank_refresh ≡ false
      → InRange spec.org d
      → d.rank ≡ rank
      → s.sid_cursor ≡ d.sid
      → s.flat_bank_cursor ≡ d.bank_group * spec.org.banks_per_group + d.bank
      → InRotation spec s
      → Memᴰ
          (record { command = refpb; decoded = record d { row = 0; column = 0 } })
          (seed_refresh_batch spec rank s).0
  unfolding seed_refresh_batch position_batch position_command
  in_batch s d p single q same sid flat r =
      let size = max_one spec.org.banks_per_group p.banks_per_group in
      rw (one, mod-eq_of_lt r.flat, mod-eq_of_lt r.sid)
        (Memᴰ-for_each (upto (max 1 spec.org.channels)) _
          (Memᴰ-range_from 0 (max 1 spec.org.channels) d.channel (omega (arith, q.channel)))
          (Memᴰ-for_each (upto (max 1 spec.org.pseudo_channels)) _
            (Memᴰ-range_from 0 (max 1 spec.org.pseudo_channels) d.pseudo_channel
              (omega (arith, q.pseudo_channel)))
            (Memᴰ.head (
              rw
                (
                  single,
                  sid,
                  flat,
                  size,
                  digit-div d.bank_group q.bank,
                  digit-mod d.bank_group q.bank,
                  same,
                )
                (rw (zero-add d.channel, zero-add d.pseudo_channel) refl)))))

local-lt :
    (spec : DramSpec) (d : DecodedAddress)
    → IsPositive spec.org
    → spec.lpddr_dual_bank_refresh ≡ false
    → InRange spec.org d
    → d.bank_group * spec.org.banks_per_group + d.bank < positions_per_sid spec
unfolding positions_per_sid
local-lt spec d p single q =
    rw
      (
        single,
        max_one spec.org.banks_per_group p.banks_per_group,
        max_one spec.org.bank_groups p.bank_groups,
      )
      (digit-lt q.bank_group q.bank)

-- Under the per-bank policy and with single-bank refresh, from any state of a rank whose cursors
-- are in range, every bank of the rank is the target of a REFpb in one of the next batches, fewer
-- than one round of the rotation away.
pub batch_after-every_bank :
    (spec : DramSpec) (s : RankRefreshState) (d : DecodedAddress)
    → is_all_bank spec.refresh_policy ≡ false
    → spec.lpddr_dual_bank_refresh ≡ false
    → IsPositive spec.org
    → InRotation spec s
    → InRange spec.org d
    → (k : ℕ) × (k < round spec)
      × Memᴰ
          (record { command = refpb; decoded = record d { row = 0; column = 0 } })
          (batch_after spec d.rank s k)
unfolding batch_after
batch_after-every_bank spec s d one single p r q =
    let local = local-lt spec d p single q in
    let sid : d.sid < max 1 spec.org.sids = omega (arith, q.sid) in
    let (k, h, t, e) =
      reached spec one d.rank s
        (d.sid * positions_per_sid spec + (d.bank_group * spec.org.banks_per_group + d.bank)) r
        (digit-lt sid local) in
    let (high, low) = digit_unique _ _ t.flat local e in
    (k, h, in_batch spec one d.rank _ d p single q refl high low t)
