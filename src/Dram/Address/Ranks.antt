-- ===== src/Dram/Address/Ranks.antt =====
-- The rank of a bank: its number among the ranks, and its banks as a range of flat indices.
use mem_sim.Base.{
  ℕ, ◌+◌, ◌-◌, ◌*◌, ◌≤◌, ◌<◌, max, ◌≡◌, ◌&&◌, List, arith, ltb, leb, ◌==◌, if◌then◌else◌, length,
  get_or, modify_range, get_or-modify_range,
}
use mem_sim.Base.Digits.{digit-lt, digit_unique}
use mem_sim.Dram.Spec.{Organization}
use mem_sim.Dram.Address.{DecodedAddress, flat_bank, clamp_below, InRange}

-- Two addresses lie in one rank.
pub record SameRank (d e : DecodedAddress) : Type 0 where
  pub channel : d.channel ≡ e.channel
  pub pseudo_channel : d.pseudo_channel ≡ e.pseudo_channel
  pub sid : d.sid ≡ e.sid
  pub rank : d.rank ≡ e.rank

-- The rank's number, with no clamps.
unfoldable pub rank_number : Organization → DecodedAddress → ℕ
rank_number o d =
    ((d.channel * o.pseudo_channels + d.pseudo_channel) * o.sids + d.sid) * o.ranks + d.rank

pub clamp_below_self : (x n : ℕ) → x < n → clamp_below x n ≡ x
clamp_below_self x n h = omega arith

pub max_one : (n : ℕ) → 0 < n → max 1 n ≡ n
max_one n h = omega arith

pub rank_number-lt :
    (o : Organization) (d : DecodedAddress)
    → InRange o d
    → rank_number o d < o.channels * o.pseudo_channels * o.sids * o.ranks
unfolding rank_number
rank_number-lt o d r = digit-lt (digit-lt (digit-lt r.channel r.pseudo_channel) r.sid) r.rank

pub rank_number-SameRank :
    (o : Organization) (d e : DecodedAddress)
    → InRange o d
    → InRange o e
    → rank_number o d ≡ rank_number o e
    → SameRank d e
unfolding rank_number
rank_number-SameRank o d e r s h =
    let (h3, rank) = digit_unique _ _ r.rank s.rank h in
    let (h2, sid) = digit_unique _ _ r.sid s.sid h3 in
    let (channel, pc) = digit_unique _ _ r.pseudo_channel s.pseudo_channel h2 in
    record { channel = channel; pseudo_channel = pc; sid = sid; rank = rank }

pub SameRank-rank_number :
    (o : Organization) (d e : DecodedAddress) → SameRank d e → rank_number o d ≡ rank_number o e
unfolding rank_number
SameRank-rank_number o d e s = rw (s.channel, s.pseudo_channel, s.sid, s.rank)

-- The flat index of a bank is its rank's first index and its place in the rank.
flat_bank-rank_number :
    (o : Organization) (d : DecodedAddress)
    → flat_bank o d
      ≡ rank_number o d * (o.bank_groups * o.banks_per_group)
        + (d.bank_group * o.banks_per_group + d.bank)
unfolding flat_bank rank_number
flat_bank-rank_number o d = omega arith

pub next_digit : (u x b : ℕ) → u < x → u * b + b ≤ x * b
next_digit u x b h = grind arith

digit_range :
    (x u y b : ℕ) → y < b → (leb (x * b) (u * b + y) && ltb (u * b + y) (x * b + b)) ≡ (u == x)
digit_range x u y b h = ground (arith, next_digit u x b, next_digit x u b)

-- A bank's flat index lies in the range of a rank exactly when the bank is of that rank.
pub in_rank_range :
    (o : Organization) (d e : DecodedAddress)
    → InRange o d
    → InRange o e
    → let size = o.bank_groups * o.banks_per_group in
      (leb (rank_number o d * size) (flat_bank o e)
        && ltb (flat_bank o e) (rank_number o d * size + size))
      ≡ (rank_number o e == rank_number o d)
in_rank_range o d e r s =
    rw (flat_bank-rank_number o e)
      (digit_range (rank_number o d) (rank_number o e) _ _ (digit-lt s.bank_group s.bank))

add_sub_self : (x y : ℕ) → x + y - x ≡ y
add_sub_self x y = omega arith

-- A loop over the banks of the rank of `d` changes what is kept for the banks of that rank alone.
pub get_or-modify_rank {ℓ} :
    {A : Type ℓ} (o : Organization) (d e : DecodedAddress) (xs : List A) (f : A → A) (v : A)
    → InRange o d
    → InRange o e
    → let size = o.bank_groups * o.banks_per_group in
      let begin = rank_number o d * size in
      begin + size ≤ length xs
      → get_or (modify_range xs begin (begin + size - begin) f) (flat_bank o e) v ≡ (
          if rank_number o e == rank_number o d
          then f (get_or xs (flat_bank o e) v)
          else get_or xs (flat_bank o e) v)
get_or-modify_rank o d e xs f v r s fits = rw (
  add_sub_self (rank_number o d * (o.bank_groups * o.banks_per_group)) _,
  get_or-modify_range xs (rank_number o d * (o.bank_groups * o.banks_per_group))
      (o.bank_groups * o.banks_per_group) (flat_bank o e) f v fits,
  in_rank_range o d e r s,
)

pub flat_bank-lt-banks :
    (o : Organization) (d : DecodedAddress)
    → InRange o d
    → flat_bank o d
      < o.channels * o.pseudo_channels * o.sids * o.ranks * (o.bank_groups * o.banks_per_group)
flat_bank-lt-banks o d r =
    rw (flat_bank-rank_number o d) (digit-lt (rank_number-lt o d r) (digit-lt r.bank_group r.bank))
