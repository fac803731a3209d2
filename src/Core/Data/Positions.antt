-- ===== src/Core/Data/Positions.antt =====
-- code_position_for_data_bit and data_bit_for_code_position of src/core/data.cpp: the places of the data
-- bits in the code word.
use native.Mathlib.Nat.{pow-succ', one-le-pow}
use mem_sim.Base.{
  ℕ, zero, suc, ◌+◌, ◌-◌, ◌*◌, ◌%◌, ◌^◌, ◌≤◌, ◌<◌, ◌≡◌, refl, sym, ap, subst, ◌∙◌, inl, inr, true,
  false, some, arith, ltb, leb, ◌==◌, if◌then◌else◌, ltb→lt, ltb→ge, ==→eq, Bool-cases,
}
use mem_sim.Core.Data.Secded.{
  is_power_of_two_u64, parity_bits_from, parity_bits_for_data_bits, code_position_from,
  code_position_for_data_bit, data_bit_from, data_bit_for_code_position,
}
use mem_sim.Core.Data.Powers.{
  is_power_of_two_u64-odd, is_power_of_two_u64-between, is_power_of_two_u64-power,
}

-- How many data bits stand at the positions from one to `n`.
unfoldable pub data_before : ℕ → ℕ
data_before zero = 0
data_before (suc n) = if is_power_of_two_u64 (suc n) then data_before n else suc (data_before n)

data_before-step : (n : ℕ) → data_before n ≤ data_before (suc n)
unfolding data_before
data_before-step n = ground arith

data_before_mono : (n j : ℕ) → data_before n ≤ data_before (n + j)
data_before_mono n zero = let form : n + 0 ≡ n = omega arith in omega (arith, ap data_before form)
data_before_mono n (suc j) =
    let form : n + suc j ≡ suc (n + j) = omega arith in
    omega (arith, data_before_mono n j, data_before-step (n + j), ap data_before form)

data_before_le : (n m : ℕ) → n ≤ m → data_before n ≤ data_before m
data_before_le n m h =
    let form : m ≡ n + (m - n) = omega arith in
    subst (λ (x : ℕ). data_before n ≤ data_before x) (sym form) (data_before_mono n (m - n))

-- One of two positions in a row is no power of two, from the third on.
data_before-two : (n : ℕ) → 2 ≤ n → suc (data_before n) ≤ data_before (suc (suc n))
unfolding data_before
data_before-two n h = elim (Bool-cases (suc n % 2 == 1)) [
  | inl odd ↦
      ground (arith, is_power_of_two_u64-odd (suc n) (omega arith) (==→eq (suc n % 2) 1 odd))
  | inr even ↦ ground (arith, is_power_of_two_u64-odd (suc (suc n)) (omega arith) (ground arith))
]

data_before-double : (k : ℕ) → k ≤ data_before (2 * k + 2)
data_before-double zero = omega arith
data_before-double (suc k) =
    let more : suc (data_before (2 * k + 2)) ≤ data_before (suc (suc (2 * k + 2))) =
      data_before-two (2 * k + 2) (omega arith) in
    let form : 2 * suc k + 2 ≡ suc (suc (2 * k + 2)) = omega arith in
    omega (arith, data_before-double k, more, ap data_before form)

-- Up to `2 ^ p + j` below the next power, the powers of two are `p + 1`.
data_before-power : (p j : ℕ) → j < 2 ^ p → data_before (2 ^ p + j) + suc p ≡ 2 ^ p + j
unfolding data_before is_power_of_two_u64
data_before-power zero zero h = refl
data_before-power zero (suc j) h = absurd (omega arith)
data_before-power (suc p) zero h =
    let last : 2 ^ suc p ≡ suc (2 ^ p + (2 ^ p - 1)) =
      omega (arith, pow-succ' 2 p, one-le-pow p 2 (omega arith)) in
    let before = data_before-power p (2 ^ p - 1) (omega (arith, one-le-pow p 2 (omega arith))) in
    let power : is_power_of_two_u64 (suc (2 ^ p + (2 ^ p - 1))) ≡ true =
      ap is_power_of_two_u64 (sym last) ∙ is_power_of_two_u64-power (suc p) in
    let step : data_before (suc (2 ^ p + (2 ^ p - 1))) ≡ data_before (2 ^ p + (2 ^ p - 1)) =
      rw power refl in
    let form : 2 ^ suc p + 0 ≡ suc (2 ^ p + (2 ^ p - 1)) = omega (arith, last) in
    omega (arith, last, before, step, ap data_before form)
data_before-power (suc p) (suc j) h =
    let rest = data_before-power (suc p) j (omega arith) in
    let none : is_power_of_two_u64 (suc (2 ^ suc p + j)) ≡ false =
      is_power_of_two_u64-between (suc p) (suc (2 ^ suc p + j)) (omega arith)
        (omega (arith, h, pow-succ' 2 (suc p))) in
    let step : data_before (suc (2 ^ suc p + j)) ≡ suc (data_before (2 ^ suc p + j)) =
      rw none refl in
    let form : 2 ^ suc p + suc j ≡ suc (2 ^ suc p + j) = omega arith in
    omega (arith, rest, step, ap data_before form)

-- Below `2 ^ p` there are all positions but `p`.
data_before_below : (p : ℕ) → data_before (2 ^ p - 1) + suc p ≡ 2 ^ p
unfolding data_before
data_before_below zero = refl
data_before_below (suc p) =
    let last : 2 ^ suc p - 1 ≡ 2 ^ p + (2 ^ p - 1) =
      omega (arith, pow-succ' 2 p, one-le-pow p 2 (omega arith)) in
    omega (
      arith,
      last,
      ap data_before last,
      pow-succ' 2 p,
      one-le-pow p 2 (omega arith),
      data_before-power p (2 ^ p - 1) (omega (arith, one-le-pow p 2 (omega arith))),
    )

-- The position of a data bit: no power of two, with as many data positions before it.
unfoldable pub IsPosition : ℕ → ℕ → Type 0
IsPosition k r = (m : ℕ) × (r ≡ suc m) × (is_power_of_two_u64 r ≡ false) × (data_before m ≡ k)

module _ (fuel k seen c : ℕ) where
  position_from_power :
      is_power_of_two_u64 c ≡ true
      → code_position_from (suc fuel) k seen c ≡ code_position_from fuel k seen (suc c)
  unfolding code_position_from
  position_from_power power = let next : c + 1 ≡ suc c = omega arith in rw (power, next) refl

  position_from_here :
      is_power_of_two_u64 c ≡ false → seen ≡ k → code_position_from (suc fuel) k seen c ≡ c
  unfolding code_position_from
  position_from_here other here =
      let found : (seen == k) ≡ true = ground (arith, here) in rw (other, found) refl

  position_from_later :
      is_power_of_two_u64 c ≡ false
      → seen < k
      → code_position_from (suc fuel) k seen c ≡ code_position_from fuel k (suc seen) (suc c)
  unfolding code_position_from
  position_from_later other later =
      let next : c + 1 ≡ suc c = omega arith in
      let next_seen : seen + 1 ≡ suc seen = omega arith in
      let found : (seen == k) ≡ false = ground arith in rw (other, found, next, next_seen) refl

data_before_power :
    (n : ℕ) → is_power_of_two_u64 (suc n) ≡ true → data_before (suc n) ≡ data_before n
unfolding data_before
data_before_power n power = rw power refl

data_before_other :
    (n : ℕ) → is_power_of_two_u64 (suc n) ≡ false → data_before (suc n) ≡ suc (data_before n)
unfolding data_before
data_before_other n other = rw other refl

code_position_from-IsPosition :
    (fuel k n : ℕ)
    → data_before n ≤ k
    → k < data_before (n + fuel)
    → IsPosition k (code_position_from fuel k (data_before n) (suc n))
unfolding IsPosition
code_position_from-IsPosition zero k n h l =
    let form : n + 0 ≡ n = omega arith in absurd (omega (arith, h, l, ap data_before form))
code_position_from-IsPosition (suc fuel) k n h l =
    let form : n + suc fuel ≡ suc n + fuel = omega arith in
    let reached : k < data_before (suc n + fuel) = omega (arith, l, ap data_before form) in
    elim (Bool-cases (is_power_of_two_u64 (suc n))) [
      | inl power ↦
          let same = data_before_power n power in
          subst (IsPosition k)
            (ap (λ s. code_position_from fuel k s (suc (suc n))) same
              ∙ sym (position_from_power fuel k (data_before n) (suc n) power))
            (code_position_from-IsPosition fuel k (suc n) (omega (arith, h, same)) reached)
      | inr other ↦ elim (Bool-cases (data_before n == k)) [
        | inl here ↦
            let found = ==→eq (data_before n) k here in
            subst (IsPosition k)
              (sym (position_from_here fuel k (data_before n) (suc n) other found))
              (n, refl, other, found)
        | inr there ↦
            let more = data_before_other n other in
            let later : data_before n < k = ground arith in
            subst (IsPosition k)
              (ap (λ s. code_position_from fuel k s (suc (suc n))) more
                ∙ sym (position_from_later fuel k (data_before n) (suc n) other later))
              (code_position_from-IsPosition fuel k (suc n) (omega (arith, later, more)) reached)
      ]
    ]

-- The rounds given to the loop are enough.
pub code_position_for_data_bit-IsPosition : (k : ℕ) → IsPosition k (code_position_for_data_bit k)
unfolding code_position_for_data_bit data_before
code_position_for_data_bit-IsPosition k =
    let form : 0 + (2 * k + 6) ≡ 2 * k + 6 = omega arith in
    let enough : k < data_before (0 + (2 * k + 6)) = omega (
      arith,
      data_before-double (suc k),
      data_before_le (2 * suc k + 2) (2 * k + 6) (omega arith),
      ap data_before form,
    ) in
    code_position_from-IsPosition (2 * k + 6) k 0 (omega arith) enough

-- The search of data_bit_for_code_position, from position `n + 1` on.
bit_from :
    (fuel d n m : ℕ)
    → n ≤ m
    → m < n + fuel
    → is_power_of_two_u64 (suc m) ≡ false
    → data_before m < d
    → data_bit_from fuel (suc m) d (data_before n) (suc n) ≡ some (data_before m)
unfolding data_bit_from
bit_from zero d n m h l other below = absurd (omega arith)
bit_from (suc fuel) d n m h l other below =
    let within : leb d (data_before n) ≡ false = ground (arith, data_before_le n m h) in
    let next : suc n + 1 ≡ suc (suc n) = omega arith in
    let next_seen : data_before n + 1 ≡ suc (data_before n) = omega arith in
    elim (Bool-cases (suc n == suc m)) [
      | inl here ↦
          let same : n ≡ m = omega (arith, ==→eq (suc n) (suc m) here) in
          rw (within, ap (λ x. is_power_of_two_u64 (suc x)) same ∙ other, here)
            (ap (λ x. some (data_before x)) same)
      | inr there ↦
          let later : n < m = ground arith in
          let rest = bit_from fuel d (suc n) m (omega arith) (omega arith) other below in
          elim (Bool-cases (is_power_of_two_u64 (suc n))) [
            | inl power ↦ rw (within, power, next) (rw (sym (data_before_power n power)) rest)
            | inr data_place ↦
                rw (within, data_place, there, next, next_seen)
                  (rw (sym (data_before_other n data_place)) rest)
          ]
    ]

pub parity_bits_for_data_bits-enough :
    (d : ℕ) → d + parity_bits_for_data_bits d + 1 ≤ 2 ^ parity_bits_for_data_bits d
unfolding parity_bits_for_data_bits parity_bits_from
parity_bits_for_data_bits-enough d =
    go (d + 2) 1 (omega (arith, power_large (d + 2), pow-succ' 2 (d + 2), ap (λ n. 2 ^ n) one))
  where
    one : 1 + (d + 2) ≡ suc (d + 2)
    one = omega arith

    power_large : (n : ℕ) → n + 1 ≤ 2 ^ n
    power_large zero = omega arith
    power_large (suc n) = omega (arith, power_large n, pow-succ' 2 n)

    go :
        (fuel p : ℕ)
        → d + (p + fuel) + 1 ≤ 2 ^ (p + fuel)
        → d + parity_bits_from fuel d p + 1 ≤ 2 ^ parity_bits_from fuel d p
    go zero p h = let form : p + 0 ≡ p = omega arith in omega (arith, h, ap (λ n. 2 ^ n) form)
    go (suc fuel) p h =
        let form : p + suc fuel ≡ p + 1 + fuel = omega arith in
        let rest = go fuel (p + 1) (omega (arith, h, ap (λ n. 2 ^ n) form)) in ground (arith, rest)

place_below : (m p d : ℕ) → data_before m < d → d + p + 1 ≤ 2 ^ p → suc m < 2 ^ p
place_below m p d h enough = elim (Bool-cases (ltb (suc m) (2 ^ p))) [
  | inl below ↦ ltb→lt (suc m) (2 ^ p) below
  | inr above ↦
      let beyond = data_before_le (2 ^ p - 1) m (omega (arith, ltb→ge (suc m) (2 ^ p) above)) in
      absurd (omega (arith, beyond, data_before_below p, h, enough))
]

place_in_search : (m d : ℕ) → data_before m < d → m < 0 + (2 * d + 6)
place_in_search m d h = elim (Bool-cases (ltb m (2 * d + 6))) [
  | inl below ↦ omega (arith, ltb→lt m (2 * d + 6) below)
  | inr above ↦
      let beyond = data_before_le (2 * d + 2) m (omega (arith, ltb→ge m (2 * d + 6) above)) in
      absurd (omega (arith, beyond, data_before-double d, h))
]

-- The code position of every data bit has no more digits than there are parity bits for the number
-- of data bits.
pub code_position_for_data_bit-lt :
    (d k : ℕ) → k < d → code_position_for_data_bit k < 2 ^ parity_bits_for_data_bits d
unfolding IsPosition
code_position_for_data_bit-lt d k h =
    let (m, at, other, before) = code_position_for_data_bit-IsPosition k in
    let below =
      place_below m (parity_bits_for_data_bits d) d (omega (arith, before, h))
        (parity_bits_for_data_bits-enough d) in
    omega (arith, below, at)

pub code_position_for_data_bit-data :
    (k : ℕ)
    → (is_power_of_two_u64 (code_position_for_data_bit k) ≡ false)
      × (1 ≤ code_position_for_data_bit k)
unfolding IsPosition
code_position_for_data_bit-data k =
    let (m, at, other, before) = code_position_for_data_bit-IsPosition k in
    (other, omega (arith, at))

-- The data bit found for the code position of a data bit is that bit, and both searches end within
-- their rounds.
pub data_bit-code_position :
    (d k : ℕ) → k < d → data_bit_for_code_position (code_position_for_data_bit k) d ≡ some k
unfolding data_bit_for_code_position IsPosition data_before
data_bit-code_position d k h =
    let (m, at, other, before) = code_position_for_data_bit-IsPosition k in
    let here : data_before m < d = omega (arith, before, h) in
    ap (λ c. data_bit_from (2 * d + 6) c d 0 1) at
    ∙ bit_from (2 * d + 6) d 0 m (omega arith) (place_in_search m d here)
        (ap is_power_of_two_u64 (sym at) ∙ other) here
    ∙ ap some before
