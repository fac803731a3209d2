-- ===== src/Core/Data/Powers.antt =====
-- is_power_of_two_u64 of src/core/data.cpp: which numbers it accepts.
use Prim.Native.Nat.{bit_and}
use native.Mathlib.Nat.{pow-succ', one-le-pow}
use mem_sim.Base.{
  ℕ, zero, suc, ◌-◌, ◌*◌, ◌/◌, ◌%◌, ◌^◌, ◌≤◌, ◌<◌, ◌≡◌, refl, sym, ap, ap₂, subst, ◌∙◌, ◌⊎◌, inl,
  inr, true, false, arith, bit_and_half, bit_and_self,
}
use mem_sim.Core.Data.Secded.{is_power_of_two_u64}

even_half : (q : ℕ) → is_power_of_two_u64 (suc q * 2) ≡ is_power_of_two_u64 (suc q)
unfolding is_power_of_two_u64
even_half q =
    let halves : bit_and (suc q * 2) (suc q * 2 - 1) ≡ bit_and (suc q) q * 2 =
      omega
        (arith, bit_and_half (suc q * 2) (suc q * 2 - 1), ap₂ (λ a b. bit_and a b * 2) one two) in
    ground (arith, halves)
  where
    one : suc q * 2 / 2 ≡ suc q
    one = omega arith

    two : (suc q * 2 - 1) / 2 ≡ q
    two = omega arith

-- An odd number from three on.
odd_no_power : (q : ℕ) → is_power_of_two_u64 (suc (suc q * 2)) ≡ false
unfolding is_power_of_two_u64
odd_no_power q =
    let low : bit_and (suc (suc q * 2)) (suc q * 2) ≡ suc q * 2 = omega (
      arith,
      bit_and_half (suc (suc q * 2)) (suc q * 2),
      ap₂ (λ a b. bit_and a b * 2) one two,
      bit_and_self (suc q),
    ) in
    ground (arith, low)
  where
    one : suc (suc q * 2) / 2 ≡ suc q
    one = omega arith

    two : suc q * 2 / 2 ≡ suc q
    two = omega arith

pub is_power_of_two_u64-odd : (n : ℕ) → 3 ≤ n → n % 2 ≡ 1 → is_power_of_two_u64 n ≡ false
is_power_of_two_u64-odd n h odd =
    let form : n ≡ suc (suc (n / 2 - 1) * 2) = omega arith in
    subst (λ (m : ℕ). is_power_of_two_u64 m ≡ false) (sym form) (odd_no_power (n / 2 - 1))

pub is_power_of_two_u64-even :
    (n : ℕ) → 2 ≤ n → n % 2 ≡ 0 → is_power_of_two_u64 n ≡ is_power_of_two_u64 (n / 2)
is_power_of_two_u64-even n h even =
    let form : n ≡ suc (n / 2 - 1) * 2 = omega arith in
    let half : n / 2 ≡ suc (n / 2 - 1) = omega arith in
    subst (λ (m : ℕ). is_power_of_two_u64 m ≡ is_power_of_two_u64 (n / 2)) (sym form)
      (even_half (n / 2 - 1) ∙ ap is_power_of_two_u64 (sym half))

pub is_power_of_two_u64-power : (k : ℕ) → is_power_of_two_u64 (2 ^ k) ≡ true
unfolding is_power_of_two_u64
is_power_of_two_u64-power zero = refl
is_power_of_two_u64-power (suc k) =
    let half : 2 ^ suc k / 2 ≡ 2 ^ k = omega (arith, pow-succ' 2 k) in
    is_power_of_two_u64-even (2 ^ suc k)
      (omega (arith, pow-succ' 2 k, one-le-pow k 2 (omega arith))) (omega (arith, pow-succ' 2 k))
    ∙ ap is_power_of_two_u64 half
    ∙ is_power_of_two_u64-power k

-- Between two powers there is none.
pub is_power_of_two_u64-between :
    (k n : ℕ) → 2 ^ k < n → n < 2 ^ suc k → is_power_of_two_u64 n ≡ false
is_power_of_two_u64-between zero n h l = absurd (omega (arith, l, pow-succ' 2 0))
is_power_of_two_u64-between (suc k) n h l = elim (split (n % 2) (omega arith)) [
  | inl even ↦
      is_power_of_two_u64-even n (omega (arith, h, one)) even
      ∙ is_power_of_two_u64-between k (n / 2) (omega (arith, h, even, pow-succ' 2 k))
          (omega (arith, l, even, pow-succ' 2 (suc k)))
  | inr odd ↦ is_power_of_two_u64-odd n (omega (arith, h, odd, one, pow-succ' 2 k)) odd
]
  where
    one : 1 ≤ 2 ^ suc k
    one = one-le-pow (suc k) 2 (omega arith)

    split : (r : ℕ) → r < 2 → (r ≡ 0) ⊎ (r ≡ 1)
    split zero h = inl refl
    split (suc zero) h = inr refl
    split (suc (suc r)) h = absurd (omega arith)
