-- ===== src/Base/Bits.antt =====
-- The binary digits of a number, and what `^` and a test with `&` do to them.
use Prim.Native.Nat.{
  ℕ, zero, suc, ◌+◌, ◌*◌, ◌/◌, ◌%◌, ◌^◌, ◌≤◌, ◌<◌, bit_and, bit_xor, min, differ, digits,
  bit_and-bitwise, bit_xor-bitwise,
}
use mathlib.Core.Path.{◌≡◌, refl, sym, ap, ◌∙◌}
use native.Mathlib.Nat.{div-one, div-div-eq-div-mul, le_refl, pow-succ'}
use native.Mathlib.Omega.{arith}
use mem_sim.Base.Tests.{◌==◌, if◌then◌else◌}

-- The digit at a position, the lowest at 0.
unfoldable pub bit_at : ℕ → ℕ → ℕ
bit_at zero n = n % 2
bit_at (suc p) n = bit_at p (n / 2)

-- How many rounds the recursion of the native operations has does not matter, if they are enough.
xor_rounds :
    (m n a b : ℕ) → a ≤ m → a ≤ n → digits (λ y. y) differ m a b ≡ digits (λ y. y) differ n a b
xor_rounds zero zero a b h k = refl
xor_rounds (suc m) zero zero b h k = refl
xor_rounds (suc m) (suc n) zero b h k = refl
xor_rounds zero (suc n) zero b h k = refl
xor_rounds zero (suc n) (suc a) b h k = absurd (omega arith)
xor_rounds (suc m) zero (suc a) b h k = absurd (omega arith)
xor_rounds (suc m) (suc n) (suc a) b h k =
    rw (xor_rounds m n (suc a / 2) (b / 2) (omega arith) (omega arith)) refl

and_rounds :
    (m n a b : ℕ) → a ≤ m → a ≤ n → digits (λ y. zero) min m a b ≡ digits (λ y. zero) min n a b
and_rounds zero zero a b h k = refl
and_rounds (suc m) zero zero b h k = refl
and_rounds (suc m) (suc n) zero b h k = refl
and_rounds zero (suc n) zero b h k = refl
and_rounds zero (suc n) (suc a) b h k = absurd (omega arith)
and_rounds (suc m) zero (suc a) b h k = absurd (omega arith)
and_rounds (suc m) (suc n) (suc a) b h k =
    rw (and_rounds m n (suc a / 2) (b / 2) (omega arith) (omega arith)) refl

differ-parity : (x y : ℕ) → x < 2 → y < 2 → differ x y ≡ (x + y) % 2
differ-parity zero y h k = omega arith
differ-parity (suc zero) zero h k = refl
differ-parity (suc zero) (suc zero) h k = refl
differ-parity (suc zero) (suc (suc y)) h k = absurd (omega arith)
differ-parity (suc (suc x)) y h k = absurd (omega arith)

pub bit_xor_zero : (b : ℕ) → bit_xor 0 b ≡ b
bit_xor_zero b = bit_xor-bitwise 0 b

bit_xor_half : (a b : ℕ) → bit_xor a b ≡ bit_xor (a / 2) (b / 2) * 2 + (a % 2 + b % 2) % 2
bit_xor_half zero b = omega (arith, bit_xor_zero b, bit_xor_zero (b / 2))
bit_xor_half (suc a) b = omega (
  arith,
  bit_xor-bitwise (suc a) b,
  bit_xor-bitwise (suc a / 2) (b / 2),
  xor_rounds a (suc a / 2) (suc a / 2) (b / 2) (omega arith) (le_refl _),
  differ-parity (suc a % 2) (b % 2) (omega arith) (omega arith),
)

pub bit_and_half : (a b : ℕ) → bit_and a b ≡ bit_and (a / 2) (b / 2) * 2 + min (a % 2) (b % 2)
bit_and_half zero b = omega (arith, bit_and-bitwise 0 b, bit_and-bitwise 0 (b / 2))
bit_and_half (suc a) b = omega (
  arith,
  bit_and-bitwise (suc a) b,
  bit_and-bitwise (suc a / 2) (b / 2),
  and_rounds a (suc a / 2) (suc a / 2) (b / 2) (omega arith) (le_refl _),
)

pub bit_at-bit_xor : (p a b : ℕ) → bit_at p (bit_xor a b) ≡ (bit_at p a + bit_at p b) % 2
unfolding bit_at
bit_at-bit_xor zero a b = omega (arith, bit_xor_half a b)
bit_at-bit_xor (suc p) a b =
    let half : bit_xor a b / 2 ≡ bit_xor (a / 2) (b / 2) = omega (arith, bit_xor_half a b) in
    rw half (bit_at-bit_xor p (a / 2) (b / 2))

pub bit_at-lt : (p n : ℕ) → bit_at p n < 2
unfolding bit_at
bit_at-lt zero n = omega arith
bit_at-lt (suc p) n = bit_at-lt p (n / 2)

bits_agree : (fuel a b : ℕ) → a ≤ fuel → b ≤ fuel → ((p : ℕ) → bit_at p a ≡ bit_at p b) → a ≡ b
unfolding bit_at
bits_agree zero a b h k e = omega arith
bits_agree (suc fuel) zero zero h k e = refl
bits_agree (suc fuel) a b h k e =
    let low : a % 2 ≡ b % 2 = e 0 in
    omega (arith, low, bits_agree fuel (a / 2) (b / 2) (omega arith) (omega arith) (λ p. e (suc p)))

-- Two numbers with the same digits are one.
pub bit_at-injective : (a b : ℕ) → ((p : ℕ) → bit_at p a ≡ bit_at p b) → a ≡ b
bit_at-injective a b = bits_agree (a + b) a b (omega arith) (omega arith)

pub bit_at-zero : (p : ℕ) → bit_at p 0 ≡ 0
unfolding bit_at
bit_at-zero zero = refl
bit_at-zero (suc p) = bit_at-zero p

pub bit_at-power : (p k : ℕ) → bit_at p (2 ^ k) ≡ (if p == k then 1 else 0)
unfolding bit_at
bit_at-power zero zero = refl
bit_at-power zero (suc k) = ground (arith, pow-succ' 2 k)
bit_at-power (suc p) zero = ground (arith, bit_at-zero p)
bit_at-power (suc p) (suc k) =
    let half : 2 ^ suc k / 2 ≡ 2 ^ k = omega (arith, pow-succ' 2 k) in
    rw half (ground (arith, bit_at-power p k))

-- A number below a power of two has no digit from there on.
pub bit_at_above : (p k n : ℕ) → n < 2 ^ k → k ≤ p → bit_at p n ≡ 0
unfolding bit_at
bit_at_above p zero n h l = let none : n ≡ 0 = omega arith in rw none (bit_at-zero p)
bit_at_above zero (suc k) n h l = absurd (omega arith)
bit_at_above (suc p) (suc k) n h l =
    bit_at_above p k (n / 2) (omega (arith, h, pow-succ' 2 k)) (omega arith)

bit_and_nothing : (a : ℕ) → bit_and a 0 ≡ 0
bit_and_nothing a = go a a (le_refl a)
  where
    go : (fuel n : ℕ) → n ≤ fuel → bit_and n 0 ≡ 0
    go zero n h = let none : n ≡ 0 = omega arith in rw none refl
    go (suc fuel) zero h = refl
    go (suc fuel) (suc n) h =
        omega (arith, bit_and_half (suc n) 0, go fuel (suc n / 2) (omega arith))

-- `n & (1 << k)`
pub bit_and-power : (k n : ℕ) → bit_and n (2 ^ k) ≡ bit_at k n * 2 ^ k
unfolding bit_at
bit_and-power zero n = omega (arith, bit_and_half n 1, bit_and_nothing (n / 2))
bit_and-power (suc k) n =
    let half : 2 ^ suc k / 2 ≡ 2 ^ k = omega (arith, pow-succ' 2 k) in
    let even : 2 ^ suc k % 2 ≡ 0 = omega (arith, pow-succ' 2 k) in
    omega (
      arith,
      bit_and_half n (2 ^ suc k),
      ap (λ m. bit_and (n / 2) m) half,
      bit_and-power k (n / 2),
      even,
      pow-succ' 2 k,
      ap (λ m. bit_at k (n / 2) * m) (pow-succ' 2 k),
    )

pub bit_and_self : (n : ℕ) → bit_and n n ≡ n
bit_and_self n = go n n (le_refl n)
  where
    go : (fuel n : ℕ) → n ≤ fuel → bit_and n n ≡ n
    go zero n h = let none : n ≡ 0 = omega arith in rw none refl
    go (suc fuel) zero h = refl
    go (suc fuel) (suc n) h =
        omega (arith, bit_and_half (suc n) (suc n), go fuel (suc n / 2) (omega arith))

pub bit_at-shift : (t n : ℕ) → n / 2 ^ t % 2 ≡ bit_at t n
unfolding bit_at
bit_at-shift zero n = ap (λ m. m % 2) (div-one n)
bit_at-shift (suc t) n =
    ap (λ m. n / m % 2) (pow-succ' 2 t)
    ∙ ap (λ m. m % 2) (sym (div-div-eq-div-mul n 2 (2 ^ t)))
    ∙ bit_at-shift t (n / 2)

pub bit_xor_cancel : (a b : ℕ) → bit_xor (bit_xor a b) b ≡ a
bit_xor_cancel a b = bit_at-injective (bit_xor (bit_xor a b) b) a λ p.
    omega
      (arith, bit_at-bit_xor p (bit_xor a b) b, bit_at-bit_xor p a b, bit_at-lt p a, bit_at-lt p b)

pub bit_xor_self : (a : ℕ) → bit_xor a a ≡ 0
bit_xor_self a =
    bit_at-injective (bit_xor a a) 0 λ p. omega (arith, bit_at-bit_xor p a a, bit_at-zero p)

pub bit_xor_zero_right : (a : ℕ) → bit_xor a 0 ≡ a
bit_xor_zero_right a =
    bit_at-injective (bit_xor a 0) a
      λ p. omega (arith, bit_at-bit_xor p a 0, bit_at-zero p, bit_at-lt p a)

pub bit_xor_assoc : (a b c : ℕ) → bit_xor (bit_xor a b) c ≡ bit_xor a (bit_xor b c)
bit_xor_assoc a b c = bit_at-injective (bit_xor (bit_xor a b) c) (bit_xor a (bit_xor b c)) λ p.
    omega (
      arith,
      bit_at-bit_xor p (bit_xor a b) c,
      bit_at-bit_xor p a b,
      bit_at-bit_xor p a (bit_xor b c),
      bit_at-bit_xor p b c,
    )

pub bit_xor_comm : (a b : ℕ) → bit_xor a b ≡ bit_xor b a
bit_xor_comm a b =
    bit_at-injective (bit_xor a b) (bit_xor b a)
      λ p. omega (arith, bit_at-bit_xor p a b, bit_at-bit_xor p b a)
