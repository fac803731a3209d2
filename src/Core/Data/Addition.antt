-- ===== src/Core/Data/Addition.antt =====
-- The inner loop of compute_secded_shadow in src/core/data.cpp.
use Prim.Native.Nat.{bit_and, bit_xor}
use native.Mathlib.Nat.{one-le-pow}
use mem_sim.Base.{
  ℕ, zero, suc, ◌+◌, ◌*◌, ◌%◌, ◌^◌, ◌<◌, ◌≡◌, refl, ap, ◌∙◌, inl, inr, not, ◌&&◌, arith, ltb, leb,
  ◌==◌, if◌then◌else◌, ltb→lt, ltb→ge, ==→eq, Bool-cases, bit_at, bit_at-bit_xor, bit_at-lt,
  bit_at-injective, bit_at-power, bit_at_above, bit_and-power,
}
use mem_sim.Core.Data.Secded.{add_position}

pub test_digit : (k n : ℕ) → not (bit_and n (2 ^ k) == 0) ≡ (bit_at k n == 1)
test_digit k n = elim (Bool-cases (bit_at k n == 1)) [
  | inl one ↦
      let power : bit_and n (2 ^ k) ≡ 1 * 2 ^ k =
        bit_and-power k n ∙ ap (λ x. x * 2 ^ k) (==→eq (bit_at k n) 1 one) in
      ground (arith, power, one-le-pow k 2 (omega arith))
  | inr other ↦
      let none : bit_at k n ≡ 0 = ground (arith, bit_at-lt k n) in
      let power : bit_and n (2 ^ k) ≡ 0 * 2 ^ k = bit_and-power k n ∙ ap (λ x. x * 2 ^ k) none in
      ground (arith, power)
]

digit_after :
    (parity c h p : ℕ)
    → bit_at p (if not (bit_and c (2 ^ parity) == 0) then bit_xor h (2 ^ parity) else h)
      ≡ (bit_at p h + (if p == parity then bit_at p c else 0)) % 2
digit_after parity c h p = elim (Bool-cases (bit_at parity c == 1)) [
  | inl one ↦
      rw (test_digit parity c, one, bit_at-bit_xor p h (2 ^ parity), bit_at-power p parity)
        (go (==→eq (bit_at parity c) 1 one))
  | inr other ↦ rw (test_digit parity c, other) (stay (ground (arith, bit_at-lt parity c)))
]
  where
    go :
        bit_at parity c ≡ 1
        → (bit_at p h + (if p == parity then 1 else 0)) % 2
          ≡ (bit_at p h + (if p == parity then bit_at p c else 0)) % 2
    go one = elim (Bool-cases (p == parity)) [
      | inl same ↦
          let digit : bit_at p c ≡ 1 = ap (λ x. bit_at x c) (==→eq p parity same) ∙ one in
          rw (same, digit) refl
      | inr different ↦ rw different refl
    ]

    stay :
        bit_at parity c ≡ 0
        → bit_at p h ≡ (bit_at p h + (if p == parity then bit_at p c else 0)) % 2
    stay unset = elim (Bool-cases (p == parity)) [
      | inl same ↦
          let digit : bit_at p c ≡ 0 = ap (λ x. bit_at x c) (==→eq p parity same) ∙ unset in
          rw (same, digit) (omega (arith, bit_at-lt p h))
      | inr different ↦ rw different (omega (arith, bit_at-lt p h))
    ]

bit_at-add_position :
    (count parity c h p : ℕ)
    → bit_at p (add_position count parity c h)
      ≡ (bit_at p h + (if leb parity p && ltb p (parity + count) then bit_at p c else 0)) % 2
unfolding add_position
bit_at-add_position zero parity c h p = ground (arith, bit_at-lt p h)
bit_at-add_position (suc count) parity c h p =
    let next = if not (bit_and c (2 ^ parity) == 0) then bit_xor h (2 ^ parity) else h in
    bit_at-add_position count (parity + 1) c next p
    ∙ ap
        (λ x.
          (x + (if leb (parity + 1) p && ltb p (parity + 1 + count) then bit_at p c else 0)) % 2)
        (digit_after parity c h p)
    ∙ elim (Bool-cases (p == parity)) [ inl same ↦ ground arith | inr other ↦ ground arith ]

-- All digits of a position below `2 ^ count` are added.
pub add_position-bit_xor : (count c h : ℕ) → c < 2 ^ count → add_position count 0 c h ≡ bit_xor h c
add_position-bit_xor count c h below =
    bit_at-injective (add_position count 0 c h) (bit_xor h c) λ p. elim (Bool-cases (ltb p count)) [
      | inl within ↦
          ground
            (arith, bit_at-add_position count 0 c h p, bit_at-bit_xor p h c, ltb→lt p count within)
      | inr beyond ↦ ground (
        arith,
        bit_at-add_position count 0 c h p,
        bit_at-bit_xor p h c,
        bit_at_above p count c below (ltb→ge p count beyond),
      )
    ]
