-- ===== src/Core/Data/Flip.antt =====
-- What a flipped data bit does to the shadow that compute_secded_shadow gives.
use Prim.Native.Nat.{bit_xor}
use mem_sim.Base.{
  ℕ, zero, suc, ◌+◌, ◌*◌, ◌/◌, ◌%◌, ◌^◌, ◌<◌, ◌≡◌, refl, ap, ◌∙◌, inl, inr, not, List, [], ◌∷◌,
  arith, ◌==◌, if◌then◌else◌, Bool-cases, length, get_or, modify, length-modify, get_or-modify,
  bit_at, bit_at-bit_xor, bit_at-lt, bit_at-power, bit_at-shift, bit_xor_cancel,
}
use mem_sim.Core.Data.Secded.{byte_bit, flip_byte_bit}

pub flip_byte_bit_twice : (bytes : List ℕ) (k : ℕ) → flip_byte_bit (flip_byte_bit bytes k) k ≡ bytes
unfolding flip_byte_bit
flip_byte_bit_twice bytes k = go bytes (k / 8)
  where
    flip : ℕ → ℕ
    flip b = bit_xor b (2 ^ (k % 8))

    go : (bytes : List ℕ) (i : ℕ) → modify (modify bytes i flip) i flip ≡ bytes
    go [] i = refl
    go (b ∷ bytes) zero = ap (λ x. x ∷ bytes) (bit_xor_cancel b (2 ^ (k % 8)))
    go (b ∷ bytes) (suc i) = ap (λ xs. b ∷ xs) (go bytes i)

pub length-flip_byte_bit : (bytes : List ℕ) (k : ℕ) → length (flip_byte_bit bytes k) ≡ length bytes
unfolding flip_byte_bit
length-flip_byte_bit bytes k = length-modify bytes (k / 8) _

-- The tests of a digit, as the source writes them.
shifted : (v t : ℕ) → not (v / 2 ^ t % 2 == 0) ≡ (bit_at t v == 1)
shifted v t = ground (arith, bit_at-shift t v, bit_at-lt t v)

-- Of the bits, the flip changes one.
pub byte_bit-flip_byte_bit :
    (bytes : List ℕ) (k j : ℕ)
    → k < length bytes * 8
    → byte_bit (flip_byte_bit bytes k) j
      ≡ (if j == k then not (byte_bit bytes j) else byte_bit bytes j)
unfolding byte_bit flip_byte_bit
byte_bit-flip_byte_bit bytes k j h =
    let flip = λ (b : ℕ). bit_xor b (2 ^ (k % 8)) in
    let value = get_or bytes (j / 8) 0 in
    let digit = bit_at (j % 8) value in
    let flipped : bit_at (j % 8) (flip value) ≡ (digit + (if j % 8 == k % 8 then 1 else 0)) % 2 =
      bit_at-bit_xor (j % 8) value (2 ^ (k % 8))
      ∙ ap (λ x. (digit + x) % 2) (bit_at-power (j % 8) (k % 8)) in
    let here = get_or-modify bytes (k / 8) (j / 8) flip 0 (omega arith) in
    elim (Bool-cases (k / 8 == j / 8)) [
      | inl same ↦
          rw
            (
              length-modify bytes (k / 8) flip,
              here,
              same,
              shifted (flip value) (j % 8),
              shifted value (j % 8),
              flipped,
            )
            (ground (arith, bit_at-lt (j % 8) value))
      | inr other ↦
          rw (length-modify bytes (k / 8) flip, here, other, shifted value (j % 8)) (ground arith)
    ]
