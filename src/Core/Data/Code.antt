-- ===== src/Core/Data/Code.antt =====
-- compute_secded_shadow of src/core/data.cpp as sums over the data bits.
use Prim.Native.Nat.{bit_xor}
use mem_sim.Base.{
  ℕ, zero, suc, ◌+◌, ◌*◌, ◌%◌, ◌≤◌, ◌<◌, ◌≡◌, refl, sym, ap, ap₂, ◌∙◌, inl, inr, Bool, true, false,
  not, List, arith, ◌==◌, if◌then◌else◌, Bool-cases, length, set, bit_at, bit_at-bit_xor, bit_at-lt,
  bit_xor_zero_right, bit_xor_assoc, bit_xor_zero,
}
use mem_sim.Core.Data.Secded.{
  byte_bit, code_position_for_data_bit, parity_bits_for_data_bits, SecdedShadow, add_data_bits,
  add_parity_bits, compute_secded_shadow,
}
use mem_sim.Core.Data.Shadow.{is_different}
use mem_sim.Core.Data.Positions.{code_position_for_data_bit-lt}
use mem_sim.Core.Data.Addition.{test_digit, add_position-bit_xor}

-- The positions of the set bits among `count` from `bit` on, added without carry.
unfoldable pub place_sum : ℕ → ℕ → List ℕ → ℕ
place_sum zero bit bytes = 0
place_sum (suc count) bit bytes =
    bit_xor (if byte_bit bytes bit then code_position_for_data_bit bit else 0)
      (place_sum count (bit + 1) bytes)

-- Whether the set bits are odd in number.
unfoldable pub is_odd_count : ℕ → ℕ → List ℕ → Bool
is_odd_count zero bit bytes = false
is_odd_count (suc count) bit bytes =
    is_different (byte_bit bytes bit) (is_odd_count count (bit + 1) bytes)

-- Whether the digits of a number from `parity` on, `count` of them, hold an odd number of ones.
unfoldable pub is_odd_weight : ℕ → ℕ → ℕ → Bool
is_odd_weight zero parity n = false
is_odd_weight (suc count) parity n =
    is_different (bit_at parity n == 1) (is_odd_weight count (parity + 1) n)

pub different_assoc :
    (a b c : Bool) → is_different (is_different a b) c ≡ is_different a (is_different b c)
different_assoc true true true = refl
different_assoc true true false = refl
different_assoc true false c = refl
different_assoc false b c = refl

pub different_not : (a b : Bool) → is_different a (not b) ≡ not (is_different a b)
different_not true b = refl
different_not false b = refl

pub not_different : (a b : Bool) → is_different (not a) b ≡ not (is_different a b)
not_different true true = refl
not_different true false = refl
not_different false b = refl

different_false : (a : Bool) → is_different a false ≡ a
different_false true = refl
different_false false = refl

abbrev pub shadow_of : ℕ → Bool → ℕ → SecdedShadow
shadow_of hamming overall parity_bits = record {
  hamming = hamming;
  overall = overall;
  parity_bits = parity_bits;
}

add_data_bits-place_sum :
    (count bit : ℕ) (bytes : List ℕ) (d hamming : ℕ) (overall : Bool)
    → bit + count ≤ d
    → add_data_bits count bit bytes (shadow_of hamming overall (parity_bits_for_data_bits d))
      ≡ shadow_of
          (bit_xor hamming (place_sum count bit bytes))
          (is_different overall (is_odd_count count bit bytes))
          (parity_bits_for_data_bits d)
unfolding add_data_bits place_sum is_odd_count
add_data_bits-place_sum zero bit bytes d hamming overall h =
    ap₂ (λ x b. shadow_of x b (parity_bits_for_data_bits d)) (sym (bit_xor_zero_right hamming))
      (sym (different_false overall))
add_data_bits-place_sum (suc count) bit bytes d hamming overall h =
    elim (Bool-cases (byte_bit bytes bit)) [
      | inl set ↦
          let position = code_position_for_data_bit bit in
          let added =
            add_position-bit_xor (parity_bits_for_data_bits d) position hamming
              (code_position_for_data_bit-lt d bit (omega arith)) in
          rw (set, added)
            (add_data_bits-place_sum count (bit + 1) bytes d (bit_xor hamming position)
                (not overall) (omega arith)
              ∙ ap₂ (λ x b. shadow_of x b (parity_bits_for_data_bits d))
                  (bit_xor_assoc hamming position (place_sum count (bit + 1) bytes))
                  (not_different overall _ ∙ sym (different_not overall _)))
      | inr clear ↦
          rw (clear, bit_xor_zero (place_sum count (bit + 1) bytes))
            (add_data_bits-place_sum count (bit + 1) bytes d hamming overall (omega arith))
    ]

add_parity_bits-is_odd_weight :
    (count parity hamming : ℕ) (overall : Bool)
    → add_parity_bits count parity hamming overall
      ≡ is_different overall (is_odd_weight count parity hamming)
unfolding add_parity_bits is_odd_weight
add_parity_bits-is_odd_weight zero parity hamming overall = sym (different_false overall)
add_parity_bits-is_odd_weight (suc count) parity hamming overall =
    elim (Bool-cases (bit_at parity hamming == 1)) [
      | inl one ↦
          rw (test_digit parity hamming, one)
            (add_parity_bits-is_odd_weight count (parity + 1) hamming (not overall)
              ∙ not_different overall _
              ∙ sym (different_not overall _))
      | inr other ↦
          rw (test_digit parity hamming, other)
            (add_parity_bits-is_odd_weight count (parity + 1) hamming overall)
    ]

pub different_swap :
    (a b c d : Bool)
    → is_different (is_different a b) (is_different c d)
      ≡ is_different (is_different a c) (is_different b d)
different_swap true true true d = refl
different_swap true true false true = refl
different_swap true true false false = refl
different_swap true false true true = refl
different_swap true false true false = refl
different_swap true false false d = refl
different_swap false true true d = refl
different_swap false true false d = refl
different_swap false false c d = refl

digit_different :
    (p a b : ℕ) → (bit_at p (bit_xor a b) == 1) ≡ is_different (bit_at p a == 1) (bit_at p b == 1)
digit_different p a b =
    go (bit_at p a) (bit_at p b) (bit_at-lt p a) (bit_at-lt p b) (bit_at-bit_xor p a b)
  where
    go :
        (x y : ℕ)
        → x < 2
        → y < 2
        → bit_at p (bit_xor a b) ≡ (x + y) % 2
        → (bit_at p (bit_xor a b) == 1) ≡ is_different (x == 1) (y == 1)
    go zero zero h l e = ap (λ z. z == 1) e
    go zero (suc zero) h l e = ap (λ z. z == 1) e
    go (suc zero) zero h l e = ap (λ z. z == 1) e
    go (suc zero) (suc zero) h l e = ap (λ z. z == 1) e
    go x (suc (suc y)) h l e = absurd (omega arith)
    go (suc (suc x)) y h l e = absurd (omega arith)

pub is_odd_weight-bit_xor :
    (count parity a b : ℕ)
    → is_odd_weight count parity (bit_xor a b)
      ≡ is_different (is_odd_weight count parity a) (is_odd_weight count parity b)
unfolding is_odd_weight
is_odd_weight-bit_xor zero parity a b = refl
is_odd_weight-bit_xor (suc count) parity a b =
    ap₂ is_different (digit_different parity a b) (is_odd_weight-bit_xor count (parity + 1) a b)
    ∙ different_swap (bit_at parity a == 1) (bit_at parity b == 1) _ _

-- compute_secded_shadow by the two sums.
pub compute_secded_shadow-place_sum :
    (bytes : List ℕ)
    → let d = length bytes * 8 in
      let p = parity_bits_for_data_bits d in
      compute_secded_shadow bytes
      ≡ shadow_of
          (place_sum d 0 bytes)
          (is_different (is_odd_count d 0 bytes) (is_odd_weight p 0 (place_sum d 0 bytes)))
          p
unfolding compute_secded_shadow
compute_secded_shadow-place_sum bytes =
    let d = length bytes * 8 in
    let p = parity_bits_for_data_bits d in
    let sums : add_data_bits d 0 bytes (shadow_of 0 false p)
        ≡ shadow_of (place_sum d 0 bytes) (is_odd_count d 0 bytes) p =
      add_data_bits-place_sum d 0 bytes d 0 false (omega arith)
      ∙ ap (λ x. shadow_of x (is_odd_count d 0 bytes) p) (bit_xor_zero (place_sum d 0 bytes)) in
    ap
      (λ (s : SecdedShadow). record s {
        overall = add_parity_bits s.parity_bits 0 s.hamming s.overall;
      })
      sums
    ∙ ap (λ b. shadow_of (place_sum d 0 bytes) b p)
        (add_parity_bits-is_odd_weight p 0 (place_sum d 0 bytes) (is_odd_count d 0 bytes))
