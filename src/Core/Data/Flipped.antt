-- ===== src/Core/Data/Flipped.antt =====
-- What compute_secded_shadow of src/core/data.cpp gives after one flipped data bit.
use Prim.Native.Nat.{bit_xor}
use mem_sim.Base.{
  ℕ, zero, suc, ◌+◌, ◌*◌, ◌≤◌, ◌<◌, ◌≡◌, refl, sym, ap, ◌∙◌, inl, inr, Bool, true, false, not, List,
  arith, ◌==◌, if◌then◌else◌, ==→eq, ==_refl, Bool-cases, length, bit_xor_cancel, bit_xor_assoc,
  bit_xor_comm, bit_xor_zero,
}
use mem_sim.Core.Data.Secded.{
  byte_bit, flip_byte_bit, code_position_for_data_bit, parity_bits_for_data_bits,
  compute_secded_shadow,
}
use mem_sim.Core.Data.Shadow.{is_different}
use mem_sim.Core.Data.Flip.{byte_bit-flip_byte_bit, length-flip_byte_bit}
use mem_sim.Core.Data.Code.{
  place_sum, is_odd_count, is_odd_weight, shadow_of, compute_secded_shadow-place_sum,
  is_odd_weight-bit_xor, different_assoc, not_different, different_not,
}

module _ (bytes : List ℕ) (k : ℕ) (inside : k < length bytes * 8) where
  flipped_same : (j : ℕ) → (j == k) ≡ false → byte_bit (flip_byte_bit bytes k) j ≡ byte_bit bytes j
  flipped_same j other = byte_bit-flip_byte_bit bytes k j inside ∙ rw other refl

  flipped_here : byte_bit (flip_byte_bit bytes k) k ≡ not (byte_bit bytes k)
  flipped_here = byte_bit-flip_byte_bit bytes k k inside ∙ rw (==_refl k) refl

  place_sum_beyond :
      (count bit : ℕ)
      → k < bit
      → place_sum count bit (flip_byte_bit bytes k) ≡ place_sum count bit bytes
  unfolding place_sum
  place_sum_beyond zero bit h = refl
  place_sum_beyond (suc count) bit h =
      rw (flipped_same bit (ground arith), place_sum_beyond count (bit + 1) (omega arith)) refl

  is_odd_count_beyond :
      (count bit : ℕ)
      → k < bit
      → is_odd_count count bit (flip_byte_bit bytes k) ≡ is_odd_count count bit bytes
  unfolding is_odd_count
  is_odd_count_beyond zero bit h = refl
  is_odd_count_beyond (suc count) bit h =
      rw (flipped_same bit (ground arith), is_odd_count_beyond count (bit + 1) (omega arith)) refl

  head_flip :
      (b : Bool) (c rest : ℕ)
      → bit_xor (if not b then c else 0) rest ≡ bit_xor (bit_xor (if b then c else 0) rest) c
  head_flip true c rest =
      bit_xor_zero rest ∙ sym (bit_xor_cancel rest c) ∙ ap (λ x. bit_xor x c) (bit_xor_comm rest c)
  head_flip false c rest = bit_xor_comm c rest ∙ ap (λ x. bit_xor x c) (sym (bit_xor_zero rest))

  place_sum-flip_byte_bit :
      (count bit : ℕ)
      → bit ≤ k
      → k < bit + count
      → place_sum count bit (flip_byte_bit bytes k)
        ≡ bit_xor (place_sum count bit bytes) (code_position_for_data_bit k)
  unfolding place_sum
  place_sum-flip_byte_bit zero bit h l = absurd (omega arith)
  place_sum-flip_byte_bit (suc count) bit h l = elim (Bool-cases (bit == k)) [
    | inl here ↦
        let same : bit ≡ k = ==→eq bit k here in
        rw (same, flipped_here, place_sum_beyond count (k + 1) (omega arith))
          (head_flip (byte_bit bytes k) (code_position_for_data_bit k)
            (place_sum count (k + 1) bytes))
    | inr other ↦
        rw
          (
            flipped_same bit other,
            place_sum-flip_byte_bit count (bit + 1) (ground arith) (omega arith),
          )
          (sym (bit_xor_assoc _ (place_sum count (bit + 1) bytes) (code_position_for_data_bit k)))
  ]

  is_odd_count-flip_byte_bit :
      (count bit : ℕ)
      → bit ≤ k
      → k < bit + count
      → is_odd_count count bit (flip_byte_bit bytes k) ≡ not (is_odd_count count bit bytes)
  unfolding is_odd_count
  is_odd_count-flip_byte_bit zero bit h l = absurd (omega arith)
  is_odd_count-flip_byte_bit (suc count) bit h l = elim (Bool-cases (bit == k)) [
    | inl here ↦
        let same : bit ≡ k = ==→eq bit k here in
        rw (same, flipped_here, is_odd_count_beyond count (k + 1) (omega arith))
          (not_different (byte_bit bytes k) _)
    | inr other ↦
        rw
          (
            flipped_same bit other,
            is_odd_count-flip_byte_bit count (bit + 1) (ground arith) (omega arith),
          )
          (different_not (byte_bit bytes bit) _)
  ]

  pub compute_secded_shadow-flip_byte_bit :
      let s = compute_secded_shadow bytes in
      let c = code_position_for_data_bit k in
      compute_secded_shadow (flip_byte_bit bytes k)
      ≡ shadow_of
          (bit_xor s.hamming c)
          (not (is_different s.overall (is_odd_weight s.parity_bits 0 c)))
          s.parity_bits
  compute_secded_shadow-flip_byte_bit =
      let d = length bytes * 8 in
      let p = parity_bits_for_data_bits d in
      let c = code_position_for_data_bit k in
      let sum = place_sum d 0 bytes in
      let odd = is_odd_count d 0 bytes in
      let weight = is_odd_weight p 0 in
      rw (compute_secded_shadow-place_sum bytes) (
        compute_secded_shadow-place_sum (flip_byte_bit bytes k)
        ∙ rw
            (
              length-flip_byte_bit bytes k,
              place_sum-flip_byte_bit d 0 (omega arith) (omega arith),
              is_odd_count-flip_byte_bit d 0 (omega arith) (omega arith),
              is_odd_weight-bit_xor p 0 sum c,
            )
            (ap (λ b. shadow_of (bit_xor sum c) b p)
              (not_different odd (is_different (weight sum) (weight c))
                ∙ ap not (sym (different_assoc odd (weight sum) (weight c))))))
