-- ===== src/Core/Data/Repair.antt =====
-- check_ecc_shadow of src/core/data.cpp on a block with a fresh shadow, and after one flipped data bit.
use Prim.Native.Nat.{bit_xor}
use mem_sim.Base.{
  ℕ, ◌*◌, ◌<◌, ◌≡◌, refl, sym, ap, ap₂, ◌∙◌, inl, inr, Bool, true, false, not, ◌||◌, some, List,
  arith, ◌==◌, if◌then◌else◌, Bool-cases, length, bit_xor_cancel, bit_xor_self, bit_xor_comm,
}
use mem_sim.Core.Data.Secded.{
  flip_byte_bit, code_position_for_data_bit, compute_secded_shadow, data_bit_for_code_position,
  SecdedShadow,
}
use mem_sim.Core.Data.Shadow.{
  is_different, checksum_bytes, DataBlock, EccOptions, refresh_ecc_shadow, correct_data_bit,
  judge_syndrome, check_ecc_shadow, uncorrectable,
}
use mem_sim.Core.Data.Positions.{data_bit-code_position, code_position_for_data_bit-data}
use mem_sim.Core.Data.Flip.{length-flip_byte_bit, flip_byte_bit_twice}
use mem_sim.Core.Data.Code.{is_odd_weight, shadow_of}
use mem_sim.Core.Data.Flipped.{compute_secded_shadow-flip_byte_bit}

-- The shadow and the checksum are those of the bytes.
unfoldable pub IsFresh : EccOptions → DataBlock → Type 0
IsFresh options block =
    (refresh_ecc_shadow options block ≡ block) × (block.checksum ≡ checksum_bytes block.bytes)

-- One data bit flipped, whatever the checksum then is.
unfoldable pub damaged : DataBlock → ℕ → ℕ → DataBlock
damaged block k checksum = record block { bytes = flip_byte_bit block.bytes k; checksum = checksum }

pub different_self : (a : Bool) → is_different a a ≡ false
different_self true = refl
different_self false = refl

module _ (options : EccOptions) (block : DataBlock) (enabled : options.ecc_shadow_enabled ≡ true)
    (fresh : IsFresh options block) where
  pub fresh_shadow :
      shadow_of block.ecc_hamming block.ecc_overall block.ecc_parity_bits
      ≡ compute_secded_shadow block.bytes
  unfolding IsFresh refresh_ecc_shadow
  fresh_shadow =
      ap (λ (b : DataBlock). shadow_of b.ecc_hamming b.ecc_overall b.ecc_parity_bits) (sym fresh.0)
      ∙ rw enabled refl

  fresh_valid : block.ecc_valid ≡ true
  unfolding IsFresh refresh_ecc_shadow
  fresh_valid = ap (λ (b : DataBlock). b.ecc_valid) (sym fresh.0) ∙ rw enabled refl

pub check_ecc_shadow-IsFresh :
    (options : EccOptions) (block : DataBlock)
    → IsFresh options block
    → check_ecc_shadow options block ≡ block
unfolding check_ecc_shadow judge_syndrome
check_ecc_shadow-IsFresh options block fresh = elim (Bool-cases options.ecc_shadow_enabled) [
  | inl enabled ↦
      let same = fresh_shadow options block enabled fresh in
      let syndrome : bit_xor block.ecc_hamming (compute_secded_shadow block.bytes).hamming ≡ 0 =
        ap (λ (s : SecdedShadow). bit_xor block.ecc_hamming s.hamming) (sym same)
        ∙ bit_xor_self block.ecc_hamming in
      let overall : is_different block.ecc_overall (compute_secded_shadow block.bytes).overall
          ≡ false =
        ap (λ (s : SecdedShadow). is_different block.ecc_overall s.overall) (sym same)
        ∙ different_self block.ecc_overall in
      rw (enabled, syndrome, overall)
        (either (not options.ecc_check_on_read || not block.ecc_valid))
  | inr disabled ↦ rw disabled refl
]
  where
    either : (b : Bool) → (if b then block else block) ≡ block
    either true = refl
    either false = refl

different_from_flip : (o w : Bool) → is_different o (not (is_different o w)) ≡ not w
different_from_flip true true = refl
different_from_flip true false = refl
different_from_flip false w = refl

syndrome_of_flip : (h c : ℕ) → bit_xor h (bit_xor h c) ≡ c
syndrome_of_flip h c =
    ap (bit_xor h) (bit_xor_comm h c) ∙ bit_xor_comm h (bit_xor c h) ∙ bit_xor_cancel c h

module _ (options : EccOptions) (block : DataBlock) (enabled : options.ecc_shadow_enabled ≡ true)
    (fresh : IsFresh options block) (corrects : options.ecc_correct_single_bit ≡ true)
    (k checksum : ℕ) (inside : k < length block.bytes * 8) where
  -- The correction undoes the flip, and the shadow computed again is the old one.
  correct_data_bit-damaged : correct_data_bit options (damaged block k checksum) (some k) ≡ block
  unfolding correct_data_bit damaged IsFresh
  correct_data_bit-damaged =
      ap
        (λ b.
          if not b
          then uncorrectable (damaged block k checksum)
          else refresh_ecc_shadow options (stored (flip_byte_bit (flip_byte_bit block.bytes k) k)))
        corrects
      ∙ ap (λ bytes. refresh_ecc_shadow options (stored bytes)) (flip_byte_bit_twice block.bytes k)
      ∙ ap (λ c. refresh_ecc_shadow options (record block { checksum = c })) (sym fresh.1)
      ∙ fresh.0
    where
      stored : List ℕ → DataBlock
      stored bytes = record block { bytes = bytes; checksum = checksum_bytes bytes }

  judge_syndrome-damaged :
      (now : SecdedShadow)
      → judge_syndrome options
          (damaged block k checksum)
          now
          (code_position_for_data_bit k)
          (not (is_odd_weight block.ecc_parity_bits 0 (code_position_for_data_bit k)))
        ≡ (if is_odd_weight block.ecc_parity_bits 0 (code_position_for_data_bit k)
            then uncorrectable (damaged block k checksum)
            else block)
  unfolding judge_syndrome damaged
  judge_syndrome-damaged now =
      let c = code_position_for_data_bit k in
      let (other, at_least) = code_position_for_data_bit-data k in
      let some_syndrome : (c == 0) ≡ false = ground arith in
      elim (Bool-cases (is_odd_weight block.ecc_parity_bits 0 c)) [
        | inl odd ↦ rw (odd, some_syndrome) refl
        | inr even ↦
            rw (even, some_syndrome, other)
              (ap (correct_data_bit options (damaged block k checksum)) found
                ∙ correct_data_bit-damaged)
      ]
    where
      found :
          data_bit_for_code_position
            (code_position_for_data_bit k)
            (length (damaged block k checksum).bytes * 8)
          ≡ some k
      found =
          ap (λ n. data_bit_for_code_position (code_position_for_data_bit k) (n * 8))
            (length-flip_byte_bit block.bytes k)
          ∙ data_bit-code_position (length block.bytes * 8) k inside

-- A data bit flipped in a block with a fresh shadow and checksum is undone by the check, with
-- shadow and checksum as before, if its code position has an even number of ones, and is reported
-- as uncorrectable if it has an odd number; with the shadow, the check and the correction enabled.
pub check_ecc_shadow-damaged :
    (options : EccOptions) (block : DataBlock) (k checksum : ℕ)
    → options.ecc_shadow_enabled ≡ true
    → options.ecc_check_on_read ≡ true
    → options.ecc_correct_single_bit ≡ true
    → IsFresh options block
    → k < length block.bytes * 8
    → check_ecc_shadow options (damaged block k checksum) ≡ (
        if is_odd_weight block.ecc_parity_bits 0 (code_position_for_data_bit k)
        then uncorrectable (damaged block k checksum)
        else block)
unfolding check_ecc_shadow damaged
check_ecc_shadow-damaged options block k checksum enabled checks corrects fresh inside =
    let same = fresh_shadow options block enabled fresh in
    let now = compute_secded_shadow (flip_byte_bit block.bytes k) in
    let c = code_position_for_data_bit k in
    let flipped : now
        ≡ shadow_of (bit_xor block.ecc_hamming c)
            (not (is_different block.ecc_overall (is_odd_weight block.ecc_parity_bits 0 c)))
            block.ecc_parity_bits =
      compute_secded_shadow-flip_byte_bit block.bytes k inside
      ∙ ap
          (λ (s : SecdedShadow).
            shadow_of (bit_xor s.hamming c)
              (not (is_different s.overall (is_odd_weight s.parity_bits 0 c))) s.parity_bits)
          (sym same) in
    let syndrome : bit_xor block.ecc_hamming now.hamming ≡ c =
      ap (λ (s : SecdedShadow). bit_xor block.ecc_hamming s.hamming) flipped
      ∙ syndrome_of_flip block.ecc_hamming c in
    let overall : is_different block.ecc_overall now.overall
        ≡ not (is_odd_weight block.ecc_parity_bits 0 c) =
      ap (λ (s : SecdedShadow). is_different block.ecc_overall s.overall) flipped
      ∙ different_from_flip block.ecc_overall (is_odd_weight block.ecc_parity_bits 0 c) in
    ap
      (λ g.
        if g
        then damaged block k checksum
        else judge_syndrome options (damaged block k checksum) now
            (bit_xor block.ecc_hamming now.hamming) (is_different block.ecc_overall now.overall))
      (opened enabled checks (fresh_valid options block enabled fresh))
    ∙ ap₂ (judge_syndrome options (damaged block k checksum) now) syndrome overall
    ∙ judge_syndrome-damaged options block enabled fresh corrects k checksum inside now
  where
    opened : {a b c : Bool} → a ≡ true → b ≡ true → c ≡ true → not a || not b || not c ≡ false
    opened e f g = rw (e, f, g) refl
