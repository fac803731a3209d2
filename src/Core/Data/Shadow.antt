-- ===== src/Core/Data/Shadow.antt =====
-- refresh_ecc_shadow, maybe_inject_ecc_error and check_ecc_shadow of src/core/data.cpp.
use Prim.Native.Nat.{bit_xor}
use mem_sim.Base.{
  ℕ, ◌*◌, ◌%◌, ◌^◌, Bool, true, false, not, ◌&&◌, ◌||◌, Option, none, some, List, [], ◌∷◌, ◌==◌,
  if◌then◌else◌, length,
}
use mem_sim.Core.Data.Secded.{
  SecdedShadow, compute_secded_shadow, flip_byte_bit, is_power_of_two_u64,
  data_bit_for_code_position,
}

-- h ^= byte; h *= 16777619, on 32 bits
unfoldable pub checksum_from : ℕ → List ℕ → ℕ
checksum_from h [] = h
checksum_from h (byte ∷ bytes) = checksum_from (bit_xor h byte * 16777619 % 2 ^ 32) bytes

unfoldable pub checksum_bytes : List ℕ → ℕ
checksum_bytes bytes = checksum_from 2166136261 bytes

-- The fields of DataBlock, less its coordinates and what only reports read.
pub record DataBlock : Type 0 where
  -- physical.logical_line_base
  pub logical_line_base : ℕ
  pub bytes : List ℕ
  pub byte_mask : List ℕ
  pub initialized_mask : List ℕ
  pub initialized : Bool
  pub version : ℕ
  pub checksum : ℕ
  pub ecc_hamming : ℕ
  pub ecc_overall : Bool
  pub ecc_parity_bits : ℕ
  pub ecc_valid : Bool
  pub ecc_uncorrectable : Bool

pub record EccOptions : Type 0 where
  pub ecc_shadow_enabled : Bool
  pub ecc_check_on_read : Bool
  pub ecc_correct_single_bit : Bool
  pub ecc_inject_period : ℕ

unfoldable pub refresh_ecc_shadow : EccOptions → DataBlock → DataBlock
refresh_ecc_shadow options block =
    let shadow = compute_secded_shadow block.bytes in
    if not options.ecc_shadow_enabled
    then record block { ecc_valid = false; ecc_uncorrectable = false }
    else record block {
      ecc_hamming = shadow.hamming;
      ecc_overall = shadow.overall;
      ecc_parity_bits = shadow.parity_bits;
      ecc_valid = true;
      ecc_uncorrectable = false;
    }

unfoldable pub maybe_inject_ecc_error : EccOptions → DataBlock → DataBlock
maybe_inject_ecc_error options block =
    let bytes = flip_byte_bit block.bytes 0 in
    if not options.ecc_shadow_enabled || options.ecc_inject_period == 0
    then block
    else if block.version == 0 || not (block.version % options.ecc_inject_period == 0)
    then block
    else record block { bytes = bytes; checksum = checksum_bytes bytes }

abbrev pub uncorrectable : DataBlock → DataBlock
uncorrectable block = record block { ecc_uncorrectable = true }

-- The correction of a data bit, and its failure.
unfoldable pub correct_data_bit : EccOptions → DataBlock → Option ℕ → DataBlock
correct_data_bit options block none = uncorrectable block
correct_data_bit options block (some data_bit) =
    let bytes = flip_byte_bit block.bytes data_bit in
    if not options.ecc_correct_single_bit
    then uncorrectable block
    else refresh_ecc_shadow options
        (record block { bytes = bytes; checksum = checksum_bytes bytes })

-- The tests of the syndrome, in the order of the source.
unfoldable pub judge_syndrome : EccOptions → DataBlock → SecdedShadow → ℕ → Bool → DataBlock
judge_syndrome options block now syndrome overall_mismatch =
    if syndrome == 0 && not overall_mismatch
    then block
    else if syndrome == 0 && overall_mismatch
    then record block { ecc_overall = now.overall }
    else if not overall_mismatch
    then uncorrectable block
    else if is_power_of_two_u64 syndrome
    then record block { ecc_hamming = now.hamming; ecc_overall = now.overall }
    else correct_data_bit options block
        (data_bit_for_code_position syndrome (length block.bytes * 8))

abbrev pub is_different : Bool → Bool → Bool
is_different true b = not b
is_different false b = b

unfoldable pub check_ecc_shadow : EccOptions → DataBlock → DataBlock
check_ecc_shadow options block =
    let now = compute_secded_shadow block.bytes in
    if not options.ecc_shadow_enabled || not options.ecc_check_on_read || not block.ecc_valid
    then block
    else judge_syndrome options block now (bit_xor block.ecc_hamming now.hamming)
        (is_different block.ecc_overall now.overall)
