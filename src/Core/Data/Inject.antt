-- ===== src/Core/Data/Inject.antt =====
-- refresh_ecc_shadow, maybe_inject_ecc_error and check_ecc_shadow of src/core/data.cpp in a row: what
-- MemoryImage::write leaves in a block and what MemoryImage::read makes of it.
use mem_sim.Base.{
  ℕ, zero, suc, ◌+◌, ◌*◌, ◌%◌, ◌^◌, ◌≤◌, ◌<◌, ◌≡◌, refl, ap, ◌∙◌, inl, inr, Bool, true, false, not,
  ◌||◌, arith, ◌==◌, if◌then◌else◌, Bool-cases, length, bit_at, bit_at_above,
}
use mem_sim.Core.Data.Secded.{
  flip_byte_bit, code_position_for_data_bit, code_position_from, compute_secded_shadow,
  is_power_of_two_u64, parity_bits_for_data_bits, SecdedShadow,
}
use mem_sim.Core.Data.Shadow.{
  checksum_bytes, DataBlock, EccOptions, refresh_ecc_shadow, maybe_inject_ecc_error,
  check_ecc_shadow,
}
use mem_sim.Core.Data.Positions.{code_position_for_data_bit-lt}
use mem_sim.Core.Data.Code.{is_odd_weight, compute_secded_shadow-place_sum}
use mem_sim.Core.Data.Repair.{
  IsFresh, damaged, fresh_shadow, check_ecc_shadow-IsFresh, check_ecc_shadow-damaged,
}

no_weight_above :
    (count parity n : ℕ) → 2 ≤ parity → n < 2 ^ 2 → is_odd_weight count parity n ≡ false
unfolding is_odd_weight
no_weight_above zero parity n h l = refl
no_weight_above (suc count) parity n h l =
    rw (bit_at_above parity 2 n l h, no_weight_above count (parity + 1) n (omega arith) l) refl

-- The first data bit stands at position three, which has two digits.
even_three : (p : ℕ) → 3 < 2 ^ p → is_odd_weight p 0 3 ≡ false
unfolding is_odd_weight bit_at
even_three zero h = absurd (omega arith)
even_three (suc zero) h = absurd (omega arith)
even_three (suc (suc p)) h = rw (no_weight_above p (0 + 1 + 1) 3 (omega arith) (omega arith)) refl

first_position : code_position_for_data_bit 0 ≡ 3
unfolding code_position_for_data_bit code_position_from is_power_of_two_u64
first_position = refl

parity_bits_fresh :
    (options : EccOptions) (block : DataBlock)
    → options.ecc_shadow_enabled ≡ true
    → IsFresh options block
    → block.ecc_parity_bits ≡ parity_bits_for_data_bits (length block.bytes * 8)
parity_bits_fresh options block enabled fresh =
    ap (λ (s : SecdedShadow). s.parity_bits)
      (fresh_shadow options block enabled fresh ∙ compute_secded_shadow-place_sum block.bytes)

-- An error injected into a block with bytes and a fresh shadow and checksum, at any period, is
-- undone by the check, with the check and the correction enabled.
pub check_ecc_shadow-maybe_inject_ecc_error :
    (options : EccOptions) (block : DataBlock)
    → options.ecc_check_on_read ≡ true
    → options.ecc_correct_single_bit ≡ true
    → IsFresh options block
    → 0 < length block.bytes
    → check_ecc_shadow options (maybe_inject_ecc_error options block) ≡ block
unfolding maybe_inject_ecc_error damaged
check_ecc_shadow-maybe_inject_ecc_error options block checks corrects fresh some_bytes =
    elim (Bool-cases options.ecc_shadow_enabled) [
      | inl enabled ↦
          inject enabled (not options.ecc_shadow_enabled || options.ecc_inject_period == 0)
            (block.version == 0 || not (block.version % options.ecc_inject_period == 0))
      | inr disabled ↦ ap (check_ecc_shadow options) (stay disabled) ∙ unchanged
    ]
  where
    unchanged : check_ecc_shadow options block ≡ block
    unchanged = check_ecc_shadow-IsFresh options block fresh

    flipped : DataBlock
    flipped = damaged block 0 (checksum_bytes (flip_byte_bit block.bytes 0))

    stay : options.ecc_shadow_enabled ≡ false → maybe_inject_ecc_error options block ≡ block
    stay disabled =
        ap
          (λ b.
            if not b || options.ecc_inject_period == 0
            then block
            else (if block.version == 0 || not (block.version % options.ecc_inject_period == 0)
                then block
                else flipped))
          disabled

    repaired : options.ecc_shadow_enabled ≡ true → check_ecc_shadow options flipped ≡ block
    repaired enabled =
        let even : is_odd_weight block.ecc_parity_bits 0 (code_position_for_data_bit 0) ≡ false =
          ap (is_odd_weight block.ecc_parity_bits 0) first_position
          ∙ even_three block.ecc_parity_bits (
              omega (
                arith,
                ap (λ p. 2 ^ p) (parity_bits_fresh options block enabled fresh),
                first_position,
                code_position_for_data_bit-lt (length block.bytes * 8) 0 (omega arith),
              )) in
        check_ecc_shadow-damaged options block 0 (checksum_bytes (flip_byte_bit block.bytes 0))
          enabled checks corrects fresh (omega arith)
        ∙ rw even refl

    inject :
        options.ecc_shadow_enabled ≡ true
        → (a b : Bool)
        → check_ecc_shadow options (if a then block else if b then block else flipped) ≡ block
    inject enabled true b = unchanged
    inject enabled false true = unchanged
    inject enabled false false = repaired enabled

-- What refresh_ecc_shadow leaves is fresh.
pub refresh_ecc_shadow-IsFresh :
    (options : EccOptions) (block : DataBlock)
    → block.checksum ≡ checksum_bytes block.bytes
    → IsFresh options (refresh_ecc_shadow options block)
unfolding IsFresh refresh_ecc_shadow
refresh_ecc_shadow-IsFresh options block h =
    (again options.ecc_shadow_enabled, kept options.ecc_shadow_enabled)
  where
    refreshed : Bool → DataBlock → DataBlock
    refreshed b block =
        let shadow = compute_secded_shadow block.bytes in
        if not b
        then record block { ecc_valid = false; ecc_uncorrectable = false }
        else record block {
          ecc_hamming = shadow.hamming;
          ecc_overall = shadow.overall;
          ecc_parity_bits = shadow.parity_bits;
          ecc_valid = true;
          ecc_uncorrectable = false;
        }

    again : (b : Bool) → refreshed b (refreshed b block) ≡ refreshed b block
    again true = refl
    again false = refl

    kept : (b : Bool) → (refreshed b block).checksum ≡ checksum_bytes (refreshed b block).bytes
    kept true = h
    kept false = h
