-- ===== src/Core/Data/Settled.antt =====
-- check_ecc_shadow, refresh_ecc_shadow and maybe_inject_ecc_error of src/core/data.cpp on the blocks that
-- the data path hands to them.
use Prim.Native.Nat.{bit_xor}
use mem_sim.Base.{
  ◌%◌, ◌≡◌, refl, sym, ap, ap₂, ◌∙◌, ◌⊎◌, inl, inr, Bool, true, false, not, ◌||◌, ◌==◌,
  if◌then◌else◌, Bool-cases, bit_xor_self,
}
use mem_sim.Core.Data.Secded.{flip_byte_bit, SecdedShadow, compute_secded_shadow}
use mem_sim.Core.Data.Code.{shadow_of}
use mem_sim.Core.Data.Shadow.{
  checksum_bytes, is_different, DataBlock, EccOptions, refresh_ecc_shadow, maybe_inject_ecc_error,
  judge_syndrome, check_ecc_shadow,
}
use mem_sim.Core.Data.Repair.{different_self}
use mem_sim.Core.Data.Coherence.{HasShadow}

module _ (options : EccOptions) (block : DataBlock) where
  guarded : Bool → Bool → DataBlock
  guarded valid enabled =
      if enabled || not valid
      then block
      else judge_syndrome options block (compute_secded_shadow block.bytes)
          (bit_xor block.ecc_hamming (compute_secded_shadow block.bytes).hamming)
          (is_different block.ecc_overall (compute_secded_shadow block.bytes).overall)

  pub check_ecc_shadow-HasShadow : HasShadow block → check_ecc_shadow options block ≡ block
  unfolding HasShadow check_ecc_shadow judge_syndrome guarded
  check_ecc_shadow-HasShadow (inl invalid) =
      ap (λ valid. guarded valid (not options.ecc_shadow_enabled || not options.ecc_check_on_read))
        invalid
      ∙ unguarded (not options.ecc_shadow_enabled || not options.ecc_check_on_read)
    where
      unguarded : (b : Bool) → guarded false b ≡ block
      unguarded true = refl
      unguarded false = refl
  check_ecc_shadow-HasShadow (inr same) =
      let syndrome : bit_xor block.ecc_hamming (compute_secded_shadow block.bytes).hamming ≡ 0 =
        ap (λ (s : SecdedShadow). bit_xor block.ecc_hamming s.hamming) (sym same)
        ∙ bit_xor_self block.ecc_hamming in
      let overall : is_different block.ecc_overall (compute_secded_shadow block.bytes).overall
          ≡ false =
        ap (λ (s : SecdedShadow). is_different block.ecc_overall s.overall) (sym same)
        ∙ different_self block.ecc_overall in
      ap₂
        (λ x y.
          if not options.ecc_shadow_enabled || not options.ecc_check_on_read || not block.ecc_valid
          then block
          else judge_syndrome options block (compute_secded_shadow block.bytes) x y)
        syndrome overall
      ∙ either
          (not options.ecc_shadow_enabled || not options.ecc_check_on_read || not block.ecc_valid)
    where
      either : (b : Bool) → (if b then block else block) ≡ block
      either true = refl
      either false = refl

  pub refresh_ecc_shadow-HasShadow : HasShadow (refresh_ecc_shadow options block)
  unfolding HasShadow refresh_ecc_shadow
  refresh_ecc_shadow-HasShadow = go options.ecc_shadow_enabled
    where
      refreshed : Bool → DataBlock
      refreshed b =
          let shadow = compute_secded_shadow block.bytes in
          if not b
          then record block { ecc_valid = false; ecc_uncorrectable = false }
          else record block {
            ecc_hamming = shadow.hamming;
            ecc_overall = shadow.overall;
            ecc_parity_bits = shadow.parity_bits;
            ecc_valid = true;
            ecc_uncorrectable = false;
          }

      go :
          (b : Bool)
          → ((refreshed b).ecc_valid ≡ false)
            ⊎ (shadow_of
                  (refreshed b).ecc_hamming
                  (refreshed b).ecc_overall
                  (refreshed b).ecc_parity_bits
                ≡ compute_secded_shadow (refreshed b).bytes)
      go true = inr refl
      go false = inl refl

  pub refresh_ecc_shadow_bytes :
      ((refresh_ecc_shadow options block).bytes ≡ block.bytes)
      × ((refresh_ecc_shadow options block).initialized_mask ≡ block.initialized_mask)
      × ((refresh_ecc_shadow options block).logical_line_base ≡ block.logical_line_base)
  unfolding refresh_ecc_shadow
  refresh_ecc_shadow_bytes = elim (Bool-cases options.ecc_shadow_enabled) [
    | inl enabled ↦ (rw enabled refl, rw enabled refl, rw enabled refl)
    | inr disabled ↦ (rw disabled refl, rw disabled refl, rw disabled refl)
  ]

  pub maybe_inject_ecc_error-off :
      options.ecc_inject_period ≡ 0 → maybe_inject_ecc_error options block ≡ block
  unfolding maybe_inject_ecc_error
  maybe_inject_ecc_error-off off =
      ap
        (λ n.
          if not options.ecc_shadow_enabled || n == 0
          then block
          else if block.version == 0 || not (block.version % n == 0)
          then block
          else injected)
        off
      ∙ either (not options.ecc_shadow_enabled)
    where
      injected : DataBlock
      injected =
          let bytes = flip_byte_bit block.bytes 0 in
          record block { bytes = bytes; checksum = checksum_bytes bytes }

      either :
          (b : Bool)
          → (if b || 0 == 0
              then block
              else if block.version == 0 || not (block.version % 0 == 0)
              then block
              else injected)
            ≡ block
      either true = refl
      either false = refl
