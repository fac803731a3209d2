-- ===== src/Core/Data/Written.antt =====
-- What the body of MemoryImage::write in src/core/data.cpp makes of the block that it writes to.
use mem_sim.Base.{
  ℕ, zero, suc, ◌+◌, ◌-◌, ◌≤◌, ◌<◌, ◌≡◌, refl, sym, ap, ap₂, subst, ◌∙◌, inl, inr, Bool, true,
  false, ◌&&◌, ◌||◌, Option, List, arith, ltb, leb, ◌==◌, if◌then◌else◌, leb→le, ==→eq, Bool-cases,
  length, get_or, set, replicate, length-set, get_or-set,
}
use mem_sim.Core.Data.Shadow.{DataBlock, refresh_ecc_shadow}
use mem_sim.Core.Data.Image.{ImageOptions, refresh_line_metadata}
use mem_sim.Core.Data.Access.{is_wanted, write_byte, write_bytes, wrote_any, written_block}
use mem_sim.Core.Data.Coherence.{contents, HasShadow, IsLine}
use mem_sim.Core.Data.Settled.{
  refresh_ecc_shadow-HasShadow, refresh_ecc_shadow_bytes, maybe_inject_ecc_error-off,
}

-- A chunk laid over a line: the values of the wanted source indices, from `src` and `at` on.
unfoldable pub overlay : ℕ → ℕ → ℕ → (ℕ → ℕ) → Option (List ℕ) → List ℕ → List ℕ
overlay zero src at value mask line = line
overlay (suc chunk) src at value mask line =
    overlay chunk (src + 1) (at + 1) value mask
      (if is_wanted mask src then set line at (value src) else line)

-- Both lists of a line: the bytes take the data, the mask 0xff.
abbrev pub overlaid : ℕ → ℕ → ℕ → List ℕ → Option (List ℕ) → List ℕ × List ℕ → List ℕ × List ℕ
overlaid chunk src at data_bytes mask line = (
  overlay chunk src at (λ s. get_or data_bytes s 0) mask line.0,
  overlay chunk src at (λ s. 255) mask line.1,
)

module _ (value : ℕ → ℕ) (mask : Option (List ℕ)) where
  pub length-overlay :
      (chunk src at : ℕ) (line : List ℕ)
      → length (overlay chunk src at value mask line) ≡ length line
  unfolding overlay
  length-overlay zero src at line = refl
  length-overlay (suc chunk) src at line =
      length-overlay chunk (src + 1) (at + 1) _ ∙ go (is_wanted mask src)
    where
      go : (b : Bool) → length (if b then set line at (value src) else line) ≡ length line
      go true = length-set line at (value src)
      go false = refl

  pub overlay_unwanted :
      (chunk src at : ℕ) (line : List ℕ)
      → wrote_any chunk src mask ≡ false
      → overlay chunk src at value mask line ≡ line
  unfolding overlay wrote_any
  overlay_unwanted zero src at line none_wanted = refl
  overlay_unwanted (suc chunk) src at line none_wanted =
      let (unwanted, rest) =
        neither (is_wanted mask src) (wrote_any chunk (src + 1) mask) none_wanted in
      ap
        (λ b.
          overlay chunk (src + 1) (at + 1) value mask (if b then set line at (value src) else line))
        unwanted
      ∙ overlay_unwanted chunk (src + 1) (at + 1) line rest
    where
      neither : (a b : Bool) → a || b ≡ false → (a ≡ false) × (b ≡ false)
      neither true b e = absurd (ground (arith, e))
      neither false b e = (refl, e)

  get_or-next :
      (src at : ℕ) (line : List ℕ) (i : ℕ) (b : Bool)
      → at < length line
      → get_or (if b then set line at (value src) else line) i 0
        ≡ (if at == i && b then value src else get_or line i 0)
  get_or-next src at line i true fits = ground (arith, get_or-set line at i (value src) 0 fits)
  get_or-next src at line i false fits = ground arith

  -- Byte by byte: the wanted ones are new, the others stay.
  pub get_or-overlay :
      (chunk src at : ℕ) (line : List ℕ) (i : ℕ)
      → at + chunk ≤ length line
      → get_or (overlay chunk src at value mask line) i 0 ≡ (
          if leb at i && ltb i (at + chunk) && is_wanted mask (src + (i - at))
          then value (src + (i - at))
          else get_or line i 0)
  unfolding overlay
  get_or-overlay zero src at line i fits = ground arith
  get_or-overlay (suc chunk) src at line i fits =
      let next = if is_wanted mask src then set line at (value src) else line in
      let step = get_or-next src at line i (is_wanted mask src) (omega arith) in
      let rest =
        get_or-overlay chunk (src + 1) (at + 1) next i
          (omega (arith, fits, next_length (is_wanted mask src))) in
      rest
      ∙ ap
          (λ x.
            if leb (at + 1) i && ltb i (at + 1 + chunk) && is_wanted mask (src + 1 + (i - (at + 1)))
            then value (src + 1 + (i - (at + 1)))
            else x)
          step
      ∙ settle
    where
      next_length : (b : Bool) → length (if b then set line at (value src) else line) ≡ length line
      next_length true = length-set line at (value src)
      next_length false = refl

      settle :
          (if leb (at + 1) i && ltb i (at + 1 + chunk) && is_wanted mask (src + 1 + (i - (at + 1)))
            then value (src + 1 + (i - (at + 1)))
            else if at == i && is_wanted mask src
            then value src
            else get_or line i 0)
          ≡ (if leb at i && ltb i (at + suc chunk) && is_wanted mask (src + (i - at))
              then value (src + (i - at))
              else get_or line i 0)
      settle = elim (Bool-cases (at == i)) [
        | inl here ↦
            let same : src + (i - at) ≡ src = omega (arith, ==→eq at i here) in
            let not_later : leb (at + 1) i ≡ false = ground arith in
            let first : leb at i ≡ true = ground arith in
            let within : ltb i (at + suc chunk) ≡ true = ground arith in
            rw (same, not_later, here, first, within) refl
        | inr other ↦
            let end : at + 1 + chunk ≡ at + suc chunk = omega arith in
            elim (Bool-cases (leb (at + 1) i)) [
              | inl later ↦
                  let same : src + 1 + (i - (at + 1)) ≡ src + (i - at) =
                    omega (arith, leb→le (at + 1) i later) in
                  let first : leb at i ≡ true = ground arith in
                  rw (other, end, same, later, first) refl
              | inr before ↦
                  let not_first : leb at i ≡ false = ground arith in
                  rw (other, before, not_first) refl
            ]
      ]

module _ (data_bytes : List ℕ) (mask : Option (List ℕ)) where
  write_bytes-overlaid :
      (chunk src at : ℕ) (block : DataBlock)
      → contents (write_bytes chunk src at data_bytes mask block)
        ≡ overlaid chunk src at data_bytes mask (contents block)
  unfolding write_bytes overlay
  write_bytes-overlaid zero src at block = refl
  write_bytes-overlaid (suc chunk) src at block =
      write_bytes-overlaid chunk (src + 1) (at + 1) _ ∙ go (is_wanted mask src)
    where
      value : ℕ
      value = get_or data_bytes src 0

      go :
          (b : Bool)
          → overlaid chunk
              (src + 1)
              (at + 1)
              data_bytes
              mask
              (contents (if b then write_byte at value block else block))
            ≡ (
              overlay chunk
                  (src + 1)
                  (at + 1)
                  (λ s. get_or data_bytes s 0)
                  mask
                  (if b then set block.bytes at value else block.bytes),
              overlay chunk
                  (src + 1)
                  (at + 1)
                  (λ s. 255)
                  mask
                  (if b then set block.initialized_mask at 255 else block.initialized_mask),
            )
      go true = refl
      go false = refl

  write_bytes-logical_line_base :
      (chunk src at : ℕ) (block : DataBlock)
      → (write_bytes chunk src at data_bytes mask block).logical_line_base ≡ block.logical_line_base
  unfolding write_bytes
  write_bytes-logical_line_base zero src at block = refl
  write_bytes-logical_line_base (suc chunk) src at block =
      write_bytes-logical_line_base chunk (src + 1) (at + 1) _ ∙ go (is_wanted mask src)
    where
      go :
          (b : Bool)
          → (if b then write_byte at (get_or data_bytes src 0) block else block).logical_line_base
            ≡ block.logical_line_base
      go true = refl
      go false = refl

module _ (options : ImageOptions) (off : options.ecc.ecc_inject_period ≡ 0) (chunk src at : ℕ)
    (data_bytes : List ℕ) (mask : Option (List ℕ)) (version : ℕ) (block : DataBlock) where
  written : DataBlock
  written = written_block options chunk src at data_bytes mask version block

  stamped : DataBlock
  stamped =
      let cleared = record block { byte_mask = replicate (length block.byte_mask) 0 } in
      let filled = write_bytes chunk src at data_bytes mask cleared in
      refresh_line_metadata
        (if wrote_any chunk src mask then record filled { version = version } else filled)

  written-stamped : written ≡ refresh_ecc_shadow options.ecc stamped
  unfolding written_block stamped written
  written-stamped =
      maybe_inject_ecc_error-off options.ecc (refresh_ecc_shadow options.ecc stamped) off

  contents-stamped : contents stamped ≡ overlaid chunk src at data_bytes mask (contents block)
  unfolding stamped refresh_line_metadata
  contents-stamped = go (wrote_any chunk src mask)
    where
      cleared : DataBlock
      cleared = record block { byte_mask = replicate (length block.byte_mask) 0 }

      filled : DataBlock
      filled = write_bytes chunk src at data_bytes mask cleared

      go :
          (b : Bool)
          → contents
              (refresh_line_metadata (if b then record filled { version = version } else filled))
            ≡ overlaid chunk src at data_bytes mask (contents block)
      go true = write_bytes-overlaid data_bytes mask chunk src at cleared
      go false = write_bytes-overlaid data_bytes mask chunk src at cleared

  pub contents-written_block :
      contents (written_block options chunk src at data_bytes mask version block)
      ≡ overlaid chunk src at data_bytes mask (contents block)
  unfolding written
  contents-written_block =
      let (bytes, masks, at_base) = refresh_ecc_shadow_bytes options.ecc stamped in
      ap contents written-stamped ∙ ap₂ (λ a b. (a, b)) bytes masks ∙ contents-stamped

  pub written_block-logical_line_base :
      (written_block options chunk src at data_bytes mask version block).logical_line_base
      ≡ block.logical_line_base
  unfolding written stamped refresh_line_metadata
  written_block-logical_line_base =
      let (bytes, masks, at_base) = refresh_ecc_shadow_bytes options.ecc stamped in
      ap (λ (b : DataBlock). b.logical_line_base) written-stamped
      ∙ at_base
      ∙ go (wrote_any chunk src mask)
    where
      cleared : DataBlock
      cleared = record block { byte_mask = replicate (length block.byte_mask) 0 }

      filled : DataBlock
      filled = write_bytes chunk src at data_bytes mask cleared

      go :
          (b : Bool)
          → (refresh_line_metadata
              (if b then record filled { version = version } else filled)).logical_line_base
            ≡ block.logical_line_base
      go true = write_bytes-logical_line_base data_bytes mask chunk src at cleared
      go false = write_bytes-logical_line_base data_bytes mask chunk src at cleared

  pub written_block-IsLine :
      IsLine options block
      → IsLine options (written_block options chunk src at data_bytes mask version block)
  unfolding written
  written_block-IsLine line = record {
    bytes =
        ap (λ c. length c.0) contents-written_block
        ∙ length-overlay (λ s. get_or data_bytes s 0) mask chunk src at block.bytes
        ∙ line.bytes;
    mask =
        ap (λ c. length c.1) contents-written_block
        ∙ length-overlay (λ s. 255) mask chunk src at block.initialized_mask
        ∙ line.mask;
    shadow =
        subst HasShadow (sym written-stamped) (refresh_ecc_shadow-HasShadow options.ecc stamped);
  }
