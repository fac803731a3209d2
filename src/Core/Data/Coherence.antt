-- ===== src/Core/Data/Coherence.antt =====
-- What is asked of a MemoryImage of src/core/data.cpp: where the lines of its row buffers belong, and how
-- they stand to the backend's. What an image shows of each line.
use mem_sim.Base.{
  ℕ, ◌≡◌, ◌⊎◌, true, false, ◌&&◌, Option, none, some, List, if◌then◌else◌, length, All, find_in,
}
use mem_sim.Dram.Address.{DecodedAddress}
use mem_sim.Core.Data.Secded.{compute_secded_shadow}
use mem_sim.Core.Data.Shadow.{DataBlock}
use mem_sim.Core.Data.Code.{shadow_of}
use mem_sim.Core.Data.Image.{
  StorageKey, ImageOptions, MemoryImage, RowBufferEntry, same_key, bank_key_from_decoded,
  row_key_from_decoded, same_number, line_or, backing_line,
}

-- The bytes of a line and which of them were written.
abbrev pub contents : DataBlock → List ℕ × List ℕ
contents block = (block.bytes, block.initialized_mask)

-- The shadow is of these bytes, if it counts.
unfoldable pub HasShadow : DataBlock → Type 0
HasShadow block =
    (block.ecc_valid ≡ false)
    ⊎ (shadow_of block.ecc_hamming block.ecc_overall block.ecc_parity_bits
        ≡ compute_secded_shadow block.bytes)

-- Two lines have different coordinates.
unfoldable pub IsInjective : (ℕ → Option DecodedAddress) → Type 0
IsInjective decoder =
    (b c : ℕ) (d : DecodedAddress) → decoder b ≡ some d → decoder c ≡ some d → b ≡ c

module _ (options : ImageOptions) where
  pub record IsLine (block : DataBlock) : Type 0 where
    pub bytes : length block.bytes ≡ options.line_size
    pub mask : length block.initialized_mask ≡ options.line_size
    pub shadow : HasShadow block

  -- A line of a row buffer is of its bank and row, at its column.
  unfoldable pub IsPlaced : StorageKey → StorageKey → ℕ × DataBlock → Type 0
  IsPlaced bank_key row_key entry =
      (d : DecodedAddress) × (options.line_decoder entry.1.logical_line_base ≡ some d)
      × (bank_key_from_decoded d ≡ bank_key)
      × (row_key_from_decoded d ≡ row_key)
      × (d.column ≡ entry.0)

  pub record IsCached (backend : List (ℕ × DataBlock)) (bank_key : StorageKey) (rb : RowBufferEntry)
      : Type 0 where
    pub placed : All (IsPlaced bank_key rb.row_key) rb.columns
    pub lines :
        (c : ℕ) (block : DataBlock) → find_in same_number c rb.columns ≡ some block → IsLine block
    pub clean :
        rb.dirty ≡ false
        → (c base : ℕ) (block : DataBlock) → find_in same_number c rb.columns ≡ some block
        → block.logical_line_base ≡ base
        → contents block ≡ contents (backing_line options backend base)

  pub record IsCoherent (image : MemoryImage) : Type 0 where
    pub stored :
        (base : ℕ) (line : DataBlock)
        → find_in same_number base image.backend ≡ some line
        → IsLine line
    pub cached :
        (bank_key : StorageKey) (rb : RowBufferEntry)
        → find_in same_key bank_key image.row_buffers ≡ some rb
        → rb.is_open ≡ true
        → IsCached image.backend bank_key rb

  abbrev pub column_in : Option RowBufferEntry → DecodedAddress → Option DataBlock
  column_in none d = none
  column_in (some rb) d =
      if rb.is_open && same_key rb.row_key (row_key_from_decoded d)
      then find_in same_number d.column rb.columns
      else none

  abbrev pub cached_line :
      List (StorageKey × RowBufferEntry) → Option DecodedAddress → Option DataBlock
  cached_line row_buffers none = none
  cached_line row_buffers (some d) =
      column_in (find_in same_key (bank_key_from_decoded d) row_buffers) d

  -- What the image shows of a line: the row buffer's block, or else the backend's.
  unfoldable pub line_of : MemoryImage → ℕ → DataBlock
  line_of image base =
      line_or (cached_line image.row_buffers (options.line_decoder base))
        (backing_line options image.backend base)
