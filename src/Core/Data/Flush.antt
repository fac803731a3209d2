-- ===== src/Core/Data/Flush.antt =====
-- precharge_all and flush_all_row_buffers of src/core/data.cpp: the open row buffers of a rank, or all
-- of them, are closed one after the other.
use mem_sim.Base.{refl, Bool, true, ◌&&◌, List, [], ◌∷◌, ◌==◌, if◌then◌else◌}
use mem_sim.Dram.Address.{DecodedAddress}
use mem_sim.Core.Data.Image.{
  StorageKey, ImageOptions, MemoryImage, RowBufferEntry, writeback_row_buffer,
}
use mem_sim.Core.Data.Coherence.{IsInjective, IsCoherent}
use mem_sim.Core.Data.Rows.{IsHidden, IsHidden-trans, writeback_row_buffer-IsHidden}

-- The keys of the open row buffers that a test picks.
unfoldable pub open_targets :
    (StorageKey → Bool) → List (StorageKey × RowBufferEntry) → List StorageKey
open_targets picks [] = []
open_targets picks (entry ∷ row_buffers) =
    let rest = open_targets picks row_buffers in
    if entry.1.is_open && picks entry.0 then entry.0 ∷ rest else rest

unfoldable pub writeback_targets : List StorageKey → MemoryImage → MemoryImage
writeback_targets [] image = image
writeback_targets (bank_key ∷ targets) image =
    writeback_targets targets (writeback_row_buffer bank_key image)

abbrev pub is_of_rank : DecodedAddress → StorageKey → Bool
is_of_rank decoded bank_key =
    bank_key.channel == decoded.channel
    && bank_key.pseudo_channel == decoded.pseudo_channel
    && bank_key.sid == decoded.sid
    && bank_key.rank == decoded.rank

-- precharge_all, after the check of the coordinates.
unfoldable pub precharge_all : DecodedAddress → MemoryImage → MemoryImage
precharge_all decoded image =
    writeback_targets (open_targets (is_of_rank decoded) image.row_buffers) image

unfoldable pub flush_all_row_buffers : MemoryImage → MemoryImage
flush_all_row_buffers image =
    writeback_targets (open_targets (λ bank_key. true) image.row_buffers) image

module _ (options : ImageOptions) (injective : IsInjective options.line_decoder) where
  writeback_targets-IsHidden :
      (targets : List StorageKey) (image : MemoryImage)
      → IsCoherent options image
      → IsHidden options image (writeback_targets targets image)
  unfolding writeback_targets
  writeback_targets-IsHidden [] image coherent = record {
    coherent = coherent;
    shows = λ base. refl;
  }
  writeback_targets-IsHidden (bank_key ∷ targets) image coherent =
      let first = writeback_row_buffer-IsHidden options injective bank_key image coherent in
      IsHidden-trans options injective image (writeback_row_buffer bank_key image) _ first
        (writeback_targets-IsHidden targets (writeback_row_buffer bank_key image) first.coherent)

  pub precharge_all-IsHidden :
      (d : DecodedAddress) (image : MemoryImage)
      → IsCoherent options image
      → IsHidden options image (precharge_all d image)
  unfolding precharge_all
  precharge_all-IsHidden d image coherent = writeback_targets-IsHidden _ image coherent

  pub flush_all_row_buffers-IsHidden :
      (image : MemoryImage)
      → IsCoherent options image
      → IsHidden options image (flush_all_row_buffers image)
  unfolding flush_all_row_buffers
  flush_all_row_buffers-IsHidden image coherent = writeback_targets-IsHidden _ image coherent
