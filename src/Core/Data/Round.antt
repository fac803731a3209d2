-- ===== src/Core/Data/Round.antt =====
-- One round of the loop of MemoryImage::write of src/core/data.cpp with what it may throw:
-- validate_decoded_address of src/core/data.cpp, reached through physical_address, and validate_line
-- of src/core/memory_backend.cpp, the first thing that every backend's store does. After a throw the
-- lines of the rounds before stay written; the model gives the error alone.
pub mod Accepted
use mem_sim.Dram.Spec.{Organization}
use mem_sim.Dram.Address.{DecodedAddress}
use mem_sim.Core.Data.Shadow.{DataBlock}
use mem_sim.Core.Data.Image.{
  ImageOptions, MemoryImage, backing_line, load_backend_line, make_line, store_line,
}
use mem_sim.Core.Data.Access.{Hit, written_block, wrote_any, put_column, row_buffer_block}
use mem_sim.Base.{
  ℕ, ◌+◌, ◌-◌, ◌%◌, not, ◌&&◌, ◌||◌, Option, none, some, List, ltb, leb, ◌==◌, if◌then◌else◌,
  length, invalid_argument, out_of_range, Result, ok, ◌>>=◌, ◌>>◌, throw_if,
}

abbrev require_coordinate : ℕ → ℕ → Result (Unit {0})
require_coordinate value count = throw_if (leb count value) out_of_range

-- An image without a spec has no organization.
unfoldable pub validate_decoded_address : Option Organization → DecodedAddress → Result (Unit {0})
validate_decoded_address none decoded = ok tt
validate_decoded_address (some o) decoded = do
  require_coordinate decoded.channel o.channels
  require_coordinate decoded.pseudo_channel o.pseudo_channels
  require_coordinate decoded.sid o.sids
  require_coordinate decoded.rank o.ranks
  require_coordinate decoded.bank_group o.bank_groups
  require_coordinate decoded.bank o.banks_per_group
  require_coordinate decoded.row o.rows
  require_coordinate decoded.column o.columns

-- load_backend_line and make_line take the physical address of the coordinates that they are given.
-- Where they are given none, these come from the decoder or from a key of the backend.
abbrev pub validate_place : Option Organization → Option DecodedAddress → Result (Unit {0})
validate_place organization none = ok tt
validate_place organization (some decoded) = validate_decoded_address organization decoded

unfoldable pub validate_line : ℕ → DataBlock → ℕ → ℕ → Result (Unit {0})
validate_line base line line_size capacity_bytes = do
  throw_if (not (base % line_size == 0)) invalid_argument
  throw_if (not (length line.bytes == line_size) || not (length line.initialized_mask == line_size))
      invalid_argument
  throw_if
      (not (capacity_bytes == 0)
        && (leb capacity_bytes base || ltb (capacity_bytes - base) line_size))
      out_of_range

module _ (options : ImageOptions) (organization : Option Organization) (capacity_bytes : ℕ) where
  unfoldable pub store_backend_line :
      ℕ → DataBlock → List (ℕ × DataBlock) → Result (List (ℕ × DataBlock))
  store_backend_line base block backend = do
    validate_line base block options.line_size capacity_bytes
    ok (store_line base block backend)

  abbrev pub allocate_line : ℕ → Option DataBlock → MemoryImage → Result MemoryImage
  allocate_line base (some line) image = ok image
  allocate_line base none image = do
    backend ← store_backend_line base (make_line options base) image.backend
    ok (record image { backend = backend })

  abbrev pub write_target :
      ℕ → ℕ → ℕ → ℕ → List ℕ → Option (List ℕ) → Option Hit → MemoryImage → Result MemoryImage
  write_target base at chunk src data_bytes mask none image = do
    let backing = backing_line options image.backend base
    let block = written_block options chunk src at data_bytes mask image.next_version backing
    backend ← store_backend_line base block image.backend
    ok (record image { backend = backend })
  write_target base at chunk src data_bytes mask (some hit) image = do
    let block = written_block options chunk src at data_bytes mask image.next_version hit.block
    allocated ← allocate_line base (load_backend_line options image.backend base) image
    ok (put_column hit block (wrote_any chunk src mask) allocated)

  -- `next_version` is advanced before the store; a throw of the store leaves no image to see it in.
  unfoldable pub write_round :
      ℕ
      → ℕ
      → ℕ
      → ℕ
      → List ℕ
      → Option (List ℕ)
      → Option DecodedAddress
      → MemoryImage
      → Result MemoryImage
  write_round base at chunk src data_bytes mask decoded image = do
    validate_place organization decoded
    written ←
        write_target base at chunk src data_bytes mask (row_buffer_block options base decoded image)
          image
    ok (
        if wrote_any chunk src mask
        then record written { next_version = image.next_version + 1 }
        else written)
