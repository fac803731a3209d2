-- ===== src/Core/Data/Span.antt =====
-- MemoryImage::write of src/core/data.cpp over all the lines that a request touches, and
-- validate_address_span before it. Addresses are 64 bits wide.
pub mod Loop
pub mod Partial
use mem_sim.Base.{
  ℕ, zero, suc, ◌+◌, ◌-◌, ◌%◌, ◌^◌, ◌<◌, min, ◌≡◌, Bool, false, not, ◌&&◌, ◌||◌, Option, none, some,
  List, arith, ltb, leb, ◌==◌, if◌then◌else◌, length, invalid_argument, out_of_range,
  overflow_error, Result, ok, err, ◌>>=◌, ◌>>◌, throw_if,
}
use mem_sim.Dram.Address.{DecodedAddress}
use mem_sim.Core.Data.Image.{ImageOptions, MemoryImage}
use mem_sim.Dram.Spec.{Organization}
use mem_sim.Core.Data.Round.{write_round}

unfoldable pub validate_address_span : ℕ → ℕ → ℕ → Result (Unit {0})
validate_address_span address size capacity_bytes =
    let last_offset = size - 1 in
    if size == 0
    then ok tt
    else throw_if (ltb (2 ^ 64 - 1 - address) last_offset) overflow_error
      >> throw_if
          (not (capacity_bytes == 0)
            && (leb capacity_bytes address || leb (capacity_bytes - address) last_offset))
          out_of_range

module _ (options : ImageOptions) where
  unfoldable pub line_base : ℕ → ℕ
  line_base address = address - address % options.line_size

  unfoldable pub line_offset : ℕ → ℕ
  line_offset address = address % options.line_size

  -- The bytes of the request that lie in the line of its byte `copied`.
  unfoldable pub chunk_of : ℕ → ℕ → ℕ → ℕ
  chunk_of address size copied =
      min (size - copied) (options.line_size - line_offset (address + copied))

  -- The coordinates of the request are those of its first line only.
  unfoldable pub line_decoded : Option DecodedAddress → ℕ → ℕ → Option DecodedAddress
  line_decoded decoded first_base base =
      if base == first_base then decoded else options.line_decoder base

  abbrev pub wrong_mask : List ℕ → Option (List ℕ) → Bool
  wrong_mask data_bytes none = false
  wrong_mask data_bytes (some mask) = not (length mask == length data_bytes)

  module _ (organization : Option Organization) (capacity_bytes : ℕ) where
    -- write's loop; each round writes a byte or more.
    unfoldable pub write_from :
        ℕ
        → ℕ
        → ℕ
        → List ℕ
        → Option (List ℕ)
        → Option DecodedAddress
        → MemoryImage
        → Result MemoryImage
    write_from zero address copied data_bytes mask decoded image = ok image
    write_from (suc fuel) address copied data_bytes mask decoded image =
        let base = line_base (address + copied) in
        let chunk = chunk_of address (length data_bytes) copied in
        let rest = λ (written : MemoryImage).
          write_from fuel address (copied + chunk) data_bytes mask decoded written in
        if ltb copied (length data_bytes)
        then write_round options organization capacity_bytes base (line_offset (address + copied))
            chunk copied data_bytes mask (line_decoded decoded (line_base address) base) image
          >>= rest
        else ok image

    unfoldable pub write :
        ℕ → List ℕ → Option (List ℕ) → Option DecodedAddress → MemoryImage → Result MemoryImage
    write address data_bytes mask decoded image = do
      validate_address_span address (length data_bytes) capacity_bytes
      throw_if (wrong_mask data_bytes mask) invalid_argument
      write_from (length data_bytes) address 0 data_bytes mask decoded image

-- From an address of 64 bits, a span that is not empty is refused with overflow_error if it ends
-- beyond the 64-bit space, else with out_of_range if there is a capacity and it ends beyond that,
-- and is accepted otherwise; an empty span is accepted.
pub validate_address_span_lem :
    (address size capacity_bytes : ℕ)
    → address < 2 ^ 64
    → validate_address_span address size capacity_bytes ≡ (
        if size == 0
        then ok tt
        else if ltb (2 ^ 64) (address + size)
        then err overflow_error
        else if not (capacity_bytes == 0) && ltb capacity_bytes (address + size)
        then err out_of_range
        else ok tt)
unfolding validate_address_span
validate_address_span_lem address size capacity_bytes h = ground arith
