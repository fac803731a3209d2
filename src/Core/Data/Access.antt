-- ===== src/Core/Data/Access.antt =====
-- row_buffer_block, read and write of MemoryImage in src/core/data.cpp: the bodies of the loops over
-- lines, for lines that the backend's store lets in. Data/Round has the body of write with what it
-- throws.
use mem_sim.Base.{
  ℕ, zero, suc, ◌+◌, Bool, true, false, not, ◌&&◌, ◌||◌, Option, none, some, List, [], ◌∷◌, ◌==◌,
  if◌then◌else◌, length, get_or, set, replicate, find_in, put_in,
}
use mem_sim.Dram.Address.{DecodedAddress}
use mem_sim.Core.Data.Shadow.{
  DataBlock, check_ecc_shadow, refresh_ecc_shadow, maybe_inject_ecc_error, is_different,
}
use mem_sim.Core.Data.Image.{
  ImageOptions, MemoryImage, RowBufferEntry, has_open_row, same_key, bank_key_from_decoded,
  row_key_from_decoded, same_number, line_or, load_backend_line, backing_line, make_line,
  store_line, refresh_line_metadata,
}

-- The bytes from `at` on, `count` of them.
unfoldable pub copy_n : ℕ → ℕ → List ℕ → List ℕ
copy_n zero at bytes = []
copy_n (suc count) at bytes = get_or bytes at 0 ∷ copy_n count (at + 1) bytes

unfoldable pub are_initialized : ℕ → ℕ → List ℕ → Bool
are_initialized zero at mask = true
are_initialized (suc count) at mask =
    let rest = are_initialized count (at + 1) mask in not (get_or mask at 0 == 0) && rest

-- `mask == nullptr || (*mask)[src] != 0`
unfoldable pub is_wanted : Option (List ℕ) → ℕ → Bool
is_wanted none src = true
is_wanted (some mask) src = not (get_or mask src 0 == 0)

abbrev pub write_byte : ℕ → ℕ → DataBlock → DataBlock
write_byte at value block = record block {
  bytes = set block.bytes at value;
  initialized_mask = set block.initialized_mask at 255;
  byte_mask = set block.byte_mask at 255;
}

-- The loop over a chunk: `count` bytes, from the data's `src` on and the line's `at` on.
unfoldable pub write_bytes : ℕ → ℕ → ℕ → List ℕ → Option (List ℕ) → DataBlock → DataBlock
write_bytes zero src at data_bytes mask block = block
write_bytes (suc count) src at data_bytes mask block =
    write_bytes count (src + 1) (at + 1) data_bytes mask
      (if is_wanted mask src then write_byte at (get_or data_bytes src 0) block else block)

-- wrote_any of that loop.
unfoldable pub wrote_any : ℕ → ℕ → Option (List ℕ) → Bool
wrote_any zero src mask = false
wrote_any (suc count) src mask =
    let rest = wrote_any count (src + 1) mask in is_wanted mask src || rest

unfoldable pub same_bytes : List ℕ → List ℕ → Bool
same_bytes [] [] = true
same_bytes [] (b ∷ bs) = false
same_bytes (a ∷ xs) [] = false
same_bytes (a ∷ xs) (b ∷ bs) = a == b && same_bytes xs bs

-- The comparison of read with the state before the check.
unfoldable pub ecc_changed : DataBlock → DataBlock → Bool
ecc_changed before after =
    not (same_bytes after.bytes before.bytes)
    || not (after.ecc_hamming == before.ecc_hamming)
    || is_different after.ecc_overall before.ecc_overall
    || is_different after.ecc_valid before.ecc_valid
    || is_different after.ecc_uncorrectable before.ecc_uncorrectable

pub record LineRead : Type 0 where
  pub image : MemoryImage
  pub bytes : List ℕ
  pub initialized : Bool

-- A row buffer hit: the coordinates, the entry, and the line's block in it.
pub record Hit : Type 0 where
  pub decoded : DecodedAddress
  pub entry : RowBufferEntry
  pub block : DataBlock

module _ (options : ImageOptions) where
  -- The block of a line in an entry, loaded where the entry has none.
  unfoldable pub entry_block : RowBufferEntry → DecodedAddress → ℕ → MemoryImage → DataBlock
  entry_block rb decoded base image =
      record (line_or (find_in same_number decoded.column rb.columns)
        (backing_line options image.backend base)) { logical_line_base = base }

  abbrev pub hit_entry :
      Option RowBufferEntry → Bool → DecodedAddress → ℕ → MemoryImage → Option Hit
  hit_entry none hit decoded base image = none
  hit_entry (some rb) false decoded base image = none
  hit_entry (some rb) true decoded base image =
      some (record { decoded = decoded; entry = rb; block = entry_block rb decoded base image })

  unfoldable pub row_buffer_block : ℕ → Option DecodedAddress → MemoryImage → Option Hit
  row_buffer_block base none image = none
  row_buffer_block base (some decoded) image =
      let entry = find_in same_key (bank_key_from_decoded decoded) image.row_buffers in
      hit_entry entry (has_open_row entry (row_key_from_decoded decoded)) decoded base image

-- The caller's changes through the pointer that row_buffer_block returns.
unfoldable pub put_column : Hit → DataBlock → Bool → MemoryImage → MemoryImage
put_column hit block dirty image =
    let rb = hit.entry in
    record image {
      row_buffers =
          put_in same_key (bank_key_from_decoded hit.decoded)
            (record rb {
              dirty = rb.dirty || dirty;
              columns = put_in same_number hit.decoded.column block rb.columns;
            })
            image.row_buffers;
    }

module _ (options : ImageOptions) where
  unfoldable pub missed_line : ℕ → ℕ → ℕ → Option DataBlock → MemoryImage → LineRead
  missed_line base at chunk none image = record {
    image = image;
    bytes = replicate chunk options.default_value;
    initialized = false;
  }
  missed_line base at chunk (some line) image =
      let block = check_ecc_shadow options.ecc line in
      let stored = store_line base (refresh_line_metadata block) image.backend in
      record {
        image = if ecc_changed line block then record image { backend = stored } else image;
        bytes = copy_n chunk at block.bytes;
        initialized = are_initialized chunk at block.initialized_mask;
      }

  abbrev pub read_hit : ℕ → ℕ → ℕ → Option Hit → MemoryImage → LineRead
  read_hit base at chunk none image =
      missed_line base at chunk (load_backend_line options image.backend base) image
  read_hit base at chunk (some hit) image =
      let block = check_ecc_shadow options.ecc hit.block in
      record {
        image = put_column hit block false image;
        bytes = copy_n chunk at block.bytes;
        initialized = are_initialized chunk at block.initialized_mask;
      }

  -- The body of read's loop.
  unfoldable pub read_line : ℕ → ℕ → ℕ → Option DecodedAddress → MemoryImage → LineRead
  read_line base at chunk decoded image =
      read_hit base at chunk (row_buffer_block options base decoded image) image

  -- What the body of write's loop makes of the block it has as its target.
  unfoldable pub written_block : ℕ → ℕ → ℕ → List ℕ → Option (List ℕ) → ℕ → DataBlock → DataBlock
  written_block chunk src at data_bytes mask version block =
      let cleared = record block { byte_mask = replicate (length block.byte_mask) 0 } in
      let filled = write_bytes chunk src at data_bytes mask cleared in
      let stamped =
        if wrote_any chunk src mask then record filled { version = version } else filled in
      maybe_inject_ecc_error options.ecc
        (refresh_ecc_shadow options.ecc (refresh_line_metadata stamped))

  abbrev pub allocate : ℕ → Option DataBlock → MemoryImage → MemoryImage
  allocate base (some line) image = image
  allocate base none image = record image {
    backend = store_line base (make_line options base) image.backend;
  }

  abbrev pub write_hit :
      ℕ → ℕ → ℕ → ℕ → List ℕ → Option (List ℕ) → Option Hit → MemoryImage → MemoryImage
  write_hit base at chunk src data_bytes mask none image =
      let backing = backing_line options image.backend base in
      record image {
        backend =
            store_line base (written_block chunk src at data_bytes mask image.next_version backing)
              image.backend;
      }
  write_hit base at chunk src data_bytes mask (some hit) image =
      let block = written_block chunk src at data_bytes mask image.next_version hit.block in
      put_column hit block (wrote_any chunk src mask)
        (allocate base (load_backend_line options image.backend base) image)

  -- The body of write's loop where nothing throws.
  unfoldable pub write_line :
      ℕ → ℕ → ℕ → ℕ → List ℕ → Option (List ℕ) → Option DecodedAddress → MemoryImage → MemoryImage
  write_line base at chunk src data_bytes mask decoded image =
      let written =
        write_hit base at chunk src data_bytes mask (row_buffer_block options base decoded image)
          image in
      if wrote_any chunk src mask
      then record written { next_version = image.next_version + 1 }
      else written
