-- ===== src/Core/Data/Image.antt =====
-- MemoryImage of include/hbm_sim/core/data.hpp and src/core/data.cpp: the lines of a backend, and the
-- row buffers that hold lines of open rows. A key has no stack, as all keys of an image have the same
-- one, and -1 for a row or column is `none`. The counters and the cycle stamps are left out.
use mem_sim.Base.{
  ℕ, Bool, true, false, not, ◌&&◌, Option, none, some, List, [], ◌∷◌, ◌==◌, if◌then◌else◌,
  replicate, find_in, put_in,
}
use mem_sim.Dram.Address.{DecodedAddress}
use mem_sim.Core.Data.Shadow.{DataBlock, EccOptions, checksum_bytes}

pub record StorageKey : Type 0 where
  pub channel : ℕ
  pub pseudo_channel : ℕ
  pub sid : ℕ
  pub rank : ℕ
  pub bank_group : ℕ
  pub bank : ℕ
  pub row : Option ℕ
  pub column : Option ℕ

unfoldable pub same_coordinate : Option ℕ → Option ℕ → Bool
same_coordinate none none = true
same_coordinate none (some b) = false
same_coordinate (some a) none = false
same_coordinate (some a) (some b) = a == b

-- StorageKey::operator==
unfoldable pub same_key : StorageKey → StorageKey → Bool
same_key a b =
    a.channel == b.channel
    && a.pseudo_channel == b.pseudo_channel
    && a.sid == b.sid
    && a.rank == b.rank
    && a.bank_group == b.bank_group
    && a.bank == b.bank
    && same_coordinate a.row b.row
    && same_coordinate a.column b.column

unfoldable pub bank_key_from_decoded : DecodedAddress → StorageKey
bank_key_from_decoded decoded = record {
  channel = decoded.channel;
  pseudo_channel = decoded.pseudo_channel;
  sid = decoded.sid;
  rank = decoded.rank;
  bank_group = decoded.bank_group;
  bank = decoded.bank;
  row = none;
  column = none;
}

unfoldable pub row_key_from_decoded : DecodedAddress → StorageKey
row_key_from_decoded decoded = record (bank_key_from_decoded decoded) {
  row = some decoded.row;
  column = none;
}

-- What an image is made with. The decoder stands for `AddressMapper(*spec_).decode`, and is `none`
-- everywhere for an image without a spec.
pub record ImageOptions : Type 0 where
  pub line_size : ℕ
  pub default_value : ℕ
  pub ecc : EccOptions
  pub line_decoder : ℕ → Option DecodedAddress

pub record RowBufferEntry : Type 0 where
  pub is_open : Bool
  pub dirty : Bool
  pub row_key : StorageKey
  pub columns : List (ℕ × DataBlock)

pub record MemoryImage : Type 0 where
  pub backend : List (ℕ × DataBlock)
  pub row_buffers : List (StorageKey × RowBufferEntry)
  pub next_version : ℕ

unfoldable pub all_masked : List ℕ → Bool
all_masked [] = true
all_masked (byte ∷ mask) = not (byte == 0) && all_masked mask

unfoldable pub refresh_line_metadata : DataBlock → DataBlock
refresh_line_metadata block = record block {
  initialized = all_masked block.initialized_mask;
  checksum = checksum_bytes block.bytes;
}

abbrev pub same_number : ℕ → ℕ → Bool
same_number a b = a == b

abbrev pub line_or : Option DataBlock → DataBlock → DataBlock
line_or none other = other
line_or (some line) other = line

abbrev pub with_line : (DataBlock → DataBlock) → Option DataBlock → Option DataBlock
with_line f none = none
with_line f (some line) = some (f line)

module _ (options : ImageOptions) where
  unfoldable pub make_line : ℕ → DataBlock
  make_line base =
      let bytes = replicate options.line_size options.default_value in
      record {
        logical_line_base = base;
        bytes = bytes;
        byte_mask = replicate options.line_size 0;
        initialized_mask = replicate options.line_size 0;
        initialized = false;
        version = 0;
        checksum = checksum_bytes bytes;
        ecc_hamming = 0;
        ecc_overall = false;
        ecc_parity_bits = 0;
        ecc_valid = false;
        ecc_uncorrectable = false;
      }

  unfoldable pub load_backend_line : List (ℕ × DataBlock) → ℕ → Option DataBlock
  load_backend_line backend base =
      with_line
        (λ (line : DataBlock). record line {
          logical_line_base = base;
          byte_mask = replicate options.line_size 0;
        })
        (find_in same_number base backend)

  -- The line as the backend has it, or as make_line makes it.
  unfoldable pub backing_line : List (ℕ × DataBlock) → ℕ → DataBlock
  backing_line backend base = line_or (load_backend_line backend base) (make_line base)

-- The store of a backend where validate_line lets the line in, as it does with every line within a
-- capacity of whole lines; Data/Round has the store of a write with that check. The reverse map of
-- the keys and the counter of written lines are left out.
abbrev pub store_line : ℕ → DataBlock → List (ℕ × DataBlock) → List (ℕ × DataBlock)
store_line base block backend = put_in same_number base block backend

-- The loop of writeback_row_buffer. The order of the map's entries is not fixed.
unfoldable pub writeback_columns :
    List (ℕ × DataBlock) → List (ℕ × DataBlock) → List (ℕ × DataBlock)
writeback_columns [] backend = backend
writeback_columns (entry ∷ columns) backend =
    let block = entry.1 in
    store_line block.logical_line_base (refresh_line_metadata block)
      (writeback_columns columns backend)

abbrev pub closed_entry : RowBufferEntry → RowBufferEntry
closed_entry rb = record rb { is_open = false; dirty = false; columns = [] }

unfoldable pub close_entry : StorageKey → Option RowBufferEntry → MemoryImage → MemoryImage
close_entry bank_key none image = image
close_entry bank_key (some rb) image =
    let backend = if rb.dirty then writeback_columns rb.columns image.backend else image.backend in
    if not rb.is_open then image else record image {
      backend = backend;
      row_buffers = put_in same_key bank_key (closed_entry rb) image.row_buffers;
    }

unfoldable pub writeback_row_buffer : StorageKey → MemoryImage → MemoryImage
writeback_row_buffer bank_key image =
    close_entry bank_key (find_in same_key bank_key image.row_buffers) image

-- precharge_bank, after the check of the coordinates.
unfoldable pub precharge_bank : DecodedAddress → MemoryImage → MemoryImage
precharge_bank decoded image = writeback_row_buffer (bank_key_from_decoded decoded) image

abbrev pub opened_entry : StorageKey → RowBufferEntry
opened_entry row_key = record { is_open = true; dirty = false; row_key = row_key; columns = [] }

-- The entry is open with the row asked for.
unfoldable pub has_open_row : Option RowBufferEntry → StorageKey → Bool
has_open_row none row_key = false
has_open_row (some rb) row_key = rb.is_open && same_key rb.row_key row_key

-- activate_row, after the check of the coordinates.
unfoldable pub activate_row : DecodedAddress → MemoryImage → MemoryImage
activate_row decoded image =
    let bank_key = bank_key_from_decoded decoded in
    let row_key = row_key_from_decoded decoded in
    let closed = writeback_row_buffer bank_key image in
    if has_open_row (find_in same_key bank_key image.row_buffers) row_key
    then image
    else record closed {
      row_buffers = put_in same_key bank_key (opened_entry row_key) closed.row_buffers;
    }
