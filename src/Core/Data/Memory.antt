-- ===== src/Core/Data/Memory.antt =====
-- MemoryImage of src/core/data.cpp as a sequence of operations on lines, and a memory of lines without
-- rows to compare it with.
use mem_sim.Base.{
  ℕ, ◌+◌, ◌≤◌, ◌<◌, ◌≡◌, refl, ap, ◌∙◌, fun_ext, Bool, true, false, Option, none, some, List, [],
  ◌∷◌, arith, ◌==◌, if◌then◌else◌, All, find_in,
}
use mem_sim.Dram.Address.{DecodedAddress}
use mem_sim.Core.Data.Image.{
  ImageOptions, MemoryImage, RowBufferEntry, activate_row, precharge_bank,
}
use mem_sim.Core.Data.Access.{copy_n, are_initialized, read_line, write_line}
use mem_sim.Core.Data.Coherence.{contents, IsInjective, IsCoherent, line_of}
use mem_sim.Core.Data.Backing.{no_line}
use mem_sim.Core.Data.Rows.{IsHidden, activate_row-IsHidden, precharge_bank-IsHidden}
use mem_sim.Core.Data.Flush.{
  precharge_all, flush_all_row_buffers, precharge_all-IsHidden, flush_all_row_buffers-IsHidden,
}
use mem_sim.Core.Data.Reading.{read_line-IsRead}
use mem_sim.Core.Data.Writing.{IsWritten, write_line-IsWritten}
use mem_sim.Core.Data.Written.{overlaid}

-- One operation on a line, at the coordinates that the decoder gives for it.
pub data ImageOp : Type 0 where
  activate : DecodedAddress → ImageOp
  precharge : DecodedAddress → ImageOp
  precharge_rank : DecodedAddress → ImageOp
  flush : ImageOp
  read_at : (base at chunk : ℕ) → ImageOp
  write_at : (base at chunk src : ℕ) → List ℕ → Option (List ℕ) → ImageOp

abbrev pub Memory : Type 0
Memory = ℕ → List ℕ × List ℕ

-- What an operation does to the lines.
unfoldable pub apply_op : ImageOp → Memory → Memory
apply_op (activate d) memory = memory
apply_op (precharge d) memory = memory
apply_op (precharge_rank d) memory = memory
apply_op flush memory = memory
apply_op (read_at base at chunk) memory = memory
apply_op (write_at base at chunk src data_bytes mask) memory = λ other.
    if other == base then overlaid chunk src at data_bytes mask (memory base) else memory other

unfoldable pub apply_ops : List ImageOp → Memory → Memory
apply_ops [] memory = memory
apply_ops (op ∷ ops) memory = apply_ops ops (apply_op op memory)

module _ (options : ImageOptions) where
  -- A read stays within its line.
  unfoldable pub FitsLine : ImageOp → Type 0
  FitsLine (activate d) = Unit
  FitsLine (precharge d) = Unit
  FitsLine (precharge_rank d) = Unit
  FitsLine flush = Unit
  FitsLine (read_at base at chunk) = (0 < chunk) × (at + chunk ≤ options.line_size)
  FitsLine (write_at base at chunk src data_bytes mask) = Unit

  unfoldable pub perform_op : ImageOp → MemoryImage → MemoryImage
  perform_op (activate d) image = activate_row d image
  perform_op (precharge d) image = precharge_bank d image
  perform_op (precharge_rank d) image = precharge_all d image
  perform_op flush image = flush_all_row_buffers image
  perform_op (read_at base at chunk) image =
      (read_line options base at chunk (options.line_decoder base) image).image
  perform_op (write_at base at chunk src data_bytes mask) image =
      write_line options base at chunk src data_bytes mask (options.line_decoder base) image

  unfoldable pub perform_ops : List ImageOp → MemoryImage → MemoryImage
  perform_ops [] image = image
  perform_ops (op ∷ ops) image = perform_ops ops (perform_op op image)

  -- The lines that the image shows.
  unfoldable pub shown_memory : MemoryImage → Memory
  shown_memory image = λ base. contents (line_of options image base)

  module _ (injective : IsInjective options.line_decoder)
      (off : options.ecc.ecc_inject_period ≡ 0) where
    hidden_step :
        (before after : MemoryImage)
        → IsHidden options before after
        → IsCoherent options after × (shown_memory after ≡ shown_memory before)
    unfolding shown_memory
    hidden_step before after hidden = (hidden.coherent, fun_ext hidden.shows)

    perform_op-apply_op :
        (op : ImageOp) (image : MemoryImage)
        → FitsLine op
        → IsCoherent options image
        → IsCoherent options (perform_op op image)
          × (shown_memory (perform_op op image) ≡ apply_op op (shown_memory image))
    unfolding perform_op apply_op FitsLine shown_memory IsWritten
    perform_op-apply_op (activate d) image fits coherent =
        hidden_step image (activate_row d image)
          (activate_row-IsHidden options injective d image coherent)
    perform_op-apply_op (precharge d) image fits coherent =
        hidden_step image (precharge_bank d image)
          (precharge_bank-IsHidden options injective d image coherent)
    perform_op-apply_op (precharge_rank d) image fits coherent =
        hidden_step image (precharge_all d image)
          (precharge_all-IsHidden options injective d image coherent)
    perform_op-apply_op flush image fits coherent =
        hidden_step image (flush_all_row_buffers image)
          (flush_all_row_buffers-IsHidden options injective image coherent)
    perform_op-apply_op (read_at base at chunk) image fits coherent =
        hidden_step image _
          (read_line-IsRead options injective image coherent base at chunk fits.0 fits.1).hidden
    perform_op-apply_op (write_at base at chunk src data_bytes mask) image fits coherent =
        let (after, shows) =
          write_line-IsWritten options injective image coherent base off chunk src at data_bytes
            mask in
        (after, fun_ext shows)

    -- Under the same conditions the image stays coherent: each line in an open row stands at its
    -- bank, row and column, a row buffer that is not dirty has what the backend has, and every
    -- stored shadow that counts is of its bytes; and the image shows the lines as the writes alone
    -- make them.
    pub perform_ops-apply_ops :
        (ops : List ImageOp) (image : MemoryImage)
        → All FitsLine ops
        → IsCoherent options image
        → IsCoherent options (perform_ops ops image)
          × (shown_memory (perform_ops ops image) ≡ apply_ops ops (shown_memory image))
    unfolding perform_ops apply_ops
    perform_ops-apply_ops [] image fits coherent = (coherent, refl)
    perform_ops-apply_ops (op ∷ ops) image fits coherent =
        let (next, shows) = perform_op-apply_op op image fits.0 coherent in
        let (final, rest) = perform_ops-apply_ops ops (perform_op op image) fits.1 next in
        (final, rest ∙ ap (apply_ops ops) shows)

    -- After any sequence of activations, precharges of a bank or a rank, flushes, reads and writes
    -- of lines from a coherent image, with distinct coordinates for distinct lines and no injected
    -- errors, a read of a line gives the bytes that the writes alone make of the lines first
    -- shown, and says whether all of them were written.
    pub read_line-apply_ops :
        (ops : List ImageOp) (image : MemoryImage) (base at chunk : ℕ)
        → All FitsLine ops
        → IsCoherent options image
        → 0 < chunk
        → at + chunk ≤ options.line_size
        → let read =
            read_line options base at chunk (options.line_decoder base) (perform_ops ops image) in
          (read.bytes ≡ copy_n chunk at (apply_ops ops (shown_memory image) base).0)
          × (read.initialized
              ≡ are_initialized chunk at (apply_ops ops (shown_memory image) base).1)
    unfolding shown_memory
    read_line-apply_ops ops image base at chunk fits coherent some_bytes within =
        let (final, shows) = perform_ops-apply_ops ops image fits coherent in
        let read =
          read_line-IsRead options injective (perform_ops ops image) final base at chunk some_bytes
            within in
        (
          read.bytes ∙ ap (λ (m : Memory). copy_n chunk at (m base).0) shows,
          read.initialized ∙ ap (λ (m : Memory). are_initialized chunk at (m base).1) shows,
        )

  unfoldable pub new_image : MemoryImage
  new_image = record { backend = []; row_buffers = []; next_version = 1 }

  pub new_image-IsCoherent : IsCoherent options new_image
  unfolding new_image find_in
  new_image-IsCoherent = record {
    stored = λ base line found. absurd (no_line line found);
    cached = λ key rb found is_open. absurd (ground (arith, ap is_entry found));
  }
    where
      is_entry : Option RowBufferEntry → Bool
      is_entry none = false
      is_entry (some rb) = true
