-- ===== src/Core/Data/Backing.antt =====
-- The backend before and after a writeback of src/core/data.cpp, and the line that it then shows.
use mem_sim.Base.{
  ℕ, ◌≡◌, refl, sym, ap, ap₂, subst, ◌∙◌, Bool, true, false, ◌&&◌, Option, none, some, List, [],
  ◌∷◌, arith, ◌==◌, if◌then◌else◌, ==→eq, replicate, All, find_in,
}
use mem_sim.Dram.Address.{DecodedAddress}
use mem_sim.Core.Data.Shadow.{DataBlock}
use mem_sim.Core.Data.Image.{
  StorageKey, ImageOptions, MemoryImage, RowBufferEntry, same_key, make_line, backing_line,
  bank_key_from_decoded, row_key_from_decoded, same_number, load_backend_line,
  refresh_line_metadata, writeback_columns, with_line, line_or,
}
use mem_sim.Core.Data.Keys.{keys_decide}
use mem_sim.Core.Data.Coherence.{contents, IsPlaced, IsInjective, IsCached}
use mem_sim.Core.Data.Writeback.{or_line, find-writeback_columns, find-writeback_columns_elsewhere}

abbrev is_line : Option DataBlock → Bool
is_line none = false
is_line (some line) = true

pub no_line : (block : DataBlock) → none ≡ some block → ⊥
no_line block e = ground (arith, ap is_line e)

module _ (options : ImageOptions) (injective : IsInjective options.line_decoder) where
  -- The line that stands at a column is placed there.
  pub found-IsPlaced :
      (bank_key row_key : StorageKey) (columns : List (ℕ × DataBlock)) (c : ℕ) (block : DataBlock)
      → All (IsPlaced options bank_key row_key) columns
      → find_in same_number c columns ≡ some block
      → IsPlaced options bank_key row_key (c, block)
  unfolding find_in IsPlaced
  found-IsPlaced bank_key row_key [] c block placed found = absurd (no_line block found)
  found-IsPlaced bank_key row_key (entry ∷ columns) c block placed found =
      go (c == entry.0) refl found (λ e. found-IsPlaced bank_key row_key columns c block placed.1 e)
    where
      go :
          (b : Bool)
          → (c == entry.0) ≡ b
          → (if b then some entry.1 else find_in same_number c columns) ≡ some block
          → (find_in same_number c columns ≡ some block
              → IsPlaced options bank_key row_key (c, block))
          → IsPlaced options bank_key row_key (c, block)
      go true hit e rest =
          subst (λ (x : ℕ × DataBlock). IsPlaced options bank_key row_key x)
            (ap₂ (λ a b. (a, b)) (sym (==→eq c entry.0 hit)) (ap (λ o. line_or o block) e)) placed.0
      go false miss e rest = rest e

  -- Its address is that of the place.
  pub found-base :
      (bank_key row_key : StorageKey) (columns : List (ℕ × DataBlock)) (block : DataBlock)
      (base : ℕ) (d : DecodedAddress)
      → All (IsPlaced options bank_key row_key) columns
      → find_in same_number d.column columns ≡ some block
      → options.line_decoder base ≡ some d
      → bank_key_from_decoded d ≡ bank_key
      → row_key_from_decoded d ≡ row_key
      → block.logical_line_base ≡ base
  unfolding IsPlaced IsInjective
  found-base bank_key row_key columns block base d placed found at in_bank in_row =
      let (e, decoded, bank, row, column) =
        found-IsPlaced bank_key row_key columns d.column block placed found in
      let here : e ≡ d = keys_decide e d (bank ∙ sym in_bank) (row ∙ sym in_row) column in
      injective block.logical_line_base base d (decoded ∙ ap some here) at

  pub backing_same :
      (backend later : List (ℕ × DataBlock)) (base : ℕ)
      → find_in same_number base later ≡ find_in same_number base backend
      → backing_line options later base ≡ backing_line options backend base
  unfolding backing_line load_backend_line
  backing_same backend later base same =
      ap
        (λ o.
          line_or
            (with_line
              (λ (line : DataBlock). record line {
                logical_line_base = base;
                byte_mask = replicate options.line_size 0;
              })
              o)
            (make_line options base))
        same

  module _ (image : MemoryImage) (bank_key : StorageKey) (rb : RowBufferEntry)
      (cached : IsCached options image.backend bank_key rb) where
    -- The backend after the writeback.
    unfoldable pub later : List (ℕ × DataBlock)
    later = if rb.dirty then writeback_columns rb.columns image.backend else image.backend

    pub later_elsewhere :
        (base : ℕ)
        → ((d : DecodedAddress)
            → options.line_decoder base ≡ some d
            → same_key (bank_key_from_decoded d) bank_key
                && same_key rb.row_key (row_key_from_decoded d)
              ≡ false)
        → find_in same_number base later ≡ find_in same_number base image.backend
    unfolding later
    later_elsewhere base apart = go rb.dirty
      where
        go :
            (b : Bool)
            → find_in same_number base
                (if b then writeback_columns rb.columns image.backend else image.backend)
              ≡ find_in same_number base image.backend
        go true =
            find-writeback_columns_elsewhere options injective bank_key rb.row_key rb.columns
              image.backend cached.placed base apart
        go false = refl

    -- At the place, the row buffer's line is what the backend then shows.
    pub later_here :
        (base : ℕ) (d : DecodedAddress)
        → options.line_decoder base ≡ some d
        → bank_key_from_decoded d ≡ bank_key
        → row_key_from_decoded d ≡ rb.row_key
        → contents (backing_line options later base)
          ≡ contents (
              line_or
                (find_in same_number d.column rb.columns)
                (backing_line options image.backend base))
    unfolding later backing_line load_backend_line refresh_line_metadata
    later_here base d at in_bank in_row =
        go rb.dirty refl (find_in same_number d.column rb.columns) refl
      where
        cleared : DataBlock → DataBlock
        cleared line = record line {
          logical_line_base = base;
          byte_mask = replicate options.line_size 0;
        }

        settle :
            (o : Option DataBlock)
            → contents (
                line_or
                  (with_line cleared (
                    or_line
                      (with_line refresh_line_metadata o)
                      (find_in same_number base image.backend)))
                  (make_line options base))
              ≡ contents (
                  line_or o (
                    line_or
                      (with_line cleared (find_in same_number base image.backend))
                      (make_line options base)))
        settle none = refl
        settle (some block) = refl

        go :
            (b : Bool)
            → rb.dirty ≡ b
            → (o : Option DataBlock) → find_in same_number d.column rb.columns ≡ o
            → contents (
                backing_line options
                  (if b then writeback_columns rb.columns image.backend else image.backend)
                  base)
              ≡ contents (line_or o (backing_line options image.backend base))
        go true dirty o found =
            ap (λ q. contents (line_or (with_line cleared q) (make_line options base)))
              (find-writeback_columns options injective bank_key rb.row_key rb.columns image.backend
                  cached.placed base d at in_bank in_row
                ∙ ap
                    (λ p.
                      or_line (with_line refresh_line_metadata p)
                        (find_in same_number base image.backend))
                    found)
            ∙ settle o
        go false clean none found = refl
        go false clean (some block) found = sym (
            cached.clean clean d.column base block found (
              found-base bank_key rb.row_key rb.columns block base d cached.placed found at in_bank
                in_row))
