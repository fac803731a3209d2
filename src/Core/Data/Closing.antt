-- ===== src/Core/Data/Closing.antt =====
-- writeback_row_buffer of src/core/data.cpp on an open row buffer, and the image after it.
use mem_sim.Base.{
  ℕ, ◌≡◌, refl, sym, ap, subst, ◌∙◌, Bool, true, false, ◌&&◌, Option, none, some, List, arith,
  if◌then◌else◌, find_in, put_in, find_in-put_in,
}
use mem_sim.Dram.Address.{DecodedAddress}
use mem_sim.Core.Data.Shadow.{DataBlock}
use mem_sim.Core.Data.Image.{
  StorageKey, ImageOptions, MemoryImage, RowBufferEntry, same_key, backing_line,
  bank_key_from_decoded, row_key_from_decoded, same_number, refresh_line_metadata,
  writeback_columns, with_line, line_or, closed_entry,
}
use mem_sim.Core.Data.Keys.{same_key_sound, same_key_refl}
use mem_sim.Core.Data.Coherence.{
  contents, HasShadow, IsLine, IsPlaced, IsInjective, IsCached, IsCoherent, column_in, cached_line,
  line_of,
}
use mem_sim.Core.Data.Writeback.{or_line, find-writeback_columns}
use mem_sim.Core.Data.Backing.{found-IsPlaced, backing_same, later, later_elsewhere, later_here}

module _ (options : ImageOptions) (injective : IsInjective options.line_decoder) where
  module _ (image : MemoryImage) (bank_key : StorageKey) (rb : RowBufferEntry)
      (coherent : IsCoherent options image)
      (found : find_in same_key bank_key image.row_buffers ≡ some rb)
      (is_open : rb.is_open ≡ true) where
    pub entry_cached : IsCached options image.backend bank_key rb
    entry_cached = coherent.cached bank_key rb found is_open

    unfoldable pub closed_image : MemoryImage
    closed_image = record image {
      backend = later options injective image bank_key rb entry_cached;
      row_buffers = put_in same_key bank_key (closed_entry rb) image.row_buffers;
    }

    closed_lookup :
        (key : StorageKey)
        → find_in same_key key closed_image.row_buffers ≡ (
            if same_key key bank_key
            then some (closed_entry rb)
            else find_in same_key key image.row_buffers)
    unfolding closed_image
    closed_lookup key =
        find_in-put_in same_key same_key_sound same_key_refl bank_key key (closed_entry rb)
          image.row_buffers

    pub contents-closed_image :
        (base : ℕ)
        → contents (line_of options closed_image base) ≡ contents (line_of options image base)
    unfolding line_of closed_image
    contents-closed_image base = go (options.line_decoder base) refl
      where
        backend : List (ℕ × DataBlock)
        backend = later options injective image bank_key rb entry_cached

        apart_of : Option DecodedAddress → Bool
        apart_of none = false
        apart_of (some e) =
            same_key (bank_key_from_decoded e) bank_key
            && same_key rb.row_key (row_key_from_decoded e)

        elsewhere :
            (o : Option DecodedAddress)
            → options.line_decoder base ≡ o
            → apart_of o ≡ false
            → backing_line options backend base ≡ backing_line options image.backend base
        elsewhere o at apart = backing_same options injective image.backend backend base (
            later_elsewhere options injective image bank_key rb entry_cached base
              (λ e other. ap apart_of (sym other ∙ at) ∙ apart))

        -- The bank that is closed.
        in_closed :
            (d : DecodedAddress)
            → options.line_decoder base ≡ some d
            → (in_bank : same_key (bank_key_from_decoded d) bank_key ≡ true) → (row : Bool)
            → same_key rb.row_key (row_key_from_decoded d) ≡ row
            → contents (backing_line options backend base)
              ≡ contents (
                  line_or
                    (if row then find_in same_number d.column rb.columns else none)
                    (backing_line options image.backend base))
        in_closed d at in_bank true in_row =
            later_here options injective image bank_key rb entry_cached base d at
              (same_key_sound (bank_key_from_decoded d) bank_key in_bank)
              (sym (same_key_sound rb.row_key (row_key_from_decoded d) in_row))
        in_closed d at in_bank false in_row =
            ap contents (elsewhere (some d) at (rw (in_bank, in_row) refl))

        in_bank_or_not :
            (d : DecodedAddress)
            → options.line_decoder base ≡ some d
            → (b : Bool) → same_key (bank_key_from_decoded d) bank_key ≡ b
            → contents (
                line_or
                  (column_in options
                    (if b
                      then some (closed_entry rb)
                      else find_in same_key (bank_key_from_decoded d) image.row_buffers)
                    d)
                  (backing_line options backend base))
              ≡ contents (
                  line_or
                    (column_in options
                      (find_in same_key (bank_key_from_decoded d) image.row_buffers)
                      d)
                    (backing_line options image.backend base))
        in_bank_or_not d at true in_bank =
            in_closed d at in_bank (same_key rb.row_key (row_key_from_decoded d)) refl
            ∙ ap
                (λ b. contents (
                  line_or
                    (if b && same_key rb.row_key (row_key_from_decoded d)
                      then find_in same_number d.column rb.columns
                      else none)
                    (backing_line options image.backend base)))
                (sym is_open)
            ∙ ap
                (λ q.
                  contents
                    (line_or (column_in options q d) (backing_line options image.backend base)))
                (sym (
                  ap (λ k. find_in same_key k image.row_buffers)
                    (same_key_sound (bank_key_from_decoded d) bank_key in_bank)
                  ∙ found))
        in_bank_or_not d at false other_bank =
            ap
              (λ x. contents (
                line_or
                  (column_in options (find_in same_key (bank_key_from_decoded d) image.row_buffers)
                    d)
                  x))
              (elsewhere (some d) at (rw other_bank refl))

        go :
            (o : Option DecodedAddress)
            → options.line_decoder base ≡ o
            → contents (
                line_or
                  (cached_line options closed_image.row_buffers o)
                  (backing_line options backend base))
              ≡ contents (
                  line_or
                    (cached_line options image.row_buffers o)
                    (backing_line options image.backend base))
        go none at = ap contents (elsewhere none at refl)
        go (some d) at =
            ap (λ q. contents (line_or (column_in options q d) (backing_line options backend base)))
              (closed_lookup (bank_key_from_decoded d))
            ∙ in_bank_or_not d at (same_key (bank_key_from_decoded d) bank_key) refl

    refreshed-IsLine :
        (block : DataBlock) → IsLine options block → IsLine options (refresh_line_metadata block)
    unfolding refresh_line_metadata HasShadow
    refreshed-IsLine block l = record { bytes = l.bytes; mask = l.mask; shadow = l.shadow }

    later_stored :
        (base : ℕ) (line : DataBlock)
        → find_in same_number base (later options injective image bank_key rb entry_cached)
          ≡ some line
        → IsLine options line
    unfolding later
    later_stored base line at = go (options.line_decoder base) refl
      where
        apart_of : Option DecodedAddress → Bool
        apart_of none = false
        apart_of (some e) =
            same_key (bank_key_from_decoded e) bank_key
            && same_key rb.row_key (row_key_from_decoded e)

        elsewhere :
            (o : Option DecodedAddress)
            → options.line_decoder base ≡ o
            → apart_of o ≡ false
            → IsLine options line
        elsewhere o place apart = coherent.stored base line (
            sym (
              later_elsewhere options injective image bank_key rb entry_cached base
                (λ e other. ap apart_of (sym other ∙ place) ∙ apart))
            ∙ at)

        written :
            (o : Option DataBlock) (d : DecodedAddress)
            → find_in same_number d.column rb.columns ≡ o
            → or_line (with_line refresh_line_metadata o) (find_in same_number base image.backend)
              ≡ some line
            → IsLine options line
        written none d column e = coherent.stored base line e
        written (some block) d column e =
            subst (IsLine options) (ap (λ q. line_or q line) e)
              (refreshed-IsLine block (entry_cached.lines d.column block column))

        dirty_or_clean :
            (b : Bool) (d : DecodedAddress)
            → options.line_decoder base ≡ some d
            → bank_key_from_decoded d ≡ bank_key
            → row_key_from_decoded d ≡ rb.row_key
            → find_in same_number base
                (if b then writeback_columns rb.columns image.backend else image.backend)
              ≡ some line
            → IsLine options line
        dirty_or_clean true d place in_bank in_row e =
            written (find_in same_number d.column rb.columns) d refl (
              sym (
                find-writeback_columns options injective bank_key rb.row_key rb.columns
                  image.backend entry_cached.placed base d place in_bank in_row)
              ∙ e)
        dirty_or_clean false d place in_bank in_row e = coherent.stored base line e

        here_or_not :
            (a b : Bool) (d : DecodedAddress)
            → options.line_decoder base ≡ some d
            → same_key (bank_key_from_decoded d) bank_key ≡ a
            → same_key rb.row_key (row_key_from_decoded d) ≡ b
            → IsLine options line
        here_or_not true true d place in_bank in_row =
            dirty_or_clean rb.dirty d place
              (same_key_sound (bank_key_from_decoded d) bank_key in_bank)
              (sym (same_key_sound rb.row_key (row_key_from_decoded d) in_row)) at
        here_or_not true false d place in_bank in_row =
            elsewhere (some d) place (rw (in_bank, in_row) refl)
        here_or_not false b d place in_bank in_row = elsewhere (some d) place (rw in_bank refl)

        go : (o : Option DecodedAddress) → options.line_decoder base ≡ o → IsLine options line
        go none place = elsewhere none place refl
        go (some d) place =
            here_or_not (same_key (bank_key_from_decoded d) bank_key)
              (same_key rb.row_key (row_key_from_decoded d)) d place refl refl

    other_bank_cached :
        (key : StorageKey) (other : RowBufferEntry)
        → same_key key bank_key ≡ false
        → IsCached options image.backend key other
        → IsCached options (later options injective image bank_key rb entry_cached) key other
    unfolding IsPlaced
    other_bank_cached key other apart c = record {
      placed = c.placed;
      lines = c.lines;
      clean = λ clean column base block at here.
          c.clean clean column base block at here
          ∙ ap contents (
              sym (
                backing_same options injective image.backend
                  (later options injective image bank_key rb entry_cached) base
                  (later_elsewhere options injective image bank_key rb entry_cached base
                    (elsewhere column base block at here))));
    }
      where
        bank_of : Option DecodedAddress → StorageKey
        bank_of none = key
        bank_of (some d) = bank_key_from_decoded d

        elsewhere :
            (column base : ℕ) (block : DataBlock)
            → find_in same_number column other.columns ≡ some block
            → block.logical_line_base ≡ base
            → (d : DecodedAddress) → options.line_decoder base ≡ some d
            → same_key (bank_key_from_decoded d) bank_key
                && same_key rb.row_key (row_key_from_decoded d)
              ≡ false
        elsewhere column base block at here d place =
            let (e, decoded, bank, row, col) =
              found-IsPlaced options injective key other.row_key other.columns column block c.placed
                at in
            let in_key : bank_key_from_decoded d ≡ key =
              ap bank_of (sym place ∙ ap options.line_decoder (sym here) ∙ decoded) ∙ bank in
            rw (in_key, apart) refl

    pub closed_image-IsCoherent : IsCoherent options closed_image
    unfolding closed_image
    closed_image-IsCoherent = record {
      stored = later_stored;
      cached = λ key other at other_open.
          go (same_key key bank_key) key other refl (sym (closed_lookup key) ∙ at) other_open;
    }
      where
        is_open_in : RowBufferEntry → Option RowBufferEntry → Bool
        is_open_in other none = other.is_open
        is_open_in other (some entry) = entry.is_open

        go :
            (b : Bool) (key : StorageKey) (other : RowBufferEntry)
            → same_key key bank_key ≡ b
            → (if b then some (closed_entry rb) else find_in same_key key image.row_buffers)
              ≡ some other
            → other.is_open ≡ true
            → IsCached options (later options injective image bank_key rb entry_cached) key other
        go true key other here at other_open =
            let closed : false ≡ true = ap (is_open_in other) at ∙ other_open in
            absurd (ground (arith, closed))
        go false key other there at other_open =
            other_bank_cached key other there (coherent.cached key other at other_open)
