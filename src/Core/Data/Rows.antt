-- ===== src/Core/Data/Rows.antt =====
-- precharge_bank and activate_row of src/core/data.cpp, and what the image shows of its lines after them.
use mem_sim.Base.{
  ℕ, ◌≡◌, refl, sym, ap, subst, ◌∙◌, Bool, true, false, not, ◌&&◌, Option, none, some,
  if◌then◌else◌, find_in, put_in, find_in-put_in,
}
use mem_sim.Dram.Address.{DecodedAddress}
use mem_sim.Core.Data.Shadow.{DataBlock}
use mem_sim.Core.Data.Image.{
  StorageKey, same_number, ImageOptions, MemoryImage, RowBufferEntry, same_key, writeback_columns,
  bank_key_from_decoded, row_key_from_decoded, line_or, backing_line, close_entry, closed_entry,
  opened_entry, has_open_row, writeback_row_buffer, precharge_bank, activate_row,
}
use mem_sim.Core.Data.Keys.{same_key_sound, same_key_refl}
use mem_sim.Core.Data.Coherence.{
  contents, IsInjective, IsCached, IsCoherent, column_in, cached_line, line_of,
}
use mem_sim.Core.Data.Backing.{later, no_line}
use mem_sim.Core.Data.Closing.{closed_image, contents-closed_image, closed_image-IsCoherent}

-- A change of the row buffers alone that the image does not show.
pub record IsHidden (options : ImageOptions) (before after : MemoryImage) : Type 0 where
  pub coherent : IsCoherent options after
  pub shows :
      (base : ℕ) → contents (line_of options after base) ≡ contents (line_of options before base)

module _ (options : ImageOptions) (injective : IsInjective options.line_decoder) where
  pub writeback_row_buffer-IsHidden :
      (bank_key : StorageKey) (image : MemoryImage)
      → IsCoherent options image
      → IsHidden options image (writeback_row_buffer bank_key image)
  unfolding writeback_row_buffer close_entry closed_image later
  writeback_row_buffer-IsHidden bank_key image coherent =
      go (find_in same_key bank_key image.row_buffers) refl
    where
      unchanged : IsHidden options image image
      unchanged = record { coherent = coherent; shows = λ base. refl }

      opened :
          (b : Bool) (rb : RowBufferEntry)
          → find_in same_key bank_key image.row_buffers ≡ some rb
          → rb.is_open ≡ b
          → IsHidden options image (close_entry bank_key (some rb) image)
      opened true rb found is_open =
          subst (IsHidden options image)
            (ap
              (λ b.
                if not b
                then image
                else closed_image options injective image bank_key rb coherent found is_open)
              (sym is_open))
            (record {
              coherent =
                  closed_image-IsCoherent options injective image bank_key rb coherent found
                    is_open;
              shows =
                  contents-closed_image options injective image bank_key rb coherent found is_open;
            })
      opened false rb found is_closed =
          subst (IsHidden options image)
            (ap
              (λ b. if not b then image else record image {
                backend =
                    if rb.dirty then writeback_columns rb.columns image.backend else image.backend;
                row_buffers = put_in same_key bank_key (closed_entry rb) image.row_buffers;
              })
              (sym is_closed))
            unchanged

      go :
          (o : Option RowBufferEntry)
          → find_in same_key bank_key image.row_buffers ≡ o
          → IsHidden options image (close_entry bank_key o image)
      go none found = unchanged
      go (some rb) found = opened rb.is_open rb found refl

  pub precharge_bank-IsHidden :
      (d : DecodedAddress) (image : MemoryImage)
      → IsCoherent options image
      → IsHidden options image (precharge_bank d image)
  unfolding precharge_bank
  precharge_bank-IsHidden d image coherent =
      writeback_row_buffer-IsHidden (bank_key_from_decoded d) image coherent

  pub IsHidden-trans :
      (a b c : MemoryImage) → IsHidden options a b → IsHidden options b c → IsHidden options a c
  IsHidden-trans a b c first second = record {
    coherent = second.coherent;
    shows = λ base. second.shows base ∙ first.shows base;
  }

  -- No row of the bank is open.
  IsShut : StorageKey → MemoryImage → Type 0
  IsShut bank_key image =
      (rb : RowBufferEntry)
      → find_in same_key bank_key image.row_buffers ≡ some rb
      → rb.is_open ≡ false

  abbrev open_of : Bool → Option RowBufferEntry → Bool
  open_of b none = b
  open_of b (some rb) = rb.is_open

  writeback_row_buffer-IsShut :
      (bank_key : StorageKey) (image : MemoryImage)
      → IsShut bank_key (writeback_row_buffer bank_key image)
  unfolding writeback_row_buffer close_entry IsShut
  writeback_row_buffer-IsShut bank_key image = go (find_in same_key bank_key image.row_buffers) refl
    where
      shut :
          (rb other : RowBufferEntry) (b : Bool)
          → rb.is_open ≡ b
          → find_in same_key bank_key image.row_buffers ≡ some rb
          → find_in same_key bank_key
              (if not b then image else record image {
                backend =
                    if rb.dirty then writeback_columns rb.columns image.backend else image.backend;
                row_buffers = put_in same_key bank_key (closed_entry rb) image.row_buffers;
              }).row_buffers
            ≡ some other
          → other.is_open ≡ false
      shut rb other true is_open found at =
          let closed : find_in same_key bank_key
                (put_in same_key bank_key (closed_entry rb) image.row_buffers)
              ≡ some (closed_entry rb) =
            find_in-put_in same_key same_key_sound same_key_refl bank_key bank_key (closed_entry rb)
              image.row_buffers
            ∙ ap
                (λ b.
                  if b then some (closed_entry rb) else find_in same_key bank_key image.row_buffers)
                (same_key_refl bank_key) in
          sym (ap (open_of false) (sym closed ∙ at))
      shut rb other false is_closed found at = sym (ap (open_of false) (sym found ∙ at)) ∙ is_closed

      go :
          (o : Option RowBufferEntry)
          → find_in same_key bank_key image.row_buffers ≡ o
          → IsShut bank_key (close_entry bank_key o image)
      go none found rb at = sym (ap (open_of false) (sym found ∙ at))
      go (some rb) found other at = shut rb other rb.is_open refl found at

  module _ (bank_key row_key : StorageKey) (image : MemoryImage)
      (coherent : IsCoherent options image) (shut : IsShut bank_key image) where
    opened_image : MemoryImage
    opened_image = record image {
      row_buffers = put_in same_key bank_key (opened_entry row_key) image.row_buffers;
    }

    opened_lookup :
        (key : StorageKey)
        → find_in same_key key opened_image.row_buffers ≡ (
            if same_key key bank_key
            then some (opened_entry row_key)
            else find_in same_key key image.row_buffers)
    unfolding opened_image
    opened_lookup key =
        find_in-put_in same_key same_key_sound same_key_refl bank_key key (opened_entry row_key)
          image.row_buffers

    shows_none :
        (d : DecodedAddress) (b : Bool)
        → same_key (bank_key_from_decoded d) bank_key ≡ b
        → column_in options
            (if b
              then some (opened_entry row_key)
              else find_in same_key (bank_key_from_decoded d) image.row_buffers)
            d
          ≡ column_in options (find_in same_key (bank_key_from_decoded d) image.row_buffers) d
    unfolding IsShut find_in
    shows_none d false other = refl
    shows_none d true in_bank =
        either (same_key row_key (row_key_from_decoded d))
        ∙ sym (
            ap (λ k. column_in options (find_in same_key k image.row_buffers) d)
              (same_key_sound (bank_key_from_decoded d) bank_key in_bank)
            ∙ go (find_in same_key bank_key image.row_buffers) refl)
      where
        nothing : Option DataBlock
        nothing = none

        either : (b : Bool) → (if b then nothing else nothing) ≡ nothing
        either true = refl
        either false = refl

        go :
            (o : Option RowBufferEntry)
            → find_in same_key bank_key image.row_buffers ≡ o
            → column_in options o d ≡ nothing
        go none found = refl
        go (some rb) found =
            ap
              (λ b.
                if b && same_key rb.row_key (row_key_from_decoded d)
                then find_in same_number d.column rb.columns
                else none)
              (shut rb found)

    opened_entry-IsCached : IsCached options image.backend bank_key (opened_entry row_key)
    unfolding find_in
    opened_entry-IsCached = record {
      placed = tt;
      lines = λ c block found. absurd (no_line block found);
      clean = λ clean c base block found here. absurd (no_line block found);
    }

    opened_cached :
        (b : Bool) (key : StorageKey) (rb : RowBufferEntry)
        → same_key key bank_key ≡ b
        → (if b then some (opened_entry row_key) else find_in same_key key image.row_buffers)
          ≡ some rb
        → rb.is_open ≡ true
        → IsCached options image.backend key rb
    opened_cached true key rb here at is_open =
        subst (λ k. IsCached options image.backend k rb) (sym (same_key_sound key bank_key here))
          (subst (IsCached options image.backend bank_key) (ap (entry_or rb) at)
            opened_entry-IsCached)
      where
        entry_or : RowBufferEntry → Option RowBufferEntry → RowBufferEntry
        entry_or other none = other
        entry_or other (some entry) = entry
    opened_cached false key rb there at is_open = coherent.cached key rb at is_open

    opened_image-IsHidden : IsHidden options image opened_image
    unfolding line_of opened_image
    opened_image-IsHidden = record {
      coherent = record {
        stored = coherent.stored;
        cached = λ key rb at is_open.
            opened_cached (same_key key bank_key) key rb refl (sym (opened_lookup key) ∙ at)
              is_open;
      };
      shows = λ base. go base (options.line_decoder base);
    }
      where
        go :
            (base : ℕ) (o : Option DecodedAddress)
            → contents (
                line_or
                  (cached_line options opened_image.row_buffers o)
                  (backing_line options image.backend base))
              ≡ contents (
                  line_or
                    (cached_line options image.row_buffers o)
                    (backing_line options image.backend base))
        go base none = refl
        go base (some d) =
            ap (λ q. contents (line_or q (backing_line options image.backend base)))
              (ap (λ r. column_in options r d) (opened_lookup (bank_key_from_decoded d))
                ∙ shows_none d (same_key (bank_key_from_decoded d) bank_key) refl)

  pub activate_row-IsHidden :
      (d : DecodedAddress) (image : MemoryImage)
      → IsCoherent options image
      → IsHidden options image (activate_row d image)
  unfolding activate_row opened_image
  activate_row-IsHidden d image coherent = go (
      has_open_row (find_in same_key (bank_key_from_decoded d) image.row_buffers)
        (row_key_from_decoded d))
    where
      bank_key : StorageKey
      bank_key = bank_key_from_decoded d

      closed : MemoryImage
      closed = writeback_row_buffer bank_key image

      hidden : IsHidden options image closed
      hidden = writeback_row_buffer-IsHidden bank_key image coherent

      go :
          (b : Bool)
          → IsHidden options image (
              if b then image else record closed {
                row_buffers =
                    put_in same_key bank_key
                      (opened_entry (row_key_from_decoded d))
                      closed.row_buffers;
              })
      go true = record { coherent = coherent; shows = λ base. refl }
      go false = IsHidden-trans image closed _ hidden (
          opened_image-IsHidden bank_key (row_key_from_decoded d) closed hidden.coherent
            (writeback_row_buffer-IsShut bank_key image))
