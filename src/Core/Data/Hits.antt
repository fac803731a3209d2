-- ===== src/Core/Data/Hits.antt =====
-- Whether an access of src/core/data.cpp finds its line in an open row, and the block it then gets.
use mem_sim.Base.{
  ℕ, ◌≡◌, refl, sym, ap, ap₂, ◌∙◌, ◌⊎◌, inl, inr, Bool, true, false, ◌&&◌, Option, none, some,
  if◌then◌else◌, replicate, length-replicate, find_in,
}
use mem_sim.Dram.Address.{DecodedAddress}
use mem_sim.Core.Data.Shadow.{DataBlock}
use mem_sim.Core.Data.Image.{
  ImageOptions, MemoryImage, RowBufferEntry, same_key, bank_key_from_decoded, row_key_from_decoded,
  line_or, with_line, make_line, load_backend_line, backing_line, same_number, has_open_row,
}
use mem_sim.Core.Data.Access.{hit_entry, entry_block, row_buffer_block}
use mem_sim.Core.Data.Keys.{both, same_key_sound, same_key_refl}
use mem_sim.Core.Data.Coherence.{
  contents, HasShadow, IsInjective, IsCached, IsCoherent, IsLine, column_in, cached_line, line_of,
}
use mem_sim.Core.Data.Backing.{found-base}

-- An access finds the line in an open row, or no open row has the line.
pub record IsHit (options : ImageOptions) (base : ℕ) (image : MemoryImage) (d : DecodedAddress)
    (rb : RowBufferEntry) : Type 0 where
  pub place : options.line_decoder base ≡ some d
  pub found : find_in same_key (bank_key_from_decoded d) image.row_buffers ≡ some rb
  pub is_open : rb.is_open ≡ true
  pub in_row : rb.row_key ≡ row_key_from_decoded d
  pub result :
      row_buffer_block options base (options.line_decoder base) image
      ≡ some (record { decoded = d; entry = rb; block = entry_block options rb d base image })

pub record IsMiss (options : ImageOptions) (base : ℕ) (image : MemoryImage) : Type 0 where
  pub uncached : cached_line options image.row_buffers (options.line_decoder base) ≡ none
  pub result : row_buffer_block options base (options.line_decoder base) image ≡ none

module _ (options : ImageOptions) (base : ℕ) (image : MemoryImage) where
  pub access-cases :
      IsMiss options base image
      ⊎ ((d : DecodedAddress) × (rb : RowBufferEntry) × IsHit options base image d rb)
  unfolding row_buffer_block has_open_row
  access-cases = go (options.line_decoder base) refl
    where
      Cases : Type 0
      Cases =
          IsMiss options base image
          ⊎ ((d : DecodedAddress) × (rb : RowBufferEntry) × IsHit options base image d rb)

      entry :
          (d : DecodedAddress)
          → options.line_decoder base ≡ some d
          → (o : Option RowBufferEntry)
          → find_in same_key (bank_key_from_decoded d) image.row_buffers ≡ o
          → Cases
      entry d place none found = inl (record {
        uncached =
            ap (cached_line options image.row_buffers) place
            ∙ ap (λ q. column_in options q d) found;
        result =
            ap (λ o. row_buffer_block options base o image) place
            ∙ ap (λ q. hit_entry options q (has_open_row q (row_key_from_decoded d)) d base image)
                found;
      })
      entry d place (some rb) found =
          opened (rb.is_open && same_key rb.row_key (row_key_from_decoded d)) refl
        where
          opened :
              (b : Bool) → (rb.is_open && same_key rb.row_key (row_key_from_decoded d)) ≡ b → Cases
          opened true test =
              let (is_open, row) =
                both rb.is_open (same_key rb.row_key (row_key_from_decoded d)) test in
              inr (
                d,
                rb,
                record {
                  place = place;
                  found = found;
                  is_open = is_open;
                  in_row = same_key_sound rb.row_key (row_key_from_decoded d) row;
                  result =
                      ap (λ o. row_buffer_block options base o image) place
                      ∙ ap
                          (λ q.
                            hit_entry options q (has_open_row q (row_key_from_decoded d)) d base
                              image)
                          found
                      ∙ ap (λ b. hit_entry options (some rb) b d base image) test;
                },
              )
          opened false test = inl (record {
            uncached =
                ap (cached_line options image.row_buffers) place
                ∙ ap (λ q. column_in options q d) found
                ∙ ap (λ b. if b then find_in same_number d.column rb.columns else none) test;
            result =
                ap (λ o. row_buffer_block options base o image) place
                ∙ ap
                    (λ q.
                      hit_entry options q (has_open_row q (row_key_from_decoded d)) d base image)
                    found
                ∙ ap (λ b. hit_entry options (some rb) b d base image) test;
          })

      go : (o : Option DecodedAddress) → options.line_decoder base ≡ o → Cases
      go none place = inl (record {
        uncached = ap (cached_line options image.row_buffers) place;
        result = ap (λ o. row_buffer_block options base o image) place;
      })
      go (some d) place =
          entry d place (find_in same_key (bank_key_from_decoded d) image.row_buffers) refl

module _ (options : ImageOptions) (injective : IsInjective options.line_decoder)
    (image : MemoryImage) (coherent : IsCoherent options image) (base : ℕ) where
  pub make_line-IsLine : IsLine options (make_line options base)
  unfolding make_line HasShadow
  make_line-IsLine = record {
    bytes = length-replicate options.line_size options.default_value;
    mask = length-replicate options.line_size 0;
    shadow = inl refl;
  }

  pub backing_line-IsLine : IsLine options (backing_line options image.backend base)
  unfolding backing_line load_backend_line HasShadow
  backing_line-IsLine = go (find_in same_number base image.backend) refl
    where
      go :
          (o : Option DataBlock)
          → find_in same_number base image.backend ≡ o
          → IsLine options (
              line_or
                (with_line
                  (λ (line : DataBlock). record line {
                    logical_line_base = base;
                    byte_mask = replicate options.line_size 0;
                  })
                  o)
                (make_line options base))
      go none found = make_line-IsLine
      go (some line) found =
          let l = coherent.stored base line found in
          record { bytes = l.bytes; mask = l.mask; shadow = l.shadow }

  module _ (d : DecodedAddress) (rb : RowBufferEntry) (hit : IsHit options base image d rb) where
    abbrev pub hit_block : DataBlock
    hit_block = entry_block options rb d base image

    hit_cached : IsCached options image.backend (bank_key_from_decoded d) rb
    hit_cached = coherent.cached (bank_key_from_decoded d) rb hit.found hit.is_open

    pub hit_block-IsLine : IsLine options hit_block
    unfolding entry_block HasShadow
    hit_block-IsLine = go (find_in same_number d.column rb.columns) refl
      where
        go :
            (o : Option DataBlock)
            → find_in same_number d.column rb.columns ≡ o
            → IsLine options (record (line_or o (backing_line options image.backend base)) {
              logical_line_base = base;
            })
        go none found =
            let l = backing_line-IsLine in
            record { bytes = l.bytes; mask = l.mask; shadow = l.shadow }
        go (some line) found =
            let l = hit_cached.lines d.column line found in
            record { bytes = l.bytes; mask = l.mask; shadow = l.shadow }

    pub contents-hit_block : contents hit_block ≡ contents (line_of options image base)
    unfolding entry_block line_of
    contents-hit_block = sym (
        ap (λ q. contents (line_or q (backing_line options image.backend base)))
          (ap (cached_line options image.row_buffers) hit.place
            ∙ ap (λ q. column_in options q d) hit.found
            ∙ ap₂ (λ a b. if a && b then find_in same_number d.column rb.columns else none)
                hit.is_open
                (ap (λ k. same_key k (row_key_from_decoded d)) hit.in_row
                  ∙ same_key_refl (row_key_from_decoded d))))

    pub clean-hit_block :
        rb.dirty ≡ false → contents hit_block ≡ contents (backing_line options image.backend base)
    unfolding entry_block
    clean-hit_block clean = go (find_in same_number d.column rb.columns) refl
      where
        go :
            (o : Option DataBlock)
            → find_in same_number d.column rb.columns ≡ o
            → contents (line_or o (backing_line options image.backend base))
              ≡ contents (backing_line options image.backend base)
        go none found = refl
        go (some line) found = hit_cached.clean clean d.column base line found (
            found-base options injective (bank_key_from_decoded d) rb.row_key rb.columns line base d
              hit_cached.placed found hit.place refl (sym hit.in_row))
