-- ===== src/Core/Data/Writing.antt =====
-- The body of the loop of MemoryImage::write in src/core/data.cpp, on one line whose
-- coordinates are those that the decoder gives.
use mem_sim.Base.{
  ℕ, ◌+◌, ◌-◌, ◌≤◌, ◌≡◌, refl, sym, ap, ap₂, subst, ◌∙◌, inl, inr, Bool, true, false, ◌&&◌, ◌||◌,
  Option, none, some, List, arith, ltb, leb, ◌==◌, if◌then◌else◌, ==→eq, ==_refl, length, get_or,
  find_in,
}
use mem_sim.Dram.Address.{DecodedAddress}
use mem_sim.Core.Data.Shadow.{DataBlock}
use mem_sim.Core.Data.Image.{
  ImageOptions, MemoryImage, RowBufferEntry, same_key, bank_key_from_decoded, line_or, make_line,
  load_backend_line, backing_line,
}
use mem_sim.Core.Data.Access.{
  is_wanted, entry_block, row_buffer_block, put_column, wrote_any, written_block, allocate,
  write_hit, write_line,
}
use mem_sim.Core.Data.Coherence.{contents, IsInjective, IsCoherent, line_of}
use mem_sim.Core.Data.Rows.{IsHidden}
use mem_sim.Core.Data.Column.{changed_image, contents-changed_image, changed_image-IsCoherent}
use mem_sim.Core.Data.Store.{
  backing-stored, stored_image, stored_image-IsHidden, contents-stored_image,
  stored_image-IsCoherent,
}
use mem_sim.Core.Data.Written.{
  get_or-overlay, overlaid, overlay_unwanted, contents-written_block,
  written_block-logical_line_base, written_block-IsLine,
}
use mem_sim.Core.Data.Hits.{
  IsHit, IsMiss, access-cases, make_line-IsLine, backing_line-IsLine, hit_block, hit_block-IsLine,
  contents-hit_block, clean-hit_block,
}

-- The line of a write shows the data, every other line what it did.
unfoldable pub IsWritten :
    (options : ImageOptions)
    → MemoryImage
    → ℕ
    → ℕ
    → ℕ
    → ℕ
    → List ℕ
    → Option (List ℕ)
    → MemoryImage
    → Type 0
IsWritten options image base chunk src at data_bytes mask after =
    IsCoherent options after
    × ((other : ℕ)
        → contents (line_of options after other) ≡ (
            if other == base
            then overlaid chunk src at data_bytes mask (contents (line_of options image base))
            else contents (line_of options image other)))

module _ (options : ImageOptions) (injective : IsInjective options.line_decoder)
    (image : MemoryImage) (coherent : IsCoherent options image) (base : ℕ) where
  module _ (off : options.ecc.ecc_inject_period ≡ 0) (chunk src at : ℕ) (data_bytes : List ℕ)
      (mask : Option (List ℕ)) where
    write_miss-IsWritten :
        IsMiss options base image
        → IsWritten options image base chunk src at data_bytes mask
            (write_hit options base at chunk src data_bytes mask none image)
    unfolding IsWritten stored_image line_of
    write_miss-IsWritten miss =
        let backing = backing_line options image.backend base in
        let block = written_block options chunk src at data_bytes mask image.next_version backing in
        let line =
          written_block-IsLine options off chunk src at data_bytes mask image.next_version backing
            (backing_line-IsLine options injective image coherent base) in
        let written : contents block
            ≡ overlaid chunk src at data_bytes mask (contents (line_of options image base)) =
          contents-written_block options off chunk src at data_bytes mask image.next_version backing
          ∙ ap (λ q. overlaid chunk src at data_bytes mask (contents (line_or q backing)))
              (sym miss.uncached) in
        (
          stored_image-IsCoherent options image base block coherent line injective miss.uncached,
          λ other.
              contents-stored_image options image base block coherent line injective miss.uncached
                other
              ∙ ap (λ c. if other == base then c else contents (line_of options image other))
                  written,
        )

    module _ (d : DecodedAddress) (rb : RowBufferEntry) (hit : IsHit options base image d rb) where
      found_block : DataBlock
      found_block = hit_block options injective image coherent base d rb hit

      new_block : DataBlock
      new_block = written_block options chunk src at data_bytes mask image.next_version found_block

      contents-new_block :
          contents new_block
          ≡ overlaid chunk src at data_bytes mask (contents (line_of options image base))
      unfolding new_block found_block
      contents-new_block =
          contents-written_block options off chunk src at data_bytes mask image.next_version
            found_block
          ∙ ap (overlaid chunk src at data_bytes mask)
              (contents-hit_block options injective image coherent base d rb hit)

      clean-new_block :
          rb.dirty || wrote_any chunk src mask ≡ false
          → contents new_block ≡ contents (backing_line options image.backend base)
      unfolding new_block found_block
      clean-new_block clean =
          let (not_dirty, unwritten) = neither rb.dirty (wrote_any chunk src mask) clean in
          contents-written_block options off chunk src at data_bytes mask image.next_version
            found_block
          ∙ ap₂ (λ a b. (a, b))
              (overlay_unwanted (λ s. get_or data_bytes s 0) mask chunk src at found_block.bytes
                unwritten)
              (overlay_unwanted (λ s. 255) mask chunk src at found_block.initialized_mask unwritten)
          ∙ clean-hit_block options injective image coherent base d rb hit not_dirty
        where
          neither : (a b : Bool) → a || b ≡ false → (a ≡ false) × (b ≡ false)
          neither true b e = absurd (ground (arith, e))
          neither false b e = (refl, e)

      -- The block is put into the image after an allocation, which nothing shows.
      put_column-IsWritten :
          (allocated : MemoryImage)
          → IsHidden options image allocated
          → find_in same_key (bank_key_from_decoded d) allocated.row_buffers ≡ some rb
          → contents (backing_line options allocated.backend base)
            ≡ contents (backing_line options image.backend base)
          → IsWritten options image base chunk src at data_bytes mask (
              put_column
                (record { decoded = d; entry = rb; block = found_block })
                new_block
                (wrote_any chunk src mask)
                allocated)
      unfolding put_column changed_image IsWritten new_block found_block entry_block
      put_column-IsWritten allocated hidden found same =
          let line =
            written_block-IsLine options off chunk src at data_bytes mask image.next_version
              found_block (hit_block-IsLine options injective image coherent base d rb hit) in
          let here =
            written_block-logical_line_base options off chunk src at data_bytes mask
              image.next_version found_block in
          let clean =
            λ (c : rb.dirty || wrote_any chunk src mask ≡ false). clean-new_block c ∙ sym same in
          (
            changed_image-IsCoherent options injective allocated hidden.coherent base d hit.place rb
                found hit.is_open hit.in_row new_block line here (wrote_any chunk src mask) clean,
            λ other.
                contents-changed_image options injective allocated hidden.coherent base d hit.place
                  rb found hit.is_open hit.in_row new_block line here (wrote_any chunk src mask)
                  clean other
                ∙ ap₂ (λ x y. if other == base then x else y) contents-new_block
                    (hidden.shows other),
          )

      write_hit-IsWritten : IsWritten options image base chunk src at data_bytes mask (
          write_hit options base at chunk src data_bytes mask
            (some (record { decoded = d; entry = rb; block = found_block }))
            image)
      unfolding new_block found_block backing_line stored_image
      write_hit-IsWritten = go (load_backend_line options image.backend base) refl
        where
          go :
              (o : Option DataBlock)
              → load_backend_line options image.backend base ≡ o
              → IsWritten options image base chunk src at data_bytes mask (
                  put_column
                    (record { decoded = d; entry = rb; block = found_block })
                    new_block
                    (wrote_any chunk src mask)
                    (allocate options base o image))
          go (some line) loaded =
              put_column-IsWritten image (record { coherent = coherent; shows = λ other. refl })
                hit.found refl
          go none loaded =
              put_column-IsWritten (allocate options base none image) hidden hit.found same
            where
              equal :
                  contents (make_line options base)
                  ≡ contents (backing_line options image.backend base)
              equal = ap (λ o. contents (line_or o (make_line options base))) (sym loaded)

              hidden : IsHidden options image (allocate options base none image)
              hidden =
                  stored_image-IsHidden options image base (make_line options base) coherent
                    (make_line-IsLine options injective image coherent base) equal

              same :
                  contents (backing_line options (allocate options base none image).backend base)
                  ≡ contents (backing_line options image.backend base)
              same =
                  backing-stored options image base (make_line options base) coherent
                    (make_line-IsLine options injective image coherent base) base
                  ∙ ap
                      (λ b.
                        if b
                        then contents (make_line options base)
                        else contents (backing_line options image.backend base))
                      (==_refl base)
                  ∙ equal

    write_hit_or_miss : IsWritten options image base chunk src at data_bytes mask (
        write_hit options base at chunk src data_bytes mask
          (row_buffer_block options base (options.line_decoder base) image)
          image)
    unfolding found_block
    write_hit_or_miss = elim (access-cases options base image) [
      | inl miss ↦
          subst
            (λ h.
              IsWritten options image base chunk src at data_bytes mask
                (write_hit options base at chunk src data_bytes mask h image))
            (sym miss.result) (write_miss-IsWritten miss)
      | inr (d, rb, hit) ↦
          subst
            (λ h.
              IsWritten options image base chunk src at data_bytes mask
                (write_hit options base at chunk src data_bytes mask h image))
            (sym hit.result) (write_hit-IsWritten d rb hit)
    ]

    pub write_line-IsWritten :
        IsWritten options image base chunk src at data_bytes mask
          (write_line options base at chunk src data_bytes mask (options.line_decoder base) image)
    unfolding write_line IsWritten line_of
    write_line-IsWritten = go (wrote_any chunk src mask)
      where
        after : MemoryImage
        after =
            write_hit options base at chunk src data_bytes mask
              (row_buffer_block options base (options.line_decoder base) image) image

        go :
            (b : Bool)
            → IsWritten options image base chunk src at data_bytes mask
                (if b then record after { next_version = image.next_version + 1 } else after)
        go true =
            let (c, shows) = write_hit_or_miss in
            (record { stored = c.stored; cached = c.cached }, shows)
        go false = write_hit_or_miss

module _ (options : ImageOptions) (injective : IsInjective options.line_decoder) where
  -- After the write of a chunk to a line of a coherent image, with distinct coordinates for
  -- distinct lines and no injected errors, the bytes of the chunk that the mask wants come from
  -- the data, and every other byte of every line is shown as before, whether a row buffer holds
  -- the line or not.
  pub write_line-get_or :
      (image : MemoryImage) (base chunk src at : ℕ) (data_bytes : List ℕ) (mask : Option (List ℕ))
      (other i : ℕ)
      → IsCoherent options image
      → options.ecc.ecc_inject_period ≡ 0
      → at + chunk ≤ length (line_of options image base).bytes
      → let after =
          write_line options base at chunk src data_bytes mask (options.line_decoder base) image in
        get_or (line_of options after other).bytes i 0 ≡ (
          if other == base && (leb at i && ltb i (at + chunk) && is_wanted mask (src + (i - at)))
          then get_or data_bytes (src + (i - at)) 0
          else get_or (line_of options image other).bytes i 0)
  unfolding IsWritten
  write_line-get_or image base chunk src at data_bytes mask other i coherent off fits =
      let (after, shows) =
        write_line-IsWritten options injective image coherent base off chunk src at data_bytes
          mask in
      ap (λ c. get_or c.0 i 0) (shows other) ∙ go (other == base) refl
    where
      go :
          (b : Bool)
          → (other == base) ≡ b
          → get_or
              (if b
                then overlaid chunk src at data_bytes mask (contents (line_of options image base))
                else contents (line_of options image other)).0
              i
              0
            ≡ (if b && (leb at i && ltb i (at + chunk) && is_wanted mask (src + (i - at)))
                then get_or data_bytes (src + (i - at)) 0
                else get_or (line_of options image other).bytes i 0)
      go true here =
          get_or-overlay (λ s. get_or data_bytes s 0) mask chunk src at
            (line_of options image base).bytes i fits
          ∙ ap
              (λ x.
                if leb at i && ltb i (at + chunk) && is_wanted mask (src + (i - at))
                then get_or data_bytes (src + (i - at)) 0
                else get_or (line_of options image x).bytes i 0)
              (sym (==→eq other base here))
      go false there = refl
