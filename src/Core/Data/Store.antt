-- ===== src/Core/Data/Store.antt =====
-- store_line of src/core/data.cpp: a line allocated, and a line written that no open row holds.
use mem_sim.Base.{
  ℕ, ◌≡◌, refl, sym, ap, ap₂, subst, ◌∙◌, Bool, true, false, ◌&&◌, Option, none, some, List, ◌==◌,
  if◌then◌else◌, ==→eq, replicate, find_in,
}
use mem_sim.Core.Data.Shadow.{DataBlock}
use mem_sim.Core.Data.Image.{
  StorageKey, ImageOptions, MemoryImage, RowBufferEntry, same_key, row_key_from_decoded, line_or,
  with_line, make_line, load_backend_line, backing_line, same_number, store_line,
}
use mem_sim.Core.Data.Keys.{same_key_refl}
use mem_sim.Core.Data.Coherence.{
  contents, IsInjective, IsCoherent, IsLine, IsPlaced, column_in, cached_line, line_of,
}
use mem_sim.Core.Data.Writeback.{find-store_line}
use mem_sim.Core.Data.Backing.{found-IsPlaced, no_line}
use mem_sim.Core.Data.Rows.{IsHidden}

module _ (options : ImageOptions) (image : MemoryImage) (base : ℕ) (block : DataBlock)
    (coherent : IsCoherent options image) (line : IsLine options block) where
  abbrev pub stored_backend : List (ℕ × DataBlock)
  stored_backend = store_line base block image.backend

  unfoldable pub stored_image : MemoryImage
  stored_image = record image { backend = store_line base block image.backend }

  stored_stored :
      (c : ℕ) (other : DataBlock)
      → find_in same_number c stored_backend ≡ some other
      → IsLine options other
  stored_stored c other at = go (c == base) (sym (find-store_line base c block image.backend) ∙ at)
    where
      go :
          (b : Bool)
          → (if b then some block else find_in same_number c image.backend) ≡ some other
          → IsLine options other
      go true e = subst (IsLine options) (ap (λ o. line_or o other) e) line
      go false e = coherent.stored c other e

  pub backing-stored :
      (c : ℕ)
      → contents (backing_line options stored_backend c)
        ≡ (if c == base then contents block else contents (backing_line options image.backend c))
  unfolding backing_line load_backend_line
  backing-stored c = ap shown (find-store_line base c block image.backend) ∙ go (c == base)
    where
      shown : Option DataBlock → List ℕ × List ℕ
      shown o = contents (
          line_or
            (with_line
              (λ (line : DataBlock). record line {
                logical_line_base = c;
                byte_mask = replicate options.line_size 0;
              })
              o)
            (make_line options c))

      go :
          (b : Bool)
          → shown (if b then some block else find_in same_number c image.backend)
            ≡ (if b then contents block else shown (find_in same_number c image.backend))
      go true = refl
      go false = refl

  -- The backend's contents of another line, or of any where the block has the contents of the line before.
  cached_after :
      ((c : ℕ) (key : StorageKey) (rb : RowBufferEntry) (column : ℕ) (other : DataBlock)
        → find_in same_key key image.row_buffers ≡ some rb
        → rb.is_open ≡ true
        → find_in same_number column rb.columns ≡ some other
        → other.logical_line_base ≡ c
        → contents (backing_line options stored_backend c)
          ≡ contents (backing_line options image.backend c))
      → IsCoherent options stored_image
  unfolding stored_image
  cached_after same = record {
    stored = stored_stored;
    cached = λ key rb found is_open.
        let c = coherent.cached key rb found is_open in
        record {
          placed = c.placed;
          lines = c.lines;
          clean = λ clean column base_of other at here.
              c.clean clean column base_of other at here
              ∙ sym (same base_of key rb column other found is_open at here);
        };
  }

  -- Nothing is shown of a line that is stored with the contents it has.
  pub stored_image-IsHidden :
      contents block ≡ contents (backing_line options image.backend base)
      → IsHidden options image stored_image
  unfolding stored_image line_of
  stored_image-IsHidden equal = record {
    coherent = cached_after (λ c key rb column other found is_open at here. same c);
    shows = λ c. go (cached_line options image.row_buffers (options.line_decoder c)) c;
  }
    where
      choose :
          (b : Bool) (c : ℕ)
          → (c == base) ≡ b
          → (if b then contents block else contents (backing_line options image.backend c))
            ≡ contents (backing_line options image.backend c)
      choose true c hit =
          equal ∙ ap (λ x. contents (backing_line options image.backend x)) (sym (==→eq c base hit))
      choose false c miss = refl

      same :
          (c : ℕ)
          → contents (backing_line options stored_backend c)
            ≡ contents (backing_line options image.backend c)
      same c = backing-stored c ∙ choose (c == base) c refl

      go :
          (o : Option DataBlock) (c : ℕ)
          → contents (line_or o (backing_line options stored_backend c))
            ≡ contents (line_or o (backing_line options image.backend c))
      go none c = same c
      go (some other) c = refl

  module _ (injective : IsInjective options.line_decoder)
      (uncached : cached_line options image.row_buffers (options.line_decoder base) ≡ none) where
    pub contents-stored_image :
        (c : ℕ)
        → contents (line_of options stored_image c)
          ≡ (if c == base then contents block else contents (line_of options image c))
    unfolding stored_image line_of
    contents-stored_image c =
        go (c == base) refl (cached_line options image.row_buffers (options.line_decoder c)) refl
      where
        go :
            (b : Bool)
            → (c == base) ≡ b
            → (o : Option DataBlock)
            → cached_line options image.row_buffers (options.line_decoder c) ≡ o
            → contents (line_or o (backing_line options stored_backend c)) ≡ (
                if b
                then contents block
                else contents (line_or o (backing_line options image.backend c)))
        go b test none e =
            backing-stored c
            ∙ ap
                (λ x. if x then contents block else contents (backing_line options image.backend c))
                test
        go true hit (some other) e = absurd (
            no_line other (
              sym (
                ap (λ x. cached_line options image.row_buffers (options.line_decoder x))
                  (==→eq c base hit)
                ∙ uncached)
              ∙ e))
        go false miss (some other) e = refl

    pub stored_image-IsCoherent : IsCoherent options stored_image
    unfolding IsPlaced
    stored_image-IsCoherent = cached_after λ c key rb column other found is_open at here.
        backing-stored c ∙ choose (c == base) c key rb column other refl found is_open at here
      where
        shown_cached :
            (key : StorageKey) (rb : RowBufferEntry) (column : ℕ) (other : DataBlock)
            → find_in same_key key image.row_buffers ≡ some rb
            → rb.is_open ≡ true
            → find_in same_number column rb.columns ≡ some other
            → cached_line options image.row_buffers (options.line_decoder other.logical_line_base)
              ≡ some other
        shown_cached key rb column other found is_open at =
            let (e, decoded, bank, row, col) =
              found-IsPlaced options injective key rb.row_key rb.columns column other
                (coherent.cached key rb found is_open).placed at in
            let here : same_key rb.row_key (row_key_from_decoded e) ≡ true =
              ap (λ k. same_key k (row_key_from_decoded e)) (sym row)
              ∙ same_key_refl (row_key_from_decoded e) in
            ap (cached_line options image.row_buffers) decoded
            ∙ ap (λ q. column_in options q e)
                (ap (λ k. find_in same_key k image.row_buffers) bank ∙ found)
            ∙ ap₂ (λ a b. if a && b then find_in same_number e.column rb.columns else none) is_open
                here
            ∙ ap (λ n. find_in same_number n rb.columns) col
            ∙ at

        choose :
            (b : Bool) (c : ℕ) (key : StorageKey) (rb : RowBufferEntry) (column : ℕ)
            (other : DataBlock)
            → (c == base) ≡ b
            → find_in same_key key image.row_buffers ≡ some rb
            → rb.is_open ≡ true
            → find_in same_number column rb.columns ≡ some other
            → other.logical_line_base ≡ c
            → (if b then contents block else contents (backing_line options image.backend c))
              ≡ contents (backing_line options image.backend c)
        choose true c key rb column other hit found is_open at here = absurd (
            no_line other (
              sym uncached
              ∙ ap (λ x. cached_line options image.row_buffers (options.line_decoder x))
                  (sym (here ∙ ==→eq c base hit))
              ∙ shown_cached key rb column other found is_open at))
        choose false c key rb column other miss found is_open at here = refl
