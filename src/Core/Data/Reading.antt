-- ===== src/Core/Data/Reading.antt =====
-- The body of the loop of MemoryImage::read in src/core/data.cpp, on one line whose
-- coordinates are those that the decoder gives.
use mem_sim.Base.{
  ℕ, zero, suc, ◌+◌, ◌≤◌, ◌<◌, ◌≡◌, refl, sym, ap, ap₂, subst, ◌∙◌, inl, inr, Bool, true, false,
  not, ◌&&◌, ◌||◌, Option, none, some, List, [], ◌∷◌, arith, ◌==◌, if◌then◌else◌, ==→eq, ==_refl,
  replicate, get_or-replicate, get_or-replicate_self,
}
use mem_sim.Dram.Address.{DecodedAddress}
use mem_sim.Core.Data.Shadow.{DataBlock, is_different}
use mem_sim.Core.Data.Image.{
  ImageOptions, MemoryImage, RowBufferEntry, line_or, make_line, load_backend_line, backing_line,
  store_line, refresh_line_metadata,
}
use mem_sim.Core.Data.Access.{
  entry_block, put_column, copy_n, are_initialized, same_bytes, ecc_changed, LineRead, missed_line,
  read_hit, read_line,
}
use mem_sim.Core.Data.Coherence.{contents, IsInjective, IsCoherent, IsLine, line_of}
use mem_sim.Core.Data.Rows.{IsHidden}
use mem_sim.Core.Data.Settled.{check_ecc_shadow-HasShadow}
use mem_sim.Core.Data.Column.{changed_image, contents-changed_image, changed_image-IsCoherent}
use mem_sim.Core.Data.Hits.{
  IsHit, IsMiss, access-cases, backing_line-IsLine, hit_block, hit_block-IsLine, contents-hit_block,
  clean-hit_block,
}

same_bytes_refl : (bytes : List ℕ) → same_bytes bytes bytes ≡ true
unfolding same_bytes
same_bytes_refl [] = refl
same_bytes_refl (b ∷ bytes) = ap₂ (λ x y. x && y) (==_refl b) (same_bytes_refl bytes)

ecc_unchanged : (block : DataBlock) → ecc_changed block block ≡ false
unfolding ecc_changed
ecc_unchanged block =
    rw (same_bytes_refl block.bytes, ==_refl block.ecc_hamming)
      (three block.ecc_overall block.ecc_valid block.ecc_uncorrectable)
  where
    three :
        (a b c : Bool)
        → not true || not true || is_different a a || is_different b b || is_different c c ≡ false
    three true true true = refl
    three true true false = refl
    three true false true = refl
    three true false false = refl
    three false true true = refl
    three false true false = refl
    three false false true = refl
    three false false false = refl

copy_n-replicate :
    (n chunk at value : ℕ)
    → at + chunk ≤ n
    → copy_n chunk at (replicate n value) ≡ replicate chunk value
unfolding copy_n
copy_n-replicate n zero at value fits = refl
copy_n-replicate n (suc chunk) at value fits =
    ap₂ (λ b bytes. b ∷ bytes) (get_or-replicate n at value 0 (omega arith))
      (copy_n-replicate n chunk (at + 1) value (omega arith))

not_initialized : (n chunk at : ℕ) → 0 < chunk → false ≡ are_initialized chunk at (replicate n 0)
unfolding are_initialized
not_initialized n zero at some_bytes = absurd (omega arith)
not_initialized n (suc chunk) at some_bytes = rw (get_or-replicate_self {A = ℕ} n at 0) refl

-- What a read of a line gives, and that it leaves what the image shows.
pub record IsRead (options : ImageOptions) (base at chunk : ℕ) (image : MemoryImage)
    (read : LineRead) : Type 0 where
  pub hidden : IsHidden options image read.image
  pub bytes : read.bytes ≡ copy_n chunk at (line_of options image base).bytes
  pub initialized :
      read.initialized ≡ are_initialized chunk at (line_of options image base).initialized_mask

module _ (options : ImageOptions) (injective : IsInjective options.line_decoder)
    (image : MemoryImage) (coherent : IsCoherent options image) (base : ℕ) where
  -- The block found is put back as it is.
  read_image-IsHidden :
      (d : DecodedAddress) (rb : RowBufferEntry) (hit : IsHit options base image d rb)
      → let block = hit_block options injective image coherent base d rb hit in
        IsHidden options image
          (put_column (record { decoded = d; entry = rb; block = block }) block false image)
  unfolding put_column changed_image entry_block
  read_image-IsHidden d rb hit =
      let block = hit_block options injective image coherent base d rb hit in
      let line = hit_block-IsLine options injective image coherent base d rb hit in
      let same = contents-hit_block options injective image coherent base d rb hit in
      let clean = clean-hit_block options injective image coherent base d rb hit in
      record {
        coherent =
            changed_image-IsCoherent options injective image coherent base d hit.place rb hit.found
              hit.is_open hit.in_row block line refl false (λ c. clean (left rb.dirty c));
        shows = λ other.
            contents-changed_image options injective image coherent base d hit.place rb hit.found
              hit.is_open hit.in_row block line refl false (λ c. clean (left rb.dirty c)) other
            ∙ choose (contents block) same other (other == base) refl;
      }
    where
      left : (a : Bool) → a || false ≡ false → a ≡ false
      left true e = e
      left false e = e

      choose :
          (c : List ℕ × List ℕ)
          → c ≡ contents (line_of options image base)
          → (other : ℕ) (b : Bool) → (other == base) ≡ b
          → (if b then c else contents (line_of options image other))
            ≡ contents (line_of options image other)
      choose c same other true here =
          same ∙ ap (λ x. contents (line_of options image x)) (sym (==→eq other base here))
      choose c same other false there = refl

  module _ (at chunk : ℕ) (some_bytes : 0 < chunk) (fits : at + chunk ≤ options.line_size) where
    read_hit-IsRead :
        (d : DecodedAddress) (rb : RowBufferEntry) (hit : IsHit options base image d rb)
        → IsRead options base at chunk image (
            read_hit options base at chunk
              (some (record {
                decoded = d;
                entry = rb;
                block = hit_block options injective image coherent base d rb hit;
              }))
              image)
    unfolding put_column changed_image entry_block
    read_hit-IsRead d rb hit =
        let block = hit_block options injective image coherent base d rb hit in
        let line = hit_block-IsLine options injective image coherent base d rb hit in
        let same = contents-hit_block options injective image coherent base d rb hit in
        subst
          (λ (b : DataBlock). IsRead options base at chunk image (record {
            image = put_column (record { decoded = d; entry = rb; block = block }) b false image;
            bytes = copy_n chunk at b.bytes;
            initialized = are_initialized chunk at b.initialized_mask;
          }))
          (sym (check_ecc_shadow-HasShadow options.ecc block line.shadow))
          (record {
            hidden = read_image-IsHidden d rb hit;
            bytes = ap (λ c. copy_n chunk at c.0) same;
            initialized = ap (λ c. are_initialized chunk at c.1) same;
          })

    missed_line-IsRead :
        IsMiss options base image
        → IsRead options base at chunk image (read_hit options base at chunk none image)
    unfolding missed_line line_of backing_line make_line
    missed_line-IsRead miss = go (load_backend_line options image.backend base) refl
      where
        unchanged : IsHidden options image image
        unchanged = record { coherent = coherent; shows = λ other. refl }

        shown :
            (o : Option DataBlock)
            → load_backend_line options image.backend base ≡ o
            → contents (line_or o (make_line options base)) ≡ contents (line_of options image base)
        shown o loaded =
            ap (λ q. contents (line_or q (make_line options base))) (sym loaded)
            ∙ ap (λ q. contents (line_or q (backing_line options image.backend base)))
                (sym miss.uncached)

        go :
            (o : Option DataBlock)
            → load_backend_line options image.backend base ≡ o
            → IsRead options base at chunk image (missed_line options base at chunk o image)
        go none loaded = record {
          hidden = unchanged;
          bytes =
              sym (copy_n-replicate options.line_size chunk at options.default_value fits)
              ∙ ap (λ c. copy_n chunk at c.0) (shown none loaded);
          initialized =
              not_initialized options.line_size chunk at some_bytes
              ∙ ap (λ c. are_initialized chunk at c.1) (shown none loaded);
        }
        go (some line) loaded =
            let is_line : IsLine options line =
              subst (IsLine options) (ap (λ o. line_or o (make_line options base)) loaded)
                (backing_line-IsLine options injective image coherent base) in
            let kept = sym (check_ecc_shadow-HasShadow options.ecc line is_line.shadow) in
            let stored = λ (b : DataBlock). record image {
              backend = store_line base (refresh_line_metadata b) image.backend;
            } in
            subst
              (λ (b : DataBlock). IsRead options base at chunk image (record {
                image = if ecc_changed line b then stored b else image;
                bytes = copy_n chunk at b.bytes;
                initialized = are_initialized chunk at b.initialized_mask;
              }))
              kept
              (record {
                hidden =
                    subst (λ c. IsHidden options image (if c then stored line else image))
                      (sym (ecc_unchanged line)) unchanged;
                bytes = ap (λ c. copy_n chunk at c.0) (shown (some line) loaded);
                initialized = ap (λ c. are_initialized chunk at c.1) (shown (some line) loaded);
              })

    pub read_line-IsRead :
        IsRead options base at chunk image
          (read_line options base at chunk (options.line_decoder base) image)
    unfolding read_line
    read_line-IsRead = elim (access-cases options base image) [
      | inl miss ↦
          subst (λ h. IsRead options base at chunk image (read_hit options base at chunk h image))
            (sym miss.result) (missed_line-IsRead miss)
      | inr (d, rb, hit) ↦
          subst (λ h. IsRead options base at chunk image (read_hit options base at chunk h image))
            (sym hit.result) (read_hit-IsRead d rb hit)
    ]
