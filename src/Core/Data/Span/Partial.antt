-- ===== src/Core/Data/Span/Partial.antt =====
-- MemoryImage::write of src/core/data.cpp into the last line of a capacity that is no multiple of the
-- line size.
use native.Mathlib.Nat.{mod-add-div', mul-mod_left, add-zero}
use mem_sim.Dram.Spec.{Organization}
use mem_sim.Dram.Address.{DecodedAddress}
use mem_sim.Core.Data.Shadow.{DataBlock}
use mem_sim.Core.Data.Image.{
  ImageOptions, MemoryImage, make_line, line_or, load_backend_line, backing_line, same_number,
}
use mem_sim.Core.Data.Access.{Hit, row_buffer_block}
use mem_sim.Core.Data.Coherence.{IsLine, HasShadow}
use mem_sim.Core.Data.Written.{written_block-IsLine}
use mem_sim.Core.Data.Round.{
  validate_place, validate_line, store_backend_line, write_target, write_round,
}
use mem_sim.Core.Data.Span.{
  validate_address_span, line_base, line_offset, chunk_of, line_decoded, wrong_mask, write_from,
  write,
}
use mem_sim.Base.{
  ℕ, ◌+◌, ◌-◌, ◌*◌, ◌/◌, ◌%◌, ◌<◌, ◌≡◌, refl, sym, ap, subst, inl, false, Option, none, some, List,
  [], ◌∷◌, arith, lt→ltb, ==_refl, length, length-replicate, out_of_range, ok, err, ◌>>=◌, find_in,
}

module _ (options : ImageOptions) (organization : Option Organization) (capacity_bytes base : ℕ)
    (bounded : 0 < capacity_bytes) (beyond : capacity_bytes < base + options.line_size)
    (aligned : base % options.line_size ≡ 0) where
  store_backend_line-beyond :
      (block : DataBlock) (backend : List (ℕ × DataBlock))
      → IsLine options block
      → store_backend_line options organization capacity_bytes base block backend ≡ err out_of_range
  unfolding store_backend_line validate_line
  store_backend_line-beyond block backend line =
      ground (arith, aligned, bounded, beyond, line.bytes, line.mask)

  make_line-IsLine : IsLine options (make_line options base)
  unfolding make_line HasShadow
  make_line-IsLine = record {
    bytes = length-replicate options.line_size options.default_value;
    mask = length-replicate options.line_size 0;
    shadow = inl refl;
  }

  module _ (off : options.ecc.ecc_inject_period ≡ 0) (at chunk src : ℕ) (data_bytes : List ℕ)
      (mask : Option (List ℕ)) (image : MemoryImage)
      (fresh : find_in same_number base image.backend ≡ none) where
    unloaded : load_backend_line options image.backend base ≡ none
    unfolding load_backend_line
    unloaded = rw fresh refl

    write_target-beyond :
        (hit : Option Hit)
        → write_target options organization capacity_bytes base at chunk src data_bytes mask hit
            image
          ≡ err out_of_range
    unfolding backing_line
    write_target-beyond none =
        ap (λ r. r >>= λ backend. ok (record image { backend = backend }))
          (store_backend_line-beyond _ image.backend (
            written_block-IsLine options off chunk src at data_bytes mask image.next_version
              (line_or (load_backend_line options image.backend base) (make_line options base))
              (subst (λ q. IsLine options (line_or q (make_line options base))) (sym unloaded)
                make_line-IsLine)))
    write_target-beyond (some hit) = rw unloaded (
        rw (store_backend_line-beyond (make_line options base) image.backend make_line-IsLine) refl)

    write_round-beyond :
        (decoded : Option DecodedAddress)
        → validate_place organization decoded ≡ ok tt
        → write_round options organization capacity_bytes base at chunk src data_bytes mask decoded
            image
          ≡ err out_of_range
    unfolding write_round
    write_round-beyond decoded place =
        rw (place, write_target-beyond (row_buffer_block options base decoded image)) refl

line_base-aligned : (options : ImageOptions) (x : ℕ) → line_base options x % options.line_size ≡ 0
unfolding line_base
line_base-aligned options x =
    let n = options.line_size in
    let start : x - x % n ≡ x / n * n = omega (arith, mod-add-div' x n) in
    rw start (mul-mod_left (x / n) n)

-- A write of a byte or more whose span, mask and coordinates are accepted is refused with
-- out_of_range, whether or not a row buffer is hit, if the line of its first byte ends beyond a
-- capacity that is not zero and the backend has no such line; with no injected errors.
pub write-partial_line :
    (options : ImageOptions) (organization : Option Organization) (capacity_bytes address : ℕ)
    (data_bytes : List ℕ) (mask : Option (List ℕ)) (decoded : Option DecodedAddress)
    (image : MemoryImage)
    → options.ecc.ecc_inject_period ≡ 0
    → 0 < length data_bytes
    → 0 < capacity_bytes
    → capacity_bytes < line_base options address + options.line_size
    → validate_address_span address (length data_bytes) capacity_bytes ≡ ok tt
    → wrong_mask options data_bytes mask ≡ false
    → validate_place organization decoded ≡ ok tt
    → find_in same_number (line_base options address) image.backend ≡ none
    → write options organization capacity_bytes address data_bytes mask decoded image
      ≡ err out_of_range
unfolding write write_from line_decoded
write-partial_line options organization capacity_bytes address [] mask decoded image off some_data
      bounded beyond valid right place fresh =
    absurd (omega (arith, some_data))
write-partial_line options organization capacity_bytes address (x ∷ xs) mask decoded image off
      some_data bounded beyond valid right place fresh =
    let base = line_base options address in
    rw
      (
        valid,
        right,
        add-zero address,
        ==_refl base,
        lt→ltb 0 (length (x ∷ xs)) some_data,
        write_round-beyond options organization capacity_bytes base bounded beyond
            (line_base-aligned options address) off (line_offset options address)
            (chunk_of options address (length (x ∷ xs)) 0) 0 (x ∷ xs) mask image fresh decoded
            place,
      )
      refl
