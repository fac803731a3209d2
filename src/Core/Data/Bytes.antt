-- ===== src/Core/Data/Bytes.antt =====
-- MemoryImage of src/core/data.cpp as bytes: what write makes of each address.
use native.Mathlib.Nat.{mod-lt}
use mem_sim.Base.{
  ℕ, zero, suc, ◌+◌, ◌-◌, ◌%◌, ◌≤◌, ◌<◌, ◌≡◌, refl, sym, ap, ap₂, ◌∙◌, inl, inr, Bool, true, false,
  ◌&&◌, Option, List, arith, ltb, leb, if◌then◌else◌, ltb→lt, ltb→ge, Bool-cases, length, get_or,
  invalid_argument, Result, ok, ◌>>◌, throw_if,
}
use mem_sim.Dram.Address.{DecodedAddress}
use mem_sim.Core.Data.Image.{ImageOptions, MemoryImage, line_or, backing_line}
use mem_sim.Core.Data.Access.{is_wanted, write_line}
use mem_sim.Core.Data.Coherence.{IsInjective, IsCoherent, line_of}
use mem_sim.Core.Data.Lines.{in_line, inside, at_place, join_chunks}
use mem_sim.Core.Data.Hits.{access-cases, backing_line-IsLine, hit_block-IsLine, contents-hit_block}
use mem_sim.Core.Data.Writing.{IsWritten, write_line-IsWritten, write_line-get_or}
use mem_sim.Dram.Spec.{Organization}
use mem_sim.Core.Data.Round.Accepted.{IsOrganized}
use mem_sim.Core.Data.Span.Loop.{
  write_lines, line_decoded-line_decoder, write_lines-IsCoherent, write_from-write_lines,
}
use mem_sim.Core.Data.Span.{
  wrong_mask, line_base, line_offset, chunk_of, line_decoded, write_from, write,
  validate_address_span,
}

module _ (options : ImageOptions) where
  -- The byte that the image shows at an address.
  unfoldable pub byte_at : MemoryImage → ℕ → ℕ
  byte_at image address =
      get_or (line_of options image (line_base options address)).bytes (line_offset options address)
        0

module _ (options : ImageOptions) (injective : IsInjective options.line_decoder) where
  length-line_of :
      (image : MemoryImage) (base : ℕ)
      → IsCoherent options image
      → length (line_of options image base).bytes ≡ options.line_size
  unfolding line_of
  length-line_of image base coherent = elim (access-cases options base image) [
    | inl miss ↦
        ap (λ q. length (line_or q (backing_line options image.backend base)).bytes) miss.uncached
        ∙ (backing_line-IsLine options injective image coherent base).bytes
    | inr (d, rb, hit) ↦
        ap (λ c. length c.0)
          (sym (contents-hit_block options injective image coherent base d rb hit))
        ∙ (hit_block-IsLine options injective image coherent base d rb hit).bytes
  ]

module _ (options : ImageOptions) (injective : IsInjective options.line_decoder)
    (some_bytes : 0 < options.line_size) (off : options.ecc.ecc_inject_period ≡ 0) (address : ℕ)
    (data_bytes : List ℕ) (mask : Option (List ℕ)) where
  chunk_bounds :
      (copied : ℕ)
      → copied < length data_bytes
      → let chunk = chunk_of options address (length data_bytes) copied in
        (1 ≤ chunk)
        × (chunk ≤ length data_bytes - copied)
        × (line_offset options (address + copied) + chunk ≤ options.line_size)
  unfolding chunk_of line_offset
  chunk_bounds copied h =
      let below = mod-lt (address + copied) some_bytes in
      (omega (arith, below), omega (arith, below), omega (arith, below))

  -- The byte of an address after one round of the loop.
  write_line-byte_at :
      (copied : ℕ) (image : MemoryImage) (a : ℕ)
      → copied < length data_bytes
      → IsCoherent options image
      → let x = address + copied in
        let base = line_base options x in
        let chunk = chunk_of options address (length data_bytes) copied in
        byte_at options
          (write_line options base
            (line_offset options x)
            chunk
            copied
            data_bytes
            mask
            (options.line_decoder base)
            image)
          a
        ≡ (if leb x a && ltb a (x + chunk) && is_wanted mask (a - address)
            then get_or data_bytes (a - address) 0
            else byte_at options image a)
  unfolding byte_at line_base line_offset inside in_line
  write_line-byte_at copied image a h coherent =
      let x = address + copied in
      let n = options.line_size in
      let base = x - x % n in
      let chunk = chunk_of options address (length data_bytes) copied in
      let (at_least, at_most, fits) = chunk_bounds copied h in
      let within : x % n + chunk ≤ length (line_of options image base).bytes =
        omega (arith, fits, length-line_of options injective image base coherent) in
      write_line-get_or options injective image base chunk copied (x % n) data_bytes mask
        (a - a % n) (a % n) coherent off within
      ∙ at_place n some_bytes x a chunk copied address (is_wanted mask) (λ i. get_or data_bytes i 0)
          (byte_at options image a) refl fits

  module _ (decoded : Option DecodedAddress)
      (first : decoded ≡ options.line_decoder (line_base options address)) where
    nothing_left :
        (copied a v u : ℕ) (w : Bool)
        → length data_bytes ≤ copied
        → u
          ≡ (if leb (address + copied) a && ltb a (address + length data_bytes) && w then v else u)
    nothing_left copied a v u true h = ground arith
    nothing_left copied a v u false h = ground arith

    write_lines-byte_at :
        (fuel copied : ℕ) (image : MemoryImage) (a : ℕ)
        → length data_bytes ≤ copied + fuel
        → IsCoherent options image
        → byte_at options (write_lines options fuel address copied data_bytes mask decoded image) a
          ≡ (if leb (address + copied) a
                && ltb a (address + length data_bytes)
                && is_wanted mask (a - address)
              then get_or data_bytes (a - address) 0
              else byte_at options image a)
    unfolding write_lines IsWritten
    write_lines-byte_at zero copied image a enough coherent =
        nothing_left copied a (get_or data_bytes (a - address) 0) (byte_at options image a)
          (is_wanted mask (a - address)) (omega arith)
    write_lines-byte_at (suc fuel) copied image a enough coherent =
        let x = address + copied in
        let size = length data_bytes in
        let base = line_base options x in
        let at = line_offset options x in
        let chunk = chunk_of options address size copied in
        let w = is_wanted mask (a - address) in
        let v = get_or data_bytes (a - address) 0 in
        let u = byte_at options image a in
        let line = write_line options base at chunk copied data_bytes mask in
        let rest = λ (o : Option DecodedAddress).
          write_lines options fuel address (copied + chunk) data_bytes mask decoded
            (line o image) in
        elim (Bool-cases (ltb copied size)) [
          | inl more ↦
              let h = ltb→lt copied size more in
              let bounds = chunk_bounds copied h in
              let next = line (options.line_decoder base) image in
              let end : x + chunk ≡ address + (copied + chunk) = omega arith in
              ap
                (λ b.
                  byte_at options
                    (if b
                      then rest (line_decoded options decoded (line_base options address) base)
                      else image)
                    a)
                more
              ∙ ap (λ o. byte_at options (rest o) a)
                  (line_decoded-line_decoder options address decoded first base)
              ∙ write_lines-byte_at fuel (copied + chunk) next a (omega (arith, bounds.0, enough))
                  (write_line-IsWritten options injective image coherent base off chunk copied at
                    data_bytes mask).0
              ∙ ap
                  (λ y.
                    if leb (address + (copied + chunk)) a && ltb a (address + size) && w
                    then v
                    else y)
                  (write_line-byte_at copied image a h coherent
                    ∙ ap (λ m. if leb x a && ltb a m && w then v else u) end)
              ∙ join_chunks x (address + (copied + chunk)) (address + size) a w v u (omega arith)
                  (omega (arith, bounds.1, h))
          | inr done ↦
              ap
                (λ b.
                  byte_at options
                    (if b
                      then rest (line_decoded options decoded (line_base options address) base)
                      else image)
                    a)
                done
              ∙ nothing_left copied a v u w (ltb→ge copied size done)
        ]

    -- A write whose span and mask are accepted, given the coordinates of its first line as the
    -- decoder has them, passes every check of its rounds and succeeds, on a coherent image with
    -- lines of a byte or more, a capacity that is a multiple of the line size (or none), a decoder
    -- that gives distinct lines distinct coordinates, all of them in the organization, and no
    -- injected errors; the image stays coherent, the bytes that the mask wants are shown at their
    -- addresses across all lines, and every other address shows what it did.
    pub write-byte_at :
        (organization : Option Organization) (capacity_bytes : ℕ) (image : MemoryImage)
        → IsOrganized organization options.line_decoder
        → capacity_bytes % options.line_size ≡ 0
        → IsCoherent options image
        → validate_address_span address (length data_bytes) capacity_bytes ≡ ok tt
        → wrong_mask options data_bytes mask ≡ false
        → (after : MemoryImage) × (write options organization capacity_bytes address data_bytes mask
              decoded image
            ≡ ok after)
          × IsCoherent options after
          × ((a : ℕ)
              → byte_at options after a ≡ (
                  if leb address a
                    && ltb a (address + length data_bytes)
                    && is_wanted mask (a - address)
                  then get_or data_bytes (a - address) 0
                  else byte_at options image a))
    unfolding write
    write-byte_at organization capacity_bytes image organized whole coherent valid right = (
      write_lines options (length data_bytes) address 0 data_bytes mask decoded image,
      ap₂
            (λ (x : Result (Unit {0})) y.
              x
              >> (throw_if y invalid_argument
                  >> write_from options organization capacity_bytes (length data_bytes) address 0
                      data_bytes mask decoded image))
            valid right
          ∙ write_from-write_lines options injective off address data_bytes mask decoded first
              organization capacity_bytes some_bytes whole organized valid (length data_bytes) 0
              image coherent,
      write_lines-IsCoherent options injective off address data_bytes mask decoded first
          (length data_bytes) 0 image coherent,
      λ a.
          write_lines-byte_at (length data_bytes) 0 image a (omega arith) coherent
          ∙ ap
              (λ x.
                if leb x a && ltb a (address + length data_bytes) && is_wanted mask (a - address)
                then get_or data_bytes (a - address) 0
                else byte_at options image a)
              zero_offset,
    )
      where
        zero_offset : address + 0 ≡ address
        zero_offset = omega arith
