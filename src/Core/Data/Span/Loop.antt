-- ===== src/Core/Data/Span/Loop.antt =====
-- The loop of MemoryImage::write of src/core/data.cpp where no round throws.
use mem_sim.Base.{
  ℕ, zero, suc, ◌+◌, ◌%◌, ◌<◌, ◌≡◌, refl, sym, ap, subst, ◌∙◌, ◌⊎◌, inl, inr, Option, List, arith,
  ltb, ◌==◌, if◌then◌else◌, ltb→lt, ==→eq, Bool-cases, length, ok, ◌>>=◌,
}
use mem_sim.Core.Data.Span.{
  line_base, line_offset, chunk_of, line_decoded, write_from, validate_address_span,
}
use mem_sim.Core.Data.Round.{write_round}
use mem_sim.Core.Data.Round.Accepted.{IsOrganized, line-IsAdmitted, write_round-write_line}
use mem_sim.Core.Data.Access.{write_line}
use mem_sim.Core.Data.Image.{ImageOptions, MemoryImage}
use mem_sim.Core.Data.Coherence.{IsInjective, IsCoherent}
use mem_sim.Core.Data.Writing.{IsWritten, write_line-IsWritten}
use mem_sim.Dram.Spec.{Organization}
use mem_sim.Dram.Address.{DecodedAddress}

-- The image after the rounds of the loop, without their checks.
unfoldable pub write_lines :
    ImageOptions
    → ℕ
    → ℕ
    → ℕ
    → List ℕ
    → Option (List ℕ)
    → Option DecodedAddress
    → MemoryImage
    → MemoryImage
write_lines options zero address copied data_bytes mask decoded image = image
write_lines options (suc fuel) address copied data_bytes mask decoded image =
    let base = line_base options (address + copied) in
    let chunk = chunk_of options address (length data_bytes) copied in
    let rest = write_lines options fuel address (copied + chunk) data_bytes mask decoded (
      write_line options base (line_offset options (address + copied)) chunk copied data_bytes mask
        (line_decoded options decoded (line_base options address) base) image) in
    if ltb copied (length data_bytes) then rest else image

-- A byte of a span that is accepted lies within the capacity, if there is one.
span-within :
    (address size capacity_bytes copied : ℕ)
    → validate_address_span address size capacity_bytes ≡ ok tt
    → copied < size
    → (capacity_bytes ≡ 0) ⊎ (address + copied < capacity_bytes)
unfolding validate_address_span
span-within address size capacity_bytes copied h below = ground (arith, h, below)

module _ (options : ImageOptions) (address : ℕ) (decoded : Option DecodedAddress)
    (first : decoded ≡ options.line_decoder (line_base options address)) where
  -- The coordinates of each round are those of its line.
  pub line_decoded-line_decoder :
      (base : ℕ)
      → line_decoded options decoded (line_base options address) base ≡ options.line_decoder base
  unfolding line_decoded
  line_decoded-line_decoder base = elim (Bool-cases (base == line_base options address)) [
    | inl same ↦
        rw same
          (first ∙ ap options.line_decoder (sym (==→eq base (line_base options address) same)))
    | inr other ↦ rw other refl
  ]

module _ (options : ImageOptions) (injective : IsInjective options.line_decoder)
    (off : options.ecc.ecc_inject_period ≡ 0) (address : ℕ) (data_bytes : List ℕ)
    (mask : Option (List ℕ)) (decoded : Option DecodedAddress)
    (first : decoded ≡ options.line_decoder (line_base options address)) where
  pub write_lines-IsCoherent :
      (fuel copied : ℕ) (image : MemoryImage)
      → IsCoherent options image
      → IsCoherent options (write_lines options fuel address copied data_bytes mask decoded image)
  unfolding write_lines IsWritten
  write_lines-IsCoherent zero copied image coherent = coherent
  write_lines-IsCoherent (suc fuel) copied image coherent =
      let x = address + copied in
      let base = line_base options x in
      let at = line_offset options x in
      let chunk = chunk_of options address (length data_bytes) copied in
      let line = write_line options base at chunk copied data_bytes mask in
      let rest = λ (o : Option DecodedAddress).
        write_lines options fuel address (copied + chunk) data_bytes mask decoded (line o image) in
      let after : IsCoherent options (rest (options.line_decoder base)) =
        write_lines-IsCoherent fuel (copied + chunk) (line (options.line_decoder base) image)
          (write_line-IsWritten options injective image coherent base off chunk copied at data_bytes
            mask).0 in
      elim (Bool-cases (ltb copied (length data_bytes))) [
        | inl more ↦
            subst (IsCoherent options)
              (ap rest (sym (line_decoded-line_decoder options address decoded first base))
                ∙ ap
                    (λ b.
                      if b
                      then rest (line_decoded options decoded (line_base options address) base)
                      else image)
                    (sym more))
              after
        | inr done ↦
            subst (IsCoherent options)
              (ap
                (λ b.
                  if b
                  then rest (line_decoded options decoded (line_base options address) base)
                  else image)
                (sym done))
              coherent
      ]

  module _ (organization : Option Organization) (capacity_bytes : ℕ)
      (some_bytes : 0 < options.line_size) (whole : capacity_bytes % options.line_size ≡ 0)
      (organized : IsOrganized organization options.line_decoder)
      (valid : validate_address_span address (length data_bytes) capacity_bytes ≡ ok tt) where
    pub write_from-write_lines :
        (fuel copied : ℕ) (image : MemoryImage)
        → IsCoherent options image
        → write_from options organization capacity_bytes fuel address copied data_bytes mask decoded
            image
          ≡ ok (write_lines options fuel address copied data_bytes mask decoded image)
    unfolding write_from write_lines IsWritten line_base
    write_from-write_lines zero copied image coherent = refl
    write_from-write_lines (suc fuel) copied image coherent =
        let x = address + copied in
        let base = line_base options x in
        let at = line_offset options x in
        let size = length data_bytes in
        let chunk = chunk_of options address size copied in
        let line = write_line options base at chunk copied data_bytes mask in
        let next = line (options.line_decoder base) image in
        let rest = λ (written : MemoryImage).
          write_from options organization capacity_bytes fuel address (copied + chunk) data_bytes
            mask decoded written in
        let round = λ (o : Option DecodedAddress).
          write_round options organization capacity_bytes base at chunk copied data_bytes mask o
            image in
        let end = λ (o : Option DecodedAddress).
          write_lines options fuel address (copied + chunk) data_bytes mask decoded
            (line o image) in
        let place = line_decoded options decoded (line_base options address) base in
        let same = line_decoded-line_decoder options address decoded first base in
        elim (Bool-cases (ltb copied size)) [
          | inl more ↦
              let admitted =
                line-IsAdmitted options.line_size capacity_bytes x some_bytes whole (
                  span-within address size capacity_bytes copied valid (ltb→lt copied size more)) in
              let step : (round place >>= rest) ≡ ok (end place) =
                ap (λ o. round o >>= rest) same
                ∙ ap (λ r. r >>= rest)
                    (write_round-write_line options organization capacity_bytes base admitted
                      injective off chunk copied at data_bytes mask image coherent organized)
                ∙ write_from-write_lines fuel (copied + chunk) next
                    (write_line-IsWritten options injective image coherent base off chunk copied at
                      data_bytes mask).0
                ∙ ap (λ o. ok (end o)) (sym same) in
              ap (λ b. if b then round place >>= rest else ok image) more
              ∙ step
              ∙ ap (λ b. ok (if b then end place else image)) (sym more)
          | inr done ↦
              ap (λ b. if b then round place >>= rest else ok image) done
              ∙ ap (λ b. ok (if b then end place else image)) (sym done)
        ]
