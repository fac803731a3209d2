-- ===== src/Core/Data/Round/Accepted.antt =====
-- Rounds of MemoryImage::write of src/core/data.cpp that do not throw: the coordinates of the line are
-- of the organization, and the line is in the capacity.
use native.Mathlib.Nat.{
  mod-add-div', mul-mod_left, mul-le-mul_right, lt_of_mul-lt-mul_right, suc-mul,
}
use mem_sim.Dram.Spec.{Organization}
use mem_sim.Dram.Address.{DecodedAddress, InRange}
use mem_sim.Core.Data.Shadow.{DataBlock}
use mem_sim.Core.Data.Image.{
  ImageOptions, MemoryImage, backing_line, load_backend_line, make_line, store_line,
}
use mem_sim.Core.Data.Access.{
  Hit, written_block, wrote_any, write_hit, allocate, write_line, row_buffer_block, put_column,
}
use mem_sim.Core.Data.Coherence.{IsInjective, IsCoherent, IsLine}
use mem_sim.Core.Data.Written.{written_block-IsLine}
use mem_sim.Core.Data.Hits.{make_line-IsLine}
use mem_sim.Core.Data.Hits.{access-cases, backing_line-IsLine}
use mem_sim.Core.Data.Round.{
  validate_decoded_address, validate_place, validate_line, store_backend_line, allocate_line,
  write_target, write_round,
}
use mem_sim.Base.{
  ℕ, suc, ◌+◌, ◌-◌, ◌*◌, ◌/◌, ◌%◌, ◌≤◌, ◌<◌, ◌≡◌, refl, sym, ap, ap₂, subst, ◌⊎◌, inl, inr, Option,
  none, some, List, arith, if◌then◌else◌, Result, ok, ◌>>=◌, ◌>>◌,
}

-- The decoder gives coordinates of the organization, if there is one.
unfoldable pub IsOrganized : Option Organization → (ℕ → Option DecodedAddress) → Type 0
IsOrganized none decoder = Unit
IsOrganized (some o) decoder = (base : ℕ) (d : DecodedAddress) → decoder base ≡ some d → InRange o d

-- A line of `n` bytes starts here and ends within the capacity, if there is one.
pub record IsAdmitted (n capacity_bytes base : ℕ) : Type 0 where
  pub aligned : base % n ≡ 0
  pub ends : (capacity_bytes ≡ 0) ⊎ (base + n ≤ capacity_bytes)

-- The line of a byte within a capacity of whole lines ends within it.
pub line-IsAdmitted :
    (n capacity_bytes x : ℕ)
    → 0 < n
    → capacity_bytes % n ≡ 0
    → (capacity_bytes ≡ 0) ⊎ (x < capacity_bytes)
    → IsAdmitted n capacity_bytes (x - x % n)
line-IsAdmitted n capacity_bytes x some_bytes whole inside = record {
  aligned = rw start (mul-mod_left (x / n) n);
  ends = elim inside [ inl unbounded ↦ inl unbounded | inr below ↦ inr (fits below) ];
}
  where
    start : x - x % n ≡ x / n * n
    start = omega (arith, mod-add-div' x n)

    fits : x < capacity_bytes → x - x % n + n ≤ capacity_bytes
    fits below =
        let total = mod-add-div' capacity_bytes n in
        let before : x / n * n < capacity_bytes / n * n =
          omega (arith, start, total, whole, below) in
        let next : suc (x / n) * n ≤ capacity_bytes / n * n =
          mul-le-mul_right n (lt_of_mul-lt-mul_right n before) in
        omega (arith, start, total, whole, next, suc-mul (x / n) n)

validate_decoded_address-ok :
    (o : Organization) (d : DecodedAddress)
    → InRange o d
    → validate_decoded_address (some o) d ≡ ok tt
unfolding validate_decoded_address
validate_decoded_address-ok o d r = ground (arith, r)

validate_place-ok :
    (organization : Option Organization) (decoder : ℕ → Option DecodedAddress) (base : ℕ)
    → IsOrganized organization decoder
    → validate_place organization (decoder base) ≡ ok tt
unfolding IsOrganized validate_decoded_address
validate_place-ok none decoder base h = go (decoder base)
  where
    go : (place : Option DecodedAddress) → validate_place none place ≡ ok tt
    go none = refl
    go (some d) = refl
validate_place-ok (some o) decoder base h = go (decoder base) (h base)
  where
    go :
        (place : Option DecodedAddress)
        → ((d : DecodedAddress) → place ≡ some d → InRange o d)
        → validate_place (some o) place ≡ ok tt
    go none r = refl
    go (some d) r = validate_decoded_address-ok o d (r d refl)

module _ (options : ImageOptions) (organization : Option Organization) (capacity_bytes : ℕ)
    (base : ℕ) (admitted : IsAdmitted options.line_size capacity_bytes base) where
  store_backend_line-store_line :
      (block : DataBlock) (backend : List (ℕ × DataBlock))
      → IsLine options block
      → store_backend_line options organization capacity_bytes base block backend
        ≡ ok (store_line base block backend)
  unfolding store_backend_line validate_line
  store_backend_line-store_line block backend line =
      ground (arith, admitted.aligned, admitted.ends, line.bytes, line.mask)

  allocate_line-allocate :
      (o : Option DataBlock) (image : MemoryImage)
      → IsLine options (make_line options base)
      → allocate_line options organization capacity_bytes base o image
        ≡ ok (allocate options base o image)
  allocate_line-allocate none image line =
      ap (λ r. r >>= λ backend. ok (record image { backend = backend }))
        (store_backend_line-store_line (make_line options base) image.backend line)
  allocate_line-allocate (some _) image line = refl

  module _ (injective : IsInjective options.line_decoder) (off : options.ecc.ecc_inject_period ≡ 0)
      (chunk src at : ℕ) (data_bytes : List ℕ) (mask : Option (List ℕ)) (image : MemoryImage)
      (coherent : IsCoherent options image) where
    write_target-write_hit :
        write_target options organization capacity_bytes base at chunk src data_bytes mask
          (row_buffer_block options base (options.line_decoder base) image)
          image
        ≡ ok (
            write_hit options base at chunk src data_bytes mask
              (row_buffer_block options base (options.line_decoder base) image)
              image)
    write_target-write_hit = elim (access-cases options base image) [
      | inl miss ↦ subst Target (sym miss.result) missed
      | inr (d, rb, hit) ↦ subst Target (sym hit.result) (found _)
    ]
      where
        Target : Option Hit → Type 0
        Target hit =
            write_target options organization capacity_bytes base at chunk src data_bytes mask hit
              image
            ≡ ok (write_hit options base at chunk src data_bytes mask hit image)

        missed : Target none
        missed =
            ap (λ r. r >>= λ backend. ok (record image { backend = backend }))
              (store_backend_line-store_line _ image.backend (
                written_block-IsLine options off chunk src at data_bytes mask image.next_version
                  (backing_line options image.backend base)
                  (backing_line-IsLine options injective image coherent base)))

        found : (hit : Hit) → Target (some hit)
        found hit =
            ap
              (λ r. r >>= λ allocated. ok (
                put_column hit
                  (written_block options chunk src at data_bytes mask image.next_version hit.block)
                  (wrote_any chunk src mask) allocated))
              (allocate_line-allocate (load_backend_line options image.backend base) image
                (make_line-IsLine options injective image coherent base))

    pub write_round-write_line :
        IsOrganized organization options.line_decoder
        → write_round options organization capacity_bytes base at chunk src data_bytes mask
            (options.line_decoder base)
            image
          ≡ ok (
              write_line options base at chunk src data_bytes mask
                (options.line_decoder base)
                image)
    unfolding write_round write_line
    write_round-write_line organized =
        ap₂
          (λ (x : Result (Unit {0})) (y : Result MemoryImage).
            x
            >> (y >>= λ written. ok (
                if wrote_any chunk src mask
                then record written { next_version = image.next_version + 1 }
                else written)))
          (validate_place-ok organization options.line_decoder base organized)
          write_target-write_hit
