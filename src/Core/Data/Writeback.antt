-- ===== src/Core/Data/Writeback.antt =====
-- writeback_row_buffer of src/core/data.cpp: what the backend has of each line after it.
use mem_sim.Base.{
  ℕ, ◌≡◌, refl, sym, ap, ◌∙◌, inl, inr, Bool, true, false, ◌&&◌, Option, none, some, List, [], ◌∷◌,
  arith, ◌==◌, if◌then◌else◌, ==→eq, ==_refl, Bool-cases, All, find_in, find_in-put_in,
}
use mem_sim.Dram.Address.{DecodedAddress}
use mem_sim.Core.Data.Shadow.{DataBlock}
use mem_sim.Core.Data.Image.{
  StorageKey, ImageOptions, same_key, bank_key_from_decoded, row_key_from_decoded, same_number,
  refresh_line_metadata, writeback_columns, store_line, with_line,
}
use mem_sim.Core.Data.Keys.{keys_decide, same_key_refl}
use mem_sim.Core.Data.Coherence.{IsPlaced, IsInjective}

pub same_number_sound : (a b : ℕ) → same_number a b ≡ true → a ≡ b
same_number_sound a b h = ==→eq a b h

pub find-store_line :
    (base c : ℕ) (line : DataBlock) (backend : List (ℕ × DataBlock))
    → find_in same_number c (store_line base line backend)
      ≡ (if c == base then some line else find_in same_number c backend)
find-store_line base c line backend =
    find_in-put_in same_number same_number_sound ==_refl base c line backend

abbrev column_or : Option DecodedAddress → ℕ
column_or none = 0
column_or (some d) = d.column

abbrev pub or_line : Option DataBlock → Option DataBlock → Option DataBlock
or_line none other = other
or_line (some line) other = some line

module _ (options : ImageOptions) (injective : IsInjective options.line_decoder)
    (bank_key row_key : StorageKey) where
  -- The test of the address and that of the column agree.
  pub same_place :
      (entry : ℕ × DataBlock)
      → IsPlaced options bank_key row_key entry
      → (base : ℕ) (d : DecodedAddress) → options.line_decoder base ≡ some d
      → bank_key_from_decoded d ≡ bank_key
      → row_key_from_decoded d ≡ row_key
      → (base == entry.1.logical_line_base) ≡ (d.column == entry.0)
  unfolding IsPlaced IsInjective
  same_place entry (e, decoded, bank, row, column) base d at in_bank in_row =
      elim (Bool-cases (d.column == entry.0)) [
        | inl same ↦
            let here : e ≡ d =
              keys_decide e d (bank ∙ sym in_bank) (row ∙ sym in_row)
                (column ∙ sym (==→eq d.column entry.0 same)) in
            let one : base ≡ entry.1.logical_line_base =
              injective base entry.1.logical_line_base e (at ∙ ap some (sym here)) decoded in
            ap (λ b. b == entry.1.logical_line_base) one
            ∙ ==_refl entry.1.logical_line_base
            ∙ sym same
        | inr other ↦ elim (Bool-cases (base == entry.1.logical_line_base)) [
          | inl hit ↦
              let one = ==→eq base entry.1.logical_line_base hit in
              let same : d.column ≡ entry.0 =
                ap column_or (sym at ∙ ap options.line_decoder one ∙ decoded) ∙ column in
              hit ∙ sym (ap (λ c. c == entry.0) same ∙ ==_refl entry.0)
          | inr miss ↦ miss ∙ sym other
        ]
      ]

  pub find-writeback_columns :
      (columns backend : List (ℕ × DataBlock))
      → All (IsPlaced options bank_key row_key) columns
      → (base : ℕ) (d : DecodedAddress) → options.line_decoder base ≡ some d
      → bank_key_from_decoded d ≡ bank_key
      → row_key_from_decoded d ≡ row_key
      → find_in same_number base (writeback_columns columns backend)
        ≡ or_line
            (with_line refresh_line_metadata (find_in same_number d.column columns))
            (find_in same_number base backend)
  unfolding writeback_columns find_in
  find-writeback_columns [] backend placed base d at in_bank in_row = refl
  find-writeback_columns (entry ∷ columns) backend placed base d at in_bank in_row =
      find-store_line entry.1.logical_line_base base (refresh_line_metadata entry.1)
        (writeback_columns columns backend)
      ∙ choose (base == entry.1.logical_line_base) (d.column == entry.0)
          (same_place entry placed.0 base d at in_bank in_row)
          (find-writeback_columns columns backend placed.1 base d at in_bank in_row)
    where
      choose :
          (a b : Bool)
          → a ≡ b
          → find_in same_number base (writeback_columns columns backend)
            ≡ or_line
                (with_line refresh_line_metadata (find_in same_number d.column columns))
                (find_in same_number base backend)
          → (if a
              then some (refresh_line_metadata entry.1)
              else find_in same_number base (writeback_columns columns backend))
            ≡ or_line
                (with_line refresh_line_metadata
                  (if b then some entry.1 else find_in same_number d.column columns))
                (find_in same_number base backend)
      choose a true same rest = rw same refl
      choose a false same rest = rw same rest

  -- A line of another place is as it was.
  pub find-writeback_columns_elsewhere :
      (columns backend : List (ℕ × DataBlock))
      → All (IsPlaced options bank_key row_key) columns
      → (base : ℕ)
      → ((d : DecodedAddress)
          → options.line_decoder base ≡ some d
          → same_key (bank_key_from_decoded d) bank_key && same_key row_key (row_key_from_decoded d)
            ≡ false)
      → find_in same_number base (writeback_columns columns backend)
        ≡ find_in same_number base backend
  unfolding writeback_columns IsPlaced
  find-writeback_columns_elsewhere [] backend placed base apart = refl
  find-writeback_columns_elsewhere (entry ∷ columns) backend
        ((e, decoded, bank, row, column), placed) base apart =
      let rest = find-writeback_columns_elsewhere columns backend placed base apart in
      elim (Bool-cases (base == entry.1.logical_line_base)) [
        | inl hit ↦
            let one = ==→eq base entry.1.logical_line_base hit in
            let here : true ≡ false =
              sym (rw (bank, row, same_key_refl bank_key, same_key_refl row_key) refl)
              ∙ apart e (ap options.line_decoder one ∙ decoded) in
            absurd (ground (arith, here))
        | inr miss ↦
            find-store_line entry.1.logical_line_base base (refresh_line_metadata entry.1)
              (writeback_columns columns backend)
            ∙ rw miss rest
      ]
