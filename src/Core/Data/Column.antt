-- ===== src/Core/Data/Column.antt =====
-- The change of one line through a row buffer of src/core/data.cpp.
use mem_sim.Base.{
  ℕ, ◌≡◌, refl, sym, ap, ap₂, subst, ◌∙◌, inl, inr, Bool, true, false, ◌&&◌, ◌||◌, Option, none,
  some, List, [], ◌∷◌, arith, ◌==◌, if◌then◌else◌, ==→eq, Bool-cases, All, find_in, put_in,
  find_in-put_in,
}
use mem_sim.Dram.Address.{DecodedAddress}
use mem_sim.Core.Data.Shadow.{DataBlock}
use mem_sim.Core.Data.Image.{
  StorageKey, ImageOptions, MemoryImage, RowBufferEntry, same_key, bank_key_from_decoded,
  row_key_from_decoded, line_or, backing_line, same_number,
}
use mem_sim.Core.Data.Keys.{same_key_sound, same_key_refl}
use mem_sim.Core.Data.Coherence.{
  contents, IsInjective, IsCached, IsCoherent, IsLine, IsPlaced, column_in, cached_line, line_of,
}
use mem_sim.Core.Data.Writeback.{same_place, find-store_line}

All-put_in :
    (P : ℕ × DataBlock → Type 0) (c : ℕ) (block : DataBlock) (columns : List (ℕ × DataBlock))
    → All P columns
    → P (c, block)
    → All P (put_in same_number c block columns)
unfolding put_in
All-put_in P c block [] all p = (p, tt)
All-put_in P c block (entry ∷ columns) all p =
    go (c == entry.0) refl (All-put_in P c block columns all.1 p)
  where
    go :
        (b : Bool)
        → (c == entry.0) ≡ b
        → All P (put_in same_number c block columns)
        → All P
            (if b then (entry.0, block) ∷ columns else entry ∷ put_in same_number c block columns)
    go true hit rest = (subst (λ (k : ℕ). P (k, block)) (==→eq c entry.0 hit) p, all.1)
    go false miss rest = (all.0, rest)

module _ (options : ImageOptions) (injective : IsInjective options.line_decoder)
    (image : MemoryImage) (coherent : IsCoherent options image) (base : ℕ) (d : DecodedAddress)
    (at : options.line_decoder base ≡ some d) (rb : RowBufferEntry)
    (found : find_in same_key (bank_key_from_decoded d) image.row_buffers ≡ some rb)
    (is_open : rb.is_open ≡ true) (in_row : rb.row_key ≡ row_key_from_decoded d) (block : DataBlock)
    (line : IsLine options block) (here : block.logical_line_base ≡ base) (dirty : Bool)
    (clean : rb.dirty || dirty ≡ false
      → contents block ≡ contents (backing_line options image.backend base)) where
  bank_key : StorageKey
  bank_key = bank_key_from_decoded d

  changed_entry : RowBufferEntry
  changed_entry = record rb {
    dirty = rb.dirty || dirty;
    columns = put_in same_number d.column block rb.columns;
  }

  unfoldable pub changed_image : MemoryImage
  unfolding bank_key changed_entry
  changed_image = record image {
    row_buffers = put_in same_key bank_key changed_entry image.row_buffers;
  }

  entry_cached : IsCached options image.backend bank_key rb
  unfolding bank_key
  entry_cached = coherent.cached (bank_key_from_decoded d) rb found is_open

  is_placed : IsPlaced options bank_key rb.row_key (d.column, block)
  unfolding IsPlaced bank_key
  is_placed = (d, ap options.line_decoder here ∙ at, refl, sym in_row, refl)

  changed_lookup :
      (key : StorageKey)
      → find_in same_key key changed_image.row_buffers ≡ (
          if same_key key bank_key
          then some changed_entry
          else find_in same_key key image.row_buffers)
  unfolding changed_image bank_key changed_entry
  changed_lookup key =
      find_in-put_in same_key same_key_sound same_key_refl bank_key key changed_entry
        image.row_buffers

  changed_column :
      (c : ℕ)
      → find_in same_number c (put_in same_number d.column block rb.columns)
        ≡ (if c == d.column then some block else find_in same_number c rb.columns)
  changed_column c = find-store_line d.column c block rb.columns

  -- The line itself has changed, every other is as before.
  pub contents-changed_image :
      (other : ℕ)
      → contents (line_of options changed_image other)
        ≡ (if other == base then contents block else contents (line_of options image other))
  unfolding line_of changed_image
  contents-changed_image other = go (options.line_decoder other) refl
    where
      shown : Option DataBlock → List ℕ × List ℕ
      shown o = contents (line_or o (backing_line options image.backend other))

      test : Option DecodedAddress → Bool
      test none = false
      test (some e) =
          same_key (bank_key_from_decoded e) bank_key
          && same_key rb.row_key (row_key_from_decoded e)

      test_here : test (some d) ≡ true
      test_here =
          ap₂ (λ a b. a && b) (same_key_refl (bank_key_from_decoded d))
            (ap (λ k. same_key k (row_key_from_decoded d)) in_row
              ∙ same_key_refl (row_key_from_decoded d))

      distinct :
          (o : Option DecodedAddress)
          → options.line_decoder other ≡ o
          → test o ≡ false
          → (other == base) ≡ false
      distinct o place apart = elim (Bool-cases (other == base)) [
        | inl hit ↦
            let same : o ≡ some d =
              sym place ∙ ap options.line_decoder (==→eq other base hit) ∙ at in
            let wrong : true ≡ false = sym test_here ∙ ap test (sym same) ∙ apart in
            absurd (ground (arith, wrong))
        | inr miss ↦ miss
      ]

      row_case :
          (e : DecodedAddress)
          → options.line_decoder other ≡ some e
          → same_key (bank_key_from_decoded e) bank_key ≡ true
          → (b : Bool) → same_key rb.row_key (row_key_from_decoded e) ≡ b
          → shown (
              if b
              then find_in same_number e.column (put_in same_number d.column block rb.columns)
              else none)
            ≡ (if other == base
                then contents block
                else shown (if b then find_in same_number e.column rb.columns else none))
      row_case e place in_bank true row =
          let same : (other == base) ≡ (e.column == d.column) =
            ap (λ x. other == x) (sym here)
            ∙ same_place options injective bank_key rb.row_key (d.column, block) is_placed other e
                place (same_key_sound (bank_key_from_decoded e) bank_key in_bank)
                (sym (same_key_sound rb.row_key (row_key_from_decoded e) row)) in
          ap shown (changed_column e.column)
          ∙ column_case (e.column == d.column)
          ∙ ap (λ b. if b then contents block else shown (find_in same_number e.column rb.columns))
              (sym same)
        where
          column_case :
              (b : Bool)
              → shown (if b then some block else find_in same_number e.column rb.columns)
                ≡ (if b then contents block else shown (find_in same_number e.column rb.columns))
          column_case true = refl
          column_case false = refl
      row_case e place in_bank false row =
          ap (λ b. if b then contents block else shown none)
            (sym (distinct (some e) place (ap₂ (λ a b. a && b) in_bank row)))

      bank_case :
          (e : DecodedAddress)
          → options.line_decoder other ≡ some e
          → (b : Bool) → same_key (bank_key_from_decoded e) bank_key ≡ b
          → shown (
              column_in options
                (if b
                  then some changed_entry
                  else find_in same_key (bank_key_from_decoded e) image.row_buffers)
                e)
            ≡ (if other == base
                then contents block
                else shown (
                    column_in options
                      (find_in same_key (bank_key_from_decoded e) image.row_buffers)
                      e))
      bank_case e place true in_bank =
          let row = same_key rb.row_key (row_key_from_decoded e) in
          let entry : find_in same_key (bank_key_from_decoded e) image.row_buffers ≡ some rb =
            ap (λ k. find_in same_key k image.row_buffers)
              (same_key_sound (bank_key_from_decoded e) bank_key in_bank)
            ∙ found in
          ap
            (λ b. shown (
              if b && row
              then find_in same_number e.column (put_in same_number d.column block rb.columns)
              else none))
            is_open
          ∙ row_case e place in_bank row refl
          ∙ ap
              (λ b.
                if other == base
                then contents block
                else shown (if b && row then find_in same_number e.column rb.columns else none))
              (sym is_open)
          ∙ ap (λ q. if other == base then contents block else shown (column_in options q e))
              (sym entry)
      bank_case e place false other_bank =
          ap
            (λ b.
              if b
              then contents block
              else shown (
                  column_in options (find_in same_key (bank_key_from_decoded e) image.row_buffers)
                    e))
            (sym (
              distinct (some e) place
                (ap (λ b. b && same_key rb.row_key (row_key_from_decoded e)) other_bank)))

      go :
          (o : Option DecodedAddress)
          → options.line_decoder other ≡ o
          → shown (cached_line options changed_image.row_buffers o) ≡ (
              if other == base
              then contents block
              else shown (cached_line options image.row_buffers o))
      go none place =
          ap (λ b. if b then contents block else shown none) (sym (distinct none place refl))
      go (some e) place =
          ap (λ q. shown (column_in options q e)) (changed_lookup (bank_key_from_decoded e))
          ∙ bank_case e place (same_key (bank_key_from_decoded e) bank_key) refl

  changed_cached : IsCached options image.backend bank_key changed_entry
  unfolding changed_entry
  changed_cached = record {
    placed =
        All-put_in (IsPlaced options bank_key rb.row_key) d.column block rb.columns
          entry_cached.placed is_placed;
    lines =
        λ c other at_column. stored (c == d.column) c other (sym (changed_column c) ∙ at_column);
    clean = λ is_clean c base_of other at_column is_base.
        same (c == d.column) is_clean c base_of other (sym (changed_column c) ∙ at_column) is_base;
  }
    where
      stored :
          (b : Bool) (c : ℕ) (other : DataBlock)
          → (if b then some block else find_in same_number c rb.columns) ≡ some other
          → IsLine options other
      stored true c other e = subst (IsLine options) (ap (λ o. line_or o other) e) line
      stored false c other e = entry_cached.lines c other e

      left : (a b : Bool) → a || b ≡ false → a ≡ false
      left true b e = e
      left false b e = refl

      same :
          (b : Bool)
          → rb.dirty || dirty ≡ false
          → (c base_of : ℕ) (other : DataBlock)
          → (if b then some block else find_in same_number c rb.columns) ≡ some other
          → other.logical_line_base ≡ base_of
          → contents other ≡ contents (backing_line options image.backend base_of)
      same true is_clean c base_of other e is_base =
          let same_block : block ≡ other = ap (λ o. line_or o other) e in
          let same_base : base ≡ base_of =
            sym here ∙ ap (λ (x : DataBlock). x.logical_line_base) same_block ∙ is_base in
          ap contents (sym same_block)
          ∙ clean is_clean
          ∙ ap (λ x. contents (backing_line options image.backend x)) same_base
      same false is_clean c base_of other e is_base =
          entry_cached.clean (left rb.dirty dirty is_clean) c base_of other e is_base

  pub changed_image-IsCoherent : IsCoherent options changed_image
  unfolding changed_image
  changed_image-IsCoherent = record {
    stored = coherent.stored;
    cached = λ key other at_key other_open.
        go (same_key key bank_key) key other refl (sym (changed_lookup key) ∙ at_key) other_open;
  }
    where
      entry_or : RowBufferEntry → Option RowBufferEntry → RowBufferEntry
      entry_or other none = other
      entry_or other (some entry) = entry

      go :
          (b : Bool) (key : StorageKey) (other : RowBufferEntry)
          → same_key key bank_key ≡ b
          → (if b then some changed_entry else find_in same_key key image.row_buffers) ≡ some other
          → other.is_open ≡ true
          → IsCached options image.backend key other
      go true key other here e other_open =
          subst (λ k. IsCached options image.backend k other)
            (sym (same_key_sound key bank_key here))
            (subst (IsCached options image.backend bank_key) (ap (entry_or other) e) changed_cached)
      go false key other there e other_open = coherent.cached key other e other_open
