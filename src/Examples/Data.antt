-- ===== src/Examples/Data.antt =====
-- The results on the SECDED code and on the memory image, applied.
use mem_sim.Base.{
  ℕ, ◌+◌, ◌-◌, ◌*◌, ◌/◌, ◌%◌, ◌^◌, ◌<◌, ◌≡◌, refl, sym, ap, subst, ◌∙◌, Bool, true, false, ◌&&◌,
  Option, none, some, List, [], ◌∷◌, arith, ltb, leb, if◌then◌else◌, ltb→lt, length, get_or,
  out_of_range, ok, err, All, bit_at, find_in,
}
use mem_sim.Dram.Address.{InRange, DecodedAddress}
use mem_sim.Core.Data.Secded.{
  code_position_from, is_power_of_two_u64, compute_secded_shadow, add_data_bits, byte_bit,
  parity_bits_from, code_position_for_data_bit, data_bit_for_code_position,
  parity_bits_for_data_bits,
}
use mem_sim.Core.Data.Shadow.{
  DataBlock, EccOptions, checksum_bytes, refresh_ecc_shadow, maybe_inject_ecc_error,
  check_ecc_shadow, uncorrectable,
}
use mem_sim.Core.Data.Positions.{code_position_for_data_bit-lt, data_bit-code_position}
use mem_sim.Core.Data.Code.{is_odd_weight}
use mem_sim.Core.Data.Repair.{IsFresh, damaged, check_ecc_shadow-damaged}
use mem_sim.Core.Data.Inject.{refresh_ecc_shadow-IsFresh, check_ecc_shadow-maybe_inject_ecc_error}
use mem_sim.Core.Data.Image.{
  same_number, MemoryImage, ImageOptions, backing_line, load_backend_line, make_line,
}
use mem_sim.Core.Data.Access.{copy_n, are_initialized, read_line, is_wanted}
use mem_sim.Core.Data.Coherence.{IsInjective, IsCoherent, line_of}
use mem_sim.Core.Data.Round.Accepted.{IsOrganized}
use mem_sim.Core.Data.Span.Partial.{write-partial_line}
use mem_sim.Core.Data.Span.{line_base, validate_address_span, write, validate_address_span_lem}
use mem_sim.Core.Data.Bytes.{byte_at, write-byte_at}
use mem_sim.Core.Data.Written.{overlay}
use mem_sim.Core.Data.Memory.{
  apply_op, ImageOp, activate, precharge_rank, flush, read_at, write_at, apply_ops, perform_ops,
  shown_memory, FitsLine, new_image, new_image-IsCoherent, perform_ops-apply_ops,
  read_line-apply_ops,
}
use mem_sim.Examples.{small_org, somewhere}

abbrev tiny_ecc : EccOptions
tiny_ecc = record {
  ecc_shadow_enabled = true;
  ecc_check_on_read = true;
  ecc_correct_single_bit = true;
  ecc_inject_period = 1;
}

abbrev two_bytes : DataBlock
two_bytes = record {
  logical_line_base = 0;
  bytes = 165 ∷ 60 ∷ [];
  byte_mask = 255 ∷ 255 ∷ [];
  initialized_mask = 255 ∷ 255 ∷ [];
  initialized = true;
  version = 1;
  checksum = checksum_bytes (165 ∷ 60 ∷ []);
  ecc_hamming = 0;
  ecc_overall = false;
  ecc_parity_bits = 0;
  ecc_valid = false;
  ecc_uncorrectable = false;
}

abbrev fresh_block : DataBlock
fresh_block = refresh_ecc_shadow tiny_ecc two_bytes

fresh_block-IsFresh : IsFresh tiny_ecc fresh_block
fresh_block-IsFresh = refresh_ecc_shadow-IsFresh tiny_ecc two_bytes refl

inside_fresh : 3 < length fresh_block.bytes * 8
unfolding refresh_ecc_shadow
inside_fresh = omega arith

-- The position of data bit three has three digits.
check_ecc_shadow-damaged_example :
    check_ecc_shadow tiny_ecc (damaged fresh_block 3 0) ≡ uncorrectable (damaged fresh_block 3 0)
unfolding is_odd_weight code_position_for_data_bit code_position_from is_power_of_two_u64
    refresh_ecc_shadow compute_secded_shadow add_data_bits byte_bit parity_bits_for_data_bits
    parity_bits_from bit_at
check_ecc_shadow-damaged_example =
    check_ecc_shadow-damaged tiny_ecc fresh_block 3 0 refl refl refl fresh_block-IsFresh
      inside_fresh

some_fresh : 0 < length fresh_block.bytes
unfolding refresh_ecc_shadow
some_fresh = omega arith

check_ecc_shadow-maybe_inject_ecc_error_example :
    check_ecc_shadow tiny_ecc (maybe_inject_ecc_error tiny_ecc fresh_block) ≡ fresh_block
check_ecc_shadow-maybe_inject_ecc_error_example =
    check_ecc_shadow-maybe_inject_ecc_error tiny_ecc fresh_block refl refl fresh_block-IsFresh
      some_fresh

data_bit-code_position_example :
    data_bit_for_code_position (code_position_for_data_bit 3) 16 ≡ some 3
data_bit-code_position_example = data_bit-code_position 16 3 (omega arith)

code_position_for_data_bit-lt_example :
    code_position_for_data_bit 15 < 2 ^ parity_bits_for_data_bits 16
code_position_for_data_bit-lt_example = code_position_for_data_bit-lt 16 15 (omega arith)

abbrev tiny_decoder : ℕ → Option DecodedAddress
tiny_decoder base = some (record somewhere { row = base / 2; column = base % 2 })

abbrev tiny_image : ImageOptions
tiny_image = record {
  line_size = 2;
  default_value = 0;
  ecc = record tiny_ecc { ecc_inject_period = 0 };
  line_decoder = tiny_decoder;
}

tiny-IsInjective : IsInjective tiny_image.line_decoder
unfolding IsInjective
tiny-IsInjective b c d at_b at_c =
    let same : some (record somewhere { row = b / 2; column = b % 2 })
        ≡ some (record somewhere { row = c / 2; column = c % 2 }) =
      at_b ∙ sym at_c in
    omega (arith, ap row_of same, ap column_of same)
  where
    row_of : Option DecodedAddress → ℕ
    row_of none = 0
    row_of (some d) = d.row

    column_of : Option DecodedAddress → ℕ
    column_of none = 0
    column_of (some d) = d.column

-- A line is written through its open row, another row of the bank is opened, and a mask hides a byte.
abbrev some_ops : List ImageOp
some_ops =
    activate (record somewhere { row = 0; column = 0 })
    ∷ write_at 1 0 2 0 (7 ∷ 9 ∷ []) none
    ∷ activate (record somewhere { row = 1; column = 0 })
    ∷ write_at 1 0 2 0 (4 ∷ 5 ∷ []) (some (0 ∷ 1 ∷ []))
    ∷ read_at 1 0 2
    ∷ precharge_rank (record somewhere { row = 1; column = 0 })
    ∷ flush
    ∷ []

some_ops_fit : All (FitsLine tiny_image) some_ops
unfolding FitsLine
some_ops_fit = (tt, (tt, (tt, (tt, ((omega arith, omega arith), (tt, (tt, tt)))))))

perform_ops-apply_ops_example :
    IsCoherent tiny_image (perform_ops tiny_image some_ops (new_image tiny_image))
    × (shown_memory tiny_image (perform_ops tiny_image some_ops (new_image tiny_image))
        ≡ apply_ops some_ops (shown_memory tiny_image (new_image tiny_image)))
perform_ops-apply_ops_example =
    perform_ops-apply_ops tiny_image tiny-IsInjective refl some_ops (new_image tiny_image)
      some_ops_fit (new_image-IsCoherent tiny_image)

read_line-apply_ops_example :
    let read =
      read_line tiny_image 1 0 2
        (tiny_decoder 1)
        (perform_ops tiny_image some_ops (new_image tiny_image)) in
    (read.bytes ≡ 7 ∷ 5 ∷ []) × (read.initialized ≡ true)
unfolding copy_n are_initialized apply_ops apply_op overlay is_wanted shown_memory line_of find_in
    new_image backing_line load_backend_line make_line
read_line-apply_ops_example =
    read_line-apply_ops tiny_image tiny-IsInjective refl some_ops (new_image tiny_image) 1 0 2
      some_ops_fit (new_image-IsCoherent tiny_image) (omega arith) (omega arith)

-- The decoder of a device of 32 bytes, and an image of it.
abbrev bounded_decoder : ℕ → Option DecodedAddress
bounded_decoder base =
    if ltb base 32 then some (record somewhere { row = base / 2; column = base % 2 }) else none

abbrev bounded_image : ImageOptions
bounded_image = record tiny_image { line_decoder = bounded_decoder }

bounded_coordinates :
    (base : ℕ) (d : DecodedAddress)
    → bounded_decoder base ≡ some d
    → (base / 2 ≡ d.row) × (base % 2 ≡ d.column) × InRange small_org d
bounded_coordinates base d h = go (ltb base 32) refl h
  where
    place : DecodedAddress
    place = record somewhere { row = base / 2; column = base % 2 }

    taken : Option DecodedAddress → DecodedAddress
    taken none = place
    taken (some x) = x

    place-InRange : base < 32 → InRange small_org place
    place-InRange h = record {
      channel = omega arith;
      pseudo_channel = omega arith;
      sid = omega arith;
      rank = omega arith;
      bank_group = omega arith;
      bank = omega arith;
      row = omega (arith, h);
      column = omega arith;
    }

    go :
        (b : Bool)
        → ltb base 32 ≡ b
        → (if b then some place else none) ≡ some d
        → (base / 2 ≡ d.row) × (base % 2 ≡ d.column) × InRange small_org d
    go true below h =
        subst
          (λ (x : DecodedAddress). (base / 2 ≡ x.row) × (base % 2 ≡ x.column) × InRange small_org x)
          (ap taken h) (refl, refl, place-InRange (ltb→lt base 32 below))
    go false below h = absurd (ground (arith, h))

bounded-IsInjective : IsInjective bounded_image.line_decoder
unfolding IsInjective
bounded-IsInjective b c d at_b at_c =
    let one = bounded_coordinates b d at_b in
    let other = bounded_coordinates c d at_c in omega (arith, one.0, one.1, other.0, other.1)

bounded-IsOrganized : IsOrganized (some small_org) bounded_image.line_decoder
unfolding IsOrganized
bounded-IsOrganized base d h = (bounded_coordinates base d h).2

first_line : bounded_decoder 0 ≡ bounded_decoder (line_base bounded_image 1)
unfolding line_base
first_line = refl

valid_span : validate_address_span 1 3 32 ≡ ok tt
unfolding validate_address_span
valid_span = refl

-- Three bytes from the second of line zero on, the middle one masked.
write-byte_at_example :
    (after : MemoryImage) × (write bounded_image
        (some small_org)
        32
        1
        (4 ∷ 5 ∷ 6 ∷ [])
        (some (1 ∷ 0 ∷ 1 ∷ []))
        (bounded_decoder 0)
        (new_image bounded_image)
      ≡ ok after)
    × IsCoherent bounded_image after
    × ((a : ℕ)
        → byte_at bounded_image after a ≡ (
            if leb 1 a && ltb a (1 + 3) && is_wanted (some (1 ∷ 0 ∷ 1 ∷ [])) (a - 1)
            then get_or (4 ∷ 5 ∷ 6 ∷ []) (a - 1) 0
            else byte_at bounded_image (new_image bounded_image) a))
write-byte_at_example =
    write-byte_at bounded_image bounded-IsInjective (omega arith) refl 1 (4 ∷ 5 ∷ 6 ∷ [])
      (some (1 ∷ 0 ∷ 1 ∷ [])) (bounded_decoder 0) first_line (some small_org) 32
      (new_image bounded_image) bounded-IsOrganized refl (new_image-IsCoherent bounded_image)
      valid_span refl

partial_span : validate_address_span 2 1 3 ≡ ok tt
unfolding validate_address_span
partial_span = refl

partial_beyond : 3 < line_base tiny_image 2 + 2
unfolding line_base
partial_beyond = omega arith

nothing_stored : find_in same_number (line_base tiny_image 2) (new_image tiny_image).backend ≡ none
unfolding new_image find_in
nothing_stored = refl

-- The third of three bytes, in lines of two.
write-partial_line_example :
    write tiny_image none 3 2 (7 ∷ []) none none (new_image tiny_image) ≡ err out_of_range
write-partial_line_example =
    write-partial_line tiny_image none 3 2 (7 ∷ []) none none (new_image tiny_image) refl
      (omega arith) (omega arith) partial_beyond partial_span refl refl nothing_stored

validate_address_span_lem_example : validate_address_span 60 8 64 ≡ err out_of_range
validate_address_span_lem_example = validate_address_span_lem 60 8 64 (omega arith)
