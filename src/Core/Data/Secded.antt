-- ===== src/Core/Data/Secded.antt =====
-- The SECDED code of src/core/data.cpp: the positions of the data bits in the code word, and the
-- parity bits over them. Loops that run until a test stops them are on fuel.
use Prim.Native.Nat.{bit_and, bit_xor}
use mem_sim.Base.{
  ℕ, zero, suc, ◌+◌, ◌-◌, ◌*◌, ◌/◌, ◌%◌, ◌^◌, Bool, false, not, ◌&&◌, Option, none, some, List, ltb,
  leb, ◌==◌, if◌then◌else◌, length, get_or, modify,
}

-- `value != 0 && (value & (value - 1)) == 0`
unfoldable pub is_power_of_two_u64 : ℕ → Bool
is_power_of_two_u64 value = not (value == 0) && bit_and value (value - 1) == 0

unfoldable pub byte_bit : List ℕ → ℕ → Bool
byte_bit bytes bit =
    let byte = bit / 8 in
    let shift = bit % 8 in ltb byte (length bytes) && not (get_or bytes byte 0 / 2 ^ shift % 2 == 0)

unfoldable pub flip_byte_bit : List ℕ → ℕ → List ℕ
flip_byte_bit bytes bit = modify bytes (bit / 8) (λ b. bit_xor b (2 ^ (bit % 8)))

-- The loop of parity_bits_for_data_bits from `parity_bits` on.
unfoldable pub parity_bits_from : ℕ → ℕ → ℕ → ℕ
parity_bits_from zero data_bits parity_bits = parity_bits
parity_bits_from (suc fuel) data_bits parity_bits =
    let rest = parity_bits_from fuel data_bits (parity_bits + 1) in
    if ltb (2 ^ parity_bits) (data_bits + parity_bits + 1) then rest else parity_bits

unfoldable pub parity_bits_for_data_bits : ℕ → ℕ
parity_bits_for_data_bits data_bits = parity_bits_from (data_bits + 2) data_bits 1

-- The loop of code_position_for_data_bit.
unfoldable pub code_position_from : ℕ → ℕ → ℕ → ℕ → ℕ
code_position_from zero data_bit data_seen code_pos = code_pos
code_position_from (suc fuel) data_bit data_seen code_pos =
    let next = code_position_from fuel data_bit data_seen (code_pos + 1) in
    let seen = code_position_from fuel data_bit (data_seen + 1) (code_pos + 1) in
    if is_power_of_two_u64 code_pos then next else if data_seen == data_bit then code_pos else seen

-- Of the numbers up to `2 * (data_bit + 3)`, more than `data_bit` are no powers of two.
unfoldable pub code_position_for_data_bit : ℕ → ℕ
code_position_for_data_bit data_bit = code_position_from (2 * data_bit + 6) data_bit 0 1

-- The loop of data_bit_for_code_position.
unfoldable pub data_bit_from : ℕ → ℕ → ℕ → ℕ → ℕ → Option ℕ
data_bit_from zero code_position data_bits data_seen code_pos = none
data_bit_from (suc fuel) code_position data_bits data_seen code_pos =
    let next = data_bit_from fuel code_position data_bits data_seen (code_pos + 1) in
    let seen = data_bit_from fuel code_position data_bits (data_seen + 1) (code_pos + 1) in
    if leb data_bits data_seen
    then none
    else if is_power_of_two_u64 code_pos
    then next
    else if code_pos == code_position
    then some data_seen
    else seen

unfoldable pub data_bit_for_code_position : ℕ → ℕ → Option ℕ
data_bit_for_code_position code_position data_bits =
    data_bit_from (2 * data_bits + 6) code_position data_bits 0 1

pub record SecdedShadow : Type 0 where
  pub hamming : ℕ
  pub overall : Bool
  pub parity_bits : ℕ

-- `if ((code_pos & (1 << parity)) != 0) hamming ^= (1 << parity)`, for `count` parity bits from one on.
unfoldable pub add_position : ℕ → ℕ → ℕ → ℕ → ℕ
add_position zero parity code_pos hamming = hamming
add_position (suc count) parity code_pos hamming =
    add_position count (parity + 1) code_pos
      (if not (bit_and code_pos (2 ^ parity) == 0) then bit_xor hamming (2 ^ parity) else hamming)

-- The loop over the data bits, `count` of them from one on.
unfoldable pub add_data_bits : ℕ → ℕ → List ℕ → SecdedShadow → SecdedShadow
add_data_bits zero bit bytes shadow = shadow
add_data_bits (suc count) bit bytes shadow = add_data_bits count (bit + 1) bytes (
    if not (byte_bit bytes bit) then shadow else record shadow {
      overall = not shadow.overall;
      hamming = add_position shadow.parity_bits 0 (code_position_for_data_bit bit) shadow.hamming;
    })

-- The loop that adds the parity bits to the overall parity.
unfoldable pub add_parity_bits : ℕ → ℕ → ℕ → Bool → Bool
add_parity_bits zero parity hamming overall = overall
add_parity_bits (suc count) parity hamming overall =
    add_parity_bits count (parity + 1) hamming
      (if not (bit_and hamming (2 ^ parity) == 0) then not overall else overall)

unfoldable pub compute_secded_shadow : List ℕ → SecdedShadow
compute_secded_shadow bytes =
    let data_bits = length bytes * 8 in
    let shadow = add_data_bits data_bits 0 bytes (record {
      hamming = 0;
      overall = false;
      parity_bits = parity_bits_for_data_bits data_bits;
    }) in
    record shadow { overall = add_parity_bits shadow.parity_bits 0 shadow.hamming shadow.overall }
