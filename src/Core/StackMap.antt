-- ===== src/Core/StackMap.antt =====
-- StackAddressMapper of src/core/addr_map.cpp: a system address split into a stack and an address
-- local to it. Addresses are 64 bits wide.
pub mod Checked
pub mod Interleaved
pub mod RoundTrip
use mem_sim.Base.{
  ℕ, ◌+◌, ◌-◌, ◌*◌, ◌/◌, ◌%◌, Bool, true, false, not, ◌&&◌, ltb, leb, ◌==◌, if◌then◌else◌,
  invalid_argument, out_of_range, overflow_error, Result, ok, err, ◌>>=◌, ◌>>◌, throw_if,
}
use mem_sim.Dram.Spec.{u64_max}

pub data StackMappingKind : Type 0 where
  interleaved blocked : StackMappingKind

pub record StackAddress : Type 0 where
  pub stack : ℕ
  pub local_address : ℕ

pub record StackAddressMapper : Type 0 where
  pub stack_count : ℕ
  pub interleave_bytes : ℕ
  pub stack_capacity_bytes : ℕ
  pub kind : StackMappingKind

unfoldable pub checked_multiply : ℕ → ℕ → Result ℕ
checked_multiply lhs rhs =
    if not (lhs == 0) && ltb (u64_max / lhs) rhs then err overflow_error else ok (lhs * rhs)

unfoldable pub checked_add : ℕ → ℕ → Result ℕ
checked_add lhs rhs = if ltb (u64_max - lhs) rhs then err overflow_error else ok (lhs + rhs)

unfoldable pub is_blocked : StackMappingKind → Bool
is_blocked interleaved = false
is_blocked blocked = true

-- The constructor.
unfoldable pub make : ℕ → ℕ → ℕ → StackMappingKind → Result StackAddressMapper
unfolding is_blocked
make stack_count interleave_bytes stack_capacity_bytes kind = do
  throw_if (stack_count == 0) invalid_argument
  throw_if (interleave_bytes == 0) invalid_argument
  throw_if (is_blocked kind && stack_capacity_bytes == 0) invalid_argument
  ok (record {
    stack_count = stack_count;
    interleave_bytes = interleave_bytes;
    stack_capacity_bytes = stack_capacity_bytes;
    kind = kind;
  })

-- `stack_capacity_bytes_ != 0 && address >= stack_capacity_bytes_`
unfoldable pub beyond_capacity : StackAddressMapper → ℕ → Bool
beyond_capacity m address = not (m.stack_capacity_bytes == 0) && leb m.stack_capacity_bytes address

unfoldable pub decode_single : StackAddressMapper → ℕ → Result StackAddress
decode_single m system_address = do
  throw_if (beyond_capacity m system_address) out_of_range
  ok (record { stack = 0; local_address = system_address })

unfoldable pub decode_blocked : StackAddressMapper → ℕ → Result StackAddress
decode_blocked m system_address = do
  let stack = system_address / m.stack_capacity_bytes
  throw_if (leb m.stack_count stack) out_of_range
  ok (record { stack = stack; local_address = system_address % m.stack_capacity_bytes })

unfoldable pub decode_interleaved : StackAddressMapper → ℕ → Result StackAddress
decode_interleaved m system_address = do
  let stripe = system_address / m.interleave_bytes
  let offset = system_address % m.interleave_bytes
  let stack = stripe % m.stack_count
  let local_stripe = stripe / m.stack_count
  base ← checked_multiply local_stripe m.interleave_bytes
  local_address ← checked_add base offset
  throw_if (beyond_capacity m local_address) out_of_range
  ok (record { stack = stack; local_address = local_address })

unfoldable pub decode : StackAddressMapper → ℕ → Result StackAddress
decode m system_address =
    if m.stack_count == 1
    then decode_single m system_address
    else if is_blocked m.kind
    then decode_blocked m system_address
    else decode_interleaved m system_address

unfoldable pub encode_blocked : StackAddressMapper → ℕ → ℕ → Result ℕ
encode_blocked m stack local_address = do
  throw_if (leb m.stack_capacity_bytes local_address) out_of_range
  base ← checked_multiply stack m.stack_capacity_bytes
  checked_add base local_address

unfoldable pub encode_interleaved : StackAddressMapper → ℕ → ℕ → Result ℕ
encode_interleaved m stack local_address = do
  let local_stripe = local_address / m.interleave_bytes
  let offset = local_address % m.interleave_bytes
  scaled ← checked_multiply local_stripe m.stack_count
  stripe ← checked_add scaled stack
  base ← checked_multiply stripe m.interleave_bytes
  checked_add base offset

-- A stack number is a natural number here, so the test `stack < 0` is dropped.
unfoldable pub encode : StackAddressMapper → ℕ → ℕ → Result ℕ
encode m stack local_address = do
  throw_if (leb m.stack_count stack) out_of_range
  throw_if (beyond_capacity m local_address) out_of_range
  if m.stack_count == 1
      then ok local_address
      else if is_blocked m.kind
      then encode_blocked m stack local_address
      else encode_interleaved m stack local_address
