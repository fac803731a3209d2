-- ===== src/Examples/Address.antt =====
-- The address theorems at concrete inputs.
use mem_sim.Base.{◌+◌, ◌%◌, ◌≡◌, refl, arith, ok}
use mem_sim.Dram.Spec.{checked_product, checked_product_from, total_banks}
use mem_sim.Dram.Address.{InRange, flat_bank}
use mem_sim.Core.AddrMap.{decode}
use mem_sim.Core.StackMap
use mem_sim.Core.StackMap.{
  StackAddressMapper, interleaved, make, encode, encode_interleaved, decode_interleaved, is_blocked,
  checked_multiply, checked_add, beyond_capacity,
}
use mem_sim.Core.StackMap.Checked.{IsValid, make-IsValid}
use mem_sim.Core.StackMap.RoundTrip.{encode-decode, decode-encode}
use mem_sim.Core.AddrMap.Bijection.{
  address_of, decode-InRange, decode-address_of, address_of-decode,
}
use mem_sim.Examples.{small_org, small_spec, small_valid, somewhere, somewhere-InRange}
use mem_sim.Dram.Spec.{transaction_bytes}

decode-InRange_example : InRange small_org (decode small_spec 123456789)
decode-InRange_example = decode-InRange small_spec small_valid 123456789

transaction_32 : transaction_bytes small_org ≡ 32
unfolding transaction_bytes
transaction_32 = refl

decode-address_of_example : decode small_spec (address_of small_spec somewhere + 5) ≡ somewhere
decode-address_of_example =
    decode-address_of small_spec small_valid somewhere 5 refl somewhere-InRange
      (rw transaction_32 (omega arith))

address_of-decode_example :
    address_of small_spec (decode small_spec 100003) + 100003 % transaction_bytes small_org ≡ 100003
address_of-decode_example =
    address_of-decode small_spec small_valid 100003 refl (rw transaction_32 (omega arith))

small_banks : total_banks small_org ≡ ok 64
unfolding total_banks checked_product checked_product_from
small_banks = refl

same_index : flat_bank small_org somewhere ≡ flat_bank small_org (record somewhere { row = 3 })
unfolding flat_bank
same_index = refl

-- Two stacks of 4 KiB, interleaved by 256 bytes.
abbrev two_stacks : StackAddressMapper
two_stacks = record {
  stack_count = 2;
  interleave_bytes = 256;
  stack_capacity_bytes = 4096;
  kind = interleaved;
}

made : make 2 256 4096 interleaved ≡ ok two_stacks
unfolding make
made = refl

two_stacks-IsValid : IsValid two_stacks
two_stacks-IsValid = make-IsValid 2 256 4096 interleaved two_stacks made

decoded_1000 : StackMap.decode two_stacks 1000 ≡ ok (record { stack = 1; local_address = 488 })
unfolding StackMap.decode decode_interleaved is_blocked checked_multiply checked_add beyond_capacity
decoded_1000 = refl

encoded_1000 : encode two_stacks 1 488 ≡ ok 1000
unfolding encode encode_interleaved is_blocked checked_multiply checked_add beyond_capacity
encoded_1000 = refl

encode-decode_example : encode two_stacks 1 488 ≡ ok 1000
encode-decode_example =
    encode-decode two_stacks 1000 (record { stack = 1; local_address = 488 }) two_stacks-IsValid
      (omega arith) decoded_1000

decode-encode_example :
    StackMap.decode two_stacks 1000 ≡ ok (record { stack = 1; local_address = 488 })
decode-encode_example = decode-encode two_stacks 1 488 1000 two_stacks-IsValid encoded_1000
