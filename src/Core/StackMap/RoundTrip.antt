-- ===== src/Core/StackMap/RoundTrip.antt =====
-- StackAddressMapper: encode and decode, one after the other.
use mem_sim.Base.{
  ℕ, ◌+◌, ◌*◌, ◌/◌, ◌%◌, ◌≤◌, ◌<◌, ◌≡◌, sym, ap, ap₂, ◌∙◌, inl, inr, false, arith, leb, ◌==◌,
  if◌then◌else◌, ==→eq, Bool-cases, out_of_range, ok, throw_if, >>=-ok,
}
use mem_sim.Base.Digits.{digit-mod, digit-div}
use mem_sim.Dram.Spec.{u64_max}
use mem_sim.Core.StackMap.{
  StackAddress, StackAddressMapper, decode, encode, checked_multiply, is_blocked, beyond_capacity,
  decode_single, decode_blocked, encode_blocked, encode_interleaved,
}
use native.Mathlib.Nat.{div-add-mod', mod-lt}
use mem_sim.Core.StackMap.Checked.{
  IsValid, checked_multiply-ok, checked_add-ok, checked_multiply-inv, checked_add-inv, lt→leb,
}
use mem_sim.Core.StackMap.Interleaved.{decode-encode_interleaved, encode-decode_interleaved}

module _ (m : StackAddressMapper) (v : IsValid m) where
  decode_blocked-ok :
      (a : ℕ) (s : StackAddress)
      → decode_blocked m a ≡ ok s
      → (a / m.stack_capacity_bytes < m.stack_count)
        × (s.stack ≡ a / m.stack_capacity_bytes)
        × (s.local_address ≡ a % m.stack_capacity_bytes)
  unfolding decode_blocked
  decode_blocked-ok a s h = ground arith

  encode_blocked-ok :
      (st l : ℕ)
      → l < m.stack_capacity_bytes
      → st * m.stack_capacity_bytes + l ≤ u64_max
      → encode_blocked m st l ≡ ok (st * m.stack_capacity_bytes + l)
  unfolding encode_blocked
  encode_blocked-ok st l h le = rw (
    lt→leb m.stack_capacity_bytes l h,
    checked_multiply-ok st m.stack_capacity_bytes (omega arith),
    checked_add-ok (st * m.stack_capacity_bytes) l le,
  )

  encode_blocked-inv :
      (st l a : ℕ)
      → encode_blocked m st l ≡ ok a
      → (l < m.stack_capacity_bytes) × (a ≡ st * m.stack_capacity_bytes + l)
  unfolding encode_blocked
  encode_blocked-inv st l a h =
      let (_, e0, h0) = >>=-ok (throw_if (leb m.stack_capacity_bytes l) out_of_range) _ h in
      let (base, e1, h1) = >>=-ok (checked_multiply st m.stack_capacity_bytes) _ h0 in
      let (f1, le1) = checked_multiply-inv _ _ _ e1 in
      let (f2, _) = checked_add-inv _ _ _ le1 h1 in (ground arith, omega arith)

  decode-encode_blocked :
      (a : ℕ) (s : StackAddress)
      → a ≤ u64_max
      → 0 < m.stack_capacity_bytes
      → decode_blocked m a ≡ ok s
      → (s.stack < m.stack_count)
        × (beyond_capacity m s.local_address ≡ false)
        × (encode_blocked m s.stack s.local_address ≡ ok a)
  unfolding beyond_capacity
  decode-encode_blocked a s le p h =
      let (fits, es, el) = decode_blocked-ok a s h in
      let e = div-add-mod' a m.stack_capacity_bytes in
      let lt = mod-lt a p in
      rw (es, el)
        (
          fits,
          ground arith,
          encode_blocked-ok (a / m.stack_capacity_bytes) (a % m.stack_capacity_bytes) lt (rw e le)
              ∙ ap ok e,
        )

  encode-decode_blocked :
      (st l a : ℕ)
      → st < m.stack_count
      → encode_blocked m st l ≡ ok a
      → decode_blocked m a ≡ ok (record { stack = st; local_address = l })
  unfolding decode_blocked
  encode-decode_blocked st l a h e =
      let (lt, ea) = encode_blocked-inv st l a e in
      rw (ea, digit-div st lt, digit-mod st lt, lt→leb m.stack_count st h)

decode_single-ok :
    (m : StackAddressMapper) (a : ℕ) (s : StackAddress)
    → decode_single m a ≡ ok s
    → (beyond_capacity m a ≡ false) × (s.stack ≡ 0) × (s.local_address ≡ a)
unfolding decode_single
decode_single-ok m a s h = ground arith

decode_single-eq :
    (m : StackAddressMapper) (a : ℕ)
    → beyond_capacity m a ≡ false
    → decode_single m a ≡ ok (record { stack = 0; local_address = a })
unfolding decode_single
decode_single-eq m a cap = rw cap

encode-ok :
    (m : StackAddressMapper) (st l : ℕ)
    → st < m.stack_count
    → beyond_capacity m l ≡ false
    → encode m st l ≡ (
        if m.stack_count == 1
        then ok l
        else if is_blocked m.kind
        then encode_blocked m st l
        else encode_interleaved m st l)
unfolding encode
encode-ok m st l h cap = rw (lt→leb m.stack_count st h, cap)

encode-inv :
    (m : StackAddressMapper) (st l a : ℕ)
    → encode m st l ≡ ok a
    → (st < m.stack_count)
      × (beyond_capacity m l ≡ false)
      × ((if m.stack_count == 1
            then ok l
            else if is_blocked m.kind
            then encode_blocked m st l
            else encode_interleaved m st l)
          ≡ ok a)
unfolding encode
encode-inv m st l a h =
    let (_, e0, h0) = >>=-ok (throw_if (leb m.stack_count st) out_of_range) _ h in
    let (_, e1, h1) = >>=-ok (throw_if (beyond_capacity m l) out_of_range) _ h0 in
    (ground arith, ground arith, h1)

-- A 64-bit system address that decodes to a stack and a local address is the one that they encode
-- to, with no overflow on the way, for one stack, blocked and interleaved stacks.
pub encode-decode :
    (m : StackAddressMapper) (a : ℕ) (s : StackAddress)
    → IsValid m
    → a ≤ u64_max
    → decode m a ≡ ok s
    → encode m s.stack s.local_address ≡ ok a
unfolding decode
encode-decode m a s v le h = elim (Bool-cases (m.stack_count == 1)) [
  | inl one ↦
      let (cap, es, el) = decode_single-ok m a s (rw one at h) in
      rw (es, el) (encode-ok m 0 a v.stacks cap ∙ rw one)
  | inr more ↦ elim (Bool-cases (is_blocked m.kind)) [
    | inl b ↦
        let (lt, cap, e) = decode-encode_blocked m v a s le (v.capacity b) (rw (more, b) at h) in
        encode-ok m s.stack s.local_address lt cap ∙ rw (more, b) e
    | inr b ↦
        let (lt, cap, e) = decode-encode_interleaved m v a s le (rw (more, b) at h) in
        encode-ok m s.stack s.local_address lt cap ∙ rw (more, b) e
  ]
]

-- A stack and a local address that encode to a system address are what that address decodes to,
-- for one stack, blocked and interleaved stacks.
pub decode-encode :
    (m : StackAddressMapper) (st l a : ℕ)
    → IsValid m
    → encode m st l ≡ ok a
    → decode m a ≡ ok (record { stack = st; local_address = l })
unfolding decode
decode-encode m st l a v h =
    let (lt, cap, e) = encode-inv m st l a h in
    elim (Bool-cases (m.stack_count == 1)) [
      | inl one ↦
          let same : l ≡ a = ground arith in
          let first : st ≡ 0 = omega (arith, ==→eq m.stack_count 1 one) in
          rw one (
            decode_single-eq m a (rw same at cap)
            ∙ ap₂ (λ x y. ok (record { stack = x; local_address = y })) (sym first) (sym same))
      | inr more ↦ elim (Bool-cases (is_blocked m.kind)) [
        | inl b ↦ rw (more, b) (encode-decode_blocked m v st l a lt (rw (more, b) at e))
        | inr b ↦ rw (more, b) (encode-decode_interleaved m v st l a lt cap (rw (more, b) at e))
      ]
    ]
