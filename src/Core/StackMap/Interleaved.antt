-- ===== src/Core/StackMap/Interleaved.antt =====
-- Interleaved stacks: encode and decode, one after the other.
use mem_sim.Base.{
  ℕ, ◌+◌, ◌*◌, ◌/◌, ◌%◌, ◌≤◌, ◌<◌, ◌≡◌, sym, ap, ap₂, subst, ◌∙◌, false, arith, out_of_range, ok,
  ◌>>◌, throw_if, >>=-ok,
}
use mem_sim.Base.Digits.{digit-mod, digit-div}
use mem_sim.Dram.Spec.{u64_max}
use mem_sim.Core.StackMap.{
  StackAddress, StackAddressMapper, checked_multiply, checked_add, beyond_capacity,
  decode_interleaved, encode_interleaved,
}
use native.Mathlib.Nat.{div-add-mod', mod-lt}
use mem_sim.Core.StackMap.Checked.{
  IsValid, checked_multiply-ok, checked_add-ok, checked_multiply-inv, checked_add-inv,
  throw_if_then-ok, scale_le, div_le,
}

module _ (m : StackAddressMapper) (v : IsValid m) where
  -- The parts of the interleaved decoding, and the address that they came from.
  abbrev pub local_of : ℕ → ℕ
  local_of a = a / m.interleave_bytes / m.stack_count * m.interleave_bytes + a % m.interleave_bytes

  local_of-le : (a : ℕ) → local_of a ≤ a
  local_of-le a = omega (
    arith,
    scale_le (a / m.interleave_bytes / m.stack_count) (a / m.interleave_bytes) m.interleave_bytes
        (div_le (a / m.interleave_bytes) m.stack_count),
    div-add-mod' a m.interleave_bytes,
  )

  decode_interleaved-eq :
      (a : ℕ)
      → a ≤ u64_max
      → decode_interleaved m a ≡ (
          throw_if (beyond_capacity m (local_of a)) out_of_range
          >> ok (record {
            stack = a / m.interleave_bytes % m.stack_count;
            local_address = local_of a;
          }))
  unfolding decode_interleaved
  decode_interleaved-eq a le = rw (
    checked_multiply-ok (a / m.interleave_bytes / m.stack_count) m.interleave_bytes
        (omega (arith, local_of-le a)),
    checked_add-ok (a / m.interleave_bytes / m.stack_count * m.interleave_bytes)
        (a % m.interleave_bytes) (omega (arith, local_of-le a)),
  )

  encode_interleaved-eq :
      (ls off st : ℕ)
      → off < m.interleave_bytes
      → (ls * m.stack_count + st ≤ u64_max)
      → (ls * m.stack_count + st) * m.interleave_bytes + off ≤ u64_max
      → encode_interleaved m st (ls * m.interleave_bytes + off)
        ≡ ok ((ls * m.stack_count + st) * m.interleave_bytes + off)
  unfolding encode_interleaved
  encode_interleaved-eq ls off st h fits le = rw (
    digit-div ls h,
    digit-mod ls h,
    checked_multiply-ok ls m.stack_count (omega arith),
    checked_add-ok (ls * m.stack_count) st fits,
    checked_multiply-ok (ls * m.stack_count + st) m.interleave_bytes (omega arith),
    checked_add-ok ((ls * m.stack_count + st) * m.interleave_bytes) off le,
  )

  encode_interleaved-inv :
      (st l a : ℕ)
      → encode_interleaved m st l ≡ ok a
      → (a
          ≡ (l / m.interleave_bytes * m.stack_count + st) * m.interleave_bytes
            + l % m.interleave_bytes)
        × (a ≤ u64_max)
  unfolding encode_interleaved
  encode_interleaved-inv st l a h =
      let (scaled, e1, h1) = >>=-ok (checked_multiply (l / m.interleave_bytes) m.stack_count) _ h in
      let (stripe, e2, h2) = >>=-ok (checked_add scaled st) _ h1 in
      let (base, e3, h3) = >>=-ok (checked_multiply stripe m.interleave_bytes) _ h2 in
      let (f1, le1) = checked_multiply-inv _ _ _ e1 in
      let (f2, _) = checked_add-inv _ _ _ le1 e2 in
      let (f3, le3) = checked_multiply-inv _ _ _ e3 in
      let (f4, le4) = checked_add-inv _ _ _ le3 h3 in
      (
        f4
            ∙ ap (λ n. n + l % m.interleave_bytes)
                (f3 ∙ ap (λ n. n * m.interleave_bytes) (f2 ∙ ap (λ n. n + st) f1)),
        le4,
      )

  recompose :
      (a : ℕ)
      → (a / m.interleave_bytes / m.stack_count * m.stack_count
              + a / m.interleave_bytes % m.stack_count)
            * m.interleave_bytes
          + a % m.interleave_bytes
        ≡ a
  recompose a =
      rw (div-add-mod' (a / m.interleave_bytes) m.stack_count) (div-add-mod' a m.interleave_bytes)

  pub decode-encode_interleaved :
      (a : ℕ) (s : StackAddress)
      → a ≤ u64_max
      → decode_interleaved m a ≡ ok s
      → (s.stack < m.stack_count)
        × (beyond_capacity m s.local_address ≡ false)
        × (encode_interleaved m s.stack s.local_address ≡ ok a)
  decode-encode_interleaved a s le h =
      let (cap, e) = throw_if_then-ok _ _ _ _ (sym (decode_interleaved-eq a le) ∙ h) in
      let back =
        encode_interleaved-eq (a / m.interleave_bytes / m.stack_count) (a % m.interleave_bytes)
          (a / m.interleave_bytes % m.stack_count) (mod-lt a v.stripe)
          (rw (div-add-mod' (a / m.interleave_bytes) m.stack_count)
            (omega (arith, div_le a m.interleave_bytes)))
          (rw (recompose a) le)
        ∙ ap ok (recompose a) in
      subst
        (λ (s : StackAddress).
          (s.stack < m.stack_count)
          × (beyond_capacity m s.local_address ≡ false)
          × (encode_interleaved m s.stack s.local_address ≡ ok a))
        e (mod-lt (a / m.interleave_bytes) v.stacks, cap, back)

  pub encode-decode_interleaved :
      (st l a : ℕ)
      → st < m.stack_count
      → beyond_capacity m l ≡ false
      → encode_interleaved m st l ≡ ok a
      → decode_interleaved m a ≡ ok (record { stack = st; local_address = l })
  encode-decode_interleaved st l a h cap e =
      let (ea, le) = encode_interleaved-inv st l a e in
      let off = mod-lt l v.stripe in
      let stripe =
        ap (λ n. n / m.interleave_bytes) ea
        ∙ digit-div (l / m.interleave_bytes * m.stack_count + st) off in
      let offset =
        ap (λ n. n % m.interleave_bytes) ea
        ∙ digit-mod (l / m.interleave_bytes * m.stack_count + st) off in
      let high = ap (λ n. n / m.stack_count) stripe ∙ digit-div (l / m.interleave_bytes) h in
      let low = ap (λ n. n % m.stack_count) stripe ∙ digit-mod (l / m.interleave_bytes) h in
      let local =
        ap₂ (λ x y. x * m.interleave_bytes + y) high offset ∙ div-add-mod' l m.interleave_bytes in
      decode_interleaved-eq a le
      ∙ ap₂
          (λ x y.
            throw_if (beyond_capacity m x) out_of_range
            >> ok (record { stack = y; local_address = x }))
          local low
      ∙ rw cap
