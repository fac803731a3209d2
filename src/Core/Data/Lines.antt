-- ===== src/Core/Data/Lines.antt =====
-- The arithmetic of lines and chunks in MemoryImage::write of src/core/data.cpp.
use native.Mathlib.Nat.{mod-le, mod-add-div, mul_comm, mod-lt}
use mem_sim.Base.{
  ℕ, ◌+◌, ◌-◌, ◌*◌, ◌/◌, ◌%◌, ◌≤◌, ◌<◌, ◌≡◌, refl, sym, ap, ◌∙◌, inl, inr, Bool, true, false, ◌&&◌,
  arith, ltb, leb, ◌==◌, if◌then◌else◌, ltb→lt, leb→le, ==→eq, Bool-cases,
}
use mem_sim.Base.Digits.{digit-mod}
use mem_sim.Core.Data.Keys.{both}

-- An address lies in the line of another exactly if it is less than a line away from its start.
module _ (n : ℕ) (some_bytes : 0 < n) where
  same_line :
      (x a : ℕ)
      → x - x % n ≤ a
      → a < x - x % n + n
      → (a - a % n ≡ x - x % n) × (a % n ≡ a - (x - x % n))
  same_line x a low high =
      let start : x - x % n ≡ x / n * n = omega (arith, mod-add-div x n, mul_comm n (x / n)) in
      let form : a ≡ x / n * n + (a - (x - x % n)) = omega (arith, start, low) in
      let digit : a % n ≡ a - (x - x % n) =
        ap (λ y. y % n) form ∙ digit-mod (x / n) (omega arith) in
      (omega (arith, digit, low), digit)

  module _ (x a chunk copied address : ℕ) (wanted : ℕ → Bool) (value : ℕ → ℕ) (u : ℕ)
      (here : x ≡ address + copied) (fits : x % n + chunk ≤ n) where
    unfoldable pub in_line : Bool
    in_line = leb (x % n) (a % n) && ltb (a % n) (x % n + chunk)

    unfoldable pub inside : Bool
    inside = leb x a && ltb a (x + chunk)

    inside-true : inside ≡ true → (a - a % n == x - x % n) && in_line ≡ true
    unfolding inside in_line
    inside-true h =
        let (low, high) = both (leb x a) (ltb a (x + chunk)) h in
        let above : x ≤ a = leb→le x a low in
        let below : a < x + chunk = ltb→lt a (x + chunk) high in
        let (same, digit) = same_line x a (omega arith) (omega arith) in
        ground (arith, same, digit, above, below, mod-lt x some_bytes)

    inside-place : inside ≡ true → copied + (a % n - x % n) ≡ a - address
    unfolding inside
    inside-place h =
        let (low, high) = both (leb x a) (ltb a (x + chunk)) h in
        let above : x ≤ a = leb→le x a low in
        let below : a < x + chunk = ltb→lt a (x + chunk) high in
        let (same, digit) = same_line x a (omega arith) (omega arith) in
        omega (arith, digit, above, here, mod-le x)

    inside-false : inside ≡ false → (a - a % n == x - x % n) && in_line ≡ false
    unfolding inside in_line
    inside-false h = elim (Bool-cases (a - a % n == x - x % n)) [
      | inl same ↦
          let bases = ==→eq (a - a % n) (x - x % n) same in
          let first : leb (x % n) (a % n) ≡ leb x a = ground (arith, bases, mod-le x, mod-le a) in
          let last : ltb (a % n) (x % n + chunk) ≡ ltb a (x + chunk) =
            ground (arith, bases, mod-le x, mod-le a) in
          rw (same, first, last) h
      | inr other ↦ rw other refl
    ]

    pub at_place :
        (if (a - a % n == x - x % n) && (in_line && wanted (copied + (a % n - x % n)))
          then value (copied + (a % n - x % n))
          else u)
        ≡ (if inside && wanted (a - address) then value (a - address) else u)
    at_place = go (a - a % n == x - x % n) in_line inside refl inside-true inside-false
      where
        go :
            (p q b : Bool)
            → inside ≡ b
            → (inside ≡ true → p && q ≡ true)
            → (inside ≡ false → p && q ≡ false)
            → (if p && (q && wanted (copied + (a % n - x % n)))
                then value (copied + (a % n - x % n))
                else u)
              ≡ (if inside && wanted (a - address) then value (a - address) else u)
        go true true true e held failed =
            ap (λ i. if wanted i then value i else u) (inside-place e)
            ∙ ap (λ b. if b && wanted (a - address) then value (a - address) else u) (sym e)
        go true true false e held failed = absurd (ground (arith, failed e))
        go true false true e held failed = absurd (ground (arith, held e))
        go true false false e held failed =
            ap (λ b. if b && wanted (a - address) then value (a - address) else u) (sym e)
        go false q true e held failed = absurd (ground (arith, held e))
        go false q false e held failed =
            ap (λ b. if b && wanted (a - address) then value (a - address) else u) (sym e)

-- The rest of a request after its first chunk, which ends at `m`.
pub join_chunks :
    (x m e a : ℕ) (w : Bool) (v u : ℕ)
    → x ≤ m
    → m ≤ e
    → (if leb m a && ltb a e && w then v else if leb x a && ltb a m && w then v else u)
      ≡ (if leb x a && ltb a e && w then v else u)
join_chunks x m e a true v u h l = ground arith
join_chunks x m e a false v u h l = ground arith
