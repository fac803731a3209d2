-- ===== src/Base/Int.antt =====
-- Counters that go below zero (a signed int), and what a step up or down does to them.
use Prim.Native.Nat.{ℕ, zero, suc, ◌+◌, ◌-◌}
use mathlib.Core.Path.{◌≡◌}
use mathlib.Core.Bool.{Bool, true, false}
use mathlib.Core.List.{List, [], ◌∷◌}
use native.Mathlib.Omega.{arith}
use mem_sim.Base.Tests.{leb, if◌then◌else◌}

-- `negsuc n` stands for -(n + 1).
pub data ℤ : Type 0 where
  pos negsuc : ℕ → ℤ

-- The number is the difference of these two, of which one is zero.
abbrev pub pos_part : ℤ → ℕ
pos_part (pos n) = n
pos_part (negsuc n) = 0

abbrev pub neg_part : ℤ → ℕ
neg_part (pos n) = 0
neg_part (negsuc n) = suc n

abbrev pub difference : ℕ → ℕ → ℤ
difference up down = if leb down up then pos (up - down) else negsuc (down - up - 1)

infixl 65 ◌+ℤ◌
unfoldable pub ◌+ℤ◌ : ℤ → ℤ → ℤ
x +ℤ y = difference (pos_part x + pos_part y) (neg_part x + neg_part y)

-- `x++` and `x--`
unfoldable pub plus_one : ℤ → ℤ
plus_one x = x +ℤ pos 1

unfoldable pub minus_one : ℤ → ℤ
minus_one x = x +ℤ negsuc 0

-- `x > 0` and `x >= 0`
abbrev pub is_positive : ℤ → Bool
is_positive (pos zero) = false
is_positive (pos (suc n)) = true
is_positive (negsuc n) = false

abbrev pub is_natural : ℤ → Bool
is_natural (pos n) = true
is_natural (negsuc n) = false

unfoldable pub sum_ℤ : List ℤ → ℤ
sum_ℤ [] = pos 0
sum_ℤ (x ∷ xs) = x +ℤ sum_ℤ xs

pub +ℤ-balance :
    (x y : ℤ)
    → pos_part (x +ℤ y) + (neg_part x + neg_part y) ≡ neg_part (x +ℤ y) + (pos_part x + pos_part y)
unfolding ◌+ℤ◌
+ℤ-balance x y = ground arith

pub plus_one-balance :
    (x : ℤ) → pos_part (plus_one x) + neg_part x ≡ neg_part (plus_one x) + pos_part x + 1
unfolding plus_one
plus_one-balance x = omega (arith, +ℤ-balance x (pos 1))

pub minus_one-balance :
    (x : ℤ) → pos_part (minus_one x) + neg_part x + 1 ≡ neg_part (minus_one x) + pos_part x
unfolding minus_one
minus_one-balance x = omega (arith, +ℤ-balance x (negsuc 0))
