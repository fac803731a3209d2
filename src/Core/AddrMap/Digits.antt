-- ===== src/Core/AddrMap/Digits.antt =====
-- take_mod of src/core/addr_map.cpp and the digits of a mixed-radix number.
use mem_sim.Base.{ℕ, ◌+◌, ◌*◌, ◌/◌, ◌<◌, max, ◌≡◌, ap₂, arith}
use mem_sim.Base.Digits.{digit-mod, digit-div}
use mem_sim.Core.AddrMap.{take_mod}
use native.Mathlib.Nat.{div-add-mod', mod-lt, mod-eq_of_lt, div-eq_of_lt}

pub max_one : (m : ℕ) → 0 < m → max 1 m ≡ m
max_one m h = omega arith

pub take_mod-lt : (v m : ℕ) → 0 < m → (take_mod v m).0 < m
unfolding take_mod
take_mod-lt v m h = rw (max_one m h) (mod-lt v h)

-- The digit and the rest make up the number.
pub take_mod-recompose : (v m : ℕ) → 0 < m → (take_mod v m).1 * m + (take_mod v m).0 ≡ v
unfolding take_mod
take_mod-recompose v m h = rw (max_one m h) (div-add-mod' v m)

-- Of a number below a * m the rest is below a.
pub take_mod-rest-lt : (v a m : ℕ) → 0 < m → v < a * m → (take_mod v m).1 < a
unfolding take_mod
take_mod-rest-lt v a m h k = rw (max_one m h) (grind (arith, div-add-mod' v m))

-- A digit that was put at the bottom is taken off again.
pub take_mod-digit : (x y m : ℕ) → y < m → take_mod (x * m + y) m ≡ (y, x)
unfolding take_mod
take_mod-digit x y m h =
    rw (max_one m (omega arith)) (ap₂ (λ a b. (a, b)) (digit-mod x h) (digit-div x h))

-- A number below the modulus is its own digit.
pub take_mod_self : (y m : ℕ) → y < m → take_mod y m ≡ (y, 0)
unfolding take_mod
take_mod_self y m h =
    rw (max_one m (omega arith)) (ap₂ (λ a b. (a, b)) (mod-eq_of_lt h) (div-eq_of_lt h))

pub take_mod-last : (y m : ℕ) → y < m → (take_mod y m).0 ≡ y
take_mod-last y m h = rw (take_mod_self y m h)

pub div-lt : (v a m : ℕ) → v < a * m → v / m < a
div-lt v a m k = grind (arith, div-add-mod' v m)
