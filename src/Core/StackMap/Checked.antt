-- ===== src/Core/StackMap/Checked.antt =====
-- The checked steps of StackAddressMapper, and what its constructor establishes.
use mem_sim.Base.{
  ℕ, zero, suc, ◌+◌, ◌*◌, ◌/◌, ◌≤◌, ◌<◌, ◌≡◌, refl, Bool, true, false, arith, leb, ge→ltb,
  Exception, ok, ◌>>◌, throw_if,
}
use mem_sim.Dram.Spec.{u64_max}
use mem_sim.Core.StackMap.{
  StackMappingKind, interleaved, blocked, StackAddressMapper, make, checked_multiply, checked_add,
  is_blocked,
}
use native.Mathlib.Nat.{div-add-mod', mod-lt}

-- What the constructor establishes.
pub record IsValid (m : StackAddressMapper) : Type 0 where
  pub stacks : 0 < m.stack_count
  pub stripe : 0 < m.interleave_bytes
  pub capacity : is_blocked m.kind ≡ true → 0 < m.stack_capacity_bytes

pub make-IsValid :
    (n i c : ℕ) (k : StackMappingKind) (m : StackAddressMapper) → make n i c k ≡ ok m → IsValid m
unfolding make
make-IsValid n i c interleaved m h = ground arith
make-IsValid n i c blocked m h = ground arith

le-div : (a b m : ℕ) → 0 < a → a * b ≤ m → b ≤ m / a
le-div a b m p h = grind (arith, div-add-mod' m a, mod-lt m p)

pub checked_multiply-ok : (a b : ℕ) → a * b ≤ u64_max → checked_multiply a b ≡ ok (a * b)
unfolding checked_multiply
checked_multiply-ok zero b h = refl
checked_multiply-ok (suc a) b h =
    rw (ge→ltb (u64_max / suc a) b (le-div (suc a) b u64_max (omega arith) h)) (ground arith)

pub checked_add-ok : (a b : ℕ) → a + b ≤ u64_max → checked_add a b ≡ ok (a + b)
unfolding checked_add
checked_add-ok a b h = ground arith

mul-le_div : (a b m : ℕ) → b ≤ m / a → a * b ≤ m
mul-le_div a b m h = grind (arith, div-add-mod' m a)

pub checked_multiply-inv : (a b c : ℕ) → checked_multiply a b ≡ ok c → (c ≡ a * b) × (c ≤ u64_max)
unfolding checked_multiply
checked_multiply-inv zero b c h = ground arith
checked_multiply-inv (suc a) b c h = ground (arith, mul-le_div (suc a) b u64_max)

pub checked_add-inv :
    (a b c : ℕ) → a ≤ u64_max → checked_add a b ≡ ok c → (c ≡ a + b) × (c ≤ u64_max)
unfolding checked_add
checked_add-inv a b c le h = ground arith

pub throw_if_then-ok {ℓ} :
    {A : Type ℓ} (b : Bool) (e : Exception) (r s : A)
    → (throw_if b e >> ok r) ≡ ok s
    → (b ≡ false) × (r ≡ s)
throw_if_then-ok true e r s h = cc
throw_if_then-ok false e r s h = (refl, ground arith)

pub lt→leb : (a b : ℕ) → b < a → leb a b ≡ false
lt→leb a b h = ground arith

pub scale_le : (x y b : ℕ) → x ≤ y → x * b ≤ y * b
scale_le x y b h = grind arith

pub div_le : (a b : ℕ) → a / b ≤ a
div_le a b = grind (arith, div-add-mod' a b)
