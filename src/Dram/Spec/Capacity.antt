-- ===== src/Dram/Spec/Capacity.antt =====
-- The checked products of DramSpec, and the organisation that passes the checks.
use mem_sim.Base.{
  ℕ, ◌*◌, ◌/◌, ◌≤◌, ◌<◌, ◌≡◌, ap, ◌∙◌, false, List, [], ◌∷◌, arith, ltb, ◌==◌, if◌then◌else◌,
  ge→ltb, overflow_error, Result, ok, err, ◌>>=◌,
}
use mem_sim.Dram.Spec.{
  Organization, total_banks, int_max, checked_product_from, checked_product, u64_max,
  validate_organization, IsPositive,
}
use native.Mathlib.Nat.{mul_assoc, div-add-mod, mod-lt}

pub validate_organization-IsPositive :
    (o : Organization) → validate_organization o ≡ ok tt → IsPositive o
unfolding validate_organization
validate_organization-IsPositive o h = ground arith

abbrev pub product : List ℕ → ℕ
product [] = 1
product (x ∷ xs) = x * product xs

abbrev pub AllPositive : List ℕ → Type 0
AllPositive [] = Unit
AllPositive (x ∷ xs) = (0 < x) × AllPositive xs

-- `r <= M / v` is `r * v <= M`.
le_div→mul_le : (r v m : ℕ) → 0 < v → r ≤ m / v → r * v ≤ m
le_div→mul_le r v m p h = grind (arith, div-add-mod m v)

mul_le→le_div : (r v m : ℕ) → 0 < v → r * v ≤ m → r ≤ m / v
mul_le→le_div r v m p h = grind (arith, div-add-mod m v, mod-lt m p)

pos→ne : (x : ℕ) → 0 < x → (x == 0) ≡ false
pos→ne x h = ground arith

product_pos : (xs : List ℕ) → AllPositive xs → 0 < product xs
product_pos [] h = omega arith
product_pos (x ∷ xs) h = grind (arith, product_pos xs h.1)

checked_product_from-step :
    (x : ℕ) (xs : List ℕ) (r v : ℕ)
    → checked_product_from r (x ∷ xs) ≡ ok v
    → (0 < x) × (r ≤ u64_max / x) × (checked_product_from (r * x) xs ≡ ok v)
unfolding checked_product_from
checked_product_from-step x xs r v h = ground arith

-- A product that is returned is the exact one, of positive factors, within 64 bits.
checked_product_from_sound :
    (xs : List ℕ) (r v : ℕ)
    → r ≤ u64_max
    → checked_product_from r xs ≡ ok v
    → (v ≡ r * product xs) × (v ≤ u64_max) × AllPositive xs
unfolding checked_product_from
checked_product_from_sound [] r v b h = (ground arith, ground arith, tt)
checked_product_from_sound (x ∷ xs) r v b h =
    let (positive, fits, rest) = checked_product_from-step x xs r v h in
    let (e, le, all) =
      checked_product_from_sound xs (r * x) v (le_div→mul_le r x u64_max positive fits) rest in
    (e ∙ mul_assoc r x (product xs), le, (positive, all))

-- Positive factors whose product fits 64 bits are multiplied without an exception.
checked_product_from_complete :
    (xs : List ℕ) (r : ℕ)
    → AllPositive xs
    → r * product xs ≤ u64_max
    → checked_product_from r xs ≡ ok (r * product xs)
unfolding checked_product_from
checked_product_from_complete [] r a b = ap ok (omega arith)
checked_product_from_complete (x ∷ xs) r a b = rw (
  ge→ltb (u64_max / x) r (
      mul_le→le_div r x u64_max a.0
        (grind (arith, product_pos xs a.1, mul_assoc r x (product xs)))),
  pos→ne x a.0,
  checked_product_from_complete xs (r * x) a.1 (rw (mul_assoc r x (product xs)) b),
  mul_assoc r x (product xs),
)

-- A checked product that returns is the exact product, of positive factors, within 64 bits.
checked_product_sound :
    (xs : List ℕ) (v : ℕ)
    → checked_product xs ≡ ok v
    → (v ≡ product xs) × (v ≤ u64_max) × AllPositive xs
unfolding checked_product
checked_product_sound xs v h =
    let (e, le, all) = checked_product_from_sound xs 1 v (omega arith) h in (omega arith, le, all)

within_int-ok :
    (r : Result ℕ) (n : ℕ)
    → (r >>= λ count. if ltb int_max count then err overflow_error else ok count) ≡ ok n
    → (r ≡ ok n) × (n ≤ int_max)
within_int-ok (ok count) n h = ground arith
within_int-ok (err e) n h = cc

-- The checked count of banks is the product of the bank dimensions, and fits an int.
pub total_banks_sound :
    (o : Organization) (n : ℕ)
    → total_banks o ≡ ok n
    → (n ≡ o.channels * o.pseudo_channels * o.sids * o.ranks * o.bank_groups * o.banks_per_group)
      × (n ≤ int_max)
unfolding total_banks
total_banks_sound o n h =
    let (e, le) = within_int-ok (checked_product _) n h in
    (omega (arith, checked_product_sound _ n e), le)
