-- ===== src/Base/Ranges.antt =====
-- The loops `for (i = 0; i < n; ++i)` that push to a vector, and who is in what they push.
use Prim.Native.Nat.{ℕ, zero, suc, ◌+◌, ◌<◌, ◌≤◌}
use mem_sim.Base.Lists.{length, get_or}
use mathlib.Core.Path.{◌≡◌, refl}
use mathlib.Core.List.{List, [], ◌∷◌, ◌++◌, Memᴰ}
use mathlib.Core.Bool.{Bool, false, ◌||◌}
use native.Mathlib.Omega.{arith}

-- The numbers from `i` on, `n` of them.
abbrev pub range_from : ℕ → ℕ → List ℕ
range_from i zero = []
range_from i (suc n) = i ∷ range_from (suc i) n

abbrev pub upto : ℕ → List ℕ
upto n = range_from 0 n

module _ {ℓ κ} {A : Type ℓ} {B : Type κ} where
  abbrev pub for_each : List A → (A → List B) → List B
  for_each [] body = []
  for_each (x ∷ xs) body = body x ++ for_each xs body

module _ {ℓ} {A : Type ℓ} where
  abbrev pub All {κ} : (A → Type κ) → List A → Type κ
  All P [] = Unit
  All P (x ∷ xs) = P x × All P xs

  pub All-append {κ} : (P : A → Type κ) (xs ys : List A) → All P xs → All P ys → All P (xs ++ ys)
  All-append P [] ys a b = b
  All-append P (x ∷ xs) ys a b = (a.0, All-append P xs ys a.1 b)

  pub Memᴰ-append_left : {a : A} (xs ys : List A) → Memᴰ a xs → Memᴰ a (xs ++ ys)
  Memᴰ-append_left [] ys m = elim m [ ]
  Memᴰ-append_left (x ∷ xs) ys (Memᴰ.head h) = Memᴰ.head h
  Memᴰ-append_left (x ∷ xs) ys (Memᴰ.tail m) = Memᴰ.tail (Memᴰ-append_left xs ys m)

  pub Memᴰ-append_right : {a : A} (xs ys : List A) → Memᴰ a ys → Memᴰ a (xs ++ ys)
  Memᴰ-append_right [] ys m = m
  Memᴰ-append_right (x ∷ xs) ys m = Memᴰ.tail (Memᴰ-append_right xs ys m)

module _ {ℓ κ} {A : Type ℓ} {B : Type κ} where
  -- What the body pushes at a member of the list is in the result.
  pub Memᴰ-for_each :
      {a : A} {b : B} (xs : List A) (body : A → List B)
      → Memᴰ a xs
      → Memᴰ b (body a)
      → Memᴰ b (for_each xs body)
  Memᴰ-for_each [] body m n = elim m [ ]
  Memᴰ-for_each {a} {b} (x ∷ xs) body (Memᴰ.head h) n =
      Memᴰ-append_left (body x) (for_each xs body) (rw (← h) n)
  Memᴰ-for_each (x ∷ xs) body (Memᴰ.tail m) n =
      Memᴰ-append_right (body x) (for_each xs body) (Memᴰ-for_each xs body m n)

  pub All-for_each {μ} :
      (P : B → Type μ) (xs : List A) (body : A → List B)
      → ((a : A) → Memᴰ a xs → All P (body a))
      → All P (for_each xs body)
  All-for_each P [] body h = tt
  All-for_each P (x ∷ xs) body h =
      All-append P (body x) (for_each xs body) (h x (Memᴰ.head refl))
        (All-for_each P xs body (λ a m. h a (Memᴰ.tail m)))

pub Memᴰ-range_from : (i n k : ℕ) → k < n → Memᴰ (i + k) (range_from i n)
Memᴰ-range_from i zero k h = absurd (omega arith)
Memᴰ-range_from i (suc n) zero h = Memᴰ.head (omega arith)
Memᴰ-range_from i (suc n) (suc k) h =
    let e : suc i + k ≡ i + suc k = omega arith in
    rw (← e) (Memᴰ.tail (Memᴰ-range_from (suc i) n k (omega arith)))

pub Memᴰ-range_from_lt : (i n : ℕ) {k : ℕ} → Memᴰ k (range_from i n) → k < i + n
Memᴰ-range_from_lt i zero m = elim m [ ]
Memᴰ-range_from_lt i (suc n) (Memᴰ.head h) = omega arith
Memᴰ-range_from_lt i (suc n) (Memᴰ.tail m) = omega (arith, Memᴰ-range_from_lt (suc i) n m)

-- std::any_of over `count` elements from the index `begin` on
unfoldable pub any_in {ℓ} : {A : Type ℓ} → (A → Bool) → List A → ℕ → ℕ → Bool
any_in f [] begin count = false
any_in f (x ∷ xs) (suc begin) count = any_in f xs begin count
any_in f (x ∷ xs) zero zero = false
any_in f (x ∷ xs) zero (suc count) = f x || any_in f xs zero count

pub any_in-get_or {ℓ} :
    {A : Type ℓ} (f : A → Bool) (xs : List A) (begin count i : ℕ) (d : A)
    → any_in f xs begin count ≡ false
    → begin ≤ i
    → i < begin + count
    → i < length xs
    → f (get_or xs i d) ≡ false
unfolding any_in
any_in-get_or f [] begin count i d n b e h = absurd (omega arith)
any_in-get_or f (x ∷ xs) (suc begin) count zero d n b e h = absurd (omega arith)
any_in-get_or f (x ∷ xs) (suc begin) count (suc i) d n b e h =
    any_in-get_or f xs begin count i d n (omega arith) (omega arith) (omega arith)
any_in-get_or f (x ∷ xs) zero zero i d n b e h = absurd (omega arith)
any_in-get_or f (x ∷ xs) zero (suc count) zero d n b e h = ground (arith, n)
any_in-get_or f (x ∷ xs) zero (suc count) (suc i) d n b e h =
    any_in-get_or f xs zero count i d (ground (arith, n)) (omega arith) (omega arith) (omega arith)
