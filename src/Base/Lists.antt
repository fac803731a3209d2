-- ===== src/Base/Lists.antt =====
-- Lists measured and indexed by native numbers (std::vector, std::deque), under the library's names.
use Prim.Native.Nat.{ℕ, zero, suc, ◌+◌, ◌<◌, ◌≤◌}
use mathlib.Core.Path.{◌∙◌, ◌≡◌, refl, ap}
use mathlib.Core.List.{List, [], ◌∷◌, ◌++◌, map}
use mathlib.Core.Option.{Option, none, some}
use native.Mathlib.Omega.{arith}
use mem_sim.Base.Tests.{◌==◌, if◌then◌else◌, ltb, leb}
use mathlib.Core.Bool.{◌&&◌}

module _ {ℓ} {A : Type ℓ} where
  abbrev pub length : List A → ℕ
  length [] = 0
  length (x ∷ xs) = suc (length xs)

  abbrev pub get_elem? : List A → ℕ → Option A
  get_elem? [] i = none
  get_elem? (x ∷ xs) zero = some x
  get_elem? (x ∷ xs) (suc i) = get_elem? xs i

  -- The read of an index that the caller keeps in bounds; the default stands for undefined behaviour.
  abbrev pub get_or : List A → ℕ → A → A
  get_or [] i d = d
  get_or (x ∷ xs) zero d = x
  get_or (x ∷ xs) (suc i) d = get_or xs i d

  -- A write out of bounds changes nothing.
  abbrev pub set : List A → ℕ → A → List A
  set [] i v = []
  set (x ∷ xs) zero v = v ∷ xs
  set (x ∷ xs) (suc i) v = x ∷ set xs i v

  abbrev pub modify : List A → ℕ → (A → A) → List A
  modify [] i f = []
  modify (x ∷ xs) zero f = f x ∷ xs
  modify (x ∷ xs) (suc i) f = x ∷ modify xs i f

  -- vector::assign
  abbrev pub replicate : ℕ → A → List A
  replicate zero a = []
  replicate (suc n) a = a ∷ replicate n a

  -- vector::erase at an index
  abbrev pub erase_at : List A → ℕ → List A
  erase_at [] i = []
  erase_at (x ∷ xs) zero = xs
  erase_at (x ∷ xs) (suc i) = x ∷ erase_at xs i

  pub length-append : (xs ys : List A) → length (xs ++ ys) ≡ length xs + length ys
  length-append [] ys = omega arith
  length-append (x ∷ xs) ys = omega (arith, length-append xs ys)

  pub length-replicate : (n : ℕ) (a : A) → length (replicate n a) ≡ n
  length-replicate zero a = refl
  length-replicate (suc n) a = ap suc (length-replicate n a)

module _ {ℓ} {A : Type ℓ} where
  pub length-set : (xs : List A) (i : ℕ) (v : A) → length (set xs i v) ≡ length xs
  length-set [] i v = refl
  length-set (x ∷ xs) zero v = refl
  length-set (x ∷ xs) (suc i) v = ap suc (length-set xs i v)

  pub length-modify : (xs : List A) (i : ℕ) (f : A → A) → length (modify xs i f) ≡ length xs
  length-modify [] i f = refl
  length-modify (x ∷ xs) zero f = refl
  length-modify (x ∷ xs) (suc i) f = ap suc (length-modify xs i f)

  pub get_or-set :
      (xs : List A) (i j : ℕ) (v d : A)
      → i < length xs
      → get_or (set xs i v) j d ≡ (if i == j then v else get_or xs j d)
  get_or-set [] i j v d h = absurd (omega arith)
  get_or-set (x ∷ xs) zero zero v d h = refl
  get_or-set (x ∷ xs) zero (suc j) v d h = ground arith
  get_or-set (x ∷ xs) (suc i) zero v d h = ground arith
  get_or-set (x ∷ xs) (suc i) (suc j) v d h = ground (arith, get_or-set xs i j v d)

  pub get_or-modify :
      (xs : List A) (i j : ℕ) (f : A → A) (d : A)
      → i < length xs
      → get_or (modify xs i f) j d ≡ (if i == j then f (get_or xs j d) else get_or xs j d)
  get_or-modify [] i j f d h = absurd (omega arith)
  get_or-modify (x ∷ xs) zero zero f d h = refl
  get_or-modify (x ∷ xs) zero (suc j) f d h = ground arith
  get_or-modify (x ∷ xs) (suc i) zero f d h = ground arith
  get_or-modify (x ∷ xs) (suc i) (suc j) f d h = ground (arith, get_or-modify xs i j f d)

  pub get_or-replicate : (n i : ℕ) (a d : A) → i < n → get_or (replicate n a) i d ≡ a
  get_or-replicate zero i a d h = absurd (omega arith)
  get_or-replicate (suc n) zero a d h = refl
  get_or-replicate (suc n) (suc i) a d h = get_or-replicate n i a d (omega arith)

  pub get_or-replicate_self : (n i : ℕ) (a : A) → get_or (replicate n a) i a ≡ a
  get_or-replicate_self zero i a = refl
  get_or-replicate_self (suc n) zero a = refl
  get_or-replicate_self (suc n) (suc i) a = get_or-replicate_self n i a

  pub get_or_beyond : (xs : List A) (i : ℕ) (d : A) → length xs ≤ i → get_or xs i d ≡ d
  get_or_beyond [] i d h = refl
  get_or_beyond (x ∷ xs) zero d h = absurd (omega arith)
  get_or_beyond (x ∷ xs) (suc i) d h = get_or_beyond xs i d (omega arith)

  pub length-erase_at :
      (xs : List A) (i : ℕ) → i < length xs → suc (length (erase_at xs i)) ≡ length xs
  length-erase_at [] i h = absurd (omega arith)
  length-erase_at (x ∷ xs) zero h = refl
  length-erase_at (x ∷ xs) (suc i) h = ap suc (length-erase_at xs i (omega arith))

module _ {ℓ κ} {A : Type ℓ} {B : Type κ} where
  pub length-map : (f : A → B) (xs : List A) → length (map f xs) ≡ length xs
  length-map f [] = refl
  length-map f (x ∷ xs) = ap suc (length-map f xs)

  pub get_or-map :
      (f : A → B) (xs : List A) (i : ℕ) (d : A) (e : B)
      → i < length xs
      → get_or (map f xs) i e ≡ f (get_or xs i d)
  get_or-map f [] i d e h = absurd (omega arith)
  get_or-map f (x ∷ xs) zero d e h = refl
  get_or-map f (x ∷ xs) (suc i) d e h = get_or-map f xs i d e (omega arith)

module _ {ℓ} {A : Type ℓ} where
  -- `for (i = begin; i < begin + count; ++i) xs[i] = f(xs[i]);`
  unfoldable pub modify_range : List A → ℕ → ℕ → (A → A) → List A
  modify_range xs begin zero f = xs
  modify_range xs begin (suc count) f = modify_range (modify xs begin f) (suc begin) count f

  pub length-modify_range :
      (xs : List A) (begin count : ℕ) (f : A → A)
      → length (modify_range xs begin count f) ≡ length xs
  unfolding modify_range
  length-modify_range xs begin zero f = refl
  length-modify_range xs begin (suc count) f =
      length-modify_range (modify xs begin f) (suc begin) count f ∙ length-modify xs begin f

  pub get_or-modify_range :
      (xs : List A) (begin count i : ℕ) (f : A → A) (d : A)
      → begin + count ≤ length xs
      → get_or (modify_range xs begin count f) i d
        ≡ (if leb begin i && ltb i (begin + count) then f (get_or xs i d) else get_or xs i d)
  unfolding modify_range
  get_or-modify_range xs begin zero i f d h = ground arith
  get_or-modify_range xs begin (suc count) i f d h = ground (
    arith,
    get_or-modify_range (modify xs begin f) (suc begin) count i f d,
    length-modify xs begin f,
    get_or-modify xs begin i f d,
  )
