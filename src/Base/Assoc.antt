-- ===== src/Base/Assoc.antt =====
-- Association lists (std::unordered_map) over keys with a test of equality.
use mathlib.Core.Path.{ap₂, ◌≡◌, refl, sym, ◌∙◌}
use mathlib.Core.Bool.{Bool, true, false}
use mathlib.Core.List.{List, [], ◌∷◌}
use mathlib.Core.Option.{Option, none, some}
use mathlib.Core.Logic.{inl, inr}
use mem_sim.Base.Tests.{if◌then◌else◌, Bool-cases}

module _ {ℓ κ} {K : Type ℓ} {V : Type κ} (same : K → K → Bool) where
  unfoldable pub find_in : K → List (K × V) → Option V
  find_in k [] = none
  find_in k (entry ∷ xs) = if same k entry.0 then some entry.1 else find_in k xs

  -- Replaces the entry of the key, or adds one at the end.
  unfoldable pub put_in : K → V → List (K × V) → List (K × V)
  put_in k v [] = (k, v) ∷ []
  put_in k v (entry ∷ xs) = if same k entry.0 then (entry.0, v) ∷ xs else entry ∷ put_in k v xs

  module _ (sound : (a b : K) → same a b ≡ true → a ≡ b)
      (same_refl : (a : K) → same a a ≡ true) where
    pub find_in-put_in :
        (k j : K) (v : V) (xs : List (K × V))
        → find_in j (put_in k v xs) ≡ (if same j k then some v else find_in j xs)
    unfolding find_in put_in
    find_in-put_in k j v [] = refl
    find_in-put_in k j v (entry ∷ xs) = elim (Bool-cases (same k entry.0)) [
      | inl here ↦
          let at : entry.0 ≡ k = sym (sound k entry.0 here) in rw (here, at) (first (same j k))
      | inr there ↦ elim (Bool-cases (same j entry.0)) [
        | inl hit ↦
            let at : entry.0 ≡ j = sym (sound j entry.0 hit) in rw (there, hit, other at there) refl
        | inr miss ↦ rw (there, miss) (find_in-put_in k j v xs)
      ]
    ]
      where
        first :
            (b : Bool)
            → (if b then some v else find_in j xs)
              ≡ (if b then some v else if b then some entry.1 else find_in j xs)
        first true = refl
        first false = refl

        other : entry.0 ≡ j → same k entry.0 ≡ false → same j k ≡ false
        other at there = elim (Bool-cases (same j k)) [
          | inl hit ↦ ap₂ same (sound j k hit) (sym (sound j k hit) ∙ sym at) ∙ there
          | inr miss ↦ miss
        ]
