-- ===== src/Controller/Timing/Window/Within.antt =====
-- The loop of prune_recent_acts on ascending times, and the window as a filter.
use mem_sim.Base.{
  ℕ, ◌+◌, ◌-◌, ◌≤◌, ◌<◌, ◌≡◌, refl, inl, inr, ◌&&◌, List, [], ◌∷◌, ◌++◌, arith, ltb, leb,
  if◌then◌else◌, Bool-cases,
}
use mem_sim.Controller.Timing.Window.{prune}

-- Those that a window ending at `clk` still holds.
unfoldable pub within : ℕ → ℕ → List ℕ → List ℕ
within window clk [] = []
within window clk (t ∷ ts) =
    let rest = within window clk ts in if ltb clk (t + window) then t ∷ rest else rest

-- The times ascend from `lo` on, and end by `hi`.
abbrev pub Ascending : ℕ → ℕ → List ℕ → Type 0
Ascending lo hi [] = lo ≤ hi
Ascending lo hi (t ∷ ts) = (lo ≤ t) × Ascending t hi ts

pub Ascending-lower :
    (ts : List ℕ) (lo mid hi : ℕ) → lo ≤ mid → Ascending mid hi ts → Ascending lo hi ts
Ascending-lower [] lo mid hi h a = omega arith
Ascending-lower (t ∷ ts) lo mid hi h a = (omega (arith, a.0), a.1)

pub Ascending-later :
    (ts : List ℕ) (lo hi now : ℕ) → hi ≤ now → Ascending lo hi ts → Ascending lo now ts
Ascending-later [] lo hi now h a = omega arith
Ascending-later (t ∷ ts) lo hi now h a = (a.0, Ascending-later ts t hi now h a.1)

pub Ascending-snoc :
    (ts : List ℕ) (lo hi now : ℕ)
    → hi ≤ now
    → Ascending lo hi ts
    → Ascending lo now (ts ++ now ∷ [])
Ascending-snoc [] lo hi now h a = (omega arith, omega arith)
Ascending-snoc (t ∷ ts) lo hi now h a = (a.0, Ascending-snoc ts t hi now h a.1)

pub prune-Ascending :
    (w clk : ℕ) (ts : List ℕ) (lo hi : ℕ) → Ascending lo hi ts → Ascending lo hi (prune w clk ts)
unfolding prune
prune-Ascending w clk [] lo hi a = a
prune-Ascending w clk (t ∷ ts) lo hi a = elim (Bool-cases (leb t clk && leb w (clk - t))) [
  | inl y ↦ rw y (Ascending-lower (prune w clk ts) lo t hi a.0 (prune-Ascending w clk ts t hi a.1))
  | inr n ↦ rw n a
]

pub within-append :
    (w clk : ℕ) (ts us : List ℕ) → within w clk (ts ++ us) ≡ within w clk ts ++ within w clk us
unfolding within
within-append w clk [] us = refl
within-append w clk (t ∷ ts) us = ground (arith, within-append w clk ts us)

-- What the loop pops is outside every later window.
pub within-prune :
    (w clk now : ℕ) (ts : List ℕ) → clk ≤ now → within w now (prune w clk ts) ≡ within w now ts
unfolding within prune
within-prune w clk now [] h = refl
within-prune w clk now (t ∷ ts) h = ground (arith, within-prune w clk now ts h)

pub within_all :
    (w clk : ℕ) (ts : List ℕ) (lo hi : ℕ) → clk < lo + w → Ascending lo hi ts → within w clk ts ≡ ts
unfolding within
within_all w clk [] lo hi h a = refl
within_all w clk (t ∷ ts) lo hi h a =
    ground (arith, a.0, within_all w clk ts t hi (omega (arith, a.0)) a.1)

-- On ascending times the loop leaves exactly the window.
pub prune-within :
    (w clk : ℕ) (ts : List ℕ) (lo hi : ℕ) → Ascending lo hi ts → prune w clk ts ≡ within w clk ts
unfolding within prune
prune-within w clk [] lo hi a = refl
prune-within w clk (t ∷ ts) lo hi a = elim (Bool-cases (ltb clk (t + w))) [
  | inl y ↦ ground (arith, y, within_all w clk ts t hi (ground (arith, y)) a.1)
  | inr n ↦ ground (arith, n, prune-within w clk ts t hi a.1)
]
