-- ===== src/Base/Outcome.antt =====
-- The exceptions that the library code throws, and a result that carries one.
use mathlib.Core.Path.{◌≡◌, refl, ap}
use mathlib.Core.Bool.{Bool, true, false}

pub data Exception : Type 0 where
  invalid_argument out_of_range overflow_error logic_error runtime_error : Exception

pub data Result {ℓ} (Value : Type ℓ) : Type ℓ where
  err : Exception → Result Value
  ok : Value → Result Value

-- `if (test) throw what;`
abbrev pub throw_if : Bool → Exception → Result (Unit {0})
throw_if false what = ok tt
throw_if true what = err what

module _ {ℓ κ} {V : Type ℓ} {W : Type κ} where
  infixl 5 ◌>>=◌ ◌>>◌
  -- The rest of a function, unless an exception has left it.
  abbrev pub ◌>>=◌ : Result V → (V → Result W) → Result W
  err what >>= rest = err what
  ok v >>= rest = rest v

  abbrev pub ◌>>◌ : Result V → Result W → Result W
  first >> rest = first >>= λ _. rest

  -- A successful chain took its result from a successful first step.
  pub >>=-ok :
      (first : Result V) (rest : V → Result W) {w : W}
      → (first >>= rest) ≡ ok w
      → (v : V) × (first ≡ ok v) × (rest v ≡ ok w)
  >>=-ok (err what) rest h = cc
  >>=-ok (ok v) rest h = (v, refl, h)

pub >>-ok {ℓ} :
    {W : Type ℓ} (first : Result (Unit {0})) (rest : Result W) {w : W}
    → (first >> rest) ≡ ok w
    → (first ≡ ok tt) × (rest ≡ ok w)
>>-ok (err what) rest h = cc
>>-ok (ok tt) rest h = (refl, h)

pub throw_if-ok : (b : Bool) (what : Exception) → throw_if b what ≡ ok tt → b ≡ false
throw_if-ok false what h = refl
throw_if-ok true what h = cc

abbrev value_or {ℓ} : {V : Type ℓ} → V → Result V → V
value_or v (err what) = v
value_or v (ok w) = w

pub ok-injective {ℓ} : {V : Type ℓ} {v w : V} → ok v ≡ ok w → v ≡ w
ok-injective {V} {v} h = ap (value_or v) h
