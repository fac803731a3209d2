-- ===== src/Base/Digits.antt =====
-- One digit of a mixed-radix number.
use Prim.Native.Nat.{ℕ, ◌+◌, ◌*◌, ◌/◌, ◌%◌, ◌<◌}
use mathlib.Core.Path.{◌≡◌, ◌∙◌, ap, sym}
use native.Mathlib.Omega.{arith}
use native.Mathlib.Nat.{
  mul-add-mod_self_right, mod-eq_of_lt, add_comm, add-mul-div_right, div-eq_of_lt, zero-add,
}

pub digit-lt : {x a y b : ℕ} → x < a → y < b → x * b + y < a * b
digit-lt h k = grind arith

pub digit-mod : (x : ℕ) {y b : ℕ} → y < b → (x * b + y) % b ≡ y
digit-mod x {y} {b} h = mul-add-mod_self_right x b y ∙ mod-eq_of_lt h

pub digit-div : (x : ℕ) {y b : ℕ} → y < b → (x * b + y) / b ≡ x
digit-div x {y} {b} h =
    ap (λ n. n / b) (add_comm (x * b) y)
    ∙ add-mul-div_right y x (omega arith)
    ∙ ap (λ n. n + x) (div-eq_of_lt h)
    ∙ zero-add x

pub digit_unique : (x u : ℕ) {y v b : ℕ} → y < b → v < b → x * b + y ≡ u * b + v → (x ≡ u) × (y ≡ v)
digit_unique x u {y} {v} {b} h k e = (
  sym (digit-div x h) ∙ ap (λ n. n / b) e ∙ digit-div u k,
  sym (digit-mod x h) ∙ ap (λ n. n % b) e ∙ digit-mod u k,
)
