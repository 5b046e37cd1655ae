-- ===== src/Common/Decimal.antt =====
-- `format!("{}", n)`: the decimal digits of a number.
use Prim.Native.Nat.{ℕ, zero, suc, ◌+◌, ◌-◌, ◌*◌, ◌/◌, ◌%◌, ◌<◌}
use mathlib.Core.Path.{◌≡◌, sym, ap, ◌∙◌}
use mathlib.Core.Logic.{inl, inr}
use mathlib.Core.Bool.{false}
use mathlib.Core.List.{[], ◌∷◌}
use native.Mathlib.Omega.{arith}
use server_backup.Common.Tests.{ltb, if◌then◌else◌, Bool-cases}
use server_backup.Common.Texts.{Text}

-- The digits of `n` in front of what is already printed. Each round drops a digit, so `n + 1` rounds
-- are enough.
print_digits : ℕ → ℕ → Text → Text
print_digits zero n acc = acc
print_digits (suc fuel) n acc =
    let rest = print_digits fuel (n / 10) ((48 + n % 10) ∷ acc) in
    if ltb n 10 then (48 + n) ∷ acc else rest

unfoldable pub show_nat : ℕ → Text
unfolding print_digits
show_nat n = print_digits (suc n) n []

-- The number that digits stand for, after those that gave `v`.
value_from : ℕ → Text → ℕ
value_from v [] = v
value_from v (c ∷ s) = value_from (v * 10 + (c - 48)) s

value_from-print_digits :
    (fuel n : ℕ) (acc : Text) → n < fuel → value_from 0 (print_digits fuel n acc) ≡ value_from n acc
unfolding value_from print_digits
value_from-print_digits zero n acc h = omega arith
value_from-print_digits (suc fuel) n acc h = elim (Bool-cases (ltb n 10)) [
  | inl e ↦ rw e (ap (λ v. value_from v acc) (small n))
  | inr e ↦ rw e (
      value_from-print_digits fuel (n / 10) ((48 + n % 10) ∷ acc) (fewer (not_small e))
      ∙ ap (λ v. value_from v acc) (last n))
]
  where
    small : (k : ℕ) → 0 + ((48 + k) - 48) ≡ k
    small k = omega arith

    last : (k : ℕ) → k / 10 * 10 + ((48 + k % 10) - 48) ≡ k
    last k = omega arith

    not_small : ltb n 10 ≡ false → 9 < n
    not_small e = ground arith

    fewer : 9 < n → n / 10 < fuel
    fewer g = omega arith

pub show_nat_injective : (m n : ℕ) → show_nat m ≡ show_nat n → m ≡ n
unfolding show_nat value_from
show_nat_injective m n e =
    sym (value_from-print_digits (suc m) m [] (omega arith))
    ∙ ap (value_from 0) e
    ∙ value_from-print_digits (suc n) n [] (omega arith)
