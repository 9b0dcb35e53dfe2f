-- ===== src/Base/Decimal.antt =====
-- Decimal text of numbers, as template literals and `toFixed(2)` print them.
use Prim.Native.Nat.{ℕ, zero, suc, ◌+◌, ◌*◌, ◌/◌, ◌%◌, ◌<◌}
use Prim.Native.String
use Prim.Native.String.{String}
use mathlib.Core.Path.{◌≡◌, refl, ap, ◌∙◌}
use mathlib.Core.Logic.{inl, inr}
use mathlib.Core.List.{List, [], ◌∷◌}
use native.Mathlib.Omega.{arith}
use client_server_with_lb_de.Base.Tests.{◌=ℕ◌, Bool-cases, if◌then◌else◌}
use client_server_with_lb_de.Base.Int.{ℤ, pos, negsuc}

-- The digits of a number in front of `out`, most significant first; the fuel bounds their number.
digits_from : ℕ → ℕ → List ℕ → List ℕ
digits_from zero n out = out
digits_from (suc fuel) n out =
    let rest = digits_from fuel (n / 10) (n % 10 ∷ out) in
    if n / 10 =ℕ 0 then n % 10 ∷ out else rest

-- As many rounds as the number plus one are enough.
pub digits : ℕ → List ℕ
digits n = digits_from (suc n) n []

-- The number that a list of digits stands for, after `acc`.
pub value_from : ℕ → List ℕ → ℕ
value_from acc [] = acc
value_from acc (d ∷ ds) = value_from (acc * 10 + d) ds

digits_from-value :
    (fuel n : ℕ) (out : List ℕ)
    → n < fuel
    → value_from 0 (digits_from fuel n out) ≡ value_from n out
unfolding digits_from value_from
digits_from-value zero n out h = absurd (omega arith)
digits_from-value (suc fuel) n out h =
    let whole : n / 10 * 10 + n % 10 ≡ n = omega arith in
    let short : n / 10 ≡ 0 → 0 * 10 + n % 10 ≡ n = λ e. omega arith in
    elim (Bool-cases (n / 10 =ℕ 0)) [
      | inl last ↦ rw last (ap (λ m. value_from m out) (short (ground arith)))
      | inr more ↦ rw more (
          digits_from-value fuel (n / 10) (n % 10 ∷ out) (ground arith)
          ∙ ap (λ m. value_from m out) whole)
    ]

pub value-digits : (n : ℕ) → value_from 0 (digits n) ≡ n
unfolding digits value_from
value-digits n = digits_from-value (suc n) n [] (omega arith)

abbrev digit_text : ℕ → String
digit_text d =
    if d =ℕ 0
    then "0"
    else if d =ℕ 1
    then "1"
    else if d =ℕ 2
    then "2"
    else if d =ℕ 3
    then "3"
    else if d =ℕ 4
    then "4"
    else if d =ℕ 5
    then "5"
    else if d =ℕ 6
    then "6"
    else if d =ℕ 7
    then "7"
    else if d =ℕ 8
    then "8"
    else "9"

digits_text : List ℕ → String
digits_text [] = ""
digits_text (d ∷ ds) = String.◌++◌ (digit_text d) (digits_text ds)

-- `${n}`.
unfoldable pub decimal : ℕ → String
unfolding digits_text digits digits_from
decimal n = digits_text (digits n)

two_digits : ℕ → String
two_digits n = String.◌++◌ (digit_text (n / 10)) (digit_text (n % 10))

-- An amount of cents with two decimals.
fixed2 : ℕ → String
unfolding decimal two_digits
fixed2 n = String.◌++◌ (decimal (n / 100)) (String.◌++◌ "." (two_digits (n % 100)))

-- `amount.toFixed(2)`, for an amount in cents.
pub to_fixed2 : ℤ → String
unfolding fixed2
to_fixed2 (pos n) = fixed2 n
to_fixed2 (negsuc n) = String.◌++◌ "-" (fixed2 (suc n))

decimal_404 : decimal 404 ≡ "404"
unfolding decimal
decimal_404 = refl

to_fixed2_example : to_fixed2 (negsuc 129904) ≡ "-1299.05"
unfolding to_fixed2
to_fixed2_example = refl
