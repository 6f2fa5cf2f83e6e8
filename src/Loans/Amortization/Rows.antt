-- ===== src/Loans/Amortization/Rows.antt =====
-- The rows of a schedule against the formulas at the head of loan-amortization.ts.
use igreen_backend.Base.{
  ℕ, zero, suc, ◌+◌, ◌-◌, ◌*◌, ◌/◌, subst, ◌≤◌, ◌≡◌, refl, true, false, if◌then◌else◌, Bool-cases,
  inl, inr, List, [], ◌∷◌, arith, ◌==◌,
}
use igreen_backend.Base.Int.{ℤ, pos, negsuc, scale, scale_parts, floor_div, ◌+ℤ◌, ◌≤ℤ◌}
use igreen_backend.Base.Number.{unit, number, add, sub, mul, div, is_zero}
use igreen_backend.Loans.Amortization.{
  Power, EmiInstallment, ComputeEmiScheduleInput, Cursor, round_money, money, compute_level_emi,
  next_month, installment, installments, compute_emi_schedule,
}

-- The whole number `k` is nearest to 100 times the value, a product of doubles; of two the upper one.
abbrev pub IsHundredths : ℤ → ℤ → Type 0
IsHundredths k value =
    let twice = scale 2 (mul value (number (pos 100))) +ℤ pos unit in
    (scale (2 * unit) k ≤ℤ twice) × (twice +ℤ pos 1 ≤ℤ scale (2 * unit) k +ℤ pos (2 * unit))

abbrev pub hundredths : ℤ → ℤ
hundredths k = div (number k) (number (pos 100))

floor_div-bounds :
    (a : ℤ) (d : ℕ)
    → 1 ≤ d
    → (scale d (floor_div a d) ≤ℤ a) × (a +ℤ pos 1 ≤ℤ scale d (floor_div a d) +ℤ pos d)
unfolding scale floor_div ◌+ℤ◌
floor_div-bounds (pos n) d h =
    (grind (arith, scale_parts d (pos (n / d))), grind (arith, scale_parts d (pos (n / d))))
floor_div-bounds (negsuc n) d h =
    (grind (arith, scale_parts d (negsuc (n / d))), grind (arith, scale_parts d (negsuc (n / d))))

round_money-IsHundredths : (value : ℤ) → IsHundredths (round_money value) value
unfolding round_money
round_money-IsHundredths value = floor_div-bounds _ (2 * unit) (omega arith)

-- The interest is the rate on the balance, rounded. The amount is the level one, and what it leaves
-- after the interest, rounded, is the principal; the balance after it is rounded.
abbrev pub IsInner : ℤ → ℤ → ℤ → EmiInstallment → Type 0
IsInner rate emi balance row =
    IsHundredths row.interest (mul balance rate)
    × (row.emi_amount ≡ emi)
    × ((paid : ℤ) × (row.principal ≡ hundredths paid)
        × IsHundredths paid (sub (hundredths emi) (hundredths row.interest)))
    × IsHundredths row.outstanding_balance (sub balance row.principal)

-- The last row repays the balance, with the interest on it, and leaves none.
abbrev pub IsLast : ℤ → ℤ → EmiInstallment → Type 0
IsLast rate balance row =
    IsHundredths row.interest (mul balance rate)
    × (row.principal ≡ balance)
    × IsHundredths row.emi_amount (add balance (hundredths row.interest))
    × (row.outstanding_balance ≡ pos 0)

-- The rows from a balance on.
abbrev pub Amortizes : ℤ → ℤ → ℤ → List EmiInstallment → Type 0
Amortizes rate emi balance [] = ⊥
Amortizes rate emi balance (row ∷ []) = IsLast rate balance row
Amortizes rate emi balance (row ∷ next ∷ rows) =
    IsInner rate emi balance row
    × Amortizes rate emi (hundredths row.outstanding_balance) (next ∷ rows)

-- The level amount of a month: P / n without interest, and P r (1 + r)^n / ((1 + r)^n - 1) with it,
-- rounded.
abbrev pub IsLevel : Power → ℤ → ℤ → ℕ → ℤ → Type 0
IsLevel pow principal rate months emi =
    let factor = pow (add (number (pos 1)) rate) months in
    IsHundredths emi (
      if is_zero rate
      then div principal (number (pos months))
      else div (mul (mul principal rate) factor) (sub factor (number (pos 1))))

compute_level_emi-IsLevel :
    (pow : Power) (principal rate : ℤ) (months : ℕ)
    → IsLevel pow principal rate months (compute_level_emi pow principal rate months)
unfolding compute_level_emi
compute_level_emi-IsLevel pow principal rate months =
    let factor = pow (add (number (pos 1)) rate) months in
    elim (Bool-cases (is_zero rate)) [
      | inl e ↦ rw e (round_money-IsHundredths (div principal (number (pos months))))
      | inr e ↦ rw e (
          round_money-IsHundredths
            (div (mul (mul principal rate) factor) (sub factor (number (pos 1)))))
    ]

installment-IsLast :
    (rate emi : ℤ) (at : ℕ) (c : Cursor) (balance : ℤ)
    → IsLast rate balance (installment rate emi true at c balance)
unfolding installment money
installment-IsLast rate emi at c balance = (
  round_money-IsHundredths (mul balance rate),
  refl,
  round_money-IsHundredths (add balance (hundredths (round_money (mul balance rate)))),
  refl,
)

installment-IsInner :
    (rate emi : ℤ) (at : ℕ) (c : Cursor) (balance : ℤ)
    → IsInner rate emi balance (installment rate emi false at c balance)
unfolding installment money
installment-IsInner rate emi at c balance =
    let share = sub (hundredths emi) (hundredths (round_money (mul balance rate))) in
    (
      round_money-IsHundredths (mul balance rate),
      refl,
      (round_money share, refl, round_money-IsHundredths share),
      round_money-IsHundredths (sub balance (hundredths (round_money share))),
    )

installments-Amortizes :
    (rate emi : ℤ) (months left at : ℕ) (c : Cursor) (balance : ℤ)
    → at + left ≡ months
    → Amortizes rate emi balance (installments rate emi months (suc left) at c balance)
unfolding installments money
installments-Amortizes rate emi months zero at c balance h =
    let is_last : true ≡ (at == months) = ground arith in
    subst (λ t. IsLast rate balance (installment rate emi t at (next_month c.month c.year) balance))
      is_last (installment-IsLast rate emi at (next_month c.month c.year) balance)
installments-Amortizes rate emi months (suc left) at c balance h =
    let c' = next_month c.month c.year in
    let is_inner : false ≡ (at == months) = ground arith in
    (
      subst (λ t. IsInner rate emi balance (installment rate emi t at c' balance)) is_inner
          (installment-IsInner rate emi at c' balance),
      installments-Amortizes rate emi months left (at + 1) c'
          (money (installment rate emi (at == months) at c' balance).outstanding_balance)
          (omega (arith, h)),
    )

-- A schedule of at least one month, at a monthly rate of the annual one by 12 and by 100, follows the
-- formulas, on doubles. There is a level amount, P / n or P r (1 + r)^n / ((1 + r)^n - 1), rounded.
-- The balance begins with the principal. In each row the interest is the rate on the balance,
-- rounded. Each row but the last has the level amount, its principal is the amount without the
-- interest, rounded, and the balance without that principal, rounded, goes to the next row. The last
-- row's principal is the balance, its amount that and the interest, rounded, and its balance is 0.
pub compute_emi_schedule-Amortizes :
    (pow : Power) (input : ComputeEmiScheduleInput)
    → 1 ≤ input.tenure_months
    → let rate = div (div input.annual_interest_rate (number (pos 12))) (number (pos 100)) in
      (emi : ℤ) × IsLevel pow input.principal rate input.tenure_months emi
      × Amortizes rate emi input.principal (compute_emi_schedule pow input)
unfolding compute_emi_schedule
compute_emi_schedule-Amortizes pow input h =
    let rate = div (div input.annual_interest_rate (number (pos 12))) (number (pos 100)) in
    let emi = compute_level_emi pow input.principal rate input.tenure_months in
    let start : Cursor = record { month = input.start_month; year = input.start_year } in
    let rows =
      installments-Amortizes rate emi input.tenure_months (input.tenure_months - 1) 1 start
        input.principal (omega (arith, h)) in
    let months : suc (input.tenure_months - 1) ≡ input.tenure_months = omega (arith, h) in
    (
      emi,
      compute_level_emi-IsLevel pow input.principal rate input.tenure_months,
      subst
          (λ n.
            Amortizes rate emi input.principal
              (installments rate emi input.tenure_months n 1 start input.principal))
          months rows,
    )
