-- ===== src/Loans/Amortization/Months.antt =====
-- When the instalments of a schedule fall due.
use igreen_backend.Base.{
  ℕ, zero, suc, ◌+◌, ◌*◌, ◌≤◌, ◌≡◌, refl, ap, List, [], ◌∷◌, arith, length, ◌==◌,
}
use igreen_backend.Base.Int.{ℤ}
use igreen_backend.Base.Calendar.{days_in_month}
use igreen_backend.Loans.Amortization.{
  Power, money, EmiInstallment, ComputeEmiScheduleInput, Cursor, installment, installments,
  next_month, compute_emi_schedule,
}

-- The months since year 0.
abbrev pub month_index : ℕ → ℕ → ℕ
month_index year month = year * 12 + month

-- The rows are numbered from `at`, and fall in the months after `index`, one a month, each due on
-- the last day of its month.
abbrev pub Monthly : ℕ → ℕ → List EmiInstallment → Type 0
Monthly at index [] = Unit
Monthly at index (row ∷ rows) =
    (row.installment_no ≡ at)
    × (month_index row.emi_year row.emi_month ≡ index + 1)
    × (1 ≤ row.emi_month)
    × (row.emi_month ≤ 12)
    × (row.due_date ≡ record {
      year = row.emi_year;
      month = row.emi_month;
      day = days_in_month row.emi_month row.emi_year;
    })
    × Monthly (at + 1) (index + 1) rows

next_month_index :
    (month year : ℕ)
    → 1 ≤ month
    → month ≤ 12
    → let c = next_month month year in
      (month_index c.year c.month ≡ month_index year month + 1) × (1 ≤ c.month) × (c.month ≤ 12)
unfolding next_month
next_month_index month year h k = ground arith

installments-Monthly :
    (rate emi : ℤ) (n left at : ℕ) (c : Cursor) (balance : ℤ)
    → 1 ≤ c.month
    → c.month ≤ 12
    → Monthly at (month_index c.year c.month) (installments rate emi n left at c balance)
unfolding installments
installments-Monthly rate emi n zero at c balance h k = tt
installments-Monthly rate emi n (suc left) at c balance h k =
    let (at_next, low, high) = next_month_index c.month c.year h k in
    let c' = next_month c.month c.year in
    let row = installment rate emi (at == n) at c' balance in
    (
      refl,
      at_next,
      low,
      high,
      refl,
      rw (← at_next) (
          installments-Monthly rate emi n left (at + 1) c' (money row.outstanding_balance) low
            high),
    )

length-installments :
    (rate emi : ℤ) (n left at : ℕ) (c : Cursor) (balance : ℤ)
    → length (installments rate emi n left at c balance) ≡ left
unfolding installments
length-installments rate emi n zero at c balance = refl
length-installments rate emi n (suc left) at c balance =
    ap suc (length-installments rate emi n left (at + 1) _ _)

-- A schedule has one row for each month of the tenure; they are numbered from 1, the first falls
-- in the month after the start, each next one a month later, and each is due on the last day of
-- its month.
pub compute_emi_schedule-Monthly :
    (pow : Power) (input : ComputeEmiScheduleInput)
    → 1 ≤ input.start_month
    → input.start_month ≤ 12
    → (length (compute_emi_schedule pow input) ≡ input.tenure_months)
      × Monthly 1 (month_index input.start_year input.start_month) (compute_emi_schedule pow input)
unfolding compute_emi_schedule
compute_emi_schedule-Monthly pow input h k = (
  length-installments _ _ _ input.tenure_months _ _ _,
  installments-Monthly _ _ _ input.tenure_months _
      (record { month = input.start_month; year = input.start_year }) _ h k,
)
