-- ===== src/Loans/Amortization.antt =====
-- The amortization engine (src/modules/loans/loan-amortization.ts) over the numbers of JavaScript
-- (Base/Number). `roundMoney` gives the number of hundredths k, which stands for the double nearest
-- to k / 100; the columns that the code rounds are held so. `Math.pow`, whose value the language
-- leaves to the engine, is a parameter.
pub mod Months
pub mod Rows
mod Tests
use igreen_backend.Base.{ℕ, zero, suc, ◌+◌, ◌^◌, Bool, List, [], ◌∷◌, leb, ◌==◌, if◌then◌else◌}
use igreen_backend.Base.Int.{ℤ, pos}
use igreen_backend.Base.Number.{number, add, sub, mul, div, math_round, is_zero}
use igreen_backend.Base.Calendar.{LocalDate, days_in_month}

-- MONEY_DECIMALS
abbrev pub money_decimals : ℕ
money_decimals = 2

abbrev pub months_per_year : ℕ
months_per_year = 12

abbrev pub percent_divisor : ℕ
percent_divisor = 100

abbrev pub first_month : ℕ
first_month = 1

abbrev pub last_month : ℕ
last_month = 12

-- The principal and the rate are any numbers.
pub record ComputeEmiScheduleInput : Type 0 where
  pub principal : ℤ
  pub annual_interest_rate : ℤ
  pub tenure_months : ℕ
  pub start_month : ℕ
  pub start_year : ℕ

-- The amount, the interest and the balance are in hundredths; the principal of a loan over one month
-- is the loan's, which no one has rounded.
pub record EmiInstallment : Type 0 where
  pub installment_no : ℕ
  pub emi_month : ℕ
  pub emi_year : ℕ
  pub emi_amount : ℤ
  pub principal : ℤ
  pub interest : ℤ
  pub outstanding_balance : ℤ
  pub due_date : LocalDate

-- a month of a year: the loop's `cursor`
pub record Cursor : Type 0 where
  pub month : ℕ
  pub year : ℕ

pub next_month : ℕ → ℕ → Cursor
next_month month year =
    if leb last_month month
    then record { month = first_month; year = year + 1 }
    else record { month = month + 1; year = year }

last_day_of_month : ℕ → ℕ → LocalDate
last_day_of_month month year = record { year = year; month = month; day = days_in_month month year }

-- `Math.pow(10, MONEY_DECIMALS)`, which is exact
abbrev pub money_factor : ℕ
money_factor = 10 ^ money_decimals

-- `Math.round(value * factor)`: the value of `roundMoney` in hundredths
pub round_money : ℤ → ℤ
round_money value = math_round (mul value (number (pos money_factor)))

-- the double that a number of hundredths stands for: `… / factor` in `roundMoney`
pub money : ℤ → ℤ
money hundredths = div (number hundredths) (number (pos money_factor))

-- `Math.pow` at an integer exponent
abbrev pub Power : Type 0
Power = ℤ → ℕ → ℤ

compute_level_emi : Power → ℤ → ℤ → ℕ → ℤ
unfolding round_money
compute_level_emi pow principal monthly_rate tenure_months =
    if is_zero monthly_rate
    then round_money (div principal (number (pos tenure_months)))
    else let factor = pow (add (number (pos 1)) monthly_rate) tenure_months in
      let emi = div (mul (mul principal monthly_rate) factor) (sub factor (number (pos 1))) in
      round_money emi

-- One round of the loop: the row that is pushed.
installment : ℤ → ℤ → Bool → ℕ → Cursor → ℤ → EmiInstallment
unfolding round_money money last_day_of_month
installment monthly_rate emi is_last_installment installment_no cursor outstanding =
    let interest = round_money (mul outstanding monthly_rate) in
    let installment_principal =
      if is_last_installment
      then outstanding
      else money (round_money (sub (money emi) (money interest))) in
    record {
      installment_no = installment_no;
      emi_month = cursor.month;
      emi_year = cursor.year;
      emi_amount =
          if is_last_installment
          then round_money (add installment_principal (money interest))
          else emi;
      principal = installment_principal;
      interest = interest;
      outstanding_balance =
          if is_last_installment
          then pos 0
          else round_money (sub outstanding installment_principal);
      due_date = last_day_of_month cursor.month cursor.year;
    }

-- The loop `for (installmentNo = 1; installmentNo <= tenureMonths; installmentNo += 1)`, with the
-- number of rounds that are left.
installments : ℤ → ℤ → ℕ → ℕ → ℕ → Cursor → ℤ → List EmiInstallment
unfolding next_month installment money
installments monthly_rate emi tenure_months zero installment_no cursor outstanding = []
installments monthly_rate emi tenure_months (suc left) installment_no cursor outstanding =
    let cursor' = next_month cursor.month cursor.year in
    let row =
      installment monthly_rate emi (installment_no == tenure_months) installment_no cursor'
        outstanding in
    row
    ∷ installments monthly_rate emi tenure_months left (installment_no + 1) cursor'
        (money row.outstanding_balance)

-- annualInterestRate / MONTHS_PER_YEAR / PERCENT_DIVISOR
abbrev pub monthly_rate_of : ℤ → ℤ
monthly_rate_of annual_interest_rate =
    div (div annual_interest_rate (number (pos months_per_year))) (number (pos percent_divisor))

unfoldable pub compute_emi_schedule : Power → ComputeEmiScheduleInput → List EmiInstallment
unfolding compute_level_emi installments
compute_emi_schedule pow input =
    let monthly_rate = monthly_rate_of input.annual_interest_rate in
    installments monthly_rate
      (compute_level_emi pow input.principal monthly_rate input.tenure_months) input.tenure_months
      input.tenure_months 1 (record { month = input.start_month; year = input.start_year })
      input.principal
