-- ===== src/Payroll/Calculation.antt =====
-- src/modules/payroll/payroll-calculation.ts. The code's numbers are doubles; here they are exact.
-- Amounts are in hundredths of a rupee and days in 24ths, and a loss of pay is in grains: a grain
-- is so small a part of a hundredth that a month's amount divides by 28, 29, 30 and 31 days and by
-- 24ths of a day.
use igreen_backend.Base.{ℕ, ◌*◌, Option, get_or, if◌then◌else◌, ◌==◌}
use igreen_backend.Base.Int.{ℤ, pos, ◌+ℤ◌, ◌-ℤ◌, ltb_ℤ, leb_ℤ, scale, floor_div, ceil_div}

-- 4 * 3 * 5 * 7 * 29 * 31
abbrev pub month_grains : ℕ
month_grains = 377580

unfoldable pub to_grains : ℤ → ℤ
to_grains a = scale (24 * month_grains) a

-- PF_FLAT_AMOUNT, PF_GROSS_THRESHOLD and ESI_GROSS_CEILING
abbrev pub pf_flat_amount : ℤ
pf_flat_amount = pos 180000

abbrev pub pf_gross_threshold : ℤ
pf_gross_threshold = pos 1500000

abbrev pub esi_gross_ceiling : ℤ
esi_gross_ceiling = pos 2100100

pub record SalaryComponents : Type 0 where
  pub basic : ℤ
  pub hra : ℤ
  pub special_allowance : ℤ
  pub education_allowance : ℤ
  pub travel_allowance : ℤ
  pub other_allowances : ℤ
  pub incentive : Option ℤ
  pub cumulative_incentive : Option ℤ
  pub overtime : Option ℤ
  pub bonus : Option ℤ
  pub green_thanks : Option ℤ

pub record GrossBreakdown : Type 0 where
  pub basic : ℤ
  pub hra : ℤ
  pub special_allowance : ℤ
  pub education_allowance : ℤ
  pub travel_allowance : ℤ
  pub other_allowances : ℤ
  pub incentive : ℤ
  pub cumulative_incentive : ℤ
  pub overtime : ℤ
  pub bonus : ℤ
  pub green_thanks : ℤ
  pub gross : ℤ

unfoldable pub compute_gross : SalaryComponents → GrossBreakdown
compute_gross c =
    let incentive = get_or c.incentive (pos 0) in
    let cumulative_incentive = get_or c.cumulative_incentive (pos 0) in
    let overtime = get_or c.overtime (pos 0) in
    let bonus = get_or c.bonus (pos 0) in
    let green_thanks = get_or c.green_thanks (pos 0) in
    record {
      basic = c.basic;
      hra = c.hra;
      special_allowance = c.special_allowance;
      education_allowance = c.education_allowance;
      travel_allowance = c.travel_allowance;
      other_allowances = c.other_allowances;
      incentive = incentive;
      cumulative_incentive = cumulative_incentive;
      overtime = overtime;
      bonus = bonus;
      green_thanks = green_thanks;
      gross =
          c.basic +ℤ c.hra +ℤ c.special_allowance +ℤ incentive +ℤ overtime +ℤ c.travel_allowance
          +ℤ bonus +ℤ cumulative_incentive +ℤ green_thanks +ℤ c.education_allowance
          +ℤ c.other_allowances;
    }

-- In grains; the quotient is exact for a number of days of a month.
unfoldable pub compute_lop : ℤ → ℕ → ℕ → ℤ
compute_lop total_monthly_salary total_days_in_month leave_days_deducted =
    if total_days_in_month == 0
    then pos 0
    else scale leave_days_deducted
        (floor_div (scale month_grains total_monthly_salary) total_days_in_month)

-- The argument of the next two is in grains.
unfoldable pub compute_pf : ℤ → ℤ
unfolding to_grains
compute_pf gross_minus_lop =
    if leb_ℤ (to_grains pf_gross_threshold) gross_minus_lop then pf_flat_amount else pos 0

-- `Math.ceil(x * 0.0075)` rupees
unfoldable pub compute_esi : ℤ → ℤ
unfolding to_grains
compute_esi gross_minus_lop =
    if ltb_ℤ gross_minus_lop (to_grains esi_gross_ceiling)
    then scale 100 (ceil_div (scale 75 gross_minus_lop) (10000 * 100 * 24 * month_grains))
    else pos 0

pub record NetSalaryInput : Type 0 where
  pub gross : ℤ
  pub pf : ℤ
  pub esi : ℤ
  pub lop : ℤ
  pub tds : ℤ
  pub loan_deduction : ℤ
  pub advance_deduction : ℤ
  pub other_deductions : ℤ

-- In grains.
unfoldable pub compute_net : NetSalaryInput → ℤ
unfolding to_grains
compute_net input =
    to_grains input.gross
    -ℤ to_grains input.pf
    -ℤ to_grains input.esi
    -ℤ input.lop
    -ℤ to_grains input.tds
    -ℤ to_grains input.loan_deduction
    -ℤ to_grains input.advance_deduction
    -ℤ to_grains input.other_deductions
