-- ===== src/Store/Payroll.antt =====
-- The tables of payroll, of incentives and of green thanks. Amounts are in hundredths of a rupee,
-- but the net salary is in grains (see Payroll/Calculation), and days are counted in 24ths.
use igreen_backend.Base.{ℕ, Bool, Option, String, List, ◌==◌}
use igreen_backend.Base.Int.{ℤ}

-- A value of a JSON object that the code tells apart by `typeof value === 'number'`.
pub data JsonValue : Type 0 where
  number : ℤ → JsonValue
  other : JsonValue

-- model PayrollStructure; its JSON column is none when it holds no object
pub record PayrollStructure : Type 0 where
  pub id : ℕ
  pub components : List (String × JsonValue)

-- enum PayrollRunStatus
pub data PayrollRunStatus : Type 0 where
  draft processing completed approved disbursed : PayrollRunStatus

abbrev pub run_status_rank : PayrollRunStatus → ℕ
run_status_rank draft = 0
run_status_rank processing = 1
run_status_rank completed = 2
run_status_rank approved = 3
run_status_rank disbursed = 4

-- `===` on the statuses
abbrev pub run_status_eq : PayrollRunStatus → PayrollRunStatus → Bool
run_status_eq a b = run_status_rank a == run_status_rank b

-- model PayrollRun
pub record PayrollRun : Type 0 where
  pub id : ℕ
  pub organization_id : ℕ
  pub month : ℕ
  pub year : ℕ
  pub status : PayrollRunStatus
  pub initiated_by : Option ℕ
  pub processed_at : Option ℕ
  pub approved_at : Option ℕ
  pub disbursed_at : Option ℕ

-- model PayrollEntry
pub record PayrollEntry : Type 0 where
  pub id : ℕ
  pub payroll_run_id : ℕ
  pub employee_id : ℕ
  pub working_days : ℕ
  pub present_days : ℕ
  pub lop_days : ℕ
  pub basic_salary : ℤ
  pub hra : ℤ
  pub special_allowance : ℤ
  pub education_allowance : ℤ
  pub other_allowances : ℤ
  pub incentive_amount : ℤ
  pub cumulative_incentive : ℤ
  pub overtime_amount : ℤ
  pub travel_allowance : ℤ
  pub bonus : ℤ
  pub green_thanks_amount : ℤ
  pub gross_salary : ℤ
  pub pf_employee : ℤ
  pub pf_employer : ℤ
  pub esi_employee : ℤ
  pub esi_employer : ℤ
  pub professional_tax : ℤ
  pub tds : ℤ
  pub loan_deduction : ℤ
  pub advance_deduction : ℤ
  pub other_deductions : ℤ
  pub net_salary : ℤ
  pub remarks : Option String

-- model IncentiveLedger
pub record IncentiveLedger : Type 0 where
  pub id : ℕ
  pub employee_id : ℕ
  pub total_amount : ℤ
  pub hold_amount : ℤ
  pub release_amount : ℤ
  pub payroll_month : ℕ
  pub payroll_year : ℕ
  pub is_held : Bool
  pub is_released : Bool
  pub is_deducted : Bool
  pub payroll_entry_id : Option ℕ
  pub released_at : Option ℕ

-- the values of the column `status` of model GreenThanks
pub data GreenThanksStatus : Type 0 where
  pending approved rejected : GreenThanksStatus

abbrev pub green_thanks_status_rank : GreenThanksStatus → ℕ
green_thanks_status_rank pending = 0
green_thanks_status_rank approved = 1
green_thanks_status_rank rejected = 2

-- `===` on the statuses
abbrev pub green_thanks_status_eq : GreenThanksStatus → GreenThanksStatus → Bool
green_thanks_status_eq a b = green_thanks_status_rank a == green_thanks_status_rank b

-- model GreenThanks
pub record GreenThanks : Type 0 where
  pub id : ℕ
  pub from_employee_id : ℕ
  pub to_employee_id : ℕ
  pub points : ℕ
  pub reason : String
  pub approved_by : Option ℕ
  pub status : GreenThanksStatus
  pub awarded_at : Option ℕ
  pub payroll_month : Option ℕ
  pub payroll_year : Option ℕ
  pub is_paid : Bool
  pub created_at : ℕ

-- model GreenThanksConfig
pub record GreenThanksConfig : Type 0 where
  pub id : ℕ
  pub organization_id : ℕ
  pub inr_per_point : ℕ
  pub quarterly_limit_points : ℕ
  pub is_payroll_linked : Bool
  pub effective_from : ℕ
