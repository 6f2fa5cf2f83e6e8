-- ===== src/Store/Loan.antt =====
-- The tables of loan applications and of their instalments. The amounts and the rate of an
-- application and the principal of an instalment are any numbers (Base/Number); the other amounts of
-- an instalment, which the code has rounded, are in hundredths of the currency.
use igreen_backend.Base.{ℕ, Bool, Option, String, ◌==◌}
use igreen_backend.Base.Int.{ℤ}
use igreen_backend.Base.Calendar.{LocalDate}

-- enum LoanStatus
pub data LoanStatus : Type 0 where
  pending approved rejected active closed : LoanStatus

abbrev pub loan_status_rank : LoanStatus → ℕ
loan_status_rank pending = 0
loan_status_rank approved = 1
loan_status_rank rejected = 2
loan_status_rank active = 3
loan_status_rank closed = 4

-- `===` on the statuses
abbrev pub loan_status_eq : LoanStatus → LoanStatus → Bool
loan_status_eq a b = loan_status_rank a == loan_status_rank b

-- model LoanApplication
pub record LoanApplication : Type 0 where
  pub id : ℕ
  pub employee_id : ℕ
  pub amount_requested : ℤ
  pub amount_approved : Option ℤ
  pub interest_rate : Option ℤ
  pub tenure_months : Option ℕ
  pub status : LoanStatus
  pub reason : Option String
  pub approved_by : Option ℕ
  pub disbursed_at : Option ℕ
  pub closed_at : Option ℕ

-- model LoanEmiSchedule
pub record LoanEmiSchedule : Type 0 where
  pub id : ℕ
  pub loan_id : ℕ
  pub emi_month : ℕ
  pub emi_year : ℕ
  pub emi_amount : ℤ
  pub principal : ℤ
  pub interest : ℤ
  pub outstanding_balance : ℤ
  pub is_deducted : Bool
  pub payroll_entry_id : Option ℕ
  pub due_date : LocalDate
  pub paid_at : Option ℕ
