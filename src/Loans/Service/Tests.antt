-- ===== src/Loans/Service/Tests.antt =====
-- Two employees of one organization, and their loans.
use igreen_backend.Base.{
  ℕ, zero, suc, ◌≡◌, ◌<◌, refl, ◌↔◌, false, none, some, List, [], ◌∷◌, arith, is_id, get_or,
  or_else,
}
use igreen_backend.Base.Int.{pos, scale, floor_div, ◌+ℤ◌, ◌-ℤ◌}
use igreen_backend.Base.Number.{number, mul, nearest}
use igreen_backend.Base.Calendar.{Clock}
use igreen_backend.Store.Table.Evolution.{Evolves}
use igreen_backend.Store.Staff.{Employee, active}
use igreen_backend.Store.Loan.{LoanStatus, LoanApplication}
use igreen_backend.Store.Db.{Db, empty_db, ok, err, forbidden, RequestingUser}
use igreen_backend.Loans.Amortization.{Power, EmiInstallment, compute_emi_schedule}
use igreen_backend.Loans.Service.{
  CreateLoanDto, ApproveLoanDto, QueryLoanDto, apply, approve, reject, find_all,
}
use igreen_backend.Loans.Service.Approval.{Owns, Lists, approve_iff, find_all-Owns}
use igreen_backend.Loans.Service.Lifecycle.{
  LoanStep, IsPending, approve_call, run_loan_call, run_loan_call-Evolves, throws_unchanged,
}
use igreen_backend.Loans.Service.Deduction.{
  get_active_loan_deduction_for_period, mark_emi_deducted, get_outstanding_balance_for_employee,
}
use igreen_backend.Loans.Service.Deduction.Once.{
  get_active_loan_deduction_for_period-mark_emi_deducted,
}

abbrev clock : Clock
clock = record { now = 1000; get_full_year = λ _. 2025; get_month = λ _. 10 }

-- `Math.pow` as repeated multiplication
power : Power
power b zero = number (pos 1)
power b (suc n) = mul b (power b n)

abbrev worker : ℕ → Employee
worker id = record {
  id = id;
  organization_id = 1;
  deleted_at = none;
  status = active;
  reporting_manager_id = none;
  leave_policy_id = none;
  updated_by_id = none;
  payroll_structure_id = none;
}

abbrev asked : ℕ → ℕ → LoanStatus → LoanApplication
asked id employee_id status = record {
  id = id;
  employee_id = employee_id;
  amount_requested = number (pos 100000);
  amount_approved = none;
  interest_rate = none;
  tenure_months = some 3;
  status = status;
  reason = none;
  approved_by = none;
  disbursed_at = none;
  closed_at = none;
}

abbrev office : Db
office = record empty_db {
  employees = worker 7 ∷ worker 8 ∷ [];
  loans = asked 20 7 LoanStatus.pending ∷ asked 21 8 LoanStatus.active ∷ [];
}

abbrev at_twelve : ApproveLoanDto
at_twelve = record { interest_rate = number (pos 12); amount_approved = none; tenure_months = none }

approve_iff_example :
    ((r : LoanApplication × List EmiInstallment) × ((approve power clock 1 9
          (some 8)
          20
          at_twelve
          office).0
        ≡ ok r))
    ↔ ((is_id (some 8) 7 ≡ false)
        × (LoanStatus.pending ≡ LoanStatus.pending)
        × (0 < get_or (or_else none (some 3)) 0))
approve_iff_example =
    approve_iff power clock 1 9 (some 8) 20 at_twelve office (asked 20 7 LoanStatus.pending) refl

abbrev colleague : RequestingUser
colleague = record { id = 30; employee_id = some 8; permissions = "loan:read" ∷ [] }

abbrev everything : QueryLoanDto
everything = record {
  employee_id = none;
  status = none;
  pagination = record { page = 1; limit = 20 };
}

find_all-Owns_example : Lists (Owns colleague) (find_all 1 colleague everything office).0
find_all-Owns_example = find_all-Owns 1 colleague everything office refl

run_loan_call-Evolves_example :
    Evolves LoanStep IsPending office.loans
      (run_loan_call power clock (approve_call 1 9 (some 8) 20 at_twelve) office).loans
run_loan_call-Evolves_example =
    run_loan_call-Evolves power clock (approve_call 1 9 (some 8) 20 at_twelve) office (omega arith)

abbrev for_oneself : CreateLoanDto
for_oneself = record {
  employee_id = some 7;
  amount_requested = number (pos 5);
  tenure_months = 2;
  reason = none;
}

throws_unchanged_example :
    ((apply 1 colleague for_oneself office).0
        ≡ err (forbidden "You are not permitted to apply for a loan on behalf of another employee")
      → (apply 1 colleague for_oneself office).1 ≡ office)
    × ((approve power clock 1 9 (some 7) 20 at_twelve office).0
          ≡ err (forbidden "You cannot approve your own loan application")
        → (approve power clock 1 9 (some 7) 20 at_twelve office).1 ≡ office)
    × ((reject 1 9 (some 7) 20 none office).0
          ≡ err (forbidden "You cannot reject your own loan application")
        → (reject 1 9 (some 7) 20 none office).1 ≡ office)
throws_unchanged_example =
    throws_unchanged power clock 1 9 colleague (some 7) 20 for_oneself at_twelve none office

-- The office after the approval, with three instalments from December 2025.
abbrev repaying : Db
repaying = (approve power clock 1 9 (some 8) 20 at_twelve office).1

december : (get_active_loan_deduction_for_period repaying 1 7 12 2025).schedule_ids ≡ 100 ∷ []
unfolding approve get_active_loan_deduction_for_period compute_emi_schedule power nearest scale
    floor_div ◌+ℤ◌ ◌-ℤ◌
december = refl

get_active_loan_deduction_for_period-mark_emi_deducted_example :
    get_active_loan_deduction_for_period
      (mark_emi_deducted 2000
        (get_active_loan_deduction_for_period repaying 1 7 12 2025).schedule_ids
        50
        repaying)
      1
      7
      12
      2025
    ≡ record { total_emi = pos 0; schedule_ids = [] }
get_active_loan_deduction_for_period-mark_emi_deducted_example =
    get_active_loan_deduction_for_period-mark_emi_deducted 2000 1 7 12 2025 50 repaying

-- With the last instalment still to be deducted the outstanding balance is reported as nothing.
last_installment_left :
    (get_outstanding_balance_for_employee 1 7
      (mark_emi_deducted 2000 (100 ∷ 101 ∷ []) 50 repaying)).0
    ≡ ok (pos 0)
unfolding get_outstanding_balance_for_employee mark_emi_deducted approve compute_emi_schedule power
    nearest scale floor_div ◌+ℤ◌ ◌-ℤ◌
last_installment_left = refl
