-- ===== src/Loans/Service/Deduction.antt =====
-- The part of LoansService that payroll and the exit process call: which instalments are due,
-- marking them deducted, and what is still outstanding.
pub mod Closing
pub mod Once
use igreen_backend.Base.{
  ℕ, ◌+◌, Bool, true, false, Option, none, some, List, [], ◌∷◌, map, ◌&&◌, ◌==◌, not, is_some, elem,
  if◌then◌else◌,
}
use igreen_backend.Base.Int.{ℤ, pos, ◌+ℤ◌}
use igreen_backend.Base.Pagination.{sort_by}
use igreen_backend.Store.Table.{find_first, find_many, update_where, count}
use igreen_backend.Store.Staff.{Employee}
use igreen_backend.Store.Loan.{LoanStatus, loan_status_eq, LoanApplication, LoanEmiSchedule}
use igreen_backend.Store.Db.{
  Db, HttpError, not_found, Action, ok, pure, gets, or_throw, ◌>>=◌, ◌>>◌, modify,
}
use igreen_backend.Loans.Service.{LoanDeductionForPeriod, emi_order}

-- `employee: { organizationId }`, deleted or not
abbrev pub works_for : ℕ → ℕ → Employee → Bool
works_for organization_id employee_id e =
    e.id == employee_id && e.organization_id == organization_id

-- `loan: { employeeId, status: ACTIVE, employee: { organizationId } }`
abbrev pub is_active_loan_of : Db → ℕ → ℕ → LoanApplication → Bool
is_active_loan_of db organization_id employee_id loan =
    loan.employee_id == employee_id
    && loan_status_eq loan.status LoanStatus.active
    && is_some (find_first (works_for organization_id loan.employee_id) db.employees)

-- the `where` of `getActiveLoanDeductionForPeriod`
abbrev pub is_due : Db → ℕ → ℕ → ℕ → ℕ → LoanEmiSchedule → Bool
is_due db organization_id employee_id month year row =
    row.emi_month == month
    && row.emi_year == year
    && not row.is_deducted
    && is_some (
        find_first
          (λ loan. loan.id == row.loan_id && is_active_loan_of db organization_id employee_id loan)
          db.loans)

-- `rows.reduce((sum, row) => sum + row.emiAmount, 0)`
total_of : ℤ → List LoanEmiSchedule → ℤ
total_of acc [] = acc
total_of acc (row ∷ rows) = total_of (acc +ℤ row.emi_amount) rows

-- The test for no rows returns what the fold gives on them, so it is not written out.
unfoldable pub get_active_loan_deduction_for_period : Db → ℕ → ℕ → ℕ → ℕ → LoanDeductionForPeriod
unfolding total_of
get_active_loan_deduction_for_period db organization_id employee_id month year =
    let rows = find_many (is_due db organization_id employee_id month year) db.emis in
    record { total_emi = total_of (pos 0) rows; schedule_ids = map (λ row. row.id) rows }

-- `[...new Set(ids)]`, which keeps the first of equal ids
dedup_from : List ℕ → List ℕ → List ℕ
dedup_from seen [] = []
dedup_from seen (x ∷ xs) =
    let known = dedup_from seen xs in
    let rest = dedup_from (x ∷ seen) xs in if elem x seen then known else x ∷ rest

-- One round of the loop over the affected loans.
close_if_settled : ℕ → ℕ → Db → Db
close_if_settled now loan_id db =
    let remaining = count (λ row. row.loan_id == loan_id && not row.is_deducted) db.emis in
    if remaining == 0
    then record db {
      loans =
          update_where (λ l. l.id == loan_id && loan_status_eq l.status LoanStatus.active)
            (λ l. record l { status = LoanStatus.closed; closed_at = some now }) db.loans;
    }
    else db

close_settled : ℕ → List ℕ → Db → Db
unfolding close_if_settled
close_settled now [] db = db
close_settled now (loan_id ∷ rest) db = close_settled now rest (close_if_settled now loan_id db)

-- the data of the update in `markEmiDeducted`
abbrev pub deducted : ℕ → ℕ → LoanEmiSchedule → LoanEmiSchedule
deducted now payroll_entry_id row = record row {
  is_deducted = true;
  payroll_entry_id = some payroll_entry_id;
  paid_at = some now;
}

-- the database after the `updateMany` of `markEmiDeducted`
abbrev pub marked : ℕ → List ℕ → ℕ → Db → Db
marked now schedule_ids payroll_entry_id db = record db {
  emis = update_where (λ row. elem row.id schedule_ids) (deducted now payroll_entry_id) db.emis;
}

-- `affectedLoanIds`
affected_loan_ids : List ℕ → Db → List ℕ
unfolding dedup_from
affected_loan_ids schedule_ids db =
    dedup_from [] (map (λ row. row.loan_id) (find_many (λ row. elem row.id schedule_ids) db.emis))

-- On no ids both the update and the loop do nothing, as the early return.
unfoldable pub mark_emi_deducted : ℕ → List ℕ → ℕ → Db → Db
unfolding affected_loan_ids close_settled
mark_emi_deducted now schedule_ids payroll_entry_id db =
    close_settled now (affected_loan_ids schedule_ids db)
      (marked now schedule_ids payroll_entry_id db)

-- `findFirst` in the order of the due months
next_installment : List LoanEmiSchedule → ℕ → Option LoanEmiSchedule
next_installment emis loan_id =
    find_first (λ row. true)
      (sort_by emi_order (find_many (λ row. row.loan_id == loan_id && not row.is_deducted) emis))

abbrev pub balance_after : Option LoanEmiSchedule → ℤ
balance_after none = pos 0
balance_after (some row) = row.outstanding_balance

outstanding_of : List LoanEmiSchedule → ℤ → List LoanApplication → ℤ
unfolding next_installment
outstanding_of emis total [] = total
outstanding_of emis total (loan ∷ loans) =
    outstanding_of emis (total +ℤ balance_after (next_installment emis loan.id)) loans

-- The guard against empty arguments is left to the types.
unfoldable pub get_outstanding_balance_for_employee : ℕ → ℕ → Action ℤ
unfolding outstanding_of
get_outstanding_balance_for_employee organization_id employee_id = do
  employee ← gets (λ db. find_first (works_for organization_id employee_id) db.employees)
  or_throw employee (not_found "Employee not found")
  gets (λ db.
      outstanding_of db.emis (pos 0)
        (find_many (is_active_loan_of db organization_id employee_id) db.loans))
