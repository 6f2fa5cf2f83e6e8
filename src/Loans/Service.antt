-- ===== src/Loans/Service.antt =====
-- class LoansService (src/modules/loans/loans.service.ts). A response is the row that it is
-- made from; the employee's names, which `toLoanResponse` joins to it, are left out.
pub mod Deduction
pub mod Lifecycle
pub mod Approval
mod Tests
use Prim.Native.String.{◌++◌ as str_append}
use igreen_backend.Base.{
  ℕ, suc, ◌+◌, ◌*◌, Bool, true, false, Option, none, some, String, List, [], ◌∷◌, ◌++◌, map, length,
  ◌&&◌, ◌==◌, not, is_some, is_id, opt_eq, opt_matches, or_else, get_or, has_text, elem,
  if◌then◌else◌,
}
use igreen_backend.Base.Int.{ℤ, pos, ◌+ℤ◌, sum}
use igreen_backend.Base.Calendar.{Clock}
use igreen_backend.Base.Pagination.{PaginationDto, PaginatedResult, newest_page, sort_by, paginate}
use igreen_backend.Store.Table.{find_first, find_many, update_where, create, count}
use igreen_backend.Store.Staff.{Employee}
use igreen_backend.Store.Loan.{LoanStatus, loan_status_eq, LoanApplication, LoanEmiSchedule}
use igreen_backend.Store.Db.{
  Db, HttpError, bad_request, forbidden, not_found, Action, Result, ok, err, pure, throw, gets,
  or_throw, ◌>>=◌, ◌>>◌, throw_if, modify, fresh_id, RequestingUser, has_permission, is_employee_of,
  in_organization,
}
use igreen_backend.Loans.Amortization.{Power, EmiInstallment, compute_emi_schedule}

abbrev pub loan_approve_permission : String
loan_approve_permission = "loan:approve"

abbrev pub has_approve_permission : RequestingUser → Bool
has_approve_permission = has_permission loan_approve_permission

pub record CreateLoanDto : Type 0 where
  pub employee_id : Option ℕ
  pub amount_requested : ℤ
  pub tenure_months : ℕ
  pub reason : Option String

pub record ApproveLoanDto : Type 0 where
  pub interest_rate : ℤ
  pub amount_approved : Option ℤ
  pub tenure_months : Option ℕ

pub record QueryLoanDto : Type 0 where
  pub employee_id : Option ℕ
  pub status : Option LoanStatus
  pub pagination : PaginationDto

pub record LoanDeductionForPeriod : Type 0 where
  pub total_emi : ℤ
  pub schedule_ids : List ℕ

-- `where: { id, employee: { organizationId, deletedAt: null } }`
abbrev pub is_loan_of : Db → ℕ → ℕ → LoanApplication → Bool
is_loan_of db organization_id id loan =
    loan.id == id && in_organization db organization_id loan.employee_id

get_loan_or_throw : ℕ → ℕ → Action LoanApplication
get_loan_or_throw organization_id id = do
  found ← gets (λ db. find_first (is_loan_of db organization_id id) db.loans)
  or_throw found (not_found "Loan application not found")

assert_visible : LoanApplication → RequestingUser → Action (Unit {0})
assert_visible loan current_user =
    throw_if
      (not (has_approve_permission current_user)
        && not (opt_eq (some loan.employee_id) current_user.employee_id))
      (forbidden "You can only view your own loan applications")

-- the data of the row that `apply` creates
abbrev pub new_loan : ℕ → ℕ → CreateLoanDto → LoanApplication
new_loan id employee_id dto = record {
  id = id;
  employee_id = employee_id;
  amount_requested = dto.amount_requested;
  amount_approved = none;
  interest_rate = none;
  tenure_months = some dto.tenure_months;
  status = LoanStatus.pending;
  reason = dto.reason;
  approved_by = none;
  disbursed_at = none;
  closed_at = none;
}

pub apply : ℕ → RequestingUser → CreateLoanDto → Action LoanApplication
apply organization_id current_user dto = do
  target_employee_id ←
      or_throw (or_else dto.employee_id current_user.employee_id)
        (bad_request "No employee record found for the current user")
  throw_if
      (is_some dto.employee_id
        && not (opt_eq dto.employee_id current_user.employee_id)
        && not (has_approve_permission current_user))
      (forbidden "You are not permitted to apply for a loan on behalf of another employee")
  employee ←
      gets (λ db. find_first (is_employee_of organization_id target_employee_id) db.employees)
  or_throw employee (not_found "Employee not found")
  id ← fresh_id
  let loan = new_loan id target_employee_id dto
  modify (λ db. record db { loans = create loan db.loans })
  pure loan

-- the `where` of `findAll`
abbrev pub is_listed : Db → ℕ → Option ℕ → Option LoanStatus → LoanApplication → Bool
is_listed db organization_id scoped_employee_id status loan =
    in_organization db organization_id loan.employee_id
    && opt_matches ◌==◌ scoped_employee_id loan.employee_id
    && opt_matches loan_status_eq status loan.status

-- `findAll` from its guard on
abbrev pub list_scoped : Bool → Option ℕ → ℕ → QueryLoanDto → Db → PaginatedResult LoanApplication
list_scoped can_see_all scoped_employee_id organization_id query db =
    let listed =
      find_many (is_listed db organization_id scoped_employee_id query.status) db.loans in
    if not can_see_all && not (is_some scoped_employee_id)
    then paginate [] 0 query.pagination
    else newest_page listed query.pagination

pub find_all : ℕ → RequestingUser → QueryLoanDto → Action (PaginatedResult LoanApplication)
find_all organization_id current_user query =
    let can_see_all = has_approve_permission current_user in
    let scoped_employee_id = if can_see_all then query.employee_id else current_user.employee_id in
    gets (list_scoped can_see_all scoped_employee_id organization_id query)

pub find_one : ℕ → RequestingUser → ℕ → Action LoanApplication
unfolding get_loan_or_throw assert_visible
find_one organization_id current_user id = do
  loan ← get_loan_or_throw organization_id id
  assert_visible loan current_user
  pure loan

-- the rows of `loanEmiSchedule.createMany`; the database numbers them from the first argument
pub emi_rows : ℕ → ℕ → List EmiInstallment → List LoanEmiSchedule
emi_rows next loan_id [] = []
emi_rows next loan_id (installment ∷ rest) =
    record {
      id = next;
      loan_id = loan_id;
      emi_month = installment.emi_month;
      emi_year = installment.emi_year;
      emi_amount = installment.emi_amount;
      principal = installment.principal;
      interest = installment.interest;
      outstanding_balance = installment.outstanding_balance;
      is_deducted = false;
      payroll_entry_id = none;
      due_date = installment.due_date;
      paid_at = none;
    }
    ∷ emi_rows (next + 1) loan_id rest

-- the data of the update in `approve`
abbrev pub activated : ℕ → ℕ → ℤ → ℤ → ℕ → LoanApplication → LoanApplication
activated user_id now rate amount_approved tenure_months loan = record loan {
  amount_approved = some amount_approved;
  interest_rate = some rate;
  tenure_months = some tenure_months;
  approved_by = some user_id;
  disbursed_at = some now;
  status = LoanStatus.active;
}

pub approve :
    Power
    → Clock
    → ℕ
    → ℕ
    → Option ℕ
    → ℕ
    → ApproveLoanDto
    → Action (LoanApplication × List EmiInstallment)
unfolding get_loan_or_throw emi_rows
approve pow clock organization_id user_id approver_employee_id id dto = do
  loan ← get_loan_or_throw organization_id id
  throw_if (is_id approver_employee_id loan.employee_id)
      (forbidden "You cannot approve your own loan application")
  throw_if (not (loan_status_eq loan.status LoanStatus.pending))
      (bad_request "Only a PENDING loan application can be approved")
  let amount_approved = get_or dto.amount_approved loan.amount_requested
  let tenure_months = get_or (or_else dto.tenure_months loan.tenure_months) 0
  throw_if (tenure_months == 0)
      (bad_request "Tenure months must be provided (none was set on the application)")
  let schedule = compute_emi_schedule pow (record {
    principal = amount_approved;
    annual_interest_rate = dto.interest_rate;
    tenure_months = tenure_months;
    start_month = clock.get_month clock.now + 1;
    start_year = clock.get_full_year clock.now;
  })
  let update = activated user_id clock.now dto.interest_rate amount_approved tenure_months
  modify (λ db. record db {
    loans = update_where (λ l. l.id == id) update db.loans;
    emis = db.emis ++ emi_rows db.next_id id schedule;
    next_id = db.next_id + length schedule;
  })
  pure (update loan, schedule)

pub rejection_reason : Option String → Option String → Option String
rejection_reason given old =
    if has_text given
    then (if has_text old
        then some
            (str_append (get_or old "") (str_append "\n\nRejection reason: " (get_or given "")))
        else some (str_append "Rejection reason: " (get_or given "")))
    else old

pub reject : ℕ → ℕ → Option ℕ → ℕ → Option String → Action LoanApplication
unfolding get_loan_or_throw rejection_reason
reject organization_id user_id approver_employee_id id dto_reason = do
  loan ← get_loan_or_throw organization_id id
  throw_if (is_id approver_employee_id loan.employee_id)
      (forbidden "You cannot reject your own loan application")
  throw_if (not (loan_status_eq loan.status LoanStatus.pending))
      (bad_request "Only a PENDING loan application can be rejected")
  let reason = rejection_reason dto_reason loan.reason
  let update = λ (l : LoanApplication). record l {
    status = LoanStatus.rejected;
    approved_by = some user_id;
    reason = reason;
  }
  modify (λ db. record db { loans = update_where (λ l. l.id == id) update db.loans })
  pure (update loan)

-- `orderBy: [{ emiYear: 'asc' }, { emiMonth: 'asc' }]`, for months from 1 to 12
abbrev pub emi_order : LoanEmiSchedule → ℕ
emi_order row = row.emi_year * 13 + row.emi_month

abbrev pub numbered {ℓ} : {A : Type ℓ} → ℕ → List A → List (ℕ × A)
numbered n [] = []
numbered n (x ∷ xs) = (n, x) ∷ numbered (n + 1) xs

pub get_emi_schedule : ℕ → RequestingUser → ℕ → Action (List (ℕ × LoanEmiSchedule))
unfolding get_loan_or_throw assert_visible
get_emi_schedule organization_id current_user id = do
  loan ← get_loan_or_throw organization_id id
  assert_visible loan current_user
  gets (λ db. numbered 1 (sort_by emi_order (find_many (λ row. row.loan_id == id) db.emis)))
