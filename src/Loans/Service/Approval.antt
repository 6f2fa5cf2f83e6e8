-- ===== src/Loans/Service/Approval.antt =====
-- When an approval succeeds, and who may see which application.
use igreen_backend.Base.{
  ℕ, ◌+◌, ◌<◌, ◌≡◌, false, Option, none, some, List, arith, is_id, get_or, or_else, All, ◌↔◌,
}
use igreen_backend.Base.Calendar.{Clock}
use igreen_backend.Base.Pagination.{PaginatedResult, All-newest_page}
use igreen_backend.Store.Table.{find_first, find_many, find_many-All}
use igreen_backend.Store.Loan.{LoanStatus, LoanApplication}
use igreen_backend.Store.Db.{Db, Result, ok, err, RequestingUser}
use igreen_backend.Loans.Amortization.{
  Power, EmiInstallment, ComputeEmiScheduleInput, compute_emi_schedule,
}
use igreen_backend.Loans.Service.{
  ApproveLoanDto, QueryLoanDto, is_loan_of, is_listed, list_scoped, approve, activated, find_all,
  has_approve_permission,
}

-- the schedule that `approve` computes for a loan
abbrev pub schedule_for : Clock → ApproveLoanDto → LoanApplication → ComputeEmiScheduleInput
schedule_for clock dto loan = record {
  principal = get_or dto.amount_approved loan.amount_requested;
  annual_interest_rate = dto.interest_rate;
  tenure_months = get_or (or_else dto.tenure_months loan.tenure_months) 0;
  start_month = clock.get_month clock.now + 1;
  start_year = clock.get_full_year clock.now;
}

-- An application that is found is approved exactly when the approver is not the applicant, it is
-- pending, and a tenure of at least a month is given or was asked for.
pub approve_iff :
    (pow : Power) (clock : Clock) (org user : ℕ) (approver : Option ℕ) (id : ℕ)
    (dto : ApproveLoanDto) (db : Db) (loan : LoanApplication)
    → find_first (is_loan_of db org id) db.loans ≡ some loan
    → ((r : LoanApplication × List EmiInstallment) × ((approve pow clock org user approver id dto
            db).0
          ≡ ok r))
      ↔ ((is_id approver loan.employee_id ≡ false)
          × (loan.status ≡ LoanStatus.pending)
          × (0 < get_or (or_else dto.tenure_months loan.tenure_months) 0))
unfolding approve
approve_iff pow clock org user approver id dto db loan found = (
  λ h. ground arith,
  λ h. (
    (
      activated user clock.now dto.interest_rate (get_or dto.amount_approved loan.amount_requested)
          (get_or (or_else dto.tenure_months loan.tenure_months) 0) loan,
      compute_emi_schedule pow (schedule_for clock dto loan),
    ),
    ground arith,
  ),
)

abbrev pub Owns : RequestingUser → LoanApplication → Type 0
Owns user loan = user.employee_id ≡ some loan.employee_id

-- What a listing returns.
abbrev pub Lists : (LoanApplication → Type 0) → Result (PaginatedResult LoanApplication) → Type 0
Lists P (ok page) = All P page.data_rows
Lists P (err e) = ⊥

list_scoped_own :
    (scoped : Option ℕ) (org : ℕ) (query : QueryLoanDto) (db : Db)
    → All (λ loan. scoped ≡ some loan.employee_id) (list_scoped false scoped org query db).data_rows
list_scoped_own none org query db = tt
list_scoped_own (some mine) org query db =
    let p = is_listed db org (some mine) query.status in
    All-newest_page (λ loan. some mine ≡ some loan.employee_id) (find_many p db.loans)
      query.pagination
      (find_many-All (λ loan. some mine ≡ some loan.employee_id) p (λ loan m. ground arith)
        db.loans)

-- Without the permission to approve, a user is listed own applications only.
pub find_all-Owns :
    (org : ℕ) (user : RequestingUser) (query : QueryLoanDto) (db : Db)
    → has_approve_permission user ≡ false
    → Lists (Owns user) (find_all org user query db).0
unfolding find_all
find_all-Owns org user query db h = rw h (list_scoped_own user.employee_id org query db)
