-- ===== src/Loans/Service/Lifecycle.antt =====
-- How the handlers of the loans service move applications through their states, and that a
-- handler that throws writes nothing.
use igreen_backend.Base.{
  ℕ, ◌≡◌, refl, ◌⊎◌, inl, inr, true, Option, none, some, String, List, arith, ◌==◌, get_or, or_else,
}
use igreen_backend.Base.Calendar.{Clock}
use igreen_backend.Store.Table.{find_first, update_where, IsKeyed, create}
use igreen_backend.Store.Table.Evolution.{
  Evolves, Evolves-refl, Evolves-create, Evolves-effect, Evolves-map,
}
use igreen_backend.Store.Loan.{LoanStatus, LoanApplication}
use igreen_backend.Store.Db.{Db, err, HttpError, RequestingUser}
use igreen_backend.Loans.Amortization.{Power}
use igreen_backend.Loans.Service.{
  CreateLoanDto, ApproveLoanDto, is_loan_of, apply, approve, reject, activated, rejection_reason,
  new_loan,
}
use igreen_backend.Loans.Service.Deduction.{mark_emi_deducted}
use igreen_backend.Loans.Service.Deduction.Closing.{Closes, mark_emi_deducted-Closes}

-- The requests and calls that write to the table of loans.
pub data LoanCall : Type 0 where
  apply_call : ℕ → RequestingUser → CreateLoanDto → LoanCall
  approve_call : ℕ → ℕ → Option ℕ → ℕ → ApproveLoanDto → LoanCall
  reject_call : ℕ → ℕ → Option ℕ → ℕ → Option String → LoanCall
  deduct_call : List ℕ → ℕ → LoanCall

-- The database after a call.
pub run_loan_call : Power → Clock → LoanCall → Db → Db
run_loan_call pow clock (apply_call org user dto) db = (apply org user dto db).1
run_loan_call pow clock (approve_call org user approver id dto) db =
    (approve pow clock org user approver id dto db).1
run_loan_call pow clock (reject_call org user approver id reason) db =
    (reject org user approver id reason db).1
run_loan_call pow clock (deduct_call ids entry) db = mark_emi_deducted clock.now ids entry db

pub data StatusStep : LoanStatus → LoanStatus → Type 0 where
  stay : {s : LoanStatus} → StatusStep s s
  activate : StatusStep LoanStatus.pending LoanStatus.active
  refuse : StatusStep LoanStatus.pending LoanStatus.rejected
  settle : StatusStep LoanStatus.active LoanStatus.closed

-- A loan keeps its identity, its employee and the amount that was asked for.
pub record LoanStep (a b : LoanApplication) : Type 0 where
  pub same_id : b.id ≡ a.id
  pub same_employee : b.employee_id ≡ a.employee_id
  pub same_request : b.amount_requested ≡ a.amount_requested
  pub status : StatusStep a.status b.status

abbrev pub IsPending : LoanApplication → Type 0
IsPending loan = loan.status ≡ LoanStatus.pending

LoanStep-refl : (a : LoanApplication) → LoanStep a a
LoanStep-refl a = record {
  same_id = refl;
  same_employee = refl;
  same_request = refl;
  status = stay;
}

is_loan_of-id :
    (db : Db) (org id : ℕ) (loan : LoanApplication)
    → is_loan_of db org id loan ≡ true
    → loan.id ≡ id
is_loan_of-id db org id loan h = ground arith

-- the update of `approve`, given the row that was found
abbrev approved_as :
    Clock → ℕ → ApproveLoanDto → LoanApplication → LoanApplication → LoanApplication
approved_as clock user dto loan =
    activated user clock.now dto.interest_rate (get_or dto.amount_approved loan.amount_requested)
      (get_or (or_else dto.tenure_months loan.tenure_months) 0)

approve_effect :
    (pow : Power) (clock : Clock) (org user : ℕ) (approver : Option ℕ) (id : ℕ)
    (dto : ApproveLoanDto) (db : Db) (loan : LoanApplication)
    → find_first (is_loan_of db org id) db.loans ≡ some loan
    → let loans = (approve pow clock org user approver id dto db).1.loans in
      (loans ≡ db.loans)
      ⊎ (IsPending loan
          × (loans ≡ update_where (λ l. l.id == id) (approved_as clock user dto loan) db.loans))
unfolding approve
approve_effect pow clock org user approver id dto db loan e = ground arith

approve_miss :
    (pow : Power) (clock : Clock) (org user : ℕ) (approver : Option ℕ) (id : ℕ)
    (dto : ApproveLoanDto) (db : Db)
    → find_first (is_loan_of db org id) db.loans ≡ none
    → (approve pow clock org user approver id dto db).1.loans ≡ db.loans
unfolding approve
approve_miss pow clock org user approver id dto db e = ground arith

approve-Evolves :
    (pow : Power) (clock : Clock) (org user : ℕ) (approver : Option ℕ) (id : ℕ)
    (dto : ApproveLoanDto) (db : Db)
    → IsKeyed (λ l. l.id) db.loans
    → Evolves LoanStep IsPending db.loans (approve pow clock org user approver id dto db).1.loans
approve-Evolves pow clock org user approver id dto db k =
    Evolves-effect LoanStep IsPending (λ l. l.id) (is_loan_of db org id) id IsPending
      (approved_as clock user dto) LoanStep-refl (is_loan_of-id db org id)
      (λ l h. record {
        same_id = refl;
        same_employee = refl;
        same_request = refl;
        status = rw h activate;
      })
      db.loans _ k (approve_miss pow clock org user approver id dto db)
      (approve_effect pow clock org user approver id dto db)

-- the update of `reject`, given the row that was found
abbrev rejected_as : ℕ → Option String → LoanApplication → LoanApplication → LoanApplication
rejected_as user reason loan l = record l {
  status = LoanStatus.rejected;
  approved_by = some user;
  reason = rejection_reason reason loan.reason;
}

reject_effect :
    (org user : ℕ) (approver : Option ℕ) (id : ℕ) (reason : Option String) (db : Db)
    (loan : LoanApplication)
    → find_first (is_loan_of db org id) db.loans ≡ some loan
    → let loans = (reject org user approver id reason db).1.loans in
      (loans ≡ db.loans)
      ⊎ (IsPending loan
          × (loans ≡ update_where (λ l. l.id == id) (rejected_as user reason loan) db.loans))
unfolding reject
reject_effect org user approver id reason db loan e = ground arith

reject_miss :
    (org user : ℕ) (approver : Option ℕ) (id : ℕ) (reason : Option String) (db : Db)
    → find_first (is_loan_of db org id) db.loans ≡ none
    → (reject org user approver id reason db).1.loans ≡ db.loans
unfolding reject
reject_miss org user approver id reason db e = ground arith

reject-Evolves :
    (org user : ℕ) (approver : Option ℕ) (id : ℕ) (reason : Option String) (db : Db)
    → IsKeyed (λ l. l.id) db.loans
    → Evolves LoanStep IsPending db.loans (reject org user approver id reason db).1.loans
reject-Evolves org user approver id reason db k =
    Evolves-effect LoanStep IsPending (λ l. l.id) (is_loan_of db org id) id IsPending
      (rejected_as user reason) LoanStep-refl (is_loan_of-id db org id)
      (λ l h. record {
        same_id = refl;
        same_employee = refl;
        same_request = refl;
        status = rw h refuse;
      })
      db.loans _ k (reject_miss org user approver id reason db)
      (reject_effect org user approver id reason db)

apply_effect :
    (org : ℕ) (user : RequestingUser) (dto : CreateLoanDto) (db : Db)
    → let loans = (apply org user dto db).1.loans in
      let target = get_or (or_else dto.employee_id user.employee_id) 0 in
      (loans ≡ db.loans) ⊎ (loans ≡ create (new_loan db.next_id target dto) db.loans)
unfolding apply
apply_effect org user dto db = ground arith

apply-Evolves :
    (org : ℕ) (user : RequestingUser) (dto : CreateLoanDto) (db : Db)
    → Evolves LoanStep IsPending db.loans (apply org user dto db).1.loans
apply-Evolves org user dto db = elim (apply_effect org user dto db) [
  | inl same ↦ rw same (Evolves-refl LoanStep IsPending LoanStep-refl db.loans)
  | inr created ↦ rw created (Evolves-create LoanStep IsPending LoanStep-refl _ refl db.loans)
]

Closes-LoanStep : (a b : LoanApplication) → Closes a b → LoanStep a b
Closes-LoanStep a b c = elim c.status [
  | inl same ↦ record {
    same_id = c.same_id;
    same_employee = c.same_employee;
    same_request = c.same_request;
    status = rw same stay;
  }
  | inr (was, is) ↦ record {
    same_id = c.same_id;
    same_employee = c.same_employee;
    same_request = c.same_request;
    status = rw (was, is) settle;
  }
]

-- With distinct identifiers, any call leaves each loan application in its place with its
-- identifier, its employee and the amount asked for; its state stays, or goes from pending to
-- active, from pending to rejected or from active to closed; and what the call adds is pending.
pub run_loan_call-Evolves :
    (pow : Power) (clock : Clock) (call : LoanCall) (db : Db)
    → IsKeyed (λ (l : LoanApplication). l.id) db.loans
    → Evolves LoanStep IsPending db.loans (run_loan_call pow clock call db).loans
unfolding run_loan_call
run_loan_call-Evolves pow clock (apply_call org user dto) db k = apply-Evolves org user dto db
run_loan_call-Evolves pow clock (approve_call org user approver id dto) db k =
    approve-Evolves pow clock org user approver id dto db k
run_loan_call-Evolves pow clock (reject_call org user approver id reason) db k =
    reject-Evolves org user approver id reason db k
run_loan_call-Evolves pow clock (deduct_call ids entry) db k =
    Evolves-map Closes LoanStep IsPending Closes-LoanStep db.loans _
      (mark_emi_deducted-Closes clock.now ids entry db)

-- A call to apply, approve or reject that throws leaves the database as it was.
pub throws_unchanged :
    (pow : Power) (clock : Clock) (org user : ℕ) (caller : RequestingUser) (approver : Option ℕ)
    (id : ℕ) (create_dto : CreateLoanDto) (approve_dto : ApproveLoanDto) (reason : Option String)
    (db : Db) {e f g : HttpError}
    → ((apply org caller create_dto db).0 ≡ err e → (apply org caller create_dto db).1 ≡ db)
      × ((approve pow clock org user approver id approve_dto db).0 ≡ err f
          → (approve pow clock org user approver id approve_dto db).1 ≡ db)
      × ((reject org user approver id reason db).0 ≡ err g
          → (reject org user approver id reason db).1 ≡ db)
unfolding apply approve reject
throws_unchanged pow clock org user caller approver id create_dto approve_dto reason db =
    (λ h. ground arith, λ h. ground arith, λ h. ground arith)
