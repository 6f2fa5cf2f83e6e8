-- ===== src/Store/Db.antt =====
-- The whole database, and a handler as a function from it to a result and a database. What a
-- handler has written stays written when it throws, except in a transaction. What a message
-- interpolates is an ellipsis here.
use igreen_backend.Base.{
  ℕ, ◌+◌, ◌≡◌, ◌⊎◌, inl, inr, refl, true, false, Bool, Option, none, some, List, [], String, ◌&&◌,
  ◌==◌, not, is_some, if◌then◌else◌, includes, ◌||◌,
}
use igreen_backend.Store.Table.{find_first}
use igreen_backend.Store.Staff.{Employee, Organization, Department}
use igreen_backend.Store.Loan.{LoanApplication, LoanEmiSchedule}
use igreen_backend.Store.Leave.{
  LeavePolicy, LeavePolicyType, LeaveBalance, LeaveApplication, Holiday,
}
use igreen_backend.Store.Asset.{Asset, AssetAssignment}
use igreen_backend.Store.Exit.{ExitRecord}
use igreen_backend.Store.Request.{ServiceRequest, ServiceRequestComment}
use igreen_backend.Store.Payroll.{
  PayrollStructure, PayrollRun, PayrollEntry, IncentiveLedger, GreenThanks, GreenThanksConfig,
}
use igreen_backend.Store.Access.{User, Role, UserRole}

-- `next_id` is the identifier that the database gives to the next row.
pub record Db : Type 0 where
  pub next_id : ℕ
  pub organizations : List Organization
  pub departments : List Department
  pub employees : List Employee
  pub loans : List LoanApplication
  pub emis : List LoanEmiSchedule
  pub leave_policies : List LeavePolicy
  pub policy_types : List LeavePolicyType
  pub balances : List LeaveBalance
  pub leaves : List LeaveApplication
  pub holidays : List Holiday
  pub assets : List Asset
  pub assignments : List AssetAssignment
  pub exits : List ExitRecord
  pub requests : List ServiceRequest
  pub comments : List ServiceRequestComment
  pub payroll_structures : List PayrollStructure
  pub payroll_runs : List PayrollRun
  pub payroll_entries : List PayrollEntry
  pub incentives : List IncentiveLedger
  pub green_thanks : List GreenThanks
  pub green_thanks_configs : List GreenThanksConfig
  pub users : List User
  pub roles : List Role
  pub user_roles : List UserRole

abbrev pub empty_db : Db
empty_db = record {
  next_id = 100;
  organizations = [];
  departments = [];
  employees = [];
  loans = [];
  emis = [];
  leave_policies = [];
  policy_types = [];
  balances = [];
  leaves = [];
  holidays = [];
  assets = [];
  assignments = [];
  exits = [];
  requests = [];
  comments = [];
  payroll_structures = [];
  payroll_runs = [];
  payroll_entries = [];
  incentives = [];
  green_thanks = [];
  green_thanks_configs = [];
  users = [];
  roles = [];
  user_roles = [];
}

-- The exceptions of @nestjs/common, each with its message.
pub data HttpError : Type 0 where
  bad_request forbidden not_found conflict : String → HttpError

pub data Result {ℓ} (A : Type ℓ) : Type ℓ where
  ok : A → Result A
  err : HttpError → Result A

abbrev pub fails {ℓ} : {A : Type ℓ} → Result A → Bool
fails (ok a) = false
fails (err e) = true

pub Result-cases {ℓ} :
    {A : Type ℓ} (r : Result A) → ((a : A) × (r ≡ ok a)) ⊎ ((e : HttpError) × (r ≡ err e))
Result-cases (ok a) = inl (a, refl)
Result-cases (err e) = inr (e, refl)

abbrev pub Action : Type 0 → Type 0
Action A = Db → Result A × Db

module _ {A : Type 0} where
  abbrev pub pure : A → Action A
  pure a db = (ok a, db)

  abbrev pub throw : HttpError → Action A
  throw e db = (err e, db)

  abbrev pub gets : (Db → A) → Action A
  gets f db = (ok (f db), db)

  abbrev pub or_throw : Option A → HttpError → Action A
  or_throw none e = throw e
  or_throw (some a) _ = pure a

  -- `prisma.$transaction(async (tx) => …)`: a throw undoes what was written.
  abbrev pub transaction : Action A → Action A
  transaction m db = let (r, db') = m db in elim r [ ok a ↦ (ok a, db') | err e ↦ (err e, db) ]

infixl 5 ◌>>=◌ ◌>>◌
abbrev pub ◌>>=◌ : {A B : Type 0} → Action A → (A → Action B) → Action B
◌>>=◌ m f db = let (r, db') = m db in elim r [ ok a ↦ f a db' | err e ↦ (err e, db') ]

abbrev pub ◌>>◌ : {A B : Type 0} → Action A → Action B → Action B
m >> k = m >>= λ _. k

-- `if (c) throw e`
abbrev pub throw_if : Bool → HttpError → Action (Unit {0})
throw_if c e db = (if c then err e else ok tt, db)

abbrev pub modify : (Db → Db) → Action (Unit {0})
modify f db = (ok tt, f db)

-- The identifier of a row that is created next.
abbrev pub fresh_id : Action ℕ
fresh_id db = (ok db.next_id, record db { next_id = db.next_id + 1 })

-- Who calls: `@CurrentUser()`.
pub record RequestingUser : Type 0 where
  pub id : ℕ
  pub employee_id : Option ℕ
  pub permissions : List String

-- `permissions.includes(p) || permissions.includes('*')`
abbrev pub has_permission : String → RequestingUser → Bool
has_permission p u = includes u.permissions p || includes u.permissions "*"

-- `where: { id, organizationId, deletedAt: null }` on an employee
abbrev pub is_employee_of : ℕ → ℕ → Employee → Bool
is_employee_of organization_id id e =
    e.id == id && e.organization_id == organization_id && not (is_some e.deleted_at)

-- `employee: { organizationId }` on a row of the employee, deleted or not
abbrev pub works_in : Db → ℕ → ℕ → Bool
works_in db organization_id employee_id = is_some (
    find_first (λ (e : Employee). e.id == employee_id && e.organization_id == organization_id)
      db.employees)

-- `where: { employee: { organizationId, deletedAt: null } }` on a row of the employee
abbrev pub in_organization : Db → ℕ → ℕ → Bool
in_organization db organization_id employee_id =
    is_some (find_first (is_employee_of organization_id employee_id) db.employees)
