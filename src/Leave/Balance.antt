-- ===== src/Leave/Balance.antt =====
-- class LeaveBalanceService (src/modules/leave/leave-balance.service.ts), without its listings.
pub mod Frame
pub mod Invariants
pub mod Books
use text.Mathlib.Text.{◌==◌ as str_eq}
use igreen_backend.Base.{
  ℕ, ◌+◌, ◌/◌, Bool, true, false, Option, none, some, List, [], ◌∷◌, ◌&&◌, ◌==◌, not, is_some,
  is_id, if◌then◌else◌,
}
use igreen_backend.Base.Int.{ℤ, pos, ◌+ℤ◌, ◌-ℤ◌, ltb_ℤ, max_ℤ}
use igreen_backend.Store.Table.{find_first, find_many, update_where, create}
use igreen_backend.Store.Staff.{Employee, active, employee_status_eq}
use igreen_backend.Store.Leave.{LeavePolicy, LeavePolicyType, LeaveBalance}
use igreen_backend.Store.Db.{
  Db, HttpError, bad_request, not_found, Action, Result, ok, err, pure, gets, or_throw, ◌>>=◌, ◌>>◌,
  throw_if, modify, fresh_id, is_employee_of,
}

-- `where: { employeeId_leavePolicyTypeId_year: … }`
abbrev pub is_balance_of : ℕ → ℕ → ℕ → LeaveBalance → Bool
is_balance_of employee_id leave_policy_type_id year b =
    b.employee_id == employee_id && b.leave_policy_type_id == leave_policy_type_id && b.year == year

-- `where: { id, leavePolicy: { deletedAt: null } }`
abbrev pub is_kept_type : Db → ℕ → LeavePolicyType → Bool
is_kept_type db id type =
    type.id == id
    && is_some (
        find_first (λ p. p.id == type.leave_policy_id && not (is_some p.deleted_at))
          db.leave_policies)

-- a balance row as the `create` of an `upsert` makes it
abbrev pub new_balance : ℕ → ℕ → ℕ → ℕ → ℕ → LeaveBalance
new_balance id employee_id leave_policy_type_id year days = record {
  id = id;
  employee_id = employee_id;
  leave_policy_type_id = leave_policy_type_id;
  year = year;
  entitled_days = pos days;
  taken_days = pos 0;
  carried_forward_days = pos 0;
  balance_days = pos days;
}

-- `leaveBalance.upsert` with `data` for the update
upsert_balance : ℕ → ℕ → ℕ → ℕ → (LeaveBalance → LeaveBalance) → Db → LeaveBalance × Db
upsert_balance employee_id leave_policy_type_id year days update db =
    let fresh = new_balance db.next_id employee_id leave_policy_type_id year days in
    elim (find_first (is_balance_of employee_id leave_policy_type_id year) db.balances) [
      | none ↦ (fresh, record db { next_id = db.next_id + 1; balances = create fresh db.balances })
      | some b ↦
          (update b, record db { balances = update_where (λ r. r.id == b.id) update db.balances })
    ]

unfoldable pub initialize_for_employee : ℕ → ℕ → ℕ → Action LeaveBalance
unfolding upsert_balance
initialize_for_employee employee_id leave_policy_type_id year db =
    elim (find_first (is_kept_type db leave_policy_type_id) db.policy_types) [
      | none ↦ (err (not_found "Leave policy type not found"), db)
      | some type ↦
          let (b, db') =
            upsert_balance employee_id leave_policy_type_id year type.days_per_year (λ b. b) db in
          (ok b, db')
    ]

-- `where: { leavePolicy: { organizationId, deletedAt: null, isActive: true } }`
abbrev pub is_offered_type : Db → ℕ → LeavePolicyType → Bool
is_offered_type db organization_id type = is_some (
    find_first
      (λ p.
        p.id == type.leave_policy_id
        && p.organization_id == organization_id
        && not (is_some p.deleted_at)
        && p.is_active)
      db.leave_policies)

initialize_each : ℕ → ℕ → List LeavePolicyType → Action (Unit {0})
unfolding initialize_for_employee
initialize_each employee_id year [] = pure tt
initialize_each employee_id year (type ∷ types) =
    initialize_for_employee employee_id type.id year >> initialize_each employee_id year types

pub ensure_balances_for_employee : ℕ → ℕ → ℕ → Action (Unit {0})
unfolding initialize_each
ensure_balances_for_employee organization_id employee_id year = do
  types ← gets (λ db. find_many (is_offered_type db organization_id) db.policy_types)
  initialize_each employee_id year types

pub get_my_balance : ℕ → Option ℕ → ℕ → Action (List LeaveBalance)
unfolding ensure_balances_for_employee
get_my_balance organization_id caller year = do
  employee_id ← or_throw caller (bad_request "No employee record found for the current user")
  employee ← gets (λ db. find_first (is_employee_of organization_id employee_id) db.employees)
  or_throw employee (not_found "Employee not found")
  ensure_balances_for_employee organization_id employee_id year
  gets (λ db. find_many (λ b. b.employee_id == employee_id && b.year == year) db.balances)

-- the data of the update in `deductBalance`
abbrev pub drawn : ℕ → LeaveBalance → LeaveBalance
drawn days b = record b {
  taken_days = b.taken_days +ℤ pos days;
  balance_days = b.balance_days -ℤ pos days;
}

unfoldable pub deduct_balance : ℕ → ℕ → ℕ → ℕ → Bool → Action LeaveBalance
deduct_balance employee_id leave_policy_type_id year days force = do
  found ← gets (λ db. find_first (is_balance_of employee_id leave_policy_type_id year) db.balances)
  balance ← or_throw found (not_found "Leave balance not found for this policy/year")
  throw_if (not force && ltb_ℤ balance.balance_days (pos days))
      (bad_request "Insufficient leave balance")
  modify (λ db. record db {
    balances = update_where (λ r. r.id == balance.id) (λ _. drawn days balance) db.balances;
  })
  pure (drawn days balance)

-- the data of the update in `restoreBalance`
abbrev pub given_back : ℕ → LeaveBalance → LeaveBalance
given_back days b = record b {
  taken_days = max_ℤ (pos 0) (b.taken_days -ℤ pos days);
  balance_days = b.balance_days +ℤ pos days;
}

pub restore_balance : ℕ → ℕ → ℕ → ℕ → Action (Option LeaveBalance)
restore_balance employee_id leave_policy_type_id year days db =
    elim (find_first (is_balance_of employee_id leave_policy_type_id year) db.balances) [
      | none ↦ (ok none, db)
      | some balance ↦ (
        ok (some (given_back days balance)),
        record db {
          balances =
              update_where (λ r. r.id == balance.id) (λ _. given_back days balance) db.balances;
        },
      )
    ]

-- the data of the update in `accrueMonthly`
abbrev pub accrued : ℕ → LeaveBalance → LeaveBalance
accrued days b = record b {
  entitled_days = b.entitled_days +ℤ pos days;
  balance_days = b.balance_days +ℤ pos days;
}

accrue_for : ℕ → LeavePolicyType → List Employee → Db → Db
unfolding upsert_balance
accrue_for year type [] db = db
accrue_for year type (employee ∷ employees) db =
    let monthly_accrual = type.days_per_year / 12 in
    accrue_for year type employees
      (upsert_balance employee.id type.id year monthly_accrual (accrued monthly_accrual) db).1

-- `where: { accrualType: 'monthly', leavePolicy: { deletedAt: null, isActive: true } }`
abbrev pub accrues_monthly : Db → LeavePolicyType → Bool
accrues_monthly db type =
    str_eq type.accrual_type "monthly"
    && is_some (
        find_first (λ p. p.id == type.leave_policy_id && not (is_some p.deleted_at) && p.is_active)
          db.leave_policies)

-- `employees: { where: { deletedAt: null, status: 'ACTIVE' } }` of the type's policy
abbrev pub is_under : LeavePolicyType → Employee → Bool
is_under type e =
    is_id e.leave_policy_id type.leave_policy_id
    && not (is_some e.deleted_at)
    && employee_status_eq e.status active

accrue_each : ℕ → List Employee → List LeavePolicyType → Db → Db
unfolding accrue_for
accrue_each year staff [] db = db
accrue_each year staff (type ∷ types) db =
    accrue_each year staff types (accrue_for year type (find_many (is_under type) staff) db)

unfoldable pub accrue_monthly : ℕ → Db → Db
unfolding accrue_each
accrue_monthly year db =
    accrue_each year db.employees (find_many (accrues_monthly db) db.policy_types) db
