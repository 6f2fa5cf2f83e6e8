-- ===== src/Leave/Applications.antt =====
-- class LeaveApplicationsService (src/modules/leave/leave-applications.service.ts).
pub mod Lifecycle
pub mod Overlap
pub mod Approval
mod Tests
use igreen_backend.Base.{
  ℕ, ◌*◌, Bool, true, false, Option, none, some, String, List, [], ◌∷◌, ◌&&◌, ◌||◌, ◌==◌, not,
  is_some, is_id, ltb, leb, opt_matches, if◌then◌else◌,
}
use igreen_backend.Base.Int.{ℤ, pos, ltb_ℤ}
use igreen_backend.Base.Calendar.{Clock}
use igreen_backend.Base.Pagination.{PaginationDto, PaginatedResult, newest_page}
use igreen_backend.Store.Table.{find_first, find_many, update_where, create}
use igreen_backend.Store.Leave.{
  LeaveStatus, leave_status_eq, LeavePolicy, LeavePolicyType, LeaveBalance, LeaveApplication,
  Holiday,
}
use igreen_backend.Store.Db.{
  Db, HttpError, bad_request, forbidden, not_found, conflict, Action, pure, gets, or_throw, ◌>>=◌,
  ◌>>◌, throw_if, modify, fresh_id, is_employee_of, in_organization,
}
use igreen_backend.Leave.Balance.{is_balance_of, initialize_for_employee, deduct_balance}

-- `days` is in 24ths of a day; the dates are instants.
pub record ApplyLeaveDto : Type 0 where
  pub leave_policy_type_id : ℕ
  pub from_date : ℕ
  pub to_date : ℕ
  pub days : ℕ
  pub reason : Option String

pub record QueryLeaveDto : Type 0 where
  pub employee_id : Option ℕ
  pub status : Option LeaveStatus
  pub from_date : Option ℕ
  pub to_date : Option ℕ
  pub pagination : PaginationDto

-- `where: { id, leavePolicy: { organizationId, deletedAt: null } }`
abbrev pub is_type_of : Db → ℕ → ℕ → LeavePolicyType → Bool
is_type_of db organization_id id type =
    type.id == id
    && is_some (
        find_first
          (λ p.
            p.id == type.leave_policy_id
            && p.organization_id == organization_id
            && not (is_some p.deleted_at))
          db.leave_policies)

-- `policyType.maxConsecutiveDays && dto.days > policyType.maxConsecutiveDays`
abbrev pub exceeds : Option ℕ → ℕ → Bool
exceeds none days = false
exceeds (some most) days = not (most == 0) && ltb (24 * most) days

-- `where: { organizationId, date: { gte: fromDate, lte: toDate } }`
abbrev pub is_holiday_in : ℕ → ℕ → ℕ → Holiday → Bool
is_holiday_in organization_id from to h =
    h.organization_id == organization_id && leb from h.date && leb h.date to

-- `status: { in: [LeaveStatus.PENDING, LeaveStatus.APPROVED] }`
abbrev pub is_live : LeaveApplication → Bool
is_live a =
    leave_status_eq a.status LeaveStatus.pending || leave_status_eq a.status LeaveStatus.approved

-- the `where` of the overlap test
abbrev pub overlaps : ℕ → ℕ → ℕ → LeaveApplication → Bool
overlaps employee_id from to a =
    a.employee_id == employee_id && is_live a && leb a.from_date to && leb from a.to_date

-- `!balance || balance.balanceDays < dto.days`
abbrev pub falls_short : Option LeaveBalance → ℕ → Bool
falls_short none days = true
falls_short (some b) days = ltb_ℤ b.balance_days (pos days)

-- the data of the row that `apply` creates
abbrev pub new_application : ℕ → ℕ → ApplyLeaveDto → LeaveApplication
new_application id employee_id dto = record {
  id = id;
  employee_id = employee_id;
  leave_policy_type_id = dto.leave_policy_type_id;
  from_date = dto.from_date;
  to_date = dto.to_date;
  days = dto.days;
  reason = dto.reason;
  status = LeaveStatus.pending;
  approver_id = none;
  rejection_note = none;
  is_special = false;
  decided_at = none;
}

-- `apply` up to the check of the holidays, which writes nothing.
apply_checks : ℕ → Option ℕ → ApplyLeaveDto → Action ℕ
apply_checks organization_id caller dto = do
  employee_id ← or_throw caller (bad_request "No employee record found for the current user")
  employee ← gets (λ db. find_first (is_employee_of organization_id employee_id) db.employees)
  or_throw employee (not_found "Employee not found")
  found ←
      gets
        (λ db. find_first (is_type_of db organization_id dto.leave_policy_type_id) db.policy_types)
  policy_type ← or_throw found (not_found "Leave policy type not found")
  throw_if (exceeds policy_type.max_consecutive_days dto.days)
      (bad_request "This leave policy allows a maximum of … consecutive days")
  holiday ←
      gets (λ db. find_first (is_holiday_in organization_id dto.from_date dto.to_date) db.holidays)
  throw_if (is_some holiday)
      (bad_request "Selected dates include a holiday and cannot be used for leave: …")
  pure employee_id

-- `apply` behind the initialisation of the balance.
apply_creates : ℕ → ApplyLeaveDto → ℕ → Action LeaveApplication
apply_creates year dto employee_id = do
  balance ←
      gets (λ db. find_first (is_balance_of employee_id dto.leave_policy_type_id year) db.balances)
  throw_if (falls_short balance dto.days)
      (bad_request "Insufficient leave balance for this request")
  overlapping ← gets (λ db. find_first (overlaps employee_id dto.from_date dto.to_date) db.leaves)
  throw_if (is_some overlapping)
      (conflict "An overlapping leave application already exists for these dates")
  id ← fresh_id
  modify (λ db. record db { leaves = create (new_application id employee_id dto) db.leaves })
  pure (new_application id employee_id dto)

pub apply : Clock → ℕ → Option ℕ → ApplyLeaveDto → Action LeaveApplication
apply clock organization_id caller dto = do
  employee_id ← apply_checks organization_id caller dto
  let year = clock.get_full_year dto.from_date
  initialize_for_employee employee_id dto.leave_policy_type_id year
  apply_creates year dto employee_id

-- `where: { id, employee: { organizationId, deletedAt: null } }`
abbrev pub is_application_of : Db → ℕ → ℕ → LeaveApplication → Bool
is_application_of db organization_id id a =
    a.id == id && in_organization db organization_id a.employee_id

-- the row of `leaveApplication.findFirst`, or a 404
get_application_or_throw : ℕ → ℕ → Action LeaveApplication
get_application_or_throw organization_id id = do
  found ← gets (λ db. find_first (is_application_of db organization_id id) db.leaves)
  or_throw found (not_found "Leave application not found")

pub cancel : Clock → ℕ → ℕ → ℕ → Action LeaveApplication
unfolding get_application_or_throw
cancel clock organization_id employee_id id = do
  application ← get_application_or_throw organization_id id
  throw_if (not (application.employee_id == employee_id))
      (forbidden "You can only cancel your own leave applications")
  throw_if (not (leave_status_eq application.status LeaveStatus.pending))
      (bad_request "Only pending leave applications can be cancelled")
  let update = λ (a : LeaveApplication). record a {
    status = LeaveStatus.cancelled;
    decided_at = some clock.now;
  }
  modify (λ db. record db { leaves = update_where (λ a. a.id == id) update db.leaves })
  pure (update application)

-- `approve` up to its last guard, which writes nothing.
pub approve_check : ℕ → ℕ → Option ℕ → Action LeaveApplication
unfolding get_application_or_throw
approve_check organization_id id approver_employee_id = do
  application ← get_application_or_throw organization_id id
  throw_if (is_id approver_employee_id application.employee_id)
      (forbidden "You cannot approve your own leave application")
  throw_if (not (leave_status_eq application.status LeaveStatus.pending))
      (bad_request "Only pending leave applications can be approved")
  pure application

-- the data of the update in `approve`
abbrev pub approved_by : ℕ → ℕ → Option String → LeaveApplication → LeaveApplication
approved_by now approver_id notes a = record a {
  status = LeaveStatus.approved;
  approver_id = some approver_id;
  decided_at = some now;
  rejection_note = notes;
}

-- `approve` behind its guards: the deduction, and then the update.
pub approve_commit : Clock → ℕ → ℕ → Option String → LeaveApplication → Action LeaveApplication
approve_commit clock id approver_id notes application = do
  let year = clock.get_full_year application.from_date
  deduct_balance application.employee_id application.leave_policy_type_id year application.days
      false
  modify (λ db. record db {
    leaves = update_where (λ a. a.id == id) (approved_by clock.now approver_id notes) db.leaves;
  })
  pure (approved_by clock.now approver_id notes application)

pub approve : Clock → ℕ → ℕ → ℕ → Option ℕ → Option String → Action LeaveApplication
unfolding approve_check approve_commit
approve clock organization_id id approver_id approver_employee_id notes = do
  application ← approve_check organization_id id approver_employee_id
  approve_commit clock id approver_id notes application

pub reject : Clock → ℕ → ℕ → ℕ → Option ℕ → String → Action LeaveApplication
unfolding get_application_or_throw
reject clock organization_id id approver_id approver_employee_id note = do
  application ← get_application_or_throw organization_id id
  throw_if (is_id approver_employee_id application.employee_id)
      (forbidden "You cannot reject your own leave application")
  throw_if (not (leave_status_eq application.status LeaveStatus.pending))
      (bad_request "Only pending leave applications can be rejected")
  let update = λ (a : LeaveApplication). record a {
    status = LeaveStatus.rejected;
    approver_id = some approver_id;
    decided_at = some clock.now;
    rejection_note = some note;
  }
  modify (λ db. record db { leaves = update_where (λ a. a.id == id) update db.leaves })
  pure (update application)

-- `buildDateFilters`
abbrev pub in_dates : Option ℕ → Option ℕ → LeaveApplication → Bool
in_dates from to a =
    opt_matches (λ date shown. leb date shown) from a.to_date
    && opt_matches (λ date shown. leb shown date) to a.from_date

-- `where` of `findAll` and of `myApplications`
abbrev pub is_shown : Db → ℕ → Option ℕ → QueryLeaveDto → LeaveApplication → Bool
is_shown db organization_id employee_id query a =
    in_organization db organization_id a.employee_id
    && opt_matches ◌==◌ employee_id a.employee_id
    && opt_matches leave_status_eq query.status a.status
    && in_dates query.from_date query.to_date a

pub find_all : ℕ → QueryLeaveDto → Action (PaginatedResult LeaveApplication)
find_all organization_id query = gets (λ db.
    newest_page (find_many (is_shown db organization_id query.employee_id query) db.leaves)
      query.pagination)

pub my_applications : ℕ → Option ℕ → QueryLeaveDto → Action (PaginatedResult LeaveApplication)
my_applications organization_id caller query = do
  employee_id ← or_throw caller (bad_request "No employee record found for the current user")
  gets (λ db.
      newest_page (find_many (is_shown db organization_id (some employee_id) query) db.leaves)
        query.pagination)
