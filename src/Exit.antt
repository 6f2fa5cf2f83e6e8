-- ===== src/Exit.antt =====
-- class ExitService (src/modules/exit/exit.service.ts). A response is the row that it is made
-- from. `lower` is String.prototype.toLowerCase.
pub mod Lifecycle
pub mod Records
pub mod Departments
pub mod Clearance
pub mod Settlement
mod Tests
use igreen_backend.Base.{
  ℕ, ◌+◌, ◌*◌, Bool, true, false, Option, none, some, String, List, [], ◌∷◌, ◌&&◌, ◌||◌, ◌==◌, not,
  is_some, get_or, is_id, has_text, opt_matches, if◌then◌else◌, map, every,
}
use igreen_backend.Base.Int.{ℤ}
use igreen_backend.Base.Calendar.{Clock}
use igreen_backend.Base.Pagination.{PaginationDto, PaginatedResult, newest_page}
use igreen_backend.Store.Table.{find_first, find_many, update_where, create}
use igreen_backend.Store.Staff.{Department, exited}
use igreen_backend.Store.Exit.{
  ExitStatus, initiated, clearance_pending, cleared, settled, completed, exit_status_eq,
  DepartmentClearance, ClearanceStatus, ExitRecord,
}
use igreen_backend.Store.Db.{
  Db, HttpError, bad_request, not_found, conflict, Action, pure, gets, or_throw, ◌>>=◌, ◌>>◌,
  throw_if, modify, fresh_id, is_employee_of,
}
use igreen_backend.Assets.{count_unreturned_assignments_for_employee}
use igreen_backend.Loans.Service.Deduction.{get_outstanding_balance_for_employee}
use igreen_backend.Employees.{patch_status, PatchEmployeeStatusDto}
use text.Mathlib.Text.{◌==◌ as str_eq}

-- TARGET_SETTLEMENT_DAYS
abbrev pub target_settlement_days : ℕ
target_settlement_days = 45

pub record CreateExitDto : Type 0 where
  pub employee_id : ℕ
  pub type : String
  pub initiated_by : String
  pub reason : String
  pub notice_start_date : Option ℕ
  pub last_working_date : Option ℕ
  pub effective_date : Option ℕ
  pub target_settlement_date : Option ℕ

pub record QueryExitDto : Type 0 where
  pub employee_id : Option ℕ
  pub type : Option String
  pub status : Option ExitStatus
  pub pagination : PaginationDto

pub record DepartmentClearanceDto : Type 0 where
  pub department : String
  pub cleared : Bool
  pub cleared_by : Option String

pub record UpdateClearanceDto : Type 0 where
  pub departments : Option (List DepartmentClearanceDto)
  pub knowledge_transfer_complete : Option Bool
  pub advance_to_cleared_if_complete : Option Bool

pub record ExitSettlement : Type 0 where
  pub exit_record : ExitRecord
  pub outstanding_loan_balance : ℤ
  pub unreturned_asset_count : ℕ
  pub settlement_amount : ℤ

-- `where: { employeeId, organizationId }`
abbrev pub is_exit_for : ℕ → ℕ → ExitRecord → Bool
is_exit_for organization_id employee_id r =
    r.employee_id == employee_id && r.organization_id == organization_id

-- `where: { organizationId, deletedAt: null }`
abbrev pub is_department_of : ℕ → Department → Bool
is_department_of organization_id d =
    d.organization_id == organization_id && not (is_some d.deleted_at)

abbrev pub uncleared_department : Department → DepartmentClearance
uncleared_department d = record {
  department = d.name;
  cleared = false;
  cleared_by = none;
  cleared_at = none;
}

abbrev pub uncleared : List DepartmentClearance → ClearanceStatus
uncleared departments = record {
  departments = departments;
  asset_handover_cleared = false;
  unreturned_count = 0;
  knowledge_transfer_cleared = false;
}

-- the row that `create` makes; the status is the column's default
abbrev pub new_exit : ℕ → ℕ → ℕ → ℕ → List Department → CreateExitDto → ExitRecord
new_exit id now organization_id user_id departments dto = record {
  id = id;
  organization_id = organization_id;
  employee_id = dto.employee_id;
  type = dto.type;
  status = initiated;
  initiated_by = dto.initiated_by;
  reason = some dto.reason;
  initiated_at = now;
  notice_start_date = dto.notice_start_date;
  last_working_date = dto.last_working_date;
  effective_date = dto.effective_date;
  target_settlement_date =
      get_or dto.target_settlement_date (now + target_settlement_days * 24 * 60 * 60 * 1000);
  knowledge_transfer_complete = false;
  clearance_status = some (uncleared (map uncleared_department departments));
  noc_issued_at = none;
  settlement_amount = none;
  settled_at = none;
  created_by_id = some user_id;
}

pub create_exit : Clock → ℕ → ℕ → CreateExitDto → Action ExitRecord
create_exit clock organization_id user_id dto = do
  employee ← gets (λ db. find_first (is_employee_of organization_id dto.employee_id) db.employees)
  or_throw employee (not_found "Employee not found")
  existing ← gets (λ db. find_first (is_exit_for organization_id dto.employee_id) db.exits)
  throw_if (is_some existing) (conflict "An exit record already exists for this employee")
  departments ← gets (λ db. find_many (is_department_of organization_id) db.departments)
  id ← fresh_id
  modify (λ db. record db {
    exits = create (new_exit id clock.now organization_id user_id departments dto) db.exits;
  })
  pure (new_exit id clock.now organization_id user_id departments dto)

-- the `where` of `findAll`
abbrev pub is_shown_exit : ℕ → QueryExitDto → ExitRecord → Bool
is_shown_exit organization_id query r =
    r.organization_id == organization_id
    && opt_matches (λ a b. a == b) query.employee_id r.employee_id
    && opt_matches str_eq query.type r.type
    && opt_matches exit_status_eq query.status r.status

pub find_all : ℕ → QueryExitDto → Action (PaginatedResult ExitRecord)
find_all organization_id query =
    gets (λ db.
      newest_page (find_many (is_shown_exit organization_id query) db.exits) query.pagination)

-- `where: { id, organizationId }`
abbrev pub is_exit_of : ℕ → ℕ → ExitRecord → Bool
is_exit_of organization_id id r = r.id == id && r.organization_id == organization_id

abbrev get_or_throw : ℕ → ℕ → Action ExitRecord
get_or_throw organization_id id = do
  found ← gets (λ db. find_first (is_exit_of organization_id id) db.exits)
  or_throw found (not_found "Exit record not found")

pub find_one : ℕ → ℕ → Action ExitRecord
find_one organization_id id = get_or_throw organization_id id

abbrev pub parse_clearance_status : Option ClearanceStatus → ClearanceStatus
parse_clearance_status value = get_or value (uncleared [])

-- the entry that an update of a department stands for
abbrev pub clearance_entry : ℕ → DepartmentClearanceDto → DepartmentClearance
clearance_entry now u = record {
  department = u.department;
  cleared = u.cleared;
  cleared_by = if u.cleared then u.cleared_by else none;
  cleared_at = if u.cleared then some now else none;
}

-- `find`, then `Object.assign` or `push`
abbrev pub put_department :
    (String → String) → DepartmentClearance → List DepartmentClearance → List DepartmentClearance
put_department lower entry [] = entry ∷ []
put_department lower entry (d ∷ ds) =
    let rest = put_department lower entry ds in
    if str_eq (lower d.department) (lower entry.department) then entry ∷ ds else d ∷ rest

abbrev pub put_departments :
    (String → String)
    → ℕ
    → List DepartmentClearanceDto
    → List DepartmentClearance
    → List DepartmentClearance
put_departments lower now [] ds = ds
put_departments lower now (u ∷ us) ds =
    put_departments lower now us (put_department lower (clearance_entry now u) ds)

-- the clearance document after an update
abbrev pub updated_clearance :
    (String → String) → ℕ → UpdateClearanceDto → ℕ → ClearanceStatus → ClearanceStatus
updated_clearance lower now dto unreturned_count current = record {
  departments = put_departments lower now (get_or dto.departments []) current.departments;
  asset_handover_cleared = unreturned_count == 0;
  unreturned_count = unreturned_count;
  knowledge_transfer_cleared =
      get_or dto.knowledge_transfer_complete current.knowledge_transfer_cleared;
}

abbrev pub is_all_cleared : ClearanceStatus → Bool
is_all_cleared c =
    every (λ (d : DepartmentClearance). d.cleared) c.departments
    && c.asset_handover_cleared
    && c.knowledge_transfer_cleared

abbrev pub next_status : UpdateClearanceDto → ClearanceStatus → ExitStatus → ExitStatus
next_status dto current status =
    if get_or dto.advance_to_cleared_if_complete true && is_all_cleared current
    then cleared
    else (if exit_status_eq status initiated then clearance_pending else status)

-- the data of the update in `updateClearance`
abbrev pub with_clearance : ℕ → ClearanceStatus → ExitStatus → ExitRecord → ExitRecord
with_clearance now current status r = record r {
  clearance_status = some current;
  knowledge_transfer_complete = current.knowledge_transfer_cleared;
  status = status;
  noc_issued_at = if exit_status_eq status cleared then some now else r.noc_issued_at;
}

pub update_clearance : (String → String) → Clock → ℕ → ℕ → UpdateClearanceDto → Action ExitRecord
update_clearance lower clock organization_id id dto = do
  r ← get_or_throw organization_id id
  throw_if (exit_status_eq r.status settled || exit_status_eq r.status completed)
      (bad_request "Clearance can no longer be updated after settlement")
  unreturned_count ← count_unreturned_assignments_for_employee organization_id r.employee_id
  let current =
      updated_clearance lower clock.now dto unreturned_count
        (parse_clearance_status r.clearance_status)
  let status = next_status dto current r.status
  modify (λ db. record db {
    exits = update_where (λ x. x.id == id) (with_clearance clock.now current status) db.exits;
  })
  pure (with_clearance clock.now current status r)

abbrev pub settled_as : ℕ → ℤ → ExitRecord → ExitRecord
settled_as now amount r = record r {
  settlement_amount = some amount;
  settled_at = some now;
  status = settled;
}

pub settle : Clock → ℕ → ℕ → ℕ → ℤ → Action ExitSettlement
settle clock organization_id user_id id amount = do
  r ← get_or_throw organization_id id
  throw_if (not (exit_status_eq r.status cleared))
      (bad_request "Settlement is only permitted once the exit is CLEARED")
  outstanding ← get_outstanding_balance_for_employee organization_id r.employee_id
  unreturned ← count_unreturned_assignments_for_employee organization_id r.employee_id
  modify (λ db. record db {
    exits = update_where (λ x. x.id == id) (settled_as clock.now amount) db.exits;
  })
  patch_status organization_id r.employee_id
      (record { status = exited; reason = some (get_or r.reason "Exit settled") }) user_id
  pure (record {
    exit_record = settled_as clock.now amount r;
    outstanding_loan_balance = outstanding;
    unreturned_asset_count = unreturned;
    settlement_amount = amount;
  })
