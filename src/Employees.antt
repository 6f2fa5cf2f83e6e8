-- ===== src/Employees.antt =====
-- patchStatus of class EmployeesService (src/modules/employees/employees.service.ts). The welcome
-- mail and the revocation of chat memberships happen outside the modelled tables.
use igreen_backend.Base.{
  ℕ, Bool, false, Option, String, List, [], ◌∷◌, ◌&&◌, ◌||◌, ◌==◌, not, has_text,
}
use igreen_backend.Store.Table.{find_first, update_where}
use igreen_backend.Store.Staff.{
  EmployeeStatus, pre_boarding, active, on_leave, suspended, exited, employee_status_eq, Employee,
}
use igreen_backend.Store.Db.{
  bad_request, not_found, Action, pure, gets, or_throw, ◌>>=◌, ◌>>◌, throw_if, modify,
  is_employee_of,
}

abbrev pub valid_status_transitions : EmployeeStatus → List EmployeeStatus
valid_status_transitions pre_boarding = active ∷ exited ∷ []
valid_status_transitions active = on_leave ∷ suspended ∷ exited ∷ []
valid_status_transitions on_leave = active ∷ exited ∷ []
valid_status_transitions suspended = active ∷ exited ∷ []
valid_status_transitions exited = []

abbrev pub reason_required_transitions : List (EmployeeStatus × EmployeeStatus)
reason_required_transitions = (active, suspended) ∷ (active, exited) ∷ (pre_boarding, exited) ∷ []

-- `allowed.includes(status)`
abbrev pub allows : List EmployeeStatus → EmployeeStatus → Bool
allows [] status = false
allows (s ∷ ss) status = employee_status_eq s status || allows ss status

-- `some(([from, to]) => from === old && to === new)`
abbrev pub needs_reason :
    List (EmployeeStatus × EmployeeStatus) → EmployeeStatus → EmployeeStatus → Bool
needs_reason [] old new = false
needs_reason ((from, to) ∷ rest) old new =
    employee_status_eq from old && employee_status_eq to new || needs_reason rest old new

pub record PatchEmployeeStatusDto : Type 0 where
  pub status : EmployeeStatus
  pub reason : Option String

abbrev pub patched : EmployeeStatus → ℕ → Employee → Employee
patched status updated_by_id e = record e {
  status = status;
  updated_by_id = Option.some updated_by_id;
}

unfoldable pub patch_status : ℕ → ℕ → PatchEmployeeStatusDto → ℕ → Action Employee
patch_status organization_id id dto updated_by_id = do
  found ← gets (λ db. find_first (is_employee_of organization_id id) db.employees)
  employee ← or_throw found (not_found "Employee not found")
  throw_if (not (allows (valid_status_transitions employee.status) dto.status))
      (bad_request "Transition from … to … is not permitted")
  throw_if
      (needs_reason reason_required_transitions employee.status dto.status
        && not (has_text dto.reason))
      (bad_request "A reason is required when transitioning to …")
  modify (λ db. record db {
    employees = update_where (λ e. e.id == id) (patched dto.status updated_by_id) db.employees;
  })
  pure (patched dto.status updated_by_id employee)
