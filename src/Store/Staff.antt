-- ===== src/Store/Staff.antt =====
-- The tables of organizations, departments and employees (prisma/schema.prisma). Identifiers are
-- UUIDs that the code only compares; they are numbers here.
use igreen_backend.Base.{ℕ, Bool, Option, String, ◌==◌}

-- enum EmployeeStatus
pub data EmployeeStatus : Type 0 where
  pre_boarding active on_leave suspended exited : EmployeeStatus

abbrev pub employee_status_rank : EmployeeStatus → ℕ
employee_status_rank pre_boarding = 0
employee_status_rank active = 1
employee_status_rank on_leave = 2
employee_status_rank suspended = 3
employee_status_rank exited = 4

-- `===` on the statuses
abbrev pub employee_status_eq : EmployeeStatus → EmployeeStatus → Bool
employee_status_eq a b = employee_status_rank a == employee_status_rank b

-- model Employee: the columns that the modelled services read or write
pub record Employee : Type 0 where
  pub id : ℕ
  pub organization_id : ℕ
  pub deleted_at : Option ℕ
  pub status : EmployeeStatus
  pub reporting_manager_id : Option ℕ
  pub leave_policy_id : Option ℕ
  pub updated_by_id : Option ℕ
  pub payroll_structure_id : Option ℕ

-- model Organization
pub record Organization : Type 0 where
  pub id : ℕ
  pub allow_anonymous_service_requests : Bool

-- model Department
pub record Department : Type 0 where
  pub id : ℕ
  pub organization_id : ℕ
  pub name : String
  pub parent_id : Option ℕ
  pub head_employee_id : Option ℕ
  pub hierarchy_level : ℕ
  pub deleted_at : Option ℕ
