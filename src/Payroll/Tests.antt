-- ===== src/Payroll/Tests.antt =====
-- One employee with a structure, an instalment due, a released incentive and a long leave.
use igreen_backend.Base.{◌+◌, ◌*◌, ◌≤◌, ◌≡◌, refl, false, true, none, some, [], ◌∷◌, arith}
use igreen_backend.Base.Int.{pos, scale, floor_div, ceil_div}
use igreen_backend.Base.Calendar.{Clock, Zone}
use igreen_backend.Store.Table.{find_first}
use igreen_backend.Store.Staff.{Employee, active}
use igreen_backend.Store.Leave.{LeaveStatus, LeavePolicyType, LeaveApplication}
use igreen_backend.Store.Payroll.{number, PayrollRun, PayrollEntry, IncentiveLedger}
use igreen_backend.Store.Db.{Db, empty_db, ok, err, conflict}
use igreen_backend.Payroll.{
  InitiatePayrollRunDto, UpdatePayrollEntryDto, new_run, process_run, initiate_run, update_entry,
}
use igreen_backend.Payroll.Entry.{
  is_entry_of, blank_entry, due_for, process_employee, get_lop_days_for_employee,
}
use igreen_backend.Payroll.Calculation.{
  compute_lop, compute_pf, compute_esi, to_grains, month_grains,
}
use igreen_backend.Payroll.Leaves.{get_lop_days_for_employee-twice}
use igreen_backend.Payroll.Runs.{net_of, update_entry-net}
use igreen_backend.Payroll.Processing.Posting.{Posted, process_employee-Posted}
use igreen_backend.Payroll.Processing.Run.{process_run-again}
use igreen_backend.Payroll.Processing.Initiation.{initiate_run-again}

abbrev clock : Clock
clock = record { now = 5; get_full_year = λ _. 2026; get_month = λ _. 3 }

abbrev later : Clock
later = record { now = 6; get_full_year = λ _. 2026; get_month = λ _. 3 }

-- months of 31 instants
abbrev zone : Zone
zone = record {
  start_of_month = λ year month. (year * 12 + month) * 31;
  end_of_month = λ year month. (year * 12 + month) * 31 + 30;
}

abbrev worker : Employee
worker = record {
  id = 7;
  organization_id = 1;
  deleted_at = none;
  status = active;
  reporting_manager_id = none;
  leave_policy_id = none;
  updated_by_id = none;
  payroll_structure_id = some 11;
}

-- from the last day of April 2026 to the first of May
abbrev over_two_months : LeaveApplication
over_two_months = record {
  id = 20;
  employee_id = 7;
  leave_policy_type_id = 3;
  from_date = (2026 * 12 + 3) * 31 + 30;
  to_date = (2026 * 12 + 4) * 31;
  days = 48;
  reason = none;
  status = LeaveStatus.approved;
  approver_id = none;
  rejection_note = none;
  is_special = false;
  decided_at = none;
}

abbrev without_pay : LeavePolicyType
without_pay = record {
  id = 3;
  leave_policy_id = 2;
  days_per_year = 288;
  accrual_type = "YEARLY";
  is_lop_eligible = true;
  max_consecutive_days = none;
}

abbrev released : IncentiveLedger
released = record {
  id = 40;
  employee_id = 7;
  total_amount = pos 500000;
  hold_amount = pos 0;
  release_amount = pos 500000;
  payroll_month = 4;
  payroll_year = 2026;
  is_held = false;
  is_released = true;
  is_deducted = false;
  payroll_entry_id = none;
  released_at = some 4;
}

abbrev april : InitiatePayrollRunDto
april = record { month = 4; year = 2026; employee_ids = none }

abbrev april_run : PayrollRun
april_run = new_run 30 1 2 april

abbrev office : Db
office = record empty_db {
  next_id = 100;
  employees = worker ∷ [];
  payroll_structures =
      record {
        id = 11;
        components = ("basic", number (pos 3000000)) ∷ ("hra", number (pos 1000000)) ∷ [];
      }
      ∷ [];
  policy_types = without_pay ∷ [];
  leaves = over_two_months ∷ [];
  incentives = released ∷ [];
  payroll_runs = april_run ∷ [];
}

process_run-again_example :
    let once = (process_run zone clock 1 30 none office).1 in
    let twice = (process_run zone later 1 30 none once).1 in
    twice ≡ record once { payroll_runs = twice.payroll_runs }
process_run-again_example = process_run-again zone 1 30 none clock later office (tt, tt) (tt, tt)

process_employee-Posted_example :
    (row : PayrollEntry) × (find_first
        (is_entry_of 30 7)
        (process_employee zone clock 1 april_run worker office).payroll_entries
      ≡ some row)
    × Posted april_run (due_for 1 april_run worker office) (blank_entry 100 30 7) row
process_employee-Posted_example = process_employee-Posted zone clock 1 april_run worker office

initiate_run-again_example :
    let fresh = record office { payroll_runs = [] } in
    let db' = (initiate_run zone clock 1 2 april fresh).1 in
    initiate_run zone later 1 3 april db'
    ≡ (err (conflict "A payroll run for … already exists for this organization"), db')
initiate_run-again_example =
    initiate_run-again zone clock later 1 2 3 april april (record office { payroll_runs = [] }) refl
      refl

get_lop_days_for_employee-twice_example :
    2 * 48
    ≤ get_lop_days_for_employee zone office 7 4 2026
      + get_lop_days_for_employee zone office 7 5 2026
get_lop_days_for_employee-twice_example =
    get_lop_days_for_employee-twice zone office 20 4 2026 5 2026 over_two_months refl refl refl
      (omega arith) (omega arith) (omega arith) (omega arith)

-- An entry of 40,000 that a tax of 1,000 is now taken from.
abbrev entered : PayrollEntry
entered = record (blank_entry 50 30 7) {
  basic_salary = pos 4000000;
  gross_salary = pos 4000000;
  net_salary = to_grains (pos 4000000);
}

abbrev taxed : UpdatePayrollEntryDto
taxed = record { remarks = none; tds = some (pos 100000); other_deductions = none }

abbrev entered_office : Db
entered_office = record office { payroll_entries = entered ∷ [] }

update_entry-net_example :
    let (result, db') = update_entry 1 30 7 taxed entered_office in
    (y : PayrollEntry) × (result ≡ ok y)
    × (find_first (is_entry_of 30 7) db'.payroll_entries ≡ some y)
    × (y.tds ≡ pos 100000)
    × (y.other_deductions ≡ pos 0)
    × (y.net_salary ≡ net_of april_run y)
    × (y.gross_salary ≡ pos 4000000)
update_entry-net_example =
    update_entry-net 1 30 7 taxed entered_office april_run entered refl refl (tt, tt) refl

-- A loss of two days of 30 is a fifteenth, and the insurance is rounded up to a rupee.
two_days_of_thirty : compute_lop (pos 1500000) 30 48 ≡ pos (100000 * 24 * month_grains)
unfolding compute_lop scale floor_div
two_days_of_thirty = refl

above_threshold : compute_pf (to_grains (pos 1500000)) ≡ pos 180000
unfolding compute_pf to_grains scale
above_threshold = refl

rounded_up : compute_esi (to_grains (pos 2000001)) ≡ pos 15100
unfolding compute_esi to_grains scale ceil_div
rounded_up = refl
