-- ===== src/Payroll.antt =====
-- class PayrollService (src/modules/payroll/payroll.service.ts). A response is the row that it is
-- made from, without the employee's name.
pub mod Calculation
pub mod Entry
pub mod Processing
pub mod Leaves
pub mod Runs
mod Tests
use igreen_backend.Base.{
  ℕ, ◌+◌, ◌-◌, ◌*◌, Bool, true, false, Option, none, some, String, List, [], ◌∷◌, map, ◌&&◌, ◌||◌,
  ◌==◌, not, leb, is_some, get_or, or_else, elem, opt_matches, if◌then◌else◌, length,
}
use igreen_backend.Base.Int.{ℤ, pos, ◌+ℤ◌, ◌-ℤ◌}
use igreen_backend.Base.Calendar.{Clock, Zone, days_in_month}
use igreen_backend.Base.Pagination.{
  PaginationDto, PaginatedResult, paginate, skip, take, drop, newest_first, sort_by,
}
use igreen_backend.Store.Table.{find_first, find_many, update_where, update_unique, create}
use igreen_backend.Store.Staff.{Employee, exited, employee_status_eq}
use igreen_backend.Store.Leave.{LeaveStatus, leave_status_eq, LeavePolicyType, LeaveApplication}
use igreen_backend.Store.Payroll.{
  JsonValue, number, other, PayrollStructure, PayrollRunStatus, draft, processing, completed,
  approved, disbursed, run_status_eq, PayrollRun, PayrollEntry,
}
use igreen_backend.Store.Db.{
  Db, bad_request, not_found, conflict, Action, pure, gets, or_throw, ◌>>=◌, ◌>>◌, throw_if, modify,
  fresh_id,
}
use igreen_backend.Loans.Service.{LoanDeductionForPeriod}
use igreen_backend.Loans.Service.Deduction.{get_active_loan_deduction_for_period, mark_emi_deducted}
use igreen_backend.Incentives.{
  ReleasedIncentiveForPeriod, get_released_incentive_for_period, mark_incentive_deducted,
}
use igreen_backend.GreenThanks.{
  ApprovedGreenThanksForPeriod, get_approved_green_thanks_for_period, mark_green_thanks_paid,
}
use igreen_backend.Payroll.Calculation.{
  SalaryComponents, GrossBreakdown, NetSalaryInput, compute_gross, compute_lop, compute_pf,
  compute_esi, compute_net, to_grains,
}
use text.Mathlib.Text.{◌==◌ as str_eq}
use igreen_backend.Payroll.Entry.{is_entry_of, process_each}

pub record InitiatePayrollRunDto : Type 0 where
  pub month : ℕ
  pub year : ℕ
  pub employee_ids : Option (List ℕ)

-- `employeeIds && employeeIds.length > 0 ? { id: { in: employeeIds } } : {}`
abbrev pub is_chosen : Option (List ℕ) → ℕ → Bool
is_chosen none id = true
is_chosen (some []) id = true
is_chosen (some (i ∷ ids)) id = elem id (i ∷ ids)

-- the `where` of the employees of a run
abbrev pub is_paid_in : ℕ → Option (List ℕ) → Employee → Bool
is_paid_in organization_id employee_ids e =
    e.organization_id == organization_id
    && not (is_some e.deleted_at)
    && not (employee_status_eq e.status exited)
    && is_chosen employee_ids e.id

-- `where: { id, organizationId }`
abbrev pub is_run_of : ℕ → ℕ → PayrollRun → Bool
is_run_of organization_id id r = r.id == id && r.organization_id == organization_id

pub get_run_or_throw : ℕ → ℕ → Action PayrollRun
get_run_or_throw organization_id id = do
  found ← gets (λ db. find_first (is_run_of organization_id id) db.payroll_runs)
  or_throw found (not_found "Payroll run not found")

abbrev pub with_run_status : PayrollRunStatus → PayrollRun → PayrollRun
with_run_status status r = record r { status = status }

abbrev pub completed_at : ℕ → PayrollRun → PayrollRun
completed_at now r = record r { status = completed; processed_at = some now }

abbrev pub update_run : ℕ → (PayrollRun → PayrollRun) → Db → Db
update_run id f db = record db { payroll_runs = update_where (λ r. r.id == id) f db.payroll_runs }

pub process_run : Zone → Clock → ℕ → ℕ → Option (List ℕ) → Action PayrollRun
unfolding get_run_or_throw process_each
process_run zone clock organization_id run_id employee_ids = do
  run ← get_run_or_throw organization_id run_id
  modify (update_run run_id (with_run_status processing))
  employees ← gets (λ db. find_many (is_paid_in organization_id employee_ids) db.employees)
  modify (process_each zone clock organization_id run employees)
  modify (update_run run_id (completed_at clock.now))
  pure (completed_at clock.now run)

-- toRunSummary; what is not a sum over the entries is the run itself. The net and the deductions
-- are in grains.
pub record RunSummary : Type 0 where
  pub run : PayrollRun
  pub entry_count : ℕ
  pub total_gross : ℤ
  pub total_net : ℤ
  pub total_deductions : ℤ

-- `run.entries.reduce((sum, entry) => sum + entry.…, 0)`
abbrev pub reduce_entries : (PayrollEntry → ℤ) → ℤ → List PayrollEntry → ℤ
reduce_entries column acc [] = acc
reduce_entries column acc (x ∷ xs) = reduce_entries column (acc +ℤ column x) xs

abbrev pub to_run_summary : Db → PayrollRun → RunSummary
to_run_summary db run =
    let entries = find_many (λ (x : PayrollEntry). x.payroll_run_id == run.id) db.payroll_entries in
    let total_gross = reduce_entries (λ x. x.gross_salary) (pos 0) entries in
    let total_net = reduce_entries (λ x. x.net_salary) (pos 0) entries in
    record {
      run = run;
      entry_count = length entries;
      total_gross = total_gross;
      total_net = total_net;
      total_deductions = to_grains total_gross -ℤ total_net;
    }

pub find_one_run : ℕ → ℕ → Action RunSummary
unfolding get_run_or_throw
find_one_run organization_id run_id = do
  run ← get_run_or_throw organization_id run_id
  gets (λ db. to_run_summary db run)

-- the data of the row that `initiateRun` creates
abbrev pub new_run : ℕ → ℕ → ℕ → InitiatePayrollRunDto → PayrollRun
new_run id organization_id user_id dto = record {
  id = id;
  organization_id = organization_id;
  month = dto.month;
  year = dto.year;
  status = draft;
  initiated_by = some user_id;
  processed_at = none;
  approved_at = none;
  disbursed_at = none;
}

-- the unique key of a run
abbrev pub is_run_in : ℕ → ℕ → ℕ → PayrollRun → Bool
is_run_in organization_id month year r =
    r.organization_id == organization_id && r.month == month && r.year == year

pub initiate_run : Zone → Clock → ℕ → ℕ → InitiatePayrollRunDto → Action RunSummary
unfolding process_run find_one_run
initiate_run zone clock organization_id user_id dto = do
  existing ← gets (λ db. find_first (is_run_in organization_id dto.month dto.year) db.payroll_runs)
  throw_if (is_some existing) (conflict "A payroll run for … already exists for this organization")
  id ← fresh_id
  modify (λ db. record db {
    payroll_runs = create (new_run id organization_id user_id dto) db.payroll_runs;
  })
  process_run zone clock organization_id id dto.employee_ids
  find_one_run organization_id id

pub record QueryPayrollRunDto : Type 0 where
  pub status : Option PayrollRunStatus
  pub month : Option ℕ
  pub year : Option ℕ
  pub pagination : PaginationDto

abbrev pub is_shown_run : ℕ → QueryPayrollRunDto → PayrollRun → Bool
is_shown_run organization_id query r =
    r.organization_id == organization_id
    && opt_matches run_status_eq query.status r.status
    && opt_matches (λ a b. a == b) query.month r.month
    && opt_matches (λ a b. a == b) query.year r.year

-- `orderBy: [{ year: 'desc' }, { month: 'desc' }]`, on months from 1 to 12
abbrev pub run_order : PayrollRun → ℕ
run_order r = r.year * 13 + r.month

pub find_all_runs : ℕ → QueryPayrollRunDto → Action (PaginatedResult RunSummary)
find_all_runs organization_id query = gets (λ db.
    let rows = find_many (is_shown_run organization_id query) db.payroll_runs in
    let page =
      take query.pagination.limit
        (drop (skip query.pagination) (newest_first (sort_by run_order rows))) in
    paginate (map (to_run_summary db) page) (length rows) query.pagination)

pub approve_run : Clock → ℕ → ℕ → Action RunSummary
unfolding get_run_or_throw find_one_run
approve_run clock organization_id run_id = do
  run ← get_run_or_throw organization_id run_id
  throw_if (not (run_status_eq run.status completed))
      (bad_request "Only a COMPLETED payroll run can be approved")
  modify (update_run run_id (λ r. record r { status = approved; approved_at = some clock.now }))
  find_one_run organization_id run_id

pub disburse_run : Clock → ℕ → ℕ → Action RunSummary
unfolding get_run_or_throw find_one_run
disburse_run clock organization_id run_id = do
  run ← get_run_or_throw organization_id run_id
  throw_if (not (run_status_eq run.status approved))
      (bad_request "Only an APPROVED payroll run can be disbursed")
  modify (update_run run_id (λ r. record r { status = disbursed; disbursed_at = some clock.now }))
  find_one_run organization_id run_id

pub get_entry : ℕ → ℕ → ℕ → Action PayrollEntry
unfolding get_run_or_throw
get_entry organization_id run_id employee_id = do
  get_run_or_throw organization_id run_id
  found ← gets (λ db. find_first (is_entry_of run_id employee_id) db.payroll_entries)
  or_throw found (not_found "Payroll entry not found for this employee")

-- EDITABLE_RUN_STATUSES
abbrev pub is_editable : PayrollRunStatus → Bool
is_editable status =
    run_status_eq status draft || run_status_eq status processing || run_status_eq status completed

pub record UpdatePayrollEntryDto : Type 0 where
  pub remarks : Option String
  pub tds : Option ℤ
  pub other_deductions : Option ℤ

-- the data of the update in `updateEntry`; the quotient is exact as in `compute_lop`
pub corrected_entry :
    PayrollRun → UpdatePayrollEntryDto → PayrollEntry → PayrollEntry → PayrollEntry
corrected_entry run dto x row =
    let tds = get_or dto.tds x.tds in
    let other_deductions = get_or dto.other_deductions x.other_deductions in
    record row {
      remarks = or_else dto.remarks x.remarks;
      tds = tds;
      other_deductions = other_deductions;
      net_salary = compute_net (record {
        gross = x.gross_salary;
        pf = x.pf_employee;
        esi = x.esi_employee;
        lop = compute_lop x.gross_salary (days_in_month run.month run.year) x.lop_days;
        tds = tds;
        loan_deduction = x.loan_deduction;
        advance_deduction = x.advance_deduction;
        other_deductions = other_deductions;
      });
    }

pub update_entry : ℕ → ℕ → ℕ → UpdatePayrollEntryDto → Action PayrollEntry
unfolding get_run_or_throw corrected_entry get_entry
update_entry organization_id run_id employee_id dto = do
  run ← get_run_or_throw organization_id run_id
  throw_if (not (is_editable run.status))
      (bad_request "Payroll entries cannot be edited once the run has been approved")
  found ← gets (λ db. find_first (is_entry_of run_id employee_id) db.payroll_entries)
  x ← or_throw found (not_found "Payroll entry not found for this employee")
  modify (λ db. record db {
    payroll_entries =
        update_where (λ y. y.id == x.id) (corrected_entry run dto x) db.payroll_entries;
  })
  get_entry organization_id run_id employee_id
