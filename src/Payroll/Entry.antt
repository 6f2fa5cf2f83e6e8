-- ===== src/Payroll/Entry.antt =====
-- The entry of an employee in a run: what is due and how it is computed, and the round of `processRun`
-- that writes it (src/modules/payroll/payroll.service.ts).
use igreen_backend.Base.{
  ℕ, ◌+◌, ◌-◌, ◌*◌, Bool, none, some, String, List, [], ◌∷◌, ◌&&◌, ◌==◌, leb, is_some,
  if◌then◌else◌,
}
use igreen_backend.Base.Int.{ℤ, pos, ◌+ℤ◌, ◌-ℤ◌}
use igreen_backend.Base.Calendar.{Clock, Zone, days_in_month}
use igreen_backend.Store.Table.{find_first, find_many, update_unique, create}
use igreen_backend.Store.Staff.{Employee}
use igreen_backend.Store.Leave.{LeaveStatus, leave_status_eq, LeavePolicyType, LeaveApplication}
use igreen_backend.Store.Payroll.{
  JsonValue, number, other, PayrollStructure, PayrollRun, PayrollEntry,
}
use igreen_backend.Store.Db.{Db}
use igreen_backend.Loans.Service.{LoanDeductionForPeriod}
use igreen_backend.Loans.Service.Deduction.{get_active_loan_deduction_for_period, mark_emi_deducted}
use igreen_backend.Incentives.{
  ReleasedIncentiveForPeriod, get_released_incentive_for_period, mark_incentive_deducted,
}
use igreen_backend.GreenThanks.{
  ApprovedGreenThanksForPeriod, get_approved_green_thanks_for_period, mark_green_thanks_paid,
}
use igreen_backend.Payroll.Calculation.{
  SalaryComponents, compute_gross, compute_lop, compute_pf, compute_esi, compute_net, to_grains,
}
use text.Mathlib.Text.{◌==◌ as str_eq}

-- `asNumber(raw[key])`
abbrev pub component : List (String × JsonValue) → String → ℤ
component [] key = pos 0
component ((k, v) ∷ raw) key =
    let rest = component raw key in
    if str_eq k key then elim v [ number a ↦ a | other ↦ pos 0 ] else rest

abbrev pub components_of : Db → Employee → List (String × JsonValue)
components_of db e = elim e.payroll_structure_id [
  | none ↦ []
  | some id ↦ elim (find_first (λ (s : PayrollStructure). s.id == id) db.payroll_structures) [
    | none ↦ []
    | some s ↦ s.components
  ]
]

pub resolve_components : Db → Employee → SalaryComponents
resolve_components db e =
    let raw = components_of db e in
    record {
      basic = component raw "basic";
      hra = component raw "hra";
      special_allowance = component raw "specialAllowance";
      education_allowance = component raw "educationAllowance";
      travel_allowance = component raw "travelAllowance";
      other_allowances = component raw "otherAllowances";
      incentive = some (pos 0);
      cumulative_incentive = some (pos 0);
      overtime = some (pos 0);
      bonus = some (pos 0);
      green_thanks = some (pos 0);
    }

-- `leavePolicyType: { isLopEligible: true }`
abbrev pub is_lop_type : Db → ℕ → Bool
is_lop_type db type_id =
    is_some
      (find_first (λ (t : LeavePolicyType). t.id == type_id && t.is_lop_eligible) db.policy_types)

-- the `where` of `getLopDaysForEmployee`
abbrev pub is_lop_leave : Db → ℕ → ℕ → ℕ → LeaveApplication → Bool
is_lop_leave db employee_id month_start month_end a =
    a.employee_id == employee_id
    && leave_status_eq a.status LeaveStatus.approved
    && is_lop_type db a.leave_policy_type_id
    && leb a.from_date month_end
    && leb month_start a.to_date

-- `applications.reduce((sum, application) => sum + application.days, 0)`
abbrev pub total_days : ℕ → List LeaveApplication → ℕ
total_days acc [] = acc
total_days acc (a ∷ rows) = total_days (acc + a.days) rows

unfoldable pub get_lop_days_for_employee : Zone → Db → ℕ → ℕ → ℕ → ℕ
get_lop_days_for_employee zone db employee_id month year =
    let month_start = zone.start_of_month year (month - 1) in
    let month_end = zone.end_of_month year (month - 1) in
    total_days 0 (find_many (is_lop_leave db employee_id month_start month_end) db.leaves)

-- the unique key of an entry
abbrev pub is_entry_of : ℕ → ℕ → PayrollEntry → Bool
is_entry_of run_id employee_id x = x.payroll_run_id == run_id && x.employee_id == employee_id

-- the columns that the `create` of the upsert writes and the `update` leaves
abbrev pub blank_entry : ℕ → ℕ → ℕ → PayrollEntry
blank_entry id run_id employee_id = record {
  id = id;
  payroll_run_id = run_id;
  employee_id = employee_id;
  working_days = 0;
  present_days = 0;
  lop_days = 0;
  basic_salary = pos 0;
  hra = pos 0;
  special_allowance = pos 0;
  education_allowance = pos 0;
  other_allowances = pos 0;
  incentive_amount = pos 0;
  cumulative_incentive = pos 0;
  overtime_amount = pos 0;
  travel_allowance = pos 0;
  bonus = pos 0;
  green_thanks_amount = pos 0;
  gross_salary = pos 0;
  pf_employee = pos 0;
  pf_employer = pos 0;
  esi_employee = pos 0;
  esi_employer = pos 0;
  professional_tax = pos 0;
  tds = pos 0;
  loan_deduction = pos 0;
  advance_deduction = pos 0;
  other_deductions = pos 0;
  net_salary = pos 0;
  remarks = none;
}

-- What an employee is paid in a run besides the structure, and what is taken for loans.
pub record Extras : Type 0 where
  pub incentive : ℤ
  pub green_thanks : ℤ
  pub loan : ℤ

-- the columns that both branches of the upsert write, on the entry `x`
unfoldable pub computed_entry :
    Zone → Db → PayrollRun → Employee → Extras → PayrollEntry → PayrollEntry
unfolding resolve_components get_lop_days_for_employee
computed_entry zone db run e extras x =
    let total_days_in_month = days_in_month run.month run.year in
    let components = record (resolve_components db e) {
      incentive = some extras.incentive;
      green_thanks = some extras.green_thanks;
    } in
    let g = compute_gross components in
    let lop_days = get_lop_days_for_employee zone db e.id run.month run.year in
    let lop = compute_lop g.gross total_days_in_month lop_days in
    let gross_minus_lop = to_grains g.gross -ℤ lop in
    let pf = compute_pf gross_minus_lop in
    let esi = compute_esi gross_minus_lop in
    record x {
      working_days = total_days_in_month;
      present_days = 24 * total_days_in_month - lop_days;
      lop_days = lop_days;
      basic_salary = g.basic;
      hra = g.hra;
      special_allowance = g.special_allowance;
      education_allowance = g.education_allowance;
      other_allowances = g.other_allowances;
      incentive_amount = g.incentive;
      cumulative_incentive = g.cumulative_incentive;
      overtime_amount = g.overtime;
      travel_allowance = g.travel_allowance;
      bonus = g.bonus;
      green_thanks_amount = g.green_thanks;
      gross_salary = g.gross;
      pf_employee = pf;
      pf_employer = pf;
      esi_employee = esi;
      esi_employer = esi;
      professional_tax = pos 0;
      loan_deduction = extras.loan;
      net_salary = compute_net (record {
        gross = g.gross;
        pf = pf;
        esi = esi;
        lop = lop;
        tds = pos 0;
        loan_deduction = extras.loan;
        advance_deduction = pos 0;
        other_deductions = pos 0;
      });
    }

-- What the period still owes the employee and takes for loans.
pub record Due : Type 0 where
  pub incentive : ReleasedIncentiveForPeriod
  pub green_thanks : ApprovedGreenThanksForPeriod
  pub loan : LoanDeductionForPeriod

abbrev pub due_for : ℕ → PayrollRun → Employee → Db → Due
due_for organization_id run e db = record {
  incentive = get_released_incentive_for_period db organization_id e.id run.month run.year;
  green_thanks = get_approved_green_thanks_for_period db organization_id e.id run.month run.year;
  loan = get_active_loan_deduction_for_period db organization_id e.id run.month run.year;
}

-- onto what the entry already has
abbrev pub accumulated : PayrollEntry → Due → Extras
accumulated x due = record {
  incentive = x.incentive_amount +ℤ due.incentive.total_incentive;
  green_thanks = x.green_thanks_amount +ℤ due.green_thanks.total_amount;
  loan = x.loan_deduction +ℤ due.loan.total_emi;
}

-- the three calls that mark what was paid
unfoldable pub mark_due : ℕ → ℕ → Due → Db → Db
mark_due now entry_id due db = mark_green_thanks_paid due.green_thanks.green_thanks_ids (
    mark_incentive_deducted due.incentive.ledger_ids entry_id
      (mark_emi_deducted now due.loan.schedule_ids entry_id db))

-- one round of the loop over the employees
unfoldable pub process_employee : Zone → Clock → ℕ → PayrollRun → Employee → Db → Db
unfolding computed_entry mark_due
process_employee zone clock organization_id run e db =
    let due = due_for organization_id run e db in
    elim (find_first (is_entry_of run.id e.id) db.payroll_entries) [
      | none ↦
          let blank = blank_entry db.next_id run.id e.id in
          let made = computed_entry zone db run e (accumulated blank due) blank in
          mark_due clock.now db.next_id due (record db {
            next_id = db.next_id + 1;
            payroll_entries = create made db.payroll_entries;
          })
      | some x ↦ mark_due clock.now x.id due (record db {
        payroll_entries =
            update_unique (is_entry_of run.id e.id)
              (computed_entry zone db run e (accumulated x due)) db.payroll_entries;
      })
    ]

unfoldable pub process_each : Zone → Clock → ℕ → PayrollRun → List Employee → Db → Db
unfolding process_employee
process_each zone clock organization_id run [] db = db
process_each zone clock organization_id run (e ∷ es) db =
    process_each zone clock organization_id run es
      (process_employee zone clock organization_id run e db)
