-- ===== src/Payroll/Processing/Posting.antt =====
-- What `processRun` writes into the entry of an employee.
use igreen_backend.Base.{ℕ, ◌≡◌, refl, ap, ◌∙◌, inl, inr, some, Option-cases, get_or}
use igreen_backend.Base.Int.{ℤ, pos, ◌+ℤ◌, ◌-ℤ◌, int_laws, scale}
use igreen_backend.Base.Calendar.{Clock, Zone, days_in_month}
use igreen_backend.Store.Table.{find_first, find_first-true}
use igreen_backend.Store.Table.Selection.{find_first-update_unique, find_first-create_new}
use igreen_backend.Store.Staff.{Employee}
use igreen_backend.Store.Payroll.{PayrollRun, PayrollEntry}
use igreen_backend.Store.Db.{Db}
use igreen_backend.Payroll.Entry.{
  is_entry_of, blank_entry, Due, due_for, accumulated, computed_entry, process_employee,
}
use igreen_backend.Payroll.Calculation.{compute_gross, compute_lop, compute_net, to_grains}
use igreen_backend.Payroll.Processing.Once.{mark_due_frame, made_is_entry_of}

-- In grains: the gross salary without loss of pay, provident fund, insurance and loans.
abbrev pub net_before_tax : PayrollRun → PayrollEntry → ℤ
net_before_tax run x =
    to_grains x.gross_salary
    -ℤ to_grains x.pf_employee
    -ℤ to_grains x.esi_employee
    -ℤ compute_lop x.gross_salary (days_in_month run.month run.year) x.lop_days
    -ℤ to_grains x.loan_deduction

-- What a round makes of the entry `x` when `due` is due.
pub record Posted (run : PayrollRun) (due : Due) (x row : PayrollEntry) : Type 0 where
  pub incentive : row.incentive_amount ≡ x.incentive_amount +ℤ due.incentive.total_incentive
  pub thanks : row.green_thanks_amount ≡ x.green_thanks_amount +ℤ due.green_thanks.total_amount
  pub loan : row.loan_deduction ≡ x.loan_deduction +ℤ due.loan.total_emi
  pub gross :
      row.gross_salary
      ≡ row.basic_salary +ℤ row.hra +ℤ row.special_allowance +ℤ row.incentive_amount
        +ℤ row.overtime_amount +ℤ row.travel_allowance +ℤ row.bonus +ℤ row.cumulative_incentive
        +ℤ row.green_thanks_amount +ℤ row.education_allowance +ℤ row.other_allowances
  pub net : row.net_salary ≡ net_before_tax run row
  pub tds : row.tds ≡ x.tds
  pub other_deductions : row.other_deductions ≡ x.other_deductions

-- Nothing is taken where no tax, advance or other deduction is.
no_deductions :
    (a b : ℤ) → a -ℤ to_grains (pos 0) -ℤ b -ℤ to_grains (pos 0) -ℤ to_grains (pos 0) ≡ a -ℤ b
unfolding to_grains scale
no_deductions a b = omega int_laws

computed_entry-Posted :
    (zone : Zone) (db : Db) (run : PayrollRun) (e : Employee) (due : Due) (x : PayrollEntry)
    → Posted run due x (computed_entry zone db run e (accumulated x due) x)
unfolding computed_entry compute_gross compute_net
computed_entry-Posted zone db run e due x = record {
  incentive = refl;
  thanks = refl;
  loan = refl;
  gross = refl;
  net = no_deductions _ _;
  tds = refl;
  other_deductions = refl;
}

module _ (zone : Zone) (clock : Clock) (org : ℕ) (run : PayrollRun) (e : Employee) (db : Db) where
  -- The entry that a round starts from.
  abbrev pub entry_before : PayrollEntry
  entry_before =
      get_or (find_first (is_entry_of run.id e.id) db.payroll_entries)
        (blank_entry db.next_id run.id e.id)

  -- A round leaves the employee an entry in which the incentive, the green thanks and the loan
  -- deduction are those of the entry before, zero if there was none, and what was due; the gross
  -- salary is the sum of its parts; the net salary is the gross without the loss of pay, the
  -- provident fund, the insurance and the loans. The tax and the other deductions that the entry
  -- had are kept, and the net salary is not less for them.
  pub process_employee-Posted :
      (row : PayrollEntry) × (find_first
          (is_entry_of run.id e.id)
          (process_employee zone clock org run e db).payroll_entries
        ≡ some row)
      × Posted run (due_for org run e db) entry_before row
  unfolding process_employee computed_entry
  process_employee-Posted =
      let p = is_entry_of run.id e.id in
      let due = due_for org run e db in
      elim (Option-cases (find_first p db.payroll_entries)) [
        | inl e0 ↦
            let blank = blank_entry db.next_id run.id e.id in
            let row = computed_entry zone db run e (accumulated blank due) blank in
            let entries =
              ap (λ (d : Db). d.payroll_entries) (mark_due_frame clock.now db.next_id due _) in
            rw (e0, process_employee)
              (
                row,
                ap (find_first p) entries
                    ∙ find_first-create_new p row db.payroll_entries e0
                        (made_is_entry_of zone org run db e (accumulated blank due)),
                computed_entry-Posted zone db run e due blank,
              )
        | inr (x, e1) ↦
            let change = computed_entry zone db run e (accumulated x due) in
            let entries =
              ap (λ (d : Db). d.payroll_entries) (mark_due_frame clock.now x.id due _) in
            rw (e1, process_employee)
              (
                change x,
                ap (find_first p) entries
                    ∙ find_first-update_unique p change x
                        (find_first-true p db.payroll_entries x e1) db.payroll_entries e1,
                computed_entry-Posted zone db run e due x,
              )
      ]
