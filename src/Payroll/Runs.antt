-- ===== src/Payroll/Runs.antt =====
-- The calls on a run of the payroll, and on one entry of it.
use igreen_backend.Base.{ℕ, ◌≡◌, refl, some, arith, get_or, true}
use igreen_backend.Base.Int.{ℤ, ◌-ℤ◌}
use igreen_backend.Base.Calendar.{days_in_month}
use igreen_backend.Store.Table.{find_first, find_first-true, find_first-update_found, IsKeyed}
use igreen_backend.Store.Payroll.{PayrollRun, PayrollEntry}
use igreen_backend.Store.Db.{Db, ok}
use igreen_backend.Payroll.{
  is_run_of, is_editable, UpdatePayrollEntryDto, corrected_entry, update_entry, get_entry,
  get_run_or_throw,
}
use igreen_backend.Payroll.Entry.{is_entry_of}
use igreen_backend.Payroll.Calculation.{compute_lop, compute_net, to_grains}

-- In grains: the gross salary without all that the entry takes from it.
abbrev pub net_of : PayrollRun → PayrollEntry → ℤ
net_of run x =
    to_grains x.gross_salary
    -ℤ to_grains x.pf_employee
    -ℤ to_grains x.esi_employee
    -ℤ compute_lop x.gross_salary (days_in_month run.month run.year) x.lop_days
    -ℤ to_grains x.tds
    -ℤ to_grains x.loan_deduction
    -ℤ to_grains x.advance_deduction
    -ℤ to_grains x.other_deductions

module _ (org run_id employee_id : ℕ) (dto : UpdatePayrollEntryDto) (db : Db) where
  -- With distinct identifiers of entries, a correction of an entry of a run that can still be
  -- edited returns the entry, in which the given values stand in place of the old ones and the net
  -- salary is the gross without provident fund, insurance, loss of pay, tax, loans, advances and
  -- other deductions; the entry is also what is stored.
  pub update_entry-net :
      (run : PayrollRun) (x : PayrollEntry)
      → find_first (is_run_of org run_id) db.payroll_runs ≡ some run
      → is_editable run.status ≡ true
      → IsKeyed (λ (y : PayrollEntry). y.id) db.payroll_entries
      → find_first (is_entry_of run_id employee_id) db.payroll_entries ≡ some x
      → let (result, db') = update_entry org run_id employee_id dto db in
        (y : PayrollEntry) × (result ≡ ok y)
        × (find_first (is_entry_of run_id employee_id) db'.payroll_entries ≡ some y)
        × (y.tds ≡ get_or dto.tds x.tds)
        × (y.other_deductions ≡ get_or dto.other_deductions x.other_deductions)
        × (y.net_salary ≡ net_of run y)
        × (y.gross_salary ≡ x.gross_salary)
  unfolding update_entry get_entry get_run_or_throw corrected_entry compute_net
  update_entry-net run x h k keyed found =
      let p = is_entry_of run_id employee_id in
      let after =
        find_first-update_found (λ y. y.id) p (corrected_entry run dto x) db.payroll_entries x keyed
          found (find_first-true p db.payroll_entries x found) in
      (
        corrected_entry run dto x x,
        ground (arith, after),
        ground (arith, after),
        refl,
        refl,
        refl,
        refl,
      )
