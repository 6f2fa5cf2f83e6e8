-- ===== src/Loans/Service/Deduction/Once.antt =====
-- An instalment is deducted once: what a period reports and payroll then marks is not reported
-- again.
use igreen_backend.Base.{List, ap, ℕ, ◌≡◌, refl, true, [], arith, map, ◌&&◌, ◌==◌, is_some, elem}
use igreen_backend.Base.Int.{pos}
use igreen_backend.Store.Table.{find_first, find_many, selected-elem, find_many-update_where}
use igreen_backend.Store.Table.Selection.{find_many-stays, find_many-none, update_where-none}
use igreen_backend.Store.Table.Evolution.{Evolves-found}
use igreen_backend.Store.Loan.{LoanApplication, LoanEmiSchedule}
use igreen_backend.Store.Db.{Db}
use igreen_backend.Loans.Service.Deduction.{
  mark_emi_deducted, affected_loan_ids, close_settled, deducted, is_due,
  get_active_loan_deduction_for_period, is_active_loan_of,
}
use igreen_backend.Loans.Service.Deduction.Closing.{
  Closes, mark_emi_deducted-Closes, mark_emi_deducted_keeps,
}

Closes-is_active_loan_of :
    (db : Db) (org employee loan_id : ℕ) (a b : LoanApplication)
    → Closes a b
    → (b.id == loan_id && is_active_loan_of db org employee b) ≡ true
    → (a.id == loan_id && is_active_loan_of db org employee a) ≡ true
Closes-is_active_loan_of db org employee loan_id a b c h = ground arith

-- `is_due` reads of a database its loans and its employees.
is_due_before :
    (db db' : Db) (org employee month year : ℕ) (row : LoanEmiSchedule)
    → db'.employees ≡ db.employees
    → (is_some (
            find_first
              (λ loan. loan.id == row.loan_id && is_active_loan_of db org employee loan)
              db'.loans)
          ≡ true
        → is_some (
            find_first
              (λ loan. loan.id == row.loan_id && is_active_loan_of db org employee loan)
              db.loans)
          ≡ true)
    → is_due db' org employee month year row ≡ true
    → is_due db org employee month year row ≡ true
is_due_before db db' org employee month year row same found h =
    let due = rw same at h in ground (arith, found)

-- Nothing is due once what is due is marked.
pub mark_emi_deducted-none :
    (now org employee month year entry : ℕ) (db : Db)
    → let due = get_active_loan_deduction_for_period db org employee month year in
      let db' = mark_emi_deducted now due.schedule_ids entry db in
      find_many (is_due db' org employee month year) db'.emis ≡ []
unfolding get_active_loan_deduction_for_period
mark_emi_deducted-none now org employee month year entry db =
    let p = is_due db org employee month year in
    let ids = map (λ (row : LoanEmiSchedule). row.id) (find_many p db.emis) in
    let db' = mark_emi_deducted now ids entry db in
    let (emis, employees) = mark_emi_deducted_keeps now ids entry db in
    rw emis (
      find_many-update_where p (λ row. elem row.id ids) (is_due db' org employee month year)
        (deducted now entry) db.emis (selected-elem (λ row. row.id) p db.emis)
        (λ row. is_due_before db db' org employee month year row employees (
          Evolves-found Closes _ (Closes-is_active_loan_of db org employee row.loan_id) db.loans
            db'.loans (mark_emi_deducted-Closes now ids entry db)))
        (λ row. ground arith))

-- After the instalments that a period reports for an employee have been marked as deducted, the
-- same period reports none for that employee, and a total of zero.
pub get_active_loan_deduction_for_period-mark_emi_deducted :
    (now org employee month year entry : ℕ) (db : Db)
    → let due = get_active_loan_deduction_for_period db org employee month year in
      let db' = mark_emi_deducted now due.schedule_ids entry db in
      get_active_loan_deduction_for_period db' org employee month year
      ≡ record { total_emi = pos 0; schedule_ids = [] }
unfolding get_active_loan_deduction_for_period
get_active_loan_deduction_for_period-mark_emi_deducted now org employee month year entry db =
    let nothing = mark_emi_deducted-none now org employee month year entry db in rw nothing refl

-- What is not due is not made due by marking instalments.
pub mark_emi_deducted-stays :
    (now org employee month year entry : ℕ) (ids : List ℕ) (db : Db)
    → find_many (is_due db org employee month year) db.emis ≡ []
    → let db' = mark_emi_deducted now ids entry db in
      find_many (is_due db' org employee month year) db'.emis ≡ []
mark_emi_deducted-stays now org employee month year entry ids db none_due =
    let db' = mark_emi_deducted now ids entry db in
    let (emis, employees) = mark_emi_deducted_keeps now ids entry db in
    rw emis (
      find_many-stays (is_due db org employee month year) (λ row. elem row.id ids)
        (is_due db' org employee month year) (deducted now entry)
        (λ row. is_due_before db db' org employee month year row employees (
          Evolves-found Closes _ (Closes-is_active_loan_of db org employee row.loan_id) db.loans
            db'.loans (mark_emi_deducted-Closes now ids entry db)))
        (λ row. ground arith) db.emis none_due)

-- Marking no instalments does nothing.
pub mark_emi_deducted-nil : (now entry : ℕ) (db : Db) → mark_emi_deducted now [] entry db ≡ db
unfolding mark_emi_deducted affected_loan_ids close_settled
mark_emi_deducted-nil now entry db =
    let unchanged =
      update_where-none (λ row. elem row.id []) (deducted now entry) (λ _. refl) db.emis in
    let selected = find_many-none (λ (row : LoanEmiSchedule). elem row.id []) (λ _. refl) db.emis in
    rw selected (ap (λ emis. record db { emis = emis }) unchanged)
