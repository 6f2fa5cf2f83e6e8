-- ===== src/Exit/Settlement.antt =====
-- What a settlement writes, also when it fails.
use igreen_backend.Base.{
  ℕ, ◌≡◌, inl, inr, Bool, true, false, some, String, arith, ◌==◌, not, get_or, has_text,
  if◌then◌else◌,
}
use igreen_backend.Base.Int.{ℤ}
use igreen_backend.Base.Calendar.{Clock}
use igreen_backend.Store.Table.{find_first, update_where, find_first-wider}
use igreen_backend.Store.Staff.{
  EmployeeStatus, pre_boarding, active, on_leave, suspended, exited, Employee,
}
use igreen_backend.Store.Exit.{cleared, ExitRecord}
use igreen_backend.Store.Db.{Db, fails, ok, Result-cases, is_employee_of}
use igreen_backend.Assets.{is_staff_of, count_unreturned_assignments_for_employee}
use igreen_backend.Loans.Service.Deduction.{works_for, get_outstanding_balance_for_employee}
use igreen_backend.Employees.{patched, patch_status}
use igreen_backend.Exit.{is_exit_of, settled_as, settle}
use igreen_backend.Exit.Lifecycle.{count_unreturned-keeps}

-- The employee's state or the reason of the exit does not let the employee leave.
abbrev pub refuses : EmployeeStatus → String → Bool
refuses exited reason = true
refuses active reason = not (has_text (some reason))
refuses pre_boarding reason = not (has_text (some reason))
refuses on_leave reason = false
refuses suspended reason = false

counts :
    (org employee : ℕ) (db : Db) (e : Employee)
    → find_first (is_employee_of org employee) db.employees ≡ some e
    → (n : ℕ) × ((count_unreturned_assignments_for_employee org employee db).0 ≡ ok n)
unfolding count_unreturned_assignments_for_employee
counts org employee db e found =
    let (f, staff) =
      find_first-wider (is_employee_of org employee) (is_staff_of org employee)
        (λ e h. ground arith) db.employees e found in
    elim (Result-cases (count_unreturned_assignments_for_employee org employee db).0) [
      | inl h ↦ h
      | inr (x, thrown) ↦ absurd (ground (arith))
    ]

owes :
    (org employee : ℕ) (db : Db) (e : Employee)
    → find_first (is_employee_of org employee) db.employees ≡ some e
    → (m : ℤ) × ((get_outstanding_balance_for_employee org employee db).0 ≡ ok m)
unfolding get_outstanding_balance_for_employee
owes org employee db e found =
    let (f, staff) =
      find_first-wider (is_employee_of org employee) (works_for org employee) (λ e h. ground arith)
        db.employees e found in
    elim (Result-cases (get_outstanding_balance_for_employee org employee db).0) [
      | inl h ↦ h
      | inr (x, thrown) ↦ absurd (ground (arith))
    ]

get_outstanding-keeps :
    (org employee : ℕ) (db : Db) → (get_outstanding_balance_for_employee org employee db).1 ≡ db
unfolding get_outstanding_balance_for_employee
get_outstanding-keeps org employee db = ground arith

settle_writes :
    (clock : Clock) (org user id : ℕ) (amount : ℤ) (db : Db) (r : ExitRecord) (e : Employee) (m : ℤ)
    (n : ℕ)
    → find_first (is_exit_of org id) db.exits ≡ some r
    → r.status ≡ cleared
    → find_first (is_employee_of org r.employee_id) db.employees ≡ some e
    → (get_outstanding_balance_for_employee org r.employee_id db).0 ≡ ok m
    → (count_unreturned_assignments_for_employee org r.employee_id db).0 ≡ ok n
    → let db' = (settle clock org user id amount db).1 in
      let refused = refuses e.status (get_or r.reason "Exit settled") in
      (fails (settle clock org user id amount db).0 ≡ refused)
      × (db'.exits ≡ update_where (λ x. x.id == id) (settled_as clock.now amount) db.exits)
      × (db'.employees ≡ (
          if refused
          then db.employees
          else update_where (λ x. x.id == r.employee_id) (patched exited user) db.employees))
unfolding settle patch_status
settle_writes clock org user id amount db r e m n found done staff owed out =
    let k = get_outstanding-keeps org r.employee_id db in
    let l = count_unreturned-keeps org r.employee_id db in ground (arith, k, l)

-- The settlement of a record that is CLEARED, whose employee is not deleted, makes the record
-- SETTLED in every case. It throws just when the employee is EXITED, or is ACTIVE or PRE_BOARDING
-- and the reason of the exit is empty; then the employee's row stays, and otherwise the employee
-- becomes EXITED.
pub settle_outcome :
    (clock : Clock) (org user id : ℕ) (amount : ℤ) (db : Db) (r : ExitRecord) (e : Employee)
    → find_first (is_exit_of org id) db.exits ≡ some r
    → r.status ≡ cleared
    → find_first (is_employee_of org r.employee_id) db.employees ≡ some e
    → let db' = (settle clock org user id amount db).1 in
      let refused = refuses e.status (get_or r.reason "Exit settled") in
      (fails (settle clock org user id amount db).0 ≡ refused)
      × (db'.exits ≡ update_where (λ x. x.id == id) (settled_as clock.now amount) db.exits)
      × (db'.employees ≡ (
          if refused
          then db.employees
          else update_where (λ x. x.id == r.employee_id) (patched exited user) db.employees))
settle_outcome clock org user id amount db r e found done staff =
    let (m, owed) = owes org r.employee_id db e staff in
    let (n, out) = counts org r.employee_id db e staff in
    settle_writes clock org user id amount db r e m n found done staff owed out
