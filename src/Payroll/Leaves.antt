-- ===== src/Payroll/Leaves.antt =====
-- The days that a month takes for leaves without pay.
use igreen_backend.Base.{
  ℕ, ◌+◌, ◌-◌, ◌*◌, ◌≤◌, ◌≡◌, inl, inr, true, some, List, [], ◌∷◌, arith, ◌==◌, Bool-cases, Bool,
}
use igreen_backend.Base.Calendar.{Zone}
use igreen_backend.Store.Table.{find_first, find_many}
use igreen_backend.Store.Leave.{LeaveStatus, LeaveApplication}
use igreen_backend.Store.Db.{Db}
use igreen_backend.Payroll.Entry.{is_lop_type, is_lop_leave, total_days, get_lop_days_for_employee}

total_days_acc : (acc : ℕ) (rows : List LeaveApplication) → acc ≤ total_days acc rows
total_days_acc acc [] = omega arith
total_days_acc acc (a ∷ rows) = omega (arith, total_days_acc (acc + a.days) rows)

-- A leave that is selected counts in full.
total_days-find_many :
    (p : LeaveApplication → Bool) (acc id : ℕ) (a : LeaveApplication)
    → p a ≡ true
    → (rows : List LeaveApplication)
    → find_first (λ (x : LeaveApplication). x.id == id) rows ≡ some a
    → acc + a.days ≤ total_days acc (find_many p rows)
total_days-find_many p acc id a h [] found = absurd (cc)
total_days-find_many p acc id a h (x ∷ rows) found = elim (Bool-cases (x.id == id)) [
  | inl e ↦
      let here : x ≡ a = ground arith in
      rw (here, h) (total_days_acc (acc + a.days) (find_many p rows))
  | inr e ↦
      let later = rw e at found in
      elim (Bool-cases (p x)) [
        | inl s ↦ rw s (omega (arith, total_days-find_many p (acc + x.days) id a h rows later))
        | inr s ↦ rw s (total_days-find_many p acc id a h rows later)
      ]
]

-- An approved leave of a type without pay that begins by the end of the first of two months and
-- ends no earlier than the beginning of the second is taken with all its days in both months.
pub get_lop_days_for_employee-twice :
    (zone : Zone) (db : Db) (id month year month' year' : ℕ) (a : LeaveApplication)
    → find_first (λ (x : LeaveApplication). x.id == id) db.leaves ≡ some a
    → a.status ≡ LeaveStatus.approved
    → is_lop_type db a.leave_policy_type_id ≡ true
    → zone.start_of_month year (month - 1) ≤ a.to_date
    → a.from_date ≤ zone.end_of_month year (month - 1)
    → zone.start_of_month year' (month' - 1) ≤ a.to_date
    → a.from_date ≤ zone.end_of_month year' (month' - 1)
    → 2 * a.days
      ≤ get_lop_days_for_employee zone db a.employee_id month year
        + get_lop_days_for_employee zone db a.employee_id month' year'
unfolding get_lop_days_for_employee
get_lop_days_for_employee-twice zone db id month year month' year' a found h t s f s' f' =
    let p =
      is_lop_leave db a.employee_id (zone.start_of_month year (month - 1))
        (zone.end_of_month year (month - 1)) in
    let p' =
      is_lop_leave db a.employee_id (zone.start_of_month year' (month' - 1))
        (zone.end_of_month year' (month' - 1)) in
    let overlaps : p a ≡ true = ground arith in
    let overlaps' : p' a ≡ true = ground arith in
    omega (
      arith,
      total_days-find_many p 0 id a overlaps db.leaves found,
      total_days-find_many p' 0 id a overlaps' db.leaves found,
    )
