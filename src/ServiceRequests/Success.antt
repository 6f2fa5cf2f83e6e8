-- ===== src/ServiceRequests/Success.antt =====
-- When a grant of special leave goes through.
use igreen_backend.Base.{
  ℕ, ◌≡◌, inl, inr, Bool, true, false, Option, some, List, [], ◌∷◌, arith, is_some, ◌==◌,
  Option-cases, Bool-cases,
}
use igreen_backend.Base.Calendar.{Clock}
use igreen_backend.Store.Table.{find_first, update_where, create}
use igreen_backend.Store.Leave.{LeavePolicyType}
use igreen_backend.Store.Request.{ServiceRequest}
use igreen_backend.Store.Db.{Db, fails}
use igreen_backend.Leave.Balance.{
  is_kept_type, is_balance_of, new_balance, initialize_for_employee, deduct_balance,
}
use igreen_backend.ServiceRequests.{grant_writes, grant_special_leave}
use igreen_backend.ServiceRequests.Grant.{Grants}

module _ {A : Type 0} where
  find_first-create :
      (p : A → Bool) (a : A) (xs : List A)
      → p a ≡ true
      → is_some (find_first p (create a xs)) ≡ true
  find_first-create p a [] h = ground arith
  find_first-create p a (x ∷ xs) h = ground (arith, find_first-create p a xs h)

  find_first-update_same :
      (p q : A → Bool) (xs : List A) (x : A)
      → find_first p xs ≡ some x
      → is_some (find_first p (update_where q (λ y. y) xs)) ≡ true
  find_first-update_same p q [] x h = absurd (cc)
  find_first-update_same p q (y ∷ xs) x h = elim (Bool-cases (p y)) [
    | inl e ↦ ground arith
    | inr e ↦ let later = find_first-update_same p q xs x (ground arith) in ground (arith, later)
  ]

initialize_for_employee-found :
    (employee type year : ℕ) (db : Db) (t : LeavePolicyType)
    → find_first (is_kept_type db type) db.policy_types ≡ some t
    → (fails (initialize_for_employee employee type year db).0 ≡ false)
      × (is_some (
            find_first
              (is_balance_of employee type year)
              (initialize_for_employee employee type year db).1.balances)
          ≡ true)
unfolding initialize_for_employee
initialize_for_employee-found employee type year db t h =
    let p = is_balance_of employee type year in
    elim (Option-cases (find_first p db.balances)) [
      | inl e ↦
          let row = new_balance db.next_id employee type year t.days_per_year in
          let new = find_first-create p row db.balances (ground arith) in
          (ground arith, ground (arith, new))
      | inr (b, e) ↦
          let kept = find_first-update_same p (λ r. r.id == b.id) db.balances b e in
          (ground arith, ground (arith, kept))
    ]

grant_writes_run :
    (clock : Clock) (id : ℕ) (r : ServiceRequest) (employee type from to days approver : ℕ)
    (db : Db) (t : LeavePolicyType)
    → find_first (is_kept_type db type) db.policy_types ≡ some t
    → fails (grant_writes clock id r employee type from to days approver db).0 ≡ false
unfolding grant_writes deduct_balance
grant_writes_run clock id r employee type from to days approver db t kept =
    let year = clock.get_full_year from in
    let (made, found) = initialize_for_employee-found employee type year db t kept in
    ground (arith, made, found)

-- A grant goes through when the request is special leave that is not finished, of an employee who
-- is not the approver, with all its fields, on dates without a holiday and without another live
-- application, and its leave type belongs to a policy that is not deleted.
pub grant_special_leave_succeeds :
    (clock : Clock) (org id approver : ℕ) (own : Option ℕ) (db : Db) (r : ServiceRequest)
    (employee type from to days : ℕ) (t : LeavePolicyType)
    → Grants org id own db r employee type from to days
    → find_first (is_kept_type db type) db.policy_types ≡ some t
    → fails (grant_special_leave clock org id approver own db).0 ≡ false
unfolding grant_special_leave
grant_special_leave_succeeds clock org id approver own db r employee type from to days t
      (found, special, live, other, a, b, c, d, e, holiday, free) kept =
    let run = grant_writes_run clock id r employee type from to days approver db t kept in
    ground (arith, run)
