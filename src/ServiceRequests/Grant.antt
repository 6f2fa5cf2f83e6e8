-- ===== src/ServiceRequests/Grant.antt =====
-- What a grant of special leave writes.
use igreen_backend.Base.{
  ℕ, ◌+◌, ◌≡◌, refl, ◌⊎◌, inl, inr, true, false, Option, none, some, arith, ◌==◌, Option-cases,
  is_some, ◌&&◌, opt_eq,
}
use igreen_backend.Base.Calendar.{Clock}
use igreen_backend.Store.Table.{find_first, update_where, create, find_first-none}
use igreen_backend.Store.Leave.{LeaveApplication}
use igreen_backend.Store.Request.{
  open_request, assigned, in_progress, is_special_leave, ServiceRequest,
}
use igreen_backend.Store.Db.{Db, ok, fails, transaction, Result-cases}
use igreen_backend.Leave.Balance.{initialize_for_employee}
use igreen_backend.Leave.Balance.Frame.{
  initialize_for_employee-leaves, deduct_balance-leaves, initialize_for_employee-requests,
  deduct_balance-requests,
}
use igreen_backend.Leave.Applications.Overlap.{NoOverlap, create-NoOverlap}
use igreen_backend.Leave.Applications.{is_holiday_in, overlaps}
use igreen_backend.ServiceRequests.{
  is_request_of, special_application, granted_as, grant_writes, grant_special_leave,
}

grant_writes_effect :
    (clock : Clock) (id : ℕ) (r : ServiceRequest) (employee type from to days approver : ℕ)
    (db : Db) (o : ServiceRequest × LeaveApplication)
    → (grant_writes clock id r employee type from to days approver db).0 ≡ ok o
    → let db' = (grant_writes clock id r employee type from to days approver db).1 in
      (a : ℕ) × (db'.requests ≡ update_where (λ x. x.id == id) (granted_as clock.now a) db.requests)
      × (db'.leaves
          ≡ create (special_application a clock.now employee type from to days approver) db.leaves)
unfolding grant_writes
grant_writes_effect clock id r employee type from to days approver db o h =
    let year = clock.get_full_year from in
    let started = initialize_for_employee employee type year db in
    elim (Result-cases started.0) [
      | inr (e, failed) ↦ absurd (ground arith)
      | inl (b, made) ↦
          let a = started.1.next_id in
          let application = special_application a clock.now employee type from to days approver in
          let created = record started.1 {
            next_id = a + 1;
            leaves = create application started.1.leaves;
          } in
          let leaves = initialize_for_employee-leaves employee type year db in
          let requests = initialize_for_employee-requests employee type year db in
          let leaves' = deduct_balance-leaves employee type year days true created in
          let requests' = deduct_balance-requests employee type year days true created in
          (a, ground (arith, requests, requests'), ground (arith, leaves, leaves'))
    ]

-- The request is special leave that is not finished, of another employee than the approver, with
-- all its fields, on dates that are free.
abbrev pub Grants : ℕ → ℕ → Option ℕ → Db → ServiceRequest → ℕ → ℕ → ℕ → ℕ → ℕ → Type 0
Grants org id own db r employee type from to days =
    (find_first (is_request_of org id) db.requests ≡ some r)
    × (is_special_leave r.category ≡ true)
    × ((r.status ≡ open_request) ⊎ ((r.status ≡ assigned) ⊎ (r.status ≡ in_progress)))
    × ((is_some own && opt_eq r.employee_id own) ≡ false)
    × (r.employee_id ≡ some employee)
    × (r.leave_policy_type_id ≡ some type)
    × (r.leave_from_date ≡ some from)
    × (r.leave_to_date ≡ some to)
    × (r.leave_days ≡ some days)
    × (find_first (is_holiday_in org from to) db.holidays ≡ none)
    × (find_first (overlaps employee from to) db.leaves ≡ none)

fields_cases :
    (a b c d e : Option ℕ)
    → ((v : ℕ) × (w : ℕ) × (x : ℕ) × (y : ℕ) × (z : ℕ) × (a ≡ some v)
        × (b ≡ some w)
        × (c ≡ some x)
        × (d ≡ some y)
        × (e ≡ some z))
      ⊎ ((is_some a && is_some b && is_some c && is_some d && is_some e) ≡ false)
fields_cases none b c d e = inr refl
fields_cases (some v) none c d e = inr refl
fields_cases (some v) (some w) none d e = inr refl
fields_cases (some v) (some w) (some x) none e = inr refl
fields_cases (some v) (some w) (some x) (some y) none = inr refl
fields_cases (some v) (some w) (some x) (some y) (some z) =
    inl (v, w, x, y, z, refl, refl, refl, refl, refl)

grant_without :
    (clock : Clock) (org id approver : ℕ) (own : Option ℕ) (db : Db)
    → (find_first (is_request_of org id) db.requests ≡ none)
      ⊎ ((r : ServiceRequest) × (find_first (is_request_of org id) db.requests ≡ some r)
          × ((is_some r.employee_id
                && is_some r.leave_policy_type_id
                && is_some r.leave_from_date
                && is_some r.leave_to_date
                && is_some r.leave_days)
              ≡ false))
    → (fails (grant_special_leave clock org id approver own db).0 ≡ true)
      × ((grant_special_leave clock org id approver own db).1 ≡ db)
unfolding grant_special_leave
grant_without clock org id approver own db (inl e) = (ground arith, ground arith)
grant_without clock org id approver own db (inr (r, e, h)) = (ground arith, ground arith)

grant_with :
    (clock : Clock) (org id approver : ℕ) (own : Option ℕ) (db : Db) (r : ServiceRequest)
    (employee type from to days : ℕ)
    → find_first (is_request_of org id) db.requests ≡ some r
    → r.employee_id ≡ some employee
    → r.leave_policy_type_id ≡ some type
    → r.leave_from_date ≡ some from
    → r.leave_to_date ≡ some to
    → r.leave_days ≡ some days
    → ((fails (grant_special_leave clock org id approver own db).0 ≡ true)
        × ((grant_special_leave clock org id approver own db).1 ≡ db))
      ⊎ ((is_special_leave r.category ≡ true)
          × ((r.status ≡ open_request) ⊎ ((r.status ≡ assigned) ⊎ (r.status ≡ in_progress)))
          × ((is_some own && opt_eq r.employee_id own) ≡ false)
          × (find_first (is_holiday_in org from to) db.holidays ≡ none)
          × (find_first (overlaps employee from to) db.leaves ≡ none)
          × (grant_special_leave clock org id approver own db
              ≡ transaction (grant_writes clock id r employee type from to days approver) db))
unfolding grant_special_leave
grant_with clock org id approver own db r employee type from to days e a b c d f = ground arith

-- A grant either throws and writes nothing, or reaches its transaction.
grant_cases :
    (clock : Clock) (org id approver : ℕ) (own : Option ℕ) (db : Db)
    → ((fails (grant_special_leave clock org id approver own db).0 ≡ true)
        × ((grant_special_leave clock org id approver own db).1 ≡ db))
      ⊎ ((r : ServiceRequest) × (employee : ℕ) × (type : ℕ) × (from : ℕ) × (to : ℕ) × (days : ℕ)
          × Grants org id own db r employee type from to days
          × (grant_special_leave clock org id approver own db
              ≡ transaction (grant_writes clock id r employee type from to days approver) db))
unfolding grant_special_leave
grant_cases clock org id approver own db =
    elim (Option-cases (find_first (is_request_of org id) db.requests)) [
      | inl e ↦ inl (grant_without clock org id approver own db (inl e))
      | inr (r, e) ↦
          elim (fields_cases r.employee_id r.leave_policy_type_id r.leave_from_date r.leave_to_date
            r.leave_days) [
              | inr h ↦ inl (grant_without clock org id approver own db (inr (r, e, h)))
              | inl (employee, type, from, to, days, a, b, c, d, f) ↦
                  elim (grant_with clock org id approver own db r employee type from to days e a b c
                    d f) [
                      | inl thrown ↦ inl thrown
                      | inr (special, live, other, open_days, free, done) ↦ inr (
                        r,
                        employee,
                        type,
                        from,
                        to,
                        days,
                        (e, special, live, other, a, b, c, d, f, open_days, free),
                        done,
                      )
                    ]
            ]
    ]

-- A grant either throws and writes nothing, or the request is special leave that is not finished,
-- of an employee who is not the approver, with all its fields, on dates without a holiday and
-- without another live application; then the request becomes RESOLVED with the identifier of the
-- one APPROVED application that is added for exactly its employee, type, dates and days.
pub grant_special_leave_outcome :
    (clock : Clock) (org id approver : ℕ) (own : Option ℕ) (db : Db)
    → let db' = (grant_special_leave clock org id approver own db).1 in
      ((fails (grant_special_leave clock org id approver own db).0 ≡ true) × (db' ≡ db))
      ⊎ ((r : ServiceRequest) × (employee : ℕ) × (type : ℕ) × (from : ℕ) × (to : ℕ) × (days : ℕ)
          × Grants org id own db r employee type from to days
          × (a : ℕ) × (db'.requests
              ≡ update_where (λ x. x.id == id) (granted_as clock.now a) db.requests)
          × (db'.leaves
              ≡ create
                  (special_application a clock.now employee type from to days approver)
                  db.leaves))
grant_special_leave_outcome clock org id approver own db =
    elim (grant_cases clock org id approver own db) [
      | inl thrown ↦ inl thrown
      | inr (r, employee, type, from, to, days, grants, done) ↦
          let run = grant_writes clock id r employee type from to days approver db in
          elim (Result-cases run.0) [
            | inr (e, failed) ↦ inl (ground (arith, done, failed), ground (arith, done, failed))
            | inl (o, made) ↦
                let (a, requests, leaves) =
                  grant_writes_effect clock id r employee type from to days approver db o made in
                inr (
                  r,
                  employee,
                  type,
                  from,
                  to,
                  days,
                  grants,
                  a,
                  ground (arith, done, made, requests),
                  ground (arith, done, made, leaves),
                )
          ]
    ]

-- A grant keeps it so that no two pending or approved applications of an employee share a moment.
pub grant_special_leave-NoOverlap :
    (clock : Clock) (org id approver : ℕ) (own : Option ℕ) (db : Db)
    → NoOverlap db.leaves
    → NoOverlap (grant_special_leave clock org id approver own db).1.leaves
grant_special_leave-NoOverlap clock org id approver own db h =
    elim (grant_special_leave_outcome clock org id approver own db) [
      | inl (thrown, same) ↦ rw same h
      | inr
            (
              r,
              employee,
              type,
              from,
              to,
              days,
              (found, special, live, other, p, q, s, t, u, holiday, free),
              a,
              requests,
              leaves,
            ) ↦
          rw leaves (
            create-NoOverlap (special_application a clock.now employee type from to days approver)
              db.leaves (find_first-none (overlaps employee from to) db.leaves free) h)
    ]
