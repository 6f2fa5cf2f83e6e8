-- ===== src/ServiceRequests/States.antt =====
-- The states of service requests over all requests to the service.
use igreen_backend.Base.{ℕ, ◌≡◌, refl, ◌⊎◌, inl, inr, false, Option, List, ap}
use igreen_backend.Base.Calendar.{Clock}
use igreen_backend.Store.Table.{IsKeyed}
use igreen_backend.Store.Table.Evolution.{
  Evolves, Evolves-refl, Evolves-create, Evolves-update_found,
}
use igreen_backend.Store.Request.{
  is_special_leave, assigned, in_progress, resolved, closed, ServiceRequest,
}
use igreen_backend.Store.Db.{Db}
use igreen_backend.ServiceRequests.{
  is_request_of, assigned_as, resolved_as, granted_as, grant_special_leave, moved_to,
}
use igreen_backend.ServiceRequests.Lifecycle.{
  RequestCall, create_call, assign_call, resolve_call, grant_call, update_call, comment_call,
  run_request_call, RequestStep, IsOpen, RequestStep-refl, is_request_of-id, assigned-StatusStep,
  resolved-StatusStep, granted-StatusStep, moved-StatusStep, stepped, stepped-Evolves,
  assign_effect, assign_miss, resolve_effect, resolve_miss, update_status_effect,
  update_status_miss, add_comment-requests, create_request_effect, IsAtWork, IsUnfinished,
}
use igreen_backend.ServiceRequests.Grant.{grant_special_leave_outcome}

unchanged-Evolves :
    (rows rows' : List ServiceRequest) → rows' ≡ rows → Evolves RequestStep IsOpen rows rows'
unchanged-Evolves rows rows' same = rw same (Evolves-refl RequestStep IsOpen RequestStep-refl rows)

grant_call-Evolves :
    (clock : Clock) (org id approver : ℕ) (own : Option ℕ) (db : Db)
    → IsKeyed (λ (r : ServiceRequest). r.id) db.requests
    → Evolves RequestStep IsOpen db.requests
        (grant_special_leave clock org id approver own db).1.requests
grant_call-Evolves clock org id approver own db k =
    elim (grant_special_leave_outcome clock org id approver own db) [
      | inl (thrown, same) ↦ unchanged-Evolves db.requests _ (ap (λ d. d.requests) same)
      | inr
            (
              r,
              employee,
              type,
              from,
              to,
              days,
              (found, special, live, other, p, q, s, t, u, holiday, free),
              a,
              requests,
              leaves,
            ) ↦
          rw requests (
            Evolves-update_found RequestStep IsOpen (λ r. r.id) (is_request_of org id) id
              (granted_as clock.now a) RequestStep-refl (is_request_of-id org id) db.requests r k
              found
              (stepped refl refl refl refl refl
                (granted-StatusStep (is_special_leave r.category) r.status (special, live))))
    ]

-- With distinct identifiers, every request leaves each service request in its place with its
-- identifier, organization, employee, category and priority; its state stays or goes from OPEN to
-- ASSIGNED, from ASSIGNED to IN_PROGRESS, from RESOLVED to CLOSED, or to RESOLVED: from ASSIGNED
-- or IN_PROGRESS, and for special leave from OPEN too; and what is added is OPEN.
pub run_request_call-Evolves :
    (clock : Clock) (call : RequestCall) (db : Db)
    → IsKeyed (λ (r : ServiceRequest). r.id) db.requests
    → Evolves RequestStep IsOpen db.requests (run_request_call clock call db).requests
unfolding run_request_call
run_request_call-Evolves clock (create_call org user dto) db k =
    elim (create_request_effect clock org user dto db) [
      | inl same ↦ unchanged-Evolves db.requests _ same
      | inr (id, target, made) ↦
          rw made (Evolves-create RequestStep IsOpen RequestStep-refl _ refl db.requests)
    ]
run_request_call-Evolves clock (assign_call org id dto) db k =
    stepped-Evolves org id IsUnfinished (assigned_as dto)
      (λ r h.
        stepped refl refl refl refl refl
          (assigned-StatusStep (is_special_leave r.category) r.status h))
      db.requests _ k (assign_miss org id dto db) (assign_effect org id dto db)
run_request_call-Evolves clock (resolve_call org id user remark) db k =
    stepped-Evolves org id (λ r. (is_special_leave r.category ≡ false) × IsAtWork r)
      (λ _. resolved_as clock.now)
      (λ r h.
        stepped refl refl refl refl refl
          (resolved-StatusStep (is_special_leave r.category) r.status h))
      db.requests _ k (resolve_miss clock org id user remark db)
      (resolve_effect clock org id user remark db)
run_request_call-Evolves clock (grant_call org id approver own) db k =
    grant_call-Evolves clock org id approver own db k
run_request_call-Evolves clock (update_call org id status) db k =
    stepped-Evolves org id
      (λ r.
        ((r.status ≡ assigned) × (status ≡ in_progress))
        ⊎ ((r.status ≡ resolved) × (status ≡ closed)))
      (λ _. moved_to clock.now status)
      (λ r h.
        stepped refl refl refl refl refl
          (moved-StatusStep (is_special_leave r.category) r.status status h))
      db.requests _ k (update_status_miss clock org id status db)
      (update_status_effect clock org id status db)
run_request_call-Evolves clock (comment_call org id user content) db k =
    unchanged-Evolves db.requests _ (add_comment-requests clock org id user content db)
