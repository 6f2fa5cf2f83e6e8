-- ===== src/ServiceRequests/Lifecycle.antt =====
-- How the handlers move service requests through their states.
use igreen_backend.Base.{
  ℕ, ◌≡◌, refl, ◌⊎◌, inl, inr, Bool, true, false, Option, none, some, String, List, arith, ◌==◌,
  if◌then◌else◌, ap,
}
use igreen_backend.Base.Calendar.{Clock}
use igreen_backend.Store.Table.{find_first, update_where, create, IsKeyed}
use igreen_backend.Store.Table.Evolution.{Evolves, Evolves-effect}
use igreen_backend.Store.Request.{
  ServiceRequestStatus, open_request, assigned, in_progress, resolved, closed, request_status_eq,
  is_special_leave, ServiceRequest,
}
use igreen_backend.Store.Db.{Db, RequestingUser}
use igreen_backend.ServiceRequests.Raise.{create_request_cases}
use igreen_backend.ServiceRequests.{
  CreateServiceRequestDto, AssignServiceRequestDto, is_request_of, new_request, create_request,
  assigned_as, assign, resolved_as, resolve, grant_special_leave, moved_to, update_status,
  add_comment,
}

-- The requests that write to the table of service requests.
pub data RequestCall : Type 0 where
  create_call : ℕ → RequestingUser → CreateServiceRequestDto → RequestCall
  assign_call : ℕ → ℕ → AssignServiceRequestDto → RequestCall
  resolve_call : ℕ → ℕ → RequestingUser → Option String → RequestCall
  grant_call : ℕ → ℕ → ℕ → Option ℕ → RequestCall
  update_call : ℕ → ℕ → ServiceRequestStatus → RequestCall
  comment_call : ℕ → ℕ → RequestingUser → String → RequestCall

-- The database after a request.
unfoldable pub run_request_call : Clock → RequestCall → Db → Db
run_request_call clock (create_call org user dto) db = (create_request clock org user dto db).1
run_request_call clock (assign_call org id dto) db = (assign org id dto db).1
run_request_call clock (resolve_call org id user remark) db =
    (resolve clock org id user remark db).1
run_request_call clock (grant_call org id approver own) db =
    (grant_special_leave clock org id approver own db).1
run_request_call clock (update_call org id status) db = (update_status clock org id status db).1
run_request_call clock (comment_call org id user content) db =
    (add_comment clock org id user content db).1

-- Special leave is resolved by a grant from any state that is not final; all else only once it is
-- assigned.
pub data StatusStep : Bool → ServiceRequestStatus → ServiceRequestStatus → Type 0 where
  stay : {b : Bool} {s : ServiceRequestStatus} → StatusStep b s s
  take : {b : Bool} → StatusStep b open_request assigned
  start : {b : Bool} → StatusStep b assigned in_progress
  resolve_assigned : StatusStep false assigned resolved
  resolve_started : StatusStep false in_progress resolved
  grant_open : StatusStep true open_request resolved
  grant_assigned : StatusStep true assigned resolved
  grant_started : StatusStep true in_progress resolved
  close : {b : Bool} → StatusStep b resolved closed

-- A request keeps what it was raised with.
pub record RequestStep (a b : ServiceRequest) : Type 0 where
  pub same_id : b.id ≡ a.id
  pub same_organization : b.organization_id ≡ a.organization_id
  pub same_employee : b.employee_id ≡ a.employee_id
  pub same_category : b.category ≡ a.category
  pub same_priority : b.priority ≡ a.priority
  pub status : StatusStep (is_special_leave a.category) a.status b.status

abbrev pub IsOpen : ServiceRequest → Type 0
IsOpen r = r.status ≡ open_request

pub RequestStep-refl : (r : ServiceRequest) → RequestStep r r
RequestStep-refl r = record {
  same_id = refl;
  same_organization = refl;
  same_employee = refl;
  same_category = refl;
  same_priority = refl;
  status = stay;
}

pub is_request_of-id : (org id : ℕ) (r : ServiceRequest) → is_request_of org id r ≡ true → r.id ≡ id
is_request_of-id org id r h = ground arith

pub assigned-StatusStep :
    (b : Bool) (s : ServiceRequestStatus)
    → (s ≡ open_request) ⊎ ((s ≡ assigned) ⊎ (s ≡ in_progress))
    → StatusStep b s (if request_status_eq s open_request then assigned else s)
assigned-StatusStep b s (inl e) = rw e take
assigned-StatusStep b s (inr (inl e)) = rw e stay
assigned-StatusStep b s (inr (inr e)) = rw e stay

pub resolved-StatusStep :
    (b : Bool) (s : ServiceRequestStatus)
    → (b ≡ false) × ((s ≡ assigned) ⊎ (s ≡ in_progress))
    → StatusStep b s resolved
resolved-StatusStep b s (f, inl e) = rw (f, e) resolve_assigned
resolved-StatusStep b s (f, inr e) = rw (f, e) resolve_started

pub granted-StatusStep :
    (b : Bool) (s : ServiceRequestStatus)
    → (b ≡ true) × ((s ≡ open_request) ⊎ ((s ≡ assigned) ⊎ (s ≡ in_progress)))
    → StatusStep b s resolved
granted-StatusStep b s (f, inl e) = rw (f, e) grant_open
granted-StatusStep b s (f, inr (inl e)) = rw (f, e) grant_assigned
granted-StatusStep b s (f, inr (inr e)) = rw (f, e) grant_started

pub moved-StatusStep :
    (b : Bool) (s t : ServiceRequestStatus)
    → ((s ≡ assigned) × (t ≡ in_progress)) ⊎ ((s ≡ resolved) × (t ≡ closed))
    → StatusStep b s t
moved-StatusStep b s t (inl (e, f)) = rw (e, f) start
moved-StatusStep b s t (inr (e, f)) = rw (e, f) close

pub stepped :
    {a b : ServiceRequest}
    → b.id ≡ a.id
    → b.organization_id ≡ a.organization_id
    → b.employee_id ≡ a.employee_id
    → b.category ≡ a.category
    → b.priority ≡ a.priority
    → StatusStep (is_special_leave a.category) a.status b.status
    → RequestStep a b
stepped i o e c p s = record {
  same_id = i;
  same_organization = o;
  same_employee = e;
  same_category = c;
  same_priority = p;
  status = s;
}

-- A handler that throws, or updates the request it has found under a condition.
pub stepped-Evolves :
    (org id : ℕ) (S : ServiceRequest → Type 0)
    (f : ServiceRequest → ServiceRequest → ServiceRequest)
    → ((r : ServiceRequest) → S r → RequestStep r (f r r))
    → (rows rows' : List ServiceRequest) → IsKeyed (λ (r : ServiceRequest). r.id) rows
    → (find_first (is_request_of org id) rows ≡ none → rows' ≡ rows)
    → ((r : ServiceRequest)
        → find_first (is_request_of org id) rows ≡ some r
        → (rows' ≡ rows) ⊎ (S r × (rows' ≡ update_where (λ x. x.id == id) (f r) rows)))
    → Evolves RequestStep IsOpen rows rows'
stepped-Evolves org id S f =
    Evolves-effect RequestStep IsOpen (λ r. r.id) (is_request_of org id) id S f RequestStep-refl
      (is_request_of-id org id)

abbrev pub IsAtWork : ServiceRequest → Type 0
IsAtWork r = (r.status ≡ assigned) ⊎ (r.status ≡ in_progress)

abbrev pub IsUnfinished : ServiceRequest → Type 0
IsUnfinished r = (r.status ≡ open_request) ⊎ IsAtWork r

pub assign_effect :
    (org id : ℕ) (dto : AssignServiceRequestDto) (db : Db) (r : ServiceRequest)
    → find_first (is_request_of org id) db.requests ≡ some r
    → let rows = (assign org id dto db).1.requests in
      (rows ≡ db.requests)
      ⊎ (IsUnfinished r × (rows ≡ update_where (λ x. x.id == id) (assigned_as dto r) db.requests))
unfolding assign
assign_effect org id dto db r e = ground arith

pub assign_miss :
    (org id : ℕ) (dto : AssignServiceRequestDto) (db : Db)
    → find_first (is_request_of org id) db.requests ≡ none
    → (assign org id dto db).1.requests ≡ db.requests
unfolding assign
assign_miss org id dto db e = ground arith

pub resolve_effect :
    (clock : Clock) (org id : ℕ) (user : RequestingUser) (remark : Option String) (db : Db)
    (r : ServiceRequest)
    → find_first (is_request_of org id) db.requests ≡ some r
    → let rows = (resolve clock org id user remark db).1.requests in
      (rows ≡ db.requests)
      ⊎ (((is_special_leave r.category ≡ false) × IsAtWork r)
          × (rows ≡ update_where (λ x. x.id == id) (resolved_as clock.now) db.requests))
unfolding resolve
resolve_effect clock org id user remark db r e = ground arith

pub resolve_miss :
    (clock : Clock) (org id : ℕ) (user : RequestingUser) (remark : Option String) (db : Db)
    → find_first (is_request_of org id) db.requests ≡ none
    → (resolve clock org id user remark db).1.requests ≡ db.requests
unfolding resolve
resolve_miss clock org id user remark db e = ground arith

pub update_status_effect :
    (clock : Clock) (org id : ℕ) (status : ServiceRequestStatus) (db : Db) (r : ServiceRequest)
    → find_first (is_request_of org id) db.requests ≡ some r
    → let rows = (update_status clock org id status db).1.requests in
      (rows ≡ db.requests)
      ⊎ ((((r.status ≡ assigned) × (status ≡ in_progress))
            ⊎ ((r.status ≡ resolved) × (status ≡ closed)))
          × (rows ≡ update_where (λ x. x.id == id) (moved_to clock.now status) db.requests))
unfolding update_status
update_status_effect clock org id status db r e = ground arith

pub update_status_miss :
    (clock : Clock) (org id : ℕ) (status : ServiceRequestStatus) (db : Db)
    → find_first (is_request_of org id) db.requests ≡ none
    → (update_status clock org id status db).1.requests ≡ db.requests
unfolding update_status
update_status_miss clock org id status db e = ground arith

pub add_comment-requests :
    (clock : Clock) (org id : ℕ) (user : RequestingUser) (content : String) (db : Db)
    → (add_comment clock org id user content db).1.requests ≡ db.requests
unfolding add_comment
add_comment-requests clock org id user content db = ground arith

pub create_request_effect :
    (clock : Clock) (org : ℕ) (user : RequestingUser) (dto : CreateServiceRequestDto) (db : Db)
    → let rows = (create_request clock org user dto db).1.requests in
      (rows ≡ db.requests)
      ⊎ ((id : ℕ) × (target : Option ℕ) × (rows
            ≡ create (new_request id clock.now org target dto) db.requests))
create_request_effect clock org user dto db = elim (create_request_cases clock org user dto db) [
  | inl (e, failed, done) ↦ inl (ap (λ o. o.1.requests) done)
  | inr (target, passed, done) ↦ inr (db.next_id, target, ap (λ o. o.1.requests) done)
]
