-- ===== src/ServiceRequests/Access.antt =====
-- Who may see a service request and comment on it.
use igreen_backend.Base.{
  ℕ, ◌≡◌, ◌↔◌, inl, inr, true, false, none, some, String, List, [], arith, ◌==◌, ◌||◌, All,
  Bool-cases, is_id, is_some, subst, sym,
}
use igreen_backend.Base.Calendar.{Clock}
use igreen_backend.Base.Pagination.{All-newest_page, newest_page, PaginatedResult}
use igreen_backend.Store.Table.{find_first, find_many, find_many-All}
use igreen_backend.Store.Request.{ServiceRequest, ServiceRequestComment}
use igreen_backend.Store.Db.{Db, Result, ok, err, RequestingUser}
use igreen_backend.ServiceRequests.{
  can_manage, is_self, QueryServiceRequestDto, is_shown_request, find_all, is_request_of, find_one,
  new_comment, add_comment,
}

-- What a listing returns.
abbrev pub Lists : (ServiceRequest → Type 0) → Result (PaginatedResult ServiceRequest) → Type 0
Lists P (ok page) = All P page.data_rows
Lists P (err e) = ⊥

-- The request is one that the user has raised under the own name.
abbrev pub IsOwn : RequestingUser → ServiceRequest → Type 0
IsOwn user r = is_self user r.employee_id ≡ true

-- A user who does not manage service requests is listed, under the own name, own requests only.
pub find_all-IsOwn :
    (org : ℕ) (user : RequestingUser) (query : QueryServiceRequestDto) (db : Db)
    → can_manage user ≡ false
    → Lists (IsOwn user) (find_all org user query db).0
unfolding find_all
find_all-IsOwn org user query db h = elim (Bool-cases (is_some user.employee_id)) [
  | inr e ↦
      let nobody : (find_all org user query db).0 ≡ ok (newest_page [] query.pagination) =
        ground arith in
      subst (Lists (IsOwn user)) (sym nobody) (All-newest_page (IsOwn user) [] query.pagination tt)
  | inl e ↦
      let p = is_shown_request org user query in
      let shown : (find_all org user query db).0
          ≡ ok (newest_page (find_many p db.requests) query.pagination) =
        ground arith in
      subst (Lists (IsOwn user)) (sym shown) (
        All-newest_page (IsOwn user) (find_many p db.requests) query.pagination
          (find_many-All (IsOwn user) p (λ r m. ground arith) db.requests))
]

-- An anonymous request of the organization is shown in full, by its identifier, to every user
-- without an employee record, also to one who does not manage service requests.
pub find_one-anonymous :
    (org id : ℕ) (user : RequestingUser) (db : Db) (r : ServiceRequest)
    → find_first (is_request_of org id) db.requests ≡ some r
    → r.employee_id ≡ none
    → user.employee_id ≡ none
    → can_manage user ≡ false
    → (rows : List ServiceRequestComment) × ((find_one org user id db).0 ≡ ok (r, rows))
unfolding find_one
find_one-anonymous org id user db r found nobody none_own h =
    (find_many (λ c. c.service_request_id == id) db.comments, ground arith)

-- A comment on a request of the organization is written just when the user has raised the request
-- under the own name, or it is assigned to the user, or the user manages service requests.
pub add_comment_iff :
    (clock : Clock) (org id : ℕ) (user : RequestingUser) (content : String) (db : Db)
    (r : ServiceRequest)
    → find_first (is_request_of org id) db.requests ≡ some r
    → ((c : ServiceRequestComment) × ((add_comment clock org id user content db).0 ≡ ok c))
      ↔ ((is_self user r.employee_id || is_id r.assigned_to user.id || can_manage user) ≡ true)
unfolding add_comment
add_comment_iff clock org id user content db r e = (
  λ (c, made). ground arith,
  λ h. (new_comment db.next_id clock.now id user content, ground arith),
)
