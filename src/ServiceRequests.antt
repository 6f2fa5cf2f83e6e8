-- ===== src/ServiceRequests.antt =====
-- class ServiceRequestsService (src/modules/service-requests/service-requests.service.ts). A
-- response is the row that it is made from, without the employee's name.
pub mod Raise
pub mod Lifecycle
pub mod States
pub mod Grant
pub mod Success
pub mod Access
mod Tests
use igreen_backend.Base.{
  ℕ, ◌+◌, ◌*◌, Bool, true, false, Option, none, some, String, List, [], ◌∷◌, ◌&&◌, ◌||◌, ◌==◌, not,
  ltb, leb, is_some, get_or, or_else, is_id, opt_eq, has_text, opt_matches, if◌then◌else◌,
}
use igreen_backend.Base.Calendar.{Clock}
use igreen_backend.Base.Pagination.{PaginationDto, PaginatedResult, newest_page}
use igreen_backend.Store.Table.{find_first, find_many, update_where, create}
use igreen_backend.Store.Staff.{Employee, Organization}
use igreen_backend.Store.Leave.{LeaveStatus, LeaveApplication}
use igreen_backend.Store.Request.{
  ServiceRequestStatus, open_request, assigned, in_progress, resolved, closed, request_status_eq,
  ServiceRequestCategory, category_rank, is_special_leave, is_compliance, ServiceRequestPriority,
  low, medium, high, critical, ServiceRequest, ServiceRequestComment,
}
use igreen_backend.Store.Db.{
  Db, HttpError, bad_request, forbidden, not_found, conflict, Action, pure, gets, or_throw,
  transaction, ◌>>=◌, ◌>>◌, throw_if, modify, fresh_id, RequestingUser, has_permission,
  is_employee_of,
}
use igreen_backend.Leave.Balance.{initialize_for_employee, deduct_balance}
use igreen_backend.Leave.Applications.{is_type_of, is_holiday_in, overlaps}

abbrev pub can_manage : RequestingUser → Bool
can_manage = has_permission "service_request:manage"

-- SLA_HOURS_BY_PRIORITY
abbrev pub sla_hours : ServiceRequestPriority → ℕ
sla_hours critical = 24
sla_hours high = 48
sla_hours medium = 72
sla_hours low = 120

-- PRIORITY_RANK
abbrev pub priority_rank : ServiceRequestPriority → ℕ
priority_rank low = 0
priority_rank medium = 1
priority_rank high = 2
priority_rank critical = 3

pub resolve_priority :
    ServiceRequestCategory → Option ServiceRequestPriority → ServiceRequestPriority
resolve_priority category requested =
    let base = get_or requested medium in
    if not (is_compliance category)
    then base
    else (if leb (priority_rank high) (priority_rank base) then base else high)

pub compute_sla_deadline : ServiceRequestPriority → ℕ → ℕ
compute_sla_deadline priority from = from + sla_hours priority * 60 * 60 * 1000

-- `org?.allowAnonymousServiceRequests ?? false`
abbrev pub allows_anonymous : Db → ℕ → Bool
allows_anonymous db organization_id =
    elim (find_first (λ (o : Organization). o.id == organization_id) db.organizations) [
      | none ↦ false
      | some org ↦ org.allow_anonymous_service_requests
    ]

pub get_settings : ℕ → Action Bool
get_settings organization_id = gets (λ db. allows_anonymous db organization_id)

pub record CreateServiceRequestDto : Type 0 where
  pub category : ServiceRequestCategory
  pub title : String
  pub description : String
  pub priority : Option ServiceRequestPriority
  pub is_anonymous : Option Bool
  pub employee_id : Option ℕ
  pub leave_policy_type_id : Option ℕ
  pub leave_from_date : Option ℕ
  pub leave_to_date : Option ℕ
  pub leave_days : Option ℕ

-- `currentUser.employeeId && id === currentUser.employeeId`
abbrev pub is_self : RequestingUser → Option ℕ → Bool
is_self user id = is_some user.employee_id && opt_eq id user.employee_id

-- `isSpecialLeave && value`, else the column stays empty
abbrev special_only : Bool → Option ℕ → Option ℕ
special_only special value = if special then value else none

-- the row that `create` makes; the status is the column's default
abbrev pub new_request : ℕ → ℕ → ℕ → Option ℕ → CreateServiceRequestDto → ServiceRequest
new_request id now organization_id employee_id dto =
    let priority = resolve_priority dto.category dto.priority in
    let special = is_special_leave dto.category in
    record {
      id = id;
      organization_id = organization_id;
      employee_id = employee_id;
      category = dto.category;
      title = dto.title;
      description = dto.description;
      priority = priority;
      status = open_request;
      assigned_to = none;
      sla_deadline = some (compute_sla_deadline priority now);
      is_anonymous = get_or dto.is_anonymous false;
      resolved_at = none;
      closed_at = none;
      leave_policy_type_id = special_only special dto.leave_policy_type_id;
      leave_from_date = special_only special dto.leave_from_date;
      leave_to_date = special_only special dto.leave_to_date;
      leave_days = special_only special dto.leave_days;
      leave_application_id = none;
    }

-- the checks of `create` on a SPECIAL_LEAVE request; the employee it is for
pub special_target : ℕ → RequestingUser → CreateServiceRequestDto → Action (Option ℕ)
special_target organization_id user dto = do
  employee_id ←
      or_throw dto.employee_id (bad_request "employeeId is required for SPECIAL_LEAVE requests")
  throw_if (is_self user (some employee_id))
      (bad_request "You cannot raise a SPECIAL_LEAVE request for yourself")
  found ← gets (λ db. find_first (is_employee_of organization_id employee_id) db.employees)
  target ← or_throw found (not_found "Target employee not found")
  throw_if (not (is_self user target.reporting_manager_id) && not (can_manage user))
      (forbidden "You can only raise a SPECIAL_LEAVE request for your own direct reports")
  throw_if
      (not (
        is_some dto.leave_policy_type_id
        && is_some dto.leave_from_date
        && is_some dto.leave_to_date
        && is_some dto.leave_days))
      (bad_request
        "leavePolicyTypeId, leaveFromDate, leaveToDate, and leaveDays are required for SPECIAL_LEAVE requests")
  policy_type ← gets (λ db.
      find_first (is_type_of db organization_id (get_or dto.leave_policy_type_id 0))
        db.policy_types)
  throw_if (not (is_some policy_type)) (not_found "Leave policy type not found")
  pure (some employee_id)

-- the part of `create` in front of the row
pub create_checks : ℕ → RequestingUser → CreateServiceRequestDto → Action (Option ℕ)
create_checks organization_id user dto = do
  let is_anonymous = get_or dto.is_anonymous false
  let special = is_special_leave dto.category
  throw_if (is_anonymous && special)
      (bad_request "SPECIAL_LEAVE requests cannot be raised anonymously")
  allowed ← gets (λ db. allows_anonymous db organization_id)
  throw_if (is_anonymous && not allowed)
      (bad_request "Anonymous service requests are disabled for this organization")
  throw_if (not is_anonymous && not special && not (is_some user.employee_id))
      (bad_request "No employee record found for the current user")
  λ db.
      if special
      then special_target organization_id user dto db
      else pure (if is_anonymous then none else user.employee_id) db

pub create_request : Clock → ℕ → RequestingUser → CreateServiceRequestDto → Action ServiceRequest
create_request clock organization_id user dto = do
  target ← create_checks organization_id user dto
  id ← fresh_id
  modify (λ db. record db {
    requests = create (new_request id clock.now organization_id target dto) db.requests;
  })
  pure (new_request id clock.now organization_id target dto)

pub record QueryServiceRequestDto : Type 0 where
  pub status : Option ServiceRequestStatus
  pub category : Option ServiceRequestCategory
  pub priority : Option ServiceRequestPriority
  pub assigned_to : Option ℕ
  pub pagination : PaginationDto

abbrev pub category_eq : ServiceRequestCategory → ServiceRequestCategory → Bool
category_eq a b = category_rank a == category_rank b

abbrev pub priority_eq : ServiceRequestPriority → ServiceRequestPriority → Bool
priority_eq a b = priority_rank a == priority_rank b

-- the `where` of `findAll`
abbrev pub is_shown_request : ℕ → RequestingUser → QueryServiceRequestDto → ServiceRequest → Bool
is_shown_request organization_id user query r =
    r.organization_id == organization_id
    && (can_manage user || opt_eq r.employee_id user.employee_id)
    && opt_matches request_status_eq query.status r.status
    && opt_matches category_eq query.category r.category
    && opt_matches priority_eq query.priority r.priority
    && (not (is_some query.assigned_to) || opt_eq query.assigned_to r.assigned_to)

pub find_all : ℕ → RequestingUser → QueryServiceRequestDto → Action (PaginatedResult ServiceRequest)
find_all organization_id user query = gets (λ db.
    if not (can_manage user) && not (is_some user.employee_id)
    then newest_page [] query.pagination
    else newest_page (find_many (is_shown_request organization_id user query) db.requests)
        query.pagination)

-- `where: { id, organizationId }`
abbrev pub is_request_of : ℕ → ℕ → ServiceRequest → Bool
is_request_of organization_id id r = r.id == id && r.organization_id == organization_id

abbrev pub get_or_throw : ℕ → ℕ → Action ServiceRequest
get_or_throw organization_id id = do
  found ← gets (λ db. find_first (is_request_of organization_id id) db.requests)
  or_throw found (not_found "Service request not found")

-- the request and its comments, the oldest first
pub find_one : ℕ → RequestingUser → ℕ → Action (ServiceRequest × List ServiceRequestComment)
find_one organization_id user id = do
  r ← get_or_throw organization_id id
  throw_if (not (can_manage user) && not (opt_eq r.employee_id user.employee_id))
      (not_found "Service request not found")
  gets (λ db. (r, find_many (λ c. c.service_request_id == id) db.comments))

pub record AssignServiceRequestDto : Type 0 where
  pub assigned_to : ℕ
  pub sla_deadline : Option ℕ

-- the data of the update in `assign`
abbrev pub assigned_as : AssignServiceRequestDto → ServiceRequest → ServiceRequest → ServiceRequest
assigned_as dto found r = record r {
  assigned_to = some dto.assigned_to;
  status = if request_status_eq found.status open_request then assigned else found.status;
  sla_deadline = or_else dto.sla_deadline r.sla_deadline;
}

abbrev pub is_at_work : ServiceRequest → Bool
is_at_work r = request_status_eq r.status assigned || request_status_eq r.status in_progress

pub assign : ℕ → ℕ → AssignServiceRequestDto → Action ServiceRequest
assign organization_id id dto = do
  r ← get_or_throw organization_id id
  throw_if (not (request_status_eq r.status open_request) && not (is_at_work r))
      (bad_request "Cannot assign a service request in … status")
  modify (λ db. record db {
    requests = update_where (λ x. x.id == id) (assigned_as dto r) db.requests;
  })
  pure (assigned_as dto r r)

-- the data of the update in `resolve`
abbrev pub resolved_as : ℕ → ServiceRequest → ServiceRequest
resolved_as now r = record r { status = resolved; resolved_at = some now }

-- the data of the comment that `addComment` and `resolve` create
abbrev pub new_comment : ℕ → ℕ → ℕ → RequestingUser → String → ServiceRequestComment
new_comment id now request_id user content = record {
  id = id;
  service_request_id = request_id;
  author_id = user.id;
  content = content;
  created_at = now;
}

abbrev write_comment : Clock → ℕ → RequestingUser → String → Action ServiceRequestComment
write_comment clock request_id user content = do
  id ← fresh_id
  modify (λ db. record db {
    comments = create (new_comment id clock.now request_id user content) db.comments;
  })
  pure (new_comment id clock.now request_id user content)

pub resolve : Clock → ℕ → ℕ → RequestingUser → Option String → Action ServiceRequest
resolve clock organization_id id user resolution_note = do
  r ← get_or_throw organization_id id
  throw_if (is_special_leave r.category) (
      bad_request
        "SPECIAL_LEAVE requests cannot be resolved here — use PATCH /service-requests/:id/grant-special-leave")
  throw_if (is_self user r.employee_id)
      (forbidden "You cannot resolve a service request you raised yourself")
  throw_if (not (is_at_work r)) (bad_request "Cannot resolve a service request in … status")
  modify (λ db. record db {
    requests = update_where (λ x. x.id == id) (resolved_as clock.now) db.requests;
  })
  λ db.
      if has_text resolution_note
      then (write_comment clock id user (get_or resolution_note "")
            >> pure (resolved_as clock.now r))
          db
      else pure (resolved_as clock.now r) db

-- the data of the leave application that a grant creates
abbrev pub special_application : ℕ → ℕ → ℕ → ℕ → ℕ → ℕ → ℕ → ℕ → LeaveApplication
special_application id now employee_id type from to days approver_id = record {
  id = id;
  employee_id = employee_id;
  leave_policy_type_id = type;
  from_date = from;
  to_date = to;
  days = days;
  reason = some "Special leave granted via service request …: …";
  status = LeaveStatus.approved;
  approver_id = some approver_id;
  rejection_note = none;
  is_special = true;
  decided_at = some now;
}

abbrev pub granted_as : ℕ → ℕ → ServiceRequest → ServiceRequest
granted_as now application_id r = record r {
  status = resolved;
  resolved_at = some now;
  leave_application_id = some application_id;
}

-- the body of the transaction of `grantSpecialLeave`
pub grant_writes :
    Clock → ℕ → ServiceRequest → ℕ → ℕ → ℕ → ℕ → ℕ → ℕ → Action (ServiceRequest × LeaveApplication)
grant_writes clock id r employee_id type from to days approver_id = do
  initialize_for_employee employee_id type (clock.get_full_year from)
  leave_id ← fresh_id
  let application = special_application leave_id clock.now employee_id type from to days approver_id
  modify (λ db. record db { leaves = create application db.leaves })
  deduct_balance employee_id type (clock.get_full_year from) days true
  modify (λ db. record db {
    requests = update_where (λ x. x.id == id) (granted_as clock.now leave_id) db.requests;
  })
  pure (granted_as clock.now leave_id r, application)

pub grant_special_leave : Clock → ℕ → ℕ → ℕ → Option ℕ → Action (ServiceRequest × LeaveApplication)
grant_special_leave clock organization_id id approver_id approver_employee_id = do
  r ← get_or_throw organization_id id
  throw_if (not (is_special_leave r.category))
      (bad_request "Only SPECIAL_LEAVE requests can be granted through this endpoint")
  throw_if (request_status_eq r.status resolved || request_status_eq r.status closed)
      (bad_request "Cannot grant a service request in … status")
  throw_if (is_some approver_employee_id && opt_eq r.employee_id approver_employee_id)
      (forbidden "You cannot grant special leave for yourself")
  let missing = bad_request "This request is missing its special-leave fields"
  employee_id ← or_throw r.employee_id missing
  type ← or_throw r.leave_policy_type_id missing
  from ← or_throw r.leave_from_date missing
  to ← or_throw r.leave_to_date missing
  days ← or_throw r.leave_days missing
  holiday ← gets (λ db. find_first (is_holiday_in organization_id from to) db.holidays)
  throw_if (is_some holiday)
      (bad_request "Selected dates include a holiday and cannot be used for leave: …")
  overlapping ← gets (λ db. find_first (overlaps employee_id from to) db.leaves)
  throw_if (is_some overlapping)
      (conflict "An overlapping leave application already exists for these dates")
  transaction (grant_writes clock id r employee_id type from to days approver_id)

-- the transitions that `updateStatus` makes
abbrev pub is_valid_transition : ServiceRequestStatus → ServiceRequestStatus → Bool
is_valid_transition old new =
    request_status_eq old assigned && request_status_eq new in_progress
    || request_status_eq old resolved && request_status_eq new closed

abbrev pub moved_to : ℕ → ServiceRequestStatus → ServiceRequest → ServiceRequest
moved_to now status r = record r {
  status = status;
  closed_at = if request_status_eq status closed then some now else r.closed_at;
}

pub update_status : Clock → ℕ → ℕ → ServiceRequestStatus → Action ServiceRequest
update_status clock organization_id id status = do
  r ← get_or_throw organization_id id
  throw_if (not (is_valid_transition r.status status))
      (bad_request "Cannot transition a service request from … to …")
  modify (λ db. record db {
    requests = update_where (λ x. x.id == id) (moved_to clock.now status) db.requests;
  })
  pure (moved_to clock.now status r)

pub add_comment : Clock → ℕ → ℕ → RequestingUser → String → Action ServiceRequestComment
add_comment clock organization_id id user content = do
  r ← get_or_throw organization_id id
  throw_if
      (not (is_self user r.employee_id)
        && not (is_id r.assigned_to user.id)
        && not (can_manage user))
      (forbidden "Only the requester, the assignee, or a service request manager can comment")
  write_comment clock id user content
