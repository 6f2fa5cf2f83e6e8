-- ===== src/Store/Request.antt =====
-- The tables of service requests and of the comments on them.
use igreen_backend.Base.{ℕ, Bool, Option, String, ◌==◌}

-- enum ServiceRequestStatus
pub data ServiceRequestStatus : Type 0 where
  open_request assigned in_progress resolved closed : ServiceRequestStatus

abbrev pub request_status_rank : ServiceRequestStatus → ℕ
request_status_rank open_request = 0
request_status_rank assigned = 1
request_status_rank in_progress = 2
request_status_rank resolved = 3
request_status_rank closed = 4

-- `===` on the statuses
abbrev pub request_status_eq : ServiceRequestStatus → ServiceRequestStatus → Bool
request_status_eq a b = request_status_rank a == request_status_rank b

-- enum ServiceRequestCategory
pub data ServiceRequestCategory : Type 0 where
  hr it admin compliance finance policy_clarification special_leave : ServiceRequestCategory

abbrev pub category_rank : ServiceRequestCategory → ℕ
category_rank hr = 0
category_rank it = 1
category_rank admin = 2
category_rank compliance = 3
category_rank finance = 4
category_rank policy_clarification = 5
category_rank special_leave = 6

abbrev pub is_special_leave : ServiceRequestCategory → Bool
is_special_leave special_leave = Bool.true
is_special_leave _ = Bool.false

abbrev pub is_compliance : ServiceRequestCategory → Bool
is_compliance compliance = Bool.true
is_compliance _ = Bool.false

-- enum ServiceRequestPriority
pub data ServiceRequestPriority : Type 0 where
  low medium high critical : ServiceRequestPriority

-- model ServiceRequest
pub record ServiceRequest : Type 0 where
  pub id : ℕ
  pub organization_id : ℕ
  pub employee_id : Option ℕ
  pub category : ServiceRequestCategory
  pub title : String
  pub description : String
  pub priority : ServiceRequestPriority
  pub status : ServiceRequestStatus
  pub assigned_to : Option ℕ
  pub sla_deadline : Option ℕ
  pub is_anonymous : Bool
  pub resolved_at : Option ℕ
  pub closed_at : Option ℕ
  pub leave_policy_type_id : Option ℕ
  pub leave_from_date : Option ℕ
  pub leave_to_date : Option ℕ
  pub leave_days : Option ℕ
  pub leave_application_id : Option ℕ

-- model ServiceRequestComment
pub record ServiceRequestComment : Type 0 where
  pub id : ℕ
  pub service_request_id : ℕ
  pub author_id : ℕ
  pub content : String
  pub created_at : ℕ
