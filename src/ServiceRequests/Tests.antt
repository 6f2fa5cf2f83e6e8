-- ===== src/ServiceRequests/Tests.antt =====
-- An organization with service requests.
use igreen_backend.Base.{
  inl, ℕ, ◌≡◌, refl, ◌⊎◌, ◌↔◌, true, false, Option, none, some, List, [], ◌∷◌, ◌||◌, not, is_id,
  is_some, ◌==◌, arith,
}
use igreen_backend.Base.Calendar.{Clock}
use igreen_backend.Store.Table.{create, update_where}
use igreen_backend.Store.Table.Evolution.{Evolves}
use igreen_backend.Store.Staff.{Employee, active}
use igreen_backend.Store.Leave.{LeavePolicyType}
use igreen_backend.Store.Request.{
  ServiceRequestStatus, open_request, assigned, ServiceRequestCategory, hr, compliance,
  special_leave, is_special_leave, low, ServiceRequest, ServiceRequestComment,
}
use igreen_backend.Store.Db.{Db, empty_db, ok, fails, RequestingUser}
use igreen_backend.Leave.Applications.Overlap.{NoOverlap}
use igreen_backend.ServiceRequests.{
  can_manage, is_self, CreateServiceRequestDto, create_request, QueryServiceRequestDto, find_all,
  find_one, add_comment, granted_as, special_application, grant_special_leave,
}
use igreen_backend.ServiceRequests.Raise.{IsFor, IsDue, create_request_outcome}
use igreen_backend.ServiceRequests.Lifecycle.{resolve_call, run_request_call, RequestStep, IsOpen}
use igreen_backend.ServiceRequests.States.{run_request_call-Evolves}
use igreen_backend.ServiceRequests.Grant.{
  Grants, grant_special_leave_outcome, grant_special_leave-NoOverlap,
}
use igreen_backend.ServiceRequests.Success.{grant_special_leave_succeeds}
use igreen_backend.ServiceRequests.Access.{
  Lists, IsOwn, find_all-IsOwn, find_one-anonymous, add_comment_iff,
}

abbrev clock : Clock
clock = record { now = 1000; get_full_year = λ _. 2025; get_month = λ _. 10 }

abbrev worker : Employee
worker = record {
  id = 7;
  organization_id = 1;
  deleted_at = none;
  status = active;
  reporting_manager_id = none;
  leave_policy_id = none;
  updated_by_id = none;
  payroll_structure_id = none;
}

abbrev ticket : ℕ → Option ℕ → ServiceRequestCategory → ServiceRequestStatus → ServiceRequest
ticket id employee_id category status = record {
  id = id;
  organization_id = 1;
  employee_id = employee_id;
  category = category;
  title = "Laptop";
  description = "It does not boot";
  priority = low;
  status = status;
  assigned_to = some 3;
  sla_deadline = none;
  is_anonymous = not (is_some employee_id);
  resolved_at = none;
  closed_at = none;
  leave_policy_type_id = none;
  leave_from_date = none;
  leave_to_date = none;
  leave_days = none;
  leave_application_id = none;
}

abbrev honeymoon : ServiceRequest
honeymoon = record (ticket 62 (some 7) special_leave open_request) {
  leave_policy_type_id = some 3;
  leave_from_date = some 5000;
  leave_to_date = some 9000;
  leave_days = some 48;
}

abbrev yearly : LeavePolicyType
yearly = record {
  id = 3;
  leave_policy_id = 2;
  days_per_year = 288;
  accrual_type = "YEARLY";
  is_lop_eligible = true;
  max_consecutive_days = none;
}

abbrev office : Db
office = record empty_db {
  leave_policies = record { id = 2; organization_id = 1; is_active = true; deleted_at = none } ∷ [];
  policy_types = yearly ∷ [];
  organizations = record { id = 1; allow_anonymous_service_requests = true } ∷ [];
  employees = worker ∷ [];
  requests =
      ticket 60 (some 7) hr assigned ∷ ticket 61 none compliance open_request ∷ honeymoon ∷ [];
}

abbrev caller : Option ℕ → RequestingUser
caller employee_id = record {
  id = 3;
  employee_id = employee_id;
  permissions = "service_request:read" ∷ [];
}

abbrev complaint : CreateServiceRequestDto
complaint = record {
  category = compliance;
  title = "Expenses";
  description = "They do not add up";
  priority = some low;
  is_anonymous = some true;
  employee_id = none;
  leave_policy_type_id = none;
  leave_from_date = none;
  leave_to_date = none;
  leave_days = none;
}

abbrev everything : QueryServiceRequestDto
everything = record {
  status = none;
  category = none;
  priority = none;
  assigned_to = none;
  pagination = record { page = 1; limit = 10 };
}

create_request_outcome_example :
    (((fails (create_request clock 1 (caller (some 7)) complaint office).0 ≡ true)
        × ((create_request clock 1 (caller (some 7)) complaint office).1 ≡ office))
      ⊎ ((row : ServiceRequest) × ((create_request clock 1 (caller (some 7)) complaint office).0
            ≡ ok row)
          × ((create_request clock 1 (caller (some 7)) complaint office).1.requests
              ≡ create row office.requests)
          × IsFor 1 (caller (some 7)) complaint office row.employee_id
          × IsDue 1000 complaint row))
    × (is_special_leave complaint.category ≡ false
        → fails (create_request clock 1 (caller (some 7)) complaint office).0 ≡ not true)
create_request_outcome_example = create_request_outcome clock 1 (caller (some 7)) complaint office

run_request_call-Evolves_example :
    Evolves RequestStep IsOpen office.requests
      (run_request_call clock (resolve_call 1 60 (caller (some 8)) none) office).requests
run_request_call-Evolves_example =
    run_request_call-Evolves clock (resolve_call 1 60 (caller (some 8)) none) office
      (((λ e. omega arith), ((λ e. omega arith), tt)), (((λ e. omega arith), tt), (tt, tt)))

grant_special_leave_outcome_example :
    let db' = (grant_special_leave clock 1 62 9 none office).1 in
    ((fails (grant_special_leave clock 1 62 9 none office).0 ≡ true) × (db' ≡ office))
    ⊎ ((r : ServiceRequest) × (employee : ℕ) × (type : ℕ) × (from : ℕ) × (to : ℕ) × (days : ℕ)
        × Grants 1 62 none office r employee type from to days
        × (a : ℕ) × (db'.requests
            ≡ update_where (λ x. x.id == 62) (granted_as 1000 a) office.requests)
        × (db'.leaves
            ≡ create (special_application a 1000 employee type from to days 9) office.leaves))
grant_special_leave_outcome_example = grant_special_leave_outcome clock 1 62 9 none office

grant_special_leave-NoOverlap_example :
    NoOverlap (grant_special_leave clock 1 62 9 none office).1.leaves
grant_special_leave-NoOverlap_example = grant_special_leave-NoOverlap clock 1 62 9 none office tt

find_all-IsOwn_example :
    Lists (IsOwn (caller (some 7))) (find_all 1 (caller (some 7)) everything office).0
find_all-IsOwn_example = find_all-IsOwn 1 (caller (some 7)) everything office refl

find_one-anonymous_example :
    (rows : List ServiceRequestComment) × ((find_one 1 (caller none) 61 office).0
      ≡ ok (ticket 61 none compliance open_request, rows))
find_one-anonymous_example =
    find_one-anonymous 1 61 (caller none) office (ticket 61 none compliance open_request) refl refl
      refl refl

add_comment_iff_example :
    ((c : ServiceRequestComment) × ((add_comment clock 1 60 (caller none) "Looking" office).0
        ≡ ok c))
    ↔ ((is_self (caller none) (some 7) || is_id (some 3) 3 || can_manage (caller none)) ≡ true)
add_comment_iff_example =
    add_comment_iff clock 1 60 (caller none) "Looking" office (ticket 60 (some 7) hr assigned) refl

grant_special_leave_succeeds_example :
    fails (grant_special_leave clock 1 62 9 none office).0 ≡ false
grant_special_leave_succeeds_example =
    grant_special_leave_succeeds clock 1 62 9 none office honeymoon 7 3 5000 9000 48 yearly
      (refl, refl, inl refl, refl, refl, refl, refl, refl, refl, refl, refl) refl
