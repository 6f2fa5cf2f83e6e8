-- ===== src/ServiceRequests/Raise.antt =====
-- Who a new request is for, how urgent it is, and by when it is due.
use igreen_backend.Base.{
  ℕ, ◌+◌, ◌*◌, ◌≡◌, refl, ◌⊎◌, inl, inr, true, false, Option, none, some, arith, ◌||◌, not, is_some,
  get_or, if◌then◌else◌, Bool-cases, Option-cases, ap, sym, ◌∙◌,
}
use igreen_backend.Base.Calendar.{Clock}
use igreen_backend.Store.Table.{create, find_first}
use igreen_backend.Store.Staff.{Employee}
use igreen_backend.Store.Request.{
  open_request, ServiceRequestCategory, is_special_leave, compliance, ServiceRequestPriority, low,
  medium, high, critical, ServiceRequest,
}
use igreen_backend.Store.Db.{
  Db, HttpError, ok, err, fails, Result-cases, RequestingUser, is_employee_of,
}
use igreen_backend.ServiceRequests.{
  can_manage, sla_hours, resolve_priority, compute_sla_deadline, allows_anonymous,
  CreateServiceRequestDto, is_self, new_request, special_target, create_checks, create_request,
}

create_checks_keeps :
    (org : ℕ) (user : RequestingUser) (dto : CreateServiceRequestDto) (db : Db)
    → (create_checks org user dto db).1 ≡ db
unfolding create_checks special_target
create_checks_keeps org user dto db = ground arith

-- A request is either refused without a trace, or raised.
pub create_request_cases :
    (clock : Clock) (org : ℕ) (user : RequestingUser) (dto : CreateServiceRequestDto) (db : Db)
    → ((e : HttpError) × ((create_checks org user dto db).0 ≡ err e)
        × (create_request clock org user dto db ≡ (err e, db)))
      ⊎ ((target : Option ℕ) × ((create_checks org user dto db).0 ≡ ok target)
          × (let row = new_request db.next_id clock.now org target dto in
              create_request clock org user dto db ≡ (
                ok row,
                record db { next_id = db.next_id + 1; requests = create row db.requests },
              )))
unfolding create_request
create_request_cases clock org user dto db =
    let keeps = create_checks_keeps org user dto db in
    elim (Result-cases (create_checks org user dto db).0) [
      | inr (e, failed) ↦ inl (e, failed, ground (arith, keeps))
      | inl (target, passed) ↦ inr (target, passed, ground (arith, keeps))
    ]

-- Who a request is for: nobody when it is anonymous, the caller otherwise; special leave is never
-- anonymous, and is for an employee of the organization who is not the caller and reports to the
-- caller, unless the caller manages service requests.
abbrev pub IsFor : ℕ → RequestingUser → CreateServiceRequestDto → Db → Option ℕ → Type 0
IsFor org user dto db target =
    if is_special_leave dto.category
    then ((get_or dto.is_anonymous false ≡ false)
        × ((id : ℕ) × (e : Employee) × (dto.employee_id ≡ some id)
            × (target ≡ some id)
            × (is_self user (some id) ≡ false)
            × (find_first (is_employee_of org id) db.employees ≡ some e)
            × ((is_self user e.reporting_manager_id || can_manage user) ≡ true)))
    else (target ≡ (if get_or dto.is_anonymous false then none else user.employee_id))

special_target-IsFor :
    (org : ℕ) (user : RequestingUser) (dto : CreateServiceRequestDto) (db : Db) (target : Option ℕ)
    → (special_target org user dto db).0 ≡ ok target
    → (id : ℕ) × (e : Employee) × (dto.employee_id ≡ some id)
      × (target ≡ some id)
      × (is_self user (some id) ≡ false)
      × (find_first (is_employee_of org id) db.employees ≡ some e)
      × ((is_self user e.reporting_manager_id || can_manage user) ≡ true)
unfolding special_target
special_target-IsFor org user dto db target h = elim (Option-cases dto.employee_id) [
  | inl none_given ↦ absurd (ground arith)
  | inr (id, given) ↦ elim (Option-cases (find_first (is_employee_of org id) db.employees)) [
    | inl missing ↦ absurd (ground arith)
    | inr (e, found) ↦ (id, e, given, ground arith, ground arith, found, ground arith)
  ]
]

create_checks-IsFor :
    (org : ℕ) (user : RequestingUser) (dto : CreateServiceRequestDto) (db : Db) (target : Option ℕ)
    → (create_checks org user dto db).0 ≡ ok target
    → IsFor org user dto db target
unfolding create_checks
create_checks-IsFor org user dto db target h = elim (Bool-cases (is_special_leave dto.category)) [
  | inl special ↦
      let passed : (special_target org user dto db).0 ≡ ok target = ground arith in
      rw special (ground arith, special_target-IsFor org user dto db target passed)
  | inr ordinary ↦ rw ordinary (ground arith)
]

-- A request that is not for special leave is refused just when it is anonymous where the
-- organization does not allow that, or named and from a caller without an employee record.
create_checks_refuses :
    (org : ℕ) (user : RequestingUser) (dto : CreateServiceRequestDto) (db : Db)
    → is_special_leave dto.category ≡ false
    → fails (create_checks org user dto db).0
      ≡ not (
          if get_or dto.is_anonymous false
          then allows_anonymous db org
          else is_some user.employee_id)
unfolding create_checks
create_checks_refuses org user dto db ordinary = ground arith

-- The priority is the one asked for, MEDIUM when none is; but HIGH for COMPLIANCE where LOW or
-- MEDIUM would be.
abbrev pub IsPriorityOf :
    ServiceRequestCategory → Option ServiceRequestPriority → ServiceRequestPriority → Type 0
IsPriorityOf category requested priority =
    ((category ≡ compliance → ⊥) → priority ≡ get_or requested medium)
    × (category ≡ compliance
        → (get_or requested medium ≡ low → priority ≡ high)
          × (get_or requested medium ≡ medium → priority ≡ high)
          × (get_or requested medium ≡ high → priority ≡ high)
          × (get_or requested medium ≡ critical → priority ≡ critical))

resolve_priority-IsPriorityOf :
    (category : ServiceRequestCategory) (requested : Option ServiceRequestPriority)
    → IsPriorityOf category requested (resolve_priority category requested)
unfolding resolve_priority
resolve_priority-IsPriorityOf compliance requested =
    (λ other. absurd (other refl), λ _. (ground arith, ground arith, ground arith, ground arith))
resolve_priority-IsPriorityOf category requested = (λ _. refl, λ same. absurd (cc))

due :
    (now : ℕ) (priority p : ServiceRequestPriority)
    → priority ≡ p
    → some (compute_sla_deadline priority now) ≡ some (now + sla_hours p * 3600000)
unfolding compute_sla_deadline
due now priority p e = rw e (ap some (omega arith))

-- What a new request promises.
abbrev pub IsDue : ℕ → CreateServiceRequestDto → ServiceRequest → Type 0
IsDue now dto row =
    (row.status ≡ open_request)
    × (row.category ≡ dto.category)
    × IsPriorityOf dto.category dto.priority row.priority
    × (row.priority ≡ low → row.sla_deadline ≡ some (now + 120 * 3600000))
    × (row.priority ≡ medium → row.sla_deadline ≡ some (now + 72 * 3600000))
    × (row.priority ≡ high → row.sla_deadline ≡ some (now + 48 * 3600000))
    × (row.priority ≡ critical → row.sla_deadline ≡ some (now + 24 * 3600000))

new_request-IsDue :
    (id now org : ℕ) (target : Option ℕ) (dto : CreateServiceRequestDto)
    → IsDue now dto (new_request id now org target dto)
unfolding compute_sla_deadline
new_request-IsDue id now org target dto = (
  refl,
  refl,
  resolve_priority-IsPriorityOf dto.category dto.priority,
  λ e. due now _ low e,
  λ e. due now _ medium e,
  λ e. due now _ high e,
  λ e. due now _ critical e,
)

-- A request is refused without a trace, or one row is added behind the others: it is OPEN and of
-- the category asked for, its priority is the one asked for (MEDIUM when none is), but HIGH for
-- COMPLIANCE where LOW or MEDIUM would be, and it is due 120, 72, 48 or 24 hours later
-- as it is LOW, MEDIUM, HIGH or CRITICAL. It is for
-- nobody when it is anonymous and else for the caller; special leave is never anonymous, and is for
-- the employee that the request names, who is of the organization, is not the caller and reports to
-- the caller unless the caller manages requests.
-- A request that is not for special leave is refused just when it is anonymous and the
-- organization does not allow that, or named and the caller has no employee record.
pub create_request_outcome :
    (clock : Clock) (org : ℕ) (user : RequestingUser) (dto : CreateServiceRequestDto) (db : Db)
    → (((fails (create_request clock org user dto db).0 ≡ true)
          × ((create_request clock org user dto db).1 ≡ db))
        ⊎ ((row : ServiceRequest) × ((create_request clock org user dto db).0 ≡ ok row)
            × ((create_request clock org user dto db).1.requests ≡ create row db.requests)
            × IsFor org user dto db row.employee_id
            × IsDue clock.now dto row))
      × (is_special_leave dto.category ≡ false
          → fails (create_request clock org user dto db).0
            ≡ not (
                if get_or dto.is_anonymous false
                then allows_anonymous db org
                else is_some user.employee_id))
create_request_outcome clock org user dto db = elim (create_request_cases clock org user dto db) [
  | inl (e, failed, done) ↦ (
    inl (ap (λ o. fails o.0) done, ap (λ o. o.1) done),
    λ ordinary.
        ap (λ o. fails o.0) done
        ∙ (sym (ap fails failed) ∙ create_checks_refuses org user dto db ordinary),
  )
  | inr (target, passed, done) ↦ (
    inr (
      new_request db.next_id clock.now org target dto,
      ap (λ o. o.0) done,
      ap (λ o. o.1.requests) done,
      create_checks-IsFor org user dto db target passed,
      new_request-IsDue db.next_id clock.now org target dto,
    ),
    λ ordinary.
        ap (λ o. fails o.0) done
        ∙ (sym (ap fails passed) ∙ create_checks_refuses org user dto db ordinary),
  )
]
