-- ===== src/Leave/Applications/Lifecycle.antt =====
-- How the handlers move leave applications through their states.
use igreen_backend.Base.{
  ℕ, ◌≡◌, refl, ap, sym, subst, ◌∙◌, ◌⊎◌, inl, inr, true, false, Option, none, some, String, List,
  arith, ◌==◌,
}
use igreen_backend.Base.Calendar.{Clock}
use igreen_backend.Store.Table.{find_first, update_where, create, IsKeyed}
use igreen_backend.Store.Table.Evolution.{Evolves, Evolves-refl, Evolves-create, Evolves-effect}
use igreen_backend.Store.Leave.{LeaveStatus, LeaveApplication}
use igreen_backend.Store.Db.{Db, Result-cases}
use igreen_backend.Leave.Balance.{initialize_for_employee}
use igreen_backend.Leave.Balance.Frame.{initialize_for_employee-leaves, deduct_balance-leaves}
use igreen_backend.Leave.Applications.{
  ApplyLeaveDto, is_application_of, overlaps, new_application, apply, apply_checks, apply_creates,
  cancel, approve, approved_by, reject,
}

-- The requests that write to the table of leave applications.
pub data LeaveCall : Type 0 where
  apply_call : ℕ → Option ℕ → ApplyLeaveDto → LeaveCall
  cancel_call : ℕ → ℕ → ℕ → LeaveCall
  approve_call : ℕ → ℕ → ℕ → Option ℕ → Option String → LeaveCall
  reject_call : ℕ → ℕ → ℕ → Option ℕ → String → LeaveCall

-- The database after a request.
unfoldable pub run_leave_call : Clock → LeaveCall → Db → Db
run_leave_call clock (apply_call org caller dto) db = (apply clock org caller dto db).1
run_leave_call clock (cancel_call org employee id) db = (cancel clock org employee id db).1
run_leave_call clock (approve_call org id approver own notes) db =
    (approve clock org id approver own notes db).1
run_leave_call clock (reject_call org id approver own note) db =
    (reject clock org id approver own note db).1

pub data StatusStep : LeaveStatus → LeaveStatus → Type 0 where
  stay : {s : LeaveStatus} → StatusStep s s
  decide : {s : LeaveStatus} → StatusStep LeaveStatus.pending s

-- An application keeps all that was applied for.
pub record LeaveStep (a b : LeaveApplication) : Type 0 where
  pub same_id : b.id ≡ a.id
  pub same_employee : b.employee_id ≡ a.employee_id
  pub same_type : b.leave_policy_type_id ≡ a.leave_policy_type_id
  pub same_from : b.from_date ≡ a.from_date
  pub same_to : b.to_date ≡ a.to_date
  pub same_days : b.days ≡ a.days
  pub status : StatusStep a.status b.status

abbrev pub IsPending : LeaveApplication → Type 0
IsPending a = a.status ≡ LeaveStatus.pending

pub LeaveStep-refl : (a : LeaveApplication) → LeaveStep a a
LeaveStep-refl a = record {
  same_id = refl;
  same_employee = refl;
  same_type = refl;
  same_from = refl;
  same_to = refl;
  same_days = refl;
  status = stay;
}

is_application_of-id :
    (db : Db) (org id : ℕ) (a : LeaveApplication) → is_application_of db org id a ≡ true → a.id ≡ id
is_application_of-id db org id a h = ground arith

abbrev cancelled_as : Clock → LeaveApplication → LeaveApplication
cancelled_as clock a = record a { status = LeaveStatus.cancelled; decided_at = some clock.now }

abbrev rejected_as : Clock → ℕ → String → LeaveApplication → LeaveApplication
rejected_as clock approver note a = record a {
  status = LeaveStatus.rejected;
  approver_id = some approver;
  decided_at = some clock.now;
  rejection_note = some note;
}

-- The effect of a request on a row that it has found: the table stays, or the row was pending and
-- the rows of the identifier are updated.
abbrev Decides :
    Db
    → ℕ
    → (LeaveApplication → LeaveApplication)
    → LeaveApplication
    → List LeaveApplication
    → Type 0
Decides db id update a leaves =
    (leaves ≡ db.leaves)
    ⊎ (IsPending a × (leaves ≡ update_where (λ b. b.id == id) update db.leaves))

decided :
    {a b : LeaveApplication}
    → b.id ≡ a.id
    → b.employee_id ≡ a.employee_id
    → b.leave_policy_type_id ≡ a.leave_policy_type_id
    → b.from_date ≡ a.from_date
    → b.to_date ≡ a.to_date
    → b.days ≡ a.days
    → IsPending a
    → LeaveStep a b
decided i e t f u d p = record {
  same_id = i;
  same_employee = e;
  same_type = t;
  same_from = f;
  same_to = u;
  same_days = d;
  status = rw p decide;
}

decided-Evolves :
    (New : LeaveApplication → Type 0) (db : Db) (org id : ℕ)
    (update : LeaveApplication → LeaveApplication → LeaveApplication)
    → ((a : LeaveApplication) → IsPending a → LeaveStep a (update a a))
    → (leaves : List LeaveApplication) → IsKeyed (λ (a : LeaveApplication). a.id) db.leaves
    → (find_first (is_application_of db org id) db.leaves ≡ none → leaves ≡ db.leaves)
    → ((a : LeaveApplication)
        → find_first (is_application_of db org id) db.leaves ≡ some a
        → Decides db id (update a) a leaves)
    → Evolves LeaveStep New db.leaves leaves
decided-Evolves New db org id update step leaves k =
    Evolves-effect LeaveStep New (λ a. a.id) (is_application_of db org id) id IsPending update
      LeaveStep-refl (is_application_of-id db org id) step db.leaves leaves k

cancel_effect :
    (clock : Clock) (org employee id : ℕ) (db : Db) (a : LeaveApplication)
    → find_first (is_application_of db org id) db.leaves ≡ some a
    → Decides db id (cancelled_as clock) a (cancel clock org employee id db).1.leaves
unfolding cancel
cancel_effect clock org employee id db a e = ground arith

cancel_miss :
    (clock : Clock) (org employee id : ℕ) (db : Db)
    → find_first (is_application_of db org id) db.leaves ≡ none
    → (cancel clock org employee id db).1.leaves ≡ db.leaves
unfolding cancel
cancel_miss clock org employee id db e = ground arith

approve_effect :
    (clock : Clock) (org id approver : ℕ) (own : Option ℕ) (notes : Option String) (db : Db)
    (a : LeaveApplication)
    → find_first (is_application_of db org id) db.leaves ≡ some a
    → Decides db id
        (approved_by clock.now approver notes)
        a
        (approve clock org id approver own notes db).1.leaves
unfolding approve
approve_effect clock org id approver own notes db a e =
    let year = clock.get_full_year a.from_date in
    ground (arith, deduct_balance-leaves a.employee_id a.leave_policy_type_id year a.days false db)

approve_miss :
    (clock : Clock) (org id approver : ℕ) (own : Option ℕ) (notes : Option String) (db : Db)
    → find_first (is_application_of db org id) db.leaves ≡ none
    → (approve clock org id approver own notes db).1.leaves ≡ db.leaves
unfolding approve
approve_miss clock org id approver own notes db e = ground arith

reject_effect :
    (clock : Clock) (org id approver : ℕ) (own : Option ℕ) (note : String) (db : Db)
    (a : LeaveApplication)
    → find_first (is_application_of db org id) db.leaves ≡ some a
    → Decides db id
        (rejected_as clock approver note)
        a
        (reject clock org id approver own note db).1.leaves
unfolding reject
reject_effect clock org id approver own note db a e = ground arith

reject_miss :
    (clock : Clock) (org id approver : ℕ) (own : Option ℕ) (note : String) (db : Db)
    → find_first (is_application_of db org id) db.leaves ≡ none
    → (reject clock org id approver own note db).1.leaves ≡ db.leaves
unfolding reject
reject_miss clock org id approver own note db e = ground arith

apply_creates_effect :
    (year : ℕ) (dto : ApplyLeaveDto) (employee : ℕ) (db : Db)
    → let leaves = (apply_creates year dto employee db).1.leaves in
      (leaves ≡ db.leaves)
      ⊎ ((find_first (overlaps employee dto.from_date dto.to_date) db.leaves ≡ none)
          × (leaves ≡ create (new_application db.next_id employee dto) db.leaves))
unfolding apply_creates
apply_creates_effect year dto employee db = ground arith

apply_checks_keeps :
    (org : ℕ) (caller : Option ℕ) (dto : ApplyLeaveDto) (db : Db)
    → (apply_checks org caller dto db).1 ≡ db
unfolding apply_checks
apply_checks_keeps org caller dto db = ground arith

-- The effect of an application on the table: none, or a row behind the others for an employee of
-- whom no live application overlaps it.
abbrev pub Applies : ApplyLeaveDto → Db → List LeaveApplication → Type 0
Applies dto db leaves =
    (leaves ≡ db.leaves)
    ⊎ ((id : ℕ) × (employee : ℕ) × (find_first (overlaps employee dto.from_date dto.to_date)
            db.leaves
          ≡ none)
        × (leaves ≡ create (new_application id employee dto) db.leaves))

apply_creates-Applies :
    (year : ℕ) (dto : ApplyLeaveDto) (employee : ℕ) (db db' : Db)
    → db'.leaves ≡ db.leaves
    → Applies dto db (apply_creates year dto employee db').1.leaves
apply_creates-Applies year dto employee db db' same =
    elim (apply_creates_effect year dto employee db') [
      | inl e ↦ inl (e ∙ same)
      | inr (free, made) ↦ inr (
        db'.next_id,
        employee,
        rw same at free,
        made ∙ ap (create (new_application db'.next_id employee dto)) same,
      )
    ]

pub apply-Applies :
    (clock : Clock) (org : ℕ) (caller : Option ℕ) (dto : ApplyLeaveDto) (db : Db)
    → Applies dto db (apply clock org caller dto db).1.leaves
unfolding apply
apply-Applies clock org caller dto db =
    let keeps = apply_checks_keeps org caller dto db in
    elim (Result-cases (apply_checks org caller dto db).0) [
      | inr (e, failed) ↦ inl (ground (arith, keeps))
      | inl (employee, passed) ↦
          let type = dto.leave_policy_type_id in
          let year = clock.get_full_year dto.from_date in
          let db' = (apply_checks org caller dto db).1 in
          let same = initialize_for_employee-leaves employee type year db' in
          elim (Result-cases (initialize_for_employee employee type year db').0) [
            | inr (e, failed) ↦ inl (ground (arith, keeps, same))
            | inl (b, made) ↦
                let after = (initialize_for_employee employee type year db').1 in
                let reached : (apply clock org caller dto db).1.leaves
                    ≡ (apply_creates year dto employee after).1.leaves =
                  ground arith in
                subst (Applies dto db) (sym reached) (
                  apply_creates-Applies year dto employee db after
                    (same ∙ ap (λ d. d.leaves) keeps))
          ]
    ]

module _ (New : LeaveApplication → Type 0) (clock : Clock) where
  pub cancel-Evolves :
      (org employee id : ℕ) (db : Db)
      → IsKeyed (λ (a : LeaveApplication). a.id) db.leaves
      → Evolves LeaveStep New db.leaves (cancel clock org employee id db).1.leaves
  cancel-Evolves org employee id db k =
      decided-Evolves New db org id (λ _. cancelled_as clock)
        (λ a p. decided refl refl refl refl refl refl p) _ k (cancel_miss clock org employee id db)
        (cancel_effect clock org employee id db)

  pub approve-Evolves :
      (org id approver : ℕ) (own : Option ℕ) (notes : Option String) (db : Db)
      → IsKeyed (λ (a : LeaveApplication). a.id) db.leaves
      → Evolves LeaveStep New db.leaves (approve clock org id approver own notes db).1.leaves
  approve-Evolves org id approver own notes db k =
      decided-Evolves New db org id (λ _. approved_by clock.now approver notes)
        (λ a p. decided refl refl refl refl refl refl p) _ k
        (approve_miss clock org id approver own notes db)
        (approve_effect clock org id approver own notes db)

  pub reject-Evolves :
      (org id approver : ℕ) (own : Option ℕ) (note : String) (db : Db)
      → IsKeyed (λ (a : LeaveApplication). a.id) db.leaves
      → Evolves LeaveStep New db.leaves (reject clock org id approver own note db).1.leaves
  reject-Evolves org id approver own note db k =
      decided-Evolves New db org id (λ _. rejected_as clock approver note)
        (λ a p. decided refl refl refl refl refl refl p) _ k
        (reject_miss clock org id approver own note db)
        (reject_effect clock org id approver own note db)

-- With distinct identifiers, any request leaves each leave application in its place with its
-- identifier, employee, type, dates and days; its state changes only if it was pending; and what
-- is added is pending.
pub run_leave_call-Evolves :
    (clock : Clock) (call : LeaveCall) (db : Db)
    → IsKeyed (λ (a : LeaveApplication). a.id) db.leaves
    → Evolves LeaveStep IsPending db.leaves (run_leave_call clock call db).leaves
unfolding run_leave_call
run_leave_call-Evolves clock (apply_call org caller dto) db k =
    elim (apply-Applies clock org caller dto db) [
      | inl same ↦ rw same (Evolves-refl LeaveStep IsPending LeaveStep-refl db.leaves)
      | inr (id, employee, free, made) ↦
          rw made (Evolves-create LeaveStep IsPending LeaveStep-refl _ refl db.leaves)
    ]
run_leave_call-Evolves clock (cancel_call org employee id) db k =
    cancel-Evolves IsPending clock org employee id db k
run_leave_call-Evolves clock (approve_call org id approver own notes) db k =
    approve-Evolves IsPending clock org id approver own notes db k
run_leave_call-Evolves clock (reject_call org id approver own note) db k =
    reject-Evolves IsPending clock org id approver own note db k
