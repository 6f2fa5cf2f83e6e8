-- ===== src/Exit/Lifecycle.antt =====
-- How the handlers move exit records through their states.
use igreen_backend.Base.{
  ℕ, ◌≡◌, refl, ◌⊎◌, inl, inr, true, false, none, some, String, List, arith, ◌==◌, ◌&&◌, ◌||◌, ap,
  if◌then◌else◌, get_or, Bool-cases,
}
use igreen_backend.Base.Int.{ℤ}
use igreen_backend.Base.Calendar.{Clock}
use igreen_backend.Store.Table.{find_first, update_where, create, find_many}
use igreen_backend.Store.Exit.{
  ExitStatus, initiated, clearance_pending, cleared, settled, completed, exit_status_eq,
  ClearanceStatus, ExitRecord,
}
use igreen_backend.Store.Db.{Db, HttpError, ok, err, Result-cases}
use igreen_backend.Assets.{count_unreturned_assignments_for_employee}
use igreen_backend.Loans.Service.Deduction.{get_outstanding_balance_for_employee}
use igreen_backend.Employees.{patch_status}
use igreen_backend.Exit.{
  CreateExitDto, UpdateClearanceDto, is_exit_for, is_exit_of, is_department_of, new_exit,
  create_exit, parse_clearance_status, updated_clearance, is_all_cleared, next_status,
  with_clearance, update_clearance, settled_as, settle,
}

-- The requests that write to the table of exit records.
pub data ExitCall : Type 0 where
  create_call : ℕ → ℕ → CreateExitDto → ExitCall
  clearance_call : ℕ → ℕ → UpdateClearanceDto → ExitCall
  settle_call : ℕ → ℕ → ℕ → ℤ → ExitCall

-- The database after a request.
unfoldable pub run_exit_call : (String → String) → Clock → ExitCall → Db → Db
run_exit_call lower clock (create_call org user dto) db = (create_exit clock org user dto db).1
run_exit_call lower clock (clearance_call org id dto) db =
    (update_clearance lower clock org id dto db).1
run_exit_call lower clock (settle_call org user id amount) db =
    (settle clock org user id amount db).1

pub data StatusStep : ExitStatus → ExitStatus → Type 0 where
  stay : {s : ExitStatus} → StatusStep s s
  open_clearance : StatusStep initiated clearance_pending
  clear_at_once : StatusStep initiated cleared
  clear : StatusStep clearance_pending cleared
  settle_cleared : StatusStep cleared settled

-- A record keeps what it was created with.
pub record ExitStep (a b : ExitRecord) : Type 0 where
  pub same_id : b.id ≡ a.id
  pub same_organization : b.organization_id ≡ a.organization_id
  pub same_employee : b.employee_id ≡ a.employee_id
  pub status : StatusStep a.status b.status

abbrev pub IsInitiated : ExitRecord → Type 0
IsInitiated r = r.status ≡ initiated

pub ExitStep-refl : (r : ExitRecord) → ExitStep r r
ExitStep-refl r = record {
  same_id = refl;
  same_organization = refl;
  same_employee = refl;
  status = stay;
}

next_status-StatusStep :
    (dto : UpdateClearanceDto) (c : ClearanceStatus) (s : ExitStatus)
    → (exit_status_eq s settled ≡ false) × (exit_status_eq s completed ≡ false)
    → StatusStep s (next_status dto c s)
next_status-StatusStep dto c s h =
    elim (Bool-cases (get_or dto.advance_to_cleared_if_complete true && is_all_cleared c)) [
      | inl e ↦ rw e (go_cleared s h)
      | inr e ↦ rw e (go_on s)
    ]
  where
    go_cleared :
        (s : ExitStatus)
        → (exit_status_eq s settled ≡ false) × (exit_status_eq s completed ≡ false)
        → StatusStep s cleared
    go_cleared initiated h = clear_at_once
    go_cleared clearance_pending h = clear
    go_cleared cleared h = stay
    go_cleared settled h = absurd (cc (h.0))
    go_cleared completed h = absurd (cc (h.1))

    go_on :
        (s : ExitStatus)
        → StatusStep s (if exit_status_eq s initiated then clearance_pending else s)
    go_on initiated = open_clearance
    go_on clearance_pending = stay
    go_on cleared = stay
    go_on settled = stay
    go_on completed = stay

pub is_exit_of-id : (org id : ℕ) (r : ExitRecord) → is_exit_of org id r ≡ true → r.id ≡ id
is_exit_of-id org id r h = ground arith

-- The effect of a request on the record that it has found.
abbrev pub Effect : Db → ℕ → ExitRecord → List ExitRecord → Type 0
Effect db id r exits =
    (exits ≡ db.exits)
    ⊎ ((f : ExitRecord → ExitRecord) × ExitStep r (f r)
        × (exits ≡ update_where (λ x. x.id == id) f db.exits))

-- the clearance document that an update of the record makes
abbrev pub document : (String → String) → ℕ → UpdateClearanceDto → ℕ → ExitRecord → ClearanceStatus
document lower now dto n r =
    updated_clearance lower now dto n (parse_clearance_status r.clearance_status)

abbrev pub advanced :
    (String → String) → ℕ → UpdateClearanceDto → ℕ → ExitRecord → ExitRecord → ExitRecord
advanced lower now dto n r =
    with_clearance now (document lower now dto n r)
      (next_status dto (document lower now dto n r) r.status)

pub count_unreturned-keeps :
    (org employee : ℕ) (db : Db)
    → (count_unreturned_assignments_for_employee org employee db).1 ≡ db
unfolding count_unreturned_assignments_for_employee
count_unreturned-keeps org employee db = ground arith

-- An update of the clearance goes through.
pub update_clearance_runs :
    (lower : String → String) (clock : Clock) (org id : ℕ) (dto : UpdateClearanceDto) (db : Db)
    (r : ExitRecord) (n : ℕ)
    → find_first (is_exit_of org id) db.exits ≡ some r
    → (exit_status_eq r.status settled ≡ false) × (exit_status_eq r.status completed ≡ false)
    → (count_unreturned_assignments_for_employee org r.employee_id db).0 ≡ ok n
    → update_clearance lower clock org id dto db ≡ (
      ok (advanced lower clock.now dto n r r),
      record db {
        exits = update_where (λ x. x.id == id) (advanced lower clock.now dto n r) db.exits;
      },
    )
unfolding update_clearance
update_clearance_runs lower clock org id dto db r n e h c =
    ground (arith, count_unreturned-keeps org r.employee_id db)

update_clearance_refused :
    (lower : String → String) (clock : Clock) (org id : ℕ) (dto : UpdateClearanceDto) (db : Db)
    (r : ExitRecord) (x : HttpError)
    → find_first (is_exit_of org id) db.exits ≡ some r
    → (count_unreturned_assignments_for_employee org r.employee_id db).0 ≡ err x
    → (update_clearance lower clock org id dto db).1.exits ≡ db.exits
unfolding update_clearance
update_clearance_refused lower clock org id dto db r x e c =
    ground (arith, count_unreturned-keeps org r.employee_id db)

pub update_clearance_closed :
    (lower : String → String) (clock : Clock) (org id : ℕ) (dto : UpdateClearanceDto) (db : Db)
    → (find_first (is_exit_of org id) db.exits ≡ none)
      ⊎ ((r : ExitRecord) × (find_first (is_exit_of org id) db.exits ≡ some r)
          × ((exit_status_eq r.status settled || exit_status_eq r.status completed) ≡ true))
    → (update_clearance lower clock org id dto db).1.exits ≡ db.exits
unfolding update_clearance
update_clearance_closed lower clock org id dto db (inl e) = ground arith
update_clearance_closed lower clock org id dto db (inr (r, e, h)) = ground arith

pub clearance_call-Effect :
    (lower : String → String) (clock : Clock) (org id : ℕ) (dto : UpdateClearanceDto) (db : Db)
    (r : ExitRecord)
    → find_first (is_exit_of org id) db.exits ≡ some r
    → Effect db id r (update_clearance lower clock org id dto db).1.exits
clearance_call-Effect lower clock org id dto db r e =
    elim (Bool-cases (exit_status_eq r.status settled || exit_status_eq r.status completed)) [
      | inl h ↦ inl (update_clearance_closed lower clock org id dto db (inr (r, e, h)))
      | inr h ↦
          elim (Result-cases (count_unreturned_assignments_for_employee org r.employee_id db).0) [
            | inr (x, c) ↦ inl (update_clearance_refused lower clock org id dto db r x e c)
            | inl (n, c) ↦
                let live : (exit_status_eq r.status settled ≡ false)
                    × (exit_status_eq r.status completed ≡ false) =
                  ground arith in
                inr (
                  advanced lower clock.now dto n r,
                  record {
                    same_id = refl;
                    same_organization = refl;
                    same_employee = refl;
                    status =
                        next_status-StatusStep dto (document lower clock.now dto n r) r.status live;
                  },
                  ap (λ o. o.1.exits)
                      (update_clearance_runs lower clock org id dto db r n e live c),
                )
          ]
    ]

pub settle_call-effect :
    (clock : Clock) (org user id : ℕ) (amount : ℤ) (db : Db) (r : ExitRecord)
    → find_first (is_exit_of org id) db.exits ≡ some r
    → ((settle clock org user id amount db).1.exits ≡ db.exits)
      ⊎ ((r.status ≡ cleared)
          × ((settle clock org user id amount db).1.exits
              ≡ update_where (λ x. x.id == id) (settled_as clock.now amount) db.exits))
unfolding settle count_unreturned_assignments_for_employee get_outstanding_balance_for_employee
    patch_status
settle_call-effect clock org user id amount db r e = ground arith

pub settle_call-miss :
    (clock : Clock) (org user id : ℕ) (amount : ℤ) (db : Db)
    → find_first (is_exit_of org id) db.exits ≡ none
    → (settle clock org user id amount db).1.exits ≡ db.exits
unfolding settle
settle_call-miss clock org user id amount db e = ground arith

pub create_call-effect :
    (clock : Clock) (org user : ℕ) (dto : CreateExitDto) (db : Db)
    → let exits = (create_exit clock org user dto db).1.exits in
      (exits ≡ db.exits)
      ⊎ ((find_first (is_exit_for org dto.employee_id) db.exits ≡ none)
          × (exits
              ≡ create
                  (new_exit db.next_id clock.now org user
                    (find_many (is_department_of org) db.departments)
                    dto)
                  db.exits))
unfolding create_exit
create_call-effect clock org user dto db = ground arith
