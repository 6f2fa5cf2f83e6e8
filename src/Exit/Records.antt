-- ===== src/Exit/Records.antt =====
-- The states of exit records over all requests, and one record for an employee.
use igreen_backend.Base.{
  ℕ, ◌≡◌, refl, inl, inr, Bool, false, String, arith, ◌==◌, ◌&&◌, All-map, Option-cases,
}
use igreen_backend.Base.Int.{ℤ}
use igreen_backend.Base.Calendar.{Clock}
use igreen_backend.Store.Table.{find_first, find_many, IsKeyed, find_first-none}
use igreen_backend.Store.Table.Apart.{Apart, create-Apart, Evolves-Apart}
use igreen_backend.Store.Table.Evolution.{
  Evolves, Evolves-refl, Evolves-create, Evolves-update_found, Evolves-effect,
}
use igreen_backend.Store.Exit.{cleared, ExitRecord}
use igreen_backend.Store.Db.{Db}
use igreen_backend.Exit.{
  UpdateClearanceDto, is_exit_for, is_exit_of, is_department_of, new_exit, update_clearance,
  settled_as, settle,
}
use igreen_backend.Exit.Lifecycle.{
  ExitCall, create_call, clearance_call, settle_call, run_exit_call, settle_cleared, ExitStep,
  IsInitiated, ExitStep-refl, is_exit_of-id, clearance_call-Effect, update_clearance_closed,
  settle_call-effect, settle_call-miss, create_call-effect,
}

module _ (New : ExitRecord → Type 0) where
  clearance_call-Evolves :
      (lower : String → String) (clock : Clock) (org id : ℕ) (dto : UpdateClearanceDto) (db : Db)
      → IsKeyed (λ (r : ExitRecord). r.id) db.exits
      → Evolves ExitStep New db.exits (update_clearance lower clock org id dto db).1.exits
  clearance_call-Evolves lower clock org id dto db k =
      elim (Option-cases (find_first (is_exit_of org id) db.exits)) [
        | inl e ↦
            rw (update_clearance_closed lower clock org id dto db (inl e))
              (Evolves-refl ExitStep New ExitStep-refl db.exits)
        | inr (r, e) ↦ elim (clearance_call-Effect lower clock org id dto db r e) [
          | inl same ↦ rw same (Evolves-refl ExitStep New ExitStep-refl db.exits)
          | inr (f, step, written) ↦ rw written (
              Evolves-update_found ExitStep New (λ r. r.id) (is_exit_of org id) id f ExitStep-refl
                (is_exit_of-id org id) db.exits r k e step)
        ]
      ]

  settle_call-Evolves :
      (clock : Clock) (org user id : ℕ) (amount : ℤ) (db : Db)
      → IsKeyed (λ (r : ExitRecord). r.id) db.exits
      → Evolves ExitStep New db.exits (settle clock org user id amount db).1.exits
  settle_call-Evolves clock org user id amount db k =
      Evolves-effect ExitStep New (λ r. r.id) (is_exit_of org id) id (λ r. r.status ≡ cleared)
        (λ _. settled_as clock.now amount) ExitStep-refl (is_exit_of-id org id)
        (λ r h. record {
          same_id = refl;
          same_organization = refl;
          same_employee = refl;
          status = rw h settle_cleared;
        })
        db.exits (settle clock org user id amount db).1.exits k
        (settle_call-miss clock org user id amount db)
        (settle_call-effect clock org user id amount db)

-- With distinct identifiers, every request leaves each exit record in its place with its
-- identifier, organization and employee; its state stays or goes from INITIATED to
-- CLEARANCE_PENDING or CLEARED, from CLEARANCE_PENDING to CLEARED, or from CLEARED to SETTLED; and
-- what is added is INITIATED.
pub run_exit_call-Evolves :
    (lower : String → String) (clock : Clock) (call : ExitCall) (db : Db)
    → IsKeyed (λ (r : ExitRecord). r.id) db.exits
    → Evolves ExitStep IsInitiated db.exits (run_exit_call lower clock call db).exits
unfolding run_exit_call
run_exit_call-Evolves lower clock (create_call org user dto) db k =
    elim (create_call-effect clock org user dto db) [
      | inl same ↦ rw same (Evolves-refl ExitStep IsInitiated ExitStep-refl db.exits)
      | inr (free, made) ↦
          rw made (Evolves-create ExitStep IsInitiated ExitStep-refl _ refl db.exits)
    ]
run_exit_call-Evolves lower clock (clearance_call org id dto) db k =
    clearance_call-Evolves IsInitiated lower clock org id dto db k
run_exit_call-Evolves lower clock (settle_call org user id amount) db k =
    settle_call-Evolves IsInitiated clock org user id amount db k

-- Both are for one employee of one organization.
abbrev pub same_leaver : ExitRecord → ExitRecord → Bool
same_leaver a b = a.employee_id == b.employee_id && a.organization_id == b.organization_id

same_leaver-step :
    (a b c d : ExitRecord)
    → ExitStep a c
    → ExitStep b d
    → same_leaver a b ≡ false
    → same_leaver c d ≡ false
same_leaver-step a b c d p q h =
    ground (arith, p.same_employee, p.same_organization, q.same_employee, q.same_organization)

-- With distinct identifiers, every request keeps it so that no two exit records are for one
-- employee of one organization.
pub run_exit_call-Apart :
    (lower : String → String) (clock : Clock) (call : ExitCall) (db : Db)
    → IsKeyed (λ (r : ExitRecord). r.id) db.exits
    → Apart same_leaver db.exits
    → Apart same_leaver (run_exit_call lower clock call db).exits
unfolding run_exit_call
run_exit_call-Apart lower clock (create_call org user dto) db k h =
    elim (create_call-effect clock org user dto db) [
      | inl same ↦ rw same h
      | inr (free, made) ↦
          let row =
            new_exit db.next_id clock.now org user (find_many (is_department_of org) db.departments)
              dto in
          rw made (
            create-Apart same_leaver row db.exits
              (All-map (λ r. is_exit_for org dto.employee_id r ≡ false)
                (λ r. same_leaver r row ≡ false) (λ r f. ground arith) db.exits
                (find_first-none (is_exit_for org dto.employee_id) db.exits free))
              h)
    ]
run_exit_call-Apart lower clock (clearance_call org id dto) db k h =
    Evolves-Apart same_leaver ExitStep same_leaver-step db.exits _
      (clearance_call-Evolves (λ _. ⊥) lower clock org id dto db k) h
run_exit_call-Apart lower clock (settle_call org user id amount) db k h =
    Evolves-Apart same_leaver ExitStep same_leaver-step db.exits _
      (settle_call-Evolves (λ _. ⊥) clock org user id amount db k) h
