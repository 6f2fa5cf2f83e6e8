-- ===== src/Exit/Tests.antt =====
-- An organization with an employee who leaves.
use igreen_backend.Base.{◌≡◌, refl, ◌↔◌, inl, true, false, none, some, String, [], ◌∷◌, ◌==◌, every}
use igreen_backend.Base.Int.{pos}
use igreen_backend.Base.Calendar.{Clock}
use igreen_backend.Store.Table.{update_where}
use igreen_backend.Store.Table.Apart.{Apart}
use igreen_backend.Store.Table.Evolution.{Evolves}
use igreen_backend.Store.Staff.{EmployeeStatus, active, Employee, Department}
use igreen_backend.Store.Exit.{ExitStatus, initiated, cleared, DepartmentClearance, ExitRecord}
use igreen_backend.Store.Db.{Db, empty_db, ok, fails}
use igreen_backend.Exit.{
  UpdateClearanceDto, DepartmentClearanceDto, uncleared, uncleared_department, update_clearance,
  settled_as, settle,
}
use igreen_backend.Exit.Lifecycle.{
  settle_call, clearance_call, run_exit_call, ExitStep, IsInitiated, document,
}
use igreen_backend.Exit.Records.{run_exit_call-Evolves, same_leaver, run_exit_call-Apart}
use igreen_backend.Exit.Clearance.{MayClear, update_clearance_clears, update_clearance_stays}
use igreen_backend.Exit.Settlement.{settle_outcome}

abbrev clock : Clock
clock = record { now = 1000; get_full_year = λ _. 2025; get_month = λ _. 10 }

-- departments are written in one case here
abbrev as_is : String → String
as_is s = s

abbrev worker : EmployeeStatus → Employee
worker status = record {
  id = 7;
  organization_id = 1;
  deleted_at = none;
  status = status;
  reporting_manager_id = none;
  leave_policy_id = none;
  updated_by_id = none;
  payroll_structure_id = none;
}

abbrev it : Department
it = record {
  id = 5;
  organization_id = 1;
  name = "IT";
  parent_id = none;
  head_employee_id = none;
  hierarchy_level = 0;
  deleted_at = none;
}

abbrev leaver : ExitStatus → ExitRecord
leaver status = record {
  id = 50;
  organization_id = 1;
  employee_id = 7;
  type = "RESIGNATION";
  status = status;
  initiated_by = "EMPLOYEE";
  reason = some "";
  initiated_at = 10;
  notice_start_date = none;
  last_working_date = none;
  effective_date = none;
  target_settlement_date = 4000;
  knowledge_transfer_complete = false;
  clearance_status = some (uncleared (uncleared_department it ∷ []));
  noc_issued_at = none;
  settlement_amount = none;
  settled_at = none;
  created_by_id = none;
}

abbrev office : ExitStatus → Db
office status = record empty_db {
  employees = worker active ∷ [];
  departments = it ∷ [];
  exits = leaver status ∷ [];
}

abbrev it_done : DepartmentClearanceDto
it_done = record { department = "IT"; cleared = true; cleared_by = some "Asha" }

abbrev it_undone : DepartmentClearanceDto
it_undone = record { department = "IT"; cleared = false; cleared_by = none }

abbrev marks : DepartmentClearanceDto → UpdateClearanceDto
marks u = record {
  departments = some (u ∷ []);
  knowledge_transfer_complete = some true;
  advance_to_cleared_if_complete = none;
}

run_exit_call-Evolves_example :
    Evolves ExitStep IsInitiated
      (office initiated).exits
      (run_exit_call as_is clock (clearance_call 1 50 (marks it_done)) (office initiated)).exits
run_exit_call-Evolves_example =
    run_exit_call-Evolves as_is clock (clearance_call 1 50 (marks it_done)) (office initiated)
      (tt, tt)

run_exit_call-Apart_example :
    Apart same_leaver
      (run_exit_call as_is clock (settle_call 1 9 50 (pos 900)) (office cleared)).exits
run_exit_call-Apart_example =
    run_exit_call-Apart as_is clock (settle_call 1 9 50 (pos 900)) (office cleared) (tt, tt)
      (tt, tt)

update_clearance_clears_example :
    (r' : ExitRecord) × ((update_clearance as_is clock 1 50 (marks it_done) (office initiated)).0
      ≡ ok r')
    × ((r'.status ≡ cleared) ↔ MayClear as_is (marks it_done) 0 (leaver initiated))
unfolding igreen_backend.Assets.count_unreturned_assignments_for_employee
update_clearance_clears_example =
    update_clearance_clears as_is clock 1 50 (marks it_done) (office initiated) (leaver initiated) 0
      refl (inl refl) refl

update_clearance_stays_example :
    (r' : ExitRecord) × ((update_clearance as_is clock 1 50 (marks it_undone) (office cleared)).0
      ≡ ok r')
    × (r'.status ≡ cleared)
    × (every
          (λ (d : DepartmentClearance). d.cleared)
          (document as_is 1000 (marks it_undone) 0 (leaver cleared)).departments
        ≡ false)
    × (r'.clearance_status ≡ some (document as_is 1000 (marks it_undone) 0 (leaver cleared)))
unfolding igreen_backend.Assets.count_unreturned_assignments_for_employee
update_clearance_stays_example =
    update_clearance_stays as_is clock 1 50 (marks it_undone) (office cleared) (leaver cleared) 0
      it_undone refl refl refl refl refl

settle_outcome_example :
    let db' = (settle clock 1 9 50 (pos 900) (office cleared)).1 in
    (fails (settle clock 1 9 50 (pos 900) (office cleared)).0 ≡ true)
    × (db'.exits
        ≡ update_where
            (λ (x : ExitRecord). x.id == 50)
            (settled_as 1000 (pos 900))
            (office cleared).exits)
    × (db'.employees ≡ (office cleared).employees)
settle_outcome_example =
    settle_outcome clock 1 9 50 (pos 900) (office cleared) (leaver cleared) (worker active) refl
      refl refl
