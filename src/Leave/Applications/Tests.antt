-- ===== src/Leave/Applications/Tests.antt =====
-- An employee with a balance of twelve days who asks for two.
use igreen_backend.Base.{◌≡◌, refl, ◌⊎◌, true, false, none, some, [], ◌∷◌, arith}
use igreen_backend.Base.Int.{pos, ◌+ℤ◌}
use igreen_backend.Base.Calendar.{Clock}
use igreen_backend.Store.Table.{find_first}
use igreen_backend.Store.Table.Evolution.{Evolves}
use igreen_backend.Store.Staff.{Employee, active}
use igreen_backend.Store.Leave.{LeaveStatus, LeaveBalance, LeaveApplication}
use igreen_backend.Store.Db.{Db, empty_db, ok, fails}
use igreen_backend.Leave.Balance.{drawn, new_balance, accrue_monthly}
use igreen_backend.Leave.Balance.Books.{Sound}
use igreen_backend.Leave.Balance.Invariants.{
  IsCovered, deduct_call, run_balance_call, run_balance_call-IsCovered,
}
use igreen_backend.Leave.Applications.{ApplyLeaveDto, approve, approved_by}
use igreen_backend.Leave.Applications.Lifecycle.{
  LeaveStep, IsPending, apply_call, run_leave_call, run_leave_call-Evolves,
}
use igreen_backend.Leave.Applications.Overlap.{NoOverlap, run_leave_call-NoOverlap}
use igreen_backend.Leave.Applications.Approval.{
  Allows, draws_on, granted, approve_outcome, approve_both, approve_both_draws_twice,
}

abbrev clock : Clock
clock = record { now = 5; get_full_year = λ _. 2026; get_month = λ _. 3 }

abbrev worker : Employee
worker = record {
  id = 7;
  organization_id = 1;
  deleted_at = none;
  status = active;
  reporting_manager_id = none;
  leave_policy_id = some 2;
  updated_by_id = none;
  payroll_structure_id = none;
}

abbrev two_days : LeaveApplication
two_days = record {
  id = 20;
  employee_id = 7;
  leave_policy_type_id = 3;
  from_date = 1000;
  to_date = 1001;
  days = 48;
  reason = none;
  status = LeaveStatus.pending;
  approver_id = none;
  rejection_note = none;
  is_special = false;
  decided_at = none;
}

abbrev twelve_days : LeaveBalance
twelve_days = new_balance 30 7 3 2026 288

abbrev office : Db
office = record empty_db {
  employees = worker ∷ [];
  leave_policies = record { id = 2; organization_id = 1; is_active = true; deleted_at = none } ∷ [];
  policy_types =
      record {
        id = 3;
        leave_policy_id = 2;
        days_per_year = 288;
        accrual_type = "monthly";
        is_lop_eligible = true;
        max_consecutive_days = some 5;
      }
      ∷ [];
  balances = twelve_days ∷ [];
  leaves = two_days ∷ [];
}

abbrev next_week : ApplyLeaveDto
next_week = record {
  leave_policy_type_id = 3;
  from_date = 1001;
  to_date = 1008;
  days = 72;
  reason = none;
}

-- The days that a new employee is entitled to at once grow by a twelfth each month all the same.
accrues_on_top :
    (accrue_monthly 2026 office).balances
    ≡ record twelve_days { entitled_days = pos 312; balance_days = pos 312 } ∷ []
unfolding accrue_monthly ◌+ℤ◌
accrues_on_top = refl

run_balance_call-IsCovered_example :
    Sound IsCovered
      (run_balance_call (deduct_call 7 3 2026 400 false) office).next_id
      (run_balance_call (deduct_call 7 3 2026 400 false) office).balances
run_balance_call-IsCovered_example =
    run_balance_call-IsCovered (deduct_call 7 3 2026 400 false) office refl
      (record { keyed = (tt, tt); below = (omega arith, tt); holds = (omega arith, tt) })

run_leave_call-Evolves_example :
    Evolves LeaveStep IsPending office.leaves
      (run_leave_call clock (apply_call 1 (some 7) next_week) office).leaves
run_leave_call-Evolves_example =
    run_leave_call-Evolves clock (apply_call 1 (some 7) next_week) office (tt, tt)

run_leave_call-NoOverlap_example :
    NoOverlap (run_leave_call clock (apply_call 1 (some 7) next_week) office).leaves
run_leave_call-NoOverlap_example =
    run_leave_call-NoOverlap clock (apply_call 1 (some 7) next_week) office (tt, tt) (tt, tt)

approve_outcome_example :
    ((fails (approve clock 1 20 8 (some 9) none office).0 ≡ true)
      × ((approve clock 1 20 8 (some 9) none office).1 ≡ office))
    ⊎ ((a : LeaveApplication) × (b : LeaveBalance) × Allows clock 1 20 (some 9) a b office
        × (approve clock 1 20 8 (some 9) none office
            ≡ (ok (approved_by 5 8 none a), granted clock 20 8 none a b office)))
approve_outcome_example = approve_outcome clock 1 20 8 (some 9) none office

approve_both_draws_twice_example :
    find_first
      (draws_on clock two_days)
      (approve_both clock 1 20 8 9 (some 11) (some 12) none office).1.balances
    ≡ some (drawn 48 (drawn 48 twelve_days))
approve_both_draws_twice_example =
    approve_both_draws_twice clock 1 20 8 9 (some 11) (some 12) none office two_days twelve_days
      (tt, tt) (refl, refl, refl, refl, omega arith) refl (omega arith)
