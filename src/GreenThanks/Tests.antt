-- ===== src/GreenThanks/Tests.antt =====
-- A sender who has 90 points left of the default limit.
use igreen_backend.Base.{ℕ, ◌≡◌, refl, false, none, some, List, [], ◌∷◌, arith, ◌*◌, ◌+◌}
use igreen_backend.Base.Calendar.{Clock, Zone}
use igreen_backend.Store.Staff.{Employee, active}
use igreen_backend.Store.Db.{Db, empty_db, RequestingUser, err, bad_request}
use igreen_backend.GreenThanks.{CreateGreenThanksDto, new_green_thanks, create_green_thanks}
use igreen_backend.GreenThanks.Limit.{
  ThanksCall, create_call, approve_call, paid_call, run_thanks_calls, IsWithin,
  run_thanks_calls-IsWithin,
}

abbrev clock : Clock
clock = record { now = 100; get_full_year = λ _. 0; get_month = λ _. 4 }

-- months of 31 instants
abbrev zone : Zone
zone = record {
  start_of_month = λ year month. (year * 12 + month) * 31;
  end_of_month = λ year month. (year * 12 + month) * 31 + 30;
}

abbrev worker : ℕ → Employee
worker id = record {
  id = id;
  organization_id = 1;
  deleted_at = none;
  status = active;
  reporting_manager_id = none;
  leave_policy_id = none;
  updated_by_id = none;
  payroll_structure_id = none;
}

abbrev thanks_of : ℕ → CreateGreenThanksDto
thanks_of points = record { to_employee_id = 8; points = points; reason = "helped" }

abbrev office : Db
office = record empty_db {
  next_id = 50;
  employees = worker 7 ∷ worker 8 ∷ [];
  green_thanks = new_green_thanks 40 99 7 (thanks_of 10) ∷ [];
}

abbrev sender : RequestingUser
sender = record { id = 2; employee_id = some 7; permissions = [] }

abbrev approver : RequestingUser
approver = record { id = 3; employee_id = none; permissions = "leave:approve" ∷ [] }

abbrev calls : List ThanksCall
calls =
    create_call clock sender (thanks_of 60)
    ∷ approve_call clock 3 approver 50 (record {
      approve = false;
      rejection_note = none;
      payroll_month = none;
      payroll_year = none;
    })
    ∷ create_call clock sender (thanks_of 90)
    ∷ paid_call (40 ∷ [])
    ∷ []

office-IsWithin : IsWithin zone 1 93 185 office
office-IsWithin = record {
  keyed = (tt, tt);
  old = (omega arith, tt);
  within = λ employee. ground arith;
}

run_thanks_calls-IsWithin_example : IsWithin zone 1 93 185 (run_thanks_calls zone 1 calls office)
run_thanks_calls-IsWithin_example =
    run_thanks_calls-IsWithin zone 1 93 185 calls office
      ((refl, refl), (tt, ((refl, refl), (tt, tt)))) office-IsWithin

-- The limit is 100 points: 90 more are sent, 91 are not.
one_too_many :
    (create_green_thanks zone clock 1 sender (thanks_of 91) office).0
    ≡ err
        (bad_request "Sending … points would exceed your quarterly Green Thanks limit of … points")
unfolding create_green_thanks
one_too_many = refl
