-- ===== src/Store/Leave.antt =====
-- The tables of leave policies, balances, applications and holidays. Days are counted in
-- 24ths of a day, so that half days and the twelfth of a yearly entitlement in half days are whole.
use igreen_backend.Base.{ℕ, Bool, Option, String, ◌==◌}
use igreen_backend.Base.Int.{ℤ}

-- enum LeaveStatus
pub data LeaveStatus : Type 0 where
  pending approved rejected cancelled : LeaveStatus

abbrev pub leave_status_rank : LeaveStatus → ℕ
leave_status_rank pending = 0
leave_status_rank approved = 1
leave_status_rank rejected = 2
leave_status_rank cancelled = 3

-- `===` on the statuses
abbrev pub leave_status_eq : LeaveStatus → LeaveStatus → Bool
leave_status_eq a b = leave_status_rank a == leave_status_rank b

-- model LeavePolicy
pub record LeavePolicy : Type 0 where
  pub id : ℕ
  pub organization_id : ℕ
  pub is_active : Bool
  pub deleted_at : Option ℕ

-- model LeavePolicyType
pub record LeavePolicyType : Type 0 where
  pub id : ℕ
  pub leave_policy_id : ℕ
  pub days_per_year : ℕ
  pub accrual_type : String
  pub is_lop_eligible : Bool
  pub max_consecutive_days : Option ℕ

-- model LeaveBalance
pub record LeaveBalance : Type 0 where
  pub id : ℕ
  pub employee_id : ℕ
  pub leave_policy_type_id : ℕ
  pub year : ℕ
  pub entitled_days : ℤ
  pub taken_days : ℤ
  pub carried_forward_days : ℤ
  pub balance_days : ℤ

-- model LeaveApplication
pub record LeaveApplication : Type 0 where
  pub id : ℕ
  pub employee_id : ℕ
  pub leave_policy_type_id : ℕ
  pub from_date : ℕ
  pub to_date : ℕ
  pub days : ℕ
  pub reason : Option String
  pub status : LeaveStatus
  pub approver_id : Option ℕ
  pub rejection_note : Option String
  pub is_special : Bool
  pub decided_at : Option ℕ

-- model Holiday
pub record Holiday : Type 0 where
  pub organization_id : ℕ
  pub name : String
  pub date : ℕ
