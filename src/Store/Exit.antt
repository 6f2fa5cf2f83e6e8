-- ===== src/Store/Exit.antt =====
-- The table of exit records, with the clearance document that the service keeps in a JSON column.
use igreen_backend.Base.{ℕ, Bool, Option, String, List, ◌==◌}
use igreen_backend.Base.Int.{ℤ}

-- enum ExitStatus
pub data ExitStatus : Type 0 where
  initiated clearance_pending cleared settled completed : ExitStatus

abbrev pub exit_status_rank : ExitStatus → ℕ
exit_status_rank initiated = 0
exit_status_rank clearance_pending = 1
exit_status_rank cleared = 2
exit_status_rank settled = 3
exit_status_rank completed = 4

-- `===` on the statuses
abbrev pub exit_status_eq : ExitStatus → ExitStatus → Bool
exit_status_eq a b = exit_status_rank a == exit_status_rank b

-- interface DepartmentClearance
pub record DepartmentClearance : Type 0 where
  pub department : String
  pub cleared : Bool
  pub cleared_by : Option String
  pub cleared_at : Option ℕ

-- interface ClearanceStatus, its two inner objects flattened
pub record ClearanceStatus : Type 0 where
  pub departments : List DepartmentClearance
  pub asset_handover_cleared : Bool
  pub unreturned_count : ℕ
  pub knowledge_transfer_cleared : Bool

-- model ExitRecord
pub record ExitRecord : Type 0 where
  pub id : ℕ
  pub organization_id : ℕ
  pub employee_id : ℕ
  pub type : String
  pub status : ExitStatus
  pub initiated_by : String
  pub reason : Option String
  pub initiated_at : ℕ
  pub notice_start_date : Option ℕ
  pub last_working_date : Option ℕ
  pub effective_date : Option ℕ
  pub target_settlement_date : ℕ
  pub knowledge_transfer_complete : Bool
  pub clearance_status : Option ClearanceStatus
  pub noc_issued_at : Option ℕ
  pub settlement_amount : Option ℤ
  pub settled_at : Option ℕ
  pub created_by_id : Option ℕ
