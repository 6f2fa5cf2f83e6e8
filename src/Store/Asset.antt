-- ===== src/Store/Asset.antt =====
-- The tables of assets and of their assignments to employees.
use igreen_backend.Base.{ℕ, Bool, Option, String, ◌==◌}
use igreen_backend.Base.Int.{ℤ}

-- enum AssetStatus
pub data AssetStatus : Type 0 where
  available assigned under_maintenance retired returned damaged lost : AssetStatus

abbrev pub asset_status_rank : AssetStatus → ℕ
asset_status_rank available = 0
asset_status_rank assigned = 1
asset_status_rank under_maintenance = 2
asset_status_rank retired = 3
asset_status_rank returned = 4
asset_status_rank damaged = 5
asset_status_rank lost = 6

-- `===` on the statuses
abbrev pub asset_status_eq : AssetStatus → AssetStatus → Bool
asset_status_eq a b = asset_status_rank a == asset_status_rank b

-- model Asset
pub record Asset : Type 0 where
  pub id : ℕ
  pub organization_id : ℕ
  pub type : String
  pub name : String
  pub serial_number : Option String
  pub status : AssetStatus
  pub purchase_date : Option ℕ
  pub purchase_value : Option ℤ

-- model AssetAssignment
pub record AssetAssignment : Type 0 where
  pub id : ℕ
  pub asset_id : ℕ
  pub employee_id : ℕ
  pub assigned_at : ℕ
  pub returned_at : Option ℕ
  pub condition_on_issue : Option String
  pub condition_on_return : Option String
  pub notes : Option String
  pub recovered_at_exit : Bool
