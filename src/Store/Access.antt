-- ===== src/Store/Access.antt =====
-- The tables of users and of roles.
use igreen_backend.Base.{ℕ, Bool, Option, String, List}

-- model User: the columns that the modelled services read or write
pub record User : Type 0 where
  pub id : ℕ
  pub organization_id : ℕ

-- model Role
pub record Role : Type 0 where
  pub id : ℕ
  pub organization_id : ℕ
  pub name : String
  pub description : Option String
  pub permissions : List String
  pub is_system_role : Bool

-- model UserRole
pub record UserRole : Type 0 where
  pub user_id : ℕ
  pub role_id : ℕ
