-- ===== src/Rbac/Tests.antt =====
-- An organization with one role of a canonical name.
use igreen_backend.Base.{◌≡◌, refl, true, false, ◌&&◌, ◌||◌, none, List, [], ◌∷◌, arith}
use igreen_backend.Store.Access.{Role}
use igreen_backend.Store.Db.{Db, empty_db}
use igreen_backend.Rbac.{SystemRole, merged, refreshed, refresh_rbac_policies}
use igreen_backend.Rbac.Frame.{RoleStep, IsSystem}
use igreen_backend.Store.Table.Evolution.{Evolves}
use igreen_backend.Rbac.Refresh.{
  granted, canonical_allows, has_organization, IsRoleTable, refresh_rbac_policies-granted,
}

abbrev employee_role : Role
employee_role = record {
  id = 4;
  organization_id = 1;
  name = "employee";
  description = none;
  permissions = "leave:apply" ∷ [];
  is_system_role = false;
}

abbrev canonical : List SystemRole
canonical =
    record { name = "super_admin"; description = "all"; permissions = "*" ∷ [] }
    ∷ record {
      name = "employee";
      description = "own";
      permissions = "leave:apply" ∷ "loan:apply" ∷ [];
    }
    ∷ []

abbrev office : Db
office = record empty_db {
  next_id = 50;
  organizations = record { id = 1; allow_anonymous_service_requests = false } ∷ [];
  roles = employee_role ∷ [];
}

office-IsRoleTable : IsRoleTable office
office-IsRoleTable = record { keyed = (tt, tt); old = (omega arith, tt); distinct = (refl, tt) }

refresh_rbac_policies-granted_example :
    (granted (refresh_rbac_policies canonical office) 1 "employee" "loan:apply" ≡ (
      granted office 1 "employee" "loan:apply"
      || (has_organization office.organizations 1
          && canonical_allows canonical "employee" "loan:apply")))
    × (refresh_rbac_policies canonical office ≡ record office {
      next_id = (refresh_rbac_policies canonical office).next_id;
      roles = (refresh_rbac_policies canonical office).roles;
    })
    × Evolves RoleStep IsSystem office.roles (refresh_rbac_policies canonical office).roles
refresh_rbac_policies-granted_example =
    refresh_rbac_policies-granted canonical office (refl, (refl, tt)) office-IsRoleTable 1
      "employee" "loan:apply"

-- The role is no system role, and gains the permission.
custom_role_gains :
    granted (refresh_rbac_policies canonical office) 1 "employee" "loan:apply" ≡ true
unfolding refresh_rbac_policies
custom_role_gains = refl

-- A permission that stands twice hides one that is missing.
twice_hides : refreshed ("a" ∷ "a" ∷ []) ("b" ∷ []) ≡ ("a" ∷ "a" ∷ [])
unfolding refreshed merged
twice_hides = refl
