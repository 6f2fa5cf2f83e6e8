-- ===== src/Rbac.antt =====
-- refreshRbacPolicies (src/common/rbac/rbac-refresh.ts), without the summary of what it did. The
-- list SYSTEM_ROLES is a parameter.
mod Tests
pub mod Permissions
pub mod Frame
pub mod Refresh
use igreen_backend.Base.{
  ℕ, ◌+◌, Bool, true, false, Option, none, some, String, List, [], ◌∷◌, ◌++◌, ◌&&◌, ◌||◌, ◌==◌, not,
  includes, length, if◌then◌else◌,
}
use igreen_backend.Store.Table.{find_first, update_where, create}
use igreen_backend.Store.Access.{Role}
use igreen_backend.Store.Staff.{Organization}
use igreen_backend.Store.Db.{Db}
use text.Mathlib.Text.{◌==◌ as str_eq}

-- one element of SYSTEM_ROLES
pub record SystemRole : Type 0 where
  pub name : String
  pub description : String
  pub permissions : List String

-- `where: { organizationId, name }`
abbrev pub is_role_named : ℕ → String → Role → Bool
is_role_named organization_id name r = r.organization_id == organization_id && str_eq name r.name

-- `canonical.permissions.length === 1 && canonical.permissions[0] === '*'`
abbrev pub is_wildcard : List String → Bool
is_wildcard [] = false
is_wildcard (p ∷ []) = str_eq p "*"
is_wildcard (p ∷ q ∷ ps) = false

-- the elements of `ps` that are not among `seen`, each once
abbrev pub distinct : List String → List String → List String
distinct seen [] = []
distinct seen (p ∷ ps) = elim (includes seen p) [
  | true ↦ distinct seen ps
  | false ↦ p ∷ distinct (p ∷ seen) ps
]

-- `Array.from(new Set([...existing, ...canonical]))`
pub merged : List String → List String → List String
merged existing canonical = distinct [] (existing ++ canonical)

-- the permissions of a role that is there after its turn; an update that would change nothing in
-- the row is not told from none
pub refreshed : List String → List String → List String
unfolding merged
refreshed existing canonical =
    if includes existing "*"
    then existing
    else if is_wildcard canonical
    then "*" ∷ []
    else if length (merged existing canonical) == length existing
    then existing
    else merged existing canonical

-- the data of the row that is created
abbrev pub new_system_role : ℕ → ℕ → SystemRole → Role
new_system_role id organization_id c = record {
  id = id;
  organization_id = organization_id;
  name = c.name;
  description = some c.description;
  permissions = c.permissions;
  is_system_role = true;
}

-- the turn of one role of one organization
pub refresh_role : ℕ → SystemRole → Db → Db
unfolding refreshed
refresh_role organization_id c db =
    elim (find_first (is_role_named organization_id c.name) db.roles) [
      | none ↦ record db {
        next_id = db.next_id + 1;
        roles = create (new_system_role db.next_id organization_id c) db.roles;
      }
      | some existing ↦ record db {
        roles =
            update_where (λ (r : Role). r.id == existing.id)
              (λ r. record r { permissions = refreshed existing.permissions c.permissions })
              db.roles;
      }
    ]

pub refresh_roles : List SystemRole → ℕ → Db → Db
unfolding refresh_role
refresh_roles [] organization_id db = db
refresh_roles (c ∷ cs) organization_id db =
    refresh_roles cs organization_id (refresh_role organization_id c db)

pub refresh_organizations : List SystemRole → List Organization → Db → Db
unfolding refresh_roles
refresh_organizations cs [] db = db
refresh_organizations cs (o ∷ os) db = refresh_organizations cs os (refresh_roles cs o.id db)

pub refresh_rbac_policies : List SystemRole → Db → Db
unfolding refresh_organizations
refresh_rbac_policies cs db = refresh_organizations cs db.organizations db
