-- ===== src/Rbac/Frame.antt =====
-- What refreshRbacPolicies leaves as it is.
use igreen_backend.Base.{
  ◌≡◌, ◌∙◌, refl, inl, inr, ℕ, true, List, [], ◌∷◌, ◌==◌, All-always, Option-cases, ap,
}
use igreen_backend.Store.Table.{find_first}
use igreen_backend.Store.Table.Evolution.{
  Evolves, Evolves-refl, Evolves-create, Evolves-update_where, Evolves-then,
}
use igreen_backend.Store.Access.{Role}
use igreen_backend.Store.Staff.{Organization}
use igreen_backend.Store.Db.{Db}
use igreen_backend.Rbac.{
  SystemRole, is_role_named, refreshed, new_system_role, refresh_role, refresh_roles,
  refresh_organizations,
}

-- A role that was there keeps all but its permissions.
abbrev pub RoleStep : Role → Role → Type 0
RoleStep a b = b ≡ record a { permissions = b.permissions }

abbrev pub IsSystem : Role → Type 0
IsSystem r = r.is_system_role ≡ true

-- Only the table of roles and the supply of identifiers change; each old role stands where it stood
-- with all but its permissions as they were, and the roles behind them are system roles.
pub record Keeps (a b : Db) : Type 0 where
  pub others : b ≡ record a { next_id = b.next_id; roles = b.roles }
  pub roles : Evolves RoleStep IsSystem a.roles b.roles

RoleStep-trans : (x y z : Role) → RoleStep x y → RoleStep y z → RoleStep x z
RoleStep-trans x y z h k = k ∙ ap (λ (r : Role). record r { permissions = z.permissions }) h

Keeps-trans : (a b c : Db) → Keeps a b → Keeps b c → Keeps a c
Keeps-trans a b c h k = record {
  others = k.others ∙ ap (λ (d : Db). record d { next_id = c.next_id; roles = c.roles }) h.others;
  roles =
      Evolves-then RoleStep IsSystem RoleStep-trans
        (λ y z s n. ap (λ (r : Role). r.is_system_role) s ∙ n) a.roles b.roles c.roles h.roles
        k.roles;
}

refresh_role-Keeps : (o : ℕ) (c : SystemRole) (db : Db) → Keeps db (refresh_role o c db)
unfolding refresh_role
refresh_role-Keeps o c db = elim (Option-cases (find_first (is_role_named o c.name) db.roles)) [
  | inl e ↦
      rw (e, refresh_role)
        (record {
          others = refl;
          roles =
              Evolves-create RoleStep IsSystem (λ r. refl) (new_system_role db.next_id o c) refl
                db.roles;
        })
  | inr (x, e) ↦
      rw (e, refresh_role)
        (record {
          others = refl;
          roles =
              Evolves-update_where RoleStep IsSystem (λ r. r.id == x.id)
                (λ r. record r { permissions = refreshed x.permissions c.permissions }) (λ r. refl)
                db.roles (All-always (λ (r : Role). _) (λ r _. refl) db.roles);
        })
]

Keeps-refl : (db : Db) → Keeps db db
Keeps-refl db = record {
  others = refl;
  roles = Evolves-refl RoleStep IsSystem (λ r. refl) db.roles;
}

refresh_roles-Keeps : (cs : List SystemRole) (o : ℕ) (db : Db) → Keeps db (refresh_roles cs o db)
unfolding refresh_roles
refresh_roles-Keeps [] o db = Keeps-refl db
refresh_roles-Keeps (c ∷ cs) o db =
    Keeps-trans db (refresh_role o c db) (refresh_roles cs o (refresh_role o c db))
      (refresh_role-Keeps o c db) (refresh_roles-Keeps cs o (refresh_role o c db))

pub refresh_organizations-Keeps :
    (cs : List SystemRole) (os : List Organization) (db : Db)
    → Keeps db (refresh_organizations cs os db)
unfolding refresh_organizations
refresh_organizations-Keeps cs [] db = Keeps-refl db
refresh_organizations-Keeps cs (o ∷ os) db =
    Keeps-trans db (refresh_roles cs o.id db)
      (refresh_organizations cs os (refresh_roles cs o.id db)) (refresh_roles-Keeps cs o.id db)
      (refresh_organizations-Keeps cs os (refresh_roles cs o.id db))
