-- ===== src/Rbac/Refresh.antt =====
-- refreshRbacPolicies against what it promises: each organization's role of a canonical name allows
-- what it allowed before and what the canonical list allows.
use igreen_backend.Base.{
  ℕ, ◌+◌, ◌<◌, ◌≡◌, refl, sym, subst, inl, inr, Bool, true, false, none, some, String, List, [],
  ◌∷◌, arith, ◌&&◌, ◌||◌, ◌==◌, All, All-always, All-map, All-append, Bool-cases, Option-cases,
  ==→eq, ==_refl,
}
use igreen_backend.Store.Table.{
  find_first, find_first-true, find_first-only, find_first-All, find_first-update_found, IsKeyed,
  IsKeyed-create, IsKeyed-update_where, All-update_where,
}
use igreen_backend.Store.Table.Selection.{
  find_first-create_new, find_first-create_miss, find_first-update_miss,
}
use igreen_backend.Store.Access.{Role}
use igreen_backend.Store.Staff.{Organization}
use igreen_backend.Store.Db.{Db}
use igreen_backend.Rbac.{
  SystemRole, is_role_named, refreshed, new_system_role, refresh_role, refresh_roles,
  refresh_organizations, refresh_rbac_policies,
}
use igreen_backend.Rbac.Frame.{RoleStep, IsSystem, refresh_organizations-Keeps}
use igreen_backend.Store.Table.Evolution.{Evolves}
use igreen_backend.Rbac.Permissions.{allows, IsDistinct, allows-refreshed, refreshed-IsDistinct}
use text.Mathlib.Text.{◌==◌ as str_eq}
use text.Mathlib.TextEquality.{eq_iff}

-- The abstract view: what the role of a name allows in an organization.
abbrev pub granted : Db → ℕ → String → String → Bool
granted db org name p = elim (find_first (is_role_named org name) db.roles) [
  | none ↦ false
  | some r ↦ allows r.permissions p
]

abbrev pub canonical_allows : List SystemRole → String → String → Bool
canonical_allows [] name p = false
canonical_allows (c ∷ cs) name p =
    (str_eq name c.name && allows c.permissions p) || canonical_allows cs name p

abbrev pub has_organization : List Organization → ℕ → Bool
has_organization [] org = false
has_organization (o ∷ os) org = o.id == org || has_organization os org

-- Identifiers are distinct and old, and no role has a permission twice.
pub record IsRoleTable (db : Db) : Type 0 where
  pub keyed : IsKeyed (λ (r : Role). r.id) db.roles
  pub old : All (λ (r : Role). r.id < db.next_id) db.roles
  pub distinct : All (λ (r : Role). IsDistinct r.permissions) db.roles

module _ (o : ℕ) (c : SystemRole) (db : Db) (table : IsRoleTable db) where
  refreshed_row : Role → Role → Role
  refreshed_row x r = record r { permissions = refreshed x.permissions c.permissions }

  -- the role itself
  refresh_role-same :
      (p : String)
      → granted (refresh_role o c db) o c.name p ≡ (granted db o c.name p || allows c.permissions p)
  unfolding refresh_role refreshed_row
  refresh_role-same p =
      let q = is_role_named o c.name in
      let row = new_system_role db.next_id o c in
      elim (Option-cases (find_first q db.roles)) [
        | inl e0 ↦
            let ours : q row ≡ true = rw (==_refl o) ((eq_iff c.name c.name).1 refl) in
            rw (e0, refresh_role, granted) (rw (find_first-create_new q row db.roles e0 ours) refl)
        | inr (x, e1) ↦
            let found =
              find_first-update_found (λ (r : Role). r.id) q (refreshed_row x) db.roles x
                table.keyed e1 (find_first-true q db.roles x e1) in
            let distinct =
              find_first-All (λ (r : Role). IsDistinct r.permissions) q db.roles x table.distinct
                e1 in
            rw (e1, refresh_role, granted)
              (rw found (allows-refreshed x.permissions c.permissions p distinct))
      ]

  -- any other role
  refresh_role-other :
      (org : ℕ) (name p : String)
      → (o == org && str_eq name c.name) ≡ false
      → granted (refresh_role o c db) org name p ≡ granted db org name p
  unfolding refresh_role refreshed_row
  refresh_role-other org name p other =
      let q = is_role_named o c.name in
      let r = is_role_named org name in
      let row = new_system_role db.next_id o c in
      elim (Option-cases (find_first q db.roles)) [
        | inl e0 ↦
            rw (e0, refresh_role, granted) (rw (find_first-create_miss r row db.roles other) refl)
        | inr (x, e1) ↦
            let id_is = λ (y : Role). y.id == x.id in
            let named : q x ≡ true = find_first-true q db.roles x e1 in
            let same_org : o ≡ x.organization_id = ground arith in
            let same_name : c.name ≡ x.name = (eq_iff c.name x.name).0 (ground arith) in
            let missed : r x ≡ false =
              subst (λ i. (i == org && str_eq name x.name) ≡ false) same_org
                (subst (λ t. (o == org && str_eq name t) ≡ false) same_name other) in
            let unchanged = find_first-update_miss r id_is (refreshed_row x) db.roles (
              All-map (λ (y : Role). id_is y ≡ true → y ≡ x)
                (λ (y : Role). id_is y ≡ true → (r y ≡ false) × (r (refreshed_row x y) ≡ false))
                (λ y only m.
                  let here : r y ≡ false = subst (λ z. r z ≡ false) (sym (only m)) missed in
                  (here, here))
                db.roles (find_first-only (λ (y : Role). y.id) q db.roles x table.keyed e1)) in
            rw (e1, refresh_role, granted) (rw unchanged refl)
      ]

  refresh_role-IsRoleTable : IsDistinct c.permissions → IsRoleTable (refresh_role o c db)
  unfolding refresh_role refreshed_row
  refresh_role-IsRoleTable distinct =
      let q = is_role_named o c.name in
      let row = new_system_role db.next_id o c in
      elim (Option-cases (find_first q db.roles)) [
        | inl e0 ↦
            rw (e0, refresh_role)
              (record {
                keyed = IsKeyed-create (λ (r : Role). r.id) row db.roles table.keyed table.old;
                old =
                    All-append (λ (r : Role). r.id < db.next_id + 1) db.roles (row ∷ [])
                      (All-map (λ (r : Role). r.id < db.next_id)
                        (λ (r : Role). r.id < db.next_id + 1) (λ r h. omega (arith, h)) db.roles
                        table.old)
                      (omega arith, tt);
                distinct =
                    All-append (λ (r : Role). IsDistinct r.permissions) db.roles (row ∷ [])
                      table.distinct (distinct, tt);
              })
        | inr (x, e1) ↦
            let id_is = λ (y : Role). y.id == x.id in
            let mine =
              find_first-All (λ (r : Role). IsDistinct r.permissions) q db.roles x table.distinct
                e1 in
            rw (e1, refresh_role)
              (record {
                keyed =
                    IsKeyed-update_where (λ (r : Role). r.id) id_is (refreshed_row x) (λ r _. refl)
                      db.roles table.keyed;
                old =
                    All-update_where (λ (r : Role). r.id < db.next_id) id_is (refreshed_row x)
                      db.roles table.old
                      (All-map (λ (r : Role). r.id < db.next_id)
                        (λ (r : Role). id_is r ≡ true → r.id < db.next_id) (λ r h _. h) db.roles
                        table.old);
                distinct =
                    All-update_where (λ (r : Role). IsDistinct r.permissions) id_is
                      (refreshed_row x) db.roles table.distinct
                      (All-always
                        (λ (r : Role).
                          id_is r ≡ true → IsDistinct (refreshed x.permissions c.permissions))
                        (λ r _. refreshed-IsDistinct x.permissions c.permissions mine) db.roles);
              })
      ]

  refresh_role-granted :
      (org : ℕ) (name p : String)
      → granted (refresh_role o c db) org name p
        ≡ (granted db org name p || (o == org && str_eq name c.name && allows c.permissions p))
  refresh_role-granted org name p = elim (Bool-cases (o == org && str_eq name c.name)) [
    | inr m ↦ ground (arith, refresh_role-other org name p m)
    | inl m ↦
        let same_org : org ≡ o = sym (==→eq o org (ground arith)) in
        let same_name : name ≡ c.name = (eq_iff name c.name).0 (ground arith) in
        let here : granted (refresh_role o c db) org name p
            ≡ (granted db org name p || allows c.permissions p) =
          subst
            (λ i.
              granted (refresh_role o c db) i name p
              ≡ (granted db i name p || allows c.permissions p))
            (sym same_org)
            (subst
              (λ t.
                granted (refresh_role o c db) o t p ≡ (granted db o t p || allows c.permissions p))
              (sym same_name) (refresh_role-same p)) in
        ground (arith, here)
  ]

abbrev AllDistinct : List SystemRole → Type 0
AllDistinct cs = All (λ (c : SystemRole). IsDistinct c.permissions) cs

refresh_roles-granted :
    (cs : List SystemRole) (o : ℕ) (db : Db)
    → AllDistinct cs
    → IsRoleTable db
    → IsRoleTable (refresh_roles cs o db)
      × ((org : ℕ) (name p : String)
          → granted (refresh_roles cs o db) org name p
            ≡ (granted db org name p || (o == org && canonical_allows cs name p)))
unfolding refresh_roles
refresh_roles-granted [] o db d table = (table, λ org name p. ground arith)
refresh_roles-granted (c ∷ cs) o db d table =
    let (table', later) =
      refresh_roles-granted cs o (refresh_role o c db) d.1
        (refresh_role-IsRoleTable o c db table d.0) in
    (
      table',
      λ org name p. ground (arith, later org name p, refresh_role-granted o c db table org name p),
    )

refresh_organizations-granted :
    (cs : List SystemRole) (os : List Organization) (db : Db)
    → AllDistinct cs
    → IsRoleTable db
    → (org : ℕ) (name p : String)
    → granted (refresh_organizations cs os db) org name p
      ≡ (granted db org name p || (has_organization os org && canonical_allows cs name p))
unfolding refresh_organizations
refresh_organizations-granted cs [] db d table org name p = ground arith
refresh_organizations-granted cs (o ∷ os) db d table org name p =
    let (table', one) = refresh_roles-granted cs o.id db d table in
    let later =
      refresh_organizations-granted cs os (refresh_roles cs o.id db) d table' org name p in
    ground (arith, later, one org name p)

-- In a table of roles whose identifiers are distinct and below the next one, and in which no role
-- has a permission twice, as none in the canonical list has: after the refresh a role of an
-- organization allows what it allowed before, and if its name is canonical and the organization is
-- there, what the canonical list allows for that name, whether or not it is a system role, and
-- allows nothing else; a role that is not there allows nothing. No table but that of roles changes,
-- the roles that were there keep all but their permissions, and the new ones are system roles.
pub refresh_rbac_policies-granted :
    (cs : List SystemRole) (db : Db)
    → All (λ (c : SystemRole). IsDistinct c.permissions) cs
    → IsRoleTable db
    → (org : ℕ) (name p : String)
    → (granted (refresh_rbac_policies cs db) org name p ≡ (
        granted db org name p
        || (has_organization db.organizations org && canonical_allows cs name p)))
      × (refresh_rbac_policies cs db ≡ record db {
        next_id = (refresh_rbac_policies cs db).next_id;
        roles = (refresh_rbac_policies cs db).roles;
      })
      × Evolves RoleStep IsSystem db.roles (refresh_rbac_policies cs db).roles
unfolding refresh_rbac_policies
refresh_rbac_policies-granted cs db d table org name p =
    let kept = refresh_organizations-Keeps cs db.organizations db in
    (
      refresh_organizations-granted cs db.organizations db d table org name p,
      kept.others,
      kept.roles,
    )
