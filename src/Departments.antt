-- ===== src/Departments.antt =====
-- class DepartmentsService (src/modules/organizations/departments/departments.service.ts): the calls
-- that place a department below another. A response is the row that it is made from.
-- The loops run on fuel and give none when it is used up.
pub mod Chains
pub mod Levels
pub mod Hierarchy
pub mod Calls
pub mod Circles
mod Tests
pub mod Creation
use igreen_backend.Base.{
  ℕ, zero, suc, ◌+◌, Bool, true, false, Option, none, some, String, List, [], ◌∷◌, map, ◌&&◌, ◌==◌,
  not, is_some, get_or, has_text, if◌then◌else◌, is_id,
}
use igreen_backend.Store.Table.{find_first, find_many, update_where, create}
use igreen_backend.Store.Staff.{Department, Employee}
use igreen_backend.Store.Db.{Db, Result, ok, err, HttpError, bad_request, not_found, conflict}
use text.Mathlib.Text.{◌==◌ as str_eq}

-- `where: { id, organizationId, deletedAt: null }`
abbrev pub is_live_department : ℕ → ℕ → Department → Bool
is_live_department organization_id id d =
    d.id == id && d.organization_id == organization_id && not (is_some d.deleted_at)

-- `(await findUnique({ where: { id }, select: { parentId: true } }))?.parentId ?? null`
abbrev pub parent_of : List Department → ℕ → Option ℕ
parent_of rows id = elim (find_first (λ (d : Department). d.id == id) rows) [
  | none ↦ none
  | some d ↦ d.parent_id
]

-- checkCircularReference: whether the loop meets the department.
pub check_circular_reference : ℕ → List Department → ℕ → Option ℕ → Option Bool
check_circular_reference fuel rows id none = some false
check_circular_reference zero rows id (some current) = none
check_circular_reference (suc fuel) rows id (some current) =
    let rest = check_circular_reference fuel rows id (parent_of rows current) in
    if current == id then some true else rest

pub validate_parent_change : ℕ → ℕ → List Department → ℕ → Option ℕ → Option (Result (Unit {0}))
unfolding check_circular_reference
validate_parent_change fuel organization_id rows id none = some (ok tt)
validate_parent_change fuel organization_id rows id (some new_parent) =
    if new_parent == id
    then some (err (bad_request "A department cannot be its own parent"))
    else elim (find_first (is_live_department organization_id new_parent) rows) [
      | none ↦ some (err (bad_request "Parent department not found in this organization"))
      | some d ↦ elim (check_circular_reference fuel rows id (some new_parent)) [
        | none ↦ none
        | some circular ↦ some (
            if circular
            then err (
                bad_request
                  "Circular department hierarchy detected — a department cannot be a descendant of itself")
            else ok tt)
      ]
    ]

abbrev pub with_level : ℕ → Department → Department
with_level level d = record d { hierarchy_level = level }

-- `where: { parentId, deletedAt: null }`
abbrev pub is_child_of : ℕ → Department → Bool
is_child_of parent_id d = is_id d.parent_id parent_id && not (is_some d.deleted_at)

abbrev pub children_of : List Department → ℕ → List ℕ
children_of rows parent_id = map (λ (d : Department). d.id) (find_many (is_child_of parent_id) rows)

-- the loop over the children, with what is done to each
abbrev pub each :
    (ℕ → List Department → Option (List Department))
    → List ℕ
    → List Department
    → Option (List Department)
each f [] rows = some rows
each f (id ∷ ids) rows = elim (f id rows) [ none ↦ none | some rows' ↦ each f ids rows' ]

pub cascade_hierarchy_levels : ℕ → ℕ → ℕ → List Department → Option (List Department)
cascade_hierarchy_levels zero parent_id parent_level rows = none
cascade_hierarchy_levels (suc fuel) parent_id parent_level rows =
    each
      (λ child rows.
        cascade_hierarchy_levels fuel child (parent_level + 1)
          (update_where (λ (d : Department). d.id == child) (with_level (parent_level + 1)) rows))
      (children_of rows parent_id) rows

-- `(parent?.hierarchyLevel ?? 0) + 1`, 0 without a parent
abbrev pub level_below : List Department → Option ℕ → ℕ
level_below rows none = 0
level_below rows (some parent_id) = elim (find_first (λ (d : Department). d.id == parent_id) rows) [
  | none ↦ 1
  | some d ↦ d.hierarchy_level + 1
]

abbrev pub placed : Option ℕ → ℕ → Department → Department
placed parent_id level d = record d { parent_id = parent_id; hierarchy_level = level }

-- the update of a department that changes its parent, and the cascade below it
pub replace_parent :
    ℕ
    → ℕ
    → Option ℕ
    → ℕ
    → (Department → Department)
    → Department
    → Db
    → Option (Result Department × Db)
unfolding cascade_hierarchy_levels
replace_parent fuel id parent_id level f d db =
    let rows =
      update_where (λ (x : Department). x.id == id) (λ x. placed parent_id level (f x))
        db.departments in
    elim (cascade_hierarchy_levels fuel id level rows) [
      | none ↦ none
      | some rows' ↦ some (ok (placed parent_id level (f d)), record db { departments = rows' })
    ]

pub move : ℕ → ℕ → ℕ → Option ℕ → Db → Option (Result Department × Db)
unfolding validate_parent_change replace_parent
move fuel organization_id id new_parent_id db =
    elim (find_first (is_live_department organization_id id) db.departments) [
      | none ↦ some (err (not_found "Department not found"), db)
      | some d ↦
          elim (validate_parent_change fuel organization_id db.departments id new_parent_id) [
            | none ↦ none
            | some r ↦ elim r [
              | err e ↦ some (err e, db)
              | ok _ ↦
                  replace_parent fuel id new_parent_id (level_below db.departments new_parent_id)
                    (λ x. x) d db
            ]
          ]
    ]

pub record CreateDepartmentDto : Type 0 where
  pub name : String
  pub parent_id : Option ℕ
  pub head_employee_id : Option ℕ

-- the `where` of the search for another department of the name
abbrev pub has_name : ℕ → String → Department → Bool
has_name organization_id name d =
    d.organization_id == organization_id && str_eq d.name name && not (is_some d.deleted_at)

-- a head that is given and is no employee of the organization
abbrev pub is_wrong_head : Db → ℕ → Option ℕ → Bool
is_wrong_head db organization_id none = false
is_wrong_head db organization_id (some head) = not (
    is_some (
      find_first (λ (e : Employee). e.id == head && e.organization_id == organization_id)
        db.employees))

-- the data of the row that `create` makes
abbrev pub new_department : ℕ → ℕ → CreateDepartmentDto → ℕ → Department
new_department id organization_id dto level = record {
  id = id;
  organization_id = organization_id;
  name = dto.name;
  parent_id = dto.parent_id;
  head_employee_id = dto.head_employee_id;
  hierarchy_level = level;
  deleted_at = none;
}

-- verifyDeptBelongsToOrg of the parent, if there is one
abbrev pub is_wrong_parent : Db → ℕ → Option ℕ → Bool
is_wrong_parent db organization_id none = false
is_wrong_parent db organization_id (some parent_id) =
    not (is_some (find_first (is_live_department organization_id parent_id) db.departments))

pub create_department : ℕ → CreateDepartmentDto → Db → Result Department × Db
create_department organization_id dto db =
    if is_some (find_first (has_name organization_id dto.name) db.departments)
    then (err (conflict "Department … already exists in this organization"), db)
    else if is_wrong_parent db organization_id dto.parent_id
    then (err (bad_request "Parent department not found in this organization"), db)
    else if is_wrong_head db organization_id dto.head_employee_id
    then (err (bad_request "Head employee not found in this organization"), db)
    else let row =
        new_department db.next_id organization_id dto (level_below db.departments dto.parent_id) in
      (ok row, record db { next_id = db.next_id + 1; departments = create row db.departments })

-- A field is none where it is not given; a parent or a head that is given may be null.
pub record UpdateDepartmentDto : Type 0 where
  pub name : Option String
  pub parent_id : Option (Option ℕ)
  pub head_employee_id : Option (Option ℕ)

-- `dto.name && dto.name !== dept.name`, and another department has the name
abbrev pub is_taken : Db → ℕ → Option String → Department → Bool
is_taken db organization_id none d = false
is_taken db organization_id (some name) d =
    has_text (some name)
    && not (str_eq name d.name)
    && is_some (
        find_first (λ (x : Department). has_name organization_id name x && not (x.id == d.id))
          db.departments)

-- the data of the update in `update` but the parent and the level
abbrev pub renamed : UpdateDepartmentDto → Department → Department
renamed dto d = record d {
  name = get_or dto.name d.name;
  head_employee_id = get_or dto.head_employee_id d.head_employee_id;
}

pub update_department : ℕ → ℕ → ℕ → UpdateDepartmentDto → Db → Option (Result Department × Db)
unfolding validate_parent_change replace_parent
update_department fuel organization_id id dto db =
    elim (find_first (is_live_department organization_id id) db.departments) [
      | none ↦ some (err (not_found "Department not found"), db)
      | some d ↦
          if is_taken db organization_id dto.name d
          then some (err (conflict "Department … already exists in this organization"), db)
          else elim (validate_parent_change fuel organization_id db.departments id
              (get_or dto.parent_id none)) [
                | none ↦ none
                | some r ↦ elim r [
                  | err e ↦ some (err e, db)
                  | ok _ ↦
                      if is_wrong_head db organization_id (get_or dto.head_employee_id none)
                      then some
                          (err (bad_request "Head employee not found in this organization"), db)
                      else elim dto.parent_id [
                        | some parent_id ↦
                            replace_parent fuel id parent_id (level_below db.departments parent_id)
                              (renamed dto) d db
                        | none ↦ some (
                          ok (renamed dto d),
                          record db {
                            departments =
                                update_where (λ (x : Department). x.id == id) (renamed dto)
                                  db.departments;
                          },
                        )
                      ]
                ]
              ]
    ]
