-- ===== src/Departments/Calls.antt =====
-- Requests that create, change and move departments.
use igreen_backend.Base.{
  ℕ, suc, ◌+◌, ◌≤◌, ◌<◌, ◌≡◌, ◌⊎◌, refl, sym, subst, inl, inr, false, Option, none, some, List,
  arith, ◌==◌, Bool-cases, Option-cases, get_or,
}
use igreen_backend.Store.Table.{find_first, find_first-All, find_first-true, update_where, create}
use igreen_backend.Store.Staff.{Department}
use igreen_backend.Store.Db.{Db, Result, ok, err, Result-cases, not_found, conflict, bad_request}
use igreen_backend.Departments.{
  is_live_department, level_below, move, CreateDepartmentDto, UpdateDepartmentDto,
  create_department, update_department, is_wrong_parent, is_wrong_head, is_taken, renamed,
  new_department,
}
use igreen_backend.Departments.Chains.{Ends-later}
use igreen_backend.Departments.Levels.{IsForest, IsForest-update_where}
use igreen_backend.Departments.Hierarchy.{
  IsSound, validate_parent_change-IsSound, replace_parent-IsForest,
}
use igreen_backend.Departments.Creation.{IsForest-create}

-- The answer is there, and leaves a hierarchy.
abbrev pub Answered : ℕ → Option (Result Department × Db) → Type 0
Answered n outcome =
    (r : Result Department) × (db' : Db) × (outcome ≡ some (r, db'))
    × IsForest db'.next_id n db'.departments

IsForest-later :
    (next n b : ℕ) (rows : List Department) → n ≤ b → IsForest next n rows → IsForest next b rows
IsForest-later next n b rows le h = record {
  old = h.old;
  known = h.known;
  keyed = h.keyed;
  ends = λ c. Ends-later rows n b (some c) le (h.ends c);
}

module _ (n : ℕ) (db : Db) (forest : IsForest db.next_id n db.departments) where
  same_db : IsForest db.next_id (n + suc n) db.departments
  same_db = IsForest-later db.next_id n (n + suc n) db.departments (omega arith) forest

  pub move-Answered :
      (fuel org id : ℕ) (p : Option ℕ)
      → n + suc n < fuel
      → Answered (n + suc n) (move fuel org id p db)
  unfolding move
  move-Answered fuel org id p enough =
      elim (Option-cases (find_first (is_live_department org id) db.departments)) [
        | inl e0 ↦ (err (not_found "Department not found"), db, rw (e0, move) refl, same_db)
        | inr (d, e1) ↦
            let (r, ev, sound) =
              validate_parent_change-IsSound db.next_id n db.departments forest fuel org id p
                (omega arith) in
            elim (Result-cases r) [
              | inr (e, t) ↦ (err e, db, rw (e1, ev, t, move) refl, same_db)
              | inl (u, t) ↦
                  let (r', rows', er, forest') =
                    replace_parent-IsForest db.next_id n db.departments forest id
                      (level_below db.departments p) p (λ x. x) (λ x. refl) fuel d db refl
                      (sound u t) enough in
                  (r', record db { departments = rows' }, rw (e1, ev, t, move) er, forest')
            ]
      ]

  pub update_department-Answered :
      (fuel org id : ℕ) (dto : UpdateDepartmentDto)
      → n + suc n < fuel
      → Answered (n + suc n) (update_department fuel org id dto db)
  unfolding update_department
  update_department-Answered fuel org id dto enough =
      elim (Option-cases (find_first (is_live_department org id) db.departments)) [
        | inl e0 ↦
            (err (not_found "Department not found"), db, rw (e0, update_department) refl, same_db)
        | inr (d, e1) ↦ elim (Bool-cases (is_taken db org dto.name d)) [
          | inl taken ↦ (
            err (conflict "Department … already exists in this organization"),
            db,
            rw (e1, taken, update_department) refl,
            same_db,
          )
          | inr untaken ↦
              let (r, ev, sound) =
                validate_parent_change-IsSound db.next_id n db.departments forest fuel org id
                  (get_or dto.parent_id none) (omega arith) in
              elim (Result-cases r) [
                | inr (e, t) ↦ (err e, db, rw (e1, untaken, ev, t, update_department) refl, same_db)
                | inl (u, t) ↦
                    elim (Bool-cases (is_wrong_head db org (get_or dto.head_employee_id none))) [
                      | inl wrong ↦ (
                        err (bad_request "Head employee not found in this organization"),
                        db,
                        rw (e1, untaken, ev, t, wrong, update_department) refl,
                        same_db,
                      )
                      | inr right ↦ elim (Option-cases dto.parent_id) [
                        | inl unset ↦ (
                          ok (renamed dto d),
                          record db {
                            departments =
                                update_where (λ (x : Department). x.id == id) (renamed dto)
                                  db.departments;
                          },
                          rw (e1, untaken, ev, t, right, unset, update_department) refl,
                          IsForest-update_where db.next_id (n + suc n)
                              (λ (x : Department). x.id == id) (renamed dto) (λ x. (refl, refl))
                              db.departments same_db,
                        )
                        | inr (p, set) ↦
                            let placed_well : IsSound db.departments db.next_id n id p =
                              subst (λ x. IsSound db.departments db.next_id n id (get_or x none))
                                set (sound u t) in
                            let (r', rows', er, forest') =
                              replace_parent-IsForest db.next_id n db.departments forest id
                                (level_below db.departments p) p (renamed dto) (λ x. refl) fuel d db
                                refl placed_well enough in
                            (
                              r',
                              record db { departments = rows' },
                              rw (e1, untaken, ev, t, right, set, update_department) er,
                              forest',
                            )
                      ]
                    ]
              ]
        ]
      ]

  create_department_effect :
      (org : ℕ) (dto : CreateDepartmentDto)
      → let db' = (create_department org dto db).1 in
        (db' ≡ db)
        ⊎ ((is_wrong_parent db org dto.parent_id ≡ false)
            × (db' ≡ record db {
              next_id = db.next_id + 1;
              departments =
                  create
                    (new_department db.next_id org dto (level_below db.departments dto.parent_id))
                    db.departments;
            }))
  unfolding create_department
  create_department_effect org dto = ground arith

  -- A parent that is not refused is a department, and so older than the next one.
  right_parent_old :
      (org : ℕ) (x : Option ℕ)
      → is_wrong_parent db org x ≡ false
      → (p : ℕ) → x ≡ some p
      → p < db.next_id
  right_parent_old org none right p e = absurd (cc)
  right_parent_old org (some q) right p e =
      elim (Option-cases (find_first (is_live_department org q) db.departments)) [
        | inl e0 ↦ absurd (cc (rw (e0, is_wrong_parent) at right))
        | inr (d, e1) ↦
            let id_is : d.id ≡ q =
              ground (arith, find_first-true (is_live_department org q) db.departments d e1) in
            let old =
              find_first-All (λ (y : Department). y.id < db.next_id) (is_live_department org q)
                db.departments d forest.old e1 in
            ground arith
      ]

  pub create_department-IsForest :
      (org : ℕ) (dto : CreateDepartmentDto)
      → let db' = (create_department org dto db).1 in
        IsForest db'.next_id (n + suc n) db'.departments
  unfolding create_department
  create_department-IsForest org dto = elim (create_department_effect org dto) [
    | inl same ↦
        subst {A = Db} (λ d. IsForest d.next_id (n + suc n) d.departments) (sym same) same_db
    | inr (right, made) ↦
        let row = new_department db.next_id org dto (level_below db.departments dto.parent_id) in
        subst {A = Db} (λ d. IsForest d.next_id (n + suc n) d.departments) (sym made)
          (IsForest-create db.next_id n db.departments forest row refl
            (right_parent_old org dto.parent_id right))
  ]
