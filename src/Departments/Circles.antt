-- ===== src/Departments/Circles.antt =====
-- Any requests on departments.
use igreen_backend.Base.{ℕ, suc, ◌+◌, ◌≤◌, ◌<◌, ◌≡◌, refl, Option, none, some, List, [], ◌∷◌, arith}
use igreen_backend.Store.Staff.{Department}
use igreen_backend.Store.Db.{Db, Result}
use igreen_backend.Departments.{
  move, CreateDepartmentDto, UpdateDepartmentDto, create_department, update_department,
}
use igreen_backend.Departments.Levels.{IsForest}
use igreen_backend.Departments.Calls.{
  move-Answered, update_department-Answered, create_department-IsForest,
}

-- The requests that place departments, of one organization.
pub data DepartmentCall : Type 0 where
  create_call : CreateDepartmentDto → DepartmentCall
  update_call : ℕ → UpdateDepartmentDto → DepartmentCall
  move_call : ℕ → Option ℕ → DepartmentCall

abbrev db_of : Option (Result Department × Db) → Option Db
db_of none = none
db_of (some (r, db)) = some db

-- the database after a request, none when fuel is used up
abbrev pub run_department_call : ℕ → ℕ → DepartmentCall → Db → Option Db
run_department_call fuel org (create_call dto) db = some (create_department org dto db).1
run_department_call fuel org (update_call id dto) db = db_of (update_department fuel org id dto db)
run_department_call fuel org (move_call id p) db = db_of (move fuel org id p db)

pub run_department_calls : ℕ → ℕ → List DepartmentCall → Db → Option Db
run_department_calls fuel org [] db = some db
run_department_calls fuel org (c ∷ cs) db = elim (run_department_call fuel org c db) [
  | none ↦ none
  | some db' ↦ run_department_calls fuel org cs db'
]

module _ (org n : ℕ) (db : Db) (forest : IsForest db.next_id n db.departments) where
  run_department_call_answers :
      (fuel : ℕ) (c : DepartmentCall)
      → n + suc n < fuel
      → (db' : Db) × (run_department_call fuel org c db ≡ some db')
        × IsForest db'.next_id (n + suc n) db'.departments
  run_department_call_answers fuel (create_call dto) enough =
      ((create_department org dto db).1, refl, create_department-IsForest n db forest org dto)
  run_department_call_answers fuel (update_call id dto) enough =
      let (r, db', e, forest') = update_department-Answered n db forest fuel org id dto enough in
      (db', rw e refl, forest')
  run_department_call_answers fuel (move_call id p) enough =
      let (r, db', e, forest') = move-Answered n db forest fuel org id p enough in
      (db', rw e refl, forest')

-- The fuel for requests, from chains of parents of at most `n` departments.
abbrev pub fuel_for : ℕ → List DepartmentCall → ℕ
fuel_for n [] = 0
fuel_for n (c ∷ cs) = suc (n + suc n) + fuel_for (n + suc n) cs

-- From departments whose chains of parents end, any requests that create, change and move
-- departments are answered with enough fuel, which is to say that all loops of the requests end,
-- those that look for a circle and those that carry levels down; and after the requests the chains
-- of parents end, so that no department is below itself.
pub run_department_calls-IsForest :
    (org fuel n : ℕ) (cs : List DepartmentCall) (db : Db)
    → IsForest db.next_id n db.departments
    → fuel_for n cs ≤ fuel
    → (db' : Db) × (m : ℕ) × (run_department_calls fuel org cs db ≡ some db')
      × IsForest db'.next_id m db'.departments
unfolding run_department_calls
run_department_calls-IsForest org fuel n [] db forest enough = (db, n, refl, forest)
run_department_calls-IsForest org fuel n (c ∷ cs) db forest enough =
    let (next, e, forest') = run_department_call_answers org n db forest fuel c (omega arith) in
    let (db', m, e', forest'') =
      run_department_calls-IsForest org fuel (n + suc n) cs next forest' (omega arith) in
    (db', m, rw (e, run_department_calls) e', forest'')
