-- ===== src/Departments/Tests.antt =====
-- A department below another, and one beside them.
use igreen_backend.Base.{
  ℕ, ◌≡◌, ◌⊎◌, refl, sym, subst, inl, inr, true, false, Option, none, some, List, [], ◌∷◌, arith,
  Bool-cases, ◌==◌, ==→eq,
}
use igreen_backend.Store.Staff.{Department}
use igreen_backend.Store.Db.{Db, empty_db, err, bad_request}
use igreen_backend.Departments.{parent_of, check_circular_reference, validate_parent_change, move}
use igreen_backend.Departments.Chains.{Ends, OnChain, check_circular_reference-OnChain}
use igreen_backend.Departments.Levels.{IsForest}
use igreen_backend.Departments.Circles.{
  DepartmentCall, create_call, move_call, run_department_calls, run_department_calls-IsForest,
}

abbrev department : ℕ → Option ℕ → ℕ → Department
department id parent_id level = record {
  id = id;
  organization_id = 1;
  name = "Sales";
  parent_id = parent_id;
  head_employee_id = none;
  hierarchy_level = level;
  deleted_at = none;
}

abbrev rows : List Department
rows = department 7 none 0 ∷ department 8 (some 7) 1 ∷ department 9 none 0 ∷ []

abbrev office : Db
office = record empty_db { next_id = 50; departments = rows }

abbrev calls : List DepartmentCall
calls =
    move_call 7 (some 9)
    ∷ create_call (record { name = "East"; parent_id = some 8; head_employee_id = none })
    ∷ move_call 9 (some 8)
    ∷ []

ends : (c : ℕ) → Ends rows 2 (some c)
ends c = elim (Bool-cases (7 == c)) [
  | inl e ↦ subst (λ i. Ends rows 2 (some i)) (==→eq 7 c e) tt
  | inr e ↦ elim (Bool-cases (8 == c)) [
    | inl e' ↦ subst (λ i. Ends rows 2 (some i)) (==→eq 8 c e') tt
    | inr e' ↦ elim (Bool-cases (9 == c)) [
      | inl e'' ↦ subst (λ i. Ends rows 2 (some i)) (==→eq 9 c e'') tt
      | inr e'' ↦
          let missing : parent_of rows c ≡ none = rw (e, e', e'', parent_of) refl in
          subst (Ends rows 1) (sym missing) tt
    ]
  ]
]

rows-IsForest : IsForest 50 2 rows
rows-IsForest = record {
  old = (omega arith, (omega arith, (omega arith, tt)));
  known = λ c p e. ground arith;
  keyed = (
    (λ e. omega (arith, e), (λ e. omega (arith, e), tt)),
    ((λ e. omega (arith, e), tt), (tt, tt)),
  );
  ends = ends;
}

run_department_calls-IsForest_example :
    (db' : Db) × (m : ℕ) × (run_department_calls 100 1 calls office ≡ some db')
    × IsForest db'.next_id m db'.departments
run_department_calls-IsForest_example =
    run_department_calls-IsForest 1 100 2 calls office rows-IsForest (omega arith)

check_circular_reference-OnChain_example :
    ((check_circular_reference 2 rows 7 (some 8) ≡ some true) × OnChain rows 7 (some 8))
    ⊎ ((check_circular_reference 2 rows 7 (some 8) ≡ some false) × (OnChain rows 7 (some 8) → ⊥))
check_circular_reference-OnChain_example = check_circular_reference-OnChain rows 7 2 (some 8) tt

-- A department is not moved below its child.
below_its_child :
    move 3 1 7 (some 8) office
    ≡ some (
      err (
          bad_request
            "Circular department hierarchy detected — a department cannot be a descendant of itself"),
      office,
    )
unfolding move validate_parent_change check_circular_reference
below_its_child = refl
