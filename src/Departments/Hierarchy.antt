-- ===== src/Departments/Hierarchy.antt =====
-- The calls that place departments keep their hierarchy free of circles, and their loops end.
use igreen_backend.Base.{
  ℕ, suc, ◌+◌, ◌≤◌, ◌<◌, ◌≡◌, ◌≢◌, refl, sym, ap, ◌∙◌, subst, ◌⊎◌, inl, inr, true, false, Option,
  none, some, List, [], ◌∷◌, arith, ◌==◌, Bool-cases, Option-cases, ==→eq, All-map,
}
use igreen_backend.Store.Table.{
  find_first, find_first-All, find_first-true, update_where, All-update_where, IsKeyed-update_where,
}
use igreen_backend.Store.Staff.{Department}
use igreen_backend.Store.Db.{Db, Result, ok, err, bad_request}
use igreen_backend.Departments.{
  is_live_department, parent_of, check_circular_reference, validate_parent_change, placed,
  replace_parent,
}
use igreen_backend.Departments.Chains.{
  Ends, Ends-EndsAt, Ends-reparent, check_circular_reference_answers, apart,
  check_circular_reference-Ends, check_circular_reference_more,
}
use igreen_backend.Departments.Levels.{IsForest, cascade_hierarchy_levels-Answers}

-- There is no new parent, or its identifier is an old one and the loop does not meet the department.
abbrev pub IsSound : List Department → ℕ → ℕ → ℕ → Option ℕ → Type 0
IsSound rows next n id none = Unit
IsSound rows next n id (some p) =
    (p < next) × (check_circular_reference n rows id (some p) ≡ some false)

module _ (next n : ℕ) (rows : List Department) (forest : IsForest next n rows) where
  -- With as much fuel as chains are long, a change of the parent is judged, and passed only if sound.
  pub validate_parent_change-IsSound :
      (fuel org id : ℕ) (p : Option ℕ)
      → n ≤ fuel
      → (r : Result (Unit {0})) × (validate_parent_change fuel org rows id p ≡ some r)
        × ((u : Unit {0}) → r ≡ ok u → IsSound rows next n id p)
  unfolding validate_parent_change
  validate_parent_change-IsSound fuel org id none le = (ok tt, refl, λ u e. tt)
  validate_parent_change-IsSound fuel org id (some p) le =
      let (circular, short) = check_circular_reference_answers rows id n (some p) (forest.ends p) in
      let long = check_circular_reference_more rows id n fuel (some p) circular le short in
      elim (Bool-cases (p == id)) [
        | inl e ↦ (
          err (bad_request "A department cannot be its own parent"),
          rw (e, validate_parent_change) refl,
          λ u k. absurd (cc),
        )
        | inr e ↦ elim (Option-cases (find_first (is_live_department org p) rows)) [
          | inl e0 ↦ (
            err (bad_request "Parent department not found in this organization"),
            rw (e, e0, validate_parent_change) refl,
            λ u k. absurd (cc),
          )
          | inr (d, e1) ↦
              let id_is : d.id ≡ p =
                ground (arith, find_first-true (is_live_department org p) rows d e1) in
              let old =
                find_first-All (λ (x : Department). x.id < next) (is_live_department org p) rows d
                  forest.old e1 in
              elim (Bool-cases circular) [
                | inl t ↦ (
                  err (
                      bad_request
                        "Circular department hierarchy detected — a department cannot be a descendant of itself"),
                  rw (e, e1, long, t, validate_parent_change) refl,
                  λ u k. absurd (cc),
                )
                | inr t ↦ (
                  ok tt,
                  rw (e, e1, long, t, validate_parent_change) refl,
                  λ u k. (subst (λ i. i < next) id_is old, short ∙ ap some t),
                )
              ]
        ]
      ]

  module _ (id level : ℕ) (p : Option ℕ) (f : Department → Department)
      (same : (d : Department) → (f d).id ≡ d.id) where
    abbrev replaced : Department → Department
    replaced d = placed p level (f d)

    abbrev pub after : List Department
    after = update_where (λ (d : Department). d.id == id) replaced rows

    parent_of-other :
        (xs : List Department) (c : ℕ)
        → c ≢ id
        → parent_of (update_where (λ (d : Department). d.id == id) replaced xs) c ≡ parent_of xs c
    parent_of-other [] c other = refl
    parent_of-other (d ∷ xs) c other = ground (arith, same d, parent_of-other xs c other)

    parent_of-replaced :
        (xs : List Department)
        → let ys = update_where (λ (d : Department). d.id == id) replaced xs in
          (parent_of ys id ≡ p) ⊎ (parent_of ys id ≡ none)
    parent_of-replaced [] = inr refl
    parent_of-replaced (d ∷ xs) = ground (arith, same d, parent_of-replaced xs)

    Ends-new_parent : IsSound rows next n id p → Ends after n p
    Ends-new_parent sound = elim (Option-cases p) [
      | inl e ↦ subst (Ends after n) (sym e) tt
      | inr (q, e) ↦
          let (old, passed) = subst (IsSound rows next n id) e sound in
          subst (Ends after n) (sym e)
            (check_circular_reference-Ends rows after id n (some q) (parent_of-other rows) passed)
    ]

    Ends-replaced : IsSound rows next n id p → Ends after (suc n) (some id)
    Ends-replaced sound = elim (parent_of-replaced rows) [
      | inl e ↦ subst (Ends after n) (sym e) (Ends-new_parent sound)
      | inr e ↦ subst (Ends after n) (sym e) tt
    ]

    IsForest-replaced : IsSound rows next n id p → IsForest next (n + suc n) after
    IsForest-replaced sound = record {
      keyed =
          IsKeyed-update_where (λ (d : Department). d.id) (λ (d : Department). d.id == id) replaced
            (λ d _. same d) rows forest.keyed;
      old =
          All-update_where (λ (d : Department). d.id < next) (λ (d : Department). d.id == id)
            replaced rows forest.old
            (All-map (λ (d : Department). d.id < next)
              (λ (d : Department). (d.id == id) ≡ true → (replaced d).id < next)
              (λ d old _. subst (λ i. i < next) (sym (same d)) old) rows forest.old);
      known = λ c q e. elim (Bool-cases (c == id)) [
        | inr s ↦ forest.known c q (sym (parent_of-other rows c (apart c id s)) ∙ e)
        | inl s ↦
            let here = subst (λ i. parent_of after i ≡ some q) (==→eq c id s) e in
            elim (parent_of-replaced rows) [
              | inl r ↦ (subst (IsSound rows next n id) (sym r ∙ here) sound).0
              | inr r ↦ absurd (cc)
            ]
      ];
      ends = λ c.
          Ends-reparent rows after id n (suc n) (n + suc n) (some c) (λ d. parent_of-other rows d)
            (Ends-replaced sound) (omega arith) (forest.ends c);
    }

    -- The cascade ends too, and keeps what the change of the parent has made.
    pub replace_parent-IsForest :
        (fuel : ℕ) (d : Department) (db : Db)
        → db.departments ≡ rows
        → IsSound rows next n id p
        → n + suc n < fuel
        → (r : Result Department) × (rows' : List Department) × (replace_parent fuel id p level f d
              db
            ≡ some (r, record db { departments = rows' }))
          × IsForest next (n + suc n) rows'
    unfolding replace_parent
    replace_parent-IsForest fuel d db these sound enough =
        let made = IsForest-replaced sound in
        let (k, at) = Ends-EndsAt after (n + suc n) (some id) (made.ends id) in
        let (rows', e, forest', kept) =
          cascade_hierarchy_levels-Answers next (n + suc n) fuel k id level after made at
            (omega arith) in
        (ok (placed p level (f d)), rows', rw (these, e, replace_parent) refl, forest')
