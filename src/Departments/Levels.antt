-- ===== src/Departments/Levels.antt =====
-- The cascade of hierarchy levels down from a department ends, and moves none.
use igreen_backend.Base.{
  ℕ, zero, suc, ◌+◌, ◌<◌, ◌≡◌, refl, sym, ◌∙◌, subst, Bool, true, Option, some, List, [], ◌∷◌,
  arith, ◌==◌, All, All-map,
}
use igreen_backend.Store.Table.{
  find_first, update_where, IsKeyed, All-update_where, IsKeyed-update_where,
}
use igreen_backend.Store.Table.Selection.{find_first-key, All-map-find_many}
use igreen_backend.Store.Staff.{Department}
use igreen_backend.Departments.{
  parent_of, with_level, is_child_of, children_of, each, cascade_hierarchy_levels,
}
use igreen_backend.Departments.Chains.{
  Ends, EndsAt, SameParents, Ends-SameParents, EndsAt-SameParents, EndsAt-bound,
}

-- Identifiers are distinct and below the next one, as are parents, and every chain of parents ends
-- after at most `n` departments.
pub record IsForest (next n : ℕ) (rows : List Department) : Type 0 where
  pub old : All (λ (d : Department). d.id < next) rows
  pub known : (c p : ℕ) → parent_of rows c ≡ some p → p < next
  pub keyed : IsKeyed (λ (d : Department). d.id) rows
  pub ends : (c : ℕ) → Ends rows n (some c)

-- An update that keeps identifiers and parents.
pub parent_of-update_where :
    (q : Department → Bool) (f : Department → Department)
    → ((d : Department) → ((f d).id ≡ d.id) × ((f d).parent_id ≡ d.parent_id))
    → (rows : List Department) → SameParents rows (update_where q f rows)
parent_of-update_where q f k [] c = refl
parent_of-update_where q f k (d ∷ rows) c = ground (arith, k d, parent_of-update_where q f k rows c)

pub IsForest-update_where :
    (next n : ℕ) (q : Department → Bool) (f : Department → Department)
    → ((d : Department) → ((f d).id ≡ d.id) × ((f d).parent_id ≡ d.parent_id))
    → (rows : List Department) → IsForest next n rows
    → IsForest next n (update_where q f rows)
IsForest-update_where next n q f k rows h = record {
  old =
      All-update_where (λ (d : Department). d.id < next) q f rows h.old
        (All-map (λ (d : Department). d.id < next)
          (λ (d : Department). q d ≡ true → (f d).id < next)
          (λ d old _. subst (λ i. i < next) (sym (k d).0) old) rows h.old);
  known = λ c p e. h.known c p (sym (parent_of-update_where q f k rows c) ∙ e);
  keyed = IsKeyed-update_where (λ (d : Department). d.id) q f (λ d _. (k d).0) rows h.keyed;
  ends = λ c.
      Ends-SameParents rows (update_where q f rows) n (some c) (parent_of-update_where q f k rows)
        (h.ends c);
}

children_of-parent :
    (rows : List Department) (c : ℕ)
    → IsKeyed (λ (d : Department). d.id) rows
    → All (λ i. parent_of rows i ≡ some c) (children_of rows c)
children_of-parent rows c keyed =
    All-map-find_many (λ i. parent_of rows i ≡ some c) (λ (d : Department). d.id) (is_child_of c)
      rows
      (All-map (λ (d : Department). find_first (λ (x : Department). x.id == d.id) rows ≡ some d)
        (λ (d : Department). is_child_of c d ≡ true → parent_of rows d.id ≡ some c)
        (λ d found child. rw (found, parent_of) (ground arith)) rows
        (find_first-key (λ (d : Department). d.id) rows keyed))

-- A step answers with a forest of the same parents.
abbrev pub Answers : ℕ → ℕ → List Department → Option (List Department) → Type 0
Answers next n rows result =
    (rows' : List Department) × (result ≡ some rows')
    × IsForest next n rows'
    × SameParents rows rows'

each-Answers :
    (next n : ℕ) (f : ℕ → List Department → Option (List Department)) (ids : List ℕ)
    (start rows : List Department)
    → All
        (λ i.
          (xs : List Department)
          → IsForest next n xs
          → SameParents start xs
          → Answers next n xs (f i xs))
        ids
    → IsForest next n rows
    → SameParents start rows
    → Answers next n rows (each f ids rows)
each-Answers next n f [] start rows h forest same = (rows, refl, forest, λ c. refl)
each-Answers next n f (i ∷ ids) start rows h forest same =
    let (rows', e, forest', same') = h.0 rows forest same in
    let (rows'', e', forest'', same'') =
      each-Answers next n f ids start rows' h.1 forest' (λ c. same' c ∙ same c) in
    (rows'', rw (e, each) e', forest'', λ c. same'' c ∙ same' c)

-- A cascade from the k-th department of a chain needs no more fuel than chains are long.
pub cascade_hierarchy_levels-Answers :
    (next n fuel k c level : ℕ) (rows : List Department)
    → IsForest next n rows
    → EndsAt rows k (some c)
    → n < fuel + k
    → Answers next n rows (cascade_hierarchy_levels fuel c level rows)
unfolding cascade_hierarchy_levels
cascade_hierarchy_levels-Answers next n zero k c level rows forest at enough =
    absurd (omega (arith, EndsAt-bound rows n k (some c) (forest.ends c) at))
cascade_hierarchy_levels-Answers next n (suc fuel) k c level rows forest at enough =
    each-Answers next n _ (children_of rows c) rows rows
      (All-map (λ i. parent_of rows i ≡ some c)
        (λ i.
          (xs : List Department)
          → IsForest next n xs
          → SameParents rows xs
          → Answers next n xs (
              cascade_hierarchy_levels fuel i (level + 1)
                (update_where (λ (d : Department). d.id == i) (with_level (level + 1)) xs)))
        (λ i parent xs forest' same.
          let q = λ (d : Department). d.id == i in
          let f = with_level (level + 1) in
          let xs' = update_where q f xs in
          let kept = parent_of-update_where q f (λ d. (refl, refl)) xs in
          let below : EndsAt rows (suc k) (some i) = subst (EndsAt rows k) (sym parent) at in
          let (rows', e, forest'', same') =
            cascade_hierarchy_levels-Answers next n fuel (suc k) i (level + 1) xs'
              (IsForest-update_where next n q f (λ d. (refl, refl)) xs forest')
              (EndsAt-SameParents rows xs' (suc k) (some i) (λ d. kept d ∙ same d) below)
              (omega arith) in
          (rows', e, forest'', λ d. same' d ∙ kept d))
        (children_of rows c) (children_of-parent rows c forest.keyed))
      forest (λ d. refl)
