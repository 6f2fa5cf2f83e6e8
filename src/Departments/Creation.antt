-- ===== src/Departments/Creation.antt =====
-- A department that is created stands below an old one, so that no chain of parents meets it.
use igreen_backend.Base.{
  ℕ, zero, suc, ◌+◌, ◌<◌, ◌≡◌, ◌≢◌, refl, sym, ◌∙◌, subst, inl, inr, Option, none, some, List, [],
  ◌∷◌, arith, ◌==◌, Bool-cases, Option-cases, ==→eq, All, All-map, All-append,
}
use igreen_backend.Store.Table.{create, IsKeyed-create}
use igreen_backend.Store.Staff.{Department}
use igreen_backend.Departments.{parent_of}
use igreen_backend.Departments.Chains.{Ends, Ends-later, apart}
use igreen_backend.Departments.Levels.{IsForest}

module _ (next n : ℕ) (rows : List Department) (forest : IsForest next n rows) (row : Department)
    (fresh : row.id ≡ next) (parent_old : (p : ℕ) → row.parent_id ≡ some p → p < next) where
  parent_of-create_other :
      (xs : List Department) (c : ℕ) → c ≢ next → parent_of (create row xs) c ≡ parent_of xs c
  parent_of-create_other [] c other = ground (arith, fresh)
  parent_of-create_other (d ∷ xs) c other = ground (arith, parent_of-create_other xs c other)

  parent_of-create :
      (xs : List Department)
      → All (λ (d : Department). d.id < next) xs
      → parent_of (create row xs) next ≡ row.parent_id
  parent_of-create [] old = ground (arith, fresh)
  parent_of-create (d ∷ xs) old = ground (arith, old.0, parent_of-create xs old.1)

  Ends-create :
      (k : ℕ) (x : Option ℕ)
      → ((c : ℕ) → x ≡ some c → c ≢ next)
      → Ends rows k x
      → Ends (create row rows) k x
  Ends-create k none other h = tt
  Ends-create zero (some c) other h = h
  Ends-create (suc k) (some c) other h =
      subst (Ends (create row rows) k) (sym (parent_of-create_other rows c (other c refl)))
        (Ends-create k (parent_of rows c) (λ p e same. omega (arith, forest.known c p e, same)) h)

  Ends-parent : Ends (create row rows) n row.parent_id
  Ends-parent = elim (Option-cases row.parent_id) [
    | inl e ↦ subst (Ends (create row rows) n) (sym e) tt
    | inr (p, e) ↦ subst (Ends (create row rows) n) (sym e) (
        Ends-create n (some p) (λ c k same. let old : p < next = parent_old p e in ground arith)
          (forest.ends p))
  ]

  pub IsForest-create : IsForest (next + 1) (n + suc n) (create row rows)
  IsForest-create = record {
    old =
        All-append (λ (d : Department). d.id < next + 1) rows (row ∷ [])
          (All-map (λ (d : Department). d.id < next) (λ (d : Department). d.id < next + 1)
            (λ d h. omega (arith, h)) rows forest.old)
          (omega (arith, fresh), tt);
    known = λ c p e. elim (Bool-cases (c == next)) [
      | inl s ↦
          let here = subst (λ i. parent_of (create row rows) i ≡ some p) (==→eq c next s) e in
          omega (arith, parent_old p (sym (parent_of-create rows forest.old) ∙ here))
      | inr s ↦
          omega (arith, forest.known c p (sym (parent_of-create_other rows c (apart c next s)) ∙ e))
    ];
    keyed =
        IsKeyed-create (λ (d : Department). d.id) row rows forest.keyed
          (subst (λ i. All (λ (d : Department). d.id < i) rows) (sym fresh) forest.old);
    ends = λ c. elim (Bool-cases (c == next)) [
      | inl s ↦ Ends-later (create row rows) (suc n) (n + suc n) (some c) (omega arith) (
          subst (λ i. Ends (create row rows) (suc n) (some i)) (sym (==→eq c next s))
            (subst (Ends (create row rows) n) (sym (parent_of-create rows forest.old)) Ends-parent))
      | inr s ↦ Ends-later (create row rows) n (n + suc n) (some c) (omega arith) (
          Ends-create n (some c) (λ d k same. let other = apart c next s in absurd (ground arith))
            (forest.ends c))
    ];
  }
