-- ===== src/Exit/Departments.antt =====
-- When all departments of an exit record are cleared after an update of its clearance.
use igreen_backend.Base.{
  ℕ, ◌≡◌, refl, ◌&&◌, ◌||◌, not, Bool, true, false, String, List, [], ◌∷◌, arith, every, includes,
  inl, inr, Bool-cases,
}
use igreen_backend.Store.Exit.{DepartmentClearance}
use igreen_backend.Exit.{DepartmentClearanceDto, clearance_entry, put_department, put_departments}
use text.Mathlib.Text.{◌==◌ as str_eq}
use text.Mathlib.TextEquality.{eq_iff}

module _ (lower : String → String) where
  -- whether an update is about the department of a name
  abbrev pub is_named : List DepartmentClearanceDto → String → Bool
  is_named [] name = false
  is_named (u ∷ us) name = str_eq (lower name) (lower u.department) || is_named us name

  -- Of the updates the last one of each department says that it is cleared.
  abbrev pub are_last_cleared : List DepartmentClearanceDto → Bool
  are_last_cleared [] = true
  are_last_cleared (u ∷ us) = (u.cleared || is_named us u.department) && are_last_cleared us

  -- The departments of the record are cleared, but for those that an update is about; it is about
  -- the first one of a name. The names before a department are `seen`.
  abbrev pub are_others_cleared :
      List DepartmentClearanceDto → List String → List DepartmentClearance → Bool
  are_others_cleared us seen [] = true
  are_others_cleared us seen (d ∷ ds) =
      (d.cleared || (is_named us d.department && not (includes seen (lower d.department))))
      && are_others_cleared us (lower d.department ∷ seen) ds

  -- An update of a name that was seen is about none of the departments behind.
  others-seen :
      (u : DepartmentClearanceDto) (us : List DepartmentClearanceDto) (seen : List String)
      (ds : List DepartmentClearance)
      → includes seen (lower u.department) ≡ true
      → are_others_cleared (u ∷ us) seen ds ≡ are_others_cleared us seen ds
  others-seen u us seen [] h = refl
  others-seen u us seen (d ∷ ds) h =
      let rest = others-seen u us (lower d.department ∷ seen) ds (ground (arith, h)) in
      elim (Bool-cases (str_eq (lower d.department) (lower u.department))) [
        | inl e ↦
            let there : includes seen (lower d.department) ≡ true =
              rw ((eq_iff (lower d.department) (lower u.department)).0 e) h in
            ground (arith, rest, there)
        | inr e ↦ ground (arith, rest)
      ]

  others-put :
      (now : ℕ) (u : DepartmentClearanceDto) (us : List DepartmentClearanceDto) (seen : List String)
      (ds : List DepartmentClearance)
      → includes seen (lower u.department) ≡ false
      → are_others_cleared us seen (put_department lower (clearance_entry now u) ds)
        ≡ ((u.cleared || is_named us u.department) && are_others_cleared (u ∷ us) seen ds)
  others-put now u us seen [] h = ground (arith, h)
  others-put now u us seen (d ∷ ds) h =
      elim (Bool-cases (str_eq (lower d.department) (lower u.department))) [
        | inl e ↦
            let same : lower d.department ≡ lower u.department =
              (eq_iff (lower d.department) (lower u.department)).0 e in
            let unseen : includes seen (lower d.department) ≡ false = rw same h in
            let here : includes (lower d.department ∷ seen) (lower u.department) ≡ true =
              ground arith in
            let rest = others-seen u us (lower d.department ∷ seen) ds here in
            let moved : are_others_cleared us (lower u.department ∷ seen) ds
                ≡ are_others_cleared us (lower d.department ∷ seen) ds =
              rw same refl in
            ground (arith, rest, moved, unseen)
        | inr e ↦
            let unseen : includes (lower d.department ∷ seen) (lower u.department) ≡ false =
              ground (arith, h) in
            let rest = others-put now u us (lower d.department ∷ seen) ds unseen in
            ground (arith, rest)
      ]

  others-every :
      (seen : List String) (ds : List DepartmentClearance)
      → every (λ (d : DepartmentClearance). d.cleared) ds ≡ are_others_cleared [] seen ds
  others-every seen [] = refl
  others-every seen (d ∷ ds) = ground (arith, others-every (lower d.department ∷ seen) ds)

  pub put_departments-cleared :
      (now : ℕ) (us : List DepartmentClearanceDto) (ds : List DepartmentClearance)
      → every (λ (d : DepartmentClearance). d.cleared) (put_departments lower now us ds)
        ≡ (are_last_cleared us && are_others_cleared us [] ds)
  put_departments-cleared now [] ds = others-every [] ds
  put_departments-cleared now (u ∷ us) ds =
      let later =
        put_departments-cleared now us (put_department lower (clearance_entry now u) ds) in
      let first = others-put now u us [] ds refl in ground (arith, later, first)
