-- ===== src/Leave/Applications/Overlap.antt =====
-- No two live applications of an employee overlap.
use igreen_backend.Base.{
  ◌≡◌, refl, inl, inr, Bool, true, false, List, [], ◌∷◌, ◌&&◌, arith, All, All-append,
}
use igreen_backend.Base.Calendar.{Clock}
use igreen_backend.Store.Table.{find_first-none, create, IsKeyed}
use igreen_backend.Store.Table.Evolution.{Evolves}
use igreen_backend.Store.Leave.{LeaveStatus, LeaveApplication}
use igreen_backend.Store.Db.{Db}
use igreen_backend.Leave.Applications.{is_live, overlaps, new_application}
use igreen_backend.Leave.Applications.Lifecycle.{
  LeaveCall, apply_call, cancel_call, approve_call, reject_call, run_leave_call, StatusStep, stay,
  decide, LeaveStep, apply-Applies, cancel-Evolves, approve-Evolves, reject-Evolves,
}

-- Both are live, of one employee, and share a moment.
abbrev pub clashes : LeaveApplication → LeaveApplication → Bool
clashes a b = is_live a && overlaps a.employee_id a.from_date a.to_date b

abbrev pub NoOverlap : List LeaveApplication → Type 0
NoOverlap [] = Unit
NoOverlap (x ∷ xs) = All (λ y. clashes x y ≡ false) xs × NoOverlap xs

-- A step wakes no application.
live_before :
    {s t : LeaveStatus} (a b : LeaveApplication)
    → StatusStep s t
    → a.status ≡ s
    → b.status ≡ t
    → is_live b ≡ true
    → is_live a ≡ true
live_before a b stay p q h = ground arith
live_before a b decide p q h = ground arith

clashes-before :
    (a b c d : LeaveApplication)
    → LeaveStep a c
    → LeaveStep b d
    → clashes a b ≡ false
    → clashes c d ≡ false
clashes-before a b c d p q h =
    ground (
      arith,
      p.same_employee,
      live_before a c p.status refl refl,
      live_before b d q.status refl refl,
    )

All-clashes :
    (a c : LeaveApplication)
    → LeaveStep a c
    → (xs ys : List LeaveApplication) → Evolves LeaveStep (λ _. ⊥) xs ys
    → All (λ y. clashes a y ≡ false) xs
    → All (λ y. clashes c y ≡ false) ys
All-clashes a c p [] [] e h = tt
All-clashes a c p [] (y ∷ ys) e h = absurd e.0
All-clashes a c p (x ∷ xs) [] e h = absurd e
All-clashes a c p (x ∷ xs) (y ∷ ys) e h =
    (clashes-before a x c y p e.0 h.0, All-clashes a c p xs ys e.1 h.1)

Evolves-NoOverlap :
    (xs ys : List LeaveApplication) → Evolves LeaveStep (λ _. ⊥) xs ys → NoOverlap xs → NoOverlap ys
Evolves-NoOverlap [] [] e h = tt
Evolves-NoOverlap [] (y ∷ ys) e h = absurd e.0
Evolves-NoOverlap (x ∷ xs) [] e h = absurd e
Evolves-NoOverlap (x ∷ xs) (y ∷ ys) e h =
    (All-clashes x y e.0 xs ys e.1 h.0, Evolves-NoOverlap xs ys e.1 h.1)

-- A row that overlaps no live one goes behind the others.
pub create-NoOverlap :
    (a : LeaveApplication) (xs : List LeaveApplication)
    → All (λ x. overlaps a.employee_id a.from_date a.to_date x ≡ false) xs
    → NoOverlap xs
    → NoOverlap (create a xs)
create-NoOverlap a [] f h = (tt, tt)
create-NoOverlap a (x ∷ xs) f h = (
  All-append (λ y. clashes x y ≡ false) xs (a ∷ []) h.0 (let free = f.0 in ground arith, tt),
  create-NoOverlap a xs f.1 h.1,
)

-- While identifiers are distinct, every request keeps it so that no two pending or approved
-- applications of an employee share a moment.
pub run_leave_call-NoOverlap :
    (clock : Clock) (call : LeaveCall) (db : Db)
    → IsKeyed (λ (a : LeaveApplication). a.id) db.leaves
    → NoOverlap db.leaves
    → NoOverlap (run_leave_call clock call db).leaves
unfolding run_leave_call
run_leave_call-NoOverlap clock (apply_call org caller dto) db k h =
    elim (apply-Applies clock org caller dto db) [
      | inl same ↦ rw same h
      | inr (id, employee, free, made) ↦ rw made (
          create-NoOverlap (new_application id employee dto) db.leaves
            (find_first-none (overlaps employee dto.from_date dto.to_date) db.leaves free) h)
    ]
run_leave_call-NoOverlap clock (cancel_call org employee id) db k h =
    Evolves-NoOverlap db.leaves _ (cancel-Evolves (λ _. ⊥) clock org employee id db k) h
run_leave_call-NoOverlap clock (approve_call org id approver own notes) db k h =
    Evolves-NoOverlap db.leaves _ (approve-Evolves (λ _. ⊥) clock org id approver own notes db k) h
run_leave_call-NoOverlap clock (reject_call org id approver own note) db k h =
    Evolves-NoOverlap db.leaves _ (reject-Evolves (λ _. ⊥) clock org id approver own note db k) h
