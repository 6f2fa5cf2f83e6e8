-- ===== src/Leave/Applications/Approval.antt =====
-- What an approval does to the balance, alone and against a second one.
use igreen_backend.Base.{
  ℕ, ◌*◌, ◌≡◌, ◌⊎◌, inl, inr, Bool, true, false, Option, none, some, String, arith, ◌==◌, is_id,
  Option-cases, ==→eq, sym,
}
use igreen_backend.Base.Int.{ℤ, pos, ◌-ℤ◌, ◌≤ℤ◌, -ℤ_parts}
use igreen_backend.Base.Calendar.{Clock}
use igreen_backend.Store.Table.{
  find_first, update_where, IsKeyed, IsKeyed-update_where, find_first-update_found, find_first-true,
}
use igreen_backend.Store.Leave.{LeaveStatus, LeaveApplication, LeaveBalance}
use igreen_backend.Store.Db.{Db, ok, Action, fails, ◌>>=◌, ◌>>◌}
use igreen_backend.Leave.Balance.{is_balance_of, drawn, deduct_balance}
use igreen_backend.Leave.Applications.{
  is_application_of, approve, approve_check, approve_commit, approved_by,
}

-- the balance that an application draws on
abbrev pub draws_on : Clock → LeaveApplication → LeaveBalance → Bool
draws_on clock a =
    is_balance_of a.employee_id a.leave_policy_type_id (clock.get_full_year a.from_date)

-- the database after an approval of `a` on the balance `b`
abbrev pub granted : Clock → ℕ → ℕ → Option String → LeaveApplication → LeaveBalance → Db → Db
granted clock id approver notes a b db = record db {
  balances = update_where (λ r. r.id == b.id) (λ _. drawn a.days b) db.balances;
  leaves = update_where (λ r. r.id == id) (approved_by clock.now approver notes) db.leaves;
}

-- What allows an approval of `a` on the balance `b`.
abbrev pub Allows : Clock → ℕ → ℕ → Option ℕ → LeaveApplication → LeaveBalance → Db → Type 0
Allows clock org id own a b db =
    (find_first (is_application_of db org id) db.leaves ≡ some a)
    × (is_id own a.employee_id ≡ false)
    × (a.status ≡ LeaveStatus.pending)
    × (find_first (draws_on clock a) db.balances ≡ some b)
    × (pos a.days ≤ℤ b.balance_days)

approve_with :
    (clock : Clock) (org id approver : ℕ) (own : Option ℕ) (notes : Option String) (db : Db)
    (a : LeaveApplication) (b : LeaveBalance)
    → find_first (is_application_of db org id) db.leaves ≡ some a
    → find_first (draws_on clock a) db.balances ≡ some b
    → ((fails (approve clock org id approver own notes db).0 ≡ true)
        × ((approve clock org id approver own notes db).1 ≡ db))
      ⊎ ((is_id own a.employee_id ≡ false)
          × (a.status ≡ LeaveStatus.pending)
          × (pos a.days ≤ℤ b.balance_days)
          × (approve clock org id approver own notes db ≡ (
            ok (approved_by clock.now approver notes a),
            granted clock id approver notes a b db,
          )))
unfolding approve deduct_balance
approve_with clock org id approver own notes db a b e f = ground arith

approve_without :
    (clock : Clock) (org id approver : ℕ) (own : Option ℕ) (notes : Option String) (db : Db)
    → (find_first (is_application_of db org id) db.leaves ≡ none)
      ⊎ ((a : LeaveApplication) × (find_first (is_application_of db org id) db.leaves ≡ some a)
          × (find_first (draws_on clock a) db.balances ≡ none))
    → (fails (approve clock org id approver own notes db).0 ≡ true)
      × ((approve clock org id approver own notes db).1 ≡ db)
unfolding approve deduct_balance
approve_without clock org id approver own notes db h = ground arith

-- An approval throws and writes nothing, or the application that is found is pending and somebody
-- else's and its balance covers its days; then it is marked as approved and the balance row is
-- drawn by exactly its days, and nothing else changes.
pub approve_outcome :
    (clock : Clock) (org id approver : ℕ) (own : Option ℕ) (notes : Option String) (db : Db)
    → ((fails (approve clock org id approver own notes db).0 ≡ true)
        × ((approve clock org id approver own notes db).1 ≡ db))
      ⊎ ((a : LeaveApplication) × (b : LeaveBalance) × Allows clock org id own a b db
          × (approve clock org id approver own notes db ≡ (
            ok (approved_by clock.now approver notes a),
            granted clock id approver notes a b db,
          )))
approve_outcome clock org id approver own notes db =
    elim (Option-cases (find_first (is_application_of db org id) db.leaves)) [
      | inl e ↦ inl (approve_without clock org id approver own notes db (inl e))
      | inr (a, e) ↦ elim (Option-cases (find_first (draws_on clock a) db.balances)) [
        | inl f ↦ inl (approve_without clock org id approver own notes db (inr (a, e, f)))
        | inr (b, f) ↦ elim (approve_with clock org id approver own notes db a b e f) [
          | inl thrown ↦ inl thrown
          | inr (other, pending, enough, done) ↦ inr (a, b, (e, other, pending, f, enough), done)
        ]
      ]
    ]

-- Two requests for one application whose reads both come before their writes.
pub approve_both :
    Clock → ℕ → ℕ → ℕ → ℕ → Option ℕ → Option ℕ → Option String → Action LeaveApplication
approve_both clock org id approver approver' own own' notes = do
  a ← approve_check org id own
  a' ← approve_check org id own'
  approve_commit clock id approver notes a
  approve_commit clock id approver' notes a'

-- What the second of two such requests reads of the balance.
drawn_once :
    (clock : Clock) (a : LeaveApplication) (b : LeaveBalance) (db : Db)
    → IsKeyed (λ (r : LeaveBalance). r.id) db.balances
    → find_first (draws_on clock a) db.balances ≡ some b
    → find_first
        (draws_on clock a)
        (update_where (λ r. r.id == b.id) (λ _. drawn a.days b) db.balances)
      ≡ some (drawn a.days b)
drawn_once clock a b db k f =
    find_first-update_found (λ r. r.id) (draws_on clock a) (λ _. drawn a.days b) db.balances b k f
      (find_first-true (draws_on clock a) db.balances b f)

enough_left :
    (balance : ℤ) (days : ℕ)
    → pos (2 * days) ≤ℤ balance
    → (pos days ≤ℤ balance) × (pos days ≤ℤ balance -ℤ pos days)
enough_left balance days h = (omega arith, omega (arith, -ℤ_parts balance (pos days)))

approve_both_writes :
    (clock : Clock) (org id approver approver' : ℕ) (own own' : Option ℕ) (notes : Option String)
    (db : Db) (a : LeaveApplication) (b : LeaveBalance)
    → Allows clock org id own a b db
    → is_id own' a.employee_id ≡ false
    → pos a.days ≤ℤ (drawn a.days b).balance_days
    → find_first
        (draws_on clock a)
        (update_where (λ r. r.id == b.id) (λ _. drawn a.days b) db.balances)
      ≡ some (drawn a.days b)
    → (approve_both clock org id approver approver' own own' notes db).1.balances
      ≡ update_where
          (λ r. r.id == b.id)
          (λ _. drawn a.days (drawn a.days b))
          (update_where (λ r. r.id == b.id) (λ _. drawn a.days b) db.balances)
unfolding approve_both approve_check approve_commit deduct_balance
approve_both_writes clock org id approver approver' own own' notes db a b allows other left again =
    ground arith

-- Two requests to approve one pending application, by others than the applicant, that both read
-- before either writes draw the balance twice, once for each, if it covers the days twice.
pub approve_both_draws_twice :
    (clock : Clock) (org id approver approver' : ℕ) (own own' : Option ℕ) (notes : Option String)
    (db : Db) (a : LeaveApplication) (b : LeaveBalance)
    → IsKeyed (λ (r : LeaveBalance). r.id) db.balances
    → Allows clock org id own a b db
    → is_id own' a.employee_id ≡ false
    → pos (2 * a.days) ≤ℤ b.balance_days
    → find_first
        (draws_on clock a)
        (approve_both clock org id approver approver' own own' notes db).1.balances
      ≡ some (drawn a.days (drawn a.days b))
approve_both_draws_twice clock org id approver approver' own own' notes db a b k allows other
      enough =
    let once = drawn_once clock a b db k allows.3 in
    let left = (enough_left b.balance_days a.days enough).1 in
    let rows = update_where (λ r. r.id == b.id) (λ _. drawn a.days b) db.balances in
    rw
      (approve_both_writes clock org id approver approver' own own' notes db a b allows other left
        once)
      (find_first-update_found (λ r. r.id) (draws_on clock a) (λ _. drawn a.days (drawn a.days b))
        rows (drawn a.days b)
        (IsKeyed-update_where (λ r. r.id) (λ r. r.id == b.id) (λ _. drawn a.days b)
          (λ r m. sym (==→eq _ _ m)) db.balances k)
        once (find_first-true (draws_on clock a) rows (drawn a.days b) once))
