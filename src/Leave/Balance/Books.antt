-- ===== src/Leave/Balance/Books.antt =====
-- What every change of a leave balance keeps.
use igreen_backend.Base.{
  ℕ, ◌+◌, ◌/◌, ◌<◌, ◌≡◌, refl, inl, inr, Bool, true, false, some, List, [], ◌∷◌, arith, ◌==◌, not,
  ◌&&◌, All, All-map, All-append, Option-cases, Bool-cases, ==→eq, sym,
}
use igreen_backend.Base.Int.{pos, ltb_ℤ}
use igreen_backend.Store.Table.{
  find_first, find_many, update_where, create, IsKeyed, IsKeyed-create, IsKeyed-update_where,
  All-update_where, All-update_found, find_first-All,
}
use igreen_backend.Store.Staff.{Employee}
use igreen_backend.Store.Leave.{LeavePolicyType, LeaveBalance}
use igreen_backend.Store.Db.{Db}
use igreen_backend.Leave.Balance.{
  is_balance_of, is_kept_type, new_balance, upsert_balance, initialize_for_employee, drawn,
  deduct_balance, given_back, restore_balance, accrued, accrue_for, accrue_each, accrue_monthly,
  is_under, accrues_monthly,
}

-- The identifiers of a table of balances are distinct and below the next one, and `P` holds of
-- every row.
pub record Sound (P : LeaveBalance → Type 0) (next_id : ℕ) (rows : List LeaveBalance) : Type 0 where
  pub keyed : IsKeyed (λ (b : LeaveBalance). b.id) rows
  pub below : All (λ (b : LeaveBalance). b.id < next_id) rows
  pub holds : All P rows

module _ (P : LeaveBalance → Type 0) where
  create-Sound :
      (n : ℕ) (b : LeaveBalance) (rows : List LeaveBalance)
      → b.id ≡ n
      → P b
      → Sound P n rows
      → Sound P (n + 1) (create b rows)
  create-Sound n b rows e p s = record {
    keyed =
        IsKeyed-create (λ (r : LeaveBalance). r.id) b rows s.keyed
          (All-map (λ (r : LeaveBalance). r.id < n) (λ r. r.id < b.id) (λ r h. omega arith) rows
            s.below);
    below =
        All-append (λ (r : LeaveBalance). r.id < n + 1) rows (b ∷ [])
          (All-map (λ (r : LeaveBalance). r.id < n) (λ r. r.id < n + 1) (λ r h. omega arith) rows
            s.below)
          (omega arith, tt);
    holds = All-append P rows (b ∷ []) s.holds (p, tt);
  }

  -- An update by identifier of a row that was found.
  update-Sound :
      (n : ℕ) (q : LeaveBalance → Bool) (b : LeaveBalance) (f : LeaveBalance → LeaveBalance)
      (rows : List LeaveBalance)
      → find_first q rows ≡ some b
      → ((r : LeaveBalance) → (r.id == b.id) ≡ true → (f r).id ≡ r.id)
      → P (f b)
      → Sound P n rows
      → Sound P n (update_where (λ r. r.id == b.id) f rows)
  update-Sound n q b f rows e k p s = record {
    keyed = IsKeyed-update_where (λ (r : LeaveBalance). r.id) (λ r. r.id == b.id) f k rows s.keyed;
    below =
        All-update_where (λ (r : LeaveBalance). r.id < n) (λ r. r.id == b.id) f rows s.below
          (All-map (λ (r : LeaveBalance). r.id < n) (λ r. (r.id == b.id) ≡ true → (f r).id < n)
            (λ r h m. rw (k r m) h) rows s.below);
    holds = All-update_found P (λ r. r.id) q f rows b s.keyed s.holds e p;
  }

  upsert_balance-Sound :
      (employee type year days : ℕ) (update : LeaveBalance → LeaveBalance) (db : Db)
      → ((id : ℕ) → P (new_balance id employee type year days))
      → ((b : LeaveBalance) → P b → P (update b))
      → ((b : LeaveBalance) → (update b).id ≡ b.id)
      → Sound P db.next_id db.balances
      → let db' = (upsert_balance employee type year days update db).1 in
        Sound P db'.next_id db'.balances
  unfolding upsert_balance
  upsert_balance-Sound employee type year days update db new keep same s =
      elim (Option-cases (find_first (is_balance_of employee type year) db.balances)) [
        | inl e ↦
            rw (e, upsert_balance)
              (create-Sound db.next_id (new_balance db.next_id employee type year days) db.balances
                refl (new db.next_id) s)
        | inr (b, e) ↦
            rw (e, upsert_balance)
              (update-Sound db.next_id (is_balance_of employee type year) b update db.balances e
                (λ r _. same r) (keep b (find_first-All P _ db.balances b s.holds e)) s)
      ]

  pub initialize_for_employee-Sound :
      (employee type year : ℕ) (db : Db)
      → ((id days : ℕ) → P (new_balance id employee type year days))
      → Sound P db.next_id db.balances
      → let db' = (initialize_for_employee employee type year db).1 in
        Sound P db'.next_id db'.balances
  unfolding initialize_for_employee
  initialize_for_employee-Sound employee type year db new s =
      elim (Option-cases (find_first (is_kept_type db type) db.policy_types)) [
        | inl e ↦ rw (e, initialize_for_employee) s
        | inr (t, e) ↦
            rw (e, initialize_for_employee)
              (upsert_balance-Sound employee type year t.days_per_year (λ b. b) db
                (λ id. new id t.days_per_year) (λ b p. p) (λ b. refl) s)
      ]

  accrue_for-Sound :
      (year : ℕ) (type : LeavePolicyType) (staff : List Employee) (db : Db)
      → ((id employee days : ℕ) → P (new_balance id employee type.id year days))
      → ((days : ℕ) (b : LeaveBalance) → P b → P (accrued days b))
      → Sound P db.next_id db.balances
      → let db' = accrue_for year type staff db in Sound P db'.next_id db'.balances
  unfolding accrue_for
  accrue_for-Sound year type [] db new grow s = s
  accrue_for-Sound year type (e ∷ staff) db new grow s =
      accrue_for-Sound year type staff _ new grow (
        upsert_balance-Sound e.id type.id year (type.days_per_year / 12)
          (accrued (type.days_per_year / 12)) db (λ id. new id e.id (type.days_per_year / 12))
          (grow (type.days_per_year / 12)) (λ b. refl) s)

  accrue_each-Sound :
      (year : ℕ) (staff : List Employee) (types : List LeavePolicyType) (db : Db)
      → ((id employee type days : ℕ) → P (new_balance id employee type year days))
      → ((days : ℕ) (b : LeaveBalance) → P b → P (accrued days b))
      → Sound P db.next_id db.balances
      → let db' = accrue_each year staff types db in Sound P db'.next_id db'.balances
  unfolding accrue_each
  accrue_each-Sound year staff [] db new grow s = s
  accrue_each-Sound year staff (t ∷ types) db new grow s =
      accrue_each-Sound year staff types _ new grow
        (accrue_for-Sound year t (find_many (is_under t) staff) db (λ id e. new id e t.id) grow s)

  pub deduct_balance-Sound :
      (employee type year days : ℕ) (force : Bool) (db : Db)
      → ((b : LeaveBalance)
          → (not force && ltb_ℤ b.balance_days (pos days)) ≡ false
          → P b
          → P (drawn days b))
      → Sound P db.next_id db.balances
      → let db' = (deduct_balance employee type year days force db).1 in
        Sound P db'.next_id db'.balances
  unfolding deduct_balance
  deduct_balance-Sound employee type year days force db draw s =
      elim (Option-cases (find_first (is_balance_of employee type year) db.balances)) [
        | inl e ↦ rw (e, deduct_balance) s
        | inr (b, e) ↦ elim (Bool-cases (not force && ltb_ℤ b.balance_days (pos days))) [
          | inl short ↦ rw (e, deduct_balance) (rw short s)
          | inr enough ↦
              rw (e, deduct_balance)
                (rw enough (
                  update-Sound db.next_id (is_balance_of employee type year) b (λ _. drawn days b)
                    db.balances e (λ r m. sym (==→eq _ _ m))
                    (draw b enough (find_first-All P _ db.balances b s.holds e)) s))
        ]
      ]

  pub restore_balance-Sound :
      (employee type year days : ℕ) (db : Db)
      → ((b : LeaveBalance)
          → find_first (is_balance_of employee type year) db.balances ≡ some b
          → P b
          → P (given_back days b))
      → Sound P db.next_id db.balances
      → let db' = (restore_balance employee type year days db).1 in Sound P db'.next_id db'.balances
  unfolding restore_balance
  restore_balance-Sound employee type year days db back s =
      elim (Option-cases (find_first (is_balance_of employee type year) db.balances)) [
        | inl e ↦ rw (e, restore_balance) s
        | inr (b, e) ↦
            rw (e, restore_balance)
              (update-Sound db.next_id (is_balance_of employee type year) b (λ _. given_back days b)
                db.balances e (λ r m. sym (==→eq _ _ m))
                (back b e (find_first-All P _ db.balances b s.holds e)) s)
      ]

  pub accrue_monthly-Sound :
      (year : ℕ) (db : Db)
      → ((id employee type days : ℕ) → P (new_balance id employee type year days))
      → ((days : ℕ) (b : LeaveBalance) → P b → P (accrued days b))
      → Sound P db.next_id db.balances
      → let db' = accrue_monthly year db in Sound P db'.next_id db'.balances
  unfolding accrue_monthly
  accrue_monthly-Sound year db new grow s =
      accrue_each-Sound year db.employees (find_many (accrues_monthly db) db.policy_types) db new
        grow s
