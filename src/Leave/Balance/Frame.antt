-- ===== src/Leave/Balance/Frame.antt =====
-- What the calls on balances leave alone.
use igreen_backend.Base.{ℕ, ◌≡◌, Bool, arith}
use igreen_backend.Store.Db.{Db}
use igreen_backend.Leave.Balance.{initialize_for_employee, deduct_balance}

pub initialize_for_employee-leaves :
    (employee type year : ℕ) (db : Db)
    → (initialize_for_employee employee type year db).1.leaves ≡ db.leaves
unfolding initialize_for_employee
initialize_for_employee-leaves employee type year db = ground arith

pub deduct_balance-leaves :
    (employee type year days : ℕ) (force : Bool) (db : Db)
    → (deduct_balance employee type year days force db).1.leaves ≡ db.leaves
unfolding deduct_balance
deduct_balance-leaves employee type year days force db = ground arith

pub initialize_for_employee-requests :
    (employee type year : ℕ) (db : Db)
    → (initialize_for_employee employee type year db).1.requests ≡ db.requests
unfolding initialize_for_employee
initialize_for_employee-requests employee type year db = ground arith

pub deduct_balance-requests :
    (employee type year days : ℕ) (force : Bool) (db : Db)
    → (deduct_balance employee type year days force db).1.requests ≡ db.requests
unfolding deduct_balance
deduct_balance-requests employee type year days force db = ground arith
