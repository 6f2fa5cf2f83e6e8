-- ===== src/Leave/Balance/Invariants.antt =====
-- The books of the leave balances: what was granted is what was taken and what is left, and
-- nothing is overdrawn unless it is forced.
use igreen_backend.Base.{ℕ, ◌≡◌, Bool, false, not, ◌&&◌, some, arith}
use igreen_backend.Base.Int.{pos, ◌+ℤ◌, ◌≤ℤ◌, ltb_ℤ, -ℤ_parts, +ℤ_parts}
use igreen_backend.Store.Table.{find_first}
use igreen_backend.Store.Leave.{LeaveBalance}
use igreen_backend.Store.Db.{Db}
use igreen_backend.Leave.Balance.{
  is_balance_of, initialize_for_employee, drawn, deduct_balance, restore_balance, accrue_monthly,
}
use igreen_backend.Leave.Balance.Books.{
  Sound, initialize_for_employee-Sound, accrue_monthly-Sound, deduct_balance-Sound,
  restore_balance-Sound,
}

-- What was granted and carried forward is what was taken and what is left.
abbrev pub IsBalanced : LeaveBalance → Type 0
IsBalanced b = b.entitled_days +ℤ b.carried_forward_days ≡ b.taken_days +ℤ b.balance_days

abbrev pub IsCovered : LeaveBalance → Type 0
IsCovered b = pos 0 ≤ℤ b.balance_days

-- The calls that write to the table of balances.
pub data BalanceCall : Type 0 where
  initialize_call : ℕ → ℕ → ℕ → BalanceCall
  deduct_call : ℕ → ℕ → ℕ → ℕ → Bool → BalanceCall
  restore_call : ℕ → ℕ → ℕ → ℕ → BalanceCall
  accrue_call : ℕ → BalanceCall

-- The database after a call.
pub run_balance_call : BalanceCall → Db → Db
run_balance_call (initialize_call employee type year) db =
    (initialize_for_employee employee type year db).1
run_balance_call (deduct_call employee type year days force) db =
    (deduct_balance employee type year days force db).1
run_balance_call (restore_call employee type year days) db =
    (restore_balance employee type year days db).1
run_balance_call (accrue_call year) db = accrue_monthly year db

-- A call that restores no more days than were taken.
abbrev pub RestoresTaken : BalanceCall → Db → Type 0
RestoresTaken (restore_call employee type year days) db =
    (b : LeaveBalance)
    → find_first (is_balance_of employee type year) db.balances ≡ some b
    → pos days ≤ℤ b.taken_days
RestoresTaken _ db = Unit

-- A call that forces no deduction.
abbrev pub IsUnforced : BalanceCall → Type 0
IsUnforced (deduct_call employee type year days force) = force ≡ false
IsUnforced _ = Unit

drawn-IsCovered :
    (days : ℕ) (b : LeaveBalance)
    → (not false && ltb_ℤ b.balance_days (pos days)) ≡ false
    → IsCovered (drawn days b)
drawn-IsCovered days b g = ground (arith, -ℤ_parts b.balance_days (pos days))

-- No call but a forced deduction takes a balance below zero.
pub run_balance_call-IsCovered :
    (call : BalanceCall) (db : Db)
    → IsUnforced call
    → Sound IsCovered db.next_id db.balances
    → Sound IsCovered (run_balance_call call db).next_id (run_balance_call call db).balances
unfolding run_balance_call
run_balance_call-IsCovered (initialize_call employee type year) db u s =
    initialize_for_employee-Sound IsCovered employee type year db (λ id d. omega arith) s
run_balance_call-IsCovered (deduct_call employee type year days force) db u s = rw u (
    deduct_balance-Sound IsCovered employee type year days false db
      (λ b g p. drawn-IsCovered days b g) s)
run_balance_call-IsCovered (restore_call employee type year days) db u s =
    restore_balance-Sound IsCovered employee type year days db
      (λ b e p. omega (arith, +ℤ_parts b.balance_days (pos days))) s
run_balance_call-IsCovered (accrue_call year) db u s =
    accrue_monthly-Sound IsCovered year db (λ id e t d. omega arith)
      (λ d b p. omega (arith, +ℤ_parts b.balance_days (pos d))) s
