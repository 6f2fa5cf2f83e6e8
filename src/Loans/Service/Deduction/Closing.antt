-- ===== src/Loans/Service/Deduction/Closing.antt =====
-- What marking instalments as deducted does to the tables.
use igreen_backend.Base.{
  ap, ◌∙◌, ℕ, ◌≡◌, refl, ◌⊎◌, inl, inr, Bool, true, some, List, [], ◌∷◌, arith, ◌&&◌, ◌==◌, not,
  All, Bool-cases,
}
use igreen_backend.Store.Table.{count}
use igreen_backend.Store.Table.Evolution.{
  Evolves, Evolves-refl, Evolves-trans, Evolves-update_where,
}
use igreen_backend.Store.Loan.{LoanStatus, loan_status_eq, LoanApplication}
use igreen_backend.Store.Db.{Db}
use igreen_backend.Loans.Service.Deduction.{
  close_if_settled, close_settled, mark_emi_deducted, marked, affected_loan_ids,
}

-- A loan stays as it is, or is closed.
pub record Closes (a b : LoanApplication) : Type 0 where
  pub same_id : b.id ≡ a.id
  pub same_employee : b.employee_id ≡ a.employee_id
  pub same_request : b.amount_requested ≡ a.amount_requested
  pub status :
      (b.status ≡ a.status) ⊎ ((a.status ≡ LoanStatus.active) × (b.status ≡ LoanStatus.closed))

Closes-refl : (a : LoanApplication) → Closes a a
Closes-refl a = ground arith

Closes-trans : (a b c : LoanApplication) → Closes a b → Closes b c → Closes a c
Closes-trans a b c h k = ground arith

module _ (now : ℕ) where
  abbrev closed_at_now : LoanApplication → LoanApplication
  closed_at_now l = record l { status = LoanStatus.closed; closed_at = some now }

  abbrev closable : ℕ → LoanApplication → Bool
  closable loan_id l = l.id == loan_id && loan_status_eq l.status LoanStatus.active

  All-closable :
      (loan_id : ℕ) (xs : List LoanApplication)
      → All (λ l. closable loan_id l ≡ true → Closes l (closed_at_now l)) xs
  All-closable loan_id [] = tt
  All-closable loan_id (x ∷ xs) = (λ h. ground arith, All-closable loan_id xs)

  close_if_settled-Closes :
      (loan_id : ℕ) (db : Db)
      → Evolves Closes (λ _. ⊥) db.loans (close_if_settled now loan_id db).loans
  unfolding close_if_settled
  close_if_settled-Closes loan_id db =
      elim (Bool-cases
        (count (λ row. row.loan_id == loan_id && not row.is_deducted) db.emis == 0)) [
          | inl e ↦ rw e (
              Evolves-update_where Closes (λ _. ⊥) (closable loan_id) closed_at_now Closes-refl
                db.loans (All-closable loan_id db.loans))
          | inr e ↦ rw e (Evolves-refl Closes (λ _. ⊥) Closes-refl db.loans)
        ]

  close_settled-Closes :
      (ids : List ℕ) (db : Db) → Evolves Closes (λ _. ⊥) db.loans (close_settled now ids db).loans
  unfolding close_settled
  close_settled-Closes [] db = Evolves-refl Closes (λ _. ⊥) Closes-refl db.loans
  close_settled-Closes (id ∷ ids) db =
      Evolves-trans Closes Closes-trans db.loans (close_if_settled now id db).loans _
        (close_if_settled-Closes id db) (close_settled-Closes ids (close_if_settled now id db))

  close_settled_keeps :
      (ids : List ℕ) (db : Db)
      → ((close_settled now ids db).emis ≡ db.emis)
        × ((close_settled now ids db).employees ≡ db.employees)
  unfolding close_settled
  close_settled_keeps [] db = (refl, refl)
  close_settled_keeps (id ∷ ids) db =
      let (same_emis, same_employees) = close_settled_keeps ids (close_if_settled now id db) in
      ground arith

  close_if_settled_frame :
      (id : ℕ) (db : Db)
      → close_if_settled now id db ≡ record db { loans = (close_if_settled now id db).loans }
  unfolding close_if_settled
  close_if_settled_frame id db =
      elim (Bool-cases (count (λ row. row.loan_id == id && not row.is_deducted) db.emis == 0)) [
        | inl e ↦ rw e refl
        | inr e ↦ rw e refl
      ]

  close_settled_frame :
      (ids : List ℕ) (db : Db)
      → close_settled now ids db ≡ record db { loans = (close_settled now ids db).loans }
  unfolding close_settled
  close_settled_frame [] db = refl
  close_settled_frame (id ∷ ids) db =
      let after = close_settled now ids (close_if_settled now id db) in
      close_settled_frame ids (close_if_settled now id db)
      ∙ ap {A = Db} {B = Db} (λ d. record d { loans = after.loans }) (close_if_settled_frame id db)

-- Marking instalments changes nothing but instalments and loans.
pub mark_emi_deducted_frame :
    (now : ℕ) (ids : List ℕ) (entry : ℕ) (db : Db)
    → mark_emi_deducted now ids entry db ≡ record db {
      emis = (marked now ids entry db).emis;
      loans = (mark_emi_deducted now ids entry db).loans;
    }
unfolding mark_emi_deducted
mark_emi_deducted_frame now ids entry db =
    close_settled_frame now (affected_loan_ids ids db) (marked now ids entry db)

-- Marking instalments changes no employee, and of the instalments just the marked ones.
pub mark_emi_deducted_keeps :
    (now : ℕ) (ids : List ℕ) (entry : ℕ) (db : Db)
    → let db' = mark_emi_deducted now ids entry db in
      (db'.emis ≡ (marked now ids entry db).emis) × (db'.employees ≡ db.employees)
unfolding mark_emi_deducted
mark_emi_deducted_keeps now ids entry db =
    close_settled_keeps now (affected_loan_ids ids db) (marked now ids entry db)

-- Marking instalments leaves each loan, or closes it if it is active.
pub mark_emi_deducted-Closes :
    (now : ℕ) (ids : List ℕ) (entry : ℕ) (db : Db)
    → Evolves Closes (λ _. ⊥) db.loans (mark_emi_deducted now ids entry db).loans
unfolding mark_emi_deducted
mark_emi_deducted-Closes now ids entry db =
    close_settled-Closes now (affected_loan_ids ids db) (marked now ids entry db)
