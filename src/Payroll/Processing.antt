-- ===== src/Payroll/Processing.antt =====
-- What one round of the loop over the employees leaves, and keeps of the rounds before.
pub mod Once
pub mod Posting
pub mod Run
pub mod Initiation
use igreen_backend.Base.{
  ℕ, ◌+◌, ◌≡◌, ◌≢◌, refl, sym, ap, ◌∙◌, subst, inl, inr, Bool, true, false, none, some, List, [],
  arith, ◌==◌, ◌&&◌, Option-cases, ==_refl,
}
use igreen_backend.Base.Int.{ℤ, pos, ◌+ℤ◌, add_zero}
use igreen_backend.Base.Calendar.{Clock, Zone}
use igreen_backend.Store.Table.{find_first, find_many, update_unique, create}
use igreen_backend.Store.Table.Selection.{
  update_unique-fixed, find_first-update_unique, find_first-update_other, find_first-create_found,
  find_first-create_new,
}
use igreen_backend.Store.Staff.{Employee}
use igreen_backend.Store.Payroll.{PayrollRun, PayrollEntry}
use igreen_backend.Store.Db.{Db}
use igreen_backend.Loans.Service.Deduction.{
  is_due, get_active_loan_deduction_for_period, mark_emi_deducted, marked,
}
use igreen_backend.Loans.Service.Deduction.Closing.{mark_emi_deducted_frame}
use igreen_backend.Loans.Service.Deduction.Once.{
  mark_emi_deducted-none, mark_emi_deducted-stays, mark_emi_deducted-nil,
}
use igreen_backend.Incentives.{
  is_payable as is_incentive_payable, get_released_incentive_for_period, mark_incentive_deducted,
}
use igreen_backend.Incentives.Payout.{
  mark_incentive_deducted-none, mark_incentive_deducted-stays, mark_incentive_deducted-nil,
}
use igreen_backend.GreenThanks.{
  is_payable as is_thanks_payable, get_approved_green_thanks_for_period, mark_green_thanks_paid,
}
use igreen_backend.GreenThanks.Payout.{
  mark_green_thanks_paid-none, mark_green_thanks_paid-stays, mark_green_thanks_paid-nil,
}
use igreen_backend.Payroll.Entry.{
  is_entry_of, blank_entry, Extras, Due, due_for, accumulated, computed_entry, mark_due,
  process_employee,
}

module _ (org : ℕ) (run : PayrollRun) where
  -- The period has no instalment, incentive or green thanks of the employee that is not yet paid.
  pub record NothingDue (e : Employee) (db : Db) : Type 0 where
    pub no_emis : find_many (is_due db org e.id run.month run.year) db.emis ≡ []
    pub no_incentives :
        find_many (is_incentive_payable db org e.id run.month run.year) db.incentives ≡ []
    pub no_thanks :
        find_many (is_thanks_payable db org e.id run.month run.year) db.green_thanks ≡ []

  -- The employee's instalments are read from the tables that marking them changes, incentives and
  -- green thanks from tables that it leaves.
  NothingDue-mark_due :
      (now entry : ℕ) (due : Due) (e : Employee) (db : Db)
      → let db' = mark_emi_deducted now due.loan.schedule_ids entry db in
        let paid = mark_incentive_deducted due.incentive.ledger_ids entry db in
        let thanked = mark_green_thanks_paid due.green_thanks.green_thanks_ids db in
        find_many (is_due db' org e.id run.month run.year) db'.emis ≡ []
        → find_many (is_incentive_payable paid org e.id run.month run.year) paid.incentives ≡ []
        → find_many (is_thanks_payable thanked org e.id run.month run.year) thanked.green_thanks
          ≡ []
        → NothingDue e (mark_due now entry due db)
  unfolding mark_due mark_incentive_deducted mark_green_thanks_paid
  NothingDue-mark_due now entry due e db no_emis no_incentives no_thanks =
      let before = sym (mark_emi_deducted_frame now due.loan.schedule_ids entry db) in
      record {
        no_emis = no_emis;
        no_incentives =
            subst {A = Db}
              (λ d.
                find_many (is_incentive_payable d org e.id run.month run.year)
                  (mark_incentive_deducted due.incentive.ledger_ids entry d).incentives
                ≡ [])
              before no_incentives;
        no_thanks =
            subst {A = Db}
              (λ d.
                find_many (is_thanks_payable d org e.id run.month run.year)
                  (mark_green_thanks_paid due.green_thanks.green_thanks_ids d).green_thanks
                ≡ [])
              before no_thanks;
      }

  pub mark_due-NothingDue :
      (now entry : ℕ) (e : Employee) (db : Db)
      → NothingDue e (mark_due now entry (due_for org run e db) db)
  mark_due-NothingDue now entry e db =
      NothingDue-mark_due now entry (due_for org run e db) e db
        (mark_emi_deducted-none now org e.id run.month run.year entry db)
        (mark_incentive_deducted-none org e.id run.month run.year entry db)
        (mark_green_thanks_paid-none org e.id run.month run.year db)

  pub mark_due-keeps :
      (now entry : ℕ) (due : Due) (e : Employee) (db : Db)
      → NothingDue e db
      → NothingDue e (mark_due now entry due db)
  mark_due-keeps now entry due e db h =
      NothingDue-mark_due now entry due e db
        (mark_emi_deducted-stays now org e.id run.month run.year entry due.loan.schedule_ids db
          h.no_emis)
        (mark_incentive_deducted-stays org e.id run.month run.year entry due.incentive.ledger_ids db
          h.no_incentives)
        (mark_green_thanks_paid-stays org e.id run.month run.year due.green_thanks.green_thanks_ids
          db h.no_thanks)
