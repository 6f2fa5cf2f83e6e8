-- ===== src/Payroll/Processing/Once.antt =====
-- Processing a run again: `processRun` adds to an entry only what it has not paid before.
use igreen_backend.Base.{
  ℕ, ◌+◌, ◌≡◌, ◌≢◌, refl, sym, ap, ◌∙◌, subst, inl, inr, true, false, some, List, [], ◌∷◌, arith,
  ◌*◌, Option-cases, All,
}
use igreen_backend.Base.Int.{pos, add_zero}
use igreen_backend.Base.Calendar.{Clock, Zone}
use igreen_backend.Store.Table.{find_first, update_unique, create, find_first-true, IsKeyed}
use igreen_backend.Store.Table.Selection.{
  update_unique-fixed, find_first-update_unique, find_first-update_other, find_first-create_found,
  find_first-create_new,
}
use igreen_backend.Store.Staff.{Employee}
use igreen_backend.Store.Payroll.{PayrollRun, PayrollEntry}
use igreen_backend.Store.Db.{Db}
use igreen_backend.Loans.Service.Deduction.{get_active_loan_deduction_for_period}
use igreen_backend.Loans.Service.Deduction.Closing.{mark_emi_deducted_frame}
use igreen_backend.Loans.Service.Deduction.Once.{mark_emi_deducted-nil}
use igreen_backend.Incentives.{get_released_incentive_for_period, mark_incentive_deducted}
use igreen_backend.Incentives.Payout.{mark_incentive_deducted-nil}
use igreen_backend.GreenThanks.{
  inr_per_point_of, get_approved_green_thanks_for_period, mark_green_thanks_paid,
}
use igreen_backend.GreenThanks.Payout.{mark_green_thanks_paid-nil}
use igreen_backend.Payroll.Entry.{
  is_entry_of, blank_entry, Extras, Due, due_for, accumulated, computed_entry, mark_due,
  process_employee, process_each,
}
use igreen_backend.Payroll.Calculation.{compute_gross}
use igreen_backend.Payroll.Processing.{NothingDue, mark_due-NothingDue, mark_due-keeps}

-- Marking changes the tables of what is marked, and loans.
pub mark_due_frame :
    (now entry : ℕ) (due : Due) (db : Db)
    → let db' = mark_due now entry due db in
      db' ≡ record db {
        emis = db'.emis;
        loans = db'.loans;
        incentives = db'.incentives;
        green_thanks = db'.green_thanks;
      }
unfolding mark_due mark_incentive_deducted mark_green_thanks_paid
mark_due_frame now entry due db =
    let db' = mark_due now entry due db in
    ap {A = Db} {B = Db}
      (λ d. record d {
        emis = db'.emis;
        loans = db'.loans;
        incentives = db'.incentives;
        green_thanks = db'.green_thanks;
      })
      (mark_emi_deducted_frame now due.loan.schedule_ids entry db)

-- Nothing is marked when no identifiers are given.
mark_due-nil :
    (now entry : ℕ) (due : Due) (db : Db)
    → due.incentive.ledger_ids ≡ []
    → due.green_thanks.green_thanks_ids ≡ []
    → due.loan.schedule_ids ≡ []
    → mark_due now entry due db ≡ db
unfolding mark_due
mark_due-nil now entry due db h k l =
    rw (h, k, l)
      (rw
        (
          mark_emi_deducted-nil now entry db,
          mark_incentive_deducted-nil entry db,
          mark_green_thanks_paid-nil db,
        )
        refl)

-- A round keeps the employees and the runs.
process_employee_keeps :
    (zone : Zone) (clock : Clock) (org : ℕ) (run : PayrollRun) (e : Employee) (db : Db)
    → let db' = process_employee zone clock org run e db in
      (db'.employees ≡ db.employees) × (db'.payroll_runs ≡ db.payroll_runs)
unfolding process_employee
process_employee_keeps zone clock org run e db =
    let due = due_for org run e db in
    elim (Option-cases (find_first (is_entry_of run.id e.id) db.payroll_entries)) [
      | inl e0 ↦
          let d = mark_due_frame clock.now db.next_id due _ in
          rw (e0, process_employee) (ap (λ d. d.employees) d, ap (λ d. d.payroll_runs) d)
      | inr (x, e1) ↦
          let d = mark_due_frame clock.now x.id due _ in
          rw (e1, process_employee) (ap (λ d. d.employees) d, ap (λ d. d.payroll_runs) d)
    ]

pub process_each_keeps :
    (zone : Zone) (clock : Clock) (org : ℕ) (run : PayrollRun) (es : List Employee) (db : Db)
    → let db' = process_each zone clock org run es db in
      (db'.employees ≡ db.employees) × (db'.payroll_runs ≡ db.payroll_runs)
unfolding process_each
process_each_keeps zone clock org run [] db = (refl, refl)
process_each_keeps zone clock org run (e ∷ es) db =
    let (employees, runs) = process_employee_keeps zone clock org run e db in
    let (later_employees, later_runs) =
      process_each_keeps zone clock org run es (process_employee zone clock org run e db) in
    (later_employees ∙ employees, later_runs ∙ runs)

module _ (zone : Zone) (org : ℕ) (run : PayrollRun) where
  -- The amounts of an entry that later rounds add to.
  abbrev pub extras_of : PayrollEntry → Extras
  extras_of x = record {
    incentive = x.incentive_amount;
    green_thanks = x.green_thanks_amount;
    loan = x.loan_deduction;
  }

  -- The employee has an entry, it is what a computation gives, and nothing more is due.
  pub record Settled (e : Employee) (db : Db) : Type 0 where
    pub row : PayrollEntry
    pub found : find_first (is_entry_of run.id e.id) db.payroll_entries ≡ some row
    pub fixed : computed_entry zone db run e (extras_of row) row ≡ row
    pub nothing : NothingDue org run e db

  computed_entry_again :
      (db : Db) (e : Employee) (extras : Extras) (x : PayrollEntry)
      → let row = computed_entry zone db run e extras x in
        computed_entry zone db run e (extras_of row) row ≡ row
  unfolding computed_entry compute_gross
  computed_entry_again db e extras x = refl

  due_for-NothingDue :
      (e : Employee) (db : Db)
      → NothingDue org run e db
      → due_for org run e db ≡ record {
        incentive = record { total_incentive = pos 0; ledger_ids = [] };
        green_thanks = record { total_amount = pos 0; green_thanks_ids = [] };
        loan = record { total_emi = pos 0; schedule_ids = [] };
      }
  unfolding get_released_incentive_for_period get_approved_green_thanks_for_period
      get_active_loan_deduction_for_period
  due_for-NothingDue e db h =
      let no_points : 0 * inr_per_point_of db org ≡ 0 = omega arith in
      rw (h.no_emis, h.no_incentives, h.no_thanks)
        (ap {B = Due}
          (λ n. record {
            incentive = record { total_incentive = pos 0; ledger_ids = [] };
            green_thanks = record { total_amount = pos n; green_thanks_ids = [] };
            loan = record { total_emi = pos 0; schedule_ids = [] };
          })
          no_points)

  accumulated-NothingDue :
      (e : Employee) (db : Db) (x : PayrollEntry)
      → NothingDue org run e db
      → accumulated x (due_for org run e db) ≡ extras_of x
  accumulated-NothingDue e db x h =
      ap (λ due. accumulated x due) (due_for-NothingDue e db h)
      ∙ rw (add_zero x.incentive_amount, add_zero x.green_thanks_amount, add_zero x.loan_deduction)
          refl

  mark_due-NothingDue_nil :
      (now entry : ℕ) (e : Employee) (db d : Db)
      → NothingDue org run e db
      → mark_due now entry (due_for org run e db) d ≡ d
  mark_due-NothingDue_nil now entry e db d h =
      let nil = due_for-NothingDue e db h in
      mark_due-nil now entry (due_for org run e db) d (ap (λ due. due.incentive.ledger_ids) nil)
        (ap (λ due. due.green_thanks.green_thanks_ids) nil) (ap (λ due. due.loan.schedule_ids) nil)

  -- What a round has computed stays so when the round marks, and the round's employee is settled.
  mark_due-Settled :
      (now entry : ℕ) (e : Employee) (db : Db) (row : PayrollEntry)
      → find_first (is_entry_of run.id e.id) db.payroll_entries ≡ some row
      → computed_entry zone db run e (extras_of row) row ≡ row
      → (due : Due) → NothingDue org run e (mark_due now entry due db)
      → Settled e (mark_due now entry due db)
  unfolding computed_entry
  mark_due-Settled now entry e db row found fixed due nothing =
      let frame = sym (mark_due_frame now entry due db) in
      record {
        row = row;
        found =
            subst {A = Db} (λ d. find_first (is_entry_of run.id e.id) d.payroll_entries ≡ some row)
              frame found;
        fixed =
            subst {A = Db} (λ d. computed_entry zone d run e (extras_of row) row ≡ row) frame fixed;
        nothing = nothing;
      }

  pub made_is_entry_of :
      (db : Db) (e : Employee) (extras : Extras)
      → let blank = blank_entry db.next_id run.id e.id in
        is_entry_of run.id e.id (computed_entry zone db run e extras blank) ≡ true
  unfolding computed_entry
  made_is_entry_of db e extras = ground arith

  -- A computed entry keeps its employee, so the entries of two employees differ.
  entries_apart :
      (e e' : Employee) (db : Db) (extras : Extras)
      → e'.id ≢ e.id
      → (x : PayrollEntry) → is_entry_of run.id e'.id x ≡ true
      → (is_entry_of run.id e.id x ≡ false)
        × (is_entry_of run.id e.id (computed_entry zone db run e' extras x) ≡ false)
  unfolding computed_entry
  entries_apart e e' db extras other x h = ground arith

  -- What was due before an entry was written is what is due after.
  mark_due-NothingDue_written :
      (now entry next : ℕ) (entries : List PayrollEntry) (e : Employee) (db : Db)
      → NothingDue org run e (
          mark_due now entry
            (due_for org run e db)
            (record db { next_id = next; payroll_entries = entries }))
  unfolding get_released_incentive_for_period get_approved_green_thanks_for_period
      get_active_loan_deduction_for_period
  mark_due-NothingDue_written now entry next entries e db =
      mark_due-NothingDue org run now entry e
        (record db { next_id = next; payroll_entries = entries })

  process_employee-Settled :
      (clock : Clock) (e : Employee) (db : Db)
      → Settled e (process_employee zone clock org run e db)
  unfolding process_employee
  process_employee-Settled clock e db =
      let due = due_for org run e db in
      elim (Option-cases (find_first (is_entry_of run.id e.id) db.payroll_entries)) [
        | inl e0 ↦
            let blank = blank_entry db.next_id run.id e.id in
            let row = computed_entry zone db run e (accumulated blank due) blank in
            let d : Db = record db {
              next_id = db.next_id + 1;
              payroll_entries = create row db.payroll_entries;
            } in
            rw (e0, process_employee)
              (mark_due-Settled clock.now db.next_id e d row
                (find_first-create_new (is_entry_of run.id e.id) row db.payroll_entries e0
                  (made_is_entry_of db e (accumulated blank due)))
                (computed_entry_again db e (accumulated blank due) blank) due
                (mark_due-NothingDue_written clock.now db.next_id d.next_id d.payroll_entries e db))
        | inr (x, e1) ↦
            let row = computed_entry zone db run e (accumulated x due) x in
            let d : Db = record db {
              payroll_entries =
                  update_unique (is_entry_of run.id e.id)
                    (computed_entry zone db run e (accumulated x due)) db.payroll_entries;
            } in
            rw (e1, process_employee)
              (mark_due-Settled clock.now x.id e d row
                (find_first-update_unique (is_entry_of run.id e.id)
                  (computed_entry zone db run e (accumulated x due)) x
                  (find_first-true (is_entry_of run.id e.id) db.payroll_entries x e1)
                  db.payroll_entries e1)
                (computed_entry_again db e (accumulated x due) x) due
                (mark_due-NothingDue_written clock.now x.id db.next_id d.payroll_entries e db))
      ]

  pub process_employee_fixed :
      (clock : Clock) (e : Employee) (db : Db)
      → Settled e db
      → process_employee zone clock org run e db ≡ db
  unfolding process_employee
  process_employee_fixed clock e db h =
      let due = due_for org run e db in
      let same : computed_entry zone db run e (accumulated h.row due) h.row ≡ h.row =
        ap (λ extras. computed_entry zone db run e extras h.row)
          (accumulated-NothingDue e db h.row h.nothing)
        ∙ h.fixed in
      rw (h.found, process_employee)
        (mark_due-NothingDue_nil clock.now h.row.id e db _ h.nothing
          ∙ ap {A = List PayrollEntry} {B = Db} (λ entries. record db { payroll_entries = entries })
              (update_unique-fixed (is_entry_of run.id e.id)
                (computed_entry zone db run e (accumulated h.row due)) h.row same db.payroll_entries
                h.found))

  process_employee-keeps :
      (clock : Clock) (e e' : Employee) (db : Db)
      → e'.id ≢ e.id
      → Settled e db
      → Settled e (process_employee zone clock org run e' db)
  unfolding process_employee
  process_employee-keeps clock e e' db other h =
      let due = due_for org run e' db in
      elim (Option-cases (find_first (is_entry_of run.id e'.id) db.payroll_entries)) [
        | inl e0 ↦
            let blank = blank_entry db.next_id run.id e'.id in
            let made = computed_entry zone db run e' (accumulated blank due) blank in
            let d : Db = record db {
              next_id = db.next_id + 1;
              payroll_entries = create made db.payroll_entries;
            } in
            rw (e0, process_employee)
              (mark_due-Settled clock.now db.next_id e d h.row
                (find_first-create_found (is_entry_of run.id e.id) made h.row db.payroll_entries
                  h.found)
                h.fixed due
                (mark_due-keeps org run clock.now db.next_id due e d (record {
                  no_emis = h.nothing.no_emis;
                  no_incentives = h.nothing.no_incentives;
                  no_thanks = h.nothing.no_thanks;
                })))
        | inr (x, e1) ↦
            let change = computed_entry zone db run e' (accumulated x due) in
            let d : Db = record db {
              payroll_entries = update_unique (is_entry_of run.id e'.id) change db.payroll_entries;
            } in
            rw (e1, process_employee)
              (mark_due-Settled clock.now x.id e d h.row
                (find_first-update_other (is_entry_of run.id e.id) (is_entry_of run.id e'.id) change
                    (entries_apart e e' db (accumulated x due) other) db.payroll_entries
                  ∙ h.found)
                h.fixed due
                (mark_due-keeps org run clock.now x.id due e d (record {
                  no_emis = h.nothing.no_emis;
                  no_incentives = h.nothing.no_incentives;
                  no_thanks = h.nothing.no_thanks;
                })))
      ]

  -- Every employee of a list is settled.
  abbrev pub AllSettled : List Employee → Db → Type 0
  AllSettled es db = All (λ e. Settled e db) es

  process_each-keeps :
      (clock : Clock) (e : Employee) (es : List Employee) (db : Db)
      → All (λ (x : Employee). e.id ≢ x.id) es
      → Settled e db
      → Settled e (process_each zone clock org run es db)
  unfolding process_each
  process_each-keeps clock e [] db apart h = h
  process_each-keeps clock e (x ∷ es) db apart h =
      process_each-keeps clock e es (process_employee zone clock org run x db) apart.1
        (process_employee-keeps clock e x db (λ same. apart.0 (sym same)) h)

  pub process_each-Settled :
      (clock : Clock) (es : List Employee) (db : Db)
      → IsKeyed (λ (x : Employee). x.id) es
      → AllSettled es (process_each zone clock org run es db)
  unfolding process_each
  process_each-Settled clock [] db keyed = tt
  process_each-Settled clock (e ∷ es) db keyed =
      let d = process_employee zone clock org run e db in
      (
        process_each-keeps clock e es d keyed.0 (process_employee-Settled clock e db),
        process_each-Settled clock es d keyed.1,
      )

  pub process_each_fixed :
      (clock : Clock) (es : List Employee) (db : Db)
      → AllSettled es db
      → process_each zone clock org run es db ≡ db
  unfolding process_each
  process_each_fixed clock [] db h = refl
  process_each_fixed clock (e ∷ es) db h =
      ap (λ d. process_each zone clock org run es d) (process_employee_fixed clock e db h.0)
      ∙ process_each_fixed clock es db h.1
