-- ===== src/Payroll/Processing/Initiation.antt =====
-- `initiateRun`: a month has one run.
use igreen_backend.Base.{
  ℕ, ◌+◌, ◌≡◌, refl, sym, ap, ◌∙◌, inl, inr, Option, List, [], ◌∷◌, arith, Option-cases, true, ◌==◌,
  is_some, Bool,
}
use igreen_backend.Base.Calendar.{Clock, Zone}
use igreen_backend.Store.Table.{find_first, find_many, update_where, create}
use igreen_backend.Store.Table.Selection.{find_first-create_new}
use igreen_backend.Store.Payroll.{PayrollRun, processing}
use igreen_backend.Store.Db.{Db, err, Result-cases, conflict}
use igreen_backend.Payroll.{
  InitiatePayrollRunDto, is_paid_in, is_run_of, is_run_in, new_run, with_run_status, completed_at,
  update_run, process_run, initiate_run, find_one_run, get_run_or_throw,
}
use igreen_backend.Payroll.Processing.Once.{process_each_keeps}
use igreen_backend.Payroll.Processing.Run.{process_run-found, process_run-missing}

-- Updates that keep a condition keep that it is met.
is_some-update_where :
    {A : Type 0} (p q : A → Bool) (f : A → A)
    → ((x : A) → p (f x) ≡ p x)
    → (xs : List A) → is_some (find_first p (update_where q f xs)) ≡ is_some (find_first p xs)
is_some-update_where p q f k [] = refl
is_some-update_where p q f k (x ∷ xs) = ground (arith, k x, is_some-update_where p q f k xs)

module _ (zone : Zone) (org month year : ℕ) where
  abbrev HasRun : Db → Type 0
  HasRun db = is_some (find_first (is_run_in org month year) db.payroll_runs) ≡ true

  process_run-HasRun :
      (clock : Clock) (org' id : ℕ) (ids : Option (List ℕ)) (db : Db)
      → HasRun db
      → HasRun (process_run zone clock org' id ids db).1
  process_run-HasRun clock org' id ids db h =
      elim (Option-cases (find_first (is_run_of org' id) db.payroll_runs)) [
        | inl e0 ↦ rw (process_run-missing zone org' id ids clock db e0) h
        | inr (run, e1) ↦
            let p = is_run_in org month year in
            let q = λ (r : PayrollRun). r.id == id in
            let start = update_run id (with_run_status processing) db in
            let paid = find_many (is_paid_in org' ids) db.employees in
            let (employees, runs) = process_each_keeps zone clock org' run paid start in
            rw (process_run-found zone org' id ids clock db run e1) (
              rw runs (
                is_some-update_where p q (completed_at clock.now) (λ _. refl) start.payroll_runs
                ∙ is_some-update_where p q (with_run_status processing) (λ _. refl) db.payroll_runs
                ∙ h))
      ]

  initiate_run-refused :
      (clock : Clock) (user : ℕ) (dto : InitiatePayrollRunDto) (db : Db)
      → dto.month ≡ month
      → dto.year ≡ year
      → HasRun db
      → initiate_run zone clock org user dto db
        ≡ (err (conflict "A payroll run for … already exists for this organization"), db)
  unfolding initiate_run
  initiate_run-refused clock user dto db m y h =
      let mine : is_some (find_first (is_run_in org dto.month dto.year) db.payroll_runs) ≡ true =
        rw (m, y) h in
      rw (mine, initiate_run) refl

  initiate_run-HasRun :
      (clock : Clock) (user : ℕ) (dto : InitiatePayrollRunDto) (db : Db)
      → dto.month ≡ month
      → dto.year ≡ year
      → HasRun (initiate_run zone clock org user dto db).1
  unfolding initiate_run find_one_run get_run_or_throw
  initiate_run-HasRun clock user dto db m y =
      let p = is_run_in org dto.month dto.year in
      elim (Option-cases (find_first p db.payroll_runs)) [
        | inr (run, e1) ↦ ground arith
        | inl e0 ↦
            let run = new_run db.next_id org user dto in
            let made : Db = record db {
              next_id = db.next_id + 1;
              payroll_runs = create run db.payroll_runs;
            } in
            let has = process_run-HasRun clock org db.next_id dto.employee_ids made (
              ap is_some (
                find_first-create_new (is_run_in org month year) run db.payroll_runs
                  (rw (sym m, sym y) e0) (ground arith))) in
            elim (Result-cases (process_run zone clock org db.next_id dto.employee_ids made).0) [
              | inl (r, s) ↦ ground (arith, has)
              | inr (x, s) ↦ ground (arith, has)
            ]
      ]

-- After a call for a month, whether it succeeded or not, every later call for the same month is
-- refused as a conflict and changes nothing.
pub initiate_run-again :
    (zone : Zone) (first second : Clock) (org user user' : ℕ) (dto dto' : InitiatePayrollRunDto)
    (db : Db)
    → dto'.month ≡ dto.month
    → dto'.year ≡ dto.year
    → let db' = (initiate_run zone first org user dto db).1 in
      initiate_run zone second org user' dto' db'
      ≡ (err (conflict "A payroll run for … already exists for this organization"), db')
initiate_run-again zone first second org user user' dto dto' db m y =
    initiate_run-refused zone org dto.month dto.year second user' dto' _ m y
      (initiate_run-HasRun zone org dto.month dto.year first user dto db refl refl)
