-- ===== src/Payroll/Processing/Run.antt =====
-- `processRun` called twice for a run.
use igreen_backend.Base.{
  ℕ, ◌≡◌, refl, sym, ap, subst, inl, inr, true, Option, none, some, List, arith, ◌==◌, Option-cases,
  All-map,
}
use igreen_backend.Base.Calendar.{Clock, Zone}
use igreen_backend.Store.Table.{
  find_first, find_many, update_where, IsKeyed, find_first-true, find_first-update_found,
  IsKeyed-update_where,
}
use igreen_backend.Store.Table.Selection.{IsKeyed-find_many}
use igreen_backend.Store.Staff.{Employee}
use igreen_backend.Store.Payroll.{PayrollRun, processing}
use igreen_backend.Store.Db.{Db, ok}
use igreen_backend.Payroll.{
  is_paid_in, is_run_of, with_run_status, completed_at, update_run, process_run, get_run_or_throw,
}
use igreen_backend.Payroll.Entry.{computed_entry, process_each}
use igreen_backend.Payroll.Processing.Once.{
  Settled, AllSettled, process_each_keeps, process_each-Settled, process_each_fixed,
}

module _ (zone : Zone) (org : ℕ) (run_id : ℕ) (ids : Option (List ℕ)) where
  abbrev pub paid : Db → List Employee
  paid db = find_many (is_paid_in org ids) db.employees

  abbrev pub processed : Clock → PayrollRun → Db → Db
  processed clock run db = update_run run_id (completed_at clock.now) (
      process_each zone clock org run (paid db) (update_run run_id (with_run_status processing) db))

  pub process_run-found :
      (clock : Clock) (db : Db) (run : PayrollRun)
      → find_first (is_run_of org run_id) db.payroll_runs ≡ some run
      → process_run zone clock org run_id ids db
        ≡ (ok (completed_at clock.now run), processed clock run db)
  unfolding process_run get_run_or_throw
  process_run-found clock db run h = ground arith

  pub process_run-missing :
      (clock : Clock) (db : Db)
      → find_first (is_run_of org run_id) db.payroll_runs ≡ none
      → (process_run zone clock org run_id ids db).1 ≡ db
  unfolding process_run get_run_or_throw
  process_run-missing clock db h = ground arith

  abbrev completed_run : Clock → PayrollRun → PayrollRun
  completed_run clock run = completed_at clock.now (with_run_status processing run)

  -- The run is found again after it has been processed.
  processed_found :
      (clock : Clock) (db : Db) (run : PayrollRun)
      → IsKeyed (λ (r : PayrollRun). r.id) db.payroll_runs
      → find_first (is_run_of org run_id) db.payroll_runs ≡ some run
      → find_first (is_run_of org run_id) (processed clock run db).payroll_runs
        ≡ some (completed_run clock run)
  processed_found clock db run keyed h =
      let key = λ (r : PayrollRun). r.id in
      let p = is_run_of org run_id in
      let start = update_run run_id (with_run_status processing) db in
      let (employees, runs) = process_each_keeps zone clock org run (paid db) start in
      let here : run.id ≡ run_id = ground (arith, find_first-true p db.payroll_runs run h) in
      let ours : p run ≡ true = find_first-true p db.payroll_runs run h in
      let started : find_first p start.payroll_runs ≡ some (with_run_status processing run) =
        subst
          (λ i.
            find_first p
              (update_where (λ r. r.id == i) (with_run_status processing) db.payroll_runs)
            ≡ some (with_run_status processing run))
          here
          (find_first-update_found key p (with_run_status processing) db.payroll_runs run keyed h
            ours) in
      rw runs (
        subst
          (λ i.
            find_first p (update_where (λ r. r.id == i) (completed_at clock.now) start.payroll_runs)
            ≡ some (completed_run clock run))
          here
          (find_first-update_found key p (completed_at clock.now) start.payroll_runs
            (with_run_status processing run)
            (IsKeyed-update_where key (λ r. r.id == run_id) (with_run_status processing)
              (λ x _. refl) db.payroll_runs keyed)
            started ours))

  -- Being settled does not depend on the state of the runs.
  Settled-status :
      (run : PayrollRun) (now : ℕ) (es : List Employee) (db d : Db)
      → d ≡ record db { payroll_runs = d.payroll_runs }
      → AllSettled zone org run es db
      → AllSettled zone org (completed_at now (with_run_status processing run)) es d
  unfolding computed_entry
  Settled-status run now es db d same h =
      All-map (λ e. Settled zone org run e db)
        (λ e. Settled zone org (completed_at now (with_run_status processing run)) e d)
        (λ e s.
          subst {A = Db}
            (λ x. Settled zone org (completed_at now (with_run_status processing run)) e x)
            (sym same)
            (record {
              row = s.row;
              found = s.found;
              fixed = s.fixed;
              nothing = record {
                no_emis = s.nothing.no_emis;
                no_incentives = s.nothing.no_incentives;
                no_thanks = s.nothing.no_thanks;
              };
            }))
        es h

  -- With distinct identifiers of employees and of runs, processing a run a second time for the same
  -- choice of employees, at any time, changes nothing but the rows of the runs: no entry, no
  -- instalment, no loan, no incentive, no green thanks.
  pub process_run-again :
      (first second : Clock) (db : Db)
      → IsKeyed (λ (e : Employee). e.id) db.employees
      → IsKeyed (λ (r : PayrollRun). r.id) db.payroll_runs
      → let once = (process_run zone first org run_id ids db).1 in
        let twice = (process_run zone second org run_id ids once).1 in
        twice ≡ record once { payroll_runs = twice.payroll_runs }
  process_run-again first second db keyed keyed_runs =
      elim (Option-cases (find_first (is_run_of org run_id) db.payroll_runs)) [
        | inl e0 ↦ rw (process_run-missing first db e0) (rw (process_run-missing second db e0) refl)
        | inr (run, e1) ↦
            let key = λ (e : Employee). e.id in
            let once = processed first run db in
            let run' = completed_run first run in
            let start = update_run run_id (with_run_status processing) db in
            let start' = update_run run_id (with_run_status processing) once in
            let (employees, runs) = process_each_keeps zone first org run (paid db) start in
            let same_paid : paid once ≡ paid db = ap (find_many (is_paid_in org ids)) employees in
            let settled : AllSettled zone org run' (paid once) start' = rw same_paid (
              Settled-status run first.now (paid db)
                (process_each zone first org run (paid db) start) start' refl
                (process_each-Settled zone org run first (paid db) start
                  (IsKeyed-find_many key (is_paid_in org ids) db.employees keyed))) in
            let unchanged = process_each_fixed zone org run' second (paid once) start' settled in
            rw (process_run-found first db run e1) (
              rw (process_run-found second once run' (processed_found first db run keyed_runs e1))
                (rw unchanged refl))
      ]
