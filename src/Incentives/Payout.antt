-- ===== src/Incentives/Payout.antt =====
-- What a period pays of incentives is paid once.
use igreen_backend.Base.{ℕ, ◌≡◌, refl, List, [], arith, ap, map, elem}
use igreen_backend.Store.Table.{find_many, selected-elem, find_many-update_where}
use igreen_backend.Store.Table.Selection.{find_many-stays, update_where-none}
use igreen_backend.Store.Payroll.{IncentiveLedger}
use igreen_backend.Store.Db.{Db}
use igreen_backend.Incentives.{
  is_payable, get_released_incentive_for_period, incentive_deducted, mark_incentive_deducted,
}

-- Nothing is left to pay once what is to be paid is marked.
pub mark_incentive_deducted-none :
    (org employee month year entry : ℕ) (db : Db)
    → let due = get_released_incentive_for_period db org employee month year in
      let db' = mark_incentive_deducted due.ledger_ids entry db in
      find_many (is_payable db' org employee month year) db'.incentives ≡ []
unfolding get_released_incentive_for_period mark_incentive_deducted
mark_incentive_deducted-none org employee month year entry db =
    let p = is_payable db org employee month year in
    let ids = map (λ (r : IncentiveLedger). r.id) (find_many p db.incentives) in
    find_many-update_where p (λ r. elem r.id ids) p (incentive_deducted entry) db.incentives
      (selected-elem (λ r. r.id) p db.incentives) (λ r h. h) (λ r. ground arith)

-- What is not to be paid is not made so by marking.
pub mark_incentive_deducted-stays :
    (org employee month year entry : ℕ) (ids : List ℕ) (db : Db)
    → find_many (is_payable db org employee month year) db.incentives ≡ []
    → let db' = mark_incentive_deducted ids entry db in
      find_many (is_payable db' org employee month year) db'.incentives ≡ []
unfolding mark_incentive_deducted
mark_incentive_deducted-stays org employee month year entry ids db =
    let p = is_payable db org employee month year in
    find_many-stays p (λ r. elem r.id ids) p (incentive_deducted entry) (λ r h. h)
      (λ r. ground arith) db.incentives

-- Marking none does nothing.
pub mark_incentive_deducted-nil : (entry : ℕ) (db : Db) → mark_incentive_deducted [] entry db ≡ db
unfolding mark_incentive_deducted
mark_incentive_deducted-nil entry db =
    ap {A = List IncentiveLedger} {B = Db} (λ rows. record db { incentives = rows })
      (update_where-none (λ r. elem r.id []) (incentive_deducted entry) (λ _. refl) db.incentives)
