-- ===== src/GreenThanks/Payout.antt =====
-- What a period pays of green thanks is paid once.
use igreen_backend.Base.{ℕ, ◌≡◌, refl, List, [], arith, ap, map, elem}
use igreen_backend.Store.Table.{find_many, selected-elem, find_many-update_where}
use igreen_backend.Store.Table.Selection.{find_many-stays, update_where-none}
use igreen_backend.Store.Payroll.{GreenThanks}
use igreen_backend.Store.Db.{Db}
use igreen_backend.GreenThanks.{
  is_payable, get_approved_green_thanks_for_period, green_thanks_paid, mark_green_thanks_paid,
}

-- Nothing is left to pay once what is to be paid is marked.
pub mark_green_thanks_paid-none :
    (org employee month year : ℕ) (db : Db)
    → let due = get_approved_green_thanks_for_period db org employee month year in
      let db' = mark_green_thanks_paid due.green_thanks_ids db in
      find_many (is_payable db' org employee month year) db'.green_thanks ≡ []
unfolding get_approved_green_thanks_for_period mark_green_thanks_paid
mark_green_thanks_paid-none org employee month year db =
    let p = is_payable db org employee month year in
    let ids = map (λ (r : GreenThanks). r.id) (find_many p db.green_thanks) in
    find_many-update_where p (λ r. elem r.id ids) p (green_thanks_paid) db.green_thanks
      (selected-elem (λ r. r.id) p db.green_thanks) (λ r h. h) (λ r. ground arith)

-- What is not to be paid is not made so by marking.
pub mark_green_thanks_paid-stays :
    (org employee month year : ℕ) (ids : List ℕ) (db : Db)
    → find_many (is_payable db org employee month year) db.green_thanks ≡ []
    → let db' = mark_green_thanks_paid ids db in
      find_many (is_payable db' org employee month year) db'.green_thanks ≡ []
unfolding mark_green_thanks_paid
mark_green_thanks_paid-stays org employee month year ids db =
    let p = is_payable db org employee month year in
    find_many-stays p (λ r. elem r.id ids) p (green_thanks_paid) (λ r h. h) (λ r. ground arith)
      db.green_thanks

-- Marking none does nothing.
pub mark_green_thanks_paid-nil : (db : Db) → mark_green_thanks_paid [] db ≡ db
unfolding mark_green_thanks_paid
mark_green_thanks_paid-nil db =
    ap {A = List GreenThanks} {B = Db} (λ rows. record db { green_thanks = rows })
      (update_where-none (λ r. elem r.id []) (green_thanks_paid) (λ _. refl) db.green_thanks)
