-- ===== src/GreenThanks/Points.antt =====
-- Sums of points under the calls that change green thanks, and what those calls do.
use igreen_backend.Base.{
  ℕ, ◌+◌, ◌≤◌, ◌≡◌, ◌⊎◌, Bool, true, false, none, some, List, [], ◌∷◌, arith, ◌==◌, All, get_or,
}
use igreen_backend.Base.Calendar.{Clock, Zone}
use igreen_backend.Store.Table.{find_first, update_where, create}
use igreen_backend.Store.Payroll.{GreenThanks, GreenThanksStatus}
use igreen_backend.Store.Db.{Db, RequestingUser}
use igreen_backend.GreenThanks.{
  CreateGreenThanksDto, ApproveGreenThanksDto, limit_of, quarter_start, quarter_end, counts_towards,
  sum_points, new_green_thanks, create_green_thanks, is_green_thanks_of, decided_as, approve,
}

pub sum_points-update_where :
    (p q : GreenThanks → Bool) (f : GreenThanks → GreenThanks) (xs : List GreenThanks)
    → All
        (λ (x : GreenThanks).
          q x ≡ true → ((f x).points ≡ x.points) × (p (f x) ≡ true → p x ≡ true))
        xs
    → sum_points p (update_where q f xs) ≤ sum_points p xs
sum_points-update_where p q f [] h = omega arith
sum_points-update_where p q f (x ∷ xs) h = ground (arith, h.0, sum_points-update_where p q f xs h.1)

pub sum_points-create :
    (p : GreenThanks → Bool) (a : GreenThanks) (xs : List GreenThanks)
    → sum_points p (create a xs) ≤ sum_points p xs + a.points
sum_points-create p a [] = ground arith
sum_points-create p a (x ∷ xs) = ground (arith, sum_points-create p a xs)

pub sum_points-create_other :
    (p : GreenThanks → Bool) (a : GreenThanks) (xs : List GreenThanks)
    → p a ≡ false
    → sum_points p (create a xs) ≡ sum_points p xs
sum_points-create_other p a [] h = ground arith
sum_points-create_other p a (x ∷ xs) h = ground (arith, sum_points-create_other p a xs h)

-- What a call that sends points does.
pub create_effect :
    (zone : Zone) (clock : Clock) (org : ℕ) (user : RequestingUser) (dto : CreateGreenThanksDto)
    (db : Db)
    → let db' = (create_green_thanks zone clock org user dto db).1 in
      let from = get_or user.employee_id 0 in
      (db' ≡ db)
      ⊎ ((sum_points
                (counts_towards (quarter_start zone clock) (quarter_end zone clock) from)
                db.green_thanks
              + dto.points
            ≤ limit_of db org)
          × (db' ≡ record db {
            next_id = db.next_id + 1;
            green_thanks = create (new_green_thanks db.next_id clock.now from dto) db.green_thanks;
          }))
unfolding create_green_thanks
create_effect zone clock org user dto db = ground arith

pub approve_effect :
    (clock : Clock) (org user_id : ℕ) (user : RequestingUser) (id : ℕ) (dto : ApproveGreenThanksDto)
    (db : Db) (g : GreenThanks)
    → find_first (is_green_thanks_of db org id) db.green_thanks ≡ some g
    → let db' = (approve clock org user_id user id dto db).1 in
      (db' ≡ db)
      ⊎ ((g.status ≡ GreenThanksStatus.pending)
          × (db' ≡ record db {
            green_thanks =
                update_where
                  (λ (x : GreenThanks). x.id == id)
                  (decided_as clock user_id dto)
                  db.green_thanks;
          }))
unfolding approve
approve_effect clock org user_id user id dto db g h = ground arith

pub approve_miss :
    (clock : Clock) (org user_id : ℕ) (user : RequestingUser) (id : ℕ) (dto : ApproveGreenThanksDto)
    (db : Db)
    → find_first (is_green_thanks_of db org id) db.green_thanks ≡ none
    → (approve clock org user_id user id dto db).1 ≡ db
unfolding approve
approve_miss clock org user_id user id dto db h = ground arith
