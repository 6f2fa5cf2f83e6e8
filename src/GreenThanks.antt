-- ===== src/GreenThanks.antt =====
-- class GreenThanksService (src/modules/green-thanks/green-thanks.service.ts). A response is the
-- row that it is made from; amounts of rupees are in hundredths.
pub mod Config
pub mod Limit
pub mod Payout
pub mod Points
mod Tests
use igreen_backend.Base.{
  ℕ, ◌+◌, ◌*◌, ◌/◌, Bool, true, false, Option, none, some, String, List, [], ◌∷◌, map, ◌&&◌, ◌||◌,
  ◌==◌, not, ltb, leb, is_some, get_or, is_id, has_text, includes, elem, opt_matches, if◌then◌else◌,
}
use igreen_backend.Base.Int.{ℤ, pos}
use igreen_backend.Base.Calendar.{Clock, Zone}
use igreen_backend.Base.Pagination.{PaginationDto, PaginatedResult, newest_page}
use igreen_backend.Store.Table.{find_first, find_many, update_where, create}
use igreen_backend.Store.Staff.{Employee}
use igreen_backend.Store.Payroll.{
  GreenThanksStatus, green_thanks_status_eq, GreenThanks, GreenThanksConfig,
}
use igreen_backend.Store.Db.{
  Db, bad_request, forbidden, not_found, Action, pure, gets, or_throw, ◌>>=◌, ◌>>◌, throw_if,
  modify, fresh_id, RequestingUser, is_employee_of, works_in,
}
use Prim.Native.String.{◌++◌ as str_append}

-- DEFAULT_INR_PER_POINT and DEFAULT_QUARTERLY_LIMIT_POINTS
abbrev pub default_inr_per_point : ℕ
default_inr_per_point = 5000

abbrev pub default_quarterly_limit_points : ℕ
default_quarterly_limit_points = 100

pub record ApprovedGreenThanksForPeriod : Type 0 where
  pub total_amount : ℤ
  pub green_thanks_ids : List ℕ

abbrev pub can_see_all_rows : RequestingUser → Bool
can_see_all_rows user =
    includes user.permissions "leave:approve"
    || includes user.permissions "employee:read"
    || includes user.permissions "*"

abbrev pub can_approve : RequestingUser → Bool
can_approve user = includes user.permissions "leave:approve" || includes user.permissions "*"

-- The recipients, in the order of their creation.
pub list_recipients : ℕ → RequestingUser → Action (List Employee)
list_recipients organization_id user = gets (λ db.
    find_many
      (λ (e : Employee).
        e.organization_id == organization_id
        && not (is_some e.deleted_at)
        && not (is_id user.employee_id e.id))
      db.employees)

-- `where: { organizationId }`
abbrev pub is_config_of : ℕ → GreenThanksConfig → Bool
is_config_of organization_id c = c.organization_id == organization_id

-- the points of a recipient's rupee, and the limit: `getOrgConfig`
abbrev pub inr_per_point_of : Db → ℕ → ℕ
inr_per_point_of db organization_id =
    elim (find_first (is_config_of organization_id) db.green_thanks_configs) [
      | none ↦ default_inr_per_point
      | some c ↦ c.inr_per_point
    ]

abbrev pub limit_of : Db → ℕ → ℕ
limit_of db organization_id =
    elim (find_first (is_config_of organization_id) db.green_thanks_configs) [
      | none ↦ default_quarterly_limit_points
      | some c ↦ c.quarterly_limit_points
    ]

-- getCurrentQuarterRange
abbrev pub quarter_start_month : Clock → ℕ
quarter_start_month clock = clock.get_month clock.now / 3 * 3

abbrev pub quarter_start : Zone → Clock → ℕ
quarter_start zone clock =
    zone.start_of_month (clock.get_full_year clock.now) (quarter_start_month clock)

abbrev pub quarter_end : Zone → Clock → ℕ
quarter_end zone clock =
    zone.end_of_month (clock.get_full_year clock.now) (quarter_start_month clock + 2)

-- the `where` of the aggregate
abbrev pub counts_towards : ℕ → ℕ → ℕ → GreenThanks → Bool
counts_towards start end from_employee_id g =
    g.from_employee_id == from_employee_id
    && not (green_thanks_status_eq g.status GreenThanksStatus.rejected)
    && leb start g.created_at
    && leb g.created_at end

-- `aggregate({ where, _sum: { points: true } })`, 0 on no rows
abbrev pub sum_points : (GreenThanks → Bool) → List GreenThanks → ℕ
sum_points p [] = 0
sum_points p (g ∷ gs) = let rest = sum_points p gs in if p g then g.points + rest else rest

pub record CreateGreenThanksDto : Type 0 where
  pub to_employee_id : ℕ
  pub points : ℕ
  pub reason : String

-- the data of the row that `create` makes
abbrev pub new_green_thanks : ℕ → ℕ → ℕ → CreateGreenThanksDto → GreenThanks
new_green_thanks id now from_employee_id dto = record {
  id = id;
  from_employee_id = from_employee_id;
  to_employee_id = dto.to_employee_id;
  points = dto.points;
  reason = dto.reason;
  approved_by = none;
  status = GreenThanksStatus.pending;
  awarded_at = none;
  payroll_month = none;
  payroll_year = none;
  is_paid = false;
  created_at = now;
}

pub create_green_thanks :
    Zone → Clock → ℕ → RequestingUser → CreateGreenThanksDto → Action GreenThanks
create_green_thanks zone clock organization_id user dto = do
  from ← or_throw user.employee_id (bad_request "No employee record found for the current user")
  throw_if (dto.to_employee_id == from) (bad_request "You cannot send Green Thanks to yourself")
  recipient ←
      gets (λ db. find_first (is_employee_of organization_id dto.to_employee_id) db.employees)
  or_throw recipient (not_found "Recipient employee not found")
  limit ← gets (λ db. limit_of db organization_id)
  used ← gets (λ db.
      sum_points (counts_towards (quarter_start zone clock) (quarter_end zone clock) from)
        db.green_thanks)
  throw_if (ltb limit (used + dto.points))
      (bad_request "Sending … points would exceed your quarterly Green Thanks limit of … points")
  id ← fresh_id
  modify (λ db. record db {
    green_thanks = create (new_green_thanks id clock.now from dto) db.green_thanks;
  })
  pure (new_green_thanks id clock.now from dto)

pub data GreenThanksDirection : Type 0 where
  sent received : GreenThanksDirection

pub record QueryGreenThanksDto : Type 0 where
  pub direction : Option GreenThanksDirection
  pub status : Option GreenThanksStatus
  pub employee_id : Option ℕ
  pub pagination : PaginationDto

-- directionFilter
abbrev pub in_direction : Option GreenThanksDirection → Option ℕ → GreenThanks → Bool
in_direction _ none g = true
in_direction (some sent) (some e) g = g.from_employee_id == e
in_direction (some received) (some e) g = g.to_employee_id == e
in_direction none (some e) g = g.from_employee_id == e || g.to_employee_id == e

-- the `where` of `findAll`
abbrev pub is_shown_green_thanks : Db → ℕ → Option ℕ → QueryGreenThanksDto → GreenThanks → Bool
is_shown_green_thanks db organization_id scoped query g =
    works_in db organization_id g.from_employee_id
    && in_direction query.direction scoped g
    && opt_matches green_thanks_status_eq query.status g.status

pub find_all : ℕ → RequestingUser → QueryGreenThanksDto → Action (PaginatedResult GreenThanks)
find_all organization_id user query =
    let scoped = if can_see_all_rows user then query.employee_id else user.employee_id in
    gets (λ db.
      if not (can_see_all_rows user) && not (is_some scoped)
      then newest_page [] query.pagination
      else newest_page
          (find_many (is_shown_green_thanks db organization_id scoped query) db.green_thanks)
          query.pagination)

pub record ApproveGreenThanksDto : Type 0 where
  pub approve : Bool
  pub rejection_note : Option String
  pub payroll_month : Option ℕ
  pub payroll_year : Option ℕ

-- the data of the two updates in `approve`
abbrev pub rejected_as : ℕ → ApproveGreenThanksDto → GreenThanks → GreenThanks
rejected_as user_id dto g = record g {
  status = GreenThanksStatus.rejected;
  approved_by = some user_id;
  reason =
      if has_text dto.rejection_note
      then str_append g.reason
          (str_append "\n[Rejected: " (str_append (get_or dto.rejection_note "") "]"))
      else g.reason;
}

abbrev pub approved_as : Clock → ℕ → ApproveGreenThanksDto → GreenThanks → GreenThanks
approved_as clock user_id dto g = record g {
  status = GreenThanksStatus.approved;
  approved_by = some user_id;
  awarded_at = some clock.now;
  payroll_month = some (get_or dto.payroll_month (clock.get_month clock.now + 1));
  payroll_year = some (get_or dto.payroll_year (clock.get_full_year clock.now));
}

-- `where: { id, fromEmployee: { organizationId } }`
abbrev pub is_green_thanks_of : Db → ℕ → ℕ → GreenThanks → Bool
is_green_thanks_of db organization_id id g =
    g.id == id && works_in db organization_id g.from_employee_id

-- what the two branches of `approve` write
abbrev pub decided_as : Clock → ℕ → ApproveGreenThanksDto → GreenThanks → GreenThanks
decided_as clock user_id dto g =
    if dto.approve then approved_as clock user_id dto g else rejected_as user_id dto g

pub approve : Clock → ℕ → ℕ → RequestingUser → ℕ → ApproveGreenThanksDto → Action GreenThanks
approve clock organization_id user_id user id dto = do
  throw_if (not (can_approve user))
      (forbidden "You are not permitted to approve or reject Green Thanks")
  found ← gets (λ db. find_first (is_green_thanks_of db organization_id id) db.green_thanks)
  g ← or_throw found (not_found "Green Thanks entry not found")
  throw_if (is_id user.employee_id g.from_employee_id || is_id user.employee_id g.to_employee_id)
      (forbidden "You cannot approve or reject a Green Thanks entry you sent or received")
  throw_if (not (green_thanks_status_eq g.status GreenThanksStatus.pending))
      (bad_request "Only a pending Green Thanks entry can be approved or rejected")
  modify (λ db. record db {
    green_thanks = update_where (λ x. x.id == id) (decided_as clock user_id dto) db.green_thanks;
  })
  pure (decided_as clock user_id dto g)

-- the `where` of `getApprovedGreenThanksForPeriod`
abbrev pub is_payable : Db → ℕ → ℕ → ℕ → ℕ → GreenThanks → Bool
is_payable db organization_id employee_id month year g =
    g.to_employee_id == employee_id
    && green_thanks_status_eq g.status GreenThanksStatus.approved
    && not g.is_paid
    && is_id g.payroll_month month
    && is_id g.payroll_year year
    && works_in db organization_id g.to_employee_id

-- The test for no rows returns what the sum gives on them, so it is not written out.
unfoldable pub get_approved_green_thanks_for_period :
    Db → ℕ → ℕ → ℕ → ℕ → ApprovedGreenThanksForPeriod
get_approved_green_thanks_for_period db organization_id employee_id month year =
    let p = is_payable db organization_id employee_id month year in
    let rows = find_many p db.green_thanks in
    record {
      total_amount = pos (sum_points (λ _. true) rows * inr_per_point_of db organization_id);
      green_thanks_ids = map (λ g. g.id) rows;
    }

-- the data of the update in `markGreenThanksPaid`
abbrev pub green_thanks_paid : GreenThanks → GreenThanks
green_thanks_paid g = record g { is_paid = true }

-- On no ids the update does nothing, as the early return.
unfoldable pub mark_green_thanks_paid : List ℕ → Db → Db
mark_green_thanks_paid ids db = record db {
  green_thanks = update_where (λ g. elem g.id ids) green_thanks_paid db.green_thanks;
}
