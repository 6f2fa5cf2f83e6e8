-- ===== src/Incentives.antt =====
-- class IncentiveLedgerService (src/modules/incentives/incentive-ledger.service.ts). A response is
-- the row that it is made from.
pub mod Payout
use igreen_backend.Base.{
  ℕ, Bool, true, false, Option, none, some, String, List, [], ◌∷◌, map, ◌&&◌, ◌||◌, ◌==◌, not,
  is_some, get_or, is_id, includes, elem, opt_matches, if◌then◌else◌,
}
use igreen_backend.Base.Int.{ℤ, pos, ◌+ℤ◌}
use igreen_backend.Base.Calendar.{Clock}
use igreen_backend.Base.Pagination.{PaginationDto, PaginatedResult, newest_page}
use igreen_backend.Store.Table.{find_first, find_many, update_where}
use igreen_backend.Store.Staff.{Employee}
use igreen_backend.Store.Payroll.{IncentiveLedger}
use igreen_backend.Store.Db.{
  Db, bad_request, forbidden, not_found, Action, pure, gets, or_throw, ◌>>=◌, ◌>>◌, throw_if,
  modify, RequestingUser, works_in, in_organization,
}

pub record ReleasedIncentiveForPeriod : Type 0 where
  pub total_incentive : ℤ
  pub ledger_ids : List ℕ

abbrev pub has_read_permission : RequestingUser → Bool
has_read_permission user =
    includes user.permissions "payroll:read"
    || includes user.permissions "todo:approve"
    || includes user.permissions "*"

pub record QueryIncentiveLedgerDto : Type 0 where
  pub employee_id : Option ℕ
  pub is_held : Option Bool
  pub is_released : Option Bool
  pub payroll_month : Option ℕ
  pub payroll_year : Option ℕ
  pub pagination : PaginationDto

-- `===` on truth values
abbrev same : Bool → Bool → Bool
same a b = if a then b else not b

-- the `where` of `findAll`
abbrev pub is_shown_incentive : Db → ℕ → Option ℕ → QueryIncentiveLedgerDto → IncentiveLedger → Bool
is_shown_incentive db organization_id scoped query r =
    in_organization db organization_id r.employee_id
    && opt_matches (λ a b. a == b) scoped r.employee_id
    && opt_matches same query.is_held r.is_held
    && opt_matches same query.is_released r.is_released
    && opt_matches (λ a b. a == b) query.payroll_month r.payroll_month
    && opt_matches (λ a b. a == b) query.payroll_year r.payroll_year

pub find_all :
    ℕ → RequestingUser → QueryIncentiveLedgerDto → Action (PaginatedResult IncentiveLedger)
find_all organization_id user query =
    let scoped = if has_read_permission user then query.employee_id else user.employee_id in
    gets (λ db.
      if not (has_read_permission user) && not (is_some scoped)
      then newest_page [] query.pagination
      else newest_page
          (find_many (is_shown_incentive db organization_id scoped query) db.incentives)
          query.pagination)

-- `where: { id, employee: { organizationId } }`
abbrev pub is_incentive_of : Db → ℕ → ℕ → IncentiveLedger → Bool
is_incentive_of db organization_id id r = r.id == id && works_in db organization_id r.employee_id

pub record ReleaseIncentiveDto : Type 0 where
  pub payroll_month : Option ℕ
  pub payroll_year : Option ℕ

-- the data of the update in `release`
abbrev pub released_as : ℕ → ReleaseIncentiveDto → ℤ → IncentiveLedger → IncentiveLedger
released_as now dto amount r = record r {
  is_held = false;
  is_released = true;
  release_amount = amount;
  released_at = some now;
  payroll_month = get_or dto.payroll_month r.payroll_month;
  payroll_year = get_or dto.payroll_year r.payroll_year;
}

pub release : Clock → ℕ → Option ℕ → ℕ → ReleaseIncentiveDto → Action IncentiveLedger
release clock organization_id approver_employee_id id dto = do
  found ← gets (λ db. find_first (is_incentive_of db organization_id id) db.incentives)
  r ← or_throw found (not_found "Incentive ledger entry not found")
  throw_if (is_id approver_employee_id r.employee_id)
      (forbidden "You cannot release your own incentive ledger entry")
  throw_if (not r.is_held || r.is_released || r.is_deducted) (
      bad_request
        "Only a held, not-yet-released, not-yet-deducted incentive ledger entry can be released")
  modify (λ db. record db {
    incentives =
        update_where (λ x. x.id == id) (released_as clock.now dto r.total_amount) db.incentives;
  })
  pure (released_as clock.now dto r.total_amount r)

-- the `where` of `getReleasedIncentiveForPeriod`
abbrev pub is_payable : Db → ℕ → ℕ → ℕ → ℕ → IncentiveLedger → Bool
is_payable db organization_id employee_id month year r =
    r.employee_id == employee_id
    && r.payroll_month == month
    && r.payroll_year == year
    && r.is_released
    && not r.is_held
    && not r.is_deducted
    && works_in db organization_id r.employee_id

-- `rows.reduce((sum, row) => sum + row.releaseAmount, 0)`
total_released : ℤ → List IncentiveLedger → ℤ
total_released acc [] = acc
total_released acc (r ∷ rows) = total_released (acc +ℤ r.release_amount) rows

-- The test for no rows returns what the fold gives on them, so it is not written out.
unfoldable pub get_released_incentive_for_period : Db → ℕ → ℕ → ℕ → ℕ → ReleasedIncentiveForPeriod
unfolding total_released
get_released_incentive_for_period db organization_id employee_id month year =
    let rows = find_many (is_payable db organization_id employee_id month year) db.incentives in
    record { total_incentive = total_released (pos 0) rows; ledger_ids = map (λ r. r.id) rows }

-- the data of the update in `markIncentiveDeducted`
abbrev pub incentive_deducted : ℕ → IncentiveLedger → IncentiveLedger
incentive_deducted payroll_entry_id r = record r {
  is_deducted = true;
  payroll_entry_id = some payroll_entry_id;
}

-- On no ids the update does nothing, as the early return.
unfoldable pub mark_incentive_deducted : List ℕ → ℕ → Db → Db
mark_incentive_deducted ledger_ids payroll_entry_id db = record db {
  incentives =
      update_where (λ r. elem r.id ledger_ids) (incentive_deducted payroll_entry_id) db.incentives;
}
