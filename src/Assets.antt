-- ===== src/Assets.antt =====
-- class AssetsService (src/modules/assets/assets.service.ts). A response is the row that it is
-- made from.
pub mod Tracking
mod Tests
use igreen_backend.Base.{
  ℕ, Bool, true, false, Option, none, some, String, List, ◌&&◌, ◌||◌, ◌==◌, not, is_some, get_or,
  has_text, opt_matches,
}
use igreen_backend.Base.Int.{ℤ}
use igreen_backend.Base.Calendar.{Clock}
use igreen_backend.Base.Pagination.{PaginationDto, PaginatedResult, newest_page, newest_first}
use igreen_backend.Store.Table.{find_first, find_last, find_many, update_where, create, count}
use igreen_backend.Store.Staff.{Employee}
use igreen_backend.Store.Asset.{
  AssetStatus, available, assigned, asset_status_eq, Asset, AssetAssignment,
}
use igreen_backend.Store.Db.{
  Db, HttpError, bad_request, not_found, Action, pure, gets, or_throw, ◌>>=◌, ◌>>◌, throw_if,
  modify, fresh_id, is_employee_of,
}
use text.Mathlib.Text.{◌==◌ as str_eq}

pub record CreateAssetDto : Type 0 where
  pub type : String
  pub name : String
  pub serial_number : Option String
  pub purchase_date : Option ℕ
  pub purchase_value : Option ℤ

-- A field is none where it is left out; one of a column that may be empty may also be null.
pub record UpdateAssetDto : Type 0 where
  pub type : Option String
  pub name : Option String
  pub serial_number : Option (Option String)
  pub purchase_date : Option (Option ℕ)
  pub purchase_value : Option (Option ℤ)

pub record AssignAssetDto : Type 0 where
  pub employee_id : ℕ
  pub condition_on_issue : Option String
  pub notes : Option String

pub record ReturnAssetDto : Type 0 where
  pub condition_on_return : Option String
  pub new_status : Option AssetStatus
  pub notes : Option String

pub record QueryAssetDto : Type 0 where
  pub type : Option String
  pub status : Option AssetStatus
  pub pagination : PaginationDto

-- `where: { id, organizationId }`
abbrev pub is_asset_of : ℕ → ℕ → Asset → Bool
is_asset_of organization_id id a = a.id == id && a.organization_id == organization_id

get_or_throw : ℕ → ℕ → Action Asset
get_or_throw organization_id id = do
  found ← gets (λ db. find_first (is_asset_of organization_id id) db.assets)
  or_throw found (not_found "Asset not found")

-- the row that `create` makes; the status is the column's default
abbrev pub new_asset : ℕ → ℕ → CreateAssetDto → Asset
new_asset id organization_id dto = record {
  id = id;
  organization_id = organization_id;
  type = dto.type;
  name = dto.name;
  serial_number = dto.serial_number;
  status = available;
  purchase_date = dto.purchase_date;
  purchase_value = dto.purchase_value;
}

pub create_asset : ℕ → CreateAssetDto → Action Asset
create_asset organization_id dto = do
  id ← fresh_id
  modify (λ db. record db { assets = create (new_asset id organization_id dto) db.assets })
  pure (new_asset id organization_id dto)

-- the `where` of `findAll`
abbrev pub is_shown_asset : ℕ → QueryAssetDto → Asset → Bool
is_shown_asset organization_id query a =
    a.organization_id == organization_id
    && (not (has_text query.type) || opt_matches str_eq query.type a.type)
    && opt_matches asset_status_eq query.status a.status

pub find_all : ℕ → QueryAssetDto → Action (PaginatedResult Asset)
find_all organization_id query = gets (λ db.
    newest_page (find_many (is_shown_asset organization_id query) db.assets) query.pagination)

-- the asset and its assignments, the newest first
pub find_one : ℕ → ℕ → Action (Asset × List AssetAssignment)
unfolding get_or_throw
find_one organization_id id = do
  asset ← get_or_throw organization_id id
  gets (λ db. (asset, newest_first (find_many (λ r. r.asset_id == id) db.assignments)))

-- `...(value !== undefined && { column: value })` on a column that may be empty
abbrev or_keep {ℓ} : {A : Type ℓ} → Option A → Option A → Option A
or_keep none old = old
or_keep (some a) old = some a

abbrev pub changed : UpdateAssetDto → Asset → Asset
changed dto a = record a {
  type = get_or dto.type a.type;
  name = get_or dto.name a.name;
  serial_number = get_or dto.serial_number a.serial_number;
  purchase_date = get_or dto.purchase_date a.purchase_date;
  purchase_value = get_or dto.purchase_value a.purchase_value;
}

pub update : ℕ → ℕ → UpdateAssetDto → Action Asset
unfolding get_or_throw
update organization_id id dto = do
  asset ← get_or_throw organization_id id
  modify (λ db. record db { assets = update_where (λ a. a.id == id) (changed dto) db.assets })
  pure (changed dto asset)

abbrev pub with_status : AssetStatus → Asset → Asset
with_status status a = record a { status = status }

-- the data of the row that `assign` creates
abbrev pub new_assignment : ℕ → ℕ → ℕ → AssignAssetDto → AssetAssignment
new_assignment id now asset_id dto = record {
  id = id;
  asset_id = asset_id;
  employee_id = dto.employee_id;
  assigned_at = now;
  returned_at = none;
  condition_on_issue = dto.condition_on_issue;
  condition_on_return = none;
  notes = dto.notes;
  recovered_at_exit = false;
}

pub assign : Clock → ℕ → ℕ → AssignAssetDto → Action Asset
unfolding get_or_throw
assign clock organization_id id dto = do
  asset ← get_or_throw organization_id id
  throw_if (not (asset_status_eq asset.status available))
      (bad_request "Asset is … and cannot be assigned (must be AVAILABLE)")
  employee ← gets (λ db. find_first (is_employee_of organization_id dto.employee_id) db.employees)
  or_throw employee (not_found "Employee not found")
  new_id ← fresh_id
  modify (λ db. record db {
    assignments = create (new_assignment new_id clock.now id dto) db.assignments;
    assets = update_where (λ a. a.id == id) (with_status assigned) db.assets;
  })
  pure (with_status assigned asset)

-- `where: { assetId, returnedAt: null }`
abbrev pub is_open : ℕ → AssetAssignment → Bool
is_open asset_id r = r.asset_id == asset_id && not (is_some r.returned_at)

-- the data of the update of the assignment in `return`
abbrev pub returned_with : ℕ → ReturnAssetDto → AssetAssignment → AssetAssignment
returned_with now dto r = record r {
  returned_at = some now;
  condition_on_return = or_keep dto.condition_on_return r.condition_on_return;
  recovered_at_exit = true;
  notes = or_keep dto.notes r.notes;
}

-- `return`
pub return_asset : Clock → ℕ → ℕ → ReturnAssetDto → Action Asset
unfolding get_or_throw
return_asset clock organization_id id dto = do
  asset ← get_or_throw organization_id id
  throw_if (not (asset_status_eq asset.status assigned))
      (bad_request "Asset is … and cannot be returned (must be ASSIGNED)")
  found ← gets (λ db. find_last (is_open id) db.assignments)
  open_assignment ← or_throw found (bad_request "No open assignment found for this asset")
  let new_status = get_or dto.new_status available
  modify (λ db. record db {
    assignments =
        update_where (λ r. r.id == open_assignment.id) (returned_with clock.now dto) db.assignments;
    assets = update_where (λ a. a.id == id) (with_status new_status) db.assets;
  })
  pure (with_status new_status asset)

-- `where: { id: employeeId, organizationId }`, deleted or not
abbrev pub is_staff_of : ℕ → ℕ → Employee → Bool
is_staff_of organization_id employee_id e =
    e.id == employee_id && e.organization_id == organization_id

-- `asset: { organizationId }` of an assignment of the employee
abbrev pub is_assignment_of : Db → ℕ → ℕ → AssetAssignment → Bool
is_assignment_of db organization_id employee_id r =
    r.employee_id == employee_id
    && is_some (find_first (is_asset_of organization_id r.asset_id) db.assets)

pub find_assignments_by_employee : ℕ → ℕ → Action (List AssetAssignment)
find_assignments_by_employee organization_id employee_id = do
  employee ← gets (λ db. find_first (is_staff_of organization_id employee_id) db.employees)
  or_throw employee (not_found "Employee not found")
  gets (λ db.
      newest_first (find_many (is_assignment_of db organization_id employee_id) db.assignments))

-- `OR: [{ returnedAt: null }, { recoveredAtExit: false }]`
abbrev pub is_unreturned : AssetAssignment → Bool
is_unreturned r = not (is_some r.returned_at) || not r.recovered_at_exit

unfoldable pub count_unreturned_assignments_for_employee : ℕ → ℕ → Action ℕ
count_unreturned_assignments_for_employee organization_id employee_id = do
  employee ← gets (λ db. find_first (is_staff_of organization_id employee_id) db.employees)
  or_throw employee (not_found "Employee not found")
  gets (λ db.
      count (λ r. is_assignment_of db organization_id employee_id r && is_unreturned r)
        db.assignments)
