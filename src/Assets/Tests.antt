-- ===== src/Assets/Tests.antt =====
-- An organization with a laptop that is issued and a phone that is not.
use igreen_backend.Base.{ℕ, ◌≡◌, refl, true, false, none, some, [], ◌∷◌, arith}
use igreen_backend.Base.Int.{pos}
use igreen_backend.Base.Calendar.{Clock}
use igreen_backend.Store.Staff.{Employee, active}
use igreen_backend.Store.Asset.{AssetStatus, available, assigned, Asset, AssetAssignment}
use igreen_backend.Store.Db.{Db, empty_db, fails}
use igreen_backend.Assets.{AssignAssetDto, ReturnAssetDto, assign, return_asset}
use igreen_backend.Assets.Tracking.Calls.{
  DbTracked, assign_call, run_asset_call, run_asset_call-Tracked,
}
use igreen_backend.Assets.Tracking.Orphans.{return_asset-stuck}

abbrev clock : Clock
clock = record { now = 1000; get_full_year = λ _. 2025; get_month = λ _. 10 }

abbrev worker : Employee
worker = record {
  id = 7;
  organization_id = 1;
  deleted_at = none;
  status = active;
  reporting_manager_id = none;
  leave_policy_id = none;
  updated_by_id = none;
  payroll_structure_id = none;
}

abbrev thing : ℕ → AssetStatus → Asset
thing id status = record {
  id = id;
  organization_id = 1;
  type = "LAPTOP";
  name = "T14";
  serial_number = none;
  status = status;
  purchase_date = none;
  purchase_value = some (pos 90000);
}

abbrev issued : AssetAssignment
issued = record {
  id = 40;
  asset_id = 30;
  employee_id = 7;
  assigned_at = 500;
  returned_at = none;
  condition_on_issue = none;
  condition_on_return = none;
  notes = none;
  recovered_at_exit = false;
}

abbrev office : Db
office = record empty_db {
  employees = worker ∷ [];
  assets = thing 30 assigned ∷ thing 31 available ∷ [];
  assignments = issued ∷ [];
}

abbrev to_worker : AssignAssetDto
to_worker = record { employee_id = 7; condition_on_issue = none; notes = none }

abbrev back_as : AssetStatus → ReturnAssetDto
back_as status = record { condition_on_return = none; new_status = some status; notes = none }

office-DbTracked : DbTracked office
office-DbTracked = record {
  assets_keyed = (((λ e. omega arith), tt), (tt, tt));
  assets_below = (omega arith, (omega arith, tt));
  rows_keyed = (tt, tt);
  rows_below = (omega arith, tt);
  rows_known = (omega arith, tt);
  tracked = (refl, (refl, tt));
}

run_asset_call-Tracked_example :
    DbTracked (run_asset_call clock (assign_call 1 31 to_worker) office)
run_asset_call-Tracked_example =
    run_asset_call-Tracked clock (assign_call 1 31 to_worker) office refl office-DbTracked

return_asset-stuck_example :
    let db' = (return_asset clock 1 30 (back_as assigned) office).1 in
    (fails (assign clock 1 30 to_worker db').0 ≡ true)
    × (fails (return_asset clock 1 30 (back_as available) db').0 ≡ true)
return_asset-stuck_example =
    return_asset-stuck clock clock 1 30 to_worker (back_as assigned) (back_as available) office
      (thing 30 assigned) office-DbTracked refl refl issued refl refl
