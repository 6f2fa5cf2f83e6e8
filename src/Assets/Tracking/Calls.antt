-- ===== src/Assets/Tracking/Calls.antt =====
-- The requests of the assets service keep every asset tracked.
use igreen_backend.Base.{
  ℕ, ◌+◌, ◌≡◌, refl, sym, ◌⊎◌, inl, inr, Bool, true, false, List, arith, ◌==◌, not, get_or,
  Option-cases, Bool-cases,
}
use igreen_backend.Base.Calendar.{Clock}
use igreen_backend.Store.Table.{find_first, find_last, update_where, create, find_first-true}
use igreen_backend.Store.Asset.{available, assigned, asset_status_eq, Asset, AssetAssignment}
use igreen_backend.Store.Db.{Db}
use igreen_backend.Assets.{
  CreateAssetDto, UpdateAssetDto, AssignAssetDto, ReturnAssetDto, new_asset, changed, with_status,
  new_assignment, returned_with, is_open, is_asset_of, create_asset, update, assign, return_asset,
}
use igreen_backend.Assets.Tracking.{
  Tracked, create-Tracked, update-Tracked, assign-Tracked, return-Tracked,
}

-- The requests that write to the tables of assets and assignments.
pub data AssetCall : Type 0 where
  create_call : ℕ → CreateAssetDto → AssetCall
  update_call : ℕ → ℕ → UpdateAssetDto → AssetCall
  assign_call : ℕ → ℕ → AssignAssetDto → AssetCall
  return_call : ℕ → ℕ → ReturnAssetDto → AssetCall

-- The database after a request.
unfoldable pub run_asset_call : Clock → AssetCall → Db → Db
run_asset_call clock (create_call org dto) db = (create_asset org dto db).1
run_asset_call clock (update_call org id dto) db = (update org id dto db).1
run_asset_call clock (assign_call org id dto) db = (assign clock org id dto db).1
run_asset_call clock (return_call org id dto) db = (return_asset clock org id dto db).1

abbrev pub DbTracked : Db → Type 0
DbTracked db = Tracked db.next_id db.assets db.assignments

-- The request does not ask that a returned asset be ASSIGNED.
abbrev pub frees : AssetCall → Bool
frees (return_call org id dto) = not (asset_status_eq (get_or dto.new_status available) assigned)
frees _ = true

-- The tables after a handler: as they were, or as given.
abbrev Writes : Db → Db → ℕ → List Asset → List AssetAssignment → Type 0
Writes db db' n assets rows =
    ((db'.next_id ≡ db.next_id) × (db'.assets ≡ db.assets) × (db'.assignments ≡ db.assignments))
    ⊎ ((db'.next_id ≡ n) × (db'.assets ≡ assets) × (db'.assignments ≡ rows))

Writes-Tracked :
    (db db' : Db) (n : ℕ) (assets : List Asset) (rows : List AssetAssignment)
    → DbTracked db
    → Tracked n assets rows
    → Writes db db' n assets rows
    → DbTracked db'
Writes-Tracked db db' n assets rows t t' (inl (e, f, g)) = rw (e, f, g) t
Writes-Tracked db db' n assets rows t t' (inr (e, f, g)) = rw (e, f, g) t'

Kept-Tracked :
    (db db' : Db)
    → DbTracked db
    → (db'.next_id ≡ db.next_id) × (db'.assets ≡ db.assets) × (db'.assignments ≡ db.assignments)
    → DbTracked db'
Kept-Tracked db db' t (e, f, g) = rw (e, f, g) t

create_call-Tracked :
    (org : ℕ) (dto : CreateAssetDto) (db : Db)
    → DbTracked db
    → DbTracked (create_asset org dto db).1
unfolding create_asset
create_call-Tracked org dto db t =
    create-Tracked db.next_id (new_asset db.next_id org dto) db.assets db.assignments refl refl t

update_call-Tracked :
    (org id : ℕ) (dto : UpdateAssetDto) (db : Db)
    → DbTracked db
    → DbTracked (update org id dto db).1
unfolding update
update_call-Tracked org id dto db t =
    Writes-Tracked db (update org id dto db).1 db.next_id
      (update_where (λ a. a.id == id) (changed dto) db.assets) db.assignments t
      (update-Tracked db.next_id (λ a. a.id == id) (changed dto) db.assets db.assignments
        (λ a. refl) (λ a. refl) t)
      (ground arith)

assign_call-Tracked :
    (clock : Clock) (org id : ℕ) (dto : AssignAssetDto) (db : Db)
    → DbTracked db
    → DbTracked (assign clock org id dto db).1
unfolding assign
assign_call-Tracked clock org id dto db t =
    elim (Option-cases (find_first (is_asset_of org id) db.assets)) [
      | inl e ↦ Kept-Tracked db (assign clock org id dto db).1 t (ground arith)
      | inr (a, e) ↦
          let same : a.id ≡ id =
            (let h = find_first-true (is_asset_of org id) db.assets a e in ground arith) in
          elim (Bool-cases (asset_status_eq a.status available)) [
            | inl free ↦
                Writes-Tracked db (assign clock org id dto db).1 (db.next_id + 1)
                  (update_where (λ b. b.id == a.id) (with_status assigned) db.assets)
                  (create (new_assignment db.next_id clock.now id dto) db.assignments) t
                  (assign-Tracked db.next_id (is_asset_of org id) a
                    (new_assignment db.next_id clock.now id dto) db.assets db.assignments e
                    (ground arith) refl (sym same) refl t)
                  (ground arith)
            | inr busy ↦ Kept-Tracked db (assign clock org id dto db).1 t (ground arith)
          ]
    ]

return_call-Tracked :
    (clock : Clock) (org id : ℕ) (dto : ReturnAssetDto) (db : Db)
    → asset_status_eq (get_or dto.new_status available) assigned ≡ false
    → DbTracked db
    → DbTracked (return_asset clock org id dto db).1
unfolding return_asset
return_call-Tracked clock org id dto db idle t =
    elim (Option-cases (find_first (is_asset_of org id) db.assets)) [
      | inl e ↦ Kept-Tracked db (return_asset clock org id dto db).1 t (ground arith)
      | inr (a, e) ↦
          let same : a.id ≡ id =
            (let h = find_first-true (is_asset_of org id) db.assets a e in ground arith) in
          elim (Bool-cases (asset_status_eq a.status assigned)) [
            | inr busy ↦ Kept-Tracked db (return_asset clock org id dto db).1 t (ground arith)
            | inl busy ↦ elim (Option-cases (find_last (is_open id) db.assignments)) [
              | inl o ↦ Kept-Tracked db (return_asset clock org id dto db).1 t (ground arith)
              | inr (r, o) ↦
                  let status = get_or dto.new_status available in
                  Writes-Tracked db (return_asset clock org id dto db).1 db.next_id
                    (update_where (λ b. b.id == a.id) (with_status status) db.assets)
                    (update_where (λ q. q.id == r.id) (returned_with clock.now dto) db.assignments)
                    t
                    (return-Tracked db.next_id (is_asset_of org id) status a r
                      (returned_with clock.now dto) db.assets db.assignments e busy (rw same o) idle
                      (λ q. refl) (λ q. refl) refl t)
                    (ground arith)
            ]
          ]
    ]

-- Starting from distinct identifiers below the next one and assets that have one open assignment
-- when they are ASSIGNED and none otherwise, every request keeps all of this, unless it returns an
-- asset and asks for the state ASSIGNED.
pub run_asset_call-Tracked :
    (clock : Clock) (call : AssetCall) (db : Db)
    → frees call ≡ true
    → DbTracked db
    → DbTracked (run_asset_call clock call db)
unfolding run_asset_call
run_asset_call-Tracked clock (create_call org dto) db f t = create_call-Tracked org dto db t
run_asset_call-Tracked clock (update_call org id dto) db f t = update_call-Tracked org id dto db t
run_asset_call-Tracked clock (assign_call org id dto) db f t =
    assign_call-Tracked clock org id dto db t
run_asset_call-Tracked clock (return_call org id dto) db f t =
    return_call-Tracked clock org id dto db (ground arith) t
