-- ===== src/Assets/Tracking/Orphans.antt =====
-- What a return that asks for the state ASSIGNED does.
use igreen_backend.Base.{ℕ, ◌≡◌, refl, sym, true, some, none, arith, ◌==◌, subst}
use igreen_backend.Base.Calendar.{Clock}
use igreen_backend.Store.Table.{
  find_first, find_last, update_where, find_first-true, find_first-All, find_first-update_found,
}
use igreen_backend.Store.Table.Counting.{find_last-Has, find_last-none, count-update_found}
use igreen_backend.Store.Asset.{assigned, asset_status_eq, Asset, AssetAssignment}
use igreen_backend.Store.Db.{Db, fails}
use igreen_backend.Assets.{
  AssignAssetDto, ReturnAssetDto, with_status, returned_with, is_open, is_asset_of, assign,
  return_asset,
}
use igreen_backend.Assets.Tracking.{IsTracked}
use igreen_backend.Assets.Tracking.Calls.{DbTracked}

-- An ASSIGNED asset without an open assignment can be neither assigned nor returned.
orphan_stuck :
    (clock : Clock) (org id : ℕ) (give : AssignAssetDto) (back : ReturnAssetDto) (db : Db)
    (a : Asset)
    → find_first (is_asset_of org id) db.assets ≡ some a
    → asset_status_eq a.status assigned ≡ true
    → find_last (is_open id) db.assignments ≡ none
    → (fails (assign clock org id give db).0 ≡ true)
      × (fails (return_asset clock org id back db).0 ≡ true)
unfolding assign return_asset
orphan_stuck clock org id give back db a e busy o = (ground arith, ground arith)

returned_open :
    (clock : Clock) (org id : ℕ) (dto : ReturnAssetDto) (db : Db) (a : Asset)
    → DbTracked db
    → find_first (is_asset_of org id) db.assets ≡ some a
    → asset_status_eq a.status assigned ≡ true
    → (r : AssetAssignment) → find_last (is_open a.id) db.assignments ≡ some r
    → find_last
        (is_open a.id)
        (update_where (λ q. q.id == r.id) (returned_with clock.now dto) db.assignments)
      ≡ none
returned_open clock org id dto db a t e busy r o =
    let (there, holds) = find_last-Has (is_open a.id) db.assignments r o in
    let one_open =
      find_first-All (IsTracked db.assignments) (is_asset_of org id) db.assets a t.tracked e in
    let less =
      count-update_found (λ q. q.id) (is_open a.id) (returned_with clock.now dto) db.assignments r
        t.rows_keyed there in
    find_last-none (is_open a.id)
      (update_where (λ q. q.id == r.id) (returned_with clock.now dto) db.assignments)
      (ground (arith, less))

-- On tables as the requests leave them, a return that asks for the state ASSIGNED leaves an asset
-- that every later attempt to assign or to return it, before another request, refuses.
pub return_asset-stuck :
    (clock later : Clock) (org id : ℕ) (give : AssignAssetDto) (dto back : ReturnAssetDto) (db : Db)
    (a : Asset)
    → DbTracked db
    → find_first (is_asset_of org id) db.assets ≡ some a
    → asset_status_eq a.status assigned ≡ true
    → (r : AssetAssignment) → find_last (is_open id) db.assignments ≡ some r
    → dto.new_status ≡ some assigned
    → let db' = (return_asset clock org id dto db).1 in
      (fails (assign later org id give db').0 ≡ true)
      × (fails (return_asset later org id back db').0 ≡ true)
unfolding return_asset
return_asset-stuck clock later org id give dto back db a t e busy r o asked =
    let same : a.id ≡ id =
      (let h = find_first-true (is_asset_of org id) db.assets a e in ground arith) in
    let db' = (return_asset clock org id dto db).1 in
    let found =
      find_first-update_found (λ b. b.id) (is_asset_of org id) (with_status assigned) db.assets a
        t.assets_keyed e (find_first-true (is_asset_of org id) db.assets a e) in
    let none_open = returned_open clock org id dto db a t e busy r (rw same o) in
    let assets : db'.assets ≡ update_where (λ b. b.id == a.id) (with_status assigned) db.assets =
      ground arith in
    let rows : db'.assignments
        ≡ update_where (λ q. q.id == r.id) (returned_with clock.now dto) db.assignments =
      ground arith in
    orphan_stuck later org id give back db' (with_status assigned a)
      (subst (λ xs. find_first (is_asset_of org id) xs ≡ some (with_status assigned a)) (sym assets)
        found)
      refl
      (subst (λ xs. find_last (is_open id) xs ≡ none) (sym rows)
        (subst
          (λ i.
            find_last (is_open i)
              (update_where (λ q. q.id == r.id) (returned_with clock.now dto) db.assignments)
            ≡ none)
          same none_open))
