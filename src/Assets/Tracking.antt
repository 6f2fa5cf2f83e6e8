-- ===== src/Assets/Tracking.antt =====
-- An asset is ASSIGNED just when it has an open assignment, and then it has one.
pub mod Calls
pub mod Orphans
use igreen_backend.Base.{
  ℕ, ◌+◌, ◌<◌, ◌≡◌, ◌≢◌, refl, sym, ap, ◌⊎◌, inl, inr, Bool, true, false, Option, none, some, List,
  [], ◌∷◌, arith, ◌==◌, not, ◌&&◌, is_some, get_or, All, All-map, All-both, All-append,
  Option-cases, Bool-cases, subst, ==→eq,
}
use igreen_backend.Base.Calendar.{Clock}
use igreen_backend.Store.Table.{
  find_first, find_last, update_where, create, count, IsKeyed, IsKeyed-create, IsKeyed-update_where,
  All-update_where, All-update_split, find_first-only, find_first-true, find_first-All,
}
use igreen_backend.Store.Table.Counting.{
  Has, find_last-Has, tally, count-update_found, count-create, count-none,
}
use igreen_backend.Store.Asset.{
  AssetStatus, available, assigned, asset_status_eq, Asset, AssetAssignment,
}
use igreen_backend.Store.Db.{Db}
use igreen_backend.Assets.{
  CreateAssetDto, UpdateAssetDto, AssignAssetDto, ReturnAssetDto, new_asset, changed, with_status,
  new_assignment, returned_with, is_open, is_asset_of, create_asset, update, assign, return_asset,
}

abbrev pub is_assigned : Asset → Bool
is_assigned a = asset_status_eq a.status assigned

abbrev pub IsTracked : List AssetAssignment → Asset → Type 0
IsTracked rows a = count (is_open a.id) rows ≡ tally (is_assigned a)

-- The identifiers of assets and of assignments are distinct and below the next one, and an asset
-- has one open assignment when it is ASSIGNED and none otherwise.
pub record Tracked (n : ℕ) (assets : List Asset) (rows : List AssetAssignment) : Type 0 where
  pub assets_keyed : IsKeyed (λ (a : Asset). a.id) assets
  pub assets_below : All (λ (a : Asset). a.id < n) assets
  pub rows_keyed : IsKeyed (λ (r : AssetAssignment). r.id) rows
  pub rows_below : All (λ (r : AssetAssignment). r.id < n) rows
  pub rows_known : All (λ (r : AssetAssignment). r.asset_id < n) rows
  pub tracked : All (IsTracked rows) assets

module _ {A : Type 0} (key : A → ℕ) (n : ℕ) where
  below_next : (xs : List A) → All (λ x. key x < n) xs → All (λ x. key x < n + 1) xs
  below_next xs = All-map (λ x. key x < n) (λ x. key x < n + 1) (λ x h. omega arith) xs

  create-IsKeyed :
      (a : A) (xs : List A)
      → key a ≡ n
      → IsKeyed key xs
      → All (λ x. key x < n) xs
      → IsKeyed key (create a xs)
  create-IsKeyed a xs e u h =
      IsKeyed-create key a xs u
        (All-map (λ x. key x < n) (λ x. key x < key a) (λ x h. omega arith) xs h)

  create_below :
      (a : A) (xs : List A)
      → key a < n + 1
      → All (λ x. key x < n) xs
      → All (λ x. key x < n + 1) (create a xs)
  create_below a xs e h = All-append (λ x. key x < n + 1) xs (a ∷ []) (below_next xs h) (e, tt)

  update_below :
      (p : A → Bool) (f : A → A) (xs : List A)
      → ((x : A) → key (f x) ≡ key x)
      → All (λ x. key x < n) xs
      → All (λ x. key x < n) (update_where p f xs)
  update_below p f xs k h =
      All-update_where (λ x. key x < n) p f xs h
        (All-map (λ x. key x < n) (λ x. p x ≡ true → key (f x) < n) (λ x b _. rw (k x) b) xs h)

pub create-Tracked :
    (n : ℕ) (a : Asset) (assets : List Asset) (rows : List AssetAssignment)
    → a.id ≡ n
    → is_assigned a ≡ false
    → Tracked n assets rows
    → Tracked (n + 1) (create a assets) rows
create-Tracked n a assets rows e idle t = record {
  assets_keyed = create-IsKeyed (λ a. a.id) n a assets e t.assets_keyed t.assets_below;
  assets_below = create_below (λ a. a.id) n a assets (omega arith) t.assets_below;
  rows_keyed = t.rows_keyed;
  rows_below = below_next (λ r. r.id) n rows t.rows_below;
  rows_known = below_next (λ r. r.asset_id) n rows t.rows_known;
  tracked = All-append (IsTracked rows) assets (a ∷ []) t.tracked (
    rw idle (
        count-none (is_open a.id) rows (
          All-map (λ r. r.asset_id < n) (λ r. is_open a.id r ≡ false) (λ r h. ground arith) rows
            t.rows_known)),
    tt,
  );
}

pub update-Tracked :
    (n : ℕ) (p : Asset → Bool) (f : Asset → Asset) (assets : List Asset)
    (rows : List AssetAssignment)
    → ((a : Asset) → (f a).id ≡ a.id)
    → ((a : Asset) → (f a).status ≡ a.status)
    → Tracked n assets rows
    → Tracked n (update_where p f assets) rows
update-Tracked n p f assets rows k s t = record {
  assets_keyed = IsKeyed-update_where (λ a. a.id) p f (λ a _. k a) assets t.assets_keyed;
  assets_below = update_below (λ a. a.id) n p f assets k t.assets_below;
  rows_keyed = t.rows_keyed;
  rows_below = t.rows_below;
  rows_known = t.rows_known;
  tracked = All-update_where (IsTracked rows) p f assets t.tracked (
      All-map (IsTracked rows) (λ a. p a ≡ true → IsTracked rows (f a)) (λ a h _. rw (k a, s a) h)
        assets t.tracked);
}

-- The asset that was found takes another state while the count of its open assignments follows.
move-IsTracked :
    (p : Asset → Bool) (status : AssetStatus) (a : Asset) (assets : List Asset)
    (rows rows' : List AssetAssignment)
    → IsKeyed (λ (b : Asset). b.id) assets
    → find_first p assets ≡ some a
    → All (IsTracked rows) assets
    → IsTracked rows' (with_status status a)
    → ((b : Asset) → b.id ≢ a.id → count (is_open b.id) rows' ≡ count (is_open b.id) rows)
    → All (IsTracked rows') (update_where (λ b. b.id == a.id) (with_status status) assets)
move-IsTracked p status a assets rows rows' u e t here others =
    All-update_split (IsTracked rows') (λ b. b.id == a.id) (with_status status) assets
      (All-both (IsTracked rows) (λ b. (b.id == a.id) ≡ true → b ≡ a)
        (λ b.
          ((b.id == a.id) ≡ true → IsTracked rows' (with_status status b))
          × ((b.id == a.id) ≡ false → IsTracked rows' b))
        (λ b h only. (
          λ m. subst (λ c. IsTracked rows' (with_status status c)) (sym (only m)) here,
          λ m. ground (arith, others b),
        ))
        assets t (find_first-only (λ b. b.id) p assets a u e))

pub assign-Tracked :
    (n : ℕ) (p : Asset → Bool) (a : Asset) (r : AssetAssignment) (assets : List Asset)
    (rows : List AssetAssignment)
    → find_first p assets ≡ some a
    → is_assigned a ≡ false
    → r.id ≡ n
    → r.asset_id ≡ a.id
    → r.returned_at ≡ none
    → Tracked n assets rows
    → Tracked
        (n + 1)
        (update_where (λ b. b.id == a.id) (with_status assigned) assets)
        (create r rows)
assign-Tracked n p a r assets rows e idle i of fresh t =
    let none_open = find_first-All (IsTracked rows) p assets a t.tracked e in
    let known = find_first-All (λ b. b.id < n) p assets a t.assets_below e in
    record {
      assets_keyed =
          IsKeyed-update_where (λ b. b.id) (λ b. b.id == a.id) (with_status assigned) (λ b _. refl)
            assets t.assets_keyed;
      assets_below =
          below_next (λ b. b.id) n (update_where (λ b. b.id == a.id) (with_status assigned) assets)
            (update_below (λ b. b.id) n (λ b. b.id == a.id) (with_status assigned) assets
              (λ b. refl) t.assets_below);
      rows_keyed = create-IsKeyed (λ q. q.id) n r rows i t.rows_keyed t.rows_below;
      rows_below = create_below (λ q. q.id) n r rows (omega arith) t.rows_below;
      rows_known = create_below (λ q. q.asset_id) n r rows (omega arith) t.rows_known;
      tracked =
          move-IsTracked p assigned a assets rows (create r rows) t.assets_keyed e t.tracked
            (let more = count-create (is_open a.id) r rows in ground (arith, more))
            (λ b d. let more = count-create (is_open b.id) r rows in ground (arith, more));
    }

pub return-Tracked :
    (n : ℕ) (p : Asset → Bool) (status : AssetStatus) (a : Asset) (r : AssetAssignment)
    (f : AssetAssignment → AssetAssignment) (assets : List Asset) (rows : List AssetAssignment)
    → find_first p assets ≡ some a
    → asset_status_eq a.status assigned ≡ true
    → find_last (is_open a.id) rows ≡ some r
    → asset_status_eq status assigned ≡ false
    → ((q : AssetAssignment) → (f q).id ≡ q.id)
    → ((q : AssetAssignment) → (f q).asset_id ≡ q.asset_id)
    → is_some (f r).returned_at ≡ true
    → Tracked n assets rows
    → Tracked n
        (update_where (λ b. b.id == a.id) (with_status status) assets)
        (update_where (λ q. q.id == r.id) f rows)
return-Tracked n p status a r f assets rows e busy o idle k l back t =
    let (there, holds) = find_last-Has (is_open a.id) rows r o in
    let one_open = find_first-All (IsTracked rows) p assets a t.tracked e in
    record {
      assets_keyed =
          IsKeyed-update_where (λ b. b.id) (λ b. b.id == a.id) (with_status status) (λ b _. refl)
            assets t.assets_keyed;
      assets_below =
          update_below (λ b. b.id) n (λ b. b.id == a.id) (with_status status) assets (λ b. refl)
            t.assets_below;
      rows_keyed =
          IsKeyed-update_where (λ q. q.id) (λ q. q.id == r.id) f (λ q _. k q) rows t.rows_keyed;
      rows_below = update_below (λ q. q.id) n (λ q. q.id == r.id) f rows k t.rows_below;
      rows_known = update_below (λ q. q.asset_id) n (λ q. q.id == r.id) f rows l t.rows_known;
      tracked =
          move-IsTracked p status a assets rows (update_where (λ q. q.id == r.id) f rows)
            t.assets_keyed e t.tracked
            (let less = count-update_found (λ q. q.id) (is_open a.id) f rows r t.rows_keyed there in
              ground (arith, less, l r))
            (λ b d.
              let same =
                count-update_found (λ q. q.id) (is_open b.id) f rows r t.rows_keyed there in
              ground (arith, same, l r));
    }
