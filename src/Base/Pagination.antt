-- ===== src/Base/Pagination.antt =====
-- Pages of a listing (src/common/dto/pagination.dto.ts), and the order of a listing.
use igreen_backend.Base.{
  ℕ, zero, suc, ◌+◌, ◌-◌, ◌*◌, ◌/◌, List, [], ◌∷◌, ◌++◌, All, leb, if◌then◌else◌, length,
  All-append,
}

-- class PaginationDto, its defaults filled in
pub record PaginationDto : Type 0 where
  pub page : ℕ
  pub limit : ℕ

-- `skip`; the validator keeps `page` at 1 or more
abbrev pub skip : PaginationDto → ℕ
skip dto = (dto.page - 1) * dto.limit

-- interface PaginatedResult, its `meta` object flattened
pub record PaginatedResult (A : Type 0) : Type 0 where
  pub data_rows : List A
  pub total : ℕ
  pub page : ℕ
  pub limit : ℕ
  pub total_pages : ℕ

module _ {A : Type 0} where
  abbrev pub paginate : List A → ℕ → PaginationDto → PaginatedResult A
  paginate rows total dto = record {
    data_rows = rows;
    total = total;
    page = dto.page;
    limit = dto.limit;
    total_pages = (total + dto.limit - 1) / dto.limit;
  }

  abbrev pub drop : ℕ → List A → List A
  drop zero xs = xs
  drop (suc n) [] = []
  drop (suc n) (x ∷ xs) = drop n xs

  abbrev pub take : ℕ → List A → List A
  take zero xs = []
  take (suc n) [] = []
  take (suc n) (x ∷ xs) = x ∷ take n xs

  -- `orderBy: { createdAt: 'desc' }` on a table in the order of creation
  abbrev pub newest_first : List A → List A
  newest_first [] = []
  newest_first (x ∷ xs) = newest_first xs ++ (x ∷ [])

  -- `findMany({ where, orderBy: { createdAt: 'desc' }, skip, take })` and `count({ where })`,
  -- given the rows that `where` selects
  abbrev pub newest_page : List A → PaginationDto → PaginatedResult A
  newest_page rows dto =
      paginate (take dto.limit (drop (skip dto) (newest_first rows))) (length rows) dto

  -- `orderBy` a number, upwards: an insertion sort
  abbrev pub insert_by : (A → ℕ) → A → List A → List A
  insert_by key a [] = a ∷ []
  insert_by key a (x ∷ xs) =
      let rest = insert_by key a xs in if leb (key a) (key x) then a ∷ x ∷ xs else x ∷ rest

  abbrev pub sort_by : (A → ℕ) → List A → List A
  sort_by key [] = []
  sort_by key (x ∷ xs) = insert_by key x (sort_by key xs)

  All-drop : (P : A → Type 0) (n : ℕ) (xs : List A) → All P xs → All P (drop n xs)
  All-drop P zero xs h = h
  All-drop P (suc n) [] h = tt
  All-drop P (suc n) (x ∷ xs) h = All-drop P n xs h.1

  All-take : (P : A → Type 0) (n : ℕ) (xs : List A) → All P xs → All P (take n xs)
  All-take P zero xs h = tt
  All-take P (suc n) [] h = tt
  All-take P (suc n) (x ∷ xs) h = (h.0, All-take P n xs h.1)

  All-newest_first : (P : A → Type 0) (xs : List A) → All P xs → All P (newest_first xs)
  All-newest_first P [] h = tt
  All-newest_first P (x ∷ xs) h =
      All-append P (newest_first xs) (x ∷ []) (All-newest_first P xs h.1) (h.0, tt)

  -- What holds of the selected rows holds of the page.
  pub All-newest_page :
      (P : A → Type 0) (rows : List A) (dto : PaginationDto)
      → All P rows
      → All P (newest_page rows dto).data_rows
  All-newest_page P rows dto h =
      All-take P dto.limit _ (All-drop P (skip dto) _ (All-newest_first P rows h))
