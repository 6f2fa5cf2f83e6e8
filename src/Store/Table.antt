-- ===== src/Store/Table.antt =====
-- The Prisma calls on one table, a list of rows in the order of their creation.
pub mod Apart
pub mod Counting
pub mod Evolution
pub mod Selection
use igreen_backend.Base.{
  ℕ, suc, ◌≡◌, ◌≢◌, refl, ◌⊎◌, inl, inr, Bool, true, false, Option, none, some, List, [], ◌∷◌, ◌++◌,
  arith, ◌==◌, if◌then◌else◌, filter, All, Bool-cases, Option-cases, ==→eq, ==_refl, All-map, subst,
  is_some, elem, map, sym, ◌∙◌, ap, ◌<◌, All-append,
}

module _ {ℓ} {A : Type ℓ} where
  -- `findFirst({ where })`, and `findUnique`
  abbrev pub find_first : (A → Bool) → List A → Option A
  find_first p [] = none
  find_first p (x ∷ xs) = let rest = find_first p xs in if p x then some x else rest

  -- `findFirst({ where, orderBy })` on the time of creation, downwards: the newest row
  abbrev pub find_last : (A → Bool) → List A → Option A
  find_last p [] = none
  find_last p (x ∷ xs) = elim (find_last p xs) [
    | some y ↦ some y
    | none ↦ if p x then some x else none
  ]

  -- `findMany({ where })`
  abbrev pub find_many : (A → Bool) → List A → List A
  find_many = filter

  -- `count({ where })`
  abbrev pub count : (A → Bool) → List A → ℕ
  count p [] = 0
  count p (x ∷ xs) = let rest = count p xs in if p x then suc rest else rest

  -- `update({ where, data })` on a key, and `updateMany`
  abbrev pub update_where : (A → Bool) → (A → A) → List A → List A
  update_where p f [] = []
  update_where p f (x ∷ xs) = (if p x then f x else x) ∷ update_where p f xs

  -- `update({ where, data })` on a unique key: of the one row that has it
  abbrev pub update_unique : (A → Bool) → (A → A) → List A → List A
  update_unique p f [] = []
  update_unique p f (x ∷ xs) = let rest = update_unique p f xs in if p x then f x ∷ xs else x ∷ rest

  -- `create({ data })`
  abbrev pub create : A → List A → List A
  create a xs = xs ++ (a ∷ [])

  -- No two rows have the same key: the table's primary key.
  abbrev pub IsKeyed : (A → ℕ) → List A → Type 0
  IsKeyed key [] = Unit
  IsKeyed key (x ∷ xs) = All (λ y. key x ≢ key y) xs × IsKeyed key xs

  pub find_first-true : (p : A → Bool) (xs : List A) (x : A) → find_first p xs ≡ some x → p x ≡ true
  find_first-true p [] x h = cc
  find_first-true p (y ∷ xs) x h = ground (arith, find_first-true p xs x)

  -- What holds of all rows holds of the one that is found.
  pub find_first-All {κ} :
      (P : A → Type κ) (p : A → Bool) (xs : List A) (x : A)
      → All P xs
      → find_first p xs ≡ some x
      → P x
  find_first-All P p [] x a h = absurd (cc)
  find_first-All P p (y ∷ xs) x a h = elim (Bool-cases (p y)) [
    | inl e ↦ subst P (ground arith) a.0
    | inr e ↦ find_first-All P p xs x a.1 (rw e at h)
  ]

  pub find_first-none :
      (p : A → Bool) (xs : List A) → find_first p xs ≡ none → All (λ x. p x ≡ false) xs
  find_first-none p [] h = tt
  find_first-none p (x ∷ xs) h = elim (Bool-cases (p x)) [
    | inl e ↦ absurd (cc (rw e at h))
    | inr e ↦ (e, find_first-none p xs (rw e at h))
  ]

  -- A wider condition finds a row too.
  pub find_first-wider :
      (p q : A → Bool)
      → ((x : A) → p x ≡ true → q x ≡ true)
      → (xs : List A) (x : A) → find_first p xs ≡ some x
      → (y : A) × (find_first q xs ≡ some y)
  find_first-wider p q w [] x h = absurd (cc)
  find_first-wider p q w (y ∷ xs) x h = elim (Bool-cases (q y)) [
    | inl e ↦ (y, rw e refl)
    | inr e ↦
        let later : find_first p xs ≡ some x = ground (arith, w y) in
        let (z, found) = find_first-wider p q w xs x later in (z, rw (e, found) refl)
  ]

  -- A row with the key of the row that is found is that row.
  pub find_first-only :
      (key : A → ℕ) (p : A → Bool) (xs : List A) (x : A)
      → IsKeyed key xs
      → find_first p xs ≡ some x
      → All (λ y. (key y == key x) ≡ true → y ≡ x) xs
  find_first-only key p [] x u h = tt
  find_first-only key p (y ∷ xs) x u h = elim (Bool-cases (p y)) [
    | inl e ↦
        let here : y ≡ x = ground arith in
        (
          λ _. here,
          All-map (λ z. key y ≢ key z) (λ z. (key z == key x) ≡ true → z ≡ x)
              (λ z d m. absurd (d (ap key here ∙ sym (==→eq _ _ m)))) xs u.0,
        )
    | inr e ↦ (
      λ m. absurd (find_first-All (λ z. key y ≢ key z) p xs x u.0 (rw e at h) (==→eq _ _ m)),
      find_first-only key p xs x u.1 (rw e at h),
    )
  ]

  pub All-update_where :
      (P : A → Type 0) (p : A → Bool) (f : A → A) (xs : List A)
      → All P xs
      → All (λ y. p y ≡ true → P (f y)) xs
      → All P (update_where p f xs)
  All-update_where P p f [] h k = tt
  All-update_where P p f (y ∷ ys) h k = elim (Bool-cases (p y)) [
    | inl e ↦ rw e (k.0 e, All-update_where P p f ys h.1 k.1)
    | inr e ↦ rw e (h.0, All-update_where P p f ys h.1 k.1)
  ]

  -- The rows that are updated and the others apart.
  pub All-update_split :
      (P : A → Type 0) (p : A → Bool) (f : A → A) (xs : List A)
      → All (λ y. (p y ≡ true → P (f y)) × (p y ≡ false → P y)) xs
      → All P (update_where p f xs)
  All-update_split P p f [] h = tt
  All-update_split P p f (y ∷ ys) h = elim (Bool-cases (p y)) [
    | inl e ↦ rw e (h.0.0 e, All-update_split P p f ys h.1)
    | inr e ↦ rw e (h.0.1 e, All-update_split P p f ys h.1)
  ]

  -- `update({ where: { id } })` of a row that was found keeps what holds of all rows.
  pub All-update_found :
      (P : A → Type 0) (key : A → ℕ) (p : A → Bool) (f : A → A) (xs : List A) (x : A)
      → IsKeyed key xs
      → All P xs
      → find_first p xs ≡ some x
      → P (f x)
      → All P (update_where (λ y. key y == key x) f xs)
  All-update_found P key p f xs x u h e q =
      All-update_where P (λ y. key y == key x) f xs h
        (All-map (λ y. (key y == key x) ≡ true → y ≡ x) (λ y. (key y == key x) ≡ true → P (f y))
          (λ y same m. subst (λ z. P (f z)) (sym (same m)) q) xs (find_first-only key p xs x u e))

  -- The keys of the selected rows contain the key of each selected row.
  pub selected-elem :
      (key : A → ℕ) (p : A → Bool) (xs : List A)
      → All (λ x. p x ≡ true → elem (key x) (map key (find_many p xs)) ≡ true) xs
  selected-elem key p [] = tt
  selected-elem key p (x ∷ xs) =
      let keys = map key (find_many p xs) in
      (
        λ h. rw h (ground arith),
        All-map (λ y. p y ≡ true → elem (key y) keys ≡ true)
            (λ y. p y ≡ true → elem (key y) (map key (find_many p (x ∷ xs))) ≡ true)
            (λ y f h. elim (Bool-cases (p x)) [
              | inl e ↦ let known : elem (key y) keys ≡ true = f h in rw e (ground arith)
              | inr e ↦ rw e (f h)
            ])
            xs (selected-elem key p xs),
      )

  -- Once an update has taken from the rows what selects them, none is selected.
  pub find_many-update_where :
      (p q r : A → Bool) (f : A → A) (xs : List A)
      → All (λ x. p x ≡ true → q x ≡ true) xs
      → ((x : A) → r x ≡ true → p x ≡ true)
      → ((x : A) → r (f x) ≡ false)
      → find_many r (update_where q f xs) ≡ []
  find_many-update_where p q r f [] h k d = refl
  find_many-update_where p q r f (x ∷ xs) h k d =
      ground (arith, h.0, k x, d x, find_many-update_where p q r f xs h.1 k d)

  -- What the condition of a selection gives holds of all selected rows.
  pub find_many-All :
      (P : A → Type 0) (p : A → Bool)
      → ((x : A) → p x ≡ true → P x)
      → (xs : List A) → All P (find_many p xs)
  find_many-All P p k [] = tt
  find_many-All P p k (x ∷ xs) = elim (Bool-cases (p x)) [
    | inl e ↦ rw e (k x e, find_many-All P p k xs)
    | inr e ↦ rw e (find_many-All P p k xs)
  ]

  -- A new row with a number that is above all keys keeps them distinct.
  pub IsKeyed-create :
      (key : A → ℕ) (a : A) (xs : List A)
      → IsKeyed key xs
      → All (λ y. key y < key a) xs
      → IsKeyed key (create a xs)
  IsKeyed-create key a [] u h = (tt, tt)
  IsKeyed-create key a (x ∷ xs) u h = (
    All-append (λ y. key x ≢ key y) xs (a ∷ []) u.0 ((λ e. omega arith), tt),
    IsKeyed-create key a xs u.1 h.1,
  )

  -- An update that keeps the key of each row it changes keeps the keys distinct.
  pub IsKeyed-update_where :
      (key : A → ℕ) (p : A → Bool) (f : A → A)
      → ((x : A) → p x ≡ true → key (f x) ≡ key x)
      → (xs : List A) → IsKeyed key xs
      → IsKeyed key (update_where p f xs)
  IsKeyed-update_where key p f k [] u = tt
  IsKeyed-update_where key p f k (x ∷ xs) u =
      let others : All (λ y. key x ≢ key y) (update_where p f xs) =
        All-update_where (λ y. key x ≢ key y) p f xs u.0
          (All-map (λ y. key x ≢ key y) (λ y. p y ≡ true → key x ≢ key (f y))
            (λ y d m e. d (e ∙ k y m)) xs u.0) in
      elim (Bool-cases (p x)) [
        | inl e ↦ rw e (
          All-map (λ y. key x ≢ key y) (λ y. key (f x) ≢ key y) (λ y d q. d (sym (k x e) ∙ q))
              (update_where p f xs) others,
          IsKeyed-update_where key p f k xs u.1,
        )
        | inr e ↦ rw e (others, IsKeyed-update_where key p f k xs u.1)
      ]

  -- The row that an update by identifier has made of the row that was found is found in its place.
  pub find_first-update_found :
      (key : A → ℕ) (p : A → Bool) (f : A → A) (xs : List A) (x : A)
      → IsKeyed key xs
      → find_first p xs ≡ some x
      → p (f x) ≡ true
      → find_first p (update_where (λ y. key y == key x) f xs) ≡ some (f x)
  find_first-update_found key p f [] x u h t = cc
  find_first-update_found key p f (y ∷ xs) x u h t = elim (Bool-cases (p y)) [
    | inl e ↦
        let here : x ≡ y = ground arith in
        subst (λ z. find_first p (update_where (λ w. key w == key z) f (y ∷ xs)) ≡ some (f z))
          (sym here) (rw (==_refl (key y), subst (λ z. p (f z) ≡ true) here t) refl)
    | inr e ↦
        let other : (key y == key x) ≡ false =
          ground (arith, find_first-All (λ z. key y ≢ key z) p xs x u.0 (rw e at h)) in
        rw (other, e) (find_first-update_found key p f xs x u.1 (rw e at h) t)
  ]
