-- ===== src/Store/Table/Selection.antt =====
-- Updates, and what a condition selects before and after them.
use igreen_backend.Base.{
  map, ◌==◌, ==_refl, All-both, ℕ, ◌≡◌, ◌≢◌, refl, inl, inr, Bool, true, false, none, some, List,
  [], ◌∷◌, arith, ap, Bool-cases, All,
}
use igreen_backend.Store.Table.{find_first, find_many, update_where, update_unique, create, IsKeyed}

module _ {A : Type 0} where
  -- A selection that is empty stays so under updates that select no row.
  pub find_many-stays :
      (p q r : A → Bool) (f : A → A)
      → ((x : A) → r x ≡ true → p x ≡ true)
      → ((x : A) → r (f x) ≡ false)
      → (xs : List A) → find_many p xs ≡ []
      → find_many r (update_where q f xs) ≡ []
  find_many-stays p q r f k d [] h = refl
  find_many-stays p q r f k d (x ∷ xs) h = elim (Bool-cases (p x)) [
    | inl e ↦ absurd (cc (rw e at h))
    | inr e ↦
        let rest = find_many-stays p q r f k d xs (rw e at h) in
        elim (Bool-cases (q x)) [ inl s ↦ rw (s, d x) rest | inr s ↦ rw s (ground (arith, k x)) ]
  ]

  pub find_many-none :
      (p : A → Bool) → ((x : A) → p x ≡ false) → (xs : List A) → find_many p xs ≡ []
  find_many-none p h [] = refl
  find_many-none p h (x ∷ xs) = rw (h x, find_many-none p h xs) refl

  pub update_where-none :
      (p : A → Bool) (f : A → A)
      → ((x : A) → p x ≡ false)
      → (xs : List A) → update_where p f xs ≡ xs
  update_where-none p f h [] = refl
  update_where-none p f h (x ∷ xs) = rw (h x, update_where-none p f h xs) refl

  -- An update of the unique row that leaves it as it is.
  pub update_unique-fixed :
      (p : A → Bool) (f : A → A) (x : A)
      → f x ≡ x
      → (xs : List A) → find_first p xs ≡ some x
      → update_unique p f xs ≡ xs
  update_unique-fixed p f x k [] h = refl
  update_unique-fixed p f x k (y ∷ ys) h = elim (Bool-cases (p y)) [
    | inl e ↦ ground arith
    | inr e ↦ rw e (ap (λ zs. y ∷ zs) (update_unique-fixed p f x k ys (rw e at h)))
  ]

  pub find_first-update_unique :
      (p : A → Bool) (f : A → A) (x : A)
      → p (f x) ≡ true
      → (xs : List A) → find_first p xs ≡ some x
      → find_first p (update_unique p f xs) ≡ some (f x)
  find_first-update_unique p f x k [] h = absurd (cc)
  find_first-update_unique p f x k (y ∷ ys) h = elim (Bool-cases (p y)) [
    | inl e ↦ ground arith
    | inr e ↦ rw e (rw e (find_first-update_unique p f x k ys (rw e at h)))
  ]

  -- An update of rows that the condition does not select.
  pub find_first-update_other :
      (p q : A → Bool) (f : A → A)
      → ((x : A) → q x ≡ true → (p x ≡ false) × (p (f x) ≡ false))
      → (xs : List A) → find_first p (update_unique q f xs) ≡ find_first p xs
  find_first-update_other p q f k [] = refl
  find_first-update_other p q f k (x ∷ xs) = elim (Bool-cases (q x)) [
    | inl e ↦ let (was, is) = k x e in ground arith
    | inr e ↦ rw (e, find_first-update_other p q f k xs) refl
  ]

  pub find_first-create_found :
      (p : A → Bool) (a x : A) (xs : List A)
      → find_first p xs ≡ some x
      → find_first p (create a xs) ≡ some x
  find_first-create_found p a x [] h = absurd (cc)
  find_first-create_found p a x (y ∷ ys) h = elim (Bool-cases (p y)) [
    | inl e ↦ ground arith
    | inr e ↦ ground (arith, find_first-create_found p a x ys (rw e at h))
  ]

  pub find_first-create_new :
      (p : A → Bool) (a : A) (xs : List A)
      → find_first p xs ≡ none
      → p a ≡ true
      → find_first p (create a xs) ≡ some a
  find_first-create_new p a [] h k = ground arith
  find_first-create_new p a (x ∷ xs) h k = elim (Bool-cases (p x)) [
    | inl e ↦ absurd (cc (rw e at h))
    | inr e ↦ ground (arith, find_first-create_new p a xs (rw e at h) k)
  ]

  All-find_many : (P : A → Type 0) (p : A → Bool) (xs : List A) → All P xs → All P (find_many p xs)
  All-find_many P p [] h = tt
  All-find_many P p (x ∷ xs) h = elim (Bool-cases (p x)) [
    | inl e ↦ rw e (h.0, All-find_many P p xs h.1)
    | inr e ↦ rw e (All-find_many P p xs h.1)
  ]

  -- Selected rows have distinct keys as all rows do.
  pub IsKeyed-find_many :
      (key : A → ℕ) (p : A → Bool) (xs : List A) → IsKeyed key xs → IsKeyed key (find_many p xs)
  IsKeyed-find_many key p [] h = tt
  IsKeyed-find_many key p (x ∷ xs) h = elim (Bool-cases (p x)) [
    | inl e ↦ rw e (All-find_many (λ y. key x ≢ key y) p xs h.0, IsKeyed-find_many key p xs h.1)
    | inr e ↦ rw e (IsKeyed-find_many key p xs h.1)
  ]

  -- Each row is found by its key.
  pub find_first-key :
      (key : A → ℕ) (xs : List A)
      → IsKeyed key xs
      → All (λ x. find_first (λ y. key y == key x) xs ≡ some x) xs
  find_first-key key [] u = tt
  find_first-key key (x ∷ xs) u = (
    rw (==_refl (key x)) refl,
    All-both (λ y. key x ≢ key y) (λ y. find_first (λ z. key z == key y) xs ≡ some y)
        (λ y. find_first (λ z. key z == key y) (x ∷ xs) ≡ some y)
        (λ y d found. let apart : (key x == key y) ≡ false = ground (arith, d) in rw apart found) xs
        u.0 (find_first-key key xs u.1),
  )

  -- What holds of the selected rows' keys.
  pub All-map-find_many :
      (P : ℕ → Type 0) (key : A → ℕ) (p : A → Bool) (xs : List A)
      → All (λ x. p x ≡ true → P (key x)) xs
      → All P (map key (find_many p xs))
  All-map-find_many P key p [] h = tt
  All-map-find_many P key p (x ∷ xs) h = elim (Bool-cases (p x)) [
    | inl e ↦ rw e (h.0 e, All-map-find_many P key p xs h.1)
    | inr e ↦ rw e (All-map-find_many P key p xs h.1)
  ]

  -- A new row that the condition does not select.
  pub find_first-create_miss :
      (p : A → Bool) (a : A) (xs : List A)
      → p a ≡ false
      → find_first p (create a xs) ≡ find_first p xs
  find_first-create_miss p a [] h = rw h refl
  find_first-create_miss p a (x ∷ xs) h = rw (find_first-create_miss p a xs h) refl

  -- An update of rows that the condition selects neither before nor after.
  pub find_first-update_miss :
      (p q : A → Bool) (f : A → A) (xs : List A)
      → All (λ y. q y ≡ true → (p y ≡ false) × (p (f y) ≡ false)) xs
      → find_first p (update_where q f xs) ≡ find_first p xs
  find_first-update_miss p q f [] h = refl
  find_first-update_miss p q f (x ∷ xs) h = ground (arith, h.0, find_first-update_miss p q f xs h.1)
