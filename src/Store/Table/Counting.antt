-- ===== src/Store/Table/Counting.antt =====
-- How an update by identifier changes the count of the rows with a property.
use igreen_backend.Base.{
  ℕ, ◌+◌, ◌≡◌, ◌≢◌, refl, ◌⊎◌, inl, inr, Bool, true, false, none, some, List, [], ◌∷◌, arith, ◌==◌,
  if◌then◌else◌, All, Bool-cases, subst, Option-cases, ==_refl,
}
use igreen_backend.Store.Table.{find_last, count, update_where, create, IsKeyed}

-- a row counts as one or as none
abbrev pub tally : Bool → ℕ
tally b = if b then 1 else 0

module _ {A : Type 0} where
  -- The row stands in the table.
  abbrev pub Has : A → List A → Type 0
  Has x [] = ⊥
  Has x (y ∷ ys) = (y ≡ x) ⊎ Has x ys

  pub find_last-Has :
      (p : A → Bool) (xs : List A) (x : A) → find_last p xs ≡ some x → Has x xs × (p x ≡ true)
  find_last-Has p [] x h = absurd (cc)
  find_last-Has p (y ∷ ys) x h = elim (Option-cases (find_last p ys)) [
    | inl e ↦ (inl (ground arith), ground arith)
    | inr (z, e) ↦
        let found : find_last p ys ≡ some x = ground arith in
        let (there, holds) = find_last-Has p ys x found in (inr there, holds)
  ]

  All-Has {κ} : (P : A → Type κ) (xs : List A) (x : A) → Has x xs → All P xs → P x
  All-Has P [] x h a = absurd h
  All-Has P (y ∷ ys) x (inl e) a = subst P e a.0
  All-Has P (y ∷ ys) x (inr h) a = All-Has P ys x h a.1

  count-update_other :
      (key : A → ℕ) (p : A → Bool) (k : ℕ) (f : A → A) (xs : List A)
      → All (λ y. k ≢ key y) xs
      → count p (update_where (λ y. key y == k) f xs) ≡ count p xs
  count-update_other key p k f [] h = refl
  count-update_other key p k f (x ∷ xs) h =
      let other : (key x == k) ≡ false = ground (arith, h.0) in
      rw other (ground (arith, count-update_other key p k f xs h.1))

  -- The count loses the row as it was and gains it as it is.
  pub count-update_found :
      (key : A → ℕ) (p : A → Bool) (f : A → A) (xs : List A) (x : A)
      → IsKeyed key xs
      → Has x xs
      → count p (update_where (λ y. key y == key x) f xs) + tally (p x)
        ≡ count p xs + tally (p (f x))
  count-update_found key p f [] x u h = absurd h
  count-update_found key p f (y ∷ ys) x u (inl e) =
      subst
        (λ z.
          count p (update_where (λ w. key w == key z) f (y ∷ ys)) + tally (p z)
          ≡ count p (y ∷ ys) + tally (p (f z)))
        e (rw (==_refl (key y)) (ground (arith, count-update_other key p (key y) f ys u.0)))
  count-update_found key p f (y ∷ ys) x u (inr h) =
      let other : (key y == key x) ≡ false =
        ground (arith, All-Has (λ z. key y ≢ key z) ys x h u.0) in
      rw other (ground (arith, count-update_found key p f ys x u.1 h))

  pub count-create :
      (p : A → Bool) (a : A) (xs : List A) → count p (create a xs) ≡ count p xs + tally (p a)
  count-create p a [] = ground arith
  count-create p a (x ∷ xs) = ground (arith, count-create p a xs)

  pub count-none : (p : A → Bool) (xs : List A) → All (λ x. p x ≡ false) xs → count p xs ≡ 0
  count-none p [] h = refl
  count-none p (x ∷ xs) h = rw h.0 (count-none p xs h.1)

  pub find_last-none : (p : A → Bool) (xs : List A) → count p xs ≡ 0 → find_last p xs ≡ none
  find_last-none p [] h = refl
  find_last-none p (x ∷ xs) h = elim (Bool-cases (p x)) [
    | inl e ↦ absurd (ground (arith, rw e at h))
    | inr e ↦ rw (find_last-none p xs (rw e at h), e) refl
  ]
