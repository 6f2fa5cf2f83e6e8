-- ===== src/Store/Table/Evolution.antt =====
-- How a table changes: the rows it had stand where they stood, and new ones behind.
use igreen_backend.Base.{
  ℕ, ◌≡◌, ◌⊎◌, inl, inr, Bool, true, none, some, List, [], ◌∷◌, arith, ◌==◌, All, Bool-cases,
  Option-cases, All-map, subst, is_some, sym,
}
use igreen_backend.Store.Table.{
  find_first, update_where, create, IsKeyed, find_first-true, find_first-only,
}

module _ {ℓ} {A : Type ℓ} where
  -- A table after some steps: each old row stands where it stood, related to what it was, and
  -- new rows stand behind.
  abbrev pub Evolves : (A → A → Type 0) → (A → Type 0) → List A → List A → Type 0
  Evolves R New [] ys = All New ys
  Evolves R New (x ∷ xs) [] = ⊥
  Evolves R New (x ∷ xs) (y ∷ ys) = R x y × Evolves R New xs ys

  pub Evolves-refl :
      (R : A → A → Type 0) (New : A → Type 0)
      → ((x : A) → R x x)
      → (xs : List A) → Evolves R New xs xs
  Evolves-refl R New r [] = tt
  Evolves-refl R New r (x ∷ xs) = (r x, Evolves-refl R New r xs)

  pub Evolves-create :
      (R : A → A → Type 0) (New : A → Type 0)
      → ((x : A) → R x x)
      → (a : A) → New a
      → (xs : List A) → Evolves R New xs (create a xs)
  Evolves-create R New r a n [] = (n, tt)
  Evolves-create R New r a n (x ∷ xs) = (r x, Evolves-create R New r a n xs)

  pub Evolves-update_where :
      (R : A → A → Type 0) (New : A → Type 0) (p : A → Bool) (f : A → A)
      → ((x : A) → R x x)
      → (xs : List A) → All (λ x. p x ≡ true → R x (f x)) xs
      → Evolves R New xs (update_where p f xs)
  Evolves-update_where R New p f r [] h = tt
  Evolves-update_where R New p f r (x ∷ xs) h = elim (Bool-cases (p x)) [
    | inl e ↦ rw e (h.0 e, Evolves-update_where R New p f r xs h.1)
    | inr e ↦ rw e (r x, Evolves-update_where R New p f r xs h.1)
  ]

  -- `update({ where: { id } })` of a row that `findFirst` has found.
  pub Evolves-update_found :
      (R : A → A → Type 0) (New : A → Type 0) (key : A → ℕ) (p : A → Bool) (id : ℕ) (f : A → A)
      → ((x : A) → R x x)
      → ((y : A) → p y ≡ true → key y ≡ id)
      → (xs : List A) (x : A) → IsKeyed key xs
      → find_first p xs ≡ some x
      → R x (f x)
      → Evolves R New xs (update_where (λ y. key y == id) f xs)
  Evolves-update_found R New key p id f r k xs x u h s =
      subst (λ i. Evolves R New xs (update_where (λ y. key y == i) f xs))
        (k x (find_first-true p xs x h))
        (Evolves-update_where R New (λ y. key y == key x) f r xs
          (All-map (λ y. (key y == key x) ≡ true → y ≡ x) (λ y. (key y == key x) ≡ true → R y (f y))
            (λ y e m. subst (λ z. R z (f z)) (sym (e m)) s) xs (find_first-only key p xs x u h)))

  -- A handler that updates the row it has found, or writes nothing.
  pub Evolves-effect :
      (R : A → A → Type 0) (New : A → Type 0) (key : A → ℕ) (p : A → Bool) (id : ℕ) (S : A → Type 0)
      (f : A → A → A)
      → ((x : A) → R x x)
      → ((y : A) → p y ≡ true → key y ≡ id)
      → ((x : A) → S x → R x (f x x))
      → (xs ys : List A) → IsKeyed key xs
      → (find_first p xs ≡ none → ys ≡ xs)
      → ((x : A)
          → find_first p xs ≡ some x
          → (ys ≡ xs) ⊎ (S x × (ys ≡ update_where (λ y. key y == id) (f x) xs)))
      → Evolves R New xs ys
  Evolves-effect R New key p id S f r k s xs ys u miss hit = elim (Option-cases (find_first p xs)) [
    | inl e ↦ rw (miss e) (Evolves-refl R New r xs)
    | inr (x, e) ↦ elim (hit x e) [
      | inl same ↦ rw same (Evolves-refl R New r xs)
      | inr (g, updated) ↦
          rw updated (Evolves-update_found R New key p id (f x) r k xs x u e (s x g))
    ]
  ]

  pub Evolves-trans :
      (R : A → A → Type 0)
      → ((x y z : A) → R x y → R y z → R x z)
      → (xs ys zs : List A) → Evolves R (λ _. ⊥) xs ys
      → Evolves R (λ _. ⊥) ys zs
      → Evolves R (λ _. ⊥) xs zs
  Evolves-trans R t [] [] zs h k = k
  Evolves-trans R t [] (y ∷ ys) zs h k = absurd h.0
  Evolves-trans R t (x ∷ xs) [] zs h k = absurd h
  Evolves-trans R t (x ∷ xs) (y ∷ ys) [] h k = absurd k
  Evolves-trans R t (x ∷ xs) (y ∷ ys) (z ∷ zs) h k =
      (t x y z h.0 k.0, Evolves-trans R t xs ys zs h.1 k.1)

  -- Rows that are new stay so.
  All-Evolves :
      (R : A → A → Type 0) (New : A → Type 0)
      → ((y z : A) → R y z → New y → New z)
      → (ys zs : List A) → All New ys
      → Evolves R New ys zs
      → All New zs
  All-Evolves R New n [] zs h k = k
  All-Evolves R New n (y ∷ ys) [] h k = absurd k
  All-Evolves R New n (y ∷ ys) (z ∷ zs) h k = (n y z k.0 h.0, All-Evolves R New n ys zs h.1 k.1)

  pub Evolves-then :
      (R : A → A → Type 0) (New : A → Type 0)
      → ((x y z : A) → R x y → R y z → R x z)
      → ((y z : A) → R y z → New y → New z)
      → (xs ys zs : List A) → Evolves R New xs ys
      → Evolves R New ys zs
      → Evolves R New xs zs
  Evolves-then R New t n [] ys zs h k = All-Evolves R New n ys zs h k
  Evolves-then R New t n (x ∷ xs) [] zs h k = absurd h
  Evolves-then R New t n (x ∷ xs) (y ∷ ys) [] h k = absurd k
  Evolves-then R New t n (x ∷ xs) (y ∷ ys) (z ∷ zs) h k =
      (t x y z h.0 k.0, Evolves-then R New t n xs ys zs h.1 k.1)

  pub Evolves-map :
      (R Q : A → A → Type 0) (New : A → Type 0)
      → ((x y : A) → R x y → Q x y)
      → (xs ys : List A) → Evolves R (λ _. ⊥) xs ys
      → Evolves Q New xs ys
  Evolves-map R Q New f [] [] h = tt
  Evolves-map R Q New f [] (y ∷ ys) h = absurd h.0
  Evolves-map R Q New f (x ∷ xs) [] h = h
  Evolves-map R Q New f (x ∷ xs) (y ∷ ys) h = (f x y h.0, Evolves-map R Q New f xs ys h.1)

  -- What is found after the steps was there to be found before them.
  pub Evolves-found :
      (R : A → A → Type 0) (p : A → Bool)
      → ((x y : A) → R x y → p y ≡ true → p x ≡ true)
      → (xs ys : List A) → Evolves R (λ _. ⊥) xs ys
      → is_some (find_first p ys) ≡ true
      → is_some (find_first p xs) ≡ true
  Evolves-found R p k [] [] h f = cc
  Evolves-found R p k [] (y ∷ ys) h f = absurd h.0
  Evolves-found R p k (x ∷ xs) [] h f = absurd h
  Evolves-found R p k (x ∷ xs) (y ∷ ys) h f =
      ground (arith, k x y h.0, Evolves-found R p k xs ys h.1)
