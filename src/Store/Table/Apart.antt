-- ===== src/Store/Table/Apart.antt =====
-- Tables in which no row clashes with a later one.
use igreen_backend.Base.{◌≡◌, Bool, false, List, [], ◌∷◌, All, All-append}
use igreen_backend.Store.Table.{create}
use igreen_backend.Store.Table.Evolution.{Evolves}

module _ {A : Type 0} (clashes : A → A → Bool) where
  abbrev pub Apart : List A → Type 0
  Apart [] = Unit
  Apart (x ∷ xs) = All (λ y. clashes x y ≡ false) xs × Apart xs

  pub create-Apart :
      (a : A) (xs : List A) → All (λ x. clashes x a ≡ false) xs → Apart xs → Apart (create a xs)
  create-Apart a [] f h = (tt, tt)
  create-Apart a (x ∷ xs) f h =
      (All-append (λ y. clashes x y ≡ false) xs (a ∷ []) h.0 (f.0, tt), create-Apart a xs f.1 h.1)

  module _ (R : A → A → Type 0)
      (keeps : (a b c d : A) → R a c → R b d → clashes a b ≡ false → clashes c d ≡ false) where
    All-Apart :
        (a c : A)
        → R a c
        → (xs ys : List A) → Evolves R (λ _. ⊥) xs ys
        → All (λ y. clashes a y ≡ false) xs
        → All (λ y. clashes c y ≡ false) ys
    All-Apart a c p [] [] e h = tt
    All-Apart a c p [] (y ∷ ys) e h = absurd e.0
    All-Apart a c p (x ∷ xs) [] e h = absurd e
    All-Apart a c p (x ∷ xs) (y ∷ ys) e h = (keeps a x c y p e.0 h.0, All-Apart a c p xs ys e.1 h.1)

    -- Rows that change without beginning to clash stay apart.
    pub Evolves-Apart : (xs ys : List A) → Evolves R (λ _. ⊥) xs ys → Apart xs → Apart ys
    Evolves-Apart [] [] e h = tt
    Evolves-Apart [] (y ∷ ys) e h = absurd e.0
    Evolves-Apart (x ∷ xs) [] e h = absurd e
    Evolves-Apart (x ∷ xs) (y ∷ ys) e h =
        (All-Apart x y e.0 xs ys e.1 h.0, Evolves-Apart xs ys e.1 h.1)
