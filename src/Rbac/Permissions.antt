-- ===== src/Rbac/Permissions.antt =====
-- What a list of permissions allows.
use igreen_backend.Base.{
  ◌+◌, ◌≡◌, refl, ap, inl, inr, Bool, true, false, String, List, [], ◌∷◌, ◌++◌, arith, ◌&&◌, ◌||◌,
  ◌==◌, not, includes, length, Bool-cases, ==→eq,
}
use igreen_backend.Rbac.{distinct, merged, refreshed, is_wildcard}
use text.Mathlib.Text.{◌==◌ as str_eq}
use text.Mathlib.TextEquality.{eq_iff}

abbrev pub allows : List String → String → Bool
allows ps p = includes ps p || includes ps "*"

-- No element stands twice.
abbrev pub IsDistinct : List String → Type 0
IsDistinct ps = length (distinct [] ps) ≡ length ps

includes-append :
    (xs ys : List String) (p : String) → includes (xs ++ ys) p ≡ (includes xs p || includes ys p)
includes-append [] ys p = refl
includes-append (x ∷ xs) ys p = ground (arith, includes-append xs ys p)

same_included :
    (seen : List String) (q p : String) → str_eq q p ≡ true → includes seen q ≡ includes seen p
same_included seen q p e = ap (includes seen) ((eq_iff q p).0 e)

includes-distinct :
    (ps seen : List String) (p : String)
    → includes (distinct seen ps) p ≡ (includes ps p && not (includes seen p))
includes-distinct [] seen p = refl
includes-distinct (q ∷ ps) seen p = elim (Bool-cases (includes seen q)) [
  | inl e ↦ rw (e, distinct) (ground (arith, includes-distinct ps seen p, same_included seen q p))
  | inr e ↦
      rw (e, distinct) (ground (arith, includes-distinct ps (q ∷ seen) p, same_included seen q p))
]

distinct_twice : (ps seen : List String) → distinct seen (distinct seen ps) ≡ distinct seen ps
distinct_twice [] seen = refl
distinct_twice (q ∷ ps) seen = elim (Bool-cases (includes seen q)) [
  | inl e ↦ rw (e, distinct) (distinct_twice ps seen)
  | inr e ↦ rw (e, distinct) (rw (e, distinct) (ap (λ r. q ∷ r) (distinct_twice ps (q ∷ seen))))
]

-- What has been seen after `ps`.
abbrev seen_after : List String → List String → List String
seen_after seen [] = seen
seen_after seen (q ∷ ps) = elim (includes seen q) [
  | true ↦ seen_after seen ps
  | false ↦ seen_after (q ∷ seen) ps
]

includes-seen_after :
    (ps seen : List String) (p : String)
    → includes (seen_after seen ps) p ≡ (includes seen p || includes ps p)
includes-seen_after [] seen p = ground arith
includes-seen_after (q ∷ ps) seen p = elim (Bool-cases (includes seen q)) [
  | inl e ↦
      rw (e, seen_after) (ground (arith, includes-seen_after ps seen p, same_included seen q p))
  | inr e ↦ rw (e, seen_after) (ground (arith, includes-seen_after ps (q ∷ seen) p))
]

length-distinct_append :
    (xs ys seen : List String)
    → length (distinct seen (xs ++ ys))
      ≡ length (distinct seen xs) + length (distinct (seen_after seen xs) ys)
length-distinct_append [] ys seen = omega arith
length-distinct_append (q ∷ xs) ys seen = elim (Bool-cases (includes seen q)) [
  | inl e ↦ rw (e, distinct, seen_after) (length-distinct_append xs ys seen)
  | inr e ↦ rw (e, distinct, seen_after) (omega (arith, length-distinct_append xs ys (q ∷ seen)))
]

nothing_included : (ps : List String) (p : String) → length ps ≡ 0 → includes ps p ≡ false
nothing_included [] p h = refl
nothing_included (q ∷ ps) p h = absurd (omega (arith, h))

-- When the union is as long as the list, it adds nothing.
nothing_added :
    (existing canonical : List String) (p : String)
    → IsDistinct existing
    → length (merged existing canonical) ≡ length existing
    → includes canonical p ≡ true
    → includes existing p ≡ true
unfolding merged
nothing_added existing canonical p d h k =
    let rest : length (distinct (seen_after [] existing) canonical) ≡ 0 =
      omega (arith, length-distinct_append existing canonical [], d, h) in
    let none_left = nothing_included (distinct (seen_after [] existing) canonical) p rest in
    ground (
      arith,
      none_left,
      includes-distinct canonical (seen_after [] existing) p,
      includes-seen_after existing [] p,
    )

includes-merged :
    (existing canonical : List String) (p : String)
    → includes (merged existing canonical) p ≡ (includes existing p || includes canonical p)
unfolding merged
includes-merged existing canonical p =
    ground
      (arith, includes-distinct (existing ++ canonical) [] p, includes-append existing canonical p)

wildcard_included : (ps : List String) → is_wildcard ps ≡ true → includes ps "*" ≡ true
wildcard_included [] h = absurd (cc)
wildcard_included (q ∷ []) h = rw h refl
wildcard_included (q ∷ r ∷ ps) h = absurd (cc)

-- A role whose permissions stand once allows after its turn what it allowed and what the canonical
-- list allows.
pub allows-refreshed :
    (existing canonical : List String) (p : String)
    → IsDistinct existing
    → allows (refreshed existing canonical) p ≡ (allows existing p || allows canonical p)
unfolding refreshed
allows-refreshed existing canonical p d = elim (Bool-cases (includes existing "*")) [
  | inl e ↦ rw e (ground arith)
  | inr e ↦ elim (Bool-cases (is_wildcard canonical)) [
    | inl w ↦ rw (e, w) (ground (arith, wildcard_included canonical w))
    | inr w ↦ elim (Bool-cases (length (merged existing canonical) == length existing)) [
      | inl l ↦
          let added = λ (q : String). nothing_added existing canonical q d (==→eq _ _ l) in
          rw (e, w, l) (ground (arith, added p, added "*"))
      | inr l ↦
          rw (e, w, l)
            (ground
              (arith, includes-merged existing canonical p, includes-merged existing canonical "*"))
    ]
  ]
]

pub refreshed-IsDistinct :
    (existing canonical : List String)
    → IsDistinct existing
    → IsDistinct (refreshed existing canonical)
unfolding refreshed merged
refreshed-IsDistinct existing canonical d = elim (Bool-cases (includes existing "*")) [
  | inl e ↦ rw e d
  | inr e ↦ elim (Bool-cases (is_wildcard canonical)) [
    | inl w ↦ rw (e, w) refl
    | inr w ↦ elim (Bool-cases (length (merged existing canonical) == length existing)) [
      | inl l ↦ rw (e, w, l) d
      | inr l ↦ rw (e, w, l) (ap length (distinct_twice (existing ++ canonical) []))
    ]
  ]
]
