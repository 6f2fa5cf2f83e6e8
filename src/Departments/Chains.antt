-- ===== src/Departments/Chains.antt =====
-- Chains of parents, and the loop that follows one.
use igreen_backend.Base.{
  ℕ, zero, suc, ◌+◌, ◌≤◌, ◌≡◌, ◌≢◌, refl, sym, subst, ◌⊎◌, inl, inr, Bool, true, false, Option,
  none, some, List, arith, ◌==◌, Bool-cases, ==→eq,
}
use igreen_backend.Store.Staff.{Department}
use igreen_backend.Departments.{parent_of, check_circular_reference}

-- The chain of parents ends after at most so many departments.
abbrev pub Ends : List Department → ℕ → Option ℕ → Type 0
Ends rows n none = Unit
Ends rows zero (some c) = ⊥
Ends rows (suc n) (some c) = Ends rows n (parent_of rows c)

-- It ends after just so many.
abbrev pub EndsAt : List Department → ℕ → Option ℕ → Type 0
EndsAt rows zero none = Unit
EndsAt rows (suc k) none = ⊥
EndsAt rows zero (some c) = ⊥
EndsAt rows (suc k) (some c) = EndsAt rows k (parent_of rows c)

-- The same parents.
abbrev pub SameParents : List Department → List Department → Type 0
SameParents rows rows' = (c : ℕ) → parent_of rows' c ≡ parent_of rows c

pub Ends-later :
    (rows : List Department) (n b : ℕ) (x : Option ℕ) → n ≤ b → Ends rows n x → Ends rows b x
Ends-later rows n b none le h = tt
Ends-later rows zero b (some c) le h = absurd h
Ends-later rows (suc n) zero (some c) le h = absurd (omega arith)
Ends-later rows (suc n) (suc b) (some c) le h =
    Ends-later rows n b (parent_of rows c) (omega arith) h

pub Ends-SameParents :
    (rows rows' : List Department) (n : ℕ) (x : Option ℕ)
    → SameParents rows rows'
    → Ends rows n x
    → Ends rows' n x
Ends-SameParents rows rows' n none s h = tt
Ends-SameParents rows rows' zero (some c) s h = h
Ends-SameParents rows rows' (suc n) (some c) s h =
    subst (Ends rows' n) (sym (s c)) (Ends-SameParents rows rows' n (parent_of rows c) s h)

pub EndsAt-SameParents :
    (rows rows' : List Department) (n : ℕ) (x : Option ℕ)
    → SameParents rows rows'
    → EndsAt rows n x
    → EndsAt rows' n x
EndsAt-SameParents rows rows' zero none s h = tt
EndsAt-SameParents rows rows' (suc n) none s h = h
EndsAt-SameParents rows rows' zero (some c) s h = h
EndsAt-SameParents rows rows' (suc n) (some c) s h =
    subst (EndsAt rows' n) (sym (s c)) (EndsAt-SameParents rows rows' n (parent_of rows c) s h)

pub Ends-EndsAt :
    (rows : List Department) (n : ℕ) (x : Option ℕ) → Ends rows n x → (k : ℕ) × EndsAt rows k x
Ends-EndsAt rows n none h = (0, tt)
Ends-EndsAt rows zero (some c) h = absurd h
Ends-EndsAt rows (suc n) (some c) h =
    let (k, at) = Ends-EndsAt rows n (parent_of rows c) h in (suc k, at)

pub EndsAt-bound :
    (rows : List Department) (n k : ℕ) (x : Option ℕ) → Ends rows n x → EndsAt rows k x → k ≤ n
EndsAt-bound rows n zero x h at = omega arith
EndsAt-bound rows n (suc k) none h at = absurd at
EndsAt-bound rows zero (suc k) (some c) h at = absurd h
EndsAt-bound rows (suc n) (suc k) (some c) h at =
    omega (arith, EndsAt-bound rows n k (parent_of rows c) h at)

-- With as much fuel as the chain is long, the loop answers.
pub check_circular_reference_answers :
    (rows : List Department) (id fuel : ℕ) (x : Option ℕ)
    → Ends rows fuel x
    → (circular : Bool) × (check_circular_reference fuel rows id x ≡ some circular)
unfolding check_circular_reference
check_circular_reference_answers rows id fuel none h = (false, refl)
check_circular_reference_answers rows id zero (some c) h = absurd h
check_circular_reference_answers rows id (suc fuel) (some c) h = elim (Bool-cases (c == id)) [
  | inl e ↦ (true, rw (e, check_circular_reference) refl)
  | inr e ↦
      let (circular, later) = check_circular_reference_answers rows id fuel (parent_of rows c) h in
      (circular, rw (e, check_circular_reference) later)
]

pub apart : (c id : ℕ) → (c == id) ≡ false → c ≢ id
apart c id e same = ground arith

-- When the loop does not meet a department, the chain does not change with its parent.
pub check_circular_reference-Ends :
    (rows rows' : List Department) (id fuel : ℕ) (x : Option ℕ)
    → ((c : ℕ) → c ≢ id → parent_of rows' c ≡ parent_of rows c)
    → check_circular_reference fuel rows id x ≡ some false
    → Ends rows' fuel x
unfolding check_circular_reference
check_circular_reference-Ends rows rows' id fuel none s h = tt
check_circular_reference-Ends rows rows' id zero (some c) s h = absurd (cc)
check_circular_reference-Ends rows rows' id (suc fuel) (some c) s h = elim (Bool-cases (c == id)) [
  | inl e ↦ absurd (cc (rw (e, check_circular_reference) at h))
  | inr e ↦ subst (Ends rows' fuel) (sym (s c (apart c id e))) (
      check_circular_reference-Ends rows rows' id fuel (parent_of rows c) s
        (rw (e, check_circular_reference) at h))
]

-- When the new parent's chain ends, all chains that ended do.
pub Ends-reparent :
    (rows rows' : List Department) (id n m b : ℕ) (x : Option ℕ)
    → ((c : ℕ) → c ≢ id → parent_of rows' c ≡ parent_of rows c)
    → Ends rows' m (some id)
    → n + m ≤ b
    → Ends rows n x
    → Ends rows' b x
Ends-reparent rows rows' id n m b none s h le k = tt
Ends-reparent rows rows' id zero m b (some c) s h le k = absurd k
Ends-reparent rows rows' id (suc n) m zero (some c) s h le k = absurd (omega arith)
Ends-reparent rows rows' id (suc n) m (suc b) (some c) s h le k = elim (Bool-cases (c == id)) [
  | inl e ↦
      Ends-later rows' m (suc b) (some c) (omega arith)
        (subst (λ i. Ends rows' m (some i)) (sym (==→eq c id e)) h)
  | inr e ↦
      subst (Ends rows' b) (sym (s c (apart c id e)))
        (Ends-reparent rows rows' id n m b (parent_of rows c) s h (omega arith) k)
]

-- More fuel gives the same answer.
pub check_circular_reference_more :
    (rows : List Department) (id n fuel : ℕ) (x : Option ℕ) (circular : Bool)
    → n ≤ fuel
    → check_circular_reference n rows id x ≡ some circular
    → check_circular_reference fuel rows id x ≡ some circular
unfolding check_circular_reference
check_circular_reference_more rows id n fuel none circular le h = h
check_circular_reference_more rows id zero fuel (some c) circular le h = absurd (cc)
check_circular_reference_more rows id (suc n) zero (some c) circular le h = absurd (omega arith)
check_circular_reference_more rows id (suc n) (suc fuel) (some c) circular le h =
    elim (Bool-cases (c == id)) [
      | inl e ↦ rw (e, check_circular_reference) (rw (e, check_circular_reference) at h)
      | inr e ↦
          rw (e, check_circular_reference)
            (check_circular_reference_more rows id n fuel (parent_of rows c) circular (omega arith)
              (rw (e, check_circular_reference) at h))
    ]

-- The department `id` is on the chain of parents that begins at `x`.
pub data OnChain (rows : List Department) (id : ℕ) : Option ℕ → Type 0 where
  here : OnChain rows id (some id)
  above : (c : ℕ) → OnChain rows id (parent_of rows c) → OnChain rows id (some c)

abbrev AtOrAbove : List Department → ℕ → Option ℕ → Type 0
AtOrAbove rows id none = ⊥
AtOrAbove rows id (some c) = (c ≡ id) ⊎ OnChain rows id (parent_of rows c)

OnChain-AtOrAbove :
    (rows : List Department) (id : ℕ) (x : Option ℕ) → OnChain rows id x → AtOrAbove rows id x
OnChain-AtOrAbove rows id x here = inl refl
OnChain-AtOrAbove rows id x (above c on) = inr on

-- On a chain of parents that ends, the loop answers with as much fuel as the chain is long, and it
-- finds a circle exactly when the department is on the chain.
pub check_circular_reference-OnChain :
    (rows : List Department) (id fuel : ℕ) (x : Option ℕ)
    → Ends rows fuel x
    → ((check_circular_reference fuel rows id x ≡ some true) × OnChain rows id x)
      ⊎ ((check_circular_reference fuel rows id x ≡ some false) × (OnChain rows id x → ⊥))
unfolding check_circular_reference
check_circular_reference-OnChain rows id fuel none h =
    inr (refl, λ on. OnChain-AtOrAbove rows id none on)
check_circular_reference-OnChain rows id zero (some c) h = absurd h
check_circular_reference-OnChain rows id (suc fuel) (some c) h = elim (Bool-cases (c == id)) [
  | inl e ↦ inl (
    rw (e, check_circular_reference) refl,
    subst (λ i. OnChain rows id (some i)) (sym (==→eq c id e)) here,
  )
  | inr e ↦ elim (check_circular_reference-OnChain rows id fuel (parent_of rows c) h) [
    | inl (found, on) ↦ inl (rw (e, check_circular_reference) found, above c on)
    | inr (found, off) ↦ inr (
      rw (e, check_circular_reference) found,
      λ on. elim (OnChain-AtOrAbove rows id (some c) on) [
        | inl same ↦ apart c id e same
        | inr higher ↦ off higher
      ],
    )
  ]
]
