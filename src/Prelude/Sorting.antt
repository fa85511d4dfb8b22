-- ===== src/Prelude/Sorting.antt =====
-- Python's stable `sorted`, as insertion sort.
use mathlib.Core.Path.{◌≡◌, refl, subst}
use mathlib.Core.Logic.{◌⊎◌, inl, inr}
use mathlib.Core.Bool.{Bool, true, false}
use mathlib.Core.List.{List, [], ◌∷◌}
use native.Mathlib.Omega.{arith}
use local_skill_orchestrator.Prelude.Tests.{if◌then◌else◌, Bool-cases}
use local_skill_orchestrator.Prelude.Lists.{In, All, length, All-of_In, All-In}
use local_skill_orchestrator.Prelude.Classes.{IsTotal}

module _ {ℓ} {A : Type ℓ} (leq : A → A → Bool) where
  unfoldable pub insert_by : A → List A → List A
  insert_by a [] = a ∷ []
  insert_by a (x ∷ xs) = if leq a x then a ∷ x ∷ xs else x ∷ insert_by a xs

  unfoldable pub sort_by : List A → List A
  unfolding insert_by
  sort_by [] = []
  sort_by (x ∷ xs) = insert_by x (sort_by xs)

  -- Every value is at most those behind it.
  abbrev pub IsSorted : List A → Type ℓ
  IsSorted [] = Unit
  IsSorted (x ∷ xs) = All (λ y. leq x y ≡ true) xs × IsSorted xs

module _ {ℓ} {A : Type ℓ} (leq : A → A → Bool) where
  length-insert_by : (a : A) (xs : List A) → length (insert_by leq a xs) ≡ length (a ∷ xs)
  unfolding insert_by
  length-insert_by a [] = refl
  length-insert_by a (x ∷ xs) = ground (arith, length-insert_by a xs)

  pub length-sort_by : (xs : List A) → length (sort_by leq xs) ≡ length xs
  unfolding sort_by
  length-sort_by [] = refl
  length-sort_by (x ∷ xs) = rw (length-insert_by x (sort_by leq xs), length-sort_by xs)

  pub In-insert_by : (b a : A) (xs : List A) → (b ≡ a) ⊎ In b xs → In b (insert_by leq a xs)
  unfolding insert_by
  In-insert_by b a [] (inl e) = inl e
  In-insert_by b a [] (inr h) = elim h [ ]
  In-insert_by b a (x ∷ xs) h = elim (Bool-cases (leq a x)) [
    | inl t ↦ rw t h
    | inr f ↦ rw f (later (In-insert_by b a xs) h)
  ]
    where
      later :
          ((b ≡ a) ⊎ In b xs → In b (insert_by leq a xs))
          → (b ≡ a) ⊎ ((b ≡ x) ⊎ In b xs)
          → (b ≡ x) ⊎ In b (insert_by leq a xs)
      later ih (inl e) = inr (ih (inl e))
      later ih (inr (inl e)) = inl e
      later ih (inr (inr k)) = inr (ih (inr k))

  pub insert_by-In : (b a : A) (xs : List A) → In b (insert_by leq a xs) → (b ≡ a) ⊎ In b xs
  unfolding insert_by
  insert_by-In b a [] h = h
  insert_by-In b a (x ∷ xs) h = elim (Bool-cases (leq a x)) [
    | inl t ↦ rw t at h
    | inr f ↦ later (insert_by-In b a xs) (rw f at h)
  ]
    where
      later :
          (In b (insert_by leq a xs) → (b ≡ a) ⊎ In b xs)
          → (b ≡ x) ⊎ In b (insert_by leq a xs)
          → (b ≡ a) ⊎ ((b ≡ x) ⊎ In b xs)
      later ih (inl e) = inr (inl e)
      later ih (inr k) = elim (ih k) [ inl e ↦ inl e | inr i ↦ inr (inr i) ]

  pub In-sort_by : (b : A) (xs : List A) → In b xs → In b (sort_by leq xs)
  unfolding sort_by
  In-sort_by b [] h = h
  In-sort_by b (x ∷ xs) (inl e) = In-insert_by b x (sort_by leq xs) (inl e)
  In-sort_by b (x ∷ xs) (inr h) = In-insert_by b x (sort_by leq xs) (inr (In-sort_by b xs h))

  pub sort_by-In : (b : A) (xs : List A) → In b (sort_by leq xs) → In b xs
  unfolding sort_by
  sort_by-In b [] h = h
  sort_by-In b (x ∷ xs) h = elim (insert_by-In b x (sort_by leq xs) h) [
    | inl e ↦ inl e
    | inr k ↦ inr (sort_by-In b xs k)
  ]

module _ {ℓ} {A : Type ℓ} (leq : A → A → Bool) (order : IsTotal leq) where
  All-le_trans :
      (a x : A) (xs : List A)
      → leq a x ≡ true
      → All (λ y. leq x y ≡ true) xs
      → All (λ y. leq a y ≡ true) xs
  All-le_trans a x [] h k = tt
  All-le_trans a x (y ∷ ys) h k = (order.trans a x y h k.0, All-le_trans a x ys h k.1)

  le_of_not-le : (a x : A) → leq a x ≡ false → leq x a ≡ true
  le_of_not-le a x f = elim (order.total a x) [ inl t ↦ cc | inr t ↦ t ]

  insert_by-IsSorted : (a : A) (xs : List A) → IsSorted leq xs → IsSorted leq (insert_by leq a xs)
  unfolding insert_by
  insert_by-IsSorted a [] s = (tt, tt)
  insert_by-IsSorted a (x ∷ xs) s = elim (Bool-cases (leq a x)) [
    | inl t ↦ rw t ((t, All-le_trans a x xs t s.0), s)
    | inr f ↦ rw f (
      All-of_In (insert_by leq a xs) (λ y h. elim (insert_by-In leq y a xs h) [
        | inl e ↦ rw e (le_of_not-le a x f)
        | inr i ↦ All-In (λ z. leq x z ≡ true) y xs s.0 i
      ]),
      insert_by-IsSorted a xs s.1,
    )
  ]

  pub sort_by-IsSorted : (xs : List A) → IsSorted leq (sort_by leq xs)
  unfolding sort_by
  sort_by-IsSorted [] = tt
  sort_by-IsSorted (x ∷ xs) = insert_by-IsSorted x (sort_by leq xs) (sort_by-IsSorted xs)

  -- The first value of a sorted list is at most every value of the list.
  pub sort_by-head :
      (y : A) (ys xs : List A) → sort_by leq xs ≡ y ∷ ys → (a : A) → In a xs → leq y a ≡ true
  sort_by-head y ys xs e a h = least (subst (In a) e (In-sort_by leq a xs h))
    where
      least : (a ≡ y) ⊎ In a ys → leq y a ≡ true
      least (inl p) = rw p (elim (order.total y y) [ inl t ↦ t | inr t ↦ t ])
      least (inr i) =
          All-In (λ z. leq y z ≡ true) a ys (subst (IsSorted leq) e (sort_by-IsSorted xs)).0 i
