-- ===== src/Prelude/Lists.antt =====
-- Lists measured by native numbers and filtered by Boolean tests, under the library's names.
use Prim.Native.Nat.{ℕ, zero, suc, ◌+◌}
use mathlib.Core.Path.{◌≡◌, refl, ap, sym, subst}
use mathlib.Core.Logic.{◌⊎◌, inl, inr}
use mathlib.Core.List.{List, [], ◌∷◌, ◌++◌, map}
use mathlib.Core.Bool.{Bool, true, false, ◌&&◌, ◌||◌}
use mathlib.Core.Option.{Option, none, some}
use native.Mathlib.Omega.{arith}
use local_skill_orchestrator.Prelude.Tests.{if◌then◌else◌, Bool-cases, and-eq_true}

-- The empty type at every level.
pub data Nowhere {ℓ} : Type ℓ where

module _ {ℓ} {A : Type ℓ} where
  abbrev pub length : List A → ℕ
  length [] = 0
  length (x ∷ xs) = suc (length xs)

  abbrev pub get_elem? : List A → ℕ → Option A
  get_elem? [] i = none
  get_elem? (x ∷ xs) zero = some x
  get_elem? (x ∷ xs) (suc i) = get_elem? xs i

  abbrev pub drop : ℕ → List A → List A
  drop zero xs = xs
  drop (suc n) [] = []
  drop (suc n) (x ∷ xs) = drop n xs

  abbrev pub take : ℕ → List A → List A
  take zero xs = []
  take (suc n) [] = []
  take (suc n) (x ∷ xs) = x ∷ take n xs

  -- [x for x in xs if p(x)]
  abbrev pub filter : (A → Bool) → List A → List A
  filter p [] = []
  filter p (x ∷ xs) = let rest = filter p xs in if p x then x ∷ rest else rest

  abbrev pub any : (A → Bool) → List A → Bool
  any p [] = false
  any p (x ∷ xs) = p x || any p xs

  abbrev pub all : (A → Bool) → List A → Bool
  all p [] = true
  all p (x ∷ xs) = p x && all p xs

  -- min_length=1
  abbrev pub is_nonempty : List A → Bool
  is_nonempty [] = false
  is_nonempty (x ∷ xs) = true

  -- A value stands in the list. It computes to a sum, which the tactics read.
  abbrev pub In : A → List A → Type ℓ
  In a [] = Nowhere
  In a (x ∷ xs) = (a ≡ x) ⊎ In a xs

  -- Every value of the list satisfies `P`.
  abbrev pub All {κ} : (A → Type κ) → List A → Type κ
  All P [] = Unit
  All P (x ∷ xs) = P x × All P xs

  pub length-append : (xs ys : List A) → length (xs ++ ys) ≡ length xs + length ys
  length-append [] ys = omega arith
  length-append (x ∷ xs) ys = omega (arith, length-append xs ys)

module _ {ℓ} {A : Type ℓ} where
  pub In-append_left : (a : A) (xs ys : List A) → In a xs → In a (xs ++ ys)
  In-append_left a [] ys h = elim h [ ]
  In-append_left a (x ∷ xs) ys (inl e) = inl e
  In-append_left a (x ∷ xs) ys (inr h) = inr (In-append_left a xs ys h)

  pub In-append_right : (a : A) (xs ys : List A) → In a ys → In a (xs ++ ys)
  In-append_right a [] ys h = h
  In-append_right a (x ∷ xs) ys h = inr (In-append_right a xs ys h)

  pub append-In : (a : A) (xs ys : List A) → In a (xs ++ ys) → In a xs ⊎ In a ys
  append-In a [] ys h = inr h
  append-In a (x ∷ xs) ys (inl e) = inl (inl e)
  append-In a (x ∷ xs) ys (inr h) = elim (append-In a xs ys h) [
    | inl l ↦ inl (inr l)
    | inr r ↦ inr r
  ]

  -- A filtered list holds the values of the list that pass the test.
  pub In-filter : (p : A → Bool) (a : A) (xs : List A) → In a xs → p a ≡ true → In a (filter p xs)
  In-filter p a [] h t = elim h [ ]
  In-filter p a (x ∷ xs) (inl e) t = rw (← e, t) (inl refl)
  In-filter p a (x ∷ xs) (inr h) t = elim (Bool-cases (p x)) [
    | inl q ↦ rw q (inr (In-filter p a xs h t))
    | inr q ↦ rw q (In-filter p a xs h t)
  ]

  filter-In-cons :
      (p : A → Bool) (a x : A) (xs : List A)
      → (In a (filter p xs) → In a xs × (p a ≡ true))
      → In a (filter p (x ∷ xs))
      → ((a ≡ x) ⊎ In a xs) × (p a ≡ true)
  filter-In-cons p a x xs ih h = elim (Bool-cases (p x)) [
    | inl q ↦ kept q (rw q at h)
    | inr q ↦ let (i, t) = ih (rw q at h) in (inr i, t)
  ]
    where
      kept : p x ≡ true → (a ≡ x) ⊎ In a (filter p xs) → ((a ≡ x) ⊎ In a xs) × (p a ≡ true)
      kept q (inl e) = (inl e, rw e q)
      kept q (inr k) = let (i, t) = ih k in (inr i, t)

  pub filter-In : (p : A → Bool) (a : A) (xs : List A) → In a (filter p xs) → In a xs × (p a ≡ true)
  filter-In p a [] h = elim h [ ]
  filter-In p a (x ∷ xs) h = filter-In-cons p a x xs (filter-In p a xs) h

  pub all-In : (p : A → Bool) (a : A) (xs : List A) → all p xs ≡ true → In a xs → p a ≡ true
  all-In p a [] t h = elim h [ ]
  all-In p a (x ∷ xs) t (inl e) = rw e (and-eq_true (p x) (all p xs) t).0
  all-In p a (x ∷ xs) t (inr h) = all-In p a xs (and-eq_true (p x) (all p xs) t).1 h

  pub all_of_In : (p : A → Bool) (xs : List A) → ((a : A) → In a xs → p a ≡ true) → all p xs ≡ true
  all_of_In p [] f = refl
  all_of_In p (x ∷ xs) f = rw (f x (inl refl)) (all_of_In p xs (λ a h. f a (inr h)))

  pub any-In : (p : A → Bool) (xs : List A) → any p xs ≡ true → (a : A) × In a xs × (p a ≡ true)
  any-In p [] t = cc
  any-In p (x ∷ xs) t = elim (Bool-cases (p x)) [
    | inl q ↦ (x, inl refl, q)
    | inr q ↦ let (a, h, e) = any-In p xs (rw q at t) in (a, inr h, e)
  ]

  pub any_of_In : (p : A → Bool) (a : A) (xs : List A) → In a xs → p a ≡ true → any p xs ≡ true
  any_of_In p a [] h t = elim h [ ]
  any_of_In p a (x ∷ xs) (inl e) t = rw (← e, t)
  any_of_In p a (x ∷ xs) (inr h) t = ground (arith, any_of_In p a xs h t)

  pub All-In {κ} : (P : A → Type κ) (a : A) (xs : List A) → All P xs → In a xs → P a
  All-In P a [] f h = elim h [ ]
  All-In P a (x ∷ xs) f (inl e) = subst P (sym e) f.0
  All-In P a (x ∷ xs) f (inr h) = All-In P a xs f.1 h

  pub All-of_In {κ} : {P : A → Type κ} (xs : List A) → ((a : A) → In a xs → P a) → All P xs
  All-of_In [] f = tt
  All-of_In (x ∷ xs) f = (f x (inl refl), All-of_In xs (λ a h. f a (inr h)))

module _ {ℓ κ} {A : Type ℓ} {B : Type κ} where
  pub In-map : (f : A → B) (a : A) (xs : List A) → In a xs → In (f a) (map f xs)
  In-map f a [] h = elim h [ ]
  In-map f a (x ∷ xs) (inl e) = inl (ap f e)
  In-map f a (x ∷ xs) (inr h) = inr (In-map f a xs h)

  pub map-In : (f : A → B) (b : B) (xs : List A) → In b (map f xs) → (a : A) × In a xs × (b ≡ f a)
  map-In f b [] h = elim h [ ]
  map-In f b (x ∷ xs) (inl e) = (x, inl refl, e)
  map-In f b (x ∷ xs) (inr h) = let (a, i, e) = map-In f b xs h in (a, inr i, e)

  -- [y for x in xs for y in f(x)]
  abbrev pub flat_map : (A → List B) → List A → List B
  flat_map f [] = []
  flat_map f (x ∷ xs) = f x ++ flat_map f xs

  pub In-flat_map :
      (f : A → List B) (b : B) (a : A) (xs : List A) → In a xs → In b (f a) → In b (flat_map f xs)
  In-flat_map f b a [] h k = elim h [ ]
  In-flat_map f b a (x ∷ xs) (inl e) k =
      In-append_left b (f x) (flat_map f xs) (subst (λ z. In b (f z)) e k)
  In-flat_map f b a (x ∷ xs) (inr h) k =
      In-append_right b (f x) (flat_map f xs) (In-flat_map f b a xs h k)

  pub flat_map-In :
      (f : A → List B) (b : B) (xs : List A) → In b (flat_map f xs) → (a : A) × In a xs × In b (f a)
  flat_map-In f b [] h = elim h [ ]
  flat_map-In f b (x ∷ xs) h = elim (append-In b (f x) (flat_map f xs) h) [
    | inl l ↦ (x, inl refl, l)
    | inr r ↦ let (a, i, k) = flat_map-In f b xs r in (a, inr i, k)
  ]
