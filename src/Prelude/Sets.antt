-- ===== src/Prelude/Sets.antt =====
-- Python's sets where the program sorts them, `sorted(set(xs))`, and `dict.fromkeys(xs)`.
use mathlib.Core.Path.{◌≡◌, refl, subst, sym, ap₂, ◌∙◌}
use mathlib.Core.Logic.{◌⊎◌, inl, inr, ◌↔◌, ◌≢◌}
use mathlib.Core.Bool.{Bool, true, false, not, ◌&&◌}
use mathlib.Core.List.{List, [], ◌∷◌}
use local_skill_orchestrator.Prelude.Tests.{if◌then◌else◌, Bool-cases, and-eq_true}
use local_skill_orchestrator.Prelude.Lists.{
  In, All, All-of_In, All-In, filter, filter-In, In-filter,
}
use local_skill_orchestrator.Prelude.Classes.{
  In→member, ==_refl, member→In, member, Eq, Ord, ◌==◌, ==→eq, ==_false→ne,
}

module _ {ℓ} {A : Type ℓ} ⦃e : Eq A⦄ ⦃o : Ord A⦄ where
  insert_set : A → List A → List A
  insert_set a [] = a ∷ []
  insert_set a (x ∷ xs) =
      if a == x then x ∷ xs else if o.leq a x then a ∷ x ∷ xs else x ∷ insert_set a xs

  -- sorted(set(xs))
  unfoldable pub sorted_set : List A → List A
  unfolding insert_set
  sorted_set [] = []
  sorted_set (x ∷ xs) = insert_set x (sorted_set xs)

  -- a < b in the order of the values
  abbrev pub Below : A → A → Type ℓ
  Below a b = (o.leq a b ≡ true) × (a ≢ b)

  abbrev pub IsAscending : List A → Type ℓ
  IsAscending [] = Unit
  IsAscending (x ∷ xs) = All (Below x) xs × IsAscending xs

module _ {ℓ} {A : Type ℓ} ⦃e : Eq A⦄ ⦃o : Ord A⦄ where
  In-insert_set : (b a : A) (xs : List A) → (b ≡ a) ⊎ In b xs → In b (insert_set a xs)
  unfolding insert_set
  In-insert_set b a [] (inl p) = inl p
  In-insert_set b a [] (inr h) = elim h [ ]
  In-insert_set b a (x ∷ xs) h = elim (Bool-cases (a == x)) [
    | inl t ↦ rw t (elim h [ inl p ↦ inl (rw p (==→eq a x t)) | inr k ↦ k ])
    | inr f ↦ elim (Bool-cases (o.leq a x)) [
      | inl t ↦ rw (f, t) h
      | inr g ↦ rw (f, g) (later (In-insert_set b a xs) h)
    ]
  ]
    where
      later :
          ((b ≡ a) ⊎ In b xs → In b (insert_set a xs))
          → (b ≡ a) ⊎ ((b ≡ x) ⊎ In b xs)
          → (b ≡ x) ⊎ In b (insert_set a xs)
      later ih (inl p) = inr (ih (inl p))
      later ih (inr (inl p)) = inl p
      later ih (inr (inr k)) = inr (ih (inr k))

  insert_set-In : (b a : A) (xs : List A) → In b (insert_set a xs) → (b ≡ a) ⊎ In b xs
  unfolding insert_set
  insert_set-In b a [] h = h
  insert_set-In b a (x ∷ xs) h = elim (Bool-cases (a == x)) [
    | inl t ↦ inr (rw t at h)
    | inr f ↦ elim (Bool-cases (o.leq a x)) [
      | inl t ↦ rw (f, t) at h
      | inr g ↦ later (insert_set-In b a xs) (rw (f, g) at h)
    ]
  ]
    where
      later :
          (In b (insert_set a xs) → (b ≡ a) ⊎ In b xs)
          → (b ≡ x) ⊎ In b (insert_set a xs)
          → (b ≡ a) ⊎ ((b ≡ x) ⊎ In b xs)
      later ih (inl p) = inr (inl p)
      later ih (inr k) = elim (ih k) [ inl p ↦ inl p | inr i ↦ inr (inr i) ]

  pub In-sorted_set : (b : A) (xs : List A) → In b xs → In b (sorted_set xs)
  unfolding sorted_set
  In-sorted_set b [] h = h
  In-sorted_set b (x ∷ xs) (inl p) = In-insert_set b x (sorted_set xs) (inl p)
  In-sorted_set b (x ∷ xs) (inr h) = In-insert_set b x (sorted_set xs) (inr (In-sorted_set b xs h))

  pub sorted_set-In : (b : A) (xs : List A) → In b (sorted_set xs) → In b xs
  unfolding sorted_set
  sorted_set-In b [] h = h
  sorted_set-In b (x ∷ xs) h = elim (insert_set-In b x (sorted_set xs) h) [
    | inl p ↦ inl p
    | inr k ↦ inr (sorted_set-In b xs k)
  ]

  Below-trans : (a b c : A) → Below a b → Below b c → Below a c
  Below-trans a b c h k = (
    o.order.trans a b c h.0 k.0,
    λ p. h.1 (o.antisym a b h.0 (subst (λ z. o.leq b z ≡ true) (sym p) k.0)),
  )

  Below-of_not-le : (a x : A) → (a == x) ≡ false → o.leq a x ≡ false → Below x a
  Below-of_not-le a x f g = elim (o.order.total a x) [
    | inl t ↦ cc
    | inr t ↦ (t, λ p. ==_false→ne a x f (sym p))
  ]

  insert_set-IsAscending : (a : A) (xs : List A) → IsAscending xs → IsAscending (insert_set a xs)
  unfolding insert_set
  insert_set-IsAscending a [] s = (tt, tt)
  insert_set-IsAscending a (x ∷ xs) s = elim (Bool-cases (a == x)) [
    | inl t ↦ rw t s
    | inr f ↦ elim (Bool-cases (o.leq a x)) [
      | inl t ↦
          let first : Below a x = (t, ==_false→ne a x f) in
          rw (f, t)
            (
              (first, All-of_In xs (λ y i. Below-trans a x y first (All-In (Below x) y xs s.0 i))),
              s,
            )
      | inr g ↦
          rw (f, g)
            (
              All-of_In (insert_set a xs) (λ y h. elim (insert_set-In y a xs h) [
                | inl p ↦ rw p (Below-of_not-le a x f g)
                | inr i ↦ All-In (Below x) y xs s.0 i
              ]),
              insert_set-IsAscending a xs s.1,
            )
    ]
  ]

  pub sorted_set-IsAscending : (xs : List A) → IsAscending (sorted_set xs)
  unfolding sorted_set
  sorted_set-IsAscending [] = tt
  sorted_set-IsAscending (x ∷ xs) =
      insert_set-IsAscending x (sorted_set xs) (sorted_set-IsAscending xs)

  -- Two lists have the same values, in any order and number.
  abbrev pub SameSet : List A → List A → Type ℓ
  SameSet xs ys = (a : A) → In a xs ↔ In a ys

module _ {ℓ} {A : Type ℓ} ⦃e : Eq A⦄ ⦃o : Ord A⦄ where
  Below-asymm : (x y : A) → Below x y → Below y x → ⊥
  Below-asymm x y h k = h.1 (o.antisym x y h.0 k.0)

  first-eq :
      (x y : A) (xs ys : List A)
      → IsAscending (x ∷ xs)
      → IsAscending (y ∷ ys)
      → In x (y ∷ ys)
      → In y (x ∷ xs)
      → x ≡ y
  first-eq x y xs ys s t (inl p) k = p
  first-eq x y xs ys s t (inr h) (inl q) = sym q
  first-eq x y xs ys s t (inr h) (inr k) =
      absurd (Below-asymm x y (All-In (Below x) y xs s.0 k) (All-In (Below y) x ys t.0 h))

  rest-In :
      (x y : A) (xs ys : List A)
      → x ≡ y
      → IsAscending (x ∷ xs)
      → ((a : A) → In a (x ∷ xs) → In a (y ∷ ys))
      → (a : A) → In a xs
      → In a ys
  rest-In x y xs ys p s f a h = elim (f a (inr h)) [
    | inl q ↦ absurd ((All-In (Below x) a xs s.0 h).1 (p ∙ sym q))
    | inr k ↦ k
  ]

  -- An ascending list is determined by the set of its values.
  pub IsAscending-eq : (xs ys : List A) → IsAscending xs → IsAscending ys → SameSet xs ys → xs ≡ ys
  IsAscending-eq [] [] s t h = refl
  IsAscending-eq [] (y ∷ ys) s t h = elim ((h y).1 (inl refl)) [ ]
  IsAscending-eq (x ∷ xs) [] s t h = elim ((h x).0 (inl refl)) [ ]
  IsAscending-eq (x ∷ xs) (y ∷ ys) s t h =
      let p : x ≡ y = first-eq x y xs ys s t ((h x).0 (inl refl)) ((h y).1 (inl refl)) in
      ap₂ ◌∷◌ p (
        IsAscending-eq xs ys s.1 t.1 (λ a.
          (rest-In x y xs ys p s (λ b. (h b).0) a, rest-In y x ys xs (sym p) t (λ b. (h b).1) a)))

  -- Sorting forgets order and repetition.
  pub sorted_set-eq : (xs ys : List A) → SameSet xs ys → sorted_set xs ≡ sorted_set ys
  sorted_set-eq xs ys h =
      IsAscending-eq (sorted_set xs) (sorted_set ys) (sorted_set-IsAscending xs)
        (sorted_set-IsAscending ys)
        (λ a. (
          λ k. In-sorted_set a ys ((h a).0 (sorted_set-In a xs k)),
          λ k. In-sorted_set a xs ((h a).1 (sorted_set-In a ys k)),
        ))

module _ {ℓ} {A : Type ℓ} ⦃e : Eq A⦄ where
  -- dict.fromkeys(xs): the first occurrences, in order
  unfoldable pub dedup : List A → List A
  dedup [] = []
  dedup (x ∷ xs) = x ∷ filter (λ y. not (y == x)) (dedup xs)

  pub dedup-In : (a : A) (xs : List A) → In a (dedup xs) → In a xs
  unfolding dedup
  dedup-In a [] h = h
  dedup-In a (x ∷ xs) (inl p) = inl p
  dedup-In a (x ∷ xs) (inr h) = inr (dedup-In a xs (filter-In (λ y. not (y == x)) a (dedup xs) h).0)

  pub In-dedup : (a : A) (xs : List A) → In a xs → In a (dedup xs)
  unfolding dedup
  In-dedup a [] h = h
  In-dedup a (x ∷ xs) (inl p) = inl p
  In-dedup a (x ∷ xs) (inr h) = elim (Bool-cases (a == x)) [
    | inl t ↦ inl (==→eq a x t)
    | inr f ↦ inr (In-filter (λ y. not (y == x)) a (dedup xs) (In-dedup a xs h) (rw f))
  ]

  -- len(xs) == len(set(xs)): no value stands twice
  unfoldable pub is_distinct : List A → Bool
  is_distinct [] = true
  is_distinct (x ∷ xs) = not (member x xs) && is_distinct xs

module _ {ℓ} {A : Type ℓ} ⦃e : Eq A⦄ ⦃o : Ord A⦄ where
  -- An ascending list has no value twice.
  pub IsAscending-is_distinct : (xs : List A) → IsAscending xs → is_distinct xs ≡ true
  unfolding is_distinct
  IsAscending-is_distinct [] s = refl
  IsAscending-is_distinct (x ∷ xs) s = elim (Bool-cases (member x xs)) [
    | inl t ↦ absurd ((All-In (Below x) x xs s.0 (member→In x xs t)).1 refl)
    | inr f ↦ rw (f, IsAscending-is_distinct xs s.1) refl
  ]

module _ {ℓ} {A : Type ℓ} ⦃e : Eq A⦄ where
  pub filter-is_distinct :
      (p : A → Bool) (xs : List A) → is_distinct xs ≡ true → is_distinct (filter p xs) ≡ true
  unfolding is_distinct
  filter-is_distinct p [] h = refl
  filter-is_distinct p (x ∷ xs) h =
      let (alone, rest) = and-eq_true (not (member x xs)) (is_distinct xs) h in
      elim (Bool-cases (p x)) [
        | inr f ↦ rw f (filter-is_distinct p xs rest)
        | inl t ↦ elim (Bool-cases (member x (filter p xs))) [
          | inr free ↦ rw (t, free) (filter-is_distinct p xs rest)
          | inl seen ↦
              let again : member x xs ≡ true =
                In→member x xs (filter-In p x xs (member→In x (filter p xs) seen)).0 in
              absurd (clash (member x xs) again alone)
        ]
      ]
    where
      clash : (b : Bool) → b ≡ true → not b ≡ true → ⊥
      clash b q r = cc

  -- Taking the first occurrences leaves no value twice.
  pub dedup-is_distinct : (xs : List A) → is_distinct (dedup xs) ≡ true
  unfolding dedup is_distinct
  dedup-is_distinct [] = refl
  dedup-is_distinct (x ∷ xs) =
      let others = filter (λ y. not (y == x)) (dedup xs) in
      elim (Bool-cases (member x others)) [
        | inr free ↦
            rw (free, filter-is_distinct (λ y. not (y == x)) (dedup xs) (dedup-is_distinct xs)) refl
        | inl seen ↦ absurd (
            clash (x == x) (==_refl x)
              (filter-In (λ y. not (y == x)) x (dedup xs) (member→In x others seen)).1)
      ]
    where
      clash : (b : Bool) → b ≡ true → not b ≡ true → ⊥
      clash b q r = cc
