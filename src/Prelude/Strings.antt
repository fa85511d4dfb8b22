-- ===== src/Prelude/Strings.antt =====
-- The order of texts by code points, in which Python compares and sorts strings.
use Prim.Native.Nat.{ℕ, compare as compare_ℕ, Ordering}
use Prim.Native.Char.{code}
use Prim.Native.String.compare
use Prim.Native.String.{String, [], ◌∷◌, ◌++◌, compare, then}
use mathlib.Core.List.{List}
use mathlib.Core.Path.{◌≡◌, refl}
use mathlib.Core.Logic.{◌⊎◌, inl, inr}
use mathlib.Core.Bool.{Bool, true}
use native.Mathlib.Omega.{arith}
use text.Mathlib.Text.{is_le}
use text.Mathlib.TextEquality.{path_by_compare}

-- s <= t
abbrev pub str_leb : String → String → Bool
str_leb s t = is_le (compare s t)

-- How two orderings of one pair of texts, read from either side, belong together.
abbrev Opposite : Ordering → Ordering → Type 0
Opposite Ordering.lt o = o ≡ Ordering.gt
Opposite Ordering.eq o = o ≡ Ordering.eq
Opposite Ordering.gt o = o ≡ Ordering.lt

compare_ℕ-swap : (a b : ℕ) → Opposite (compare_ℕ a b) (compare_ℕ b a)
compare_ℕ-swap a b = ground arith

then-Opposite : (o p r q : Ordering) → Opposite o p → Opposite r q → Opposite (then o r) (then p q)
then-Opposite Ordering.lt p r q h k = rw h
then-Opposite Ordering.eq p r q h k = rw h k
then-Opposite Ordering.gt p r q h k = rw h

compare-swap : (s t : String) → Opposite (compare s t) (compare t s)
compare-swap [] [] = refl
compare-swap [] (d ∷ t) = rw (compare.nil-cons, compare.cons-nil)
compare-swap (c ∷ s) [] = rw (compare.nil-cons, compare.cons-nil)
compare-swap (c ∷ s) (d ∷ t) =
    rw (compare.cons-cons c d s t, compare.cons-cons d c t s)
      (then-Opposite (compare_ℕ (code c) (code d)) (compare_ℕ (code d) (code c)) (compare s t)
        (compare t s) (compare_ℕ-swap (code c) (code d)) (compare-swap s t))

is_le-Opposite : (o p : Ordering) → Opposite o p → is_le o ≡ true → is_le p ≡ true → o ≡ Ordering.eq
is_le-Opposite Ordering.lt p h k l = cc
is_le-Opposite Ordering.eq p h k l = refl
is_le-Opposite Ordering.gt p h k l = cc

Opposite-total : (o p : Ordering) → Opposite o p → (is_le o ≡ true) ⊎ (is_le p ≡ true)
Opposite-total Ordering.lt p h = inl refl
Opposite-total Ordering.eq p h = inl refl
Opposite-total Ordering.gt p h = inr (rw h)

pub str_leb-total : (s t : String) → (str_leb s t ≡ true) ⊎ (str_leb t s ≡ true)
str_leb-total s t = Opposite-total (compare s t) (compare t s) (compare-swap s t)

pub str_leb_antisym : (s t : String) → str_leb s t ≡ true → str_leb t s ≡ true → s ≡ t
str_leb_antisym s t h k =
    path_by_compare s t (is_le-Opposite (compare s t) (compare t s) (compare-swap s t) h k)

-- One step of a comparison of three texts.
then-is_le :
    (a b c : ℕ) (q r t : Ordering)
    → (is_le q ≡ true → is_le r ≡ true → is_le t ≡ true)
    → is_le (then (compare_ℕ a b) q) ≡ true
    → is_le (then (compare_ℕ b c) r) ≡ true
    → is_le (then (compare_ℕ a c) t) ≡ true
then-is_le a b c q r t f h k = ground arith

gt_not-le : {A : Type 0} → is_le Ordering.gt ≡ true → A
gt_not-le h = cc

pub str_leb_trans : (s t u : String) → str_leb s t ≡ true → str_leb t u ≡ true → str_leb s u ≡ true
str_leb_trans [] t [] h k = refl
str_leb_trans [] t (e ∷ u) h k = rw compare.nil-cons
str_leb_trans (c ∷ s) [] u h k = gt_not-le (rw compare.cons-nil at h)
str_leb_trans (c ∷ s) (d ∷ t) [] h k = gt_not-le (rw compare.cons-nil at k)
str_leb_trans (c ∷ s) (d ∷ t) (e ∷ u) h k = rw (compare.cons-cons c e s u) (
    then-is_le (code c) (code d) (code e) (compare s t) (compare t u) (compare s u)
      (str_leb_trans s t u) (rw (compare.cons-cons c d s t) at h)
      (rw (compare.cons-cons d e t u) at k))

pub str_leb_refl : (s : String) → str_leb s s ≡ true
str_leb_refl s = elim (str_leb-total s s) [ inl t ↦ t | inr t ↦ t ]

-- sep.join(xs)
unfoldable pub join : String → List String → String
join sep List.[] = ""
join sep (List.◌∷◌ x List.[]) = x
join sep (List.◌∷◌ x xs) = x ++ (sep ++ join sep xs)
