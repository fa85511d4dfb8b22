-- ===== src/Prelude/Dicts.antt =====
-- Python's `dict` with text keys, as an association list in insertion order.
use Prim.Native.String.{String}
use mathlib.Core.Path.{◌≡◌, refl}
use mathlib.Core.Logic.{◌⊎◌, inl, inr}
use mathlib.Core.Option.{Option, none, some}
use mathlib.Core.List.{List, [], ◌∷◌, map}
use native.Mathlib.Omega.{arith}
use text.Mathlib.TextEquality.{eq_iff}
use local_skill_orchestrator.Prelude.Tests.{if◌then◌else◌, Bool-cases}
use local_skill_orchestrator.Prelude.Lists.{In}
use local_skill_orchestrator.Prelude.Classes.{◌==◌, string_Eq, ==→eq}

abbrev pub Dict {ℓ} : Type ℓ → Type ℓ
Dict V = List (String × V)

module _ {ℓ} {V : Type ℓ} where
  -- d.get(k)
  unfoldable pub lookup : String → Dict V → Option V
  lookup k [] = none
  lookup k ((j, v) ∷ d) = if j == k then some v else lookup k d

  -- d[k] = v: a key that is there keeps its place
  unfoldable pub insert : String → V → Dict V → Dict V
  insert k v [] = (k, v) ∷ []
  insert k v ((j, w) ∷ d) = if j == k then (j, v) ∷ d else (j, w) ∷ insert k v d

  -- d.update(e), {**d, **e}
  unfoldable pub update : Dict V → Dict V → Dict V
  update d [] = d
  update d ((k, v) ∷ e) = update (insert k v d) e

  -- d.pop(k, None)
  unfoldable pub remove : String → Dict V → Dict V
  remove k [] = []
  remove k ((j, v) ∷ d) = let rest = remove k d in if j == k then rest else (j, v) ∷ rest

  abbrev pub keys : Dict V → List String
  keys d = map (λ p. p.0) d

  abbrev pub values : Dict V → List V
  values d = map (λ p. p.1) d

  pub lookup-insert :
      (k j : String) (v : V) (d : Dict V)
      → lookup j (insert k v d) ≡ (if k == j then some v else lookup j d)
  unfolding lookup insert
  lookup-insert k j v [] = refl
  lookup-insert k j v ((i, w) ∷ d) =
      ground (arith, eq_iff k j, eq_iff i k, eq_iff i j, lookup-insert k j v d)

  pub lookup-remove :
      (k j : String) (d : Dict V) → lookup j (remove k d) ≡ (if k == j then none else lookup j d)
  unfolding lookup remove
  lookup-remove k j [] = ground arith
  lookup-remove k j ((i, v) ∷ d) =
      ground (arith, lookup-remove k j d, eq_iff i k, eq_iff i j, eq_iff k j)

  pair-eq : (j k : String) (v w : V) → j ≡ k → some w ≡ some v → ◌≡◌ {A = String × V} (k, v) (j, w)
  pair-eq j k v w p q = cc

  pub lookup→In : (k : String) (v : V) (d : Dict V) → lookup k d ≡ some v → In (k, v) d
  unfolding lookup
  lookup→In k v [] h = cc
  lookup→In k v ((j, w) ∷ d) h = elim (Bool-cases (j == k)) [
    | inl t ↦ inl (pair-eq j k v w (==→eq j k t) (rw t at h))
    | inr f ↦ inr (lookup→In k v d (rw f at h))
  ]

  insert-In-here :
      (j k : String) (v w : V) (d : Dict V) (p : String × V)
      → j ≡ k
      → In p ((j, v) ∷ d)
      → (p ≡ (k, v)) ⊎ In p ((j, w) ∷ d)
  insert-In-here j k v w d p e (inl q) = inl (cc)
  insert-In-here j k v w d p e (inr i) = inr (inr i)

  insert-In-later :
      (j k : String) (v w : V) (d : Dict V) (p : String × V)
      → (In p (insert k v d) → (p ≡ (k, v)) ⊎ In p d)
      → In p ((j, w) ∷ insert k v d)
      → (p ≡ (k, v)) ⊎ In p ((j, w) ∷ d)
  insert-In-later j k v w d p ih (inl q) = inr (inl q)
  insert-In-later j k v w d p ih (inr i) = elim (ih i) [ inl q ↦ inl q | inr l ↦ inr (inr l) ]

  pub insert-In :
      (k : String) (v : V) (d : Dict V) (p : String × V)
      → In p (insert k v d)
      → (p ≡ (k, v)) ⊎ In p d
  unfolding insert
  insert-In k v [] p h = h
  insert-In k v ((j, w) ∷ d) p h = elim (Bool-cases (j == k)) [
    | inl t ↦ insert-In-here j k v w d p (==→eq j k t) (rw t at h)
    | inr f ↦ insert-In-later j k v w d p (insert-In k v d p) (rw f at h)
  ]
