-- ===== src/Compiler/Intent/Scope.antt =====
-- The scope of an intent is in a normal form.
use local_skill_orchestrator.Prelude.{
  String, ◌≡◌, refl, sym, ◌∙◌, subst, ◌↔◌, inl, inr, true, List, map, arith, In, In-map, map-In,
  filter, filter-In, In-filter, sorted_set-In, In-sorted_set, SameSet, sorted_set-IsAscending,
  IsAscending-eq, string_Eq, string_Ord, ◌==◌, strip, normalize_path, normalize_path_idem,
  strip-normalize_path, slashes, slashes-eq_nil, eq_iff, Bool-cases,
}
use local_skill_orchestrator.Compiler.Intent.{is_path, normalize_scope}

-- The entries of a normalized scope are the normalized paths of the texts that are not blank.
normalize_scope_iff :
    (scope : List String) (y : String)
    → In y (normalize_scope scope)
      ↔ ((x : String) × In x scope × (is_path x ≡ true) × (y ≡ normalize_path x))
unfolding normalize_scope
normalize_scope_iff scope y = (
  λ h.
      let (x, i, e) =
        map-In normalize_path y (filter is_path scope)
          (sorted_set-In y (map normalize_path (filter is_path scope)) h) in
      let (j, t) = filter-In is_path x scope i in (x, j, t, e),
  λ h.
      let (x, i, t, e) = h in
      In-sorted_set y (map normalize_path (filter is_path scope)) (
        subst (λ z. In z (map normalize_path (filter is_path scope))) (sym e)
          (In-map normalize_path x (filter is_path scope) (In-filter is_path x scope i t))),
)

normalized-is_path : (x : String) → is_path x ≡ true → is_path (normalize_path x) ≡ true
normalized-is_path x t = elim (Bool-cases (strip (normalize_path x) == "")) [
  | inr f ↦ rw f refl
  | inl b ↦
      let e : slashes (strip x) ≡ "" =
        sym (strip-normalize_path x) ∙ (eq_iff (strip (normalize_path x)) "").0 b in
      ground (arith, eq_iff (strip x) "", slashes-eq_nil (strip x) e)
]

abbrev Normalized : List String → Type 0
Normalized ys = (y : String) → In y ys → (is_path y ≡ true) × (normalize_path y ≡ y)

fixed : (ys : List String) → Normalized ys → SameSet (normalize_scope ys) ys
fixed ys n y = (
  λ h.
      let (x, i, t, e) = (normalize_scope_iff ys y).0 h in
      subst (λ z. In z ys) (sym (e ∙ (n x i).1)) i,
  λ i. (normalize_scope_iff ys y).1 (y, i, (n y i).0, sym (n y i).1),
)

normalize_scope-Normalized : (scope : List String) → Normalized (normalize_scope scope)
normalize_scope-Normalized scope y i =
    let (x, j, t, e) = (normalize_scope_iff scope y).0 i in
    (
      subst (λ z. is_path z ≡ true) (sym e) (normalized-is_path x t),
      subst (λ z. normalize_path z ≡ z) (sym e) (normalize_path_idem x),
    )

-- Normalizing a scope twice is normalizing it once.
pub normalize_scope_idem :
    (scope : List String) → normalize_scope (normalize_scope scope) ≡ normalize_scope scope
unfolding normalize_scope
normalize_scope_idem scope =
    IsAscending-eq (normalize_scope (normalize_scope scope)) (normalize_scope scope)
      (sorted_set-IsAscending (map normalize_path (filter is_path (normalize_scope scope))))
      (sorted_set-IsAscending (map normalize_path (filter is_path scope)))
      (fixed (normalize_scope scope) (normalize_scope-Normalized scope))
