-- ===== src/Resolver/Local/Accounts.antt =====
-- Every candidate of a requirement is accounted for.
use local_skill_orchestrator.Prelude.{
  ℕ, suc, ◌+◌, String, ◌≡◌, refl, ap, inl, inr, Bool, ◌&&◌, Option, List, [], ◌∷◌, ◌++◌, map,
  length, length-append, length-sort_by, sort_by, is_nonempty, all, if◌then◌else◌, Bool-cases,
  arith,
}
use local_skill_orchestrator.Resolver.Policy.{AdapterScanResult, ResolverPolicy}
use local_skill_orchestrator.Resolver.Local.{
  ContextValue, Reason, CapabilityResolution, Scored, ranking, by_resolution, rejected_of,
  eligible_of, lower, chosen, resolve_requirement, gap_of, is_deferred,
}

module _ (R : Type 0) (context_of : AdapterScanResult → String → ContextValue)
    (reason_leb : Reason → Reason → Bool) (requirement : String) (platforms : List String)
    (policy : ResolverPolicy) where
  abbrev eligible : List AdapterScanResult → List Scored
  eligible cs = eligible_of R context_of reason_leb requirement platforms policy cs

  abbrev refusals : List AdapterScanResult → List (CapabilityResolution R)
  refusals cs = rejected_of R context_of reason_leb requirement platforms policy cs

  length-map : {A B : Type 0} (f : A → B) (xs : List A) → length (map f xs) ≡ length xs
  length-map f [] = refl
  length-map f (x ∷ xs) = ap suc (length-map f xs)

  length-split :
      (cs : List AdapterScanResult) → length (refusals cs) + length (eligible cs) ≡ length cs
  unfolding rejected_of eligible_of
  length-split [] = refl
  length-split (c ∷ cs) = ground (arith, length-split cs)

  -- The resolution of a gap is there.
  abbrev pub gaps : List Scored → List (CapabilityResolution R) → ℕ
  gaps (w ∷ ws) rs = 0
  gaps [] rs =
      if is_nonempty rs && all (λ (x : CapabilityResolution R). is_deferred x.status) rs
      then 0
      else 1

  length-chosen :
      (ws : List Scored) (rs : List (CapabilityResolution R)) (packs : List String)
      (recommendation : Option R)
      → length
          (chosen R context_of reason_leb requirement platforms policy ws rs packs recommendation)
        ≡ length rs + length ws + gaps ws rs
  unfolding chosen
  length-chosen (w ∷ ws) rs packs recommendation = omega (
    arith,
    length-sort_by (by_resolution R context_of reason_leb)
        (rs ++ map (lower R context_of reason_leb requirement platforms policy w) ws),
    length-append rs (map (lower R context_of reason_leb requirement platforms policy w) ws),
    length-map (lower R context_of reason_leb requirement platforms policy w) ws,
  )
  length-chosen [] rs packs recommendation =
      elim (Bool-cases
        (is_nonempty rs && all (λ (x : CapabilityResolution R). is_deferred x.status) rs)) [
          | inl t ↦ rw t (omega (arith, length-sort_by (by_resolution R context_of reason_leb) rs))
          | inr f ↦ rw f (
              omega (
                arith,
                length-sort_by (by_resolution R context_of reason_leb) rs,
                length-append (sort_by (by_resolution R context_of reason_leb) rs) (
                    gap_of R context_of reason_leb requirement platforms policy packs recommendation
                    ∷ []),
              ))
        ]

  gaps-length :
      (ws vs : List Scored) (rs : List (CapabilityResolution R))
      → length ws ≡ length vs
      → gaps ws rs ≡ gaps vs rs
  gaps-length [] [] rs h = refl
  gaps-length (w ∷ ws) (v ∷ vs) rs h = refl
  gaps-length [] (v ∷ vs) rs h = omega arith
  gaps-length (w ∷ ws) [] rs h = omega arith

  gaps-sort_by :
      (ws : List Scored) (rs : List (CapabilityResolution R))
      → gaps (sort_by ranking ws) rs ≡ gaps ws rs
  gaps-sort_by ws rs = gaps-length (sort_by ranking ws) ws rs (length-sort_by ranking ws)

  -- Every candidate is accounted for: there is one resolution for each candidate, and one more, a gap,
  -- exactly where no candidate is eligible and the refusals are not all deferrals, of at least one.
  pub length-resolve_requirement :
      (candidates : List AdapterScanResult) (packs : List String) (recommendation : Option R)
      → length (
          resolve_requirement R context_of reason_leb requirement platforms policy candidates packs
            recommendation)
        ≡ length candidates
          + gaps
              (eligible_of R context_of reason_leb requirement platforms policy candidates)
              (rejected_of R context_of reason_leb requirement platforms policy candidates)
  unfolding resolve_requirement
  length-resolve_requirement cs packs recommendation = omega (
    arith,
    length-chosen (sort_by ranking (eligible cs)) (refusals cs) packs recommendation,
    length-sort_by ranking (eligible cs),
    length-split cs,
    gaps-sort_by (eligible cs) (refusals cs),
  )
