-- ===== src/Compiler/Context/Selection.antt =====
-- What a capsule selects, rejects and asks permission for.
use local_skill_orchestrator.Prelude.{
  ℕ, String, ◌≡◌, refl, sym, subst, inl, inr, ◌↔◌, false, not, some, List, map, arith, In, filter,
  filter-In, In-filter, In-map, map-In, flat_map-In, In-flat_map, member, member→In, In→member,
  Option-cases, Bool-cases, lookup, sorted_set, sorted_set-In, In-sorted_set, string_Eq, string_Ord,
}
use local_skill_orchestrator.Prelude.Results.{ok, Result-cases, map_result}
use local_skill_orchestrator.Capability.{Permission, permission_Eq, permission_Ord}
use local_skill_orchestrator.Planning.TaskGraph.{TaskPhase, TaskPlan}
use local_skill_orchestrator.Compiler.Intent.{TaskIntent}
use local_skill_orchestrator.Compiler.Context.{
  CapabilityCandidate, ContextSource, SourceReference, ContextCapsule, phases_by_id, by_source_id,
  new_reference, new_capsule, capsule_of, compile_context_capsule, selected_ids, rejected_ids,
  permissions_of,
}

module _ (candidates : List CapabilityCandidate) (selected : List String) where
  abbrev id_of : CapabilityCandidate → String
  id_of c = c.capability_id

  -- Sorting does not change what is selected.
  pub member-sorted_set : (id : String) → member id (sorted_set selected) ≡ member id selected
  member-sorted_set id = elim (Bool-cases (member id selected)) [
    | inl t ↦
        rw t
          (In→member id (sorted_set selected) (In-sorted_set id selected (member→In id selected t)))
    | inr f ↦ elim (Bool-cases (member id (sorted_set selected))) [
      | inl t ↦
          cc (
            In→member id selected
              (sorted_set-In id selected (member→In id (sorted_set selected) t)))
      | inr g ↦ rw (f, g) refl
    ]
  ]

  pub rejected_iff :
      (id : String)
      → In id (sorted_set (rejected_ids selected candidates)) ↔ (
          (c : CapabilityCandidate) × In c candidates
          × (id ≡ c.capability_id)
          × (member id (sorted_set selected) ≡ false))
  unfolding rejected_ids
  rejected_iff id = (
    λ h.
        let (i, out) =
          filter-In (λ j. not (member j selected)) id (map id_of candidates)
            (sorted_set-In id (rejected_ids selected candidates) h) in
        let (c, j, e) = map-In id_of id candidates i in
        (c, j, e, ground (arith, member-sorted_set id)),
    λ h.
        let (c, i, e, out) = h in
        In-sorted_set id (rejected_ids selected candidates) (
          In-filter (λ j. not (member j selected)) id (map id_of candidates)
            (subst (λ k. In k (map id_of candidates)) (sym e) (In-map id_of c candidates i))
            (ground (arith, member-sorted_set id))),
  )

  permissions_iff :
      (p : Permission)
      → In p (sorted_set (permissions_of selected candidates)) ↔ (
          (c : CapabilityCandidate) × In c candidates
          × In c.capability_id (sorted_set selected)
          × In p c.permissions)
  unfolding permissions_of
  permissions_iff p = (
    λ h.
        let (c, i, k) =
          flat_map-In (λ (c : CapabilityCandidate). c.permissions) p
            (filter (λ (c : CapabilityCandidate). member c.capability_id selected) candidates)
            (sorted_set-In p (permissions_of selected candidates) h) in
        let (j, t) =
          filter-In (λ (c : CapabilityCandidate). member c.capability_id selected) c candidates i in
        (c, j, In-sorted_set c.capability_id selected (member→In c.capability_id selected t), k),
    λ h.
        let (c, i, s, k) = h in
        In-sorted_set p (permissions_of selected candidates) (
          In-flat_map (λ (c : CapabilityCandidate). c.permissions) p c
            (filter (λ (c : CapabilityCandidate). member c.capability_id selected) candidates)
            (In-filter (λ (c : CapabilityCandidate). member c.capability_id selected) c candidates i
              (In→member c.capability_id selected (sorted_set-In c.capability_id selected s)))
            k),
  )

module _ (sha256 : String → String) (intent : TaskIntent) (plan : TaskPlan) (phase : String)
    (candidates : List CapabilityCandidate) (sources : List ContextSource)
    (head user_scope_digest : String) (token_budget : ℕ) where
  -- A compiled capsule is built from a phase of the plan.
  pub compile-eq-ok :
      (capsule : ContextCapsule)
      → compile_context_capsule sha256 intent plan phase candidates sources head user_scope_digest
          token_budget
        ≡ ok capsule
      → (item : TaskPhase) × (references : List SourceReference) × (lookup phase
            (phases_by_id plan.phases)
          ≡ some item)
        × (map_result new_reference (by_source_id sources) ≡ ok references)
        × (capsule
            ≡ capsule_of sha256 intent item phase candidates sources references head
                user_scope_digest token_budget)
  unfolding compile_context_capsule new_capsule
  compile-eq-ok capsule h = elim (Option-cases (lookup phase (phases_by_id plan.phases))) [
    | inl missing ↦ ground (arith, missing)
    | inr (item, found) ↦ elim (Result-cases (map_result new_reference (by_source_id sources))) [
      | inr (e, bad) ↦ ground (arith, found, bad)
      | inl (references, good) ↦ (item, references, found, good, ground (arith, found, good))
    ]
  ]

  -- The rejected capabilities of a compiled capsule are exactly the candidates that it does not select.
  pub compile-rejected :
      (capsule : ContextCapsule) (id : String)
      → compile_context_capsule sha256 intent plan phase candidates sources head user_scope_digest
          token_budget
        ≡ ok capsule
      → In id capsule.rejected_capability_ids ↔ (
          (c : CapabilityCandidate) × In c candidates
          × (id ≡ c.capability_id)
          × (member id capsule.selected_capability_ids ≡ false))
  unfolding capsule_of rejected_ids
  compile-rejected capsule id h =
      let (item, references, found, good, same) = compile-eq-ok capsule h in
      let selected = selected_ids intent.cross_module phase item.capability_ids candidates in
      rw same (rejected_iff candidates selected id)

  -- A compiled capsule asks for exactly the permissions of the candidates that it selects.
  pub compile-permissions :
      (capsule : ContextCapsule) (p : Permission)
      → compile_context_capsule sha256 intent plan phase candidates sources head user_scope_digest
          token_budget
        ≡ ok capsule
      → In p capsule.requested_permissions ↔ (
          (c : CapabilityCandidate) × In c candidates
          × In c.capability_id capsule.selected_capability_ids
          × In p c.permissions)
  unfolding capsule_of permissions_of
  compile-permissions capsule p h =
      let (item, references, found, good, same) = compile-eq-ok capsule h in
      let selected = selected_ids intent.cross_module phase item.capability_ids candidates in
      rw same (permissions_iff candidates selected p)
