-- ===== src/Compiler/Context/Totality.antt =====
-- The inputs for which a capsule is compiled.
use Prim.Native.String.{count}
use local_skill_orchestrator.Prelude.{
  ℕ, ◌<◌, String, ◌≡◌, refl, inl, inr, Bool, true, not, ◌&&◌, some, List, [], ◌∷◌, map, arith, leb,
  all, all-In, all_of_In, any, any-In, filter-In, member, Bool-cases, lookup, is_nonempty, is_text,
  sorted_set, sorted_set-In, string_Eq, string_Ord, sort_by-In, length-sort_by, length, on, str_leb,
  ltb, ==_refl,
}
use local_skill_orchestrator.Prelude.Results.{ok, map_result}
use local_skill_orchestrator.Planning.TaskGraph.{TaskPhase, TaskPlan}
use local_skill_orchestrator.Compiler.Intent.{TaskIntent}
use local_skill_orchestrator.Compiler.Context.{
  CapabilityCandidate, ContextSource, SourceReference, ContextCapsule, phases_by_id, by_source_id,
  new_reference, new_capsule, capsule_of, compile_context_capsule, selected_ids, rejected_ids,
  is_disjoint,
}
use local_skill_orchestrator.Compiler.Context.Selection.{member-sorted_set}

-- A source that a capsule can refer to.
abbrev pub is_referable : ContextSource → Bool
is_referable s = is_text s.source_id && leb 8 (count s.digest)

references_of : List ContextSource → List SourceReference
references_of = map (λ (s : ContextSource). record { source_id = s.source_id; digest = s.digest })

references-ok :
    (sources : List ContextSource)
    → all is_referable sources ≡ true
    → map_result new_reference sources ≡ ok (references_of sources)
unfolding new_reference references_of
references-ok [] h = refl
references-ok (s ∷ sources) h = ground (arith, references-ok sources)

references-nonempty :
    (sources : List ContextSource) → is_nonempty (references_of sources) ≡ is_nonempty sources
unfolding references_of
references-nonempty [] = refl
references-nonempty (s ∷ sources) = refl

-- What is rejected is not selected, so the capsule's validator has nothing to refuse.
rejected-is_disjoint :
    (selected : List String) (candidates : List CapabilityCandidate)
    → is_disjoint (sorted_set (rejected_ids selected candidates)) (sorted_set selected) ≡ true
unfolding rejected_ids
rejected-is_disjoint selected candidates =
    elim (Bool-cases
      (any (λ x. member x (sorted_set selected)) (sorted_set (rejected_ids selected candidates)))) [
        | inr f ↦ rw f refl
        | inl t ↦
            let (x, i, s) =
              any-In (λ x. member x (sorted_set selected))
                (sorted_set (rejected_ids selected candidates)) t in
            let (k, out) =
              filter-In (λ j. not (member j selected)) x
                (map (λ (c : CapabilityCandidate). c.capability_id) candidates)
                (sorted_set-In x (rejected_ids selected candidates) i) in
            ground (arith, member-sorted_set candidates selected x)
      ]

abbrev by_id : ContextSource → ContextSource → Bool
by_id = on (λ (s : ContextSource). s.source_id) str_leb

is_disjoint_empty : (xs : List String) → is_disjoint xs [] ≡ true
is_disjoint_empty [] = refl
is_disjoint_empty (x ∷ xs) = is_disjoint_empty xs

nonempty-length : {A : Type 0} (xs : List A) → is_nonempty xs ≡ ltb 0 (length xs)
nonempty-length [] = refl
nonempty-length (x ∷ xs) = ground arith

sources-nonempty :
    (sources : List ContextSource) → is_nonempty (by_source_id sources) ≡ is_nonempty sources
sources-nonempty sources =
    rw
      (
        nonempty-length (by_source_id sources),
        length-sort_by by_id sources,
        nonempty-length sources,
      )
      refl

module _ (sha256 : String → String) (intent : TaskIntent) (plan : TaskPlan) (phase : String)
    (candidates : List CapabilityCandidate) (sources : List ContextSource)
    (head user_scope_digest : String) (token_budget : ℕ) where
  -- A capsule is compiled for every phase of the plan: with the plan's task, a summary, a criterion, at
  -- least one source, each with an identifier and a digest of eight characters, and a positive budget,
  -- the compiler returns a capsule for the phase, whatever the candidates are.
  pub compile-ok :
      (item : TaskPhase)
      → intent.task_id ≡ plan.task_id
      → lookup phase (phases_by_id plan.phases) ≡ some item
      → is_text intent.task_id
          && (is_text intent.summary && (is_nonempty intent.acceptance_criteria && is_text phase))
        ≡ true
      → is_nonempty sources ≡ true
      → all is_referable sources ≡ true
      → 0 < token_budget
      → (capsule : ContextCapsule) × (compile_context_capsule sha256 intent plan phase candidates
            sources head user_scope_digest token_budget
          ≡ ok capsule)
        × (capsule.current_phase ≡ phase)
        × (capsule.task_id ≡ plan.task_id)
  unfolding compile_context_capsule new_capsule capsule_of
  compile-ok item same found named some_source referable budget =
      let refs = references_of (by_source_id sources) in
      let good : map_result new_reference (by_source_id sources) ≡ ok refs =
        references-ok (by_source_id sources) (
          all_of_In is_referable (by_source_id sources)
            (λ s i. all-In is_referable s sources referable (sort_by-In by_id s sources i))) in
      let selected = selected_ids intent.cross_module phase item.capability_ids candidates in
      (
        capsule_of sha256 intent item phase candidates sources refs head user_scope_digest
            token_budget,
        ground (
          arith,
          found,
          good,
          references-nonempty (by_source_id sources),
          sources-nonempty sources,
          rejected-is_disjoint selected candidates,
          ==_refl plan.task_id,
          is_disjoint_empty (sorted_set (rejected_ids selected candidates)),
        ),
        refl,
        same,
      )
