-- ===== src/Compiler/Context.antt =====
-- src/vibe/compiler/context.py: the context of one phase of a task. The section's `sha256` is the
-- digest of a text as hexadecimal digits, which `hashlib` computes.
pub mod Selection
pub mod Totality
pub mod Validity
use Prim.Native.String.{count}
use local_skill_orchestrator.Prelude.{
  ℕ, String, str_append, Bool, true, false, not, ◌&&◌, ◌||◌, Option, none, some, List, [], ◌∷◌,
  ◌++◌, map, leb, ltb, if◌then◌else◌, filter, any, all, member, flat_map, is_nonempty, is_text,
  ◌==◌, string_Eq, string_Ord, on, str_leb, sort_by, sorted_set, Dict, lookup, update, join,
}
use local_skill_orchestrator.Prelude.Results.{Result, ok, err, ◌>>=◌, ◌>>◌, require, map_result}
use local_skill_orchestrator.Capability.{Permission, permission_Eq, permission_Ord}
use local_skill_orchestrator.Planning.TaskGraph.{TaskPhase, TaskPlan}
use local_skill_orchestrator.Compiler.Intent.{TaskIntent, normalize_scope}

pub data SourceKind : Type 0 where
  repository configuration memory : SourceKind

abbrev pub is_memory : SourceKind → Bool
is_memory memory = true
is_memory _ = false

pub record CapabilityCandidate : Type 0 where
  pub capability_id : String
  pub provides : List String
  pub phases : List String
  pub permissions : List Permission

pub record ContextSource : Type 0 where
  pub source_id : String
  pub digest : String
  pub kind : SourceKind

pub record SourceReference : Type 0 where
  pub source_id : String
  pub digest : String

-- `schema_version` is left out: every model has the current one.
pub record ContextCapsule : Type 0 where
  pub task_id : String
  pub intent : String
  pub scope : List String
  pub constraints : List String
  pub acceptance_criteria : List String
  pub current_phase : String
  pub selected_capability_ids : List String
  pub requested_permissions : List Permission
  pub deferred_capability_ids : List String
  pub rejected_capability_ids : List String
  pub sources : List SourceReference
  pub invalidation_conditions : List String
  pub token_budget : ℕ

-- The `ValueError` of each message, and pydantic's.
pub data CompileError : Type 0 where
  task_mismatch : CompileError
  unknown_phase : String → CompileError
  no_sources : CompileError
  validation_error : CompileError

-- {item.phase_id: item for item in plan.phases}
unfoldable pub phases_by_id : List TaskPhase → Dict TaskPhase
unfolding update
phases_by_id phases = update [] (map (λ (p : TaskPhase). (p.phase_id, p)) phases)

-- SourceReference(...), with the constraints of its fields
unfoldable pub new_reference : ContextSource → Result CompileError SourceReference
new_reference source =
    if is_text source.source_id && leb 8 (count source.digest)
    then ok (record { source_id = source.source_id; digest = source.digest })
    else err validation_error

abbrev pub is_disjoint : List String → List String → Bool
is_disjoint xs ys = not (any (λ x. member x ys) xs)

-- ContextCapsule(...), with the constraints of its fields and `capability_sets_are_disjoint`
unfoldable pub new_capsule : ContextCapsule → Result CompileError ContextCapsule
new_capsule c =
    if is_text c.task_id
      && (is_text c.intent
          && (is_nonempty c.acceptance_criteria
              && (is_text c.current_phase
                  && (is_nonempty c.sources
                      && (is_nonempty c.invalidation_conditions
                          && (ltb 0 c.token_budget
                              && (is_disjoint c.deferred_capability_ids c.selected_capability_ids
                                  && (is_disjoint c.rejected_capability_ids
                                        c.selected_capability_ids
                                      && is_disjoint c.rejected_capability_ids
                                          c.deferred_capability_ids))))))))
    then ok c
    else err validation_error

-- Whether an `inspect` phase adds the candidate to a task across modules.
unfoldable pub analyses : String → CapabilityCandidate → Bool
analyses phase c = member phase c.phases && member "code-relationship-analysis" c.provides

-- `selected`, before it is sorted
unfoldable pub selected_ids : Bool → String → List String → List CapabilityCandidate → List String
unfolding analyses
selected_ids cross_module phase bound candidates =
    bound
    ++ (if phase == "inspect" && cross_module
        then map (λ (c : CapabilityCandidate). c.capability_id) (filter (analyses phase) candidates)
        else [])

-- candidate_ids - selected
unfoldable pub rejected_ids : List String → List CapabilityCandidate → List String
rejected_ids selected candidates =
    filter (λ id. not (member id selected))
      (map (λ (c : CapabilityCandidate). c.capability_id) candidates)

unfoldable pub permissions_of : List String → List CapabilityCandidate → List Permission
permissions_of selected candidates =
    flat_map (λ (c : CapabilityCandidate). c.permissions)
      (filter (λ (c : CapabilityCandidate). member c.capability_id selected) candidates)

abbrev pub by_source_id : List ContextSource → List ContextSource
by_source_id sources = sort_by (on (λ (s : ContextSource). s.source_id) str_leb) sources

unfoldable pub constraints_of : List ContextSource → List String
constraints_of sources =
    map
      (λ (s : ContextSource).
        str_append "Treat "
          (str_append s.source_id " as a lead; verify it against repository sources."))
      (filter (λ (s : ContextSource). is_memory s.kind) (by_source_id sources))

abbrev found : String → Option TaskPhase → Result CompileError TaskPhase
found phase none = err (unknown_phase phase)
found phase (some item) = ok item

-- The comparison of two tuples of texts.
abbrev same_texts : List String → List String → Bool
same_texts [] [] = true
same_texts [] (y ∷ ys) = false
same_texts (x ∷ xs) [] = false
same_texts (x ∷ xs) (y ∷ ys) = x == y && same_texts xs ys

module _ (sha256 : String → String) where
  -- `_scope_digest`: the separator is U+0000
  unfoldable pub scope_digest : List String → String
  unfolding join
  scope_digest scope = sha256 (join "\0" scope)

  unfoldable pub invalidation_conditions : String → String → String → List String → List String
  unfolding scope_digest
  invalidation_conditions head user_scope_digest phase scope =
      str_append "git-head:" head
      ∷ str_append "user-scope:" user_scope_digest
      ∷ str_append "phase:" phase
      ∷ str_append "scope:" (scope_digest scope)
      ∷ []

  -- `ContextCapsule(...)` of the compiler, at the phase that was found
  unfoldable pub capsule_of :
      TaskIntent
      → TaskPhase
      → String
      → List CapabilityCandidate
      → List ContextSource
      → List SourceReference
      → String
      → String
      → ℕ
      → ContextCapsule
  unfolding selected_ids rejected_ids permissions_of constraints_of invalidation_conditions
  capsule_of intent item phase candidates sources references head user_scope_digest token_budget =
      let selected = selected_ids intent.cross_module phase item.capability_ids candidates in
      record {
        task_id = intent.task_id;
        intent = intent.summary;
        scope = intent.scope;
        constraints = constraints_of sources;
        acceptance_criteria = intent.acceptance_criteria;
        current_phase = phase;
        selected_capability_ids = sorted_set selected;
        requested_permissions = sorted_set (permissions_of selected candidates);
        deferred_capability_ids = [];
        rejected_capability_ids = sorted_set (rejected_ids selected candidates);
        sources = references;
        invalidation_conditions = invalidation_conditions head user_scope_digest phase intent.scope;
        token_budget = token_budget;
      }

  unfoldable pub compile_context_capsule :
      TaskIntent
      → TaskPlan
      → String
      → List CapabilityCandidate
      → List ContextSource
      → String
      → String
      → ℕ
      → Result CompileError ContextCapsule
  unfolding phases_by_id new_reference new_capsule capsule_of
  compile_context_capsule intent plan phase candidates sources head user_scope_digest token_budget =
      do
        require (intent.task_id == plan.task_id) task_mismatch
        item ← found phase (lookup phase (phases_by_id plan.phases))
        require (is_nonempty sources) no_sources
        references ← map_result new_reference (by_source_id sources)
        new_capsule (
            capsule_of intent item phase candidates sources references head user_scope_digest
              token_budget)

  unfoldable pub capsule_is_valid : ContextCapsule → String → String → String → List String → Bool
  unfolding invalidation_conditions normalize_scope
  capsule_is_valid capsule head user_scope_digest phase scope =
      same_texts capsule.invalidation_conditions
        (invalidation_conditions head user_scope_digest phase (normalize_scope scope))
