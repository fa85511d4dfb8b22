-- ===== src/Doctor/Drift.antt =====
-- src/vibe/doctor/drift.py with compiler/invalidation.py: what has changed since a
-- project was configured.
pub mod Invalidation
use text.Mathlib.Text.{starts_with}
use local_skill_orchestrator.Prelude.{
  String, Bool, true, false, not, ◌&&◌, ◌||◌, Option, none, some, List, [], ◌∷◌, ◌++◌, all, any,
  filter, map, flat_map, is_nonempty, if◌then◌else◌, ◌==◌, string_Eq, string_Ord, Dict, lookup,
  insert, keys, sort_by, sorted_set, str_leb,
}
use local_skill_orchestrator.Repository.{
  FactConfidence, confidence_value, FactValue, no_value, a_text, a_list, RepositoryFact,
  RepositorySnapshot,
}
use local_skill_orchestrator.Materialize.Changeset.{
  ChangeOperation, ChangeSet, is_observed, is_unchanged,
}

pub data InvalidationKind : Type 0 where
  git_head_changed technology_stack_changed repository_source_changed lockfile_changed
        managed_file_changed :
      InvalidationKind

abbrev pub invalidation_value : InvalidationKind → String
invalidation_value git_head_changed = "git-head-changed"
invalidation_value technology_stack_changed = "technology-stack-changed"
invalidation_value repository_source_changed = "repository-source-changed"
invalidation_value lockfile_changed = "lockfile-changed"
invalidation_value managed_file_changed = "managed-file-changed"

pub record InvalidationReason : Type 0 where
  pub kind : InvalidationKind
  pub sources : List String
  pub invalidates_configuration : Bool
  pub expected_digest : Option String
  pub actual_digest : Option String

abbrev pub text_eq : Option String → Option String → Bool
text_eq none none = true
text_eq (some a) (some b) = a == b
text_eq _ _ = false

abbrev pub list_eq : List String → List String → Bool
list_eq [] [] = true
list_eq (x ∷ xs) (y ∷ ys) = (x == y) && list_eq xs ys
list_eq _ _ = false

abbrev pub value_eq : FactValue → FactValue → Bool
value_eq no_value no_value = true
value_eq (a_text a) (a_text b) = a == b
value_eq (a_list xs) (a_list ys) = list_eq xs ys
value_eq _ _ = false

-- before == after, where either may be missing
abbrev pub fact_eq : Option RepositoryFact → Option RepositoryFact → Bool
fact_eq none none = true
fact_eq (some a) (some b) =
    (a.key == b.key)
    && value_eq a.value b.value
    && (confidence_value a.confidence == confidence_value b.confidence)
    && list_eq a.sources b.sources
fact_eq _ _ = false

abbrev collect : List RepositoryFact → Dict RepositoryFact → Dict RepositoryFact
unfolding insert
collect [] d = d
collect (f ∷ fs) d =
    let more = collect fs (insert f.key f d) in
    let rest = collect fs d in if starts_with f.key "stack." then more else rest

-- `_stack_facts`
unfoldable pub stack_facts : List RepositoryFact → Dict RepositoryFact
unfolding collect
stack_facts facts = collect facts []

abbrev pub differs : Dict RepositoryFact → Dict RepositoryFact → String → Bool
unfolding lookup
differs before after key = not (fact_eq (lookup key before) (lookup key after))

-- baseline_stack != current_stack, two dictionaries
unfoldable pub stacks_differ : Dict RepositoryFact → Dict RepositoryFact → Bool
unfolding differs
stacks_differ before after = any (differs before after) (keys before ++ keys after)

abbrev sources_of : Option RepositoryFact → List String
sources_of none = []
sources_of (some f) = f.sources

abbrev or_stack : List String → List String
or_stack [] = "technology stack facts" ∷ []
or_stack (s ∷ ss) = s ∷ ss

-- `_changed_stack_sources`
unfoldable pub changed_stack_sources : Dict RepositoryFact → Dict RepositoryFact → List String
unfolding differs lookup sorted_set
changed_stack_sources before after = or_stack (
    sorted_set (
      flat_map (λ key. sources_of (lookup key before) ++ sources_of (lookup key after))
        (filter (differs before after) (keys before ++ keys after))))

abbrev when : Bool → InvalidationReason → List InvalidationReason
when test reason = if test then reason ∷ [] else []

abbrev pub is_drifted : ChangeOperation → Bool
is_drifted o = not (is_unchanged o.kind) && not (is_observed o.ownership)

abbrev operation_reason : ChangeOperation → InvalidationReason
operation_reason o = record {
  kind =
      if o.path == ".ai-project/capabilities.lock" then lockfile_changed else managed_file_changed;
  sources = o.path ∷ [];
  invalidates_configuration = true;
  expected_digest = some o.after_digest;
  actual_digest = some o.before_digest;
}

abbrev texts_leb : List String → List String → Bool
texts_leb [] ys = true
texts_leb (x ∷ xs) [] = false
texts_leb (x ∷ xs) (y ∷ ys) = if x == y then texts_leb xs ys else str_leb x y

-- `_reason_key`, by which the reasons are sorted
abbrev pub reason_leb : InvalidationReason → InvalidationReason → Bool
reason_leb a b =
    if invalidation_value a.kind == invalidation_value b.kind
    then texts_leb a.sources b.sources
    else str_leb (invalidation_value a.kind) (invalidation_value b.kind)

-- The reasons in the order in which they are found.
unfoldable pub found_reasons :
    RepositorySnapshot → RepositorySnapshot → ChangeSet → List InvalidationReason
unfolding stack_facts stacks_differ changed_stack_sources
found_reasons baseline current changeset =
    let before = stack_facts baseline.facts in
    let after = stack_facts current.facts in
    when (not (text_eq baseline.head current.head)) (record {
      kind = git_head_changed;
      sources = "git HEAD" ∷ [];
      invalidates_configuration = false;
      expected_digest = baseline.head;
      actual_digest = current.head;
    })
    ++ (when (stacks_differ before after) (record {
      kind = technology_stack_changed;
      sources = changed_stack_sources before after;
      invalidates_configuration = true;
      expected_digest = none;
      actual_digest = none;
    })
        ++ (when (not (baseline.source_digest == current.source_digest)) (record {
          kind = repository_source_changed;
          sources = "repository source files" ∷ [];
          invalidates_configuration = false;
          expected_digest = some baseline.source_digest;
          actual_digest = some current.source_digest;
        })
            ++ map operation_reason (filter is_drifted changeset.operations)))

-- `detect_drift`; a `DriftReport` is its reasons
unfoldable pub detect_drift :
    RepositorySnapshot → RepositorySnapshot → ChangeSet → List InvalidationReason
unfolding sort_by found_reasons
detect_drift baseline current changeset =
    sort_by reason_leb (found_reasons baseline current changeset)

-- `DriftReport.invalidates_configuration`
abbrev pub invalidates : List InvalidationReason → Bool
invalidates reasons = any (λ r. r.invalidates_configuration) reasons
