-- ===== src/Doctor/Examples.antt =====
-- Drift of a project.
use local_skill_orchestrator.Prelude.{String, ◌≡◌, refl, ◌||◌, false, some, [], ◌∷◌, any, map}
use local_skill_orchestrator.Materialize.Changeset.{
  ChangeOperation, ChangeSet, update, unchanged, owned, managed, observed, normal, ChangeKind,
  FileOwnership,
}
use local_skill_orchestrator.Repository.{RepositoryFact, RepositorySnapshot, a_text, confirmed}
use local_skill_orchestrator.Doctor.Drift.{
  stack_facts, stacks_differ, is_drifted, detect_drift, invalidates, git_head_changed,
  lockfile_changed, technology_stack_changed,
}
use local_skill_orchestrator.Doctor.Drift.Invalidation.{invalidates-detect_drift}

abbrev language : String → RepositoryFact
language name = record {
  key = "stack.language";
  value = a_text name;
  confidence = confirmed;
  sources = "pyproject.toml" ∷ [];
}

abbrev snapshot : String → String → RepositorySnapshot
snapshot head name = record {
  is_empty = false;
  head = some head;
  facts = language name ∷ [];
  source_digest = "12345678";
}

abbrev operation : String → ChangeKind → FileOwnership → ChangeOperation
operation path kind ownership = record {
  path = path;
  kind = kind;
  ownership = ownership;
  before_content = some "a";
  after_content = some "b";
  before_digest = "a";
  after_digest = "b";
  source = "plan";
  reason = "plan";
  sensitivity = normal;
}

abbrev lock_changed : ChangeSet
lock_changed = record {
  operations =
      operation ".ai-project/capabilities.lock" update owned
      ∷ operation "README.md" update observed
      ∷ [];
  commands = [];
  digest = "d";
}

abbrev nothing_changed : ChangeSet
nothing_changed = record {
  operations = operation "AGENTS.md" unchanged managed ∷ operation "README.md" update observed ∷ [];
  commands = [];
  digest = "d";
}

kinds_found :
    map (λ r. r.kind) (detect_drift (snapshot "a" "python") (snapshot "b" "rust") lock_changed)
    ≡ git_head_changed ∷ lockfile_changed ∷ technology_stack_changed ∷ []
unfolding detect_drift
kinds_found = refl

commit_allowed :
    invalidates (detect_drift (snapshot "a" "python") (snapshot "b" "python") nothing_changed)
    ≡ false
unfolding detect_drift
commit_allowed = refl

invalidates-detect_drift_example :
    invalidates (detect_drift (snapshot "a" "python") (snapshot "b" "rust") lock_changed) ≡ (
      stacks_differ (stack_facts (language "python" ∷ [])) (stack_facts (language "rust" ∷ []))
      || any is_drifted lock_changed.operations)
invalidates-detect_drift_example =
    invalidates-detect_drift (snapshot "a" "python") (snapshot "b" "rust") lock_changed
