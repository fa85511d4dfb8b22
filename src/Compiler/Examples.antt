-- ===== src/Compiler/Examples.antt =====
-- A concrete capsule, at which the theorems of the compiler are applied.
use local_skill_orchestrator.Prelude.{
  lookup, insert, ℕ, String, ◌≡◌, refl, ◌↔◌, Bool, true, false, some, List, [], ◌∷◌, In, member,
  string_Eq, ◌==◌, arith,
}
use local_skill_orchestrator.Prelude.Results.{ok}
use local_skill_orchestrator.Capability.{read_project, network}
use local_skill_orchestrator.Planning.Risk.{low}
use local_skill_orchestrator.Planning.Scenarios.{exploration, fast}
use local_skill_orchestrator.Planning.TaskGraph.{TaskPhase, TaskPlan}
use local_skill_orchestrator.Compiler.Intent.{TaskIntent, normalize_scope}
use local_skill_orchestrator.Compiler.Context.{
  phases_by_id, CapabilityCandidate, ContextSource, repository, memory, ContextCapsule,
  compile_context_capsule, capsule_is_valid, scope_digest,
}
use local_skill_orchestrator.Compiler.Context.Totality.{compile-ok}
use local_skill_orchestrator.Compiler.Context.Validity.{compile-capsule_is_valid}

abbrev digest : String → String
digest s = s

abbrev head : String
head = "abc"

abbrev user : String
user = "all"

abbrev pub intent : TaskIntent
intent = record {
  task_id = "task";
  summary = "Read the code.";
  scenario = exploration;
  scope = "src" ∷ [];
  acceptance_criteria = "read" ∷ [];
  cross_module = true;
}

abbrev pub inspecting : TaskPhase
inspecting = record {
  phase_id = "inspect";
  objective = "Inspect.";
  completion_conditions = "seen" ∷ [];
  capability_ids = "reader" ∷ [];
  requires_approval = true;
}

abbrev pub plan : TaskPlan
plan = record {
  task_id = "task";
  intent = "Read the code.";
  risk_level = low;
  workflow_mode = fast;
  acceptance_criteria = "read" ∷ [];
  phases = inspecting ∷ [];
}

abbrev pub candidates : List CapabilityCandidate
candidates =
    record {
      capability_id = "reader";
      provides = "reading" ∷ [];
      phases = [];
      permissions = read_project ∷ [];
    }
    ∷ record {
      capability_id = "graph";
      provides = "code-relationship-analysis" ∷ [];
      phases = "inspect" ∷ [];
      permissions = [];
    }
    ∷ record {
      capability_id = "web";
      provides = "search" ∷ [];
      phases = [];
      permissions = network ∷ [];
    }
    ∷ []

abbrev pub sources : List ContextSource
sources =
    record { source_id = "readme"; digest = "12345678"; kind = repository }
    ∷ record { source_id = "notes"; digest = "abcdefgh"; kind = memory }
    ∷ []

abbrev capsule : ContextCapsule
capsule = record {
  task_id = "task";
  intent = "Read the code.";
  scope = "src" ∷ [];
  constraints = "Treat notes as a lead; verify it against repository sources." ∷ [];
  acceptance_criteria = "read" ∷ [];
  current_phase = "inspect";
  selected_capability_ids = "graph" ∷ "reader" ∷ [];
  requested_permissions = read_project ∷ [];
  deferred_capability_ids = [];
  rejected_capability_ids = "web" ∷ [];
  sources =
      record { source_id = "notes"; digest = "abcdefgh" }
      ∷ record { source_id = "readme"; digest = "12345678" }
      ∷ [];
  invalidation_conditions = "git-head:abc" ∷ "user-scope:all" ∷ "phase:inspect" ∷ "scope:src" ∷ [];
  token_budget = 4096;
}

compiled :
    compile_context_capsule digest intent plan "inspect" candidates sources "abc" "all" 4096
    ≡ ok capsule
unfolding compile_context_capsule local_skill_orchestrator.Prelude.lookup
    local_skill_orchestrator.Prelude.insert local_skill_orchestrator.Prelude.sort_by
    local_skill_orchestrator.Prelude.sorted_set
compiled = refl

compile-ok_example :
    (c : ContextCapsule) × (compile_context_capsule digest intent plan "inspect" candidates sources
        "abc" "all" 4096
      ≡ ok c)
    × (c.current_phase ≡ "inspect")
    × (c.task_id ≡ "task")
unfolding phases_by_id lookup insert
compile-ok_example =
    compile-ok digest intent plan "inspect" candidates sources "abc" "all" 4096 inspecting refl refl
      refl refl refl (omega arith)

compile-capsule_is_valid_example :
    (capsule_is_valid digest capsule "abc" "all" "inspect" ("src" ∷ []) ≡ true) ↔ (
      (head ≡ head)
      × (user ≡ user)
      × (inspecting.phase_id ≡ inspecting.phase_id)
      × (scope_digest digest ("src" ∷ []) ≡ scope_digest digest (normalize_scope ("src" ∷ []))))
compile-capsule_is_valid_example =
    compile-capsule_is_valid digest intent plan "inspect" candidates sources "abc" "all" 4096
      capsule "abc" "all" "inspect" ("src" ∷ []) compiled
