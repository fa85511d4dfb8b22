-- ===== src/Planning/Examples.antt =====
-- Concrete requests, at which the theorems of planning are applied.
use local_skill_orchestrator.Planning.Scenarios.{is_migration}
use local_skill_orchestrator.Planning.Scenarios.{intersects, is_sensitive, sensitivity_level}
use local_skill_orchestrator.Prelude.{
  ◌≡◌, refl, true, [], ◌∷◌, map, arith, member, string_Eq, sorted_set, string_Ord,
}
use local_skill_orchestrator.Planning.Risk.{
  local, multi_component, public, internal, reversible, irreversible, TaskOperation, read_project,
  write_project, migrate_data, deploy, operation_Eq,
}
use local_skill_orchestrator.Planning.Scenarios.{
  ScenarioRequest, bug, exploration, fast, classify_scenario,
}
use local_skill_orchestrator.Planning.TaskGraph.{
  TaskPhase, TaskPlan, ok, phase_ids, build_task_plan, capabilities_of,
}
use local_skill_orchestrator.Planning.TaskGraph.Phases.{build_task_plan-ok}
use local_skill_orchestrator.Planning.TaskGraph.Gates.{
  precedes, risky_is_gated, destructive_is_reversible,
}

-- A bug fix that migrates data.
abbrev data_fix : ScenarioRequest
data_fix = record {
  scenario = bug;
  scope = multi_component;
  data_sensitivity = internal;
  reversibility = irreversible;
  operations = write_project ∷ migrate_data ∷ [];
}

abbrev reading : ScenarioRequest
reading = record {
  scenario = exploration;
  scope = local;
  data_sensitivity = public;
  reversibility = reversible;
  operations = read_project ∷ [];
}

risky_is_gated_example :
    (member "approval" (phase_ids (classify_scenario data_fix)) ≡ true)
    × (precedes "approval" "implement" (phase_ids (classify_scenario data_fix)) ≡ true)
unfolding local_skill_orchestrator.Planning.Scenarios.intersects
risky_is_gated_example = risky_is_gated data_fix refl

destructive_is_reversible_example :
    precedes "rollback" "implement" (phase_ids (classify_scenario data_fix)) ≡ true
unfolding local_skill_orchestrator.Planning.Scenarios.is_migration
destructive_is_reversible_example = destructive_is_reversible data_fix refl

more_operations :
    (o : TaskOperation)
    → member o (read_project ∷ []) ≡ true
    → member o (read_project ∷ deploy ∷ []) ≡ true
more_operations o h = ground arith

build_task_plan-ok_example :
    (plan : TaskPlan) × (build_task_plan "task" "Fix the data."
        (classify_scenario data_fix)
        ("done" ∷ [])
        (("implement", "write" ∷ []) ∷ [])
      ≡ ok plan)
    × (plan.risk_level ≡ (classify_scenario data_fix).risk.level)
    × (plan.workflow_mode ≡ (classify_scenario data_fix).workflow_mode)
    × (map (λ (p : TaskPhase). p.phase_id) plan.phases ≡ phase_ids (classify_scenario data_fix))
    × (map (λ (p : TaskPhase). p.capability_ids) plan.phases
        ≡ map
            (λ id. sorted_set (capabilities_of (("implement", "write" ∷ []) ∷ []) id))
            (phase_ids (classify_scenario data_fix)))
build_task_plan-ok_example =
    build_task_plan-ok "task" "Fix the data." (classify_scenario data_fix) ("done" ∷ [])
      (("implement", "write" ∷ []) ∷ []) refl refl refl
