-- ===== src/Runner/Examples.antt =====
-- A concrete environment, at which the theorems of the runner are applied.
use local_skill_orchestrator.Prelude.{
  ℕ, String, ◌≡◌, refl, sym, subst, ◌⊎◌, inl, inr, ◌↔◌, Bool, true, false, Option, none, some, List,
  [], ◌∷◌, map, In, member, flat_map, string_Eq,
}
use local_skill_orchestrator.Prelude.Results.{ok}
use local_skill_orchestrator.Planning.Risk.{low}
use local_skill_orchestrator.Planning.Scenarios.{exploration, fast}
use local_skill_orchestrator.Planning.TaskGraph.{TaskPhase}
use local_skill_orchestrator.Compiler.Context.{repository}
use local_skill_orchestrator.Runner.State.{TaskRunCheckpoint, completed, PhaseExecutionResult}
use local_skill_orchestrator.Runner.World.{Environment, World}
use local_skill_orchestrator.Runner.Run.{Task, run}
use local_skill_orchestrator.Runner.Run.Approval.{IsGated, run-IsGated}
use local_skill_orchestrator.Runner.Run.Progress.{Verified}
use local_skill_orchestrator.Runner.Run.Resumption.{after_runs, after_runs-completed}

abbrev digest : String → String
digest s = s

abbrev inspecting : TaskPhase
inspecting = record {
  phase_id = "inspect";
  objective = "Inspect.";
  completion_conditions = "seen" ∷ [];
  capability_ids = "reader" ∷ [];
  requires_approval = true;
}

abbrev task : Task
task = record {
  intent = record {
    task_id = "task";
    summary = "Read the code.";
    scenario = exploration;
    scope = "src" ∷ [];
    acceptance_criteria = "read" ∷ [];
    cross_module = false;
  };
  plan = record {
    task_id = "task";
    intent = "Read the code.";
    risk_level = low;
    workflow_mode = fast;
    acceptance_criteria = "read" ∷ [];
    phases = inspecting ∷ [];
  };
  candidates = [];
  sources = record { source_id = "readme"; digest = "12345678"; kind = repository } ∷ [];
  user_scope_digest = "all";
}

abbrev inspected : PhaseExecutionResult
inspected = record {
  phase_id = "inspect";
  completed = true;
  completion_evidence = [];
  completion_conditions_met = "seen" ∷ [];
  confirmed_facts = "small" ∷ [];
  capabilities_used = [];
}

abbrev env : Environment (Unit {0})
env = record {
  head_provider = λ w. (ok "abc", w);
  blueprint_digest_provider = λ w. (ok "blueprint", w);
  approval_provider = λ p w. (ok true, w);
  start_thread = λ w. (ok "thread", w);
  resume_thread = λ thread w. (ok thread, w);
  execute_phase = λ thread prompt w. (ok inspected, w);
  expose = none;
  start_phase_thread = none;
  outcome_recorder = none;
  close = some (λ w. (ok tt, w));
}

abbrev empty : World (Unit {0})
empty = record { outside = tt; file = none; log = [] }

abbrev finished : TaskRunCheckpoint
finished = record {
  task_id = "task";
  status = completed;
  codex_thread_id = "thread";
  source_head = "abc";
  blueprint_digest = "blueprint";
  next_phase_index = 1;
  next_phase_id = none;
  completed_phase_ids = "inspect" ∷ [];
  phase_results = inspected ∷ [];
  confirmed_facts = "small" ∷ [];
  exposure_digest = none;
  error = none;
}

returns : (run digest env task false empty).0 ≡ ok finished
unfolding run local_skill_orchestrator.Prelude.lookup local_skill_orchestrator.Prelude.insert
    local_skill_orchestrator.Prelude.sort_by
returns = refl

file_after_run : (after_runs digest env task (false ∷ []) empty).file ≡ some finished
unfolding after_runs run local_skill_orchestrator.Prelude.lookup
    local_skill_orchestrator.Prelude.insert local_skill_orchestrator.Prelude.sort_by
file_after_run = refl

run-IsGated_example : IsGated (run digest env task false empty).1.log
run-IsGated_example = run-IsGated digest env task false empty refl

after_runs-completed_example :
    (finished.completed_phase_ids ≡ map (λ (p : TaskPhase). p.phase_id) task.plan.phases)
    × Verified task.plan.phases finished.phase_results
after_runs-completed_example =
    after_runs-completed digest env task (false ∷ []) empty finished refl file_after_run refl

-- Another plan for the same task, with a phase before the inspection.
abbrev writing : TaskPhase
writing = record inspecting { phase_id = "write"; objective = "Write." }

abbrev longer_task : Task
longer_task = record task { plan = record task.plan { phases = writing ∷ inspecting ∷ [] } }

abbrev after_short_plan : World (Unit {0})
after_short_plan = record empty { file = some finished }

-- Resumed with the other plan, the run goes on behind that phase, and completes without it.
resumed_with_other_plan :
    (run digest env longer_task true after_short_plan).0
    ≡ ok (record finished {
      next_phase_index = 2;
      completed_phase_ids = "inspect" ∷ "inspect" ∷ [];
      phase_results = inspected ∷ inspected ∷ [];
    })
unfolding run local_skill_orchestrator.Prelude.lookup local_skill_orchestrator.Prelude.insert
    local_skill_orchestrator.Prelude.sort_by
resumed_with_other_plan = refl
