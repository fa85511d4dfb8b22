-- ===== src/Runner/State.antt =====
-- The data of src/vibe/workflows/task_runner.py, and src/vibe/models/outcome.py.
use local_skill_orchestrator.Prelude.{ℕ, String, Bool, Option, List, Dict}
use local_skill_orchestrator.Compiler.Context.{ContextCapsule, CompileError}

pub data TaskRunStatus : Type 0 where
  running awaiting_approval invalidated completed failed : TaskRunStatus

pub record PhaseExecutionResult : Type 0 where
  pub phase_id : String
  pub completed : Bool
  pub completion_evidence : List String
  pub completion_conditions_met : List String
  pub confirmed_facts : List String
  pub capabilities_used : List String

-- `phase_index` is `next_phase_index`, at least 0.
pub record TaskRunCheckpoint : Type 0 where
  pub task_id : String
  pub status : TaskRunStatus
  pub codex_thread_id : String
  pub source_head : String
  pub blueprint_digest : String
  pub next_phase_index : ℕ
  pub next_phase_id : Option String
  pub completed_phase_ids : List String
  pub phase_results : List PhaseExecutionResult
  pub confirmed_facts : List String
  pub exposure_digest : Option String
  pub error : Option String

pub record TaskOutcome : Type 0 where
  pub task_type : String
  pub workflow : String
  pub capabilities_used : List String
  pub verification_passed : Bool
  pub user_rework : Bool
  pub unused_recommendations : List String

-- What `_phase_prompt` writes as JSON.
pub record Prompt : Type 0 where
  pub context_capsule : ContextCapsule
  pub confirmed_state : List String
  pub capability_content : Dict (List String)

pub data RunError : Type 0 where
  task_mismatch : RunError
  checkpoint_missing : RunError
  checkpoint_mismatch : RunError
  -- plan.phases[0] of an empty plan
  index_error : RunError
  compile_error : CompileError → RunError
  no_phase_threads : RunError
  wrong_phase : String → String → RunError
  incomplete : String → List String → RunError
  -- an exception of the app server, the exposure or the recorder
  raised : String → RunError
