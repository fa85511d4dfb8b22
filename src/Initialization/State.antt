-- ===== src/Initialization/State.antt =====
-- src/vibe/workflows/state.py, and the exceptions of checkpoints.py and init_graph.py.
use local_skill_orchestrator.Prelude.{ℕ, String, ◌≡◌, ◌↔◌, true, Option, arith, nat_eq, Eq, Dict}
use local_skill_orchestrator.Prelude.Json.{Json}

pub data InitStage : Type 0 where
  inspect inventory interview model resolve recommend review apply verify : InitStage

pub data InitStatus : Type 0 where
  running paused failed cancelled completed : InitStatus

abbrev pub stage_index : InitStage → ℕ
stage_index inspect = 0
stage_index inventory = 1
stage_index interview = 2
stage_index model = 3
stage_index resolve = 4
stage_index recommend = 5
stage_index review = 6
stage_index apply = 7
stage_index verify = 8

abbrev pub status_index : InitStatus → ℕ
status_index running = 0
status_index paused = 1
status_index failed = 2
status_index cancelled = 3
status_index completed = 4

pub stage_eq_iff : (a b : InitStage) → (nat_eq (stage_index a) (stage_index b) ≡ true) ↔ (a ≡ b)
stage_eq_iff a b = ground arith

pub status_eq_iff : (a b : InitStatus) → (nat_eq (status_index a) (status_index b) ≡ true) ↔ (a ≡ b)
status_eq_iff a b = ground arith

instance abbrev pub stage_Eq : Eq InitStage
stage_Eq = record {
  equal = λ a b. nat_eq (stage_index a) (stage_index b);
  equal_iff = stage_eq_iff;
}

instance abbrev pub status_Eq : Eq InitStatus
status_Eq = record {
  equal = λ a b. nat_eq (status_index a) (status_index b);
  equal_iff = status_eq_iff;
}

pub record InitCheckpoint : Type 0 where
  pub checkpoint_id : String
  pub run_id : String
  pub repository_digest : String
  pub stage : InitStage
  pub status : InitStatus
  pub confirmed : Dict Json
  pub attempt : ℕ
  pub revision : ℕ
  pub error : Option String
  pub cancellation_reason : Option String

-- `CheckpointNotFound`, `CheckpointConflict`, the `InvalidTransition` of each message, and what the
-- layers below raise: sqlite's `IntegrityError`, and the exception of a side effect.
pub data InitError : Type 0 where
  not_found : String → InitError
  conflict : String → InitError
  wrong_stage : InitStage → InitStage → InitError
  wrong_status : String → InitStatus → InitError
  cannot_complete : InitStage → InitError
  digest_changed : InitError
  integrity_error : InitError
  side_effect_error : InitError

pub data Result {ℓ} (A : Type ℓ) : Type ℓ where
  ok : A → Result A
  err : InitError → Result A
