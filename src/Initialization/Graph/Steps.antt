-- ===== src/Initialization/Graph/Steps.antt =====
-- The transition diagram of an initialization run as a relation, and what every transition keeps.
use local_skill_orchestrator.Prelude.{
  ℕ, ◌+◌, ◌≤◌, String, ◌≡◌, true, false, Option, none, some, arith, is_some, ◌==◌, string_Eq, ==→eq,
}
use local_skill_orchestrator.Initialization.State.{
  InitStage, verify, stage_index, InitStatus, running, paused, failed, cancelled, completed,
  InitCheckpoint, ok, stage_Eq, status_Eq,
}
use local_skill_orchestrator.Initialization.Graph.{next_stage, is_terminal, is_expected}
use local_skill_orchestrator.Initialization.Graph.Transitions.{
  Op, advancing, revising, pausing, resuming, failing, retrying, cancelling, completing, transition,
}

-- One rule for each arrow of the diagram, over the stage and the status of a run.
infix 40 ◌⟶◌
pub data ◌⟶◌ : InitStage × InitStatus → InitStage × InitStatus → Type 0 where
  forward : {s u : InitStage} → next_stage s ≡ some u → (s, running) ⟶ (u, running)
  amend : {s : InitStage} → (s, running) ⟶ (s, running)
  hold : {s : InitStage} → (s, running) ⟶ (s, paused)
  continue : {s : InitStage} → (s, paused) ⟶ (s, running)
  break : {s : InitStage} → (s, running) ⟶ (s, failed)
  again : {s : InitStage} → (s, failed) ⟶ (s, running)
  abandon : {s : InitStage} {a : InitStatus} → is_terminal a ≡ false → (s, a) ⟶ (s, cancelled)
  finish : (verify, running) ⟶ (verify, completed)

abbrev pub position : InitCheckpoint → InitStage × InitStatus
position c = (c.stage, c.status)

is_expected→eq : (s : InitStage) (o : Option InitStage) → is_expected s o ≡ true → o ≡ some s
unfolding is_expected
is_expected→eq s none h = cc
is_expected→eq s (some u) h = ground (arith, ==→eq s u h)

-- What the invariant says of the error field in each status.
abbrev ErrorFits : InitStatus → Option String → Type 0
ErrorFits failed e = is_some e ≡ true
ErrorFits cancelled e = Unit
ErrorFits _ e = e ≡ none

abbrev StageFits : InitStatus → InitStage → Type 0
StageFits completed s = s ≡ verify
StageFits _ s = Unit

-- How many transitions beyond the advances and the retries a status has cost.
abbrev cost : InitStatus → ℕ
cost running = 0
cost _ = 1

pub record IsConsistent (c : InitCheckpoint) : Type 0 where
  pub error_fits : ErrorFits c.status c.error
  pub stage_fits : StageFits c.status c.stage
  pub reason_fits : is_some c.cancellation_reason ≡ (c.status == cancelled)
  pub counted : stage_index c.stage + c.attempt + cost c.status ≤ c.revision

next_stage-index : (s u : InitStage) → next_stage s ≡ some u → stage_index u ≡ stage_index s + 1
unfolding next_stage
next_stage-index s u h = ground arith

module _ (c c' : InitCheckpoint) where
  -- Every accepted transition is an arrow of the diagram.
  pub transition-⟶ : (op : Op) → transition op c ≡ ok c' → position c ⟶ position c'
  unfolding transition is_expected is_terminal
  transition-⟶ (advancing stage confirmed) done = grind (arith, forward)
  transition-⟶ (revising confirmed) done = grind (arith, amend)
  transition-⟶ pausing done = grind (arith, hold)
  transition-⟶ (resuming digest) done = grind (arith, continue)
  transition-⟶ (failing error) done = grind (arith, break)
  transition-⟶ retrying done = grind (arith, again)
  transition-⟶ (cancelling reason) done = grind (arith, abandon)
  transition-⟶ (completing confirmed) done = grind (arith, finish)

  -- Every accepted transition keeps the run, its repository and its identifier, and counts one revision.
  pub transition-revision :
      (op : Op)
      → transition op c ≡ ok c'
      → (c'.run_id ≡ c.run_id)
        × (c'.checkpoint_id ≡ c.checkpoint_id)
        × (c'.repository_digest ≡ c.repository_digest)
        × (c'.revision ≡ c.revision + 1)
  unfolding transition
  transition-revision op done = ground arith

  pub transition-IsConsistent :
      (op : Op) → transition op c ≡ ok c' → IsConsistent c → IsConsistent c'
  unfolding transition is_expected is_terminal
  transition-IsConsistent (advancing stage confirmed) done k = grind (arith, next_stage-index)
  transition-IsConsistent (revising confirmed) done k = ground arith
  transition-IsConsistent _ done k = ground arith
