-- ===== src/Initialization/Graph.antt =====
-- `InitializationGraph` of src/vibe/workflows/init_graph.py. A method is an action on the table:
-- what was written before an exception stays written, so the table comes back beside the error.
pub mod Transitions
pub mod Steps
pub mod Runs
pub mod Terminal
pub mod Interleaving
pub mod Diagram
use local_skill_orchestrator.Prelude.{
  ℕ, ◌+◌, String, Bool, true, false, Option, none, some, [], if◌then◌else◌, not, Dict, ◌==◌,
  string_Eq, update,
}
use local_skill_orchestrator.Prelude.Json.{Json}
use local_skill_orchestrator.Initialization.State.{
  InitStage, inspect, inventory, interview, model, resolve, recommend, review, apply, verify,
  InitStatus, running, paused, failed, cancelled, completed, InitCheckpoint, InitError, wrong_stage,
  wrong_status, cannot_complete, digest_changed, Result, ok, err, stage_Eq, status_Eq,
}
use local_skill_orchestrator.Initialization.Store
use local_skill_orchestrator.Initialization.Store.{Table}

abbrev pub Exec {ℓ} : Type ℓ → Type ℓ
Exec A = Table → Result A × Table

module _ {ℓ} {A B : Type ℓ} where
  abbrev continue : Result A → (A → Exec B) → Exec B
  continue (ok a) f t = f a t
  continue (err e) f t = (err e, t)

  infixl 10 ◌>>=◌ ◌>>◌
  abbrev pub ◌>>=◌ : Exec A → (A → Exec B) → Exec B
  ◌>>=◌ m f t = let (r, t') = m t in continue r f t'

  abbrev pub ◌>>◌ : Exec A → Exec B → Exec B
  m >> n = m >>= λ _. n

abbrev pub pure {ℓ} : {A : Type ℓ} → A → Exec A
pure a t = (ok a, t)

abbrev pub raise {ℓ} : {A : Type ℓ} → InitError → Exec A
raise e t = (err e, t)

-- if not test: raise e
abbrev pub ensure : Bool → InitError → Exec (Unit {0})
ensure test e = if test then pure tt else raise e

-- _NEXT_STAGE.get(stage)
unfoldable pub next_stage : InitStage → Option InitStage
next_stage inspect = some inventory
next_stage inventory = some interview
next_stage interview = some model
next_stage model = some resolve
next_stage resolve = some recommend
next_stage recommend = some review
next_stage review = some apply
next_stage apply = some verify
next_stage verify = none

-- status in _TERMINAL
unfoldable pub is_terminal : InitStatus → Bool
is_terminal cancelled = true
is_terminal completed = true
is_terminal _ = false

unfoldable pub load : String → Exec InitCheckpoint
load run_id t = (Store.load run_id t, t)

-- `_replace`
unfoldable pub replace : InitCheckpoint → InitCheckpoint → Exec InitCheckpoint
replace previous current = do Store.replace previous current; pure current

-- `_merge`: `None` adds nothing
unfoldable pub merge : InitCheckpoint → Option (Dict Json) → Dict Json
merge previous none = previous.confirmed
merge previous (some confirmed) = update previous.confirmed confirmed

-- `_require_status`
unfoldable pub require_status : InitCheckpoint → InitStatus → Exec (Unit {0})
require_status c expected = ensure (c.status == expected) (wrong_status c.run_id c.status)

-- `stage is not expected`
unfoldable pub is_expected : InitStage → Option InitStage → Bool
is_expected stage none = false
is_expected stage (some expected) = stage == expected

-- The argument `checkpoint_id` stands for the text with a fresh `uuid4`.
unfoldable pub start : String → String → String → Exec InitCheckpoint
start checkpoint_id run_id repository_digest =
    let checkpoint : InitCheckpoint = record {
      checkpoint_id = checkpoint_id;
      run_id = run_id;
      repository_digest = repository_digest;
      stage = inspect;
      status = running;
      confirmed = [];
      attempt = 1;
      revision = 1;
      error = none;
      cancellation_reason = none;
    } in
    do Store.create checkpoint; pure checkpoint

-- A side effect is a callback: it may raise, and it may use the store itself.
unfoldable pub run_side_effect : Option (Exec (Unit {0})) → Exec (Unit {0})
run_side_effect none = pure tt
run_side_effect (some effect) = effect

unfoldable pub advance :
    String → InitStage → Option (Dict Json) → Option (Exec (Unit {0})) → Exec InitCheckpoint
unfolding load replace merge require_status is_expected run_side_effect
advance run_id stage confirmed side_effect = do
  previous ← load run_id
  require_status previous running
  ensure (is_expected stage (next_stage previous.stage)) (wrong_stage previous.stage stage)
  run_side_effect side_effect
  replace previous (record previous {
    stage = stage;
    confirmed = merge previous confirmed;
    revision = previous.revision + 1;
  })

unfoldable pub revise : String → Dict Json → Exec InitCheckpoint
unfolding load replace merge require_status
revise run_id confirmed = do
  previous ← load run_id
  require_status previous running
  replace previous (record previous {
    confirmed = merge previous (some confirmed);
    revision = previous.revision + 1;
  })

unfoldable pub pause : String → Exec InitCheckpoint
unfolding load replace require_status
pause run_id = do
  previous ← load run_id
  require_status previous running
  replace previous (record previous { status = paused; revision = previous.revision + 1 })

unfoldable pub resume : String → String → Exec InitCheckpoint
unfolding load replace require_status
resume run_id repository_digest = do
  previous ← load run_id
  require_status previous paused
  ensure (repository_digest == previous.repository_digest) digest_changed
  replace previous (record previous { status = running; revision = previous.revision + 1 })

unfoldable pub fail : String → String → Exec InitCheckpoint
unfolding load replace require_status
fail run_id error = do
  previous ← load run_id
  require_status previous running
  replace previous
      (record previous { status = failed; error = some error; revision = previous.revision + 1 })

unfoldable pub retry : String → Exec InitCheckpoint
unfolding load replace require_status
retry run_id = do
  previous ← load run_id
  require_status previous failed
  replace previous (record previous {
    status = running;
    attempt = previous.attempt + 1;
    error = none;
    revision = previous.revision + 1;
  })

unfoldable pub cancel : String → String → Exec InitCheckpoint
unfolding load replace is_terminal
cancel run_id reason = do
  previous ← load run_id
  ensure (not (is_terminal previous.status)) (wrong_status previous.run_id previous.status)
  replace previous (record previous {
    status = cancelled;
    cancellation_reason = some reason;
    revision = previous.revision + 1;
  })

unfoldable pub complete : String → Option (Dict Json) → Exec InitCheckpoint
unfolding load replace merge require_status
complete run_id confirmed = do
  previous ← load run_id
  require_status previous running
  ensure (previous.stage == verify) (cannot_complete previous.stage)
  replace previous (record previous {
    status = completed;
    confirmed = merge previous confirmed;
    revision = previous.revision + 1;
  })
