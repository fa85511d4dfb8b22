-- ===== src/Runner/World.antt =====
-- What the runner reaches outside itself. The app server, the providers and the recorder are protocols
-- and callbacks, so they are parameters: functions on a state of their own, each of which answers or
-- raises. The log is what was asked and answered, executed, saved and recorded, the latest first.
use local_skill_orchestrator.Prelude.{String, Bool, Option, some, List, ◌∷◌, Dict, if◌then◌else◌}
use local_skill_orchestrator.Prelude.Json.{Json}
use local_skill_orchestrator.Prelude.Results.{Result, ok, err}
use local_skill_orchestrator.Planning.TaskGraph.{TaskPhase}
use local_skill_orchestrator.Runner.State.{
  TaskRunCheckpoint, PhaseExecutionResult, TaskOutcome, Prompt, RunError, raised,
}

-- What the exposure of a phase gives to the runner.
pub record ExposedPhase : Type 0 where
  pub thread_config : Dict Json
  pub exposure_digest : String

-- An outside call: it answers or raises an exception, by its name.
abbrev pub Outside : Type 0 → Type 0 → Type 0
Outside W A = W → Result String A × W

-- The optional fields are the attributes that may be absent.
pub record Environment (W : Type 0) : Type 0 where
  pub head_provider : Outside W String
  pub blueprint_digest_provider : Outside W String
  pub approval_provider : TaskPhase → Outside W Bool
  pub start_thread : Outside W String
  pub resume_thread : String → Outside W String
  pub execute_phase : String → Prompt → Outside W PhaseExecutionResult
  pub expose : Option (String → List String → Outside W ExposedPhase)
  pub start_phase_thread : Option (Option String → Dict Json → Outside W String)
  pub outcome_recorder : Option (String → TaskOutcome → Outside W (Unit {0}))
  pub close : Option (Outside W (Unit {0}))

pub data Event : Type 0 where
  approval_asked : TaskPhase → Bool → Event
  executed : TaskPhase → Event
  saved : TaskRunCheckpoint → Event
  recorded : TaskOutcome → Event

-- `file` is the checkpoint's file, which `_save` replaces in one step.
pub record World (W : Type 0) : Type 0 where
  pub outside : W
  pub file : Option TaskRunCheckpoint
  pub log : List Event

abbrev pub Exec : Type 0 → Type 0 → Type 0
Exec W A = World W → Result RunError A × World W

module _ {W A B : Type 0} where
  abbrev pub bind_result : Result RunError A → (A → Exec W B) → Exec W B
  bind_result (ok a) f w = f a w
  bind_result (err e) f w = (err e, w)

  -- What an action and everything that follows it keep.
  pub bind_result-keeps :
      (P : World W → Type 0) (r : Result RunError A) (f : A → Exec W B) (w : World W)
      → P w
      → ((a : A) (v : World W) → P v → P (f a v).1)
      → P (bind_result r f w).1
  bind_result-keeps P (ok a) f w p k = k a w p
  bind_result-keeps P (err e) f w p k = p

  infixl 10 ◌>>=◌
  abbrev pub ◌>>=◌ : Exec W A → (A → Exec W B) → Exec W B
  ◌>>=◌ m f w = bind_result (m w).0 f (m w).1

  infixl 10 ◌>>◌
  abbrev pub ◌>>◌ : Exec W A → Exec W B → Exec W B
  m >> n = m >>= λ _. n

module _ {W A E : Type 0} where
  abbrev pub lift : (E → RunError) → Result E A → Exec W A
  lift wrap (ok a) w = (ok a, w)
  lift wrap (err e) w = (err (wrap e), w)

module _ {W A : Type 0} where
  abbrev pub pure : A → Exec W A
  pure a w = (ok a, w)

  abbrev pub raise : RunError → Exec W A
  raise e w = (err e, w)

  -- A call, which may raise.
  abbrev pub call : Outside W A → Exec W A
  call f w = lift raised (f w.outside).0 (record w { outside = (f w.outside).1 })

module _ {W : Type 0} where
  -- if not test: raise e
  abbrev pub ensure : Bool → RunError → Exec W (Unit {0})
  ensure test e = if test then pure tt else raise e

  abbrev pub note : Event → Exec W (Unit {0})
  note e w = (ok tt, record w { log = e ∷ w.log })

  -- `_save`
  abbrev pub save : TaskRunCheckpoint → Exec W (Unit {0})
  save c w = (ok tt, record w { file = some c; log = saved c ∷ w.log })
