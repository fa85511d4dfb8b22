-- ===== src/Compiler/Intent.antt =====
-- src/vibe/compiler/intent.py: the task that a capsule is compiled for.
pub mod Scope
use local_skill_orchestrator.Prelude.{
  String, ◌≡◌, refl, sym, ap, ◌∙◌, Bool, not, ◌&&◌, List, map, filter, ◌==◌, string_Eq, string_Ord,
  sorted_set, strip, normalize_path, is_text, is_nonempty, if◌then◌else◌,
}
use local_skill_orchestrator.Prelude.Results.{Result, ok, err}
use local_skill_orchestrator.Planning.Scenarios.{ScenarioId}

pub record TaskIntent : Type 0 where
  pub task_id : String
  pub summary : String
  pub scenario : ScenarioId
  pub scope : List String
  pub acceptance_criteria : List String
  pub cross_module : Bool

-- pydantic's `ValidationError`
pub data IntentError : Type 0 where
  validation_error : IntentError

abbrev pub is_path : String → Bool
is_path item = not (strip item == "")

-- tuple(sorted({item.strip().replace("\\", "/") for item in scope if item.strip()}))
unfoldable pub normalize_scope : List String → List String
unfolding normalize_path sorted_set
normalize_scope scope = sorted_set (map normalize_path (filter is_path scope))

-- TaskIntent(...), with the constraints of its fields and the validator of its scope
unfoldable pub new_intent : TaskIntent → Result IntentError TaskIntent
unfolding normalize_scope
new_intent raw =
    if is_text raw.task_id
      && (is_text raw.summary
          && (is_nonempty raw.acceptance_criteria && is_nonempty (normalize_scope raw.scope)))
    then ok (record raw { scope = normalize_scope raw.scope })
    else err validation_error
