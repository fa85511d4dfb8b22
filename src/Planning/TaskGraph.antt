-- ===== src/Planning/TaskGraph.antt =====
-- src/vibe/workflows/{phases,task_graph}.py and src/vibe/models/task.py: the phases of a task plan.
pub mod Phases
pub mod Gates
use local_skill_orchestrator.Prelude.{
  String, Bool, true, false, ◌&&◌, ◌||◌, not, Option, none, some, List, [], ◌∷◌, ◌++◌, map,
  if◌then◌else◌, all, member, ◌==◌, string_Eq, string_Ord, is_distinct, is_nonempty, is_text, Dict,
  lookup, sorted_set,
}
use local_skill_orchestrator.Planning.Risk.{RiskLevel, Risk}
use local_skill_orchestrator.Planning.Scenarios.{
  WorkflowMode, fast, standard, rigorous, ScenarioClassification,
}

pub record PhaseTemplate : Type 0 where
  pub phase_id : String
  pub objective : String
  pub completion_conditions : List String

abbrev template : String → String → String → String × PhaseTemplate
template phase_id objective condition = (
  phase_id,
  record { phase_id = phase_id; objective = objective; completion_conditions = condition ∷ [] },
)

-- PHASE_TEMPLATES
abbrev pub phase_templates : Dict PhaseTemplate
phase_templates =
    template "inspect" "Inspect relevant project facts and constraints."
      "Relevant sources and constraints are identified."
    ∷ template "design" "Choose the smallest safe implementation design."
        "Design addresses acceptance criteria and identified risks."
    ∷ template "approval" "Obtain explicit approval for high-risk operations."
        "An authorized approver explicitly accepts the proposed operation."
    ∷ template "rollback" "Prepare and verify a rollback strategy before mutation."
        "Rollback steps and success checks are documented and feasible."
    ∷ template "implement" "Implement the approved change with the minimum required capabilities."
        "Implementation satisfies the planned design without scope expansion."
    ∷ template "verify" "Run focused and project-wide verification gates."
        "Acceptance criteria and required quality gates pass."
    ∷ template "review" "Review results, risks, and evidence before completion."
        "Review has no unresolved blocking finding."
    ∷ []

pub record TaskPhase : Type 0 where
  pub phase_id : String
  pub objective : String
  pub completion_conditions : List String
  pub capability_ids : List String
  pub requires_approval : Bool

pub record TaskPlan : Type 0 where
  pub task_id : String
  pub intent : String
  pub risk_level : RiskLevel
  pub workflow_mode : WorkflowMode
  pub acceptance_criteria : List String
  pub phases : List TaskPhase

-- A `KeyError` of the template dictionary, or pydantic's `ValidationError`.
pub data PlanError : Type 0 where
  key_error : String → PlanError
  validation_error : PlanError

pub data Result {ℓ} (A : Type ℓ) : Type ℓ where
  ok : A → Result A
  err : PlanError → Result A

infixl 10 ◌>>=◌
abbrev pub ◌>>=◌ {ℓ κ} : {A : Type ℓ} {B : Type κ} → Result A → (A → Result B) → Result B
ok a >>= f = f a
err e >>= f = err e

-- TaskPhase(...), with the constraints of its fields
unfoldable pub new_phase : TaskPhase → Result TaskPhase
new_phase p =
    if is_text p.phase_id && (is_text p.objective && is_nonempty p.completion_conditions)
    then ok p
    else err validation_error

-- TaskPlan(...), with the constraints of its fields and `phase_ids_are_unique`
unfoldable pub new_plan : TaskPlan → Result TaskPlan
unfolding is_distinct
new_plan p =
    if is_text p.task_id
      && (is_text p.intent
          && (is_nonempty p.acceptance_criteria
              && (is_nonempty p.phases
                  && is_distinct (map (λ (x : TaskPhase). x.phase_id) p.phases))))
    then ok p
    else err validation_error

-- ids.append(id) under a test
abbrev pub when : Bool → String → List String
when test id = if test then id ∷ [] else []

unfoldable pub is_rigorous : WorkflowMode → Bool
is_rigorous rigorous = true
is_rigorous _ = false

unfoldable pub phase_ids_of : WorkflowMode → Bool → Bool → Bool → List String
unfolding is_rigorous
phase_ids_of fast write approval rollback =
    "inspect" ∷ when approval "approval" ++ (when write "implement" ++ ("verify" ∷ []))
phase_ids_of mode write approval rollback =
    "inspect" ∷ "design" ∷ when approval "approval"
    ++ (when (write && (is_rigorous mode || rollback)) "rollback"
        ++ (when write "implement" ++ ("verify" ∷ "review" ∷ [])))

-- `_phase_ids`
unfoldable pub phase_ids : ScenarioClassification → List String
unfolding phase_ids_of
phase_ids c =
    phase_ids_of c.workflow_mode c.includes_write_phase c.risk.requires_approval
      c.risk.rollback_required

-- `_phase`
unfoldable pub phase : String → List String → Bool → Result TaskPhase
unfolding lookup
phase phase_id capability_ids requires_approval = elim (lookup phase_id phase_templates) [
  | none ↦ err (key_error phase_id)
  | some t ↦ new_phase (record {
    phase_id = t.phase_id;
    objective = t.objective;
    completion_conditions = t.completion_conditions;
    capability_ids = sorted_set capability_ids;
    requires_approval = requires_approval;
  })
]

abbrev pub capabilities_of : Dict (List String) → String → List String
capabilities_of capabilities id = elim (lookup id capabilities) [ none ↦ [] | some ids ↦ ids ]

-- The generator of `build_task_plan`.
unfoldable pub phases_of : Dict (List String) → List String → Result (List TaskPhase)
unfolding phase new_phase
phases_of capabilities [] = ok []
phases_of capabilities (id ∷ ids) = do
  p ← phase id (capabilities_of capabilities id) (id == "approval")
  ps ← phases_of capabilities ids
  ok (p ∷ ps)

-- The default `capabilities=None` is the empty dictionary.
unfoldable pub build_task_plan :
    String → String → ScenarioClassification → List String → Dict (List String) → Result TaskPlan
unfolding phases_of phase_ids new_plan
build_task_plan task_id intent classification acceptance_criteria capabilities = do
  phases ← phases_of capabilities (phase_ids classification)
  new_plan (record {
    task_id = task_id;
    intent = intent;
    risk_level = classification.risk.level;
    workflow_mode = classification.workflow_mode;
    acceptance_criteria = acceptance_criteria;
    phases = phases;
  })
