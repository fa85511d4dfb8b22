-- ===== src/Planning/TaskGraph/Phases.antt =====
-- Every classification has a plan.
use local_skill_orchestrator.Prelude.{
  is_distinct, is_nonempty, is_text, String, ◌≡◌, refl, Bool, true, false, ◌&&◌, none, some, List,
  [], ◌∷◌, map, arith, all, is_some, ◌==◌, string_Eq, Dict, lookup, sorted_set, string_Ord,
  and-eq_true, lookup→In, inl, inr, Option-cases, All, All-In, ap₂,
}
use local_skill_orchestrator.Planning.Scenarios.{ScenarioClassification, WorkflowMode, fast}
use local_skill_orchestrator.Planning.TaskGraph.{
  TaskPhase, TaskPlan, PhaseTemplate, phase_templates, ok, new_phase, new_plan, phase_ids_of,
  phase_ids, phase, capabilities_of, phases_of, build_task_plan,
}

-- The phase of a template, with what the plan adds to it.
abbrev filled : PhaseTemplate → List String → Bool → TaskPhase
filled t ids approval = record {
  phase_id = t.phase_id;
  objective = t.objective;
  completion_conditions = t.completion_conditions;
  capability_ids = sorted_set ids;
  requires_approval = approval;
}

abbrev known : String → Bool
known id = is_some (lookup id phase_templates)

abbrev planned : Dict (List String) → String → TaskPhase
planned caps id = elim (lookup id phase_templates) [
  | none ↦ filled (record { phase_id = id; objective = ""; completion_conditions = [] }) [] false
  | some t ↦ filled t (capabilities_of caps id) (id == "approval")
]

-- Every list of phases that a workflow mode gives is known and distinct.
phase_ids_of-known :
    (m : WorkflowMode) (w a r : Bool)
    → (all known (phase_ids_of m w a r) ≡ true) × (is_distinct (phase_ids_of m w a r) ≡ true)
unfolding phase_ids_of is_distinct lookup
phase_ids_of-known fast w a r = ground arith
phase_ids_of-known _ w a r = ground arith

record IsWellFormed (id : String) (t : PhaseTemplate) : Type 0 where
  named : t.phase_id ≡ id
  accepted :
      (is_text t.phase_id && (is_text t.objective && is_nonempty t.completion_conditions)) ≡ true

templates-IsWellFormed : All (λ (p : String × PhaseTemplate). IsWellFormed p.0 p.1) phase_templates
templates-IsWellFormed = (
  record { named = refl; accepted = refl },
  (
    record { named = refl; accepted = refl },
    (
      record { named = refl; accepted = refl },
      (
        record { named = refl; accepted = refl },
        (
          record { named = refl; accepted = refl },
          (
            record { named = refl; accepted = refl },
            (record { named = refl; accepted = refl }, tt),
          ),
        ),
      ),
    ),
  ),
)

template-IsWellFormed :
    (id : String) (t : PhaseTemplate) → lookup id phase_templates ≡ some t → IsWellFormed id t
template-IsWellFormed id t h =
    All-In (λ (p : String × PhaseTemplate). IsWellFormed p.0 p.1) (id, t) phase_templates
      templates-IsWellFormed (lookup→In id t phase_templates h)

phase-known :
    (caps : Dict (List String)) (id : String)
    → known id ≡ true
    → (phase id (capabilities_of caps id) (id == "approval") ≡ ok (planned caps id))
      × ((planned caps id).phase_id ≡ id)
      × ((planned caps id).capability_ids ≡ sorted_set (capabilities_of caps id))
unfolding phase new_phase
phase-known caps id h = elim (Option-cases (lookup id phase_templates)) [
  | inl missing ↦ cc
  | inr (t, found) ↦
      let w = template-IsWellFormed id t found in
      (ground (arith, found, w.accepted), ground (arith, found, w.named), ground (arith, found))
]

phases_of-known :
    (caps : Dict (List String)) (ids : List String)
    → all known ids ≡ true
    → (phases_of caps ids ≡ ok (map (planned caps) ids))
      × (map (λ (p : TaskPhase). p.phase_id) (map (planned caps) ids) ≡ ids)
      × (map (λ (p : TaskPhase). p.capability_ids) (map (planned caps) ids)
          ≡ map (λ id. sorted_set (capabilities_of caps id)) ids)
unfolding phases_of
phases_of-known caps [] h = (refl, refl, refl)
phases_of-known caps (id ∷ ids) h =
    let (here, rest) = and-eq_true (known id) (all known ids) h in
    let (built, named, bound) = phase-known caps id here in
    let (built_rest, named_rest, bound_rest) = phases_of-known caps ids rest in
    (rw built (rw built_rest refl), ap₂ ◌∷◌ named named_rest, ap₂ ◌∷◌ bound bound_rest)

phase_ids_of-nonempty :
    (m : WorkflowMode) (w a r : Bool) (caps : Dict (List String))
    → is_nonempty (map (planned caps) (phase_ids_of m w a r)) ≡ true
unfolding phase_ids_of
phase_ids_of-nonempty fast w a r caps = refl
phase_ids_of-nonempty _ w a r caps = refl

-- With a task, an intent and a criterion every classification has a plan, whatever capabilities are
-- bound. It has the classification's level and mode and the phases of `phase_ids`, in that order, each
-- with the capabilities bound to it, sorted.
pub build_task_plan-ok :
    (task_id intent : String) (c : ScenarioClassification) (criteria : List String)
    (caps : Dict (List String))
    → is_text task_id ≡ true
    → is_text intent ≡ true
    → is_nonempty criteria ≡ true
    → (plan : TaskPlan) × (build_task_plan task_id intent c criteria caps ≡ ok plan)
      × (plan.risk_level ≡ c.risk.level)
      × (plan.workflow_mode ≡ c.workflow_mode)
      × (map (λ (p : TaskPhase). p.phase_id) plan.phases ≡ phase_ids c)
      × (map (λ (p : TaskPhase). p.capability_ids) plan.phases
          ≡ map (λ id. sorted_set (capabilities_of caps id)) (phase_ids c))
unfolding build_task_plan phase_ids new_plan
build_task_plan-ok task_id intent c criteria caps named intended tested =
    let (known, distinct) =
      phase_ids_of-known c.workflow_mode c.includes_write_phase c.risk.requires_approval
        c.risk.rollback_required in
    let (built, same_ids, same_capabilities) = phases_of-known caps (phase_ids c) known in
    (
      record {
        task_id = task_id;
        intent = intent;
        risk_level = c.risk.level;
        workflow_mode = c.workflow_mode;
        acceptance_criteria = criteria;
        phases = map (planned caps) (phase_ids c);
      },
      rw
          (
            built,
            named,
            intended,
            tested,
            same_ids,
            distinct,
            phase_ids_of-nonempty c.workflow_mode c.includes_write_phase c.risk.requires_approval
                c.risk.rollback_required caps,
          )
          refl,
      refl,
      refl,
      same_ids,
      same_capabilities,
    )
