-- ===== src/Planning/TaskGraph/Gates.antt =====
-- The gates of a plan: what has to come before the implementation.
use local_skill_orchestrator.Prelude.{
  max, ◌≤◌, String, not, ◌≡◌, ◌≢◌, refl, Bool, true, false, ◌||◌, List, [], ◌∷◌, arith, member,
  ◌==◌, string_Eq, if◌then◌else◌, leb,
}
use local_skill_orchestrator.Planning.Risk.{
  RiskLevel, level_order, reversible, irreversible, TaskOperation, write_project, execute_command,
  network, deploy, migrate_data, modify_security, handle_payment, operation_Eq, reversibility_Eq,
}
use local_skill_orchestrator.Planning.Scenarios.{
  ScenarioRequest, WorkflowMode, fast, is_sensitive, is_migration, operations_level,
  classify_scenario, intersects, write_operations, scope_level, sensitivity_level,
  reversibility_level, max_level, scenario_registry,
}
use local_skill_orchestrator.Planning.TaskGraph.{phase_ids, phase_ids_of}

-- `first` stands before every `second`.
abbrev pub precedes : String → String → List String → Bool
precedes first second [] = true
precedes first second (x ∷ xs) =
    if x == first then true else if x == second then false else precedes first second xs

approval_precedes :
    (m : WorkflowMode) (w r : Bool)
    → precedes "approval" "implement" (phase_ids_of m w true r) ≡ true
unfolding phase_ids_of
approval_precedes fast w r = ground arith
approval_precedes _ w r = ground arith

approval_listed :
    (m : WorkflowMode) (w r : Bool) → member "approval" (phase_ids_of m w true r) ≡ true
unfolding phase_ids_of
approval_listed fast w r = ground arith
approval_listed _ w r = ground arith

rollback_precedes :
    (m : WorkflowMode) (w a : Bool)
    → m ≢ fast
    → precedes "rollback" "implement" (phase_ids_of m w a true) ≡ true
unfolding phase_ids_of
rollback_precedes fast w a h = absurd (h refl)
rollback_precedes _ w a h = ground arith

max_level-order :
    (a b : RiskLevel) → level_order (max_level a b) ≡ max (level_order a) (level_order b)
unfolding max_level
max_level-order a b = ground arith

operations_level_mono :
    (os more : List TaskOperation)
    → ((o : TaskOperation) → member o os ≡ true → member o more ≡ true)
    → level_order (operations_level os) ≤ level_order (operations_level more)
unfolding operations_level intersects
operations_level_mono os more sub = ground (
  arith,
  sub network,
  sub deploy,
  sub migrate_data,
  sub modify_security,
  sub execute_command,
  sub handle_payment,
  sub write_project,
)

-- The level is the largest of the four factors' levels and the scenario's minimum.
pub level-max :
    (q : ScenarioRequest)
    → level_order (classify_scenario q).risk.level
      ≡ max
          (max
            (max
              (max
                (level_order (scope_level q.scope))
                (level_order (sensitivity_level q.data_sensitivity)))
              (level_order (reversibility_level q.reversibility)))
            (level_order (operations_level q.operations)))
          (level_order (scenario_registry q.scenario).minimum_risk)
unfolding classify_scenario
level-max q = rw (max_level-order, max_level-order, max_level-order, max_level-order) refl

-- A request with a signal of high risk.
abbrev pub is_risky : ScenarioRequest → Bool
is_risky q =
    intersects q.operations
      (network ∷ deploy ∷ migrate_data ∷ modify_security ∷ execute_command ∷ handle_payment ∷ [])
    || leb 2 (level_order (scope_level q.scope))
    || leb 2 (level_order (sensitivity_level q.data_sensitivity))
    || not (q.reversibility == reversible)
    || is_sensitive q.scenario

risky-operations :
    (os : List TaskOperation)
    → intersects os
        (network ∷ deploy ∷ migrate_data ∷ modify_security ∷ execute_command ∷ handle_payment ∷ [])
      ≡ true
    → 2 ≤ level_order (operations_level os)
unfolding operations_level intersects
risky-operations os h = ground arith

risky-level :
    (q : ScenarioRequest) → is_risky q ≡ true → 2 ≤ level_order (classify_scenario q).risk.level
unfolding scenario_registry reversibility_level
risky-level q h = ground (arith, level-max q, risky-operations q.operations)

high-approval :
    (q : ScenarioRequest)
    → 2 ≤ level_order (classify_scenario q).risk.level
    → (classify_scenario q).risk.requires_approval ≡ true
unfolding classify_scenario
high-approval q h = ground arith

-- A request with a signal of high risk has a plan with an approval phase, and the approval stands
-- before every implementation phase.
pub risky_is_gated :
    (q : ScenarioRequest)
    → is_risky q ≡ true
    → (member "approval" (phase_ids (classify_scenario q)) ≡ true)
      × (precedes "approval" "implement" (phase_ids (classify_scenario q)) ≡ true)
unfolding phase_ids
risky_is_gated q h =
    let c = classify_scenario q in
    rw (high-approval q (risky-level q h)) (
      approval_listed c.workflow_mode c.includes_write_phase c.risk.rollback_required,
      approval_precedes c.workflow_mode c.includes_write_phase c.risk.rollback_required,
    )

-- A migration, an irreversible change or an operation that migrates data.
abbrev pub is_destructive : ScenarioRequest → Bool
is_destructive q =
    is_migration q.scenario || q.reversibility == irreversible || member migrate_data q.operations

destructive-rollback :
    (q : ScenarioRequest)
    → is_destructive q ≡ true
    → (classify_scenario q).risk.rollback_required ≡ true
unfolding classify_scenario
destructive-rollback q h = h

destructive-risky : (q : ScenarioRequest) → is_destructive q ≡ true → is_risky q ≡ true
unfolding is_migration is_sensitive intersects
destructive-risky q h = ground arith

high_is_not-fast :
    (q : ScenarioRequest)
    → 2 ≤ level_order (classify_scenario q).risk.level
    → (classify_scenario q).workflow_mode ≢ fast
unfolding classify_scenario
high_is_not-fast q h e = ground arith

-- A destructive request has a plan in which a rollback phase stands before every implementation phase.
pub destructive_is_reversible :
    (q : ScenarioRequest)
    → is_destructive q ≡ true
    → precedes "rollback" "implement" (phase_ids (classify_scenario q)) ≡ true
unfolding phase_ids
destructive_is_reversible q h =
    let c = classify_scenario q in
    rw (destructive-rollback q h) (
      rollback_precedes c.workflow_mode c.includes_write_phase c.risk.requires_approval
        (high_is_not-fast q (risky-level q (destructive-risky q h))))

low-operations :
    (os : List TaskOperation)
    → level_order (operations_level os) ≡ 0
    → intersects os write_operations ≡ false
unfolding operations_level intersects
low-operations os h = ground arith

fast-low :
    (q : ScenarioRequest)
    → (classify_scenario q).workflow_mode ≡ fast
    → level_order (classify_scenario q).risk.level ≡ 0
unfolding classify_scenario
fast-low q h = ground arith

low-scenario :
    (q : ScenarioRequest)
    → level_order (classify_scenario q).risk.level ≡ 0
    → is_sensitive q.scenario ≡ false
unfolding scenario_registry
low-scenario q h = ground (arith, level-max q)

low-writes :
    (q : ScenarioRequest)
    → level_order (classify_scenario q).risk.level ≡ 0
    → intersects q.operations write_operations ≡ false
low-writes q h = low-operations q.operations (omega (arith, level-max q))

no-payment :
    (os : List TaskOperation)
    → intersects os write_operations ≡ false
    → member handle_payment os ≡ false
unfolding intersects
no-payment os h = ground arith

quiet-approval :
    (q : ScenarioRequest)
    → level_order (classify_scenario q).risk.level ≡ 0
    → is_sensitive q.scenario ≡ false
    → member handle_payment q.operations ≡ false
    → (classify_scenario q).risk.requires_approval ≡ false
unfolding classify_scenario scenario_registry
quiet-approval q h s p = ground arith

includes_write-intersects :
    (q : ScenarioRequest)
    → (classify_scenario q).includes_write_phase ≡ intersects q.operations write_operations
unfolding classify_scenario
includes_write-intersects q = refl

-- The fast mode is read-only: a request that is classified as fast is inspected and verified, with no
-- approval and no implementation.
pub fast_is_read_only :
    (q : ScenarioRequest)
    → (classify_scenario q).workflow_mode ≡ fast
    → phase_ids (classify_scenario q) ≡ "inspect" ∷ "verify" ∷ []
unfolding phase_ids
fast_is_read_only q h =
    let low_level = fast-low q h in
    let writes = low-writes q low_level in
    let payment = no-payment q.operations writes in
    rw
      (
        h,
        quiet-approval q low_level (low-scenario q low_level) payment,
        includes_write-intersects q,
        writes,
      )
      refl

-- Asking for more operations never lowers the level.
pub level_mono :
    (q : ScenarioRequest) (more : List TaskOperation)
    → ((o : TaskOperation) → member o q.operations ≡ true → member o more ≡ true)
    → level_order (classify_scenario q).risk.level
      ≤ level_order (classify_scenario (record q { operations = more })).risk.level
level_mono q more sub = omega (
  arith,
  level-max q,
  level-max (record q { operations = more }),
  operations_level_mono q.operations more sub,
)
