-- ===== src/Planning/Scenarios.antt =====
-- src/vibe/workflows/scenarios.py: the risk of a task from its explicit signals.
use local_skill_orchestrator.Prelude.{
  String, str_append, Bool, true, false, ◌||◌, List, [], ◌∷◌, ◌++◌, map, leb, ltb, if◌then◌else◌,
  any, member, ◌==◌, sort_by, str_leb, dedup, join,
}
use local_skill_orchestrator.Planning.Risk.{
  RiskLevel, low, medium, high, critical, level_order, ScopeLevel, multi_component, cross_system,
  scope_value, DataSensitivity, public, internal, sensitive, regulated, sensitivity_value,
  Reversibility, reversible, difficult, irreversible, reversibility_value, reversibility_Eq,
  TaskOperation, write_project, execute_command, network, deploy, migrate_data, modify_security,
  handle_payment, operation_value, operation_Eq, RiskDimension, RiskFactor, Risk,
}

pub data WorkflowMode : Type 0 where
  fast standard rigorous : WorkflowMode

pub data ScenarioId : Type 0 where
  bug feature refactor security migration review performance dependency_upgrade testing
        ui_accessibility documentation release incident exploration :
      ScenarioId

unfoldable pub mode_value : WorkflowMode → String
mode_value fast = "fast"
mode_value standard = "standard"
mode_value rigorous = "rigorous"

unfoldable pub scenario_value : ScenarioId → String
scenario_value bug = "bug"
scenario_value feature = "feature"
scenario_value refactor = "refactor"
scenario_value security = "security"
scenario_value migration = "migration"
scenario_value review = "review"
scenario_value performance = "performance"
scenario_value dependency_upgrade = "dependency-upgrade"
scenario_value testing = "testing"
scenario_value ui_accessibility = "ui-accessibility"
scenario_value documentation = "documentation"
scenario_value release = "release"
scenario_value incident = "incident"
scenario_value exploration = "exploration"

pub record ScenarioDefinition : Type 0 where
  pub scenario : ScenarioId
  pub risk_policy : String
  pub safe_fallback : String
  pub minimum_risk : RiskLevel
  pub force_approval : Bool
  pub force_rollback : Bool

pub record ScenarioRequest : Type 0 where
  pub scenario : ScenarioId
  pub scope : ScopeLevel
  pub data_sensitivity : DataSensitivity
  pub reversibility : Reversibility
  pub operations : List TaskOperation

pub record ScenarioClassification : Type 0 where
  pub scenario : ScenarioId
  pub risk : Risk
  pub workflow_mode : WorkflowMode
  pub required_phases : List String
  pub includes_write_phase : Bool
  pub explanation : List String

-- scenario in {SECURITY, MIGRATION, RELEASE, INCIDENT}
unfoldable pub is_sensitive : ScenarioId → Bool
is_sensitive security = true
is_sensitive migration = true
is_sensitive release = true
is_sensitive incident = true
is_sensitive _ = false

-- scenario is MIGRATION
unfoldable pub is_migration : ScenarioId → Bool
is_migration migration = true
is_migration _ = false

-- SCENARIO_REGISTRY[scenario]
unfoldable pub scenario_registry : ScenarioId → ScenarioDefinition
unfolding is_sensitive is_migration
scenario_registry s = record {
  scenario = s;
  risk_policy = "Derive risk from scope, data sensitivity, reversibility, and operations.";
  safe_fallback = "Use a rigorous workflow and request approval when signals are incomplete.";
  minimum_risk = if is_sensitive s then high else low;
  force_approval = is_sensitive s;
  force_rollback = is_migration s;
}

-- operations & others, as a test
unfoldable pub intersects : List TaskOperation → List TaskOperation → Bool
intersects operations others = any (λ o. member o operations) others

-- _WRITE_OPERATIONS
abbrev pub write_operations : List TaskOperation
write_operations =
    write_project ∷ execute_command ∷ deploy ∷ migrate_data ∷ modify_security ∷ handle_payment ∷ []

unfoldable pub scope_level : ScopeLevel → RiskLevel
scope_level ScopeLevel.local = low
scope_level multi_component = medium
scope_level cross_system = high

unfoldable pub scope_factor : ScopeLevel → RiskFactor
unfolding scope_level scope_value
scope_factor s = record {
  dimension = RiskDimension.scope;
  level = scope_level s;
  rationale = str_append "Scope is " (str_append (scope_value s) ".");
  mitigations = [];
}

unfoldable pub sensitivity_level : DataSensitivity → RiskLevel
sensitivity_level public = low
sensitivity_level internal = medium
sensitivity_level sensitive = high
sensitivity_level regulated = critical

unfoldable pub sensitivity_factor : DataSensitivity → RiskFactor
unfolding sensitivity_level sensitivity_value
sensitivity_factor s = record {
  dimension = RiskDimension.data_sensitivity;
  level = sensitivity_level s;
  rationale = str_append "Data sensitivity is " (str_append (sensitivity_value s) ".");
  mitigations = [];
}

unfoldable pub reversibility_level : Reversibility → RiskLevel
reversibility_level reversible = low
reversibility_level difficult = high
reversibility_level irreversible = critical

unfoldable pub reversibility_factor : Reversibility → RiskFactor
unfolding reversibility_level reversibility_value
reversibility_factor r = record {
  dimension = RiskDimension.reversibility;
  level = reversibility_level r;
  rationale = str_append "Change is " (str_append (reversibility_value r) ".");
  mitigations = [];
}

unfoldable pub operations_level : List TaskOperation → RiskLevel
unfolding intersects
operations_level operations =
    if intersects operations (handle_payment ∷ [])
    then critical
    else if intersects operations
        (network ∷ deploy ∷ migrate_data ∷ modify_security ∷ execute_command ∷ [])
    then high
    else if member write_project operations
    then medium
    else low

-- ", ".join(sorted(operation.value for operation in operations)) or "none"
unfoldable pub operation_names : List TaskOperation → String
unfolding operation_value join
operation_names [] = "none"
operation_names operations = join ", " (sort_by str_leb (map operation_value (dedup operations)))

unfoldable pub operations_factor : List TaskOperation → RiskFactor
unfolding operations_level operation_names
operations_factor operations = record {
  dimension = RiskDimension.operations;
  level = operations_level operations;
  rationale = str_append "Requested operations: " (str_append (operation_names operations) ".");
  mitigations = [];
}

-- max((a, b), key=_LEVEL_ORDER.__getitem__): the first of the largest
unfoldable pub max_level : RiskLevel → RiskLevel → RiskLevel
max_level a b = if ltb (level_order a) (level_order b) then b else a

unfoldable pub max_levels : RiskLevel → List RiskLevel → RiskLevel
unfolding max_level
max_levels best [] = best
max_levels best (l ∷ ls) = max_levels (max_level best l) ls

unfoldable pub workflow_mode : RiskLevel → WorkflowMode
workflow_mode low = fast
workflow_mode medium = standard
workflow_mode high = rigorous
workflow_mode critical = rigorous

unfoldable pub classify_scenario : ScenarioRequest → ScenarioClassification
unfolding scenario_registry scope_factor sensitivity_factor reversibility_factor operations_factor
    max_levels workflow_mode intersects
classify_scenario request =
    let definition = scenario_registry request.scenario in
    let scope = scope_factor request.scope in
    let sensitivity = sensitivity_factor request.data_sensitivity in
    let reversibility = reversibility_factor request.reversibility in
    let operations = operations_factor request.operations in
    let factors : List RiskFactor = scope ∷ sensitivity ∷ reversibility ∷ operations ∷ [] in
    let derived =
      max_levels scope.level (sensitivity.level ∷ reversibility.level ∷ operations.level ∷ []) in
    let level = max_level derived definition.minimum_risk in
    let rollback : Bool =
      definition.force_rollback
      || request.reversibility == irreversible
      || member migrate_data request.operations in
    let approval : Bool =
      definition.force_approval
      || leb (level_order high) (level_order level)
      || member handle_payment request.operations in
    let includes_write = intersects request.operations write_operations in
    record {
      scenario = request.scenario;
      risk = record {
        level = level;
        factors = factors;
        requires_approval = approval;
        rollback_required = rollback;
      };
      workflow_mode = workflow_mode level;
      required_phases =
          "classify" ∷ "explore" ∷ (if approval then "approval" ∷ [] else [])
          ++ ((if includes_write then "write" ∷ [] else [])
              ++ ((if rollback then "rollback" ∷ [] else []) ++ ("verify" ∷ [])));
      includes_write_phase = includes_write;
      explanation = map (λ (f : RiskFactor). f.rationale) factors;
    }
