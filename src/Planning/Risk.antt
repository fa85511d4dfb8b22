-- ===== src/Planning/Risk.antt =====
-- src/vibe/models/risk.py: the risk vocabulary. A `StrEnum` is a data type with its values as texts.
use local_skill_orchestrator.Prelude.{ℕ, String, ◌≡◌, ◌↔◌, Bool, true, List, arith, nat_eq, Eq}

pub data RiskLevel : Type 0 where
  low medium high critical : RiskLevel

-- `_LEVEL_ORDER` of scenarios.py
abbrev pub level_order : RiskLevel → ℕ
level_order low = 0
level_order medium = 1
level_order high = 2
level_order critical = 3

pub data ScopeLevel : Type 0 where
  local multi_component cross_system : ScopeLevel

unfoldable pub scope_value : ScopeLevel → String
scope_value local = "local"
scope_value multi_component = "multi-component"
scope_value cross_system = "cross-system"

pub data DataSensitivity : Type 0 where
  public internal sensitive regulated : DataSensitivity

unfoldable pub sensitivity_value : DataSensitivity → String
sensitivity_value public = "public"
sensitivity_value internal = "internal"
sensitivity_value sensitive = "sensitive"
sensitivity_value regulated = "regulated"

pub data Reversibility : Type 0 where
  reversible difficult irreversible : Reversibility

unfoldable pub reversibility_value : Reversibility → String
reversibility_value reversible = "reversible"
reversibility_value difficult = "difficult"
reversibility_value irreversible = "irreversible"

abbrev pub reversibility_index : Reversibility → ℕ
reversibility_index reversible = 0
reversibility_index difficult = 1
reversibility_index irreversible = 2

pub reversibility_eq_iff :
    (a b : Reversibility)
    → (nat_eq (reversibility_index a) (reversibility_index b) ≡ true) ↔ (a ≡ b)
reversibility_eq_iff a b = ground arith

instance abbrev pub reversibility_Eq : Eq Reversibility
reversibility_Eq = record {
  equal = λ a b. nat_eq (reversibility_index a) (reversibility_index b);
  equal_iff = reversibility_eq_iff;
}

pub data TaskOperation : Type 0 where
  read_project write_project execute_command network deploy migrate_data modify_security
        handle_payment :
      TaskOperation

unfoldable pub operation_value : TaskOperation → String
operation_value read_project = "read-project"
operation_value write_project = "write-project"
operation_value execute_command = "execute-command"
operation_value network = "network"
operation_value deploy = "deploy"
operation_value migrate_data = "migrate-data"
operation_value modify_security = "modify-security"
operation_value handle_payment = "handle-payment"

abbrev pub operation_index : TaskOperation → ℕ
operation_index read_project = 0
operation_index write_project = 1
operation_index execute_command = 2
operation_index network = 3
operation_index deploy = 4
operation_index migrate_data = 5
operation_index modify_security = 6
operation_index handle_payment = 7

pub operation_eq_iff :
    (a b : TaskOperation) → (nat_eq (operation_index a) (operation_index b) ≡ true) ↔ (a ≡ b)
operation_eq_iff a b = ground arith

instance abbrev pub operation_Eq : Eq TaskOperation
operation_Eq = record {
  equal = λ a b. nat_eq (operation_index a) (operation_index b);
  equal_iff = operation_eq_iff;
}

pub data RiskDimension : Type 0 where
  scope data_sensitivity reversibility operations : RiskDimension

pub record RiskFactor : Type 0 where
  pub dimension : RiskDimension
  pub level : RiskLevel
  pub rationale : String
  pub mitigations : List String

pub record Risk : Type 0 where
  pub level : RiskLevel
  pub factors : List RiskFactor
  pub requires_approval : Bool
  pub rollback_required : Bool
