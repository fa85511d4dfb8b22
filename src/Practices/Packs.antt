-- ===== src/Practices/Packs.antt =====
-- src/vibe/practices/models.py and src/vibe/resolver/requirements.py.
use local_skill_orchestrator.Prelude.{ℕ, ℤ, String, Bool, Option, List}

-- A value of a project's facts: a text, a Boolean, an integer, a tuple or a list of texts.
pub data Fact : Type 0 where
  text_fact : String → Fact
  flag_fact : Bool → Fact
  number_fact : ℤ → Fact
  tuple_fact : List String → Fact
  list_fact : List String → Fact

pub data MatchOperator : Type 0 where
  equals contains in_tuple exists : MatchOperator

-- `str | bool | tuple[str, ...]`
pub data MatchValue : Type 0 where
  a_text : String → MatchValue
  a_flag : Bool → MatchValue
  a_tuple : List String → MatchValue

pub record MatchCondition : Type 0 where
  pub field_name : String
  pub operator : MatchOperator
  pub value : MatchValue

pub record MatchRule : Type 0 where
  pub all_of : List MatchCondition
  pub any_of : List MatchCondition
  pub none_of : List MatchCondition

pub data RequirementStrength : Type 0 where
  required recommended optional : RequirementStrength

pub record CapabilityRequirement : Type 0 where
  pub requirement_id : String
  pub capability : String
  pub strength : RequirementStrength
  pub rationale : String
  pub verification : List String

pub record PracticeException : Type 0 where
  pub exception_id : String
  pub when_rule : MatchRule
  pub suppress_requirements : List String
  pub rationale : String

pub data ConflictResolution : Type 0 where
  prefer_self prefer_other error : ConflictResolution

pub record PackConflict : Type 0 where
  pub pack_id : String
  pub resolution : ConflictResolution
  pub rationale : String

pub record PracticePack : Type 0 where
  pub pack_id : String
  pub name : String
  pub description : String
  pub priority : ℕ
  pub match_rule : MatchRule
  pub requirements : List CapabilityRequirement
  pub exceptions : List PracticeException
  pub conflicts : List PackConflict

pub data OverrideProvenance : Type 0 where
  user outcome_calibration : OverrideProvenance

pub record RequirementOverride : Type 0 where
  pub capability : String
  pub enabled : Bool
  pub strength : Option RequirementStrength
  pub provenance : OverrideProvenance

pub record AbstractCapabilityRequirement : Type 0 where
  pub capability : String
  pub strength : RequirementStrength
  pub originating_packs : List String
  pub originating_requirements : List String
  pub reasons : List String
  pub verification : List String
  pub overridden : Bool
  pub override_provenance : Option OverrideProvenance
