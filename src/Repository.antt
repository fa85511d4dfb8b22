-- ===== src/Repository.antt =====
-- src/vibe/models/repository.py: what is known of a repository.
use local_skill_orchestrator.Prelude.{String, Bool, Option, List}

pub data FactConfidence : Type 0 where
  confirmed inferred unknown conflict : FactConfidence

abbrev pub confidence_value : FactConfidence → String
confidence_value confirmed = "confirmed"
confidence_value inferred = "inferred"
confidence_value unknown = "unknown"
confidence_value conflict = "conflict"

-- str | list[str] | None
pub data FactValue : Type 0 where
  no_value : FactValue
  a_text : String → FactValue
  a_list : List String → FactValue

pub record RepositoryFact : Type 0 where
  pub key : String
  pub value : FactValue
  pub confidence : FactConfidence
  pub sources : List String

-- The root directories and the mark of uncommitted changes are left out.
pub record RepositorySnapshot : Type 0 where
  pub is_empty : Bool
  pub head : Option String
  pub facts : List RepositoryFact
  pub source_digest : String
