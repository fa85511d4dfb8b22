-- ===== src/Remote/Models.antt =====
-- src/vibe/remote/models.py: what a remote source declares of a candidate, and what of it is verified.
-- The field `official` is `official_source` here, since a tier has that name.
use local_skill_orchestrator.Prelude.{ℕ, String, Bool, Option, List}

pub data CapabilityKind : Type 0 where
  mcp_server agent_skill plugin cli_tool : CapabilityKind

pub data SourceTier : Type 0 where
  official verified_publisher community general_search : SourceTier

pub data PermissionLevel : Type 0 where
  l0 l1 l2 l3 l4 : PermissionLevel

pub data PublisherVerification : Type 0 where
  unverified allowlist org_signature : PublisherVerification

pub record Provenance : Type 0 where
  pub source : String
  pub publisher : Option String
  pub digest : String
  pub source_verified : Bool
  pub publisher_verified : Bool
  pub publisher_verification : PublisherVerification
  pub digest_verified : Bool
  pub permission_level : PermissionLevel
  pub reason : String

pub record RemoteCandidate : Type 0 where
  pub candidate_ref : String
  pub name : String
  pub kind : CapabilityKind
  pub provides : List String
  pub version : Option String
  pub digest : Option String
  pub publisher : Option String
  pub permissions_as_declared : List String
  pub source_tier : SourceTier
  pub provenance : Option Provenance
  pub canonical_repository : Option String
  pub revision : Option String
  pub cross_source_ref : Option String
  pub description : Option String
  pub stars : ℕ
  pub forks : ℕ
  pub adoption : ℕ
  pub weekly_adoption : ℕ
  pub last_activity : Option String
  pub archived : Bool
  pub official_source : Bool
