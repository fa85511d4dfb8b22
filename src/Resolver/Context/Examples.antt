-- ===== src/Resolver/Context/Examples.antt =====
-- The context of a memory provider.
use local_skill_orchestrator.Prelude.{
  ◌⊎◌, ℤ, pos, String, ◌≡◌, refl, inl, Bool, true, false, Option, none, some, List, [], ◌∷◌, In,
}
use local_skill_orchestrator.Capability.{read_project, mcp, project}
use local_skill_orchestrator.Repository.{RepositorySnapshot}
use local_skill_orchestrator.Resolver.Policy.{AdapterScanResult, ResolverPolicy}
use local_skill_orchestrator.Resolver.Scoring.{score_candidate}
use local_skill_orchestrator.Resolver.Local.{
  Reason, best, CapabilityResolution, selected, is_codegraph, is_persistent_memory,
  resolve_requirement,
}
use local_skill_orchestrator.Resolver.Context.{
  Blueprint, flag_value, maintenance, get, is_allowed, contextual_value,
}
use local_skill_orchestrator.Resolver.Context.Consent.{selected-is_allowed}

abbrev same : String → String
same s = s

abbrev no_number : String → Option ℤ
no_number s = none

abbrev no_digits : ℤ → String
no_digits n = "0"

abbrev bracket : List String → String
bracket xs = "[]"

abbrev any_order : Reason → Reason → Bool
any_order a b = true

abbrev memory : AdapterScanResult
memory = record {
  manifest = record {
    capability_id = "mcp.memory";
    name = "memory";
    kind = mcp;
    scope = project;
    source = "local";
    provides = "cross-session-memory" ∷ [];
    permissions = read_project ∷ [];
    version = none;
    content_digest = "0011223344";
    verified = true;
  };
  provenance = record { adapter_id = "mcp"; locator = "memory" };
  verification = record { verified = true; details = [] };
}

abbrev policy : ResolverPolicy
policy = record {
  allowed_permissions = read_project ∷ [];
  org_policy = none;
  org_policy_path = none;
}

abbrev blueprint : Bool → Blueprint
blueprint allowed = record {
  lifecycle_stage = maintenance;
  preferences = ("memory.persistence", flag_value allowed) ∷ [];
}

abbrev snapshot : RepositorySnapshot
snapshot = record { is_empty = false; head = none; facts = []; source_digest = "01234567" }

abbrev reason : Reason
reason =
    best (score_candidate memory "cross-session-memory")
      ("persistent context preserves durable decisions across work sessions" ∷ [])

abbrev winner : CapabilityResolution String
winner = record {
  requirement = "cross-session-memory";
  status = selected;
  capability_id = some "mcp.memory";
  reason = reason;
  recommendation = none;
}

allowed_selected :
    resolve_requirement String
      (contextual_value same no_number no_digits bracket (blueprint true) snapshot)
      any_order
      "cross-session-memory"
      []
      policy
      (memory ∷ [])
      []
      none
    ≡ winner ∷ []
unfolding resolve_requirement local_skill_orchestrator.Prelude.sort_by contextual_value
allowed_selected = refl

selected-is_allowed_example :
    (c : AdapterScanResult) × In c (memory ∷ [])
    × (some "mcp.memory" ≡ some c.manifest.capability_id)
    × ((is_codegraph c ≡ true)
        ⊎ ((is_persistent_memory c ≡ false)
            ⊎ (is_allowed same no_number no_digits bracket
                  (get "memory.persistence" (blueprint true).preferences)
                ≡ true)))
unfolding resolve_requirement local_skill_orchestrator.Prelude.sort_by contextual_value
selected-is_allowed_example =
    selected-is_allowed same no_number no_digits bracket any_order (blueprint true) snapshot
      "cross-session-memory" [] policy (memory ∷ []) [] none winner (inl refl) refl
