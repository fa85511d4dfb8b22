-- ===== src/Resolver/Examples.antt =====
-- A concrete project's candidates, at which the theorems of the resolver are applied.
use local_skill_orchestrator.Prelude.{if◌then◌else◌, is_nonempty, sort_by}
use local_skill_orchestrator.Prelude.{
  ℕ, ◌+◌, String, ◌≡◌, refl, ◌⊎◌, inl, inr, Bool, true, false, Option, none, some, List, [], ◌∷◌,
  In, length, all, member, ℤ, pos,
}
use local_skill_orchestrator.Capability.{
  Permission, permission_Eq, read_project, execute_command, network, cli_tool, project,
}
use local_skill_orchestrator.Resolver.Policy.{
  AdapterScanResult, OrgPolicy, l4, ResolverPolicy, hard_filter_reason,
}
use local_skill_orchestrator.Resolver.Policy.Ceiling.{IsApproved, hard_filter_lem}
use local_skill_orchestrator.Resolver.Local.{
  ContextValue, Reason, best, CapabilityResolution, selected, ranking, scored, resolve_requirement,
  contextually_ineligible,
}
use local_skill_orchestrator.Resolver.Local.Winner.{resolve_requirement-selected}

abbrev tool : String → List Permission → AdapterScanResult
tool id permissions = record {
  manifest = record {
    capability_id = id;
    name = id;
    kind = cli_tool;
    scope = project;
    source = "local";
    provides = "lint" ∷ [];
    permissions = permissions;
    version = none;
    content_digest = "0011223344";
    verified = true;
  };
  provenance = record { adapter_id = "cli"; locator = id };
  verification = record { verified = true; details = "compatibility:linux-x86" ∷ [] };
}

abbrev organization : OrgPolicy
organization = record {
  approved_capability_ids = [];
  blocked_capability_ids = "bad" ∷ [];
  approved_publishers = [];
  blocked_publishers = [];
  allowed_permissions = read_project ∷ execute_command ∷ [];
  max_permission_level = l4;
  mandatory_practice_packs = [];
}

abbrev strict : ResolverPolicy
strict = record {
  allowed_permissions = read_project ∷ execute_command ∷ network ∷ [];
  org_policy = some organization;
  org_policy_path = some "org-policy.yaml";
}

abbrev ruff : AdapterScanResult
ruff = tool "ruff" (read_project ∷ [])

abbrev pylint : AdapterScanResult
pylint = tool "pylint" (read_project ∷ execute_command ∷ [])

abbrev online : AdapterScanResult
online = tool "online" (network ∷ [])

abbrev tools_found : List AdapterScanResult
tools_found = pylint ∷ online ∷ ruff ∷ []

abbrev plain : AdapterScanResult → String → ContextValue
plain candidate requirement = record { recommended = true; score = pos 0; reasons = [] }

abbrev any_order : Reason → Reason → Bool
any_order a b = true

hard_filter_lem_example :
    (all (λ p. member p strict.allowed_permissions) pylint.manifest.permissions ≡ true)
    × IsApproved pylint.manifest strict.org_policy
unfolding hard_filter_reason local_skill_orchestrator.Prelude.sort_by
hard_filter_lem_example = hard_filter_lem pylint ("linux" ∷ []) strict refl

abbrev chosen_tool : CapabilityResolution String
chosen_tool = record {
  requirement = "lint";
  status = selected;
  capability_id = some "ruff";
  reason = best (scored String plain any_order "lint" ("linux" ∷ []) strict ruff).score [];
  recommendation = none;
}

resolve_requirement-selected_example :
    (c : AdapterScanResult) × In c tools_found
    × (chosen_tool.capability_id ≡ some c.manifest.capability_id)
    × (hard_filter_reason c ("linux" ∷ []) strict ≡ none)
    × (contextually_ineligible c (plain c "lint") ≡ false)
    × (ranking
          (scored String plain any_order "lint" ("linux" ∷ []) strict c)
          (scored String plain any_order "lint" ("linux" ∷ []) strict pylint)
        ≡ true)
unfolding resolve_requirement local_skill_orchestrator.Prelude.sort_by
    local_skill_orchestrator.Prelude.◌+ℤ◌ local_skill_orchestrator.Resolver.Scoring.total
resolve_requirement-selected_example =
    resolve_requirement-selected String plain any_order "lint" ("linux" ∷ []) strict tools_found
      ("quality" ∷ []) none chosen_tool pylint (inl refl) refl (inl refl) refl
