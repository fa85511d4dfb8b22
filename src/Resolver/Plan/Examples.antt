-- ===== src/Resolver/Plan/Examples.antt =====
-- A plan under an organization's policy with a mandatory pack.
use local_skill_orchestrator.Prelude.{
  String, ◌≡◌, refl, inl, Bool, true, false, Option, none, some, List, [], ◌∷◌, if◌then◌else◌, ◌==◌,
  string_Eq, pos,
}
use local_skill_orchestrator.Prelude.Results.{Result, ok, err}
use local_skill_orchestrator.Capability.{read_project}
use local_skill_orchestrator.Practices.Packs.{
  recommended, required, CapabilityRequirement, PracticePack, AbstractCapabilityRequirement,
}
use local_skill_orchestrator.Resolver.Policy.{AdapterScanResult, OrgPolicy, ResolverPolicy, l4}
use local_skill_orchestrator.Resolver.Local.{
  ContextValue, Reason, CapabilityResolution, gap, no_provider,
}
use local_skill_orchestrator.Resolver.Plan.{
  with_mandatory_practice_packs, resolve_local_capabilities,
}
use local_skill_orchestrator.Resolver.Plan.Mandatory.{IsUpheld}
use local_skill_orchestrator.Resolver.Plan.Answers.{Answers, plan-Answers}

abbrev audit : CapabilityRequirement
audit = record {
  requirement_id = "audit";
  capability = "audit.log";
  strength = required;
  rationale = "regulation";
  verification = [];
}

abbrev base_pack : PracticePack
base_pack = record {
  pack_id = "base";
  name = "base";
  description = "";
  priority = 0;
  match_rule = record { all_of = []; any_of = []; none_of = [] };
  requirements = audit ∷ [];
  exceptions = [];
  conflicts = [];
}

abbrev load : String → Result String PracticePack
load id = if id == "base" then ok base_pack else err id

abbrev organization : OrgPolicy
organization = record {
  approved_capability_ids = [];
  blocked_capability_ids = [];
  approved_publishers = [];
  blocked_publishers = [];
  allowed_permissions = read_project ∷ [];
  max_permission_level = l4;
  mandatory_practice_packs = "base" ∷ [];
}

abbrev policy : ResolverPolicy
policy = record {
  allowed_permissions = read_project ∷ [];
  org_policy = some organization;
  org_policy_path = none;
}

abbrev wanted : AbstractCapabilityRequirement
wanted = record {
  capability = "audit.log";
  strength = recommended;
  originating_packs = "web" ∷ [];
  originating_requirements = "log" ∷ [];
  reasons = "support" ∷ [];
  verification = [];
  overridden = false;
  override_provenance = none;
}

abbrev neutral : AdapterScanResult → String → ContextValue
neutral c requirement = record { recommended = true; score = pos 0; reasons = [] }

abbrev any_order : Reason → Reason → Bool
any_order a b = true

abbrev no_advice : AbstractCapabilityRequirement → Option String
no_advice r = none

abbrev audit_gap : CapabilityResolution String
audit_gap = record {
  requirement = "audit.log";
  status = gap;
  capability_id = none;
  reason = no_provider ("base" ∷ "web" ∷ []);
  recommendation = none;
}

planned :
    resolve_local_capabilities load String neutral any_order no_advice (wanted ∷ []) [] [] policy
    ≡ ok (audit_gap ∷ [])
unfolding resolve_local_capabilities
planned = refl

plan-Answers_example :
    Answers "audit.log" (audit_gap ∷ [])
    × ((effective : List AbstractCapabilityRequirement) × (with_mandatory_practice_packs load
            (wanted ∷ [])
            policy
          ≡ ok effective)
        × IsUpheld load "base" audit effective)
plan-Answers_example =
    plan-Answers load neutral any_order no_advice (wanted ∷ []) [] [] policy (audit_gap ∷ [])
      organization "base" base_pack audit planned refl (inl refl) refl (inl refl)
