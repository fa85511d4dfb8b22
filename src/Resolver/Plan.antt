-- ===== src/Resolver/Plan.antt =====
-- `resolve_local_capabilities` of src/vibe/resolver/local.py, with the practice packs that an organization makes
-- mandatory. The reading of a bundled pack and of the policy file is an argument, and so are the contextual
-- value of a candidate and the recommendation for a gap; the digests of the plan are left out.
pub mod Answers
pub mod Mandatory
mod Examples
use local_skill_orchestrator.Prelude.{
  ℕ, String, Bool, true, false, Option, none, some, List, [], ◌∷◌, ◌++◌, flat_map, filter, member,
  is_nonempty, dedup, sorted_set, sort_by, on, str_leb, if◌then◌else◌, ltb, string_Eq, string_Ord,
  Dict, lookup, insert, values,
}
use local_skill_orchestrator.Prelude.Results.{Result, ok, err, ◌>>=◌}
use local_skill_orchestrator.Practices.Packs.{
  RequirementStrength, required, recommended, optional, CapabilityRequirement, PracticePack,
  AbstractCapabilityRequirement,
}
use local_skill_orchestrator.Resolver.Policy.{AdapterScanResult, OrgPolicy, ResolverPolicy}
use local_skill_orchestrator.Resolver.Local.{
  ContextValue, Reason, CapabilityResolution, resolve_requirement,
}

-- `_STRENGTH_ORDER`
abbrev pub strength_order : RequirementStrength → ℕ
strength_order optional = 0
strength_order recommended = 1
strength_order required = 2

-- max((a, b), key=...): the first of two that are equal
abbrev pub stronger : RequirementStrength → RequirementStrength → RequirementStrength
stronger a b = if ltb (strength_order a) (strength_order b) then b else a

-- The requirement of a pack, added to the one of its capability that is there.
unfoldable pub added :
    String
    → CapabilityRequirement
    → Option AbstractCapabilityRequirement
    → AbstractCapabilityRequirement
unfolding sorted_set dedup
added pack_id item none = record {
  capability = item.capability;
  strength = item.strength;
  originating_packs = pack_id ∷ [];
  originating_requirements = item.requirement_id ∷ [];
  reasons = item.rationale ∷ [];
  verification = item.verification;
  overridden = false;
  override_provenance = none;
}
added pack_id item (some existing) = record existing {
  strength = stronger existing.strength item.strength;
  originating_packs = sorted_set (existing.originating_packs ++ (pack_id ∷ []));
  originating_requirements =
      sorted_set (existing.originating_requirements ++ (item.requirement_id ∷ []));
  reasons = dedup (existing.reasons ++ (item.rationale ∷ []));
  verification = dedup (existing.verification ++ item.verification);
}

abbrev pub Requirements : Type 0
Requirements = Dict AbstractCapabilityRequirement

unfoldable pub add_item : String → CapabilityRequirement → Requirements → Requirements
unfolding added lookup insert
add_item pack_id item d = insert item.capability (added pack_id item (lookup item.capability d)) d

unfoldable pub add_items : String → List CapabilityRequirement → Requirements → Requirements
unfolding add_item
add_items pack_id [] d = d
add_items pack_id (item ∷ items) d = add_items pack_id items (add_item pack_id item d)

-- {item.capability: item for item in requirements}
unfoldable pub by_capability : List AbstractCapabilityRequirement → Requirements → Requirements
unfolding insert
by_capability [] d = d
by_capability (r ∷ rs) d = by_capability rs (insert r.capability r d)

module _ {E : Type 0} (load : String → Result E PracticePack) where
  unfoldable pub add_packs : List String → Requirements → Result E Requirements
  unfolding add_items
  add_packs [] d = ok d
  add_packs (id ∷ ids) d = load id >>= λ pack. add_packs ids (add_items id pack.requirements d)

  abbrev mandated :
      Option OrgPolicy
      → List AbstractCapabilityRequirement
      → Result E (List AbstractCapabilityRequirement)
  unfolding add_packs by_capability sorted_set
  mandated none requirements = ok requirements
  mandated (some org) requirements =
      let all =
        add_packs (sorted_set org.mandatory_practice_packs) (by_capability requirements []) >>= λ d.
        ok (values d) in
      if is_nonempty org.mandatory_practice_packs then all else ok requirements

  -- `_with_mandatory_practice_packs`
  unfoldable pub with_mandatory_practice_packs :
      List AbstractCapabilityRequirement
      → ResolverPolicy
      → Result E (List AbstractCapabilityRequirement)
  unfolding mandated
  with_mandatory_practice_packs requirements policy = mandated policy.org_policy requirements

  module _ (R : Type 0) (context_of : AdapterScanResult → String → ContextValue)
      (reason_leb : Reason → Reason → Bool)
      (recommend : AbstractCapabilityRequirement → Option R) where
    -- The resolutions of one requirement, from the candidates that provide its capability.
    unfoldable pub resolutions_of :
        List AdapterScanResult
        → List String
        → ResolverPolicy
        → AbstractCapabilityRequirement
        → List (CapabilityResolution R)
    unfolding resolve_requirement sort_by
    resolutions_of inventory platforms policy r =
        resolve_requirement R context_of reason_leb r.capability platforms policy
          (sort_by (on (λ (c : AdapterScanResult). c.manifest.capability_id) str_leb)
            (filter (λ (c : AdapterScanResult). member r.capability c.manifest.provides) inventory))
          r.originating_packs (recommend r)

    -- `resolve_local_capabilities`, with its active policy
    unfoldable pub resolve_local_capabilities :
        List AbstractCapabilityRequirement
        → List AdapterScanResult
        → List String
        → ResolverPolicy
        → Result E (List (CapabilityResolution R))
    unfolding with_mandatory_practice_packs resolutions_of sort_by
    resolve_local_capabilities requirements inventory platforms policy =
        with_mandatory_practice_packs requirements policy >>= λ effective. ok (
          flat_map (resolutions_of inventory platforms policy)
            (sort_by (on (λ (r : AbstractCapabilityRequirement). r.capability) str_leb) effective))
