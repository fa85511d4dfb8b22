-- ===== src/Resolver/Policy/Ceiling.antt =====
-- What a candidate that passes the hard filter may do.
use local_skill_orchestrator.Prelude.{
  all_of_In, all, String, ◌≡◌, refl, ◌⊎◌, inl, inr, true, false, not, Option, none, some, List, [],
  ◌∷◌, map, filter, In, In-filter, In-map, member, is_nonempty, string_Eq, In-sort_by, str_leb,
  arith, Bool-cases,
}
use local_skill_orchestrator.Capability.{
  Permission, permission_value, permission_Eq, CapabilityManifest,
}
use local_skill_orchestrator.Resolver.Policy.{
  AdapterScanResult, OrgPolicy, ResolverPolicy, denied, org_reason, own_reason, hard_filter_reason,
}

-- What the organization's policy asks of a candidate.
abbrev pub IsApproved : CapabilityManifest → Option OrgPolicy → Type 0
IsApproved manifest none = Unit
IsApproved manifest (some org) =
    (member manifest.capability_id org.blocked_capability_ids ≡ false)
    × ((org.approved_capability_ids ≡ [])
        ⊎ (member manifest.capability_id org.approved_capability_ids ≡ true))
    × (all (λ p. member p org.allowed_permissions) manifest.permissions ≡ true)

denied-empty :
    (permissions allowed : List Permission)
    → is_nonempty (denied permissions allowed) ≡ false
    → (p : Permission) → In p permissions
    → member p allowed ≡ true
unfolding denied
denied-empty permissions allowed none_denied p i = elim (Bool-cases (member p allowed)) [
  | inl t ↦ t
  | inr f ↦ absurd (
      nothing (denied permissions allowed) none_denied (
        In-sort_by str_leb (permission_value p)
          (map permission_value (filter (λ q. not (member q allowed)) permissions))
          (In-map permission_value p (filter (λ q. not (member q allowed)) permissions)
            (In-filter (λ q. not (member q allowed)) p permissions i (rw f refl)))))
]
  where
    nothing : (xs : List String) → is_nonempty xs ≡ false → In (permission_value p) xs → ⊥
    nothing [] h k = elim k [ ]
    nothing (x ∷ xs) h k = cc

org-IsApproved :
    (manifest : CapabilityManifest) (org : Option OrgPolicy) (path : Option String)
    → org_reason manifest org path ≡ none
    → IsApproved manifest org
unfolding org_reason
org-IsApproved manifest none path h = tt
org-IsApproved manifest (some org) path h = (
  ground arith,
  ground arith,
  all_of_In (λ p. member p org.allowed_permissions) manifest.permissions
      (denied-empty manifest.permissions org.allowed_permissions (ground arith)),
)

own-permissions :
    (candidate : AdapterScanResult) (platforms : List String) (allowed : List Permission)
    (p : Permission)
    → own_reason candidate platforms allowed ≡ none
    → In p candidate.manifest.permissions
    → member p allowed ≡ true
unfolding own_reason
own-permissions candidate platforms allowed p h i =
    denied-empty candidate.manifest.permissions allowed (ground arith) p i

-- A candidate that the hard filter does not reject asks only for permissions that the resolver's policy
-- allows; and under an organization's policy it is not blocked, it is approved where the policy lists
-- approved capabilities, and it asks only for permissions that the organization allows.
pub hard_filter_lem :
    (candidate : AdapterScanResult) (platforms : List String) (policy : ResolverPolicy)
    → hard_filter_reason candidate platforms policy ≡ none
    → (all (λ p. member p policy.allowed_permissions) candidate.manifest.permissions ≡ true)
      × IsApproved candidate.manifest policy.org_policy
unfolding hard_filter_reason
hard_filter_lem candidate platforms policy h =
    let org : org_reason candidate.manifest policy.org_policy policy.org_policy_path ≡ none =
      ground arith in
    let own : own_reason candidate platforms policy.allowed_permissions ≡ none = ground arith in
    (
      all_of_In (λ p. member p policy.allowed_permissions) candidate.manifest.permissions
          (λ p i. own-permissions candidate platforms policy.allowed_permissions p own i),
      org-IsApproved candidate.manifest policy.org_policy policy.org_policy_path org,
    )
