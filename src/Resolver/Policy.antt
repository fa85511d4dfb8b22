-- ===== src/Resolver/Policy.antt =====
-- src/vibe/resolver/policy.py: the hard boundaries of a candidate, before it is scored. A `frozenset` is
-- a list without repetitions.
pub mod Ceiling
use Prim.Native.String.{len, slice}
use text.Mathlib.Text.{starts_with}
use local_skill_orchestrator.Prelude.{
  ℕ, String, str_append, Bool, true, false, not, ◌&&◌, ◌||◌, Option, none, some, List, [], ◌∷◌, map,
  filter, any, member, is_nonempty, if◌then◌else◌, string_Eq, sort_by, str_leb, join, ltb,
}
use local_skill_orchestrator.Capability.{
  Permission, permission_value, permission_Eq, CapabilityManifest,
}

pub record AdapterVerification : Type 0 where
  pub verified : Bool
  pub details : List String

pub record AdapterProvenance : Type 0 where
  pub adapter_id : String
  pub locator : String

pub record AdapterScanResult : Type 0 where
  pub manifest : CapabilityManifest
  pub provenance : AdapterProvenance
  pub verification : AdapterVerification

pub data PermissionLevel : Type 0 where
  l0 l1 l2 l3 l4 : PermissionLevel

pub record OrgPolicy : Type 0 where
  pub approved_capability_ids : List String
  pub blocked_capability_ids : List String
  pub approved_publishers : List String
  pub blocked_publishers : List String
  pub allowed_permissions : List Permission
  pub max_permission_level : PermissionLevel
  pub mandatory_practice_packs : List String

pub record ResolverPolicy : Type 0 where
  pub allowed_permissions : List Permission
  pub org_policy : Option OrgPolicy
  pub org_policy_path : Option String

-- The path in a message, where no path reads `None`.
abbrev path_text : Option String → String
path_text none = "None"
path_text (some path) = path

-- sorted(permission.value for permission in permissions - allowed)
unfoldable pub denied : List Permission → List Permission → List String
denied permissions allowed =
    sort_by str_leb (map permission_value (filter (λ p. not (member p allowed)) permissions))

-- `detail.removeprefix(prefix)` of the first detail with the prefix
unfoldable pub declared_compatibility : List String → Option String
declared_compatibility [] = none
declared_compatibility (detail ∷ details) =
    if starts_with detail "compatibility:"
    then some (slice detail (len "compatibility:") (len detail))
    else declared_compatibility details

abbrev matches_platform : List String → Option String → Bool
matches_platform platforms none = true
matches_platform platforms (some compatibility) = any (λ p. starts_with compatibility p) platforms

abbrev compatibility_text : Option String → String
compatibility_text none = ""
compatibility_text (some compatibility) = compatibility

-- The reason of the organization's policy.
unfoldable pub org_reason : CapabilityManifest → Option OrgPolicy → Option String → Option String
unfolding denied join
org_reason manifest none path = none
org_reason manifest (some org) path =
    if member manifest.capability_id org.blocked_capability_ids
    then some (str_append "blocked by org policy " (path_text path))
    else if is_nonempty org.approved_capability_ids
        && not (member manifest.capability_id org.approved_capability_ids)
    then some (str_append "not approved by org policy " (path_text path))
    else if is_nonempty (denied manifest.permissions org.allowed_permissions)
    then some (
        str_append "exceeds permission ceiling in org policy " (
          str_append (path_text path)
            (str_append ": " (join ", " (denied manifest.permissions org.allowed_permissions)))))
    else none

-- The reason of the resolver's own policy. The message quotes the compatibility as `repr` does a text
-- without quotes and backslashes.
unfoldable pub own_reason : AdapterScanResult → List String → List Permission → Option String
unfolding denied declared_compatibility join
own_reason candidate platforms allowed =
    let compatibility = declared_compatibility candidate.verification.details in
    if is_nonempty (denied candidate.manifest.permissions allowed)
    then some (
        str_append "permission filter rejected disallowed permissions: "
          (join ", " (denied candidate.manifest.permissions allowed)))
    else if matches_platform platforms compatibility
    then none
    else some (
        str_append "compatibility filter rejected '" (
          str_append (compatibility_text compatibility)
            (str_append "'; target platforms are " (join ", " (sort_by str_leb platforms)))))

abbrev or_else : Option String → Option String → Option String
or_else none other = other
or_else (some reason) other = some reason

-- The argument `platforms` is `blueprint.target_platforms`.
unfoldable pub hard_filter_reason : AdapterScanResult → List String → ResolverPolicy → Option String
unfolding org_reason own_reason
hard_filter_reason candidate platforms policy =
    or_else (org_reason candidate.manifest policy.org_policy policy.org_policy_path)
      (own_reason candidate platforms policy.allowed_permissions)
