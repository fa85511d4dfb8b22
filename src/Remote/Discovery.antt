-- ===== src/Remote/Discovery.antt =====
-- src/vibe/remote/discovery.py: one report from the answers of several sources. `casefold` is an argument.
pub mod Merged
pub mod Unique
use local_skill_orchestrator.Prelude.{
  ℕ, ◌+◌, max, String, is_text, strip_slashes, Bool, true, false, not, ◌&&◌, ◌||◌, Option, none,
  some, List, [], ◌∷◌, ◌++◌, flat_map, filter, is_nonempty, length, if◌then◌else◌, leb, ltb, Dict,
  lookup, insert, values, sort_by, on, str_leb,
}
use local_skill_orchestrator.Remote.Models.{
  SourceTier, official, verified_publisher, community, general_search, PermissionLevel, l4,
  RemoteCandidate, Provenance,
}

pub data DiscoveryStatus : Type 0 where
  not_requested source_unavailable search_failed no_results all_filtered candidates_found
        installation_deferred installation_rejected :
      DiscoveryStatus

pub data SourceStatus : Type 0 where
  success unavailable failed rate_limited unauthorized cached : SourceStatus

pub record SourceDiagnostic : Type 0 where
  pub source_id : String
  pub query : Option String
  pub status : SourceStatus
  pub candidates : List RemoteCandidate
  pub matched_count : ℕ
  pub filtered_count : ℕ
  pub message : Option String

pub record DiscoveryReport : Type 0 where
  pub requirement : String
  pub status : DiscoveryStatus
  pub attempted_sources : List String
  pub diagnostics : List SourceDiagnostic
  pub candidates : List RemoteCandidate
  pub partial_failure : Bool

abbrev pub is_successful : SourceDiagnostic → Bool
is_successful d = elim d.status [ success ↦ true | cached ↦ true | _ ↦ false ]

abbrev pub matched : List SourceDiagnostic → ℕ
matched [] = 0
matched (d ∷ ds) = d.matched_count + matched ds

abbrev pub filtered : List SourceDiagnostic → ℕ
filtered [] = 0
filtered (d ∷ ds) = d.filtered_count + filtered ds

abbrev pub offered : List SourceDiagnostic → List RemoteCandidate
offered ds = flat_map (λ d. d.candidates) ds

abbrev overall_status : List SourceDiagnostic → DiscoveryStatus
overall_status successful =
    if is_nonempty (offered successful)
    then candidates_found
    else if not (is_nonempty successful)
    then search_failed
    else if ltb 0 (matched successful) && leb (matched successful) (filtered successful)
    then all_filtered
    else no_results

-- `aggregate_discovery`
unfoldable pub aggregate_discovery :
    String → Bool → List String → List SourceDiagnostic → DiscoveryReport
aggregate_discovery requirement approved sources diagnostics =
    let successful = filter is_successful diagnostics in
    record {
      requirement = requirement;
      status =
          if not approved
          then not_requested
          else if not (is_nonempty sources)
          then source_unavailable
          else overall_status successful;
      attempted_sources = if approved then sources else [];
      diagnostics = diagnostics;
      candidates = offered successful;
      partial_failure = ltb 0 (length successful) && ltb (length successful) (length diagnostics);
    }

abbrev is_blocking : Option Provenance → Bool
is_blocking none = false
is_blocking (some p) = elim p.permission_level [ l4 ↦ true | _ ↦ false ]

-- `_blocked`
abbrev pub is_blocked : RemoteCandidate → Bool
is_blocked c = if c.archived then true else is_blocking c.provenance

-- a or b, on optional texts: an empty text counts as none
abbrev pub filled : Option String → Option String
filled none = none
filled (some s) = if is_text s then some s else none

abbrev pub or_else : Option String → Option String → Option String
or_else none b = b
or_else (some s) b = if is_text s then some s else b

abbrev pub trust : SourceTier → ℕ
trust official = 4
trust verified_publisher = 3
trust community = 2
trust general_search = 1

abbrev absorb : RemoteCandidate → RemoteCandidate → RemoteCandidate
absorb primary other = record primary {
  stars = max primary.stars other.stars;
  forks = max primary.forks other.forks;
  adoption = max primary.adoption other.adoption;
  weekly_adoption = max primary.weekly_adoption other.weekly_adoption;
  official_source = primary.official_source || other.official_source;
  canonical_repository = or_else primary.canonical_repository other.canonical_repository;
  cross_source_ref = or_else primary.cross_source_ref other.cross_source_ref;
}

-- `_merge`: the maxima and the disjunction do not depend on which of the two is the primary.
unfoldable pub merge : RemoteCandidate → RemoteCandidate → RemoteCandidate
merge left right =
    if leb (trust right.source_tier) (trust left.source_tier)
    then absorb left right
    else absorb right left

module _ (casefold : String → String) where
  abbrev named : Option String → Option String → Option String → Option String
  unfolding strip_slashes
  named (some repository) ref digest = some (casefold (strip_slashes repository))
  named none (some ref) digest = some (casefold ref)
  named none none (some digest) = some (casefold digest)
  named none none none = none

  -- `_identity`
  unfoldable pub identity : RemoteCandidate → Option String
  unfolding strip_slashes
  identity c = named (filled c.canonical_repository) (filled c.cross_source_ref) (filled c.digest)

abbrev merged_with : Option RemoteCandidate → RemoteCandidate → RemoteCandidate
unfolding merge
merged_with none c = c
merged_with (some existing) c = merge existing c

-- `by_identity` and `unkeyed`
pub record Groups : Type 0 where
  pub by_identity : Dict RemoteCandidate
  pub unkeyed : List RemoteCandidate

unfoldable pub place : Option String → RemoteCandidate → Groups → Groups
unfolding lookup insert merged_with
place none c g = record g { unkeyed = g.unkeyed ++ (c ∷ []) }
place (some i) c g = record g {
  by_identity = insert i (merged_with (lookup i g.by_identity) c) g.by_identity;
}

module _ (casefold : String → String) where
  unfoldable pub group : List RemoteCandidate → Groups → Groups
  unfolding place identity
  group [] g = g
  group (c ∷ cs) g = group cs (place (identity casefold c) c g)

  -- `_deduplicate`
  unfoldable pub deduplicate : List RemoteCandidate → List RemoteCandidate
  unfolding group sort_by
  deduplicate candidates =
      let g = group candidates (record { by_identity = []; unkeyed = [] }) in
      sort_by (on (λ c. c.candidate_ref) str_leb) (values g.by_identity ++ g.unkeyed)
