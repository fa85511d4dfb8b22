-- ===== src/Resolver/Local.antt =====
-- `_resolve_requirement` of src/vibe/resolver/local.py. The contextual value of a candidate and its
-- recommendation for a gap are arguments here, functions of any kind; a reason is a value of a type
-- instead of a text, and so is the order of reasons by their texts an argument.
pub mod Winner
pub mod Accounts
use text.Mathlib.Text.{find?}
use local_skill_orchestrator.Prelude.{
  ℕ, String, Bool, true, false, not, ◌&&◌, ◌||◌, Option, none, some, List, [], ◌∷◌, ◌++◌, map,
  filter, member, all, length, is_some, is_nonempty, if◌then◌else◌, string_Eq, sort_by, str_leb,
  lex, on, leb, leb_ℤ, ℤ, ◌+ℤ◌,
}
use local_skill_orchestrator.Resolver.Policy.{AdapterScanResult, ResolverPolicy, hard_filter_reason}
use local_skill_orchestrator.Resolver.Scoring.{CandidateScore, total, score_candidate}

pub record ContextValue : Type 0 where
  pub recommended : Bool
  pub score : ℤ
  pub reasons : List String

pub data ResolutionStatus : Type 0 where
  selected rejected deferred gap : ResolutionStatus

-- What a reason says; the texts are written from these values.
pub data Reason : Type 0 where
  filtered : String → Reason
  out_of_context : List String → Reason
  best : CandidateScore → List String → Reason
  lower_ranked : String → CandidateScore → CandidateScore → Reason
  no_provider : List String → Reason

-- `recommendation` is set for a gap only.
pub record CapabilityResolution (R : Type 0) : Type 0 where
  pub requirement : String
  pub status : ResolutionStatus
  pub capability_id : Option String
  pub reason : Reason
  pub recommendation : Option R

abbrev pub is_deferred : ResolutionStatus → Bool
is_deferred deferred = true
is_deferred _ = false

-- The identifiers of manifests have no capital letters, so `casefold` leaves them as they are.
unfoldable pub is_codegraph : AdapterScanResult → Bool
is_codegraph candidate = is_some (find? candidate.manifest.capability_id "codegraph")

unfoldable pub is_persistent_memory : AdapterScanResult → Bool
is_persistent_memory candidate = member "cross-session-memory" candidate.manifest.provides

unfoldable pub contextually_ineligible : AdapterScanResult → ContextValue → Bool
unfolding is_codegraph is_persistent_memory
contextually_ineligible candidate context =
    (is_codegraph candidate || is_persistent_memory candidate) && not context.recommended

-- A candidate with its score and its contextual value.
pub record Scored : Type 0 where
  pub candidate : AdapterScanResult
  pub score : CandidateScore
  pub context : ContextValue

abbrev pub points : Scored → ℤ
points s = total s.score +ℤ s.context.score

-- The order of `_ranking_key`: more points first, then fewer permissions, then the identifier.
abbrev pub ranking : Scored → Scored → Bool
ranking =
    lex (λ a b. leb_ℤ (points b) (points a))
      (lex (on (λ (s : Scored). length s.candidate.manifest.permissions) leb)
        (on (λ (s : Scored). s.candidate.manifest.capability_id) str_leb))

abbrev pub id_or_empty : Option String → String
id_or_empty none = ""
id_or_empty (some id) = id

module _ (R : Type 0) (context_of : AdapterScanResult → String → ContextValue)
    (reason_leb : Reason → Reason → Bool) where
  -- `_resolution`
  unfoldable pub resolution :
      String → ResolutionStatus → AdapterScanResult → Reason → CapabilityResolution R
  resolution requirement status candidate reason = record {
    requirement = requirement;
    status = status;
    capability_id = some candidate.manifest.capability_id;
    reason = reason;
    recommendation = none;
  }

  -- The order of `_resolution_key`.
  abbrev pub by_resolution : CapabilityResolution R → CapabilityResolution R → Bool
  by_resolution =
      lex (on (λ (r : CapabilityResolution R). id_or_empty r.capability_id) str_leb)
        (on (λ (r : CapabilityResolution R). r.reason) reason_leb)

  module _ (requirement : String) (platforms : List String) (policy : ResolverPolicy) where
    -- Why a candidate is not eligible, as the resolution that says so.
    abbrev pub refusal : AdapterScanResult → Option String → Option (CapabilityResolution R)
    refusal c (some reason) = some (resolution requirement rejected c (filtered reason))
    refusal c none =
        if contextually_ineligible c (context_of c requirement)
        then some (
            resolution requirement (if is_persistent_memory c then deferred else rejected) c
              (out_of_context (context_of c requirement).reasons))
        else none

    unfoldable pub refused : AdapterScanResult → Option (CapabilityResolution R)
    unfolding resolution contextually_ineligible is_persistent_memory hard_filter_reason
    refused c = refusal c (hard_filter_reason c platforms policy)

    abbrev refused_or :
        Option (CapabilityResolution R)
        → List (CapabilityResolution R)
        → List (CapabilityResolution R)
    refused_or none rs = rs
    refused_or (some r) rs = r ∷ rs

    -- The first list of the loop over the candidates.
    unfoldable pub rejected_of : List AdapterScanResult → List (CapabilityResolution R)
    unfolding refused
    rejected_of [] = []
    rejected_of (c ∷ cs) = refused_or (refused c) (rejected_of cs)

    abbrev pub scored : AdapterScanResult → Scored
    scored c = record {
      candidate = c;
      score = score_candidate c requirement;
      context = context_of c requirement;
    }

    -- The second list of the loop.
    unfoldable pub eligible_of : List AdapterScanResult → List Scored
    unfolding refused score_candidate
    eligible_of cs = map scored (filter (λ c. not (is_some (refused c))) cs)

    unfoldable pub lower : Scored → Scored → CapabilityResolution R
    unfolding resolution
    lower winner s =
        resolution requirement rejected s.candidate
          (lower_ranked winner.candidate.manifest.capability_id s.score winner.score)

    abbrev pub gap_of : List String → Option R → CapabilityResolution R
    gap_of packs recommendation = record {
      requirement = requirement;
      status = gap;
      capability_id = none;
      reason = no_provider packs;
      recommendation = recommendation;
    }

    unfoldable pub chosen :
        List Scored
        → List (CapabilityResolution R)
        → List String
        → Option R
        → List (CapabilityResolution R)
    unfolding resolution lower
    chosen (winner ∷ others) refusals packs recommendation =
        resolution requirement selected winner.candidate (best winner.score winner.context.reasons)
        ∷ sort_by by_resolution (refusals ++ map (lower winner) others)
    chosen [] refusals packs recommendation =
        if is_nonempty refusals
          && all (λ (r : CapabilityResolution R). is_deferred r.status) refusals
        then sort_by by_resolution refusals
        else sort_by by_resolution refusals ++ (gap_of packs recommendation ∷ [])

    unfoldable pub resolve_requirement :
        List AdapterScanResult → List String → Option R → List (CapabilityResolution R)
    unfolding rejected_of eligible_of chosen
    resolve_requirement candidates packs recommendation =
        chosen (sort_by ranking (eligible_of candidates)) (rejected_of candidates) packs
          recommendation
