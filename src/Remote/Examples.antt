-- ===== src/Remote/Examples.antt =====
-- Candidates of remote sources, scored and merged.
use local_skill_orchestrator.Prelude.{
  ℕ, String, true, false, ◌≡◌, refl, Option, none, some, [], ◌∷◌, inl, inr, negsuc, string_Eq, map,
}
use local_skill_orchestrator.Planning.Risk.{low}
use local_skill_orchestrator.Remote.Models.{
  RemoteCandidate, Provenance, mcp_server, official, community, l2, org_signature, SourceTier,
}
use local_skill_orchestrator.Remote.Scoring.{
  CandidateEvidence, ScoringContext, no_evidence, above_ceiling, hard_filter_reason,
  score_candidate, rank_candidates,
}
use local_skill_orchestrator.Remote.Scoring.Bounds.{AreScores, score_candidate-AreScores}
use local_skill_orchestrator.Remote.Discovery.{identity, deduplicate}
use local_skill_orchestrator.Remote.Discovery.Unique.{Represents, deduplicate-Represents}

abbrev same_text : String → String
same_text s = s

abbrev candidate : String → SourceTier → ℕ → Option String → RemoteCandidate
candidate ref tier stars repository = record {
  candidate_ref = ref;
  name = "browser";
  kind = mcp_server;
  provides = "browser-testing" ∷ [];
  version = none;
  digest = none;
  publisher = none;
  permissions_as_declared = "execute-command" ∷ [];
  source_tier = tier;
  provenance = none;
  canonical_repository = repository;
  revision = none;
  cross_source_ref = none;
  description = none;
  stars = stars;
  forks = 0;
  adoption = 0;
  weekly_adoption = 0;
  last_activity = none;
  archived = false;
  official_source = false;
}

abbrev registry_one : RemoteCandidate
registry_one = candidate "mcp:browser" official 3 (some "https://host/browser/")

abbrev index_one : RemoteCandidate
index_one = candidate "index:browser" community 90 (some "https://host/browser")

abbrev merged_one : RemoteCandidate
merged_one = candidate "mcp:browser" official 90 (some "https://host/browser/")

abbrev unnamed_one : RemoteCandidate
unnamed_one = candidate "loose:browser" community 1 none

abbrev context : ScoringContext
context = record {
  requirement = "browser-testing";
  target_platforms = "linux" ∷ [];
  project_risk_level = low;
  rejected_capabilities = [];
}

abbrev signed : Provenance
signed = record {
  source = "mcp";
  publisher = none;
  digest = "sha256:0";
  source_verified = true;
  publisher_verified = true;
  publisher_verification = org_signature;
  digest_verified = true;
  permission_level = l2;
  reason = "signed";
}

neglected : CandidateEvidence
neglected = record no_evidence { maintenance = negsuc 6; adoption = negsuc 0 }

deduplicated :
    deduplicate same_text (registry_one ∷ unnamed_one ∷ index_one ∷ [])
    ≡ unnamed_one ∷ merged_one ∷ []
unfolding deduplicate
deduplicated = refl

permission_refused :
    hard_filter_reason (record registry_one { provenance = some signed }) context no_evidence
    ≡ some above_ceiling
unfolding hard_filter_reason
permission_refused = refl

tiers_ranked :
    map
      (λ r. r.candidate.candidate_ref)
      (rank_candidates same_text (index_one ∷ registry_one ∷ []) context [])
    ≡ "mcp:browser" ∷ "index:browser" ∷ []
unfolding rank_candidates
tiers_ranked = refl

score_candidate-AreScores_example :
    AreScores (score_candidate same_text registry_one context neglected)
score_candidate-AreScores_example =
    score_candidate-AreScores same_text registry_one context neglected

one_merged : deduplicate same_text (registry_one ∷ index_one ∷ []) ≡ merged_one ∷ []
unfolding deduplicate
one_merged = refl

deduplicate-Represents_example :
    Represents same_text
      (deduplicate same_text (registry_one ∷ index_one ∷ []))
      index_one
      (identity same_text index_one)
deduplicate-Represents_example =
    deduplicate-Represents same_text (registry_one ∷ index_one ∷ []) index_one (inr (inl refl))
