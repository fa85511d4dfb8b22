-- ===== src/Remote/Scoring.antt =====
-- src/vibe/remote/scoring.py: the hard filter and the scores of remote candidates. `str.lower` is an
-- argument. Explanations are the numbers and texts that they format.
pub mod Bounds
pub mod Ranking
use text.Mathlib.Text.{find?}
use local_skill_orchestrator.Prelude.{
  ◌*◌, ℕ, ◌+◌, ◌/◌, min, ℤ, pos, negsuc, pos_part, String, Bool, true, false, not, ◌&&◌, ◌||◌,
  Option, none, some, is_some, List, [], ◌∷◌, ◌++◌, map, any, filter, member, length, dedup,
  is_nonempty, if◌then◌else◌, leb, ltb, ◌==◌, string_Eq, Dict, lookup, sort_by, str_leb, on, lex,
}
use local_skill_orchestrator.Planning.Risk.{RiskLevel, low, medium, high, critical}
use local_skill_orchestrator.Remote.Models.{
  SourceTier, official, verified_publisher, community, general_search, PermissionLevel, l0, l1, l2,
  l3, l4, Provenance, RemoteCandidate,
}

abbrev pub permission_order : PermissionLevel → ℕ
permission_order l0 = 0
permission_order l1 = 1
permission_order l2 = 2
permission_order l3 = 3
permission_order l4 = 4

abbrev pub permission_ceiling : RiskLevel → PermissionLevel
permission_ceiling low = l1
permission_ceiling medium = l2
permission_ceiling high = l3
permission_ceiling critical = l3

abbrev pub source_trust : SourceTier → ℕ
source_trust official = 60
source_trust verified_publisher = 50
source_trust community = 30
source_trust general_search = 10

abbrev pub risk_categories : List (ℕ × List String)
risk_categories =
    (25, "execute-command" ∷ "command-execution" ∷ [])
    ∷ (30, "credentials" ∷ "credential-access" ∷ [])
    ∷ (25, "network-write" ∷ "external-write" ∷ [])
    ∷ (20, "hook-installation" ∷ "install-hook" ∷ [])
    ∷ []

pub record CandidateEvidence : Type 0 where
  pub platforms : List String
  pub project_fact_matches : List String
  pub maintenance : ℤ
  pub adoption : ℤ
  pub scan_flags : List String

-- `CandidateEvidence()`
abbrev pub no_evidence : CandidateEvidence
no_evidence = record {
  platforms = [];
  project_fact_matches = [];
  maintenance = pos 0;
  adoption = pos 0;
  scan_flags = [];
}

pub record ScoringContext : Type 0 where
  pub requirement : String
  pub target_platforms : List String
  pub project_risk_level : RiskLevel
  pub rejected_capabilities : List String

-- `ExplainedScore`, with what its explanation formats
pub record FitScore : Type 0 where
  pub score : ℕ
  pub capability : ℕ
  pub platform : ℕ
  pub project_facts : ℕ

pub record TrustScore : Type 0 where
  pub score : ℕ
  pub tier : ℕ
  pub publisher : ℕ
  pub digest : ℕ
  pub maintenance : ℕ

pub record RiskScore : Type 0 where
  pub score : ℕ
  pub declared : List String
  pub scan : List String

pub record RankedCandidate : Type 0 where
  pub candidate : RemoteCandidate
  pub fit : FitScore
  pub trust : TrustScore
  pub risk : RiskScore
  pub adoption : ℕ

pub data FilterReason : Type 0 where
  rejected_capability incompatible_platform blocked_provenance above_ceiling : FilterReason

abbrev is_l4 : PermissionLevel → Bool
is_l4 l4 = true
is_l4 _ = false

abbrev provenance_reason : Option Provenance → RiskLevel → Option FilterReason
provenance_reason none level = none
provenance_reason (some p) level =
    if is_l4 p.permission_level
    then some blocked_provenance
    else if ltb (permission_order (permission_ceiling level)) (permission_order p.permission_level)
    then some above_ceiling
    else none

-- `_hard_filter_reason`
unfoldable pub hard_filter_reason :
    RemoteCandidate → ScoringContext → CandidateEvidence → Option FilterReason
hard_filter_reason candidate context evidence =
    if member context.requirement context.rejected_capabilities
    then some rejected_capability
    else if is_nonempty evidence.platforms
        && not (any (λ p. member p context.target_platforms) evidence.platforms)
    then some incompatible_platform
    else provenance_reason candidate.provenance context.project_risk_level

-- max(0, min(10, maintenance // 10))
abbrev maintenance_points : ℤ → ℕ
maintenance_points (pos n) = min 10 (n / 10)
maintenance_points (negsuc n) = 0

abbrev points : ℕ → Bool → ℕ
points n test = if test then n else 0

abbrev is_publisher_verified : Option Provenance → Bool
is_publisher_verified none = false
is_publisher_verified (some p) = p.publisher_verified

abbrev is_digest_verified : Option Provenance → Bool
is_digest_verified none = false
is_digest_verified (some p) = p.digest_verified

abbrev sum : List ℕ → ℕ
sum [] = 0
sum (n ∷ ns) = n + sum ns

unfoldable pub fit_score : RemoteCandidate → ScoringContext → CandidateEvidence → FitScore
unfolding dedup
fit_score candidate context evidence =
    let capability = points 70 (member context.requirement candidate.provides) in
    let platform = points 10 (is_nonempty evidence.platforms) in
    let facts = min 20 (length (dedup evidence.project_fact_matches) * 5) in
    record {
      score = capability + platform + facts;
      capability = capability;
      platform = platform;
      project_facts = facts;
    }

unfoldable pub trust_score : RemoteCandidate → CandidateEvidence → TrustScore
trust_score candidate evidence =
    let publisher = points 20 (is_publisher_verified candidate.provenance) in
    let digest = points 10 (is_digest_verified candidate.provenance) in
    let maintenance = maintenance_points evidence.maintenance in
    let tier = source_trust candidate.source_tier in
    record {
      score = tier + publisher + digest + maintenance;
      tier = tier;
      publisher = publisher;
      digest = digest;
      maintenance = maintenance;
    }

module _ (lower : String → String) where
  abbrev weight : List String → ℕ × List String → ℕ
  weight terms (n, aliases) =
      points n (any (λ alias. any (λ term. is_some (find? term alias)) terms) aliases)

  unfoldable pub risk_score : RemoteCandidate → CandidateEvidence → RiskScore
  risk_score candidate evidence =
      let declared = map lower candidate.permissions_as_declared in
      let flags = map lower evidence.scan_flags in
      record {
        score = min 100 (sum (map (weight (declared ++ flags)) risk_categories));
        declared = declared;
        scan = flags;
      }

  -- `_score_candidate`
  unfoldable pub score_candidate :
      RemoteCandidate → ScoringContext → CandidateEvidence → RankedCandidate
  unfolding fit_score trust_score risk_score
  score_candidate candidate context evidence = record {
    candidate = candidate;
    fit = fit_score candidate context evidence;
    trust = trust_score candidate evidence;
    risk = risk_score candidate evidence;
    adoption = pos_part evidence.adoption;
  }

-- evidence.get(candidate.candidate_ref, CandidateEvidence())
abbrev evidence_or : Option CandidateEvidence → CandidateEvidence
evidence_or none = no_evidence
evidence_or (some e) = e

unfoldable pub evidence_for : Dict CandidateEvidence → RemoteCandidate → CandidateEvidence
unfolding lookup
evidence_for evidence candidate = evidence_or (lookup candidate.candidate_ref evidence)

unfoldable pub is_eligible : ScoringContext → Dict CandidateEvidence → RemoteCandidate → Bool
unfolding hard_filter_reason evidence_for
is_eligible context evidence candidate =
    not (is_some (hard_filter_reason candidate context (evidence_for evidence candidate)))

-- The key of `sorted`: better fit, better trust, less risk, more adoption, then the reference.
abbrev pub ranks_before : RankedCandidate → RankedCandidate → Bool
ranks_before = lex (on (λ r. r.fit.score) (λ a b. leb b a)) (
    lex (on (λ r. r.trust.score) (λ a b. leb b a)) (
      lex (on (λ r. r.risk.score) leb) (
        lex (on (λ r. r.adoption) (λ a b. leb b a)) (on (λ r. r.candidate.candidate_ref) str_leb))))

module _ (lower : String → String) where
  -- `rank_candidates`
  unfoldable pub rank_candidates :
      List RemoteCandidate → ScoringContext → Dict CandidateEvidence → List RankedCandidate
  unfolding sort_by score_candidate evidence_for is_eligible
  rank_candidates candidates context evidence = sort_by ranks_before (
      map (λ c. score_candidate lower c context (evidence_for evidence c))
        (filter (is_eligible context evidence) candidates))
