-- ===== src/Remote/Scoring/Bounds.antt =====
-- The bounds of the scores.
use local_skill_orchestrator.Prelude.{◌+◌, ◌≤◌, String, ◌≡◌, arith}
use local_skill_orchestrator.Remote.Models.{RemoteCandidate}
use local_skill_orchestrator.Remote.Scoring.{
  CandidateEvidence, ScoringContext, RankedCandidate, score_candidate,
}

-- Every score is a number from 0 to 100 and the sum of the parts that its explanation gives.
abbrev pub AreScores : RankedCandidate → Type 0
AreScores r =
    (r.fit.score ≤ 100)
    × (r.fit.score ≡ r.fit.capability + r.fit.platform + r.fit.project_facts)
    × (r.trust.score ≤ 100)
    × (r.trust.score ≡ r.trust.tier + r.trust.publisher + r.trust.digest + r.trust.maintenance)
    × (r.risk.score ≤ 100)

module _ (lower : String → String) where
  -- Fit, trust and risk are at most 100, for every evidence, negative numbers of it included.
  pub score_candidate-AreScores :
      (candidate : RemoteCandidate) (context : ScoringContext) (evidence : CandidateEvidence)
      → AreScores (score_candidate lower candidate context evidence)
  unfolding score_candidate
  score_candidate-AreScores candidate context evidence = ground (arith)
