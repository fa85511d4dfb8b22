-- ===== src/Remote/Scoring/Ranking.antt =====
-- The ranking of candidates.
use local_skill_orchestrator.Prelude.{
  map, filter, ℕ, String, true, List, In, ◌≡◌, arith, IsTotal, leb, str_leb, on-IsTotal,
  lex-IsTotal, str_leb-IsTotal, IsSorted, sort_by-IsSorted, Dict, In-sort_by, sort_by-In, In-map,
  map-In, In-filter, filter-In,
}
use local_skill_orchestrator.Remote.Models.{RemoteCandidate}
use local_skill_orchestrator.Remote.Scoring.{
  CandidateEvidence, ScoringContext, RankedCandidate, score_candidate, evidence_for, is_eligible,
  ranks_before, rank_candidates,
}

leb-IsTotal : IsTotal leb
leb-IsTotal = record { total = λ a b. ground arith; trans = λ a b c h k. ground arith }

more-IsTotal : IsTotal (λ (a b : ℕ). leb b a)
more-IsTotal = record { total = λ a b. ground arith; trans = λ a b c h k. ground arith }

ranks_before-IsTotal : IsTotal ranks_before
ranks_before-IsTotal =
    lex-IsTotal _ _ (on-IsTotal (λ r. r.fit.score) (λ a b. leb b a) more-IsTotal) (
      lex-IsTotal _ _ (on-IsTotal (λ r. r.trust.score) (λ a b. leb b a) more-IsTotal) (
        lex-IsTotal _ _ (on-IsTotal (λ r. r.risk.score) leb leb-IsTotal) (
          lex-IsTotal _ _ (on-IsTotal (λ r. r.adoption) (λ a b. leb b a) more-IsTotal)
            (on-IsTotal (λ r. r.candidate.candidate_ref) str_leb str_leb-IsTotal))))

module _ (lower : String → String) where
  abbrev pub IsRanking :
      List RemoteCandidate → ScoringContext → Dict CandidateEvidence → List RankedCandidate → Type 0
  IsRanking candidates context evidence ranked =
      IsSorted ranks_before ranked
      × ((c : RemoteCandidate)
          → In c candidates
          → is_eligible context evidence c ≡ true
          → In (score_candidate lower c context (evidence_for evidence c)) ranked)
      × ((r : RankedCandidate)
          → In r ranked
          → (c : RemoteCandidate) × In c candidates
            × (is_eligible context evidence c ≡ true)
            × (r ≡ score_candidate lower c context (evidence_for evidence c)))

  -- A ranking is sorted by fit, trust, risk, adoption and reference, and has the scores of the eligible
  -- candidates and of no other.
  pub rank_candidates-IsRanking :
      (candidates : List RemoteCandidate) (context : ScoringContext)
      (evidence : Dict CandidateEvidence)
      → IsRanking candidates context evidence (rank_candidates lower candidates context evidence)
  unfolding rank_candidates
  rank_candidates-IsRanking candidates context evidence =
      let score =
        λ (c : RemoteCandidate). score_candidate lower c context (evidence_for evidence c) in
      let eligible = is_eligible context evidence in
      (
        sort_by-IsSorted ranks_before ranks_before-IsTotal (map score (filter eligible candidates)),
        λ c i h.
            In-sort_by ranks_before (score c) _
              (In-map score c _ (In-filter eligible c candidates i h)),
        λ r i.
            let (c, j, e) = map-In score r _ (sort_by-In ranks_before r _ i) in
            let (k, h) = filter-In eligible c candidates j in (c, k, h, e),
      )
