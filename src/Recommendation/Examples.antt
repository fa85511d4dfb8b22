-- ===== src/Recommendation/Examples.antt =====
-- Reviews of installations.
use local_skill_orchestrator.Prelude.{String, ◌≡◌, refl, true, [], ◌∷◌, Dict}
use local_skill_orchestrator.Recommendation.Readiness.{
  evaluate_review_readiness, may_review, evaluate-may_review, request_candidate_decision,
}

abbrev found_browser : Dict String
found_browser = ("browser", "candidates-found") ∷ []

undecided :
    (evaluate_review_readiness [] ("browser" ∷ []) found_browser [] []).next_action
    ≡ request_candidate_decision
unfolding evaluate_review_readiness
undecided = refl

defaulted :
    (evaluate_review_readiness ("browser" ∷ []) [] found_browser (("*", "defer") ∷ []) []).ready
    ≡ true
unfolding evaluate_review_readiness
defaulted = refl

evaluate-may_review_example :
    (evaluate_review_readiness
      ("browser" ∷ [])
      []
      found_browser
      (("browser", "accept") ∷ [])
      ("network" ∷ [])).ready
    ≡ may_review ("browser" ∷ []) [] found_browser (("browser", "accept") ∷ []) ("network" ∷ [])
evaluate-may_review_example =
    evaluate-may_review ("browser" ∷ []) [] found_browser (("browser", "accept") ∷ [])
      ("network" ∷ [])
