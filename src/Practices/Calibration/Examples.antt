-- ===== src/Practices/Calibration/Examples.antt =====
-- Suggestions of a small project, and decisions on them.
use local_skill_orchestrator.Prelude.{
  string_Eq, ◌≤◌, String, ◌≡◌, ◌≢◌, refl, true, none, List, [], ◌∷◌, All, inl, length, is_distinct,
}
use local_skill_orchestrator.Practices.Calibration.{
  CalibrationOutcome, CalibrationSuggestion, DecisionStatus, rejected, demotion,
  pending_suggestions, record_decision,
}
use local_skill_orchestrator.Practices.Calibration.Decisions.{
  decide_all, pending-decided, IsUnusedIn, pending-IsUnusedIn,
}

abbrev same_id : String → String
same_id s = s

abbrev outcome : String → List String → CalibrationOutcome
outcome task unused = record { task_id = task; unused_recommendations = unused }

abbrev outcomes : List CalibrationOutcome
outcomes =
    outcome "t1" ("browser" ∷ "lint" ∷ [])
    ∷ outcome "t2" ("lint" ∷ "browser" ∷ [])
    ∷ outcome "t2" ("browser" ∷ [])
    ∷ outcome "t3" ("lint" ∷ [])
    ∷ []

abbrev lint : CalibrationSuggestion
lint = demotion same_id outcomes "lint"

abbrev browser : CalibrationSuggestion
browser = demotion same_id outcomes "browser"

-- "browser" was not used in two tasks only.
lint_proposed : pending_suggestions same_id none outcomes ≡ lint ∷ []
unfolding pending_suggestions
lint_proposed = refl

rejection_kept : pending_suggestions same_id (record_decision lint rejected none) outcomes ≡ []
unfolding pending_suggestions record_decision
rejection_kept = refl

pending-decided_example :
    All
      (λ (d : CalibrationSuggestion × DecisionStatus). d.0.suggestion_id ≢ "lint")
      ((browser, rejected) ∷ [])
unfolding pending_suggestions decide_all record_decision
pending-decided_example =
    pending-decided same_id ((browser, rejected) ∷ []) none outcomes lint (inl refl)

pending-IsUnusedIn_example :
    (3 ≤ length lint.evidence)
    × (is_distinct lint.evidence ≡ true)
    × All (IsUnusedIn outcomes "lint") lint.evidence
unfolding pending_suggestions
pending-IsUnusedIn_example = pending-IsUnusedIn same_id none outcomes lint (inl refl)
