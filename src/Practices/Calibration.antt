-- ===== src/Practices/Calibration.antt =====
-- src/vibe/practices/calibration.py: recommendations that tasks do not use are proposed for demotion, and the
-- user decides. The file with the decisions is an optional list; `suggestion_id` stands for the digest of a
-- capability with the rule and the two strengths, which are constants.
pub mod Decisions
mod Examples
use local_skill_orchestrator.Prelude.{
  ℕ, String, Bool, true, false, not, Option, none, some, List, [], ◌∷◌, flat_map, filter, map,
  member, length, dedup, sorted_set, sort_by, on, str_leb, if◌then◌else◌, leb, ◌==◌, string_Eq,
  string_Ord, Dict, insert, values,
}
use local_skill_orchestrator.Practices.Packs.{
  RequirementStrength, recommended, optional, OverrideProvenance, outcome_calibration,
  RequirementOverride,
}

pub record CalibrationOutcome : Type 0 where
  pub task_id : String
  pub unused_recommendations : List String

pub record CalibrationSuggestion : Type 0 where
  pub suggestion_id : String
  pub capability : String
  pub current_strength : RequirementStrength
  pub proposed_strength : RequirementStrength
  pub rule : String
  pub evidence : List String
  pub provenance : OverrideProvenance

pub data DecisionStatus : Type 0 where
  confirmed rejected : DecisionStatus

pub record CalibrationDecision : Type 0 where
  pub suggestion : CalibrationSuggestion
  pub status : DecisionStatus

-- `CalibrationState`, by its decisions; `none` is a file that is not there.
abbrev pub StateFile : Type 0
StateFile = Option (List CalibrationDecision)

-- `_load_state`
abbrev pub load_state : StateFile → List CalibrationDecision
load_state none = []
load_state (some decisions) = decisions

-- One use of a capability for each occurrence of it, with its task.
abbrev pub uses : List CalibrationOutcome → List (String × String)
uses outcomes = flat_map (λ o. map (λ c. (c, o.task_id)) o.unused_recommendations) outcomes

-- tuple(dict.fromkeys(unused[capability]))
unfoldable pub evidence_of : String → List CalibrationOutcome → List String
unfolding dedup
evidence_of capability outcomes =
    dedup (map (λ p. p.1) (filter (λ p. p.0 == capability) (uses outcomes)))

abbrev pub decided_ids : StateFile → List String
decided_ids state = map (λ d. d.suggestion.suggestion_id) (load_state state)

module _ (suggestion_id : String → String) where
  -- `_demotion`
  abbrev pub demotion : List CalibrationOutcome → String → CalibrationSuggestion
  unfolding evidence_of
  demotion outcomes capability = record {
    suggestion_id = suggestion_id capability;
    capability = capability;
    current_strength = recommended;
    proposed_strength = optional;
    rule = "unused-recommendation-at-least-3";
    evidence = evidence_of capability outcomes;
    provenance = outcome_calibration;
  }

  -- `pending_suggestions`
  unfoldable pub pending_suggestions :
      StateFile → List CalibrationOutcome → List CalibrationSuggestion
  unfolding evidence_of sorted_set demotion
  pending_suggestions state outcomes =
      filter (λ s. not (member s.suggestion_id (decided_ids state)))
        (map (demotion outcomes) (
          filter (λ c. leb 3 (length (evidence_of c outcomes)))
            (sorted_set (map (λ p. p.0) (uses outcomes)))))

abbrev pub by_id : List CalibrationDecision → Dict CalibrationDecision → Dict CalibrationDecision
unfolding insert
by_id [] d = d
by_id (x ∷ xs) d = by_id xs (insert x.suggestion.suggestion_id x d)

-- `_record_decision`
unfoldable pub record_decision : CalibrationSuggestion → DecisionStatus → StateFile → StateFile
unfolding by_id insert sort_by
record_decision suggestion status state = some (
    values (
      sort_by (on (λ p. p.0) str_leb) (
        insert suggestion.suggestion_id (record { suggestion = suggestion; status = status })
          (by_id (load_state state) []))))

-- `confirm_suggestion` and `reject_suggestion`
abbrev pub confirm_suggestion : CalibrationSuggestion → StateFile → StateFile
unfolding record_decision
confirm_suggestion suggestion = record_decision suggestion confirmed

abbrev pub reject_suggestion : CalibrationSuggestion → StateFile → StateFile
unfolding record_decision
reject_suggestion suggestion = record_decision suggestion rejected

abbrev is_confirmed : DecisionStatus → Bool
is_confirmed confirmed = true
is_confirmed rejected = false

abbrev override_of : CalibrationDecision → RequirementOverride
override_of d = record {
  capability = d.suggestion.capability;
  enabled = true;
  strength = some d.suggestion.proposed_strength;
  provenance = outcome_calibration;
}

-- `load_confirmed_overrides`
unfoldable pub load_confirmed_overrides : StateFile → List RequirementOverride
unfolding sort_by
load_confirmed_overrides state =
    sort_by (on (λ o. o.capability) str_leb)
      (map override_of (filter (λ d. is_confirmed d.status) (load_state state)))
