-- ===== src/Recommendation/Readiness.antt =====
-- src/vibe/recommendation/readiness.py: whether an installation can be reviewed.
use local_skill_orchestrator.Prelude.{
  String, ◌≡◌, refl, Bool, false, not, ◌&&◌, ◌||◌, Option, none, some, List, [], ◌∷◌, ◌++◌, filter,
  all, is_nonempty, dedup, if◌then◌else◌, ◌==◌, string_Eq, Dict, lookup, arith,
}

pub data NextAction : Type 0 where
  request_discovery_decision request_candidate_decision review_installation
        request_permission_decision :
      NextAction

pub record ReviewReadiness : Type 0 where
  pub ready : Bool
  pub next_action : NextAction
  pub blocking_requirements : List String
  pub unknown_permissions : List String

abbrev or_default : Option String → Option String → Option String
or_default none b = b
or_default (some d) b = some d

-- `decision_for`
unfoldable pub decision_for : Dict String → String → Option String
unfolding lookup
decision_for decisions requirement =
    or_default (lookup requirement decisions) (lookup "*" decisions)

-- a decision in {"accept", "reject", "defer"}
abbrev pub is_decided : Option String → Bool
is_decided none = false
is_decided (some d) = (d == "accept") || (d == "reject") || (d == "defer")

-- a decision in {"reject", "defer"}
abbrev pub is_declined : Option String → Bool
is_declined none = false
is_declined (some d) = (d == "reject") || (d == "defer")

abbrev pub has_status : String → Option String → Bool
has_status status none = false
has_status status (some s) = s == status

-- The tests of the three comprehensions
abbrev lacks_decision : Dict String → String → Bool
unfolding decision_for
lacks_decision decisions r = not (is_decided (decision_for decisions r))

abbrev lacks_discovery : Dict String → Dict String → String → Bool
unfolding decision_for lookup
lacks_discovery discovery decisions r =
    has_status "not-requested" (lookup r discovery) && not (is_declined (decision_for decisions r))

abbrev lacks_choice : Dict String → Dict String → String → Bool
unfolding decision_for lookup
lacks_choice discovery decisions r =
    has_status "candidates-found" (lookup r discovery)
    && not (is_decided (decision_for decisions r))

-- `evaluate_review_readiness`
unfoldable pub evaluate_review_readiness :
    List String → List String → Dict String → Dict String → List String → ReviewReadiness
unfolding decision_for lookup dedup lacks_decision lacks_discovery lacks_choice
evaluate_review_readiness required recommended discovery decisions unknown =
    let unresolved_required = filter (lacks_decision decisions) required in
    let not_requested = filter (lacks_discovery discovery decisions) (required ++ recommended) in
    let blocking = dedup (unresolved_required ++ not_requested) in
    let unresolved_candidates =
      filter (lacks_choice discovery decisions) (required ++ recommended) in
    if is_nonempty blocking
    then record {
      ready = false;
      next_action = request_discovery_decision;
      blocking_requirements = blocking;
      unknown_permissions = unknown;
    }
    else if is_nonempty unresolved_candidates
    then record {
      ready = false;
      next_action = request_candidate_decision;
      blocking_requirements = dedup unresolved_candidates;
      unknown_permissions = unknown;
    }
    else record {
      ready = not (is_nonempty unknown);
      next_action =
          if is_nonempty unknown then request_permission_decision else review_installation;
      blocking_requirements = [];
      unknown_permissions = unknown;
    }

is_nonempty-dedup : (xs : List String) → is_nonempty (dedup xs) ≡ is_nonempty xs
unfolding dedup
is_nonempty-dedup [] = refl
is_nonempty-dedup (x ∷ xs) = refl

is_nonempty-append :
    (xs ys : List String) → is_nonempty (xs ++ ys) ≡ (is_nonempty xs || is_nonempty ys)
is_nonempty-append [] ys = refl
is_nonempty-append (x ∷ xs) ys = refl

is_nonempty-filter :
    (p q : String → Bool) (xs : List String)
    → ((x : String) → p x ≡ not (q x))
    → is_nonempty (filter p xs) ≡ not (all q xs)
is_nonempty-filter p q [] h = refl
is_nonempty-filter p q (x ∷ xs) h = ground (arith, h x, is_nonempty-filter p q xs h)

abbrev pub is_asked : Dict String → Dict String → String → Bool
unfolding decision_for lookup
is_asked discovery decisions r =
    not (has_status "not-requested" (lookup r discovery)) || is_declined (decision_for decisions r)

abbrev pub is_chosen : Dict String → Dict String → String → Bool
unfolding decision_for lookup
is_chosen discovery decisions r =
    not (has_status "candidates-found" (lookup r discovery))
    || is_decided (decision_for decisions r)

-- What a review waits for: every required gap has a decision, every gap that discovery was not asked for is
-- declined, every gap with candidates has a decision, and every permission is known.
unfoldable pub may_review :
    List String → List String → Dict String → Dict String → List String → Bool
unfolding decision_for is_asked is_chosen
may_review required recommended discovery decisions unknown =
    all (λ r. is_decided (decision_for decisions r)) required
    && all (is_asked discovery decisions) (required ++ recommended)
    && all (is_chosen discovery decisions) (required ++ recommended)
    && not (is_nonempty unknown)

-- An installation is ready for review exactly when nothing that a review waits for is missing.
pub evaluate-may_review :
    (required recommended : List String) (discovery decisions : Dict String) (unknown : List String)
    → (evaluate_review_readiness required recommended discovery decisions unknown).ready
      ≡ may_review required recommended discovery decisions unknown
unfolding evaluate_review_readiness may_review lacks_decision lacks_discovery lacks_choice is_asked
    is_chosen
evaluate-may_review required recommended discovery decisions unknown =
    let missing = filter (lacks_decision decisions) required in
    let unasked = filter (lacks_discovery discovery decisions) (required ++ recommended) in
    ground (
      arith,
      is_nonempty-dedup (missing ++ unasked),
      is_nonempty-append missing unasked,
      is_nonempty-filter (lacks_decision decisions) (λ r. is_decided (decision_for decisions r))
          required (λ r. refl),
      is_nonempty-filter (lacks_discovery discovery decisions) (is_asked discovery decisions)
          (required ++ recommended) (λ r. ground (arith)),
      is_nonempty-filter (lacks_choice discovery decisions) (is_chosen discovery decisions)
          (required ++ recommended) (λ r. ground (arith)),
    )
