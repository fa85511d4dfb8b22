-- ===== src/Practices/Merge.antt =====
-- src/vibe/practices/evaluator.py: `evaluate_practice_packs`, which merges the requirements of the
-- packs that are left after their conflicts.
pub mod Coverage
use local_skill_orchestrator.Prelude.{
  ℕ, String, Bool, true, false, not, ◌&&◌, ◌||◌, Option, none, some, is_some, List, [], ◌∷◌, ◌++◌,
  map, filter, flat_map, all, any, member, if◌then◌else◌, ◌==◌, string_Eq, Dict, lookup, insert,
  keys, sort_by, str_leb, lex, on, leb, ltb,
}
use local_skill_orchestrator.Prelude.Results.{Result, ok, err, ◌>>=◌}
use local_skill_orchestrator.Practices.Packs.{
  Fact, RequirementStrength, CapabilityRequirement, PracticeException, PracticePack,
  OverrideProvenance, RequirementOverride, AbstractCapabilityRequirement,
}
use local_skill_orchestrator.Practices.Matcher.{matches}
use local_skill_orchestrator.Practices.Evaluator.{
  EvaluationError, duplicate_override, empty_maximum, Contribution, strength_rank, applicable_packs,
  apply_pack_conflicts,
}

-- The suppressed requirements of a pack.
unfoldable pub suppressed : Dict Fact → PracticePack → List String
unfolding matches
suppressed facts pack =
    flat_map (λ (e : PracticeException). e.suppress_requirements)
      (filter (λ (e : PracticeException). matches e.when_rule facts) pack.exceptions)

abbrev contribution : PracticePack → CapabilityRequirement → Contribution
contribution pack r = record {
  pack_id = pack.pack_id;
  requirement_id = r.requirement_id;
  capability = r.capability;
  strength = r.strength;
  rationale = r.rationale;
  verification = r.verification;
}

-- What a pack contributes, in the order of its requirements.
unfoldable pub contributions_of : Dict Fact → PracticePack → List Contribution
unfolding suppressed
contributions_of facts pack = map (contribution pack) (
    filter (λ (r : CapabilityRequirement). not (member r.requirement_id (suppressed facts pack)))
      pack.requirements)

abbrev of_pack : Dict Fact → Option PracticePack → List Contribution
of_pack facts none = []
of_pack facts (some pack) = contributions_of facts pack

-- All contributions, in the order in which the loop appends them.
unfoldable pub all_contributions : Dict Fact → Dict PracticePack → List Contribution
unfolding lookup contributions_of
all_contributions facts selected =
    flat_map (λ id. of_pack facts (lookup id selected)) (sort_by str_leb (keys selected))

abbrev pub or_nothing : Option (List Contribution) → List Contribution
or_nothing none = []
or_nothing (some cs) = cs

-- contributions.setdefault(c.capability, []).append(c), for each
unfoldable pub grouped : List Contribution → Dict (List Contribution) → Dict (List Contribution)
unfolding lookup insert
grouped [] found = found
grouped (c ∷ cs) found =
    grouped cs (insert c.capability (or_nothing (lookup c.capability found) ++ (c ∷ [])) found)

unfoldable pub normalize_overrides :
    List RequirementOverride
    → Dict RequirementOverride
    → Result EvaluationError (Dict RequirementOverride)
unfolding lookup insert
normalize_overrides [] found = ok found
normalize_overrides (o ∷ os) found =
    let rest = normalize_overrides os (insert o.capability o found) in
    if is_some (lookup o.capability found) then err (duplicate_override o.capability) else rest

-- The strength of the first contribution with the highest rank.
unfoldable pub strongest : RequirementStrength → List Contribution → RequirementStrength
unfolding strength_rank
strongest s [] = s
strongest s (c ∷ cs) =
    strongest (if ltb (strength_rank s) (strength_rank c.strength) then c.strength else s) cs

abbrev default_strength : List Contribution → Result EvaluationError RequirementStrength
default_strength [] = err empty_maximum
default_strength (c ∷ cs) = ok (strongest c.strength cs)

abbrev pub override_strength :
    Option RequirementOverride → RequirementStrength → RequirementStrength
override_strength none s = s
override_strength (some o) s = or_default o.strength
  where
    or_default : Option RequirementStrength → RequirementStrength
    or_default none = s
    or_default (some t) = t

abbrev pub is_disabled : Option RequirementOverride → Bool
is_disabled none = false
is_disabled (some o) = not o.enabled

abbrev provenance_of : Option RequirementOverride → Option OverrideProvenance
provenance_of none = none
provenance_of (some o) = some o.provenance

abbrev pub ordered : List Contribution → List Contribution
ordered = sort_by (
    lex (on (λ (c : Contribution). c.pack_id) str_leb)
      (on (λ (c : Contribution). c.requirement_id) str_leb))

abbrev merged_of :
    String
    → List Contribution
    → Option RequirementOverride
    → RequirementStrength
    → AbstractCapabilityRequirement
merged_of capability cs override s = record {
  capability = capability;
  strength = override_strength override s;
  originating_packs = map (λ (c : Contribution). c.pack_id) cs;
  originating_requirements = map (λ (c : Contribution). c.requirement_id) cs;
  reasons = map (λ (c : Contribution). c.rationale) cs;
  verification = flat_map (λ (c : Contribution). c.verification) cs;
  overridden = is_some override;
  override_provenance = provenance_of override;
}

unfoldable pub merge_ordered :
    String
    → List Contribution
    → Option RequirementOverride
    → Result EvaluationError (Option AbstractCapabilityRequirement)
unfolding strongest
merge_ordered capability cs override =
    default_strength cs >>= λ s. ok (some (merged_of capability cs override s))

unfoldable pub merge_requirement :
    String
    → List Contribution
    → Option RequirementOverride
    → Result EvaluationError (Option AbstractCapabilityRequirement)
unfolding merge_ordered
merge_requirement capability cs override =
    if is_disabled override then ok none else merge_ordered capability (ordered cs) override

abbrev pub cons_some :
    Option AbstractCapabilityRequirement
    → List AbstractCapabilityRequirement
    → List AbstractCapabilityRequirement
cons_some none rs = rs
cons_some (some r) rs = r ∷ rs

-- The last loop, over the sorted capabilities.
unfoldable pub merge_all :
    Dict (List Contribution)
    → Dict RequirementOverride
    → List String
    → Result EvaluationError (List AbstractCapabilityRequirement)
unfolding lookup merge_requirement
merge_all found overrides [] = ok []
merge_all found overrides (capability ∷ capabilities) = do
  merged ←
      merge_requirement capability (or_nothing (lookup capability found))
        (lookup capability overrides)
  rest ← merge_all found overrides capabilities
  ok (cons_some merged rest)

unfoldable pub evaluate_practice_packs :
    List PracticePack
    → Dict Fact
    → List RequirementOverride
    → Result EvaluationError (List AbstractCapabilityRequirement)
unfolding applicable_packs apply_pack_conflicts all_contributions grouped normalize_overrides
    merge_all
evaluate_practice_packs packs facts overrides = do
  selected ← apply_pack_conflicts (applicable_packs facts packs [])
  override_map ← normalize_overrides overrides []
  let found = grouped (all_contributions facts selected) []
  merge_all found override_map (sort_by str_leb (keys found))
