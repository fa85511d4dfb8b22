-- ===== src/Practices/Evaluator.antt =====
-- src/vibe/practices/evaluator.py: the packs that apply, and the requirements they merge to. The facts
-- of the project are an argument.
pub mod Conflicts
use local_skill_orchestrator.Prelude.{
  ℕ, String, Bool, true, false, not, ◌&&◌, ◌||◌, Option, none, some, is_some, List, [], ◌∷◌, ◌++◌,
  map, filter, flat_map, all, any, member, if◌then◌else◌, ◌==◌, string_Eq, Dict, lookup, insert,
  remove, keys, sort_by, str_leb, lex, on, leb,
}
use local_skill_orchestrator.Prelude.Results.{Result, ok, err, ◌>>=◌}
use local_skill_orchestrator.Practices.Packs.{
  Fact, RequirementStrength, required, recommended, optional, CapabilityRequirement,
  PracticeException, ConflictResolution, prefer_self, prefer_other, error, PackConflict,
  PracticePack, RequirementOverride, AbstractCapabilityRequirement,
}
use local_skill_orchestrator.Practices.Matcher.{matches}

-- `PracticeConflictError`, and the two `ValueError`s, of a repeated override and of `max` of nothing
pub data EvaluationError : Type 0 where
  conflict : String → String → String → EvaluationError
  duplicate_override : String → EvaluationError
  empty_maximum : EvaluationError

pub record Contribution : Type 0 where
  pub pack_id : String
  pub requirement_id : String
  pub capability : String
  pub strength : RequirementStrength
  pub rationale : String
  pub verification : List String

unfoldable pub strength_rank : RequirementStrength → ℕ
strength_rank optional = 0
strength_rank recommended = 1
strength_rank required = 2

-- {pack.pack_id: pack for pack in packs if matches(pack.match, facts)}
unfoldable pub applicable_packs :
    Dict Fact → List PracticePack → Dict PracticePack → Dict PracticePack
unfolding insert matches
applicable_packs facts [] found = found
applicable_packs facts (pack ∷ packs) found =
    applicable_packs facts packs
      (if matches pack.match_rule facts then insert pack.pack_id pack found else found)

pub record Directive : Type 0 where
  pub source : String
  pub target : String
  pub resolution : ConflictResolution
  pub rationale : String

abbrev directive : String → PackConflict → Directive
directive source c = record {
  source = source;
  target = c.pack_id;
  resolution = c.resolution;
  rationale = c.rationale;
}

abbrev conflicts_of : Option PracticePack → List PackConflict
conflicts_of none = []
conflicts_of (some pack) = pack.conflicts

abbrev pub has : String → Dict PracticePack → Bool
unfolding lookup
has id packs = is_some (lookup id packs)

unfoldable pub directives_of : Dict PracticePack → List Directive
unfolding lookup
directives_of applicable =
    flat_map
      (λ id. map (directive id) (
        filter (λ (c : PackConflict). has c.pack_id applicable)
          (conflicts_of (lookup id applicable))))
      (sort_by str_leb (keys applicable))

abbrev pub settle :
    Directive → ConflictResolution → Dict PracticePack → Result EvaluationError (Dict PracticePack)
unfolding remove
settle d error selected = err (conflict d.source d.target d.rationale)
settle d prefer_self selected = ok (remove d.target selected)
settle d prefer_other selected = ok (remove d.source selected)

-- One round of the second loop.
unfoldable pub apply_directive :
    Directive → Dict PracticePack → Result EvaluationError (Dict PracticePack)
unfolding lookup remove
apply_directive d selected =
    if not (has d.source selected) || not (has d.target selected)
    then ok selected
    else settle d d.resolution selected

unfoldable pub apply_directives :
    List Directive → Dict PracticePack → Result EvaluationError (Dict PracticePack)
unfolding apply_directive
apply_directives [] selected = ok selected
apply_directives (d ∷ ds) selected = apply_directive d selected >>= apply_directives ds

unfoldable pub apply_pack_conflicts : Dict PracticePack → Result EvaluationError (Dict PracticePack)
unfolding directives_of apply_directives
apply_pack_conflicts applicable = apply_directives (directives_of applicable) applicable
