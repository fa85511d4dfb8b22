-- ===== src/Practices/Examples.antt =====
-- Concrete packs, at which the theorems of the practice packs are applied.
use local_skill_orchestrator.Prelude.{flat_map}
use local_skill_orchestrator.Prelude.{
  ℕ, String, ◌≡◌, refl, ◌⊎◌, inl, inr, Bool, true, false, Option, none, some, List, [], ◌∷◌, In,
  Dict, lookup,
}
use local_skill_orchestrator.Practices.Packs.{
  Fact, text_fact, equals, a_text, MatchRule, RequirementStrength, required, recommended,
  CapabilityRequirement, prefer_self, PackConflict, PracticePack, AbstractCapabilityRequirement,
}
use local_skill_orchestrator.Practices.Evaluator.{Contribution, has, apply_pack_conflicts}
use local_skill_orchestrator.Practices.Evaluator.Conflicts.{apply_pack_conflicts-settled}
use local_skill_orchestrator.Practices.Merge.{is_disabled, evaluate_practice_packs}
use local_skill_orchestrator.Practices.Merge.Coverage.{Covers, evaluate-Covers}

abbrev in_production : MatchRule
in_production = record {
  all_of =
      record { field_name = "lifecycle_stage"; operator = equals; value = a_text "production" }
      ∷ [];
  any_of = [];
  none_of = [];
}

abbrev tests_wanted : RequirementStrength → CapabilityRequirement
tests_wanted s = record {
  requirement_id = "tests";
  capability = "testing";
  strength = s;
  rationale = "regressions";
  verification = "run them" ∷ [];
}

abbrev pack : String → RequirementStrength → List PackConflict → PracticePack
pack id s conflicts = record {
  pack_id = id;
  name = id;
  description = id;
  priority = 0;
  match_rule = in_production;
  requirements = tests_wanted s ∷ [];
  exceptions = [];
  conflicts = conflicts;
}

abbrev strict : PracticePack
strict =
    pack "strict" required
      (record { pack_id = "loose"; resolution = prefer_self; rationale = "stricter" } ∷ [])

abbrev loose : PracticePack
loose = pack "loose" recommended []

abbrev common : PracticePack
common = pack "common" recommended []

abbrev packs_given : List PracticePack
packs_given = loose ∷ strict ∷ common ∷ []

abbrev facts_given : Dict Fact
facts_given = ("lifecycle_stage", text_fact "production") ∷ []

abbrev given : Dict PracticePack
given = ("loose", loose) ∷ ("strict", strict) ∷ ("common", common) ∷ []

abbrev remaining : Dict PracticePack
remaining = ("strict", strict) ∷ ("common", common) ∷ []

apply_pack_conflicts-settled_example :
    (lookup "strict" given ≡ some strict)
    × ((c : PackConflict) → In c strict.conflicts → has c.pack_id remaining ≡ false)
unfolding apply_pack_conflicts local_skill_orchestrator.Prelude.sort_by
apply_pack_conflicts-settled_example =
    apply_pack_conflicts-settled given remaining "strict" strict refl refl

abbrev asked : Contribution
asked = record {
  pack_id = "common";
  requirement_id = "tests";
  capability = "testing";
  strength = recommended;
  rationale = "regressions";
  verification = "run them" ∷ [];
}

abbrev merged : AbstractCapabilityRequirement
merged = record {
  capability = "testing";
  strength = required;
  originating_packs = "common" ∷ "strict" ∷ [];
  originating_requirements = "tests" ∷ "tests" ∷ [];
  reasons = "regressions" ∷ "regressions" ∷ [];
  verification = "run them" ∷ "run them" ∷ [];
  overridden = false;
  override_provenance = none;
}

evaluate-Covers_example :
    (is_disabled (lookup "testing" []) ≡ true)
    ⊎ ((r : AbstractCapabilityRequirement) × In r (merged ∷ [])
        × Covers (lookup "testing" []) asked r)
unfolding evaluate_practice_packs local_skill_orchestrator.Prelude.sort_by
evaluate-Covers_example =
    evaluate-Covers packs_given facts_given [] remaining [] (merged ∷ []) asked refl refl refl
      (inl refl)
