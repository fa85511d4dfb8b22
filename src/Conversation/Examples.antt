-- ===== src/Conversation/Examples.antt =====
-- An interview about a small repository.
use local_skill_orchestrator.Prelude.{String, ◌≡◌, refl, true, false, none, some, [], ◌∷◌}
use local_skill_orchestrator.Prelude.Results.{ok, err}
use local_skill_orchestrator.Repository.{
  RepositoryFact, RepositorySnapshot, a_text, confirmed, inferred, conflict, FactConfidence,
}
use local_skill_orchestrator.Conversation.Prompts.{
  RecommendationQuestionContext, adaptive_questions, browser_question,
}
use local_skill_orchestrator.Conversation.Interview.{
  InterviewInput, InterviewResult, duplicate_ids, build_interview,
}
use local_skill_orchestrator.Conversation.Interview.Asked.{IsInterview, build_interview-IsInterview}
use local_skill_orchestrator.Conversation.Interview.Total.{is_ok, build_interview-ok}

abbrev fact : String → String → FactConfidence → RepositoryFact
fact key value confidence = record {
  key = key;
  value = a_text value;
  confidence = confidence;
  sources = "pyproject.toml" ∷ [];
}

abbrev repository : RepositorySnapshot
repository = record {
  is_empty = false;
  head = none;
  facts =
      fact "project_type" "CLI tool" inferred
      ∷ fact "risk.tolerance" "low" conflict
      ∷ fact "project.goal" "tests" confirmed
      ∷ [];
  source_digest = "01234567";
}

abbrev debugging : RecommendationQuestionContext
debugging = record {
  requirements = "browser.validation" ∷ [];
  local_capabilities = "cli.playwright" ∷ [];
  repository_facts = [];
  unknown_decisions = "browser.interactive-debugging" ∷ [];
}

abbrev input : InterviewInput
input = record {
  repository = repository;
  unknowns = "risk.tolerance" ∷ "project.goal" ∷ "project.type" ∷ [];
  conflicts = [];
  preferences = [];
  adaptive_questions = browser_question ∷ [];
}

abbrev interview : InterviewResult
interview = record {
  questions =
      record {
        question_id = "project.type";
        category = "project";
        message =
            "What type of project is this: web application, backend API, CLI tool, open-source library, or AI application?";
        requires_explicit_confirmation = false;
        recommended_default = some "CLI tool";
        recommendation_reason =
            some "Repository evidence from pyproject.toml supports this default.";
        impact = none;
      }
      ∷ record {
        question_id = "risk.tolerance";
        category = "risk";
        message =
            "Conflicting high-risk information was found. Please confirm: What level of implementation risk is acceptable?";
        requires_explicit_confirmation = true;
        recommended_default = none;
        recommendation_reason = none;
        impact = none;
      }
      ∷ record {
        question_id = "browser.interactive-debugging";
        category = "recommendation";
        message = "Do you need interactive browser debugging and control?";
        requires_explicit_confirmation = false;
        recommended_default = none;
        recommendation_reason = none;
        impact =
            some
              "Yes adds interactive browser-control candidates; otherwise the existing runner remains preferred.";
      }
      ∷ [];
  confirmed_fact_keys = "project.goal" ∷ [];
  unresolved_keys = "project.type" ∷ "risk.tolerance" ∷ "browser.interactive-debugging" ∷ [];
}

built : build_interview input ≡ ok interview
unfolding build_interview
built = refl

repetition_refused :
    build_interview (record input { adaptive_questions = browser_question ∷ browser_question ∷ [] })
    ≡ err (duplicate_ids ("browser.interactive-debugging" ∷ []))
unfolding build_interview
repetition_refused = refl

build_interview-IsInterview_example : IsInterview input interview
build_interview-IsInterview_example = build_interview-IsInterview input interview built

build_interview-ok_example :
    is_ok (build_interview (record input { adaptive_questions = adaptive_questions debugging }))
    ≡ true
build_interview-ok_example = build_interview-ok input debugging
