-- ===== src/Conversation/Prompts.antt =====
-- src/vibe/conversation/prompts.py, and the questions of src/vibe/recommendation/questions.py. A `text` is a
-- `message` here, since a library has that name.
use local_skill_orchestrator.Prelude.{
  String, Bool, true, false, not, ◌&&◌, Option, some, List, [], ◌∷◌, ◌++◌, member, if◌then◌else◌,
  ◌==◌, string_Eq, Dict, lookup,
}
use local_skill_orchestrator.Repository.{FactValue, a_text}

pub record PromptTemplate : Type 0 where
  pub category : String
  pub message : String

abbrev pub question_order : List String
question_order =
    "project.goal" ∷ "project.type" ∷ "project.lifecycle" ∷ "risk.tolerance"
    ∷ "constraints.deadline" ∷ "constraints.compliance" ∷ "permissions.write_project"
    ∷ "permissions.execute_command" ∷ "permissions.network" ∷ "preferences.workflow"
    ∷ "preferences.testing" ∷ []

abbrev pub prompt : String → String → PromptTemplate
prompt category message = record { category = category; message = message }

abbrev pub prompts : Dict PromptTemplate
prompts =
    (
      "project.type",
      prompt "project"
          "What type of project is this: web application, backend API, CLI tool, open-source library, or AI application?",
    )
    ∷ ("project.lifecycle", prompt "lifecycle" "What lifecycle stage should this project target?")
    ∷ ("risk.tolerance", prompt "risk" "What level of implementation risk is acceptable?")
    ∷ (
      "constraints.deadline",
      prompt "constraints" "Is there a delivery deadline or time constraint?",
    )
    ∷ (
      "constraints.compliance",
      prompt "constraints" "Are there compliance or data-handling constraints?",
    )
    ∷ (
      "permissions.write_project",
      prompt "permissions" "May the project files be changed when you approve the plan?",
    )
    ∷ (
      "permissions.execute_command",
      prompt "permissions" "May local verification commands be executed?",
    )
    ∷ (
      "permissions.network",
      prompt "permissions" "May network access be used when local evidence is insufficient?",
    )
    ∷ ("preferences.workflow", prompt "preferences" "Do you have a preferred development workflow?")
    ∷ ("preferences.testing", prompt "preferences" "Do you have a preferred testing strategy?")
    ∷ []

abbrev pub goal_prompt : Bool → PromptTemplate
goal_prompt true = prompt "goal" "What would you like to create in this new project?"
goal_prompt false = prompt "goal" "What would you like to change in this existing project?"

pub record RecommendationQuestionContext : Type 0 where
  pub requirements : List String
  pub local_capabilities : List String
  pub repository_facts : Dict FactValue
  pub unknown_decisions : List String

pub record AdaptiveQuestion : Type 0 where
  pub question_id : String
  pub message : String
  pub impact : String

abbrev pub browser_question : AdaptiveQuestion
browser_question = record {
  question_id = "browser.interactive-debugging";
  message = "Do you need interactive browser debugging and control?";
  impact =
      "Yes adds interactive browser-control candidates; otherwise the existing runner remains preferred.";
}

abbrev pub memory_question : AdaptiveQuestion
memory_question = record {
  question_id = "memory.persistence";
  message = "Should project memory persist across work sessions?";
  impact = "Yes adds persistent candidates and requires choosing a storage boundary.";
}

-- fact == "exploration"
abbrev is_exploration : Option FactValue → Bool
is_exploration (some (a_text s)) = s == "exploration"
is_exploration _ = false

abbrev pub asks_browser : RecommendationQuestionContext → Bool
asks_browser c =
    member "browser.validation" c.requirements
    && member "cli.playwright" c.local_capabilities
    && member "browser.interactive-debugging" c.unknown_decisions

abbrev pub asks_memory : RecommendationQuestionContext → Bool
unfolding lookup
asks_memory c =
    member "project.continuity-memory" c.requirements
    && not (is_exploration (lookup "lifecycle_stage" c.repository_facts))
    && member "memory.persistence" c.unknown_decisions

-- `adaptive_questions`
unfoldable pub adaptive_questions : RecommendationQuestionContext → List AdaptiveQuestion
unfolding asks_memory
adaptive_questions c =
    (if asks_browser c then browser_question ∷ [] else [])
    ++ (if asks_memory c then memory_question ∷ [] else [])
