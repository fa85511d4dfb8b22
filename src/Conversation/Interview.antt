-- ===== src/Conversation/Interview.antt =====
-- `build_interview` of src/vibe/conversation/interview.py.
pub mod Asked
pub mod Total
use text.Mathlib.Text.{starts_with}
use local_skill_orchestrator.Prelude.{
  ℕ, String, str_append, join, Bool, true, false, not, ◌&&◌, ◌||◌, Option, none, some, List, [],
  ◌∷◌, ◌++◌, map, filter, any, member, length, is_distinct, sorted_set, if◌then◌else◌, leb, ◌==◌,
  string_Eq, string_Ord, Dict, lookup, keys,
}
use local_skill_orchestrator.Prelude.Results.{Result, ok, err, ◌>>=◌, ◌>>◌, require, map_result}
use local_skill_orchestrator.Repository.{
  FactConfidence, confirmed, inferred, conflict, FactValue, a_text, RepositoryFact,
  RepositorySnapshot,
}
use local_skill_orchestrator.Conversation.Prompts.{
  PromptTemplate, question_order, prompts, goal_prompt, AdaptiveQuestion,
}

-- Missing preferences are the empty dictionary; the inventory's summary is not read.
pub record InterviewInput : Type 0 where
  pub repository : RepositorySnapshot
  pub unknowns : List String
  pub conflicts : List String
  pub preferences : Dict String
  pub adaptive_questions : List AdaptiveQuestion

pub record InterviewQuestion : Type 0 where
  pub question_id : String
  pub category : String
  pub message : String
  pub requires_explicit_confirmation : Bool
  pub recommended_default : Option String
  pub recommendation_reason : Option String
  pub impact : Option String

pub record InterviewResult : Type 0 where
  pub questions : List InterviewQuestion
  pub confirmed_fact_keys : List String
  pub unresolved_keys : List String

pub data InterviewError : Type 0 where
  unknown_prompt : String → InterviewError
  duplicate_ids : List String → InterviewError

abbrev is_confirmed : RepositoryFact → Bool
is_confirmed f = elim f.confidence [ confirmed ↦ true | _ ↦ false ]

abbrev is_conflict : RepositoryFact → Bool
is_conflict f = elim f.confidence [ conflict ↦ true | _ ↦ false ]

abbrev pub confirmed_of : InterviewInput → List String
confirmed_of i = map (λ f. f.key) (filter is_confirmed i.repository.facts) ++ keys i.preferences

abbrev renamed : String → String
renamed key = if key == "project_type" then "project.type" else key

abbrev pub conflicts_of : InterviewInput → List String
conflicts_of i =
    i.conflicts
    ++ ((if member "project_type" i.conflicts then "project.type" ∷ [] else [])
        ++ map (λ f. renamed f.key) (filter is_conflict i.repository.facts))

-- key in unresolved
unfoldable pub is_unresolved : InterviewInput → String → Bool
is_unresolved i key =
    member key (i.unknowns ++ conflicts_of i) && not (member key (confirmed_of i))
    || i.repository.is_empty && (key == "project.type")

abbrev or_unknown : String → Option PromptTemplate → Result InterviewError PromptTemplate
or_unknown id none = err (unknown_prompt id)
or_unknown id (some t) = ok t

-- `_template`
abbrev pub template : String → Bool → Result InterviewError PromptTemplate
unfolding lookup
template id empty =
    if id == "project.goal" then ok (goal_prompt empty) else or_unknown id (lookup id prompts)

abbrev pub is_high_risk : String → Bool
is_high_risk id =
    any (λ p. starts_with id p) ("risk." ∷ "permissions." ∷ "constraints.compliance" ∷ [])

abbrev evidence : List String → String
unfolding join
evidence [] = "repository inspection"
evidence (s ∷ ss) = join ", " (s ∷ ss)

abbrev is_named : String → RepositoryFact → Bool
is_named id f = (f.key == id) || ((id == "project.type") && (f.key == "project_type"))

abbrev inferred_text : RepositoryFact → Option String
inferred_text f = elim f.confidence [
  | inferred ↦ elim f.value [ a_text s ↦ some s | _ ↦ none ]
  | _ ↦ none
]

abbrev default_from :
    RepositoryFact → Option String → Option (String × String) → Option (String × String)
unfolding join
default_from f (some s) rest = some (
  s,
  str_append "Repository evidence from "
      (str_append (evidence f.sources) " supports this default."),
)
default_from f none rest = rest

-- `_recommended_default`, with its reason
unfoldable pub recommended_default : List RepositoryFact → String → Option (String × String)
unfolding join default_from
recommended_default [] id = none
recommended_default (f ∷ fs) id =
    let rest = recommended_default fs id in
    if is_named id f then default_from f (inferred_text f) rest else rest

abbrev first : Option (String × String) → Option String
first none = none
first (some (a, b)) = some a

abbrev second : Option (String × String) → Option String
second none = none
second (some (a, b)) = some b

abbrev question_from : InterviewInput → String → PromptTemplate → InterviewQuestion
unfolding recommended_default
question_from i id t =
    let explicit = member id (conflicts_of i) && is_high_risk id in
    record {
      question_id = id;
      category = t.category;
      message =
          if explicit
          then str_append "Conflicting high-risk information was found. Please confirm: " t.message
          else t.message;
      requires_explicit_confirmation = explicit;
      recommended_default = first (recommended_default i.repository.facts id);
      recommendation_reason = second (recommended_default i.repository.facts id);
      impact = none;
    }

-- The question of an identifier of the order
unfoldable pub question : InterviewInput → String → Result InterviewError InterviewQuestion
unfolding template question_from
question i id = template id i.repository.is_empty >>= λ t. ok (question_from i id t)

abbrev adaptive : AdaptiveQuestion → InterviewQuestion
adaptive q = record {
  question_id = q.question_id;
  category = "recommendation";
  message = q.message;
  requires_explicit_confirmation = false;
  recommended_default = none;
  recommendation_reason = none;
  impact = some q.impact;
}

abbrev ids_of : List InterviewQuestion → List String
ids_of questions = map (λ q. q.question_id) questions

-- The identifiers that are counted more than once
abbrev repeated : List String → List String
unfolding sorted_set
repeated ids = sorted_set (filter (λ id. leb 2 (length (filter (λ j. j == id) ids))) ids)

abbrev finished : InterviewInput → List InterviewQuestion → Result InterviewError InterviewResult
unfolding is_distinct sorted_set repeated
finished i questions = do
  require (is_distinct (ids_of questions)) (duplicate_ids (repeated (ids_of questions)))
  ok (record {
    questions = questions;
    confirmed_fact_keys = sorted_set (confirmed_of i);
    unresolved_keys = ids_of questions;
  })

-- `build_interview`
unfoldable pub build_interview : InterviewInput → Result InterviewError InterviewResult
unfolding is_unresolved question finished
build_interview i = map_result (question i) (filter (is_unresolved i) question_order) >>= λ asked.
    finished i (asked ++ map adaptive i.adaptive_questions)
