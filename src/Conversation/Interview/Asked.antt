-- ===== src/Conversation/Interview/Asked.antt =====
-- Which questions an interview asks, and that it can be built.
use local_skill_orchestrator.Prelude.{
  String, ◌≡◌, refl, sym, ap, ap₂, subst, ◌∙◌, ◌⊎◌, inl, inr, true, List, [], ◌∷◌, ◌++◌, map,
  filter, member, In, In→member, filter-In, append-In, is_distinct, ◌==◌, string_Eq, ==→eq, arith,
}
use local_skill_orchestrator.Prelude.Results.{ok, map_result, bind-ok, ok_inj, require-ok}
use local_skill_orchestrator.Conversation.Prompts.{question_order, AdaptiveQuestion}
use local_skill_orchestrator.Conversation.Interview.{
  InterviewInput, InterviewQuestion, InterviewResult, confirmed_of, is_unresolved, template,
  question, adaptive, ids_of, build_interview, repeated, duplicate_ids,
}

abbrev pub adaptive_ids : InterviewInput → List String
adaptive_ids i = map (λ q. q.question_id) i.adaptive_questions

question-id :
    (i : InterviewInput) (id : String) (q : InterviewQuestion)
    → question i id ≡ ok q
    → q.question_id ≡ id
unfolding question
question-id i id q h =
    let (t, found, made) = bind-ok (template id i.repository.is_empty) _ h in
    sym (ap (λ x. x.question_id) (ok_inj made))

pub asked-ids :
    (i : InterviewInput) (ids : List String) (qs : List InterviewQuestion)
    → map_result (question i) ids ≡ ok qs
    → ids_of qs ≡ ids
asked-ids i [] qs h = ap ids_of (sym (ok_inj h))
asked-ids i (id ∷ ids) qs h =
    let (q, made, h1) = bind-ok (question i id) _ h in
    let (rest, more, h2) = bind-ok (map_result (question i) ids) _ h1 in
    ap ids_of (sym (ok_inj h2)) ∙ ap₂ ◌∷◌ (question-id i id q made) (asked-ids i ids rest more)

pub ids_of-append :
    (i : InterviewInput) (qs : List InterviewQuestion)
    → ids_of (qs ++ map adaptive i.adaptive_questions) ≡ ids_of qs ++ adaptive_ids i
ids_of-append i [] = ids_of-adaptive i.adaptive_questions
  where
    ids_of-adaptive :
        (qs : List AdaptiveQuestion) → ids_of (map adaptive qs) ≡ map (λ q. q.question_id) qs
    ids_of-adaptive [] = refl
    ids_of-adaptive (q ∷ qs) = ap (λ xs. q.question_id ∷ xs) (ids_of-adaptive qs)
ids_of-append i (q ∷ qs) = ap (λ xs. q.question_id ∷ xs) (ids_of-append i qs)

-- What an interview asks for: the open questions of the order, in the order, and then the adaptive ones, none
-- of them twice; what is confirmed is asked again only by an adaptive question, or as the type of an empty project.
abbrev pub IsInterview : InterviewInput → InterviewResult → Type 0
IsInterview i r =
    (ids_of r.questions ≡ r.unresolved_keys)
    × (r.unresolved_keys ≡ filter (is_unresolved i) question_order ++ adaptive_ids i)
    × (is_distinct r.unresolved_keys ≡ true)
    × ((id : String)
        → In id r.unresolved_keys
        → In id (confirmed_of i)
        → In id (adaptive_ids i) ⊎ ((id ≡ "project.type") × (i.repository.is_empty ≡ true)))

unresolved-confirmed :
    (i : InterviewInput) (id : String)
    → is_unresolved i id ≡ true
    → In id (confirmed_of i)
    → (id ≡ "project.type") × (i.repository.is_empty ≡ true)
unfolding is_unresolved
unresolved-confirmed i id h c =
    let seen : member id (confirmed_of i) ≡ true = In→member id (confirmed_of i) c in
    let (empty, same) : (i.repository.is_empty ≡ true) × ((id == "project.type") ≡ true) =
      ground (arith, h, seen) in
    (==→eq id "project.type" same, empty)

-- An interview that is built asks exactly what is open.
pub build_interview-IsInterview :
    (i : InterviewInput) (r : InterviewResult) → build_interview i ≡ ok r → IsInterview i r
unfolding build_interview
build_interview-IsInterview i r h =
    let (asked, made, h1) =
      bind-ok (map_result (question i) (filter (is_unresolved i) question_order)) _ h in
    let all_questions = asked ++ map adaptive i.adaptive_questions in
    let (distinct, h2) =
      require-ok (is_distinct (ids_of all_questions))
        (duplicate_ids (repeated (ids_of all_questions))) _ h1 in
    let ids : ids_of all_questions ≡ filter (is_unresolved i) question_order ++ adaptive_ids i =
      ids_of-append i asked
      ∙ ap (λ xs. xs ++ adaptive_ids i)
          (asked-ids i (filter (is_unresolved i) question_order) asked made) in
    subst (IsInterview i) (ok_inj h2) (
      refl,
      ids,
      distinct,
      λ id l c.
          elim (append-In id (filter (is_unresolved i) question_order) (adaptive_ids i)
            (subst (In id) ids l)) [
              | inr m ↦ inl m
              | inl m ↦
                  inr (
                    unresolved-confirmed i id (filter-In (is_unresolved i) id question_order m).1 c)
            ],
    )
