-- ===== src/Conversation/Interview/Total.antt =====
-- The adaptive questions never clash with those of the order, so an interview can always be built.
use local_skill_orchestrator.Prelude.{
  String, ◌≡◌, refl, sym, ap, subst, ◌∙◌, inl, inr, Bool, true, false, not, List, [], ◌∷◌, ◌++◌,
  map, filter, member, all, all-In, In, In→member, member→In, filter-In, append-In, is_distinct,
  filter-is_distinct, string_Eq, arith, Bool-cases, and-eq_true,
}
use local_skill_orchestrator.Prelude.Results.{Result, ok, err, map_result, Result-cases}
use local_skill_orchestrator.Conversation.Prompts.{
  question_order, RecommendationQuestionContext, adaptive_questions, asks_browser, asks_memory,
}
use local_skill_orchestrator.Conversation.Interview.{
  InterviewInput, InterviewError, is_unresolved, template, question, adaptive, ids_of,
  build_interview,
}
use local_skill_orchestrator.Conversation.Interview.Asked.{asked-ids, ids_of-append, adaptive_ids}

abbrev pub is_ok : {A : Type 0} → Result InterviewError A → Bool
is_ok (ok a) = true
is_ok (err e) = false

template-total : (empty : Bool) → all (λ id. is_ok (template id empty)) question_order ≡ true
unfolding template
template-total true = refl
template-total false = refl

question-total :
    (i : InterviewInput) (id : String) → In id question_order → is_ok (question i id) ≡ true
unfolding question
question-total i id h =
    let known : is_ok (template id i.repository.is_empty) ≡ true =
      all-In (λ x. is_ok (template x i.repository.is_empty)) id question_order
        (template-total i.repository.is_empty) h in
    ground (arith, known)

map_result-total :
    (i : InterviewInput) (ids : List String)
    → ((id : String) → In id ids → is_ok (question i id) ≡ true)
    → is_ok (map_result (question i) ids) ≡ true
map_result-total i [] h = refl
map_result-total i (id ∷ ids) h =
    ground (arith, h id (inl refl), map_result-total i ids (λ x l. h x (inr l)))

is_distinct-append :
    (xs ys : List String)
    → is_distinct xs ≡ true
    → is_distinct ys ≡ true
    → ((x : String) → In x xs → member x ys ≡ false)
    → is_distinct (xs ++ ys) ≡ true
unfolding is_distinct
is_distinct-append [] ys h k apart = k
is_distinct-append (x ∷ xs) ys h k apart =
    let (alone, rest) = and-eq_true (not (member x xs)) (is_distinct xs) h in
    elim (Bool-cases (member x (xs ++ ys))) [
      | inr free ↦ rw (free, is_distinct-append xs ys rest k (λ z i. apart z (inr i))) refl
      | inl seen ↦ elim (append-In x xs ys (member→In x (xs ++ ys) seen)) [
        | inl i ↦ absurd (clash (member x xs) (In→member x xs i) alone)
        | inr i ↦ absurd (differ (member x ys) (In→member x ys i) (apart x (inl refl)))
      ]
    ]
  where
    clash : (b : Bool) → b ≡ true → not b ≡ true → ⊥
    clash b p q = cc

    differ : (b : Bool) → b ≡ true → b ≡ false → ⊥
    differ b p q = cc

order-is_distinct : is_distinct question_order ≡ true
unfolding is_distinct
order-is_distinct = refl

adaptive-is_distinct :
    (c : RecommendationQuestionContext)
    → is_distinct (map (λ q. q.question_id) (adaptive_questions c)) ≡ true
unfolding adaptive_questions is_distinct
adaptive-is_distinct c = elim (Bool-cases (asks_browser c)) [
  | inl t ↦ elim (Bool-cases (asks_memory c)) [ inl u ↦ rw (t, u) refl | inr u ↦ rw (t, u) refl ]
  | inr t ↦ elim (Bool-cases (asks_memory c)) [ inl u ↦ rw (t, u) refl | inr u ↦ rw (t, u) refl ]
]

adaptive-apart :
    (c : RecommendationQuestionContext)
    → all (λ id. not (member id (map (λ q. q.question_id) (adaptive_questions c)))) question_order
      ≡ true
unfolding adaptive_questions
adaptive-apart c = elim (Bool-cases (asks_browser c)) [
  | inl t ↦ elim (Bool-cases (asks_memory c)) [ inl u ↦ rw (t, u) refl | inr u ↦ rw (t, u) refl ]
  | inr t ↦ elim (Bool-cases (asks_memory c)) [ inl u ↦ rw (t, u) refl | inr u ↦ rw (t, u) refl ]
]

-- With the adaptive questions of any context an interview is built, for every repository, whatever is unknown,
-- in conflict or preferred: every question has a prompt, and none is asked twice.
pub build_interview-ok :
    (i : InterviewInput) (c : RecommendationQuestionContext)
    → is_ok (build_interview (record i { adaptive_questions = adaptive_questions c })) ≡ true
unfolding build_interview
build_interview-ok i c =
    let input : InterviewInput = record i { adaptive_questions = adaptive_questions c } in
    let unasked = filter (is_unresolved input) question_order in
    elim (Result-cases (map_result (question input) unasked)) [
      | inr (e, failed) ↦ ground (
        arith,
        failed,
        map_result-total input unasked (λ id l.
            question-total input id (filter-In (is_unresolved input) id question_order l).0),
      )
      | inl (asked, made) ↦
          let distinct : is_distinct (ids_of (asked ++ map adaptive input.adaptive_questions))
              ≡ true =
            subst (λ xs. is_distinct xs ≡ true)
              (sym (
                ids_of-append input asked
                ∙ ap (λ xs. xs ++ adaptive_ids input) (asked-ids input unasked asked made)))
              (is_distinct-append unasked (adaptive_ids input)
                (filter-is_distinct (is_unresolved input) question_order order-is_distinct)
                (adaptive-is_distinct c)
                (λ x l. not_true (member x (adaptive_ids input)) (
                  all-In (λ id. not (member id (adaptive_ids input))) x question_order
                    (adaptive-apart c) (filter-In (is_unresolved input) x question_order l).0))) in
          rw made (rw distinct refl)
    ]
  where
    not_true : (b : Bool) → not b ≡ true → b ≡ false
    not_true b h = ground (arith, h)
