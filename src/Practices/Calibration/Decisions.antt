-- ===== src/Practices/Calibration/Decisions.antt =====
-- What decisions on suggestions promise.
use local_skill_orchestrator.Prelude.{
  flat_map-In, dedup-is_distinct, dedup-In, ==→eq, All-of_In, insert-In, Bool-cases, ◌≤◌, String,
  ◌≡◌, ◌≢◌, sym, ap, subst, ◌∙◌, ◌⊎◌, inl, inr, true, not, some, List, [], ◌∷◌, In, All, map,
  member, length, filter-In, In-map, map-In, In→member, arith, is_distinct, sort_by, In-sort_by, on,
  str_leb, ◌==◌, string_Eq, Dict, insert, values, keys, leb,
}
use local_skill_orchestrator.Practices.Calibration.{
  uses, CalibrationOutcome, CalibrationSuggestion, CalibrationDecision, DecisionStatus, StateFile,
  load_state, evidence_of, decided_ids, demotion, pending_suggestions, by_id, record_decision,
}

-- Every decision of a state stands under the identifier of its suggestion.
abbrev AreFiled : Dict CalibrationDecision → Type 0
AreFiled d = (p : String × CalibrationDecision) → In p d → p.1.suggestion.suggestion_id ≡ p.0

abbrev HasKey : {V : Type 0} → String → Dict V → Type 0
HasKey k d = In k (keys d)

insert-HasKey :
    {V : Type 0} (k j : String) (v : V) (d : Dict V)
    → (j ≡ k) ⊎ HasKey j d
    → HasKey j (insert k v d)
unfolding insert
insert-HasKey k j v [] (inl e) = inl e
insert-HasKey k j v [] (inr i) = elim i [ ]
insert-HasKey k j v ((i, w) ∷ d) h = elim (Bool-cases (i == k)) [
  | inl same ↦ rw same (elim h [ inl e ↦ inl (e ∙ sym (==→eq i k same)) | inr l ↦ l ])
  | inr differ ↦ rw differ (elim h [
    | inl e ↦ inr (insert-HasKey k j v d (inl e))
    | inr l ↦ elim l [ inl q ↦ inl q | inr m ↦ inr (insert-HasKey k j v d (inr m)) ]
  ])
]

insert-AreFiled :
    (x : CalibrationDecision) (d : Dict CalibrationDecision)
    → AreFiled d
    → AreFiled (insert x.suggestion.suggestion_id x d)
insert-AreFiled x d h p i = elim (insert-In x.suggestion.suggestion_id x d p i) [
  | inl e ↦ ap (λ q. q.1.suggestion.suggestion_id) e ∙ sym (ap (λ q. q.0) e)
  | inr l ↦ h p l
]

by_id-AreFiled :
    (xs : List CalibrationDecision) (d : Dict CalibrationDecision)
    → AreFiled d
    → AreFiled (by_id xs d)
unfolding by_id
by_id-AreFiled [] d h = h
by_id-AreFiled (x ∷ xs) d h =
    by_id-AreFiled xs (insert x.suggestion.suggestion_id x d) (insert-AreFiled x d h)

by_id-HasKey :
    (j : String) (xs : List CalibrationDecision) (d : Dict CalibrationDecision)
    → In j (map (λ x. x.suggestion.suggestion_id) xs) ⊎ HasKey j d
    → HasKey j (by_id xs d)
unfolding by_id
by_id-HasKey j [] d (inl i) = elim i [ ]
by_id-HasKey j [] d (inr h) = h
by_id-HasKey j (x ∷ xs) d (inl (inl e)) =
    by_id-HasKey j xs (insert x.suggestion.suggestion_id x d)
      (inr (insert-HasKey x.suggestion.suggestion_id j x d (inl e)))
by_id-HasKey j (x ∷ xs) d (inl (inr i)) =
    by_id-HasKey j xs (insert x.suggestion.suggestion_id x d) (inl i)
by_id-HasKey j (x ∷ xs) d (inr h) =
    by_id-HasKey j xs (insert x.suggestion.suggestion_id x d)
      (inr (insert-HasKey x.suggestion.suggestion_id j x d (inr h)))

filed-decided :
    (j : String) (d : Dict CalibrationDecision)
    → AreFiled d
    → HasKey j d
    → In j (decided_ids (some (values (sort_by (on (λ p. p.0) str_leb) d))))
filed-decided j d filed h =
    let (p, i, e) = map-In (λ q. q.0) j d h in
    let there : In p.1
        (values (sort_by (on (λ (q : String × CalibrationDecision). q.0) str_leb) d)) =
      In-map (λ q. q.1) p (sort_by (on (λ (q : String × CalibrationDecision). q.0) str_leb) d)
        (In-sort_by (on (λ q. q.0) str_leb) p d i) in
    subst (λ k. In k (decided_ids (some (values (sort_by (on (λ q. q.0) str_leb) d)))))
      (filed p i ∙ sym e)
      (In-map (λ (x : CalibrationDecision). x.suggestion.suggestion_id) p.1
        (values (sort_by (on (λ q. q.0) str_leb) d)) there)

-- A decision is kept, whatever is decided after it.
record_decision-decided :
    (j : String) (s : CalibrationSuggestion) (status : DecisionStatus) (state : StateFile)
    → (j ≡ s.suggestion_id) ⊎ In j (decided_ids state)
    → In j (decided_ids (record_decision s status state))
unfolding record_decision
record_decision-decided j s status state h =
    let new : CalibrationDecision = record { suggestion = s; status = status } in
    let old = by_id (load_state state) [] in
    filed-decided j (insert s.suggestion_id new old)
      (insert-AreFiled new old (by_id-AreFiled (load_state state) [] (λ p i. elim i [ ])))
      (insert-HasKey s.suggestion_id j new old
        (elim h [ inl e ↦ inl e | inr i ↦ inr (by_id-HasKey j (load_state state) [] (inl i)) ]))

-- Decisions one after the other, the first of the list first.
unfoldable pub decide_all : List (CalibrationSuggestion × DecisionStatus) → StateFile → StateFile
unfolding record_decision
decide_all [] state = state
decide_all ((s, status) ∷ ds) state = decide_all ds (record_decision s status state)

decide_all-decided :
    (j : String) (ds : List (CalibrationSuggestion × DecisionStatus)) (state : StateFile)
    → In j (map (λ d. d.0.suggestion_id) ds) ⊎ In j (decided_ids state)
    → In j (decided_ids (decide_all ds state))
unfolding decide_all
decide_all-decided j [] state (inl i) = elim i [ ]
decide_all-decided j [] state (inr i) = i
decide_all-decided j ((s, status) ∷ ds) state (inl (inl e)) =
    decide_all-decided j ds (record_decision s status state)
      (inr (record_decision-decided j s status state (inl e)))
decide_all-decided j ((s, status) ∷ ds) state (inl (inr i)) =
    decide_all-decided j ds (record_decision s status state) (inl i)
decide_all-decided j ((s, status) ∷ ds) state (inr i) =
    decide_all-decided j ds (record_decision s status state)
      (inr (record_decision-decided j s status state (inr i)))

-- A suggestion on which the user has decided, either way, is never proposed again, whatever is decided on
-- others and whatever later tasks use.
pub pending-decided :
    (suggestion_id : String → String) (ds : List (CalibrationSuggestion × DecisionStatus))
    (state : StateFile) (outcomes : List CalibrationOutcome) (s : CalibrationSuggestion)
    → In s (pending_suggestions suggestion_id (decide_all ds state) outcomes)
    → All (λ d. d.0.suggestion_id ≢ s.suggestion_id) ds
unfolding pending_suggestions
pending-decided suggestion_id ds state outcomes s i =
    let ids = decided_ids (decide_all ds state) in
    let (there, free) =
      filter-In (λ (x : CalibrationSuggestion). not (member x.suggestion_id ids)) s _ i in
    All-of_In ds (λ d m e.
      let seen : member s.suggestion_id ids ≡ true = In→member s.suggestion_id ids (
        decide_all-decided s.suggestion_id ds state (
          inl (
            subst
              (λ k.
                In k (map (λ (x : CalibrationSuggestion × DecisionStatus). x.0.suggestion_id) ds))
              e
              (In-map (λ (x : CalibrationSuggestion × DecisionStatus). x.0.suggestion_id) d ds
                m)))) in
      ground (arith, seen, free))

-- A task of the outcomes for which a capability was recommended and not used.
abbrev pub IsUnusedIn : List CalibrationOutcome → String → String → Type 0
IsUnusedIn outcomes capability task =
    (o : CalibrationOutcome) × In o outcomes
    × (o.task_id ≡ task)
    × In capability o.unused_recommendations

evidence_of-IsUnusedIn :
    (outcomes : List CalibrationOutcome) (capability task : String)
    → In task (evidence_of capability outcomes)
    → IsUnusedIn outcomes capability task
unfolding evidence_of
evidence_of-IsUnusedIn outcomes capability task i =
    let (p, j, e) = map-In (λ (q : String × String). q.1) task _ (dedup-In task _ i) in
    let (k, same) = filter-In (λ (q : String × String). q.0 == capability) p (uses outcomes) j in
    let (o, m, l) =
      flat_map-In (λ (x : CalibrationOutcome). map (λ c. (c, x.task_id)) x.unused_recommendations) p
        outcomes k in
    let (c, n, f) = map-In (λ c. (c, o.task_id)) p o.unused_recommendations l in
    let named : c ≡ capability = sym (ap (λ q. q.0) f) ∙ ==→eq p.0 capability same in
    (o, m, sym (e ∙ ap (λ q. q.1) f), subst (λ x. In x o.unused_recommendations) named n)

evidence_of-is_distinct :
    (capability : String) (outcomes : List CalibrationOutcome)
    → is_distinct (evidence_of capability outcomes) ≡ true
unfolding evidence_of
evidence_of-is_distinct capability outcomes = dedup-is_distinct _

-- A demotion is proposed only where at least three different tasks did not use the recommended capability.
pub pending-IsUnusedIn :
    (suggestion_id : String → String) (state : StateFile) (outcomes : List CalibrationOutcome)
    (s : CalibrationSuggestion)
    → In s (pending_suggestions suggestion_id state outcomes)
    → (3 ≤ length s.evidence)
      × (is_distinct s.evidence ≡ true)
      × All (IsUnusedIn outcomes s.capability) s.evidence
unfolding pending_suggestions
pending-IsUnusedIn suggestion_id state outcomes s i =
    let (there, free) =
      filter-In (λ (x : CalibrationSuggestion). not (member x.suggestion_id (decided_ids state))) s
        _ i in
    let (c, j, e) = map-In (demotion suggestion_id outcomes) s _ there in
    let (k, often) = filter-In (λ x. leb 3 (length (evidence_of x outcomes))) c _ j in
    subst
      (λ x.
        (3 ≤ length x.evidence)
        × (is_distinct x.evidence ≡ true)
        × All (IsUnusedIn outcomes x.capability) x.evidence)
      (sym e)
      (
        ground (arith, often),
        evidence_of-is_distinct c outcomes,
        All-of_In (evidence_of c outcomes) (λ t l. evidence_of-IsUnusedIn outcomes c t l),
      )
