-- ===== src/Doctor/Drift/Invalidation.antt =====
-- When drift invalidates a configuration, and when there is none.
use local_skill_orchestrator.Prelude.{
  String, ◌≡◌, refl, ap, ◌∙◌, Bool, true, false, ◌||◌, Option, none, some, List, [], ◌∷◌, ◌++◌, any,
  filter, map, string_Eq, ==_refl, Dict, lookup, keys, sort_by, insert_by, arith,
}
use local_skill_orchestrator.Materialize.Changeset.{ChangeOperation, ChangeSet}
use local_skill_orchestrator.Repository.{
  RepositoryFact, RepositorySnapshot, FactValue, no_value, a_text, a_list,
}
use local_skill_orchestrator.Doctor.Drift.{
  confidence_value, RepositoryFact, RepositorySnapshot, FactValue, no_value, a_text, a_list,
  text_eq, list_eq, value_eq, fact_eq, stack_facts, differs, stacks_differ, is_drifted,
  operation_reason, reason_leb, found_reasons, detect_drift, invalidates,
}

any-insert_by :
    {A : Type 0} (leq : A → A → Bool) (p : A → Bool) (a : A) (xs : List A)
    → any p (insert_by leq a xs) ≡ any p (a ∷ xs)
unfolding insert_by
any-insert_by leq p a [] = refl
any-insert_by leq p a (x ∷ xs) = ground (arith, any-insert_by leq p a xs)

any-sort_by :
    {A : Type 0} (leq : A → A → Bool) (p : A → Bool) (xs : List A)
    → any p (sort_by leq xs) ≡ any p xs
unfolding sort_by
any-sort_by leq p [] = refl
any-sort_by leq p (x ∷ xs) =
    any-insert_by leq p x (sort_by leq xs) ∙ ap (λ b. p x || b) (any-sort_by leq p xs)

any-append :
    {A : Type 0} (p : A → Bool) (xs ys : List A) → any p (xs ++ ys) ≡ (any p xs || any p ys)
any-append p [] ys = refl
any-append p (x ∷ xs) ys = ground (arith, any-append p xs ys)

operations-invalidates :
    (os : List ChangeOperation)
    → invalidates (map operation_reason (filter is_drifted os)) ≡ any is_drifted os
operations-invalidates [] = refl
operations-invalidates (o ∷ os) = ground (arith, operations-invalidates os)

-- A configuration is invalid exactly when the technology stack has changed or a file that the program writes
-- differs from what it would write; a new commit or new sources alone leave it valid.
pub invalidates-detect_drift :
    (baseline current : RepositorySnapshot) (changeset : ChangeSet)
    → invalidates (detect_drift baseline current changeset) ≡ (
        stacks_differ (stack_facts baseline.facts) (stack_facts current.facts)
        || any is_drifted changeset.operations)
unfolding detect_drift found_reasons
invalidates-detect_drift baseline current changeset =
    any-sort_by reason_leb (λ r. r.invalidates_configuration)
      (found_reasons baseline current changeset)
    ∙ ground (arith, operations-invalidates changeset.operations)

list_eq_refl : (xs : List String) → list_eq xs xs ≡ true
list_eq_refl [] = refl
list_eq_refl (x ∷ xs) = rw (==_refl x, list_eq_refl xs) refl

value_eq_refl : (v : FactValue) → value_eq v v ≡ true
value_eq_refl no_value = refl
value_eq_refl (a_text s) = ==_refl s
value_eq_refl (a_list xs) = list_eq_refl xs

text_eq_refl : (o : Option String) → text_eq o o ≡ true
text_eq_refl none = refl
text_eq_refl (some s) = ==_refl s

fact_eq_refl : (o : Option RepositoryFact) → fact_eq o o ≡ true
fact_eq_refl none = refl
fact_eq_refl (some f) =
    rw
      (
        ==_refl f.key,
        value_eq_refl f.value,
        ==_refl (confidence_value f.confidence),
        list_eq_refl f.sources,
      )
      refl

any-false : {A : Type 0} (p : A → Bool) (xs : List A) → ((a : A) → p a ≡ false) → any p xs ≡ false
any-false p [] h = refl
any-false p (x ∷ xs) h = rw (h x, any-false p xs h) refl

stacks_differ_irrefl : (d : Dict RepositoryFact) → stacks_differ d d ≡ false
unfolding stacks_differ
stacks_differ_irrefl d =
    any-false (differs d d) (keys d ++ keys d) (λ key. rw (fact_eq_refl (lookup key d)) refl)

operations-nil :
    (os : List ChangeOperation)
    → any is_drifted os ≡ false
    → map operation_reason (filter is_drifted os) ≡ []
operations-nil [] h = refl
operations-nil (o ∷ os) h = ground (arith, operations-nil os)

found_reasons-nil :
    (snapshot : RepositorySnapshot) (changeset : ChangeSet)
    → any is_drifted changeset.operations ≡ false
    → found_reasons snapshot snapshot changeset ≡ []
unfolding found_reasons
found_reasons-nil snapshot changeset h =
    rw
      (
        text_eq_refl snapshot.head,
        stacks_differ_irrefl (stack_facts snapshot.facts),
        ==_refl snapshot.source_digest,
        operations-nil changeset.operations h,
      )
      refl

-- A project that has not changed has no drift, where every file that the program writes is as it would write it.
pub detect_drift_refl :
    (snapshot : RepositorySnapshot) (changeset : ChangeSet)
    → any is_drifted changeset.operations ≡ false
    → detect_drift snapshot snapshot changeset ≡ []
unfolding detect_drift sort_by
detect_drift_refl snapshot changeset h = rw (found_reasons-nil snapshot changeset h) refl
