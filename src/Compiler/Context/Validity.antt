-- ===== src/Compiler/Context/Validity.antt =====
-- When a capsule is still valid.
use local_skill_orchestrator.Prelude.{
  ℕ, String, str_append, ◌≡◌, ap, ◌↔◌, true, List, arith, eq_iff, string_Eq, string_Ord, ◌==◌,
}
use text.Mathlib.TextLemmas.{append_cancel_left}
use local_skill_orchestrator.Prelude.Results.{ok}
use local_skill_orchestrator.Planning.TaskGraph.{TaskPlan}
use local_skill_orchestrator.Compiler.Intent.{TaskIntent, normalize_scope}
use local_skill_orchestrator.Compiler.Context.{
  CapabilityCandidate, ContextSource, ContextCapsule, scope_digest, invalidation_conditions,
  compile_context_capsule, capsule_is_valid, capsule_of, same_texts,
}
use local_skill_orchestrator.Compiler.Context.Selection.{compile-eq-ok}

same_prefix : (p s t : String) → ((str_append p s == str_append p t) ≡ true) ↔ (s ≡ t)
same_prefix p s t = (
  λ h. append_cancel_left p s t ((eq_iff (str_append p s) (str_append p t)).0 h),
  λ e. (eq_iff (str_append p s) (str_append p t)).1 (ap (str_append p) e),
)

-- The capsule's conditions are compared one by one.
conditions_iff :
    (sha256 : String → String) (h h' u u' p p' : String) (s s' : List String)
    → (same_texts
          (invalidation_conditions sha256 h u p s)
          (invalidation_conditions sha256 h' u' p' s')
        ≡ true)
      ↔ ((h ≡ h') × (u ≡ u') × (p ≡ p') × (scope_digest sha256 s ≡ scope_digest sha256 s'))
unfolding invalidation_conditions
conditions_iff sha256 h h' u u' p p' s s' = ground (
  arith,
  same_prefix "git-head:" h h',
  same_prefix "user-scope:" u u',
  same_prefix "phase:" p p',
  same_prefix "scope:" (scope_digest sha256 s) (scope_digest sha256 s'),
)

-- A compiled capsule is valid exactly while the head, the user's scope, the phase and the digest of the
-- normalized scope are those that it was compiled for.
pub compile-capsule_is_valid :
    (sha256 : String → String) (intent : TaskIntent) (plan : TaskPlan) (phase : String)
    (candidates : List CapabilityCandidate) (sources : List ContextSource)
    (head user_scope_digest : String) (token_budget : ℕ) (capsule : ContextCapsule)
    (head' user' phase' : String) (scope' : List String)
    → compile_context_capsule sha256 intent plan phase candidates sources head user_scope_digest
        token_budget
      ≡ ok capsule
    → (capsule_is_valid sha256 capsule head' user' phase' scope' ≡ true) ↔ (
        (head ≡ head')
        × (user_scope_digest ≡ user')
        × (phase ≡ phase')
        × (scope_digest sha256 intent.scope ≡ scope_digest sha256 (normalize_scope scope')))
unfolding capsule_is_valid capsule_of
compile-capsule_is_valid sha256 intent plan phase candidates sources head user_scope_digest
      token_budget capsule head' user' phase' scope' h =
    let (item, references, found, good, same) =
      compile-eq-ok sha256 intent plan phase candidates sources head user_scope_digest token_budget
        capsule h in
    rw same (
      conditions_iff sha256 head head' user_scope_digest user' phase phase' intent.scope
        (normalize_scope scope'))
