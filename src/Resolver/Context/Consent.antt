-- ===== src/Resolver/Context/Consent.antt =====
-- No persistent memory without consent.
use local_skill_orchestrator.Prelude.{
  inr, inl, Bool-cases, ◌⊎◌, ℤ, String, ◌≡◌, refl, subst, Bool, true, false, Option, some, List, [],
  In, Dict, insert, lookup-insert, ==_refl, string_Eq, arith,
}
use local_skill_orchestrator.Repository.{RepositorySnapshot}
use local_skill_orchestrator.Resolver.Policy.{AdapterScanResult, ResolverPolicy}
use local_skill_orchestrator.Resolver.Local.{
  Reason, CapabilityResolution, selected, is_codegraph, is_persistent_memory,
  contextually_ineligible, resolve_requirement,
}
use local_skill_orchestrator.Resolver.Local.Winner.{selected-eligible}
use local_skill_orchestrator.Resolver.Context.{
  Blueprint, Value, text_value, by_key, lifecycle_value, get, is_allowed, memory_value,
  contextual_value,
}

get-insert : (k : String) (v : Value) (d : Dict Value) → get k (insert k v d) ≡ v
unfolding get
get-insert k v d = rw (lookup-insert k k v d) (rw (==_refl k) refl)

module _ (casefold : String → String) (parse_int : String → Option ℤ) (show_int : ℤ → String)
    (show_list : List String → String) where
  memory_value-is_allowed :
      (facts : Dict Value)
      → (memory_value casefold parse_int show_int show_list facts).recommended ≡ true
      → is_allowed casefold parse_int show_int show_list (get "memory.persistence" facts) ≡ true
  unfolding memory_value
  memory_value-is_allowed facts h = ground (arith, h)

  contextual_value-is_allowed :
      (b : Blueprint) (s : RepositorySnapshot) (c : AdapterScanResult) (requirement : String)
      → is_codegraph c ≡ false
      → is_persistent_memory c ≡ true
      → (contextual_value casefold parse_int show_int show_list b s c requirement).recommended
        ≡ true
      → is_allowed casefold parse_int show_int show_list (get "memory.persistence" b.preferences)
        ≡ true
  unfolding contextual_value
  contextual_value-is_allowed b s c requirement plain memory h =
      let preference = get "memory.persistence" b.preferences in
      let others =
        insert "lifecycle_stage" (text_value (lifecycle_value b.lifecycle_stage))
          (by_key s.facts []) in
      subst (λ v. is_allowed casefold parse_int show_int show_list v ≡ true)
        (get-insert "memory.persistence" preference others)
        (memory_value-is_allowed (insert "memory.persistence" preference others)
          (rw memory at (rw plain at h)))

  module _ {R : Type 0} (reason_leb : Reason → Reason → Bool) where
    -- A capability that keeps memory across sessions, unless its identifier contains `codegraph`, is selected
    -- only where the project's preferences allow it: whatever its score is, and however few other candidates
    -- there are.
    pub selected-is_allowed :
        (b : Blueprint) (s : RepositorySnapshot) (requirement : String) (platforms : List String)
        (policy : ResolverPolicy) (candidates : List AdapterScanResult) (packs : List String)
        (recommendation : Option R) (r : CapabilityResolution R)
        → In r (
            resolve_requirement R
              (contextual_value casefold parse_int show_int show_list b s)
              reason_leb
              requirement
              platforms
              policy
              candidates
              packs
              recommendation)
        → r.status ≡ selected
        → (c : AdapterScanResult) × In c candidates
          × (r.capability_id ≡ some c.manifest.capability_id)
          × ((is_codegraph c ≡ true)
              ⊎ ((is_persistent_memory c ≡ false)
                  ⊎ (is_allowed casefold parse_int show_int show_list
                        (get "memory.persistence" b.preferences)
                      ≡ true)))
    unfolding contextually_ineligible
    selected-is_allowed b s requirement platforms policy candidates packs recommendation r h
          status =
        let context_of = contextual_value casefold parse_int show_int show_list b s in
        let (c, i, named, within) =
          selected-eligible R context_of reason_leb requirement platforms policy candidates packs
            recommendation r h status in
        (
          c,
          i,
          named,
          elim (Bool-cases (is_codegraph c)) [
            | inl named_so ↦ inl named_so
            | inr plain ↦ inr (elim (Bool-cases (is_persistent_memory c)) [
              | inr forgets ↦ inl forgets
              | inl memory ↦ inr (
                  contextual_value-is_allowed b s c requirement plain memory
                    (ground (arith, plain, memory, within)))
            ])
          ],
        )
