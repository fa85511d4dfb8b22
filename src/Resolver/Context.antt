-- ===== src/Resolver/Context.antt =====
-- src/vibe/recommendation/context.py, and `_contextual_value` of src/vibe/resolver/local.py: what a conditional
-- capability is worth in a project. `casefold`, `int` of a text and `str` of a number and of a list are arguments.
pub mod Consent
mod Examples
use local_skill_orchestrator.Prelude.{
  ℕ, ℤ, pos, negsuc, ◌+ℤ◌, leb_ℤ, String, str_append, strip, Bool, true, false, not, ◌&&◌, ◌||◌,
  Option, none, some, List, [], ◌∷◌, ◌++◌, map, member, if◌then◌else◌, ◌==◌, string_Eq, Dict,
  lookup, insert,
}
use local_skill_orchestrator.Capability.{CapabilityKind, mcp}
use local_skill_orchestrator.Repository.{
  FactValue, no_value, a_text, a_list, RepositoryFact, RepositorySnapshot,
}
use local_skill_orchestrator.Resolver.Policy.{AdapterScanResult}
use local_skill_orchestrator.Resolver.Local.{ContextValue, is_codegraph, is_persistent_memory}

pub data LifecycleStage : Type 0 where
  exploration active_development maintenance production : LifecycleStage

abbrev pub lifecycle_value : LifecycleStage → String
lifecycle_value exploration = "exploration"
lifecycle_value active_development = "active-development"
lifecycle_value maintenance = "maintenance"
lifecycle_value production = "production"

-- A fact's value or a preference
pub data Value : Type 0 where
  absent : Value
  text_value : String → Value
  flag_value : Bool → Value
  number_value : ℤ → Value
  list_value : List String → Value

-- The fields of `Blueprint` that are read
pub record Blueprint : Type 0 where
  pub lifecycle_stage : LifecycleStage
  pub preferences : Dict Value

abbrev or_absent : Option Value → Value
or_absent none = absent
or_absent (some v) = v

-- facts.get(key)
unfoldable pub get : String → Dict Value → Value
unfolding lookup
get key facts = or_absent (lookup key facts)

abbrev value_of : FactValue → Value
value_of no_value = absent
value_of (a_text s) = text_value s
value_of (a_list xs) = list_value xs

-- {item.key: item.value for item in repository.facts}
abbrev by_key : List RepositoryFact → Dict Value → Dict Value
unfolding insert
by_key [] d = d
by_key (f ∷ fs) d = by_key fs (insert f.key (value_of f.value) d)

abbrev is_flag : Bool → Value → Bool
is_flag true (flag_value b) = b
is_flag false (flag_value b) = not b
is_flag _ _ = false

abbrev context_value : Bool → ℤ → String → ContextValue
context_value recommended score reason = record {
  recommended = recommended;
  score = score;
  reasons = reason ∷ [];
}

abbrev signal : Bool → ℤ → String → List (ℤ × String)
signal test score reason = if test then (score, reason) ∷ [] else []

abbrev sum : List (ℤ × String) → ℤ
unfolding ◌+ℤ◌
sum [] = pos 0
sum ((n, reason) ∷ ns) = n +ℤ sum ns

abbrev at_least : ℤ → Option ℤ → Bool
at_least n none = false
at_least n (some m) = leb_ℤ n m

abbrev below : ℤ → Option ℤ → Bool
below n none = false
below n (some m) = not (leb_ℤ n m)

module _ (casefold : String → String) (parse_int : String → Option ℤ) (show_int : ℤ → String)
    (show_list : List String → String) where
  -- `_safe_int`
  abbrev safe_int : Value → Option ℤ
  safe_int absent = none
  safe_int (text_value s) = parse_int s
  safe_int (flag_value b) = none
  safe_int (number_value n) = some n
  safe_int (list_value xs) = none

  abbrev shown : Value → String
  shown absent = ""
  shown (text_value s) = s
  shown (flag_value true) = "True"
  shown (flag_value false) = "False"
  shown (number_value n) = show_int n
  shown (list_value xs) = show_list xs

  -- `_normalized`
  unfoldable pub normalized : Value → String
  unfolding strip
  normalized absent = ""
  normalized v = casefold (strip (shown v))

  -- `_is_true`
  abbrev is_true : Value → Bool
  unfolding normalized
  is_true v = is_flag true v || member (normalized v) ("true" ∷ "yes" ∷ "1" ∷ [])

  abbrev pub is_allowed : Value → Bool
  unfolding normalized
  is_allowed v = is_flag true v || member (normalized v) ("true" ∷ "yes" ∷ "allowed" ∷ "allow" ∷ [])

  abbrev pub is_denied : Value → Bool
  unfolding normalized
  is_denied v = is_flag false v || member (normalized v) ("false" ∷ "no" ∷ "denied" ∷ "deny" ∷ [])

  abbrev counted : Option ℤ → String → String
  counted none rest = rest
  counted (some n) rest = str_append (show_int n) rest

  abbrev signals : Dict Value → List (ℤ × String)
  unfolding normalized get is_true
  signals facts =
      let modules = safe_int (get "module_count" facts) in
      let languages = safe_int (get "language_count" facts) in
      let changes = normalized (get "cross_module_changes" facts) in
      signal
        ((normalized (get "repository_size" facts) == "large") && is_true (get "is_monorepo" facts))
        (pos 6) "a large monorepo increases cross-module navigation value"
      ++ (signal (at_least (pos 20) modules) (pos 3)
            (counted modules " modules increase relationship-analysis value")
          ++ (signal (at_least (pos 2) languages) (pos 2)
                (counted languages " languages increase navigation complexity")
              ++ (signal (changes == "frequent") (pos 4)
                    "frequent cross-module changes strongly favor graph navigation"
                  ++ (signal (is_true (get "local_symbol_index" facts)) (negsuc 4)
                        "an existing local symbol index lowers incremental value"
                      ++ (signal (below (pos 5) modules) (negsuc 1)
                            "few modules reduce relationship-analysis value"
                          ++ (signal (at_least (pos 1) languages && below (pos 2) languages)
                                (negsuc 0) "a single language reduces navigation complexity"
                              ++ signal (changes == "rare") (negsuc 0)
                                  "rare cross-module changes reduce impact-analysis value"))))))

  -- `codegraph_value`
  unfoldable pub codegraph_value : Dict Value → ContextValue
  unfolding signals sum
  codegraph_value facts = record {
    recommended = leb_ℤ (pos 6) (sum (signals facts));
    score = sum (signals facts);
    reasons = map (λ s. s.1) (signals facts);
  }

  abbrev is_lasting : String → Bool
  is_lasting stage = member stage ("active-development" ∷ "maintenance" ∷ "production" ∷ [])

  -- `memory_value`
  unfoldable pub memory_value : Dict Value → ContextValue
  unfolding get normalized is_allowed is_denied
  memory_value facts =
      let preference = get "memory.persistence" facts in
      let lifecycle = normalized (get "lifecycle_stage" facts) in
      if is_denied preference
      then context_value false (negsuc 19) "persistent memory was explicitly denied"
      else if lifecycle == "exploration"
      then context_value false (negsuc 7)
          "persistent memory adds little value during short-lived exploration"
      else if is_allowed preference && is_lasting lifecycle
      then context_value true (pos 6)
          "persistent context preserves durable decisions across work sessions"
      else context_value false (pos 0)
          "persistent memory requires an explicit persistence preference"

  -- `browser_value`
  unfoldable pub browser_value : Dict Value → ContextValue
  unfolding get is_allowed is_denied
  browser_value facts =
      let preference = get "browser.interactive-debugging" facts in
      if is_allowed preference
      then context_value true (pos 10)
          "explicit interactive browser debugging preference favors browser control"
      else if is_denied preference
      then context_value false (negsuc 1) "interactive browser debugging was explicitly declined"
      else context_value false (pos 0)
          "interactive browser preference unknown; available provider retained"

  abbrev is_mcp : CapabilityKind → Bool
  is_mcp mcp = true
  is_mcp _ = false

  -- `_contextual_value`
  unfoldable pub contextual_value :
      Blueprint → RepositorySnapshot → AdapterScanResult → String → ContextValue
  unfolding codegraph_value memory_value browser_value is_codegraph is_persistent_memory by_key get
      insert
  contextual_value blueprint repository candidate requirement =
      let facts = by_key repository.facts [] in
      if is_codegraph candidate
      then codegraph_value facts
      else if is_persistent_memory candidate
      then memory_value (
          insert "memory.persistence" (get "memory.persistence" blueprint.preferences) (
            insert "lifecycle_stage" (text_value (lifecycle_value blueprint.lifecycle_stage))
              facts))
      else if (requirement == "browser.validation") && is_mcp candidate.manifest.kind
      then browser_value (
          (
            "browser.interactive-debugging",
            get "browser.interactive-debugging" blueprint.preferences,
          )
          ∷ [])
      else record { recommended = true; score = pos 0; reasons = [] }
