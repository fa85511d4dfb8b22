-- ===== src/Routing/Allowlist.antt =====
-- src/vibe/routing/allowlist.py: the tools that the gateway may expose, read from disk at every
-- decision.
use local_skill_orchestrator.Prelude.{
  String, ◌≡◌, refl, Option, none, some, List, [], ◌∷◌, if◌then◌else◌, all, is_text, is_distinct,
  string_Eq, arith,
}
use local_skill_orchestrator.Prelude.Json.{
  Json, string, array, object, Items, nil, cons, end, field, get_field, elements,
}
use local_skill_orchestrator.Prelude.Results.{Result, ok, err}

-- A file of JSON, as a read of it turns out: its value, or the type of the exception that reading or
-- parsing it raises.
abbrev pub JsonFile : Type 0
JsonFile = Result String Json

-- `AllowlistError`, by its message
pub data AllowlistError : Type 0 where
  cannot_load : String → AllowlistError
  not_an_object : AllowlistError
  not_texts : AllowlistError
  duplicates : AllowlistError

-- A list of non-empty strings.
unfoldable pub tool_names : List Json → Option (List String)
tool_names [] = some []
tool_names (string s ∷ items) = elim (tool_names items) [
  | none ↦ none
  | some names ↦ if is_text s then some (s ∷ names) else none
]
tool_names (_ ∷ items) = none

abbrev distinct_names : Option (List String) → Result AllowlistError (List String)
distinct_names none = err not_texts
distinct_names (some names) = if is_distinct names then ok names else err duplicates

abbrev listed : Option Json → Result AllowlistError (List String)
listed (some (array items)) = distinct_names (tool_names (elements items))
listed _ = err not_texts

-- `AllowlistFile.tools`
unfoldable pub tools : JsonFile → Result AllowlistError (List String)
unfolding tool_names is_distinct get_field elements
tools (err name) = err (cannot_load name)
tools (ok (object fields)) = listed (get_field "allowed_tools" fields)
tools (ok _) = err not_an_object

abbrev pub strings : List String → Items
strings [] = nil
strings (s ∷ ss) = cons (string s) (strings ss)

-- json.dumps({"allowed_tools": list(tools)})
abbrev pub allowlist_file : List String → JsonFile
allowlist_file names = ok (object (field "allowed_tools" (array (strings names)) end))

tool_names-strings :
    (names : List String)
    → tool_names (elements (strings names)) ≡ (if all is_text names then some names else none)
unfolding tool_names elements
tool_names-strings [] = refl
tool_names-strings (s ∷ ss) = ground (arith, tool_names-strings ss)

-- A list that was written is read back where its names are non-empty and distinct.
pub tools-allowlist_file :
    (names : List String)
    → tools (allowlist_file names) ≡ (
        if all is_text names
        then if is_distinct names then ok names else err duplicates
        else err not_texts)
unfolding tools
tools-allowlist_file names = ground (arith, tool_names-strings names)
