-- ===== src/Remote/Scan.antt =====
-- The permissions that the metadata of an MCP server declares: `extract_mcp_permissions` of
-- src/vibe/remote/scan.py. `str(item).lower()` of a value is an argument; a set is a list with repetitions until
-- it is sorted.
pub mod Declared
mod Examples
use local_skill_orchestrator.Prelude.{
  ℕ, String, ◌≡◌, ◌↔◌, is_text, Bool, true, false, Option, none, some, List, [], ◌∷◌, ◌++◌,
  flat_map, dedup, sort_by, on, sorted_set, if◌then◌else◌, leb, nat_eq, arith, Dict, lookup, Eq,
  string_Eq, string_Ord,
}
use local_skill_orchestrator.Prelude.Json.{
  Json, string, array, object, Items, Fields, elements, get_field,
}

pub data McpPermission : Type 0 where
  execute network filesystem_write : McpPermission

-- `_PERMISSION_ORDER`
abbrev pub permission_index : McpPermission → ℕ
permission_index execute = 0
permission_index filesystem_write = 1
permission_index network = 2

pub mcp_permission_eq_iff :
    (a b : McpPermission) → (nat_eq (permission_index a) (permission_index b) ≡ true) ↔ (a ≡ b)
mcp_permission_eq_iff a b = ground arith

instance abbrev pub mcp_permission_Eq : Eq McpPermission
mcp_permission_Eq = record {
  equal = λ a b. nat_eq (permission_index a) (permission_index b);
  equal_iff = mcp_permission_eq_iff;
}

pub record McpPermissionSummary : Type 0 where
  pub tools : List String
  pub transports : List String
  pub permissions : List McpPermission

-- `_PERMISSION_ALIASES`
abbrev pub aliases : Dict McpPermission
aliases =
    ("execute", execute)
    ∷ ("execute-command", execute)
    ∷ ("filesystem-write", filesystem_write)
    ∷ ("filesystem.write", filesystem_write)
    ∷ ("fs-write", filesystem_write)
    ∷ ("network", network)
    ∷ ("network-access", network)
    ∷ []

unfoldable pub alias : String → Option McpPermission
unfolding lookup
alias name = lookup name aliases

-- The items of a sequence, and none of anything else
abbrev pub items_of : Option Json → List Json
unfolding elements
items_of (some (array xs)) = elements xs
items_of _ = []

abbrev option_list : {A : Type 0} → Option A → List A
option_list none = []
option_list (some a) = a ∷ []

abbrev pub is_string : Option Json → Bool
is_string (some (string s)) = true
is_string _ = false

abbrev when : {A : Type 0} → Bool → A → List A
when test a = if test then a ∷ [] else []

abbrev text_or_none : Option Json → List String
text_or_none (some (string s)) = when (is_text s) s
text_or_none _ = []

abbrev name_of : Json → List String
unfolding get_field
name_of (string s) = when (is_text s) s
name_of (object fields) = text_or_none (get_field "name" fields)
name_of _ = []

-- `_tool_names`
unfoldable pub tool_names : Option Json → List String
unfolding items_of name_of sorted_set
tool_names value = sorted_set (flat_map name_of (items_of value))

module _ (lowered : Json → String) where
  -- `_collect_permissions`
  abbrev pub listed : Option Json → List McpPermission
  unfolding alias items_of
  listed value = flat_map (λ item. option_list (alias (lowered item))) (items_of value)

-- The command or the address of a mapping, as permissions
abbrev pub reached : Fields → List McpPermission
unfolding get_field
reached fields =
    when (is_string (get_field "command" fields)) execute
    ++ when (is_string (get_field "url" fields)) network

abbrev of_transport : Option Json → List McpPermission
unfolding reached
of_transport (some (object fields)) = reached fields
of_transport _ = []

abbrev types_of : Option Json → List String
unfolding get_field
types_of (some (object fields)) = text_or_none (get_field "type" fields)
types_of _ = []

-- `_collect_transport`, its names
unfoldable pub transports_of : Fields → List String
unfolding get_field types_of
transports_of fields =
    types_of (get_field "transport" fields)
    ++ (when (is_string (get_field "command" fields)) "stdio"
        ++ when (is_string (get_field "url" fields)) "http")

module _ (lowered : Json → String) where
  -- `_collect_permissions` and `_collect_transport` of one mapping
  unfoldable pub permissions_of : Fields → List McpPermission
  unfolding get_field reached of_transport listed
  permissions_of fields =
      listed lowered (get_field "permissions" fields)
      ++ (of_transport (get_field "transport" fields) ++ reached fields)

  abbrev of_package : Json → List McpPermission
  unfolding permissions_of
  of_package (object fields) = permissions_of fields
  of_package _ = []

  abbrev package_transports : Json → List String
  unfolding transports_of
  package_transports (object fields) = transports_of fields
  package_transports _ = []

  -- `extract_mcp_permissions`
  unfoldable pub extract_mcp_permissions : Fields → McpPermissionSummary
  unfolding permissions_of transports_of of_package package_transports tool_names items_of get_field
      sorted_set dedup sort_by
  extract_mcp_permissions metadata =
      let packages = items_of (get_field "packages" metadata) in
      record {
        tools = tool_names (get_field "tools" metadata);
        transports = sorted_set (transports_of metadata ++ flat_map package_transports packages);
        permissions =
            sort_by (on permission_index leb)
              (dedup (permissions_of metadata ++ flat_map of_package packages));
      }
