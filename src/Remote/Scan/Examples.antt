-- ===== src/Remote/Scan/Examples.antt =====
-- The metadata of a server with a package.
use local_skill_orchestrator.Prelude.{String, ◌≡◌, refl, ◌↔◌, [], ◌∷◌, In}
use local_skill_orchestrator.Prelude.Json.{
  Json, string, array, object, Fields, end, field, nil, cons,
}
use local_skill_orchestrator.Remote.Scan.{
  execute, network, filesystem_write, extract_mcp_permissions,
}
use local_skill_orchestrator.Remote.Scan.Declared.{IsDeclared, extract-IsDeclared}

abbrev lowered : Json → String
lowered (string s) = s
lowered _ = ""

abbrev one_package : Fields
one_package =
    field "permissions" (array (cons (string "fs-write") (cons (string "unknown") nil)))
      (field "url" (string "https://host") end)

abbrev metadata : Fields
metadata =
    field "tools"
      (array (cons (string "open") (cons (object (field "name" (string "close") end)) nil)))
      (field "transport" (object (field "type" (string "sse") (field "command" (string "run") end)))
        (field "packages" (array (cons (object one_package) nil)) end))

extracted : extract_mcp_permissions lowered metadata ≡ record {
  tools = "close" ∷ "open" ∷ [];
  transports = "http" ∷ "sse" ∷ [];
  permissions = execute ∷ filesystem_write ∷ network ∷ [];
}
unfolding extract_mcp_permissions
extracted = refl

extract-IsDeclared_example :
    In filesystem_write (extract_mcp_permissions lowered metadata).permissions
    ↔ IsDeclared lowered filesystem_write metadata
extract-IsDeclared_example = extract-IsDeclared lowered filesystem_write metadata
