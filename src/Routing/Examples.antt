-- ===== src/Routing/Examples.antt =====
-- A concrete gateway, at which the theorems of routing are applied.
use local_skill_orchestrator.Prelude.{
  String, ◌≡◌, refl, ◌⊎◌, inl, inr, ◌↔◌, Bool, true, false, Option, none, some, List, [], ◌∷◌, ◌++◌,
  In, member, string_Eq,
}
use local_skill_orchestrator.Prelude.Json.{Json, Fields, end}
use local_skill_orchestrator.Prelude.Results.{Result, ok, err}
use local_skill_orchestrator.Routing.Allowlist.{JsonFile, allowlist_file, tools}
use local_skill_orchestrator.Routing.Gateway.{
  Tool, CallToolResult, UpstreamError, upstream_content, call_tool, Event, replaced, called,
  session, file_after,
}
use local_skill_orchestrator.Routing.Gateway.Policy.{session_lem}
use local_skill_orchestrator.Routing.Exposure.{
  CapabilityToolBinding, PhaseExposureRequest, HostExposure, PhaseExposure, is_matched, expose,
}
use local_skill_orchestrator.Routing.Exposure.Selected.{expose-call_tool}

abbrev search : Tool
search = record { name = "search"; description = "Search the code." }

abbrev write : Tool
write = record { name = "write"; description = "Write a file." }

abbrev upstream_tools : Result UpstreamError (List Tool)
upstream_tools = ok (search ∷ write ∷ [])

abbrev upstream_call : String → Fields → Result UpstreamError CallToolResult
upstream_call name arguments =
    ok (record { content = upstream_content arguments; is_error = false })

abbrev only_search : JsonFile
only_search = allowlist_file ("search" ∷ [])

abbrev events : List Event
events =
    called "write" end ∷ called "search" end ∷ replaced (err "OSError") ∷ called "search" end ∷ []

sent :
    In {A = String × Fields}
      ("search", end)
      (session upstream_tools upstream_call only_search events)
unfolding session
sent = inl refl

session_lem_example :
    (before : List Event) × (after : List Event) × (events
      ≡ before ++ (called "search" end ∷ after))
    × (allowed : List String) × (tools (file_after only_search before) ≡ ok allowed)
    × In "search" allowed
session_lem_example = session_lem upstream_tools upstream_call only_search events "search" end sent

abbrev bindings : List CapabilityToolBinding
bindings =
    record {
      capability_id = "graph";
      provides = "code-relationship-analysis" ∷ [];
      server_id = "graph-server";
      tool_names = "search" ∷ [];
    }
    ∷ record {
      capability_id = "editor";
      provides = [];
      server_id = "files";
      tool_names = "write" ∷ [];
    }
    ∷ []

abbrev digest_of : Json → String
digest_of payload = "digest"

abbrev host : Option (PhaseExposureRequest → Result String HostExposure)
host = none

abbrev exposure : PhaseExposure
exposure = record {
  phase = "inspect";
  selected_capabilities = "graph" ∷ [];
  selected_server_ids = "graph-server" ∷ [];
  allowed_tools = "search" ∷ [];
  exposure_digest = "digest";
  thread_config = [];
  transition = "start";
}

expose-call_tool_example :
    ((call_tool upstream_tools upstream_call only_search "search" end).forwarded
      ≡ ("search", end) ∷ [])
    ↔ ((b : CapabilityToolBinding) × In b bindings
        × (is_matched ("graph" ∷ []) b ≡ true)
        × In "search" b.tool_names)
unfolding expose local_skill_orchestrator.Prelude.sort_by
    local_skill_orchestrator.Prelude.sorted_set
expose-call_tool_example =
    expose-call_tool digest_of bindings host upstream_tools upstream_call "inspect" ("graph" ∷ [])
      (err "OSError") only_search exposure "search" end refl refl
