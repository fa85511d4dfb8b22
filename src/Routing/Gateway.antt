-- ===== src/Routing/Gateway.antt =====
-- src/vibe/routing/gateway.py: the MCP gateway. The upstream session is not under src/, so its two
-- calls are parameters, which answer or raise; the timeout is one of the exceptions.
pub mod Policy
use local_skill_orchestrator.Prelude.{
  String, Bool, true, false, List, [], ◌∷◌, ◌++◌, if◌then◌else◌, filter, member, string_Eq,
}
use local_skill_orchestrator.Prelude.Json.{Fields}
use local_skill_orchestrator.Prelude.Results.{Result, ok, err, ◌>>=◌}
use local_skill_orchestrator.Routing.Allowlist.{JsonFile, AllowlistError, tools}

pub record Tool : Type 0 where
  pub name : String
  pub description : String

-- A result of the upstream's, or the text of a message of the gateway's own.
pub data Content : Type 0 where
  upstream_content : Fields → Content
  policy_unavailable : AllowlistError → Content
  blocked : String → Content
  upstream_timed_out : Content
  upstream_unavailable : String → Content

pub record CallToolResult : Type 0 where
  pub content : Content
  pub is_error : Bool

pub record GatewayAuditEvent : Type 0 where
  pub tool_name : String
  pub reason : String

pub data UpstreamError : Type 0 where
  timeout : UpstreamError
  other : String → UpstreamError

-- The exceptions of `list_tools`.
pub data ListError : Type 0 where
  allowlist_error : AllowlistError → ListError
  timed_out : ListError
  unavailable : String → ListError

-- What a call did: its result, its audit events, and the calls that went to the upstream.
pub record Handled : Type 0 where
  pub result : CallToolResult
  pub audit : List GatewayAuditEvent
  pub forwarded : List (String × Fields)

-- `_error`
unfoldable pub error : Content → CallToolResult
error content = record { content = content; is_error = true }

abbrev listing_error : UpstreamError → ListError
listing_error timeout = timed_out
listing_error (other name) = unavailable name

-- A client's calls, between which the allowlist is replaced.
pub data Event : Type 0 where
  replaced : JsonFile → Event
  called : String → Fields → Event

-- The allowlist after some events.
unfoldable pub file_after : JsonFile → List Event → JsonFile
file_after file [] = file
file_after file (replaced file' ∷ events) = file_after file' events
file_after file (called name arguments ∷ events) = file_after file events

module _ (upstream_tools : Result UpstreamError (List Tool))
    (upstream_call : String → Fields → Result UpstreamError CallToolResult) where
  abbrev visible : List String → Result UpstreamError (List Tool) → Result ListError (List Tool)
  visible allowed (ok found) = ok (filter (λ (t : Tool). member t.name allowed) found)
  visible allowed (err e) = err (listing_error e)

  abbrev listing : Result AllowlistError (List String) → Result ListError (List Tool)
  listing (ok allowed) = visible allowed upstream_tools
  listing (err e) = err (allowlist_error e)

  unfoldable pub list_tools : JsonFile → Result ListError (List Tool)
  unfolding tools
  list_tools file = listing (tools file)

  -- What the upstream answered, or the gateway's message for its exception.
  unfoldable pub answer : Result UpstreamError CallToolResult → CallToolResult
  unfolding error
  answer (ok result) = result
  answer (err timeout) = error upstream_timed_out
  answer (err (other name)) = error (upstream_unavailable name)

  unfoldable pub decide : Result AllowlistError (List String) → String → Fields → Handled
  unfolding error answer
  decide (err e) name arguments = record {
    result = error (policy_unavailable e);
    audit = [];
    forwarded = [];
  }
  decide (ok allowed) name arguments =
      if member name allowed
      then record {
        result = answer (upstream_call name arguments);
        audit = [];
        forwarded = (name, arguments) ∷ [];
      }
      else record {
        result = error (blocked name);
        audit = record { tool_name = name; reason = "tool is not allowlisted" } ∷ [];
        forwarded = [];
      }

  unfoldable pub call_tool : JsonFile → String → Fields → Handled
  unfolding tools decide
  call_tool file name arguments = decide (tools file) name arguments

  -- What went to the upstream over a session.
  unfoldable pub session : JsonFile → List Event → List (String × Fields)
  unfolding call_tool
  session file [] = []
  session file (replaced file' ∷ events) = session file' events
  session file (called name arguments ∷ events) =
      (call_tool file name arguments).forwarded ++ session file events
