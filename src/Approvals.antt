-- ===== src/Approvals.antt =====
-- src/vibe/codex/approvals.py: the answers to the app server's requests. A JSON-RPC identifier is a
-- JSON value.
pub mod Grants
mod Examples
use local_skill_orchestrator.Prelude.{
  String, Bool, true, false, Option, none, some, if◌then◌else◌, ◌==◌, string_Eq, is_text, Dict,
  lookup, List, [], ◌∷◌,
}
use local_skill_orchestrator.Prelude.Json.{
  Json, boolean, string, array, object, nil, Fields, end, field, get_field,
}
use local_skill_orchestrator.Prelude.Results.{Result, ok, err, ◌>>=◌}

pub data ApprovalKind : Type 0 where
  command file_change permissions dynamic_tool unknown : ApprovalKind

pub data ApprovalOutcome : Type 0 where
  allow deny prompt : ApprovalOutcome

pub record JsonRpcServerRequest : Type 0 where
  pub id : Json
  pub method : String
  pub params : Option Json

pub record ApprovalRequest : Type 0 where
  pub request_id : Json
  pub method : String
  pub kind : ApprovalKind
  pub thread_id : Option String
  pub turn_id : Option String
  pub item_id : Option String
  pub tool_name : Option String
  pub requested_permissions : Option Fields

pub record ApprovalAuditRecord : Type 0 where
  pub request_id : Json
  pub method : String
  pub kind : ApprovalKind
  pub outcome : ApprovalOutcome
  pub thread_id : Option String
  pub turn_id : Option String
  pub item_id : Option String
  pub tool_name : Option String

pub record ApprovalDecision : Type 0 where
  pub outcome : ApprovalOutcome
  pub response : Option Fields
  pub audit : ApprovalAuditRecord

-- `ApprovalProtocolError`, by what its message names
pub data ApprovalProtocolError : Type 0 where
  not_an_object : String → ApprovalProtocolError
  not_a_string : String → ApprovalProtocolError

-- The policy's mapping of kinds to outcomes.
abbrev pub ApprovalPolicy : Type 0
ApprovalPolicy = ApprovalKind → Option ApprovalOutcome

-- _METHOD_KINDS.get(method, UNKNOWN)
unfoldable pub kind_of : String → ApprovalKind
kind_of method =
    if method == "item/commandExecution/requestApproval"
    then command
    else if method == "item/fileChange/requestApproval"
    then file_change
    else if method == "item/permissions/requestApproval"
    then permissions
    else if method == "item/tool/call"
    then dynamic_tool
    else unknown

abbrev or_deny : Option ApprovalOutcome → ApprovalOutcome
or_deny none = deny
or_deny (some outcome) = outcome

unfoldable pub outcome_for : ApprovalPolicy → ApprovalKind → ApprovalOutcome
outcome_for policy unknown = deny
outcome_for policy kind = or_deny (policy kind)

unfoldable pub expect_object : Option Json → String → Result ApprovalProtocolError Fields
expect_object (some (object fields)) label = ok fields
expect_object _ label = err (not_an_object label)

abbrev text_of : Option Json → String → Result ApprovalProtocolError String
text_of (some (string s)) key = if is_text s then ok s else err (not_a_string key)
text_of _ key = err (not_a_string key)

unfoldable pub required_string : Fields → String → Result ApprovalProtocolError String
unfolding get_field
required_string value key = text_of (get_field key value) key

-- The fields that only some kinds have: `item_id`, `tool_name` and `requested_permissions`.
unfoldable pub parse_fields :
    ApprovalKind
    → Fields
    → Result ApprovalProtocolError (Option String × Option String × Option Fields)
unfolding required_string expect_object
parse_fields dynamic_tool params = do
  item ← required_string params "callId"
  tool ← required_string params "tool"
  ok (some item, some tool, none)
parse_fields permissions params = do
  item ← required_string params "itemId"
  requested ← expect_object (get_field "permissions" params) "permissions"
  ok (some item, none, some requested)
parse_fields _ params = do item ← required_string params "itemId"; ok (some item, none, none)

unfoldable pub parse_known :
    ApprovalKind → JsonRpcServerRequest → Result ApprovalProtocolError ApprovalRequest
unfolding parse_fields
parse_known unknown request = ok (record {
  request_id = request.id;
  method = request.method;
  kind = unknown;
  thread_id = none;
  turn_id = none;
  item_id = none;
  tool_name = none;
  requested_permissions = none;
})
parse_known kind request = do
  params ← expect_object request.params request.method
  thread ← required_string params "threadId"
  turn ← required_string params "turnId"
  rest ← parse_fields kind params
  ok (record {
    request_id = request.id;
    method = request.method;
    kind = kind;
    thread_id = some thread;
    turn_id = some turn;
    item_id = rest.0;
    tool_name = rest.1;
    requested_permissions = rest.2;
  })

unfoldable pub parse_approval : JsonRpcServerRequest → Result ApprovalProtocolError ApprovalRequest
unfolding kind_of parse_known
parse_approval request = parse_known (kind_of request.method) request

-- permissions or {}
abbrev or_empty : Option Fields → Fields
or_empty none = end
or_empty (some fields) = fields

abbrev decision : String → Option Fields
decision answer = some (field "decision" (string answer) end)

unfoldable pub response_for : ApprovalKind → Option Fields → ApprovalOutcome → Option Fields
response_for kind requested prompt = none
response_for command requested allow = decision "accept"
response_for command requested deny = decision "decline"
response_for file_change requested allow = decision "accept"
response_for file_change requested deny = decision "decline"
response_for permissions requested allow =
    some (field "permissions" (object (or_empty requested)) (field "scope" (string "turn") end))
response_for permissions requested deny =
    some (field "permissions" (object end) (field "scope" (string "turn") end))
response_for dynamic_tool requested allow = none
response_for dynamic_tool requested deny =
    some (field "contentItems" (array nil) (field "success" (boolean false) end))
response_for unknown requested _ = decision "decline"

unfoldable pub decide_approval : ApprovalRequest → ApprovalPolicy → ApprovalDecision
unfolding outcome_for response_for
decide_approval request policy =
    let outcome = outcome_for policy request.kind in
    record {
      outcome = outcome;
      response = response_for request.kind request.requested_permissions outcome;
      audit = record {
        request_id = request.request_id;
        method = request.method;
        kind = request.kind;
        outcome = outcome;
        thread_id = request.thread_id;
        turn_id = request.turn_id;
        item_id = request.item_id;
        tool_name = request.tool_name;
      };
    }
