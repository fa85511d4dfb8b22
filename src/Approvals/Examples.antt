-- ===== src/Approvals/Examples.antt =====
-- Concrete requests of the app server, at which the theorems of the approvals are applied.
use local_skill_orchestrator.Prelude.{◌≡◌, refl, ◌≢◌, none, some}
use local_skill_orchestrator.Prelude.Json.{null, boolean, string, object, Fields, end, field}
use local_skill_orchestrator.Approvals.{
  true, command, permissions, unknown, allow, JsonRpcServerRequest, ApprovalRequest, ApprovalPolicy,
  kind_of, parse_approval, decide_approval,
}
use local_skill_orchestrator.Approvals.Grants.{parse-decide-grant}

abbrev allow_all : ApprovalPolicy
allow_all kind = some allow

abbrev asked : JsonRpcServerRequest
asked = record {
  id = string "1";
  method = "item/commandExecution/requestApproval";
  params = some (
      object (
        field "threadId" (string "t")
          (field "turnId" (string "u") (field "itemId" (string "i") end))));
}

abbrev parsed : ApprovalRequest
parsed = record {
  request_id = string "1";
  method = "item/commandExecution/requestApproval";
  kind = command;
  thread_id = some "t";
  turn_id = some "u";
  item_id = some "i";
  tool_name = none;
  requested_permissions = none;
}

parse-decide-grant_example :
    (kind_of asked.method ≢ unknown) × (allow_all (kind_of asked.method) ≡ some allow)
unfolding parse_approval decide_approval
parse-decide-grant_example = parse-decide-grant asked parsed allow_all refl refl

abbrev wanted : Fields
wanted = field "network" (boolean true) end

abbrev permission_request : ApprovalRequest
permission_request = record {
  request_id = null;
  method = "item/permissions/requestApproval";
  kind = permissions;
  thread_id = some "t";
  turn_id = some "u";
  item_id = some "i";
  tool_name = none;
  requested_permissions = some wanted;
}
