-- ===== src/Approvals/Grants.antt =====
-- What an answer grants: nothing, unless the policy allows the kind of the request.
use local_skill_orchestrator.Prelude.{
  ◌≡◌, subst, ◌==◌, string_Eq, ◌≢◌, ◌⊎◌, Bool, true, false, ◌||◌, Option, none, some, arith,
}
use local_skill_orchestrator.Prelude.Json.{
  Json, boolean, string, object, Fields, end, field, get_field,
}
use local_skill_orchestrator.Prelude.Results.{ok}
use local_skill_orchestrator.Approvals.{
  ApprovalKind, command, file_change, permissions, dynamic_tool, unknown, allow,
  JsonRpcServerRequest, ApprovalRequest, ApprovalPolicy, outcome_for, parse_approval, parse_known,
  kind_of, decide_approval, response_for,
}

abbrev accepts : Option Json → Bool
accepts (some (string s)) = s == "accept"
accepts _ = false

abbrev has_permissions : Option Json → Bool
has_permissions (some (object (field k v fs))) = true
has_permissions _ = false

abbrev succeeds : Option Json → Bool
succeeds (some (boolean b)) = b
succeeds _ = false

-- A response that lets the app server go on: it accepts, gives a permission or reports a success.
abbrev pub is_grant : Option Fields → Bool
is_grant none = false
is_grant (some response) =
    accepts (get_field "decision" response)
    || has_permissions (get_field "permissions" response)
    || succeeds (get_field "success" response)

parsed-kind :
    (kind : ApprovalKind) (server_request : JsonRpcServerRequest) (request : ApprovalRequest)
    → parse_known kind server_request ≡ ok request
    → request.kind ≡ kind
unfolding parse_known
parsed-kind unknown server_request request h = ground arith
parsed-kind _ server_request request h = ground arith

grant-allowed :
    (kind : ApprovalKind) (requested : Option Fields) (policy : ApprovalPolicy)
    → is_grant (response_for kind requested (outcome_for policy kind)) ≡ true
    → (kind ≢ unknown) × (policy kind ≡ some allow)
unfolding response_for outcome_for get_field
grant-allowed unknown requested policy g = ground arith
grant-allowed command requested policy g = (λ e. ground arith, ground arith)
grant-allowed file_change requested policy g = (λ e. ground arith, ground arith)
grant-allowed permissions requested policy g = (λ e. ground arith, ground arith)
grant-allowed dynamic_tool requested policy g = (λ e. ground arith, ground arith)

-- Whatever the app server asks, by any method and with any parameters: a request that is parsed and
-- answered with a grant is of a kind that the policy maps to `allow`, and its method is one of the known.
pub parse-decide-grant :
    (server_request : JsonRpcServerRequest) (request : ApprovalRequest) (policy : ApprovalPolicy)
    → parse_approval server_request ≡ ok request
    → is_grant (decide_approval request policy).response ≡ true
    → (kind_of server_request.method ≢ unknown)
      × (policy (kind_of server_request.method) ≡ some allow)
unfolding parse_approval decide_approval
parse-decide-grant server_request request policy h g =
    let same : request.kind ≡ kind_of server_request.method =
      parsed-kind (kind_of server_request.method) server_request request h in
    subst (λ k. (k ≢ unknown) × (policy k ≡ some allow)) same
      (grant-allowed request.kind request.requested_permissions policy g)

-- The permissions of an answer are those that were requested, and only where the policy allows them.
pub decide-permissions :
    (request : ApprovalRequest) (policy : ApprovalPolicy) (response given : Fields)
    → request.kind ≡ permissions
    → (decide_approval request policy).response ≡ some response
    → get_field "permissions" response ≡ some (object given)
    → ((policy permissions ≡ some allow) × (request.requested_permissions ≡ some given))
      ⊎ (given ≡ end)
unfolding decide_approval get_field
decide-permissions request policy response given k h g = ground arith
