-- ===== src/Jsonrpc/Client.antt =====
-- The requests of `JsonRpcSubprocessClient`, src/vibe/codex/jsonrpc.py, and the responses to them. What a
-- task does between two waits is one event. The time, the process and the decoding of a line's JSON are
-- not modelled: an event says that a wait timed out, that a write failed, or which message arrived.
pub mod Steps
pub mod Requests
pub mod Sound
pub mod Answers
use local_skill_orchestrator.Prelude.{
  ℕ, suc, String, str_append, Bool, true, false, not, ◌&&◌, ◌||◌, Option, none, some, is_some, List,
  [], ◌∷◌, ◌++◌, map, filter, nat_eq, if◌then◌else◌, ℤ, pos, negsuc,
}
use local_skill_orchestrator.Prelude.Json.{
  Json, null, integer, string, object, Fields, end, field, get_field,
}
use local_skill_orchestrator.Prelude.Results.{Result, ok, err, ◌>>=◌, ◌>>◌}

pub data RpcError : Type 0 where
  not_started closing : RpcError
  malformed : String → RpcError
  timed_out : RpcError
  process_ended : RpcError
  remote : ℤ → String → Option Json → RpcError
  both_given : RpcError

pub data RequestId : Type 0 where
  number : ℤ → RequestId
  text : String → RequestId

-- `_PendingRequest`, with `answered` for its event
pub record PendingRequest : Type 0 where
  pub answered : Bool
  pub result : Json
  pub error : Option RpcError

pub record JsonRpcNotification : Type 0 where
  pub method : String
  pub params : Json

pub record ServerRequest : Type 0 where
  pub id : RequestId
  pub method : String
  pub params : Json

pub record RpcClient : Type 0 where
  pub started : Bool
  pub pending : List (ℕ × PendingRequest)
  pub next_id : ℕ
  pub notifications : List JsonRpcNotification
  pub server_requests : List ServerRequest
  pub written : List Json
  pub terminal_error : Option RpcError
  pub is_closing : Bool

-- `__init__`
unfoldable pub new_client : RpcClient
new_client = record {
  started = false;
  pending = [];
  next_id = 1;
  notifications = [];
  server_requests = [];
  written = [];
  terminal_error = none;
  is_closing = false;
}

-- `_ensure_usable`
unfoldable pub ensure_usable : RpcClient → Result RpcError (Unit {0})
ensure_usable c = if not c.started then err not_started else usable c.terminal_error
  where
    usable : Option RpcError → Result RpcError (Unit {0})
    usable (some e) = err e
    usable none = if c.is_closing then err closing else ok tt

abbrev with_params : Option Json → Fields → Fields
with_params none fields = fields
with_params (some params) fields = append_params fields
  where
    append_params : Fields → Fields
    append_params end = field "params" params end
    append_params (field k v fs) = field k v (append_params fs)

-- The message of a request.
unfoldable pub request_message : ℕ → String → Option Json → Json
request_message id method params =
    object (with_params params (field "id" (integer (pos id)) (field "method" (string method) end)))

abbrev unanswered : PendingRequest
unanswered = record { answered = false; result = null; error = none }

-- `request` up to its first wait: the identifier and the entry.
unfoldable pub register : RpcClient → Result RpcError (ℕ × RpcClient)
unfolding ensure_usable
register c = do
  ensure_usable c
  ok (
    c.next_id,
    record c { next_id = suc c.next_id; pending = (c.next_id, unanswered) ∷ c.pending },
  )

abbrev give_up : RpcError → ℕ × PendingRequest → ℕ × PendingRequest
give_up e (id, p) = (id, record p { answered = true; error = some e })

-- `_fail`: the first failure stays, and wakes every waiting request.
unfoldable pub fail : RpcError → RpcClient → RpcClient
fail e c =
    if is_some c.terminal_error
    then c
    else record c { terminal_error = some e; pending = map (give_up e) c.pending }

abbrev write :
    Option RpcError
    → Json
    → Result RpcError (Unit {0})
    → RpcClient
    → Result RpcError (Unit {0}) × RpcClient
unfolding fail
write broken message (err e) c = (err e, c)
write none message (ok u) c = (ok tt, record c { written = c.written ++ (message ∷ []) })
write (some e) message (ok u) c = (err e, fail e c)

-- `_send`, where `broken` is the error of a write that fails
unfoldable pub send : Option RpcError → Json → RpcClient → Result RpcError (Unit {0}) × RpcClient
unfolding ensure_usable write
send broken message c = write broken message (ensure_usable c) c

-- self._pending.pop(request_id, None)
unfoldable pub forget : ℕ → RpcClient → RpcClient
forget id c = record c { pending = filter (λ q. not (nat_eq q.0 id)) c.pending }

unfoldable pub find : ℕ → List (ℕ × PendingRequest) → Option PendingRequest
find id [] = none
find id ((j, p) ∷ ps) = if nat_eq j id then some p else find id ps

abbrev pub answer_of : PendingRequest → Result RpcError Json
answer_of p = elim p.error [ none ↦ ok p.result | some e ↦ err e ]

abbrev woken :
    ℕ → Bool → Option PendingRequest → RpcClient → Option (Result RpcError Json) × RpcClient
unfolding forget
woken id too_late none c = (none, c)
woken id true (some p) c = (some (err timed_out), forget id c)
woken id false (some p) c = if p.answered then (some (answer_of p), forget id c) else (none, c)

-- The rest of `request` after its wait: a result, if the wait is over, and the client without the entry.
unfoldable pub finish_request : ℕ → Bool → RpcClient → Option (Result RpcError Json) × RpcClient
unfolding find forget woken
finish_request id too_late c = woken id too_late (find id c.pending) c

-- `_as_request_id`
unfoldable pub as_request_id : Json → Result RpcError RequestId
as_request_id (integer n) = ok (number n)
as_request_id (string s) = ok (text s)
as_request_id _ = err (malformed "JSON-RPC id must be an integer or string")

abbrev remote_of : Option Json → Option Json → Option Json → Result RpcError RpcError
remote_of (some (integer code)) (some (string message)) more = ok (remote code message more)
remote_of _ _ more = err (malformed "JSON-RPC error requires integer code and string message")

-- `_parse_remote_error`
unfoldable pub parse_remote_error : Json → Result RpcError RpcError
unfolding get_field
parse_remote_error (object fields) =
    remote_of (get_field "code" fields) (get_field "message" fields) (get_field "data" fields)
parse_remote_error _ = err (malformed "JSON-RPC error must be an object")

abbrev change :
    ℕ → (PendingRequest → PendingRequest) → List (ℕ × PendingRequest) → List (ℕ × PendingRequest)
change id f [] = []
change id f ((j, p) ∷ ps) = if nat_eq j id then (j, f p) ∷ ps else (j, p) ∷ change id f ps

abbrev pub settled : Option Json → Option Json → Result RpcError (PendingRequest → PendingRequest)
unfolding parse_remote_error
settled (some e) result =
    parse_remote_error e >>= λ x. ok (λ p. record p { answered = true; error = some x })
settled none (some r) = ok (λ p. record p { answered = true; result = r })
settled none none = ok (λ p. record p {
  answered = true;
  error = some (malformed "response has neither result nor error");
})

-- The entry of a message's identifier, if there is one.
abbrev pub respond_to :
    RequestId → Option Json → Option Json → RpcClient → Result RpcError RpcClient
unfolding find parse_remote_error
respond_to (number (pos id)) e result c =
    if is_some (find id c.pending)
    then (settled e result >>= λ f. ok (record c { pending = change id f c.pending }))
    else ok c
respond_to _ e result c = ok c

-- `_route_response`
unfoldable pub route_response : Fields → Json → RpcClient → Result RpcError RpcClient
unfolding as_request_id find parse_remote_error get_field
route_response message id c = do
  request_id ← as_request_id id
  respond_to request_id (get_field "error" message) (get_field "result" message) c

abbrev or_null : Option Json → Json
or_null none = null
or_null (some v) = v

abbrev server_message : Json → Option Json → Json → RpcClient → Result RpcError RpcClient
unfolding as_request_id
server_message (string method) none params c = ok (record c {
  notifications = c.notifications ++ (record { method = method; params = params } ∷ []);
})
server_message (string method) (some id) params c = do
  request_id ← as_request_id id
  ok (record c {
    server_requests =
        c.server_requests ++ (record { id = request_id; method = method; params = params } ∷ []);
  })
server_message _ id params c = err (malformed "JSON-RPC method must be a string")

abbrev route_fields : Fields → Option Json → Option Json → RpcClient → Result RpcError RpcClient
unfolding route_response as_request_id get_field
route_fields message (some method) id c =
    server_message method id (or_null (get_field "params" message)) c
route_fields message none (some id) c = route_response message id c
route_fields message none none c = err (malformed "app-server message has neither method nor id")

-- `_route_line` of a decoded line, with `_route_server_message`
unfoldable pub route : Json → RpcClient → Result RpcError RpcClient
unfolding route_response as_request_id get_field
route (object message) c =
    route_fields message (get_field "method" message) (get_field "id" message) c
route _ c = err (malformed "app-server JSON-RPC message must be an object")

abbrev after : Result RpcError RpcClient → RpcClient → RpcClient
unfolding fail
after (ok d) c = d
after (err e) c = fail e c

-- A whole line that is routed, or the failure of the whole client.
unfoldable pub receive : Json → RpcClient → RpcClient
unfolding route fail
receive message c = after (route message c) c

abbrev routed_or_same : Result RpcError RpcClient → RpcClient → RpcClient
routed_or_same (ok d) c = d
routed_or_same (err e) c = c

-- What is left without a newline at the end of the output. The error of such a line leaves the reading
-- task from inside the handler of the end, and so does not come to `_fail`.
unfoldable pub receive_last : Json → RpcClient → RpcClient
unfolding route
receive_last message c = routed_or_same (route message c) c

-- `respond`: the message of a response.
unfoldable pub response_message : Json → Option Json → Option RpcError → Result RpcError Json
response_message id result none = ok (object (field "id" id (field "result" (or_null result) end)))
response_message id (some result) (some e) = err both_given
response_message id none (some (remote code message more)) = ok (
    object (
      field "id" id (
        field "error"
          (object
            (field "code" (integer code) (field "message" (string message) (data_field more))))
          end)))
  where
    data_field : Option Json → Fields
    data_field none = end
    data_field (some value) = field "data" value end
response_message id none (some _) = err both_given
