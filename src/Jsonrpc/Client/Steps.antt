-- ===== src/Jsonrpc/Client/Steps.antt =====
-- The states that a client of the app server can be in.
use local_skill_orchestrator.Prelude.{
  ℕ, ◌<◌, ◌≡◌, Bool, true, Option, none, some, is_some, List, [], ◌∷◌, In, All, if◌then◌else◌, pos,
}
use local_skill_orchestrator.Prelude.Json.{Json, integer, object, get_field}
use local_skill_orchestrator.Prelude.Results.{Result, ok, err}
use local_skill_orchestrator.Jsonrpc.Client.{
  process_ended, RpcError, PendingRequest, RpcClient, new_client, register, fail, send, forget,
  finish_request, receive, receive_last,
}

-- What may happen to a client.
pub data Event : Type 0 where
  starts closes ends : Event
  registers : Event
  -- the write of a request's message, which fails or not; after a failure the request is given up
  writes : ℕ → Json → Option RpcError → Event
  receives receives_last : Json → Event
  -- a request's wait, which timed out or not
  wakes : ℕ → Bool → Event

abbrev pub registered : Result RpcError (ℕ × RpcClient) → RpcClient → RpcClient
registered (ok (id, d)) c = d
registered (err e) c = c

unfoldable pub sent : ℕ → Result RpcError (Unit {0}) × RpcClient → RpcClient
unfolding forget
sent id (ok u, c) = c
sent id (err e, c) = forget id c

unfoldable pub step : Event → RpcClient → RpcClient
unfolding fail register send sent forget receive receive_last finish_request
step starts c = record c { started = true }
step closes c = record c { is_closing = true }
step ends c = if c.is_closing then c else fail process_ended c
step registers c = registered (register c) c
step (writes id message broken) c = sent id (send broken message c)
step (receives message) c = receive message c
step (receives_last message) c = receive_last message c
step (wakes id too_late) c = (finish_request id too_late c).1

abbrev pub history_after : Event → List Json → List Json
history_after (receives message) h = message ∷ h
history_after (receives_last message) h = message ∷ h
history_after _ h = h

-- The states that a client can be in, with the messages that arrived.
pub data Reachable : List Json → RpcClient → Type 0 where
  begin : Reachable [] new_client
  next :
      {h : List Json} {c : RpcClient} (e : Event)
      → Reachable h c
      → Reachable (history_after e h) (step e c)

-- The message is a response to the request, with the result.
abbrev pub IsResponse : ℕ → Json → Json → Type 0
unfolding get_field
IsResponse id r (object fields) =
    (get_field "method" fields ≡ none)
    × (get_field "id" fields ≡ some (integer (pos id)))
    × (get_field "error" fields ≡ none)
    × (get_field "result" fields ≡ some r)
IsResponse id r _ = ⊥

-- An entry has an identifier that was given out; it is answered, where the client failed; and a result
-- in it is that of a response that arrived.
abbrev pub IsEntry : List Json → Option RpcError → ℕ → ℕ × PendingRequest → Type 0
IsEntry h terminal bound (id, p) =
    (id < bound)
    × (is_some terminal ≡ true → p.answered ≡ true)
    × (p.answered ≡ true → p.error ≡ none → (m : Json) × In m h × IsResponse id p.result m)

abbrev pub IsSound : List Json → RpcClient → Type 0
IsSound h c = All (IsEntry h c.terminal_error c.next_id) c.pending
