-- ===== src/Jsonrpc/Client/Sound.antt =====
-- Every state of the client has sound entries, whatever arrives and in whatever order.
use local_skill_orchestrator.Prelude.{
  sym, subst, ℕ, ◌≡◌, refl, inl, inr, Bool, true, false, Option, none, some, is_some, List, [], ◌∷◌,
  In, All, nat_eq, if◌then◌else◌, pos, negsuc, arith, Bool-cases,
}
use local_skill_orchestrator.Prelude.Json.{Json, null, integer, string, object, Fields, get_field}
use local_skill_orchestrator.Prelude.Results.{Result, ok, err, Result-cases}
use local_skill_orchestrator.Jsonrpc.Client.{
  receive_last, or_null, after, route_fields, number, server_message, process_ended, RpcError,
  PendingRequest, RpcClient, new_client, fail, find, as_request_id, parse_remote_error, change,
  settled, respond_to, route_response, route, receive,
}
use local_skill_orchestrator.Jsonrpc.Client.Steps.{
  Event, starts, closes, ends, registers, writes, receives, receives_last, wakes, step,
  history_after, Reachable, begin, next, IsResponse, IsEntry, IsSound,
}
use local_skill_orchestrator.Jsonrpc.Client.Requests.{
  All-grow, fail-IsSound, register-IsSound, send-IsSound, wake-IsSound,
}

All-change :
    (h : List Json) (t : Option RpcError) (bound id : ℕ) (f : PendingRequest → PendingRequest)
    (ps : List (ℕ × PendingRequest))
    → ((p : PendingRequest) → IsEntry h t bound (id, p) → IsEntry h t bound (id, f p))
    → All (IsEntry h t bound) ps
    → All (IsEntry h t bound) (change id f ps)
All-change h t bound id f [] k s = tt
All-change h t bound id f ((j, p) ∷ ps) k s = elim (Bool-cases (nat_eq j id)) [
  | inl y ↦
      let same : j ≡ id = ground arith in
      rw y (
        subst (λ (x : ℕ). IsEntry h t bound (x, f p)) (sym same)
            (k p (subst (λ (x : ℕ). IsEntry h t bound (x, p)) same s.0)),
        s.1,
      )
  | inr y ↦ rw y (s.0, All-change h t bound id f ps k s.1)
]

ok_inj : {E A : Type 0} {a b : A} → ◌≡◌ {A = Result E A} (ok a) (ok b) → a ≡ b
ok_inj h = cc

err_ok : {E A : Type 0} {e : E} {a : A} → ◌≡◌ {A = Result E A} (err e) (ok a) → ⊥
err_ok h = cc

settled-IsEntry :
    (h : List Json) (t : Option RpcError) (bound id : ℕ) (e r : Option Json)
    (f : PendingRequest → PendingRequest)
    → settled e r ≡ ok f
    → ((v : Json) → e ≡ none → r ≡ some v → (m : Json) × In m h × IsResponse id v m)
    → (p : PendingRequest) → IsEntry h t bound (id, p)
    → IsEntry h t bound (id, f p)
unfolding settled
settled-IsEntry h t bound id (some e) r f same k p s = elim (Result-cases (parse_remote_error e)) [
  | inl (x, parsed) ↦
      subst (λ (g : PendingRequest → PendingRequest). IsEntry h t bound (id, g p))
        (ok_inj (rw parsed at same)) (s.0, λ y. refl, λ y z. absurd (cc))
  | inr (x, raised) ↦ absurd (err_ok (rw raised at same))
]
settled-IsEntry h t bound id none (some v) f same k p s =
    subst (λ (g : PendingRequest → PendingRequest). IsEntry h t bound (id, g p)) (ok_inj same)
      (s.0, λ y. refl, λ y z. k v refl refl)
settled-IsEntry h t bound id none none f same k p s =
    subst (λ (g : PendingRequest → PendingRequest). IsEntry h t bound (id, g p)) (ok_inj same)
      (s.0, λ y. refl, λ y z. absurd (cc))

-- The parts of the state that the entries depend on.
abbrev SameEntries : RpcClient → RpcClient → Type 0
SameEntries c d =
    (d.pending ≡ c.pending) × (d.terminal_error ≡ c.terminal_error) × (d.next_id ≡ c.next_id)

SameEntries-IsSound :
    (h : List Json) (c d : RpcClient) → SameEntries c d → IsSound h c → IsSound h d
SameEntries-IsSound h c d (p, t, n) s = subst (All (IsEntry h d.terminal_error d.next_id)) (sym p) (
    subst (λ x. All (IsEntry h x d.next_id) c.pending) (sym t)
      (subst (λ x. All (IsEntry h c.terminal_error x) c.pending) (sym n) s))

server_message-SameEntries :
    (method : Json) (id : Option Json) (params : Json) (c d : RpcClient)
    → server_message method id params c ≡ ok d
    → SameEntries c d
unfolding server_message as_request_id
server_message-SameEntries (string method) none params c d e = ground arith
server_message-SameEntries (string method) (some id) params c d e = ground arith
server_message-SameEntries _ id params c d e = ground arith

respond_to-IsSound :
    (h : List Json) (id : ℕ) (e r : Option Json) (c d : RpcClient)
    → ((v : Json) → e ≡ none → r ≡ some v → (m : Json) × In m h × IsResponse id v m)
    → respond_to (number (pos id)) e r c ≡ ok d
    → IsSound h c
    → IsSound h d
unfolding respond_to
respond_to-IsSound h id e r c d k same s = elim (Bool-cases (is_some (find id c.pending))) [
  | inr unknown ↦ subst (IsSound h) (ok_inj (rw unknown at same)) s
  | inl known ↦ elim (Result-cases (settled e r)) [
    | inr (x, raised) ↦ absurd (err_ok (rw (known, raised) at same))
    | inl (f, parsed) ↦ subst (IsSound h) (ok_inj (rw (known, parsed) at same)) (
        All-change h c.terminal_error c.next_id id f c.pending
          (settled-IsEntry h c.terminal_error c.next_id id e r f parsed k) s)
  ]
]

route_response-IsSound :
    (h : List Json) (message : Fields) (id : Json) (c d : RpcClient)
    → get_field "method" message ≡ none
    → get_field "id" message ≡ some id
    → In (object message) h
    → route_response message id c ≡ ok d
    → IsSound h c
    → IsSound h d
unfolding route_response as_request_id respond_to
route_response-IsSound h message (integer (pos id)) c d m i there same s =
    respond_to-IsSound h id (get_field "error" message) (get_field "result" message) c d
      (λ v e r. (object message, there, (m, i, e, r))) same s
route_response-IsSound h message (integer (negsuc n)) c d m i there same s =
    subst (IsSound h) (ok_inj same) s
route_response-IsSound h message (string t) c d m i there same s = subst (IsSound h) (ok_inj same) s
route_response-IsSound h message null c d m i there same s = absurd (err_ok same)
route_response-IsSound h message _ c d m i there same s = absurd (err_ok same)

route_fields-IsSound :
    (h : List Json) (message : Fields) (method id : Option Json) (c d : RpcClient)
    → get_field "method" message ≡ method
    → get_field "id" message ≡ id
    → In (object message) h
    → route_fields message method id c ≡ ok d
    → IsSound h c
    → IsSound h d
unfolding route_fields
route_fields-IsSound h message (some method) id c d m i there same s =
    SameEntries-IsSound h c d
      (server_message-SameEntries method id (or_null (get_field "params" message)) c d same) s
route_fields-IsSound h message none (some id) c d m i there same s =
    route_response-IsSound h message id c d m i there same s
route_fields-IsSound h message none none c d m i there same s = absurd (err_ok same)

route-IsSound :
    (h : List Json) (m : Json) (c d : RpcClient)
    → In m h
    → route m c ≡ ok d
    → IsSound h c
    → IsSound h d
unfolding route
route-IsSound h (object fields) c d there same s =
    route_fields-IsSound h fields (get_field "method" fields) (get_field "id" fields) c d refl refl
      there same s
route-IsSound h null c d there same s = absurd (err_ok same)
route-IsSound h _ c d there same s = absurd (err_ok same)

receive-IsSound :
    (h : List Json) (m : Json) (c : RpcClient) → IsSound h c → IsSound (m ∷ h) (receive m c)
unfolding receive after
receive-IsSound h m c s =
    let grown = All-grow h m c.terminal_error c.next_id c.pending s in
    elim (Result-cases (route m c)) [
      | inl (d, routed) ↦ rw routed (route-IsSound (m ∷ h) m c d (inl refl) routed grown)
      | inr (e, raised) ↦ rw raised (fail-IsSound (m ∷ h) e c grown)
    ]

receive_last-IsSound :
    (h : List Json) (m : Json) (c : RpcClient) → IsSound h c → IsSound (m ∷ h) (receive_last m c)
unfolding receive_last
receive_last-IsSound h m c s =
    let grown = All-grow h m c.terminal_error c.next_id c.pending s in
    elim (Result-cases (route m c)) [
      | inl (d, routed) ↦ rw routed (route-IsSound (m ∷ h) m c d (inl refl) routed grown)
      | inr (e, raised) ↦ rw raised grown
    ]

either-IsSound :
    (h : List Json) (b : Bool) (c d : RpcClient)
    → IsSound h c
    → IsSound h d
    → IsSound h (if b then c else d)
either-IsSound h true c d s t = s
either-IsSound h false c d s t = t

step-IsSound :
    (e : Event) (h : List Json) (c : RpcClient)
    → IsSound h c
    → IsSound (history_after e h) (step e c)
unfolding step
step-IsSound starts h c s = s
step-IsSound closes h c s = s
step-IsSound ends h c s =
    either-IsSound h c.is_closing c (fail process_ended c) s (fail-IsSound h process_ended c s)
step-IsSound registers h c s = register-IsSound h c s
step-IsSound (writes id message broken) h c s = send-IsSound h id message broken c s
step-IsSound (receives message) h c s = receive-IsSound h message c s
step-IsSound (receives_last message) h c s = receive_last-IsSound h message c s
step-IsSound (wakes id too_late) h c s = wake-IsSound h id too_late c s

pub Reachable-IsSound : {h : List Json} {c : RpcClient} → Reachable h c → IsSound h c
unfolding new_client
Reachable-IsSound begin = tt
Reachable-IsSound (next {h} {c} e r) = step-IsSound e h c (Reachable-IsSound r)
