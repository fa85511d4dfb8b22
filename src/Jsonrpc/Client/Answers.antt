-- ===== src/Jsonrpc/Client/Answers.antt =====
-- What a request gets: the response with its identifier, or the failure of the connection.
use local_skill_orchestrator.Prelude.{
  some_inj, subst, ℕ, ◌≡◌, inl, inr, Bool, true, false, Option, none, some, is_some, List, [], ◌∷◌,
  In, All, nat_eq, arith, Bool-cases, Option-cases,
}
use local_skill_orchestrator.Prelude.Json.{Json}
use local_skill_orchestrator.Prelude.Results.{ok}
use local_skill_orchestrator.Jsonrpc.Client.{
  answer_of, woken, RpcError, PendingRequest, RpcClient, find, finish_request,
}
use local_skill_orchestrator.Jsonrpc.Client.Steps.{Reachable, IsResponse, IsEntry}
use local_skill_orchestrator.Jsonrpc.Client.Sound.{Reachable-IsSound}

find-IsEntry :
    (h : List Json) (t : Option RpcError) (bound id : ℕ) (p : PendingRequest)
    (ps : List (ℕ × PendingRequest))
    → find id ps ≡ some p
    → All (IsEntry h t bound) ps
    → IsEntry h t bound (id, p)
unfolding find
find-IsEntry h t bound id p [] e s = absurd (cc)
find-IsEntry h t bound id p ((j, q) ∷ ps) e s = elim (Bool-cases (nat_eq j id)) [
  | inl y ↦
      let same : j ≡ id = ground arith in
      let entry : q ≡ p = some_inj (rw y at e) in
      subst (λ (x : PendingRequest). IsEntry h t bound (id, x)) entry
        (subst (λ (x : ℕ). IsEntry h t bound (x, q)) same s.0)
  | inr y ↦ find-IsEntry h t bound id p ps (rw y at e) s.1
]

woken-answer :
    (id : ℕ) (p : PendingRequest) (r : Json) (c : RpcClient)
    → (woken id false (some p) c).0 ≡ some (ok r)
    → (p.answered ≡ true) × (answer_of p ≡ ok r)
unfolding woken
woken-answer id p r c h = ground arith

answered-result :
    (p : PendingRequest) (r : Json)
    → (p.answered ≡ true) × (answer_of p ≡ ok r)
    → (p.answered ≡ true) × (p.error ≡ none) × (p.result ≡ r)
answered-result p r h = ground arith

-- A request's result comes from a response that arrived with its identifier, and no error.
pub finish_request-IsResponse :
    (h : List Json) (c : RpcClient) (id : ℕ) (too_late : Bool) (r : Json)
    → Reachable h c
    → (finish_request id too_late c).0 ≡ some (ok r)
    → (m : Json) × In m h × IsResponse id r m
unfolding finish_request
finish_request-IsResponse h c id true r reach e = elim (Option-cases (find id c.pending)) [
  | inl none_there ↦ absurd (ground arith)
  | inr (p, there) ↦ absurd (ground arith)
]
finish_request-IsResponse h c id false r reach e = elim (Option-cases (find id c.pending)) [
  | inl none_there ↦ absurd (ground arith)
  | inr (p, there) ↦
      let (answered, no_error, result) =
        answered-result p r (woken-answer id p r c (rw there at e)) in
      subst (λ x. (m : Json) × In m h × IsResponse id x m) result
        ((find-IsEntry h c.terminal_error c.next_id id p c.pending there
            (Reachable-IsSound reach)).2
          answered no_error)
]

-- After the connection failed no request waits any longer: each one that still stands has its result.
pub failed-finish_request :
    (h : List Json) (c : RpcClient) (id : ℕ) (p : PendingRequest) (too_late : Bool)
    → Reachable h c
    → is_some c.terminal_error ≡ true
    → find id c.pending ≡ some p
    → is_some (finish_request id too_late c).0 ≡ true
unfolding finish_request
failed-finish_request h c id p true reach failed there = ground arith
failed-finish_request h c id p false reach failed there = ground (
  arith,
  (find-IsEntry h c.terminal_error c.next_id id p c.pending there (Reachable-IsSound reach)).1
      failed,
)
