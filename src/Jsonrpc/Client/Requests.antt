-- ===== src/Jsonrpc/Client/Requests.antt =====
-- The requests of a client keep its entries sound.
use local_skill_orchestrator.Prelude.{
  ℕ, suc, ◌≡◌, refl, inl, inr, Bool, true, false, not, Option, none, some, is_some, List, [], ◌∷◌,
  map, filter, All, nat_eq, arith, Bool-cases, Option-cases,
}
use local_skill_orchestrator.Prelude.Json.{Json}
use local_skill_orchestrator.Prelude.Results.{ok, Result-cases}
use local_skill_orchestrator.Jsonrpc.Client.{
  woken, write, RpcError, PendingRequest, RpcClient, ensure_usable, register, fail, send, forget,
  find, finish_request, give_up,
}
use local_skill_orchestrator.Jsonrpc.Client.Steps.{registered, sent, IsEntry, IsSound}

pub All-grow :
    (h : List Json) (m : Json) (t : Option RpcError) (bound : ℕ) (ps : List (ℕ × PendingRequest))
    → All (IsEntry h t bound) ps
    → All (IsEntry (m ∷ h) t bound) ps
All-grow h m t bound [] s = tt
All-grow h m t bound ((id, p) ∷ ps) s =
    ((s.0.0, s.0.1, λ a e. let (x, i, r) = s.0.2 a e in (x, inr i, r)), All-grow h m t bound ps s.1)

All-suc :
    (h : List Json) (t : Option RpcError) (bound : ℕ) (ps : List (ℕ × PendingRequest))
    → All (IsEntry h t bound) ps
    → All (IsEntry h t (suc bound)) ps
All-suc h t bound [] s = tt
All-suc h t bound ((id, p) ∷ ps) s = ((omega arith, s.0.1, s.0.2), All-suc h t bound ps s.1)

All-give_up :
    (h : List Json) (t : Option RpcError) (bound : ℕ) (e : RpcError)
    (ps : List (ℕ × PendingRequest))
    → All (IsEntry h t bound) ps
    → All (IsEntry h (some e) bound) (map (give_up e) ps)
All-give_up h t bound e [] s = tt
All-give_up h t bound e ((id, p) ∷ ps) s =
    ((s.0.0, λ x. refl, λ x y. absurd (cc)), All-give_up h t bound e ps s.1)

All-filter :
    (h : List Json) (t : Option RpcError) (bound id : ℕ) (ps : List (ℕ × PendingRequest))
    → All (IsEntry h t bound) ps
    → All (IsEntry h t bound) (filter (λ q. not (nat_eq q.0 id)) ps)
All-filter h t bound id [] s = tt
All-filter h t bound id ((j, p) ∷ ps) s = elim (Bool-cases (nat_eq j id)) [
  | inl y ↦ rw y (All-filter h t bound id ps s.1)
  | inr y ↦ rw y (s.0, All-filter h t bound id ps s.1)
]

pub fail-IsSound :
    (h : List Json) (e : RpcError) (c : RpcClient) → IsSound h c → IsSound h (fail e c)
unfolding fail
fail-IsSound h e c s = elim (Bool-cases (is_some c.terminal_error)) [
  | inl y ↦ rw y s
  | inr y ↦ rw y (All-give_up h c.terminal_error c.next_id e c.pending s)
]

pub forget-IsSound :
    (h : List Json) (id : ℕ) (c : RpcClient) → IsSound h c → IsSound h (forget id c)
unfolding forget
forget-IsSound h id c s = All-filter h c.terminal_error c.next_id id c.pending s

ensure_usable-open : (c : RpcClient) → ensure_usable c ≡ ok tt → c.terminal_error ≡ none
unfolding ensure_usable
ensure_usable-open c h = ground arith

pub register-IsSound :
    (h : List Json) (c : RpcClient) → IsSound h c → IsSound h (registered (register c) c)
unfolding register
register-IsSound h c s = elim (Result-cases (ensure_usable c)) [
  | inr (e, refused) ↦ rw refused s
  | inl (u, usable) ↦ rw usable (
    (
      omega arith,
      λ failed. failing c.terminal_error (ensure_usable-open c usable) failed,
      λ a. absurd (cc),
    ),
    All-suc h c.terminal_error c.next_id c.pending s,
  )
]
  where
    failing : {A : Type 0} (t : Option RpcError) → t ≡ none → is_some t ≡ true → A
    failing t e f = absurd (cc)

pub send-IsSound :
    (h : List Json) (id : ℕ) (message : Json) (broken : Option RpcError) (c : RpcClient)
    → IsSound h c
    → IsSound h (sent id (send broken message c))
unfolding send sent write
send-IsSound h id message none c s = elim (Result-cases (ensure_usable c)) [
  | inr (e, refused) ↦ rw refused (forget-IsSound h id c s)
  | inl (u, usable) ↦ rw usable s
]
send-IsSound h id message (some x) c s = elim (Result-cases (ensure_usable c)) [
  | inr (e, refused) ↦ rw refused (forget-IsSound h id c s)
  | inl (u, usable) ↦ rw usable (forget-IsSound h id (fail x c) (fail-IsSound h x c s))
]

pub wake-IsSound :
    (h : List Json) (id : ℕ) (too_late : Bool) (c : RpcClient)
    → IsSound h c
    → IsSound h (finish_request id too_late c).1
unfolding finish_request woken
wake-IsSound h id true c s = elim (Option-cases (find id c.pending)) [
  | inl e ↦ rw e s
  | inr (p, e) ↦ rw e (forget-IsSound h id c s)
]
wake-IsSound h id false c s = elim (Option-cases (find id c.pending)) [
  | inl e ↦ rw e s
  | inr (p, e) ↦ elim (Bool-cases p.answered) [
    | inl a ↦ rw e (rw a (forget-IsSound h id c s))
    | inr a ↦ rw e (rw a s)
  ]
]
