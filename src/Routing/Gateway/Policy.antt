-- ===== src/Routing/Gateway/Policy.antt =====
-- What passes the gateway.
use local_skill_orchestrator.Prelude.{
  filter, ◌∙◌, subst, sym, String, ◌≡◌, refl, ap, ◌⊎◌, inl, inr, ◌↔◌, false, List, [], ◌∷◌, ◌++◌,
  arith, In, append-In, filter-In, In-filter, member, member→In, In→member, string_Eq, Bool-cases,
}
use local_skill_orchestrator.Prelude.Json.{Fields}
use local_skill_orchestrator.Prelude.Results.{Result, ok, err, Result-cases}
use local_skill_orchestrator.Routing.Allowlist.{JsonFile, AllowlistError, tools}
use local_skill_orchestrator.Routing.Gateway.{
  Tool, CallToolResult, UpstreamError, Handled, call_tool, list_tools, decide, Event, replaced,
  called, session, file_after, error, blocked, policy_unavailable, answer,
}

module _ (upstream_tools : Result UpstreamError (List Tool))
    (upstream_call : String → Fields → Result UpstreamError CallToolResult) where
  -- A call goes to the upstream only where the allowlist can be read and names the tool, and then its
  -- answer is the result. A list that cannot be read makes an error, and a tool that the list does not
  -- name makes an error and one audit event; nothing is forwarded in either case.
  pub call_tool_lem :
      (file : JsonFile) (name : String) (arguments : Fields)
      → ((allowed : List String) × (tools file ≡ ok allowed)
          × In name allowed
          × (call_tool upstream_tools upstream_call file name arguments ≡ record {
            result = answer upstream_tools upstream_call (upstream_call name arguments);
            audit = [];
            forwarded = (name, arguments) ∷ [];
          }))
        ⊎ (((allowed : List String) × (tools file ≡ ok allowed)
              × (member name allowed ≡ false)
              × (call_tool upstream_tools upstream_call file name arguments ≡ record {
                result = error (blocked name);
                audit = record { tool_name = name; reason = "tool is not allowlisted" } ∷ [];
                forwarded = [];
              }))
            ⊎ ((e : AllowlistError) × (tools file ≡ err e)
                × (call_tool upstream_tools upstream_call file name arguments ≡ record {
                  result = error (policy_unavailable e);
                  audit = [];
                  forwarded = [];
                })))
  unfolding call_tool
  call_tool_lem file name arguments = elim (Result-cases (tools file)) [
    | inr (e, bad) ↦ inr (inr (e, bad, rw (bad, decide) refl))
    | inl (allowed, good) ↦ elim (Bool-cases (member name allowed)) [
      | inl t ↦ inl (allowed, good, member→In name allowed t, rw (good, decide) (ground arith))
      | inr f ↦ inr (inl (allowed, good, f, rw (good, decide) (ground arith)))
    ]
  ]

  forwarded-allowed :
      (file : JsonFile) (name : String) (arguments : Fields) (c : String × Fields)
      → In c (call_tool upstream_tools upstream_call file name arguments).forwarded
      → (◌≡◌ {A = String × Fields} c (name, arguments))
        × (allowed : List String) × (tools file ≡ ok allowed)
        × In name allowed
  forwarded-allowed file name arguments c h = elim (call_tool_lem file name arguments) [
    | inl (allowed, good, i, same) ↦ elim (rw same at h) [
      | inl p ↦ (p, allowed, good, i)
      | inr k ↦ elim k [ ]
    ]
    | inr (inl (allowed, good, f, same)) ↦ elim (rw same at h) [ ]
    | inr (inr (e, bad, same)) ↦ elim (rw same at h) [ ]
  ]

  file_after-cons :
      (file : JsonFile) (event : Event) (before : List Event)
      → file_after (file_after file (event ∷ [])) before ≡ file_after file (event ∷ before)
  unfolding file_after
  file_after-cons file (replaced f) before = refl
  file_after-cons file (called n a) before = refl

  cons_event :
      (file : JsonFile) (event : Event) (events : List Event) (name : String) (arguments : Fields)
      → ((before : List Event) × (after : List Event) × (events
            ≡ before ++ (called name arguments ∷ after))
          × (allowed : List String) × (tools (file_after (file_after file (event ∷ [])) before)
              ≡ ok allowed)
          × In name allowed)
      → (before : List Event) × (after : List Event) × (event ∷ events
          ≡ before ++ (called name arguments ∷ after))
        × (allowed : List String) × (tools (file_after file before) ≡ ok allowed)
        × In name allowed
  cons_event file event events name arguments (before, after, split, allowed, good, i) = (
    event ∷ before,
    after,
    ap (λ es. event ∷ es) split,
    allowed,
    ap tools (sym (file_after-cons file event before)) ∙ good,
    i,
  )

  -- Over a session in which the allowlist is replaced at any points, every call that went to the upstream
  -- was named by the list that was in force when it was made.
  pub session_lem :
      (file : JsonFile) (events : List Event) (name : String) (arguments : Fields)
      → In (name, arguments) (session upstream_tools upstream_call file events)
      → (before : List Event) × (after : List Event) × (events
          ≡ before ++ (called name arguments ∷ after))
        × (allowed : List String) × (tools (file_after file before) ≡ ok allowed)
        × In name allowed
  unfolding session file_after
  session_lem file [] name arguments h = elim h [ ]
  session_lem file (replaced file' ∷ events) name arguments h =
      cons_event file (replaced file') events name arguments
        (session_lem file' events name arguments h)
  session_lem file (called name' arguments' ∷ events) name arguments h =
      elim (append-In (name, arguments)
        (call_tool upstream_tools upstream_call file name' arguments').forwarded
        (session upstream_tools upstream_call file events) h) [
          | inl l ↦
              let (same, allowed, good, i) =
                forwarded-allowed file name' arguments' (name, arguments) l in
              (
                [],
                events,
                cc,
                allowed,
                good,
                subst (λ n. In n allowed) (sym (ap (λ c. c.0) same)) i,
              )
          | inr r ↦
              cons_event file (called name' arguments') events name arguments
                (session_lem file events name arguments r)
        ]

  -- A call is forwarded exactly where the list can be read and names the tool.
  pub forwarded_iff :
      (file : JsonFile) (name : String) (arguments : Fields)
      → ((call_tool upstream_tools upstream_call file name arguments).forwarded
          ≡ (name, arguments) ∷ [])
        ↔ ((allowed : List String) × (tools file ≡ ok allowed) × In name allowed)
  forwarded_iff file name arguments = (
    λ e.
        let (same, allowed, good, i) =
          forwarded-allowed file name arguments (name, arguments)
            (subst (λ cs. In (name, arguments) cs) (sym e) (inl refl)) in
        (allowed, good, i),
    λ h.
        let (allowed, good, i) = h in
        elim (call_tool_lem file name arguments) [
          | inl (a, g, j, same) ↦ ap (λ (r : Handled). r.forwarded) same
          | inr (inl (a, g, f, same)) ↦
              absurd (not_in name a f (subst (λ r. In name r) (same_list allowed a good g) i))
          | inr (inr (x, bad, same)) ↦ cc (bad, good)
        ],
  )
    where
      same_list : (a b : List String) → tools file ≡ ok a → tools file ≡ ok b → a ≡ b
      same_list a b p q = cc

      not_in : (n : String) (a : List String) → member n a ≡ false → In n a → ⊥
      not_in n a f j = cc (In→member n a j)

  -- What is listed is what may be called: of the upstream's tools exactly those are listed to which a
  -- call is forwarded.
  pub list_tools-call_tool :
      (file : JsonFile) (found listed : List Tool) (t : Tool) (arguments : Fields)
      → upstream_tools ≡ ok found
      → list_tools upstream_tools upstream_call file ≡ ok listed
      → In t found
      → In t listed ↔ (
          (call_tool upstream_tools upstream_call file t.name arguments).forwarded
          ≡ (t.name, arguments) ∷ [])
  unfolding list_tools
  list_tools-call_tool file found listed t arguments up h i = elim (Result-cases (tools file)) [
    | inr (e, bad) ↦ ground (arith, bad)
    | inl (allowed, good) ↦
        let same : listed ≡ filter (λ (u : Tool). member u.name allowed) found =
          ground (arith, good, up) in
        rw same (
          λ k. (forwarded_iff file t.name arguments).1 (
            allowed,
            good,
            member→In t.name allowed (filter-In (λ (u : Tool). member u.name allowed) t found k).1,
          ),
          λ e.
              let (a, g, j) = (forwarded_iff file t.name arguments).0 e in
              In-filter (λ (u : Tool). member u.name allowed) t found i
                (In→member t.name allowed
                  (subst (λ r. In t.name r) (same_names a allowed g good) j)),
        )
  ]
    where
      same_names : (a b : List String) → tools file ≡ ok a → tools file ≡ ok b → a ≡ b
      same_names a b p q = cc
