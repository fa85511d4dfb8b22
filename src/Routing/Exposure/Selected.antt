-- ===== src/Routing/Exposure/Selected.antt =====
-- Across the exposure of a phase, the allowlist's file and the gateway: which calls reach a tool.
use local_skill_orchestrator.Prelude.{
  String, ◌≡◌, refl, sym, ap, ◌∙◌, subst, ◌↔◌, true, Option, List, [], ◌∷◌, arith, In, In-flat_map,
  flat_map, flat_map-In, filter, filter-In, In-filter, if◌then◌else◌, all, all-In, all_of_In,
  is_text, string_Eq, sorted_set-In, In-sorted_set, sorted_set-IsAscending, IsAscending-is_distinct,
  is_distinct, string_Ord,
}
use local_skill_orchestrator.Prelude.Json.{Json, Fields}
use local_skill_orchestrator.Prelude.Results.{Result, ok, err}
use local_skill_orchestrator.Routing.Allowlist.{
  JsonFile, allowlist_file, tools, tools-allowlist_file, not_texts,
}
use local_skill_orchestrator.Routing.Gateway.{CallToolResult, UpstreamError, Tool, call_tool}
use local_skill_orchestrator.Routing.Gateway.Policy.{forwarded_iff}
use local_skill_orchestrator.Routing.Exposure.{
  CapabilityToolBinding, PhaseExposureRequest, PhaseExposure, HostExposure, is_matched, tools_of,
  expose,
}

-- The matched bindings' tools.
exposed_tools : List CapabilityToolBinding → List String → List String
unfolding tools_of
exposed_tools bindings selected = tools_of (filter (is_matched selected) bindings)

tools-exposed :
    (bindings : List CapabilityToolBinding) (selected : List String)
    → tools (allowlist_file (exposed_tools bindings selected)) ≡ (
        if all is_text (exposed_tools bindings selected)
        then ok (exposed_tools bindings selected)
        else err not_texts)
unfolding exposed_tools
tools-exposed bindings selected =
    let names = exposed_tools bindings selected in
    let distinct : is_distinct names ≡ true = IsAscending-is_distinct names (
      sorted_set-IsAscending (
        flat_map (λ (b : CapabilityToolBinding). b.tool_names)
          (filter (is_matched selected) bindings))) in
    rw (tools-allowlist_file names, distinct) refl

exposed_tools_iff :
    (bindings : List CapabilityToolBinding) (selected : List String) (name : String)
    → In name (exposed_tools bindings selected) ↔ (
        (b : CapabilityToolBinding) × In b bindings
        × (is_matched selected b ≡ true)
        × In name b.tool_names)
unfolding exposed_tools
exposed_tools_iff bindings selected name = (
  λ h.
      let (b, i, k) =
        flat_map-In (λ (b : CapabilityToolBinding). b.tool_names) name
          (filter (is_matched selected) bindings)
          (sorted_set-In name
            (flat_map (λ (b : CapabilityToolBinding). b.tool_names)
              (filter (is_matched selected) bindings))
            h) in
      let (j, t) = filter-In (is_matched selected) b bindings i in (b, j, t, k),
  λ h.
      let (b, j, t, k) = h in
      In-sorted_set name
        (flat_map (λ (b : CapabilityToolBinding). b.tool_names)
          (filter (is_matched selected) bindings))
        (In-flat_map (λ (b : CapabilityToolBinding). b.tool_names) name b
          (filter (is_matched selected) bindings) (In-filter (is_matched selected) b bindings j t)
          k),
)

exposed-read :
    (bindings : List CapabilityToolBinding) (selected allowed : List String)
    → tools (allowlist_file (exposed_tools bindings selected)) ≡ ok allowed
    → allowed ≡ exposed_tools bindings selected
exposed-read bindings selected allowed h = ground (arith, tools-exposed bindings selected)

exposed-readable :
    (bindings : List CapabilityToolBinding) (selected : List String)
    → all (λ (b : CapabilityToolBinding). all is_text b.tool_names) bindings ≡ true
    → tools (allowlist_file (exposed_tools bindings selected))
      ≡ ok (exposed_tools bindings selected)
exposed-readable bindings selected named =
    rw
      (
        tools-exposed bindings selected,
        all_of_In is_text (exposed_tools bindings selected) (λ n i.
            let (b, j, t, k) = (exposed_tools_iff bindings selected n).0 i in
            all-In is_text n b.tool_names
              (all-In (λ (b : CapabilityToolBinding). all is_text b.tool_names) b bindings named j)
              k),
      )
      refl

module _ {HostError : Type 0} (digest_of : Json → String) (bindings : List CapabilityToolBinding)
    (host_adapter : Option (PhaseExposureRequest → Result HostError HostExposure))
    (upstream_tools : Result UpstreamError (List Tool))
    (upstream_call : String → Fields → Result UpstreamError CallToolResult) where
  expose-file :
      (phase : String) (selected : List String) (file file' : JsonFile) (exposure : PhaseExposure)
      → ◌≡◌ {A = Result HostError PhaseExposure × JsonFile}
          (expose digest_of bindings host_adapter phase selected file)
          (ok exposure, file')
      → file' ≡ allowlist_file (exposed_tools bindings selected)
  unfolding expose exposed_tools
  expose-file phase selected file file' exposure h = ground arith

  -- After a phase was exposed, every call that reaches the upstream is to a tool of a binding that the
  -- selected capabilities match.
  pub expose-forwarded :
      (phase : String) (selected : List String) (file file' : JsonFile) (exposure : PhaseExposure)
      (name : String) (arguments : Fields)
      → ◌≡◌ {A = Result HostError PhaseExposure × JsonFile}
          (expose digest_of bindings host_adapter phase selected file)
          (ok exposure, file')
      → (call_tool upstream_tools upstream_call file' name arguments).forwarded
        ≡ (name, arguments) ∷ []
      → (b : CapabilityToolBinding) × In b bindings
        × (is_matched selected b ≡ true)
        × In name b.tool_names
  expose-forwarded phase selected file file' exposure name arguments h sent =
      let (allowed, good, i) =
        (forwarded_iff upstream_tools upstream_call file' name arguments).0 sent in
      (exposed_tools_iff bindings selected name).0 (
        subst (λ names. In name names)
          (exposed-read bindings selected allowed
            (ap tools (sym (expose-file phase selected file file' exposure h)) ∙ good))
          i)

  -- Where no binding has an empty tool name, a call after the phase was exposed reaches the upstream
  -- exactly if it is to a tool of a binding that the selected capabilities match.
  pub expose-call_tool :
      (phase : String) (selected : List String) (file file' : JsonFile) (exposure : PhaseExposure)
      (name : String) (arguments : Fields)
      → ◌≡◌ {A = Result HostError PhaseExposure × JsonFile}
          (expose digest_of bindings host_adapter phase selected file)
          (ok exposure, file')
      → all (λ (b : CapabilityToolBinding). all is_text b.tool_names) bindings ≡ true
      → ((call_tool upstream_tools upstream_call file' name arguments).forwarded
          ≡ (name, arguments) ∷ [])
        ↔ ((b : CapabilityToolBinding) × In b bindings
            × (is_matched selected b ≡ true)
            × In name b.tool_names)
  expose-call_tool phase selected file file' exposure name arguments h named = (
    expose-forwarded phase selected file file' exposure name arguments h,
    λ bound. (forwarded_iff upstream_tools upstream_call file' name arguments).1 (
      exposed_tools bindings selected,
      ap tools (expose-file phase selected file file' exposure h)
          ∙ exposed-readable bindings selected named,
      (exposed_tools_iff bindings selected name).1 bound,
    ),
  )
