-- ===== src/Routing/Exposure.antt =====
-- src/vibe/routing/phase_exposure.py: the tools of a phase's capabilities, written to the gateway's
-- allowlist. The host adapter is a protocol, so it is a parameter, which may raise; so is the digest of
-- a JSON value, sha256 of its text with sorted keys.
pub mod Selected
use local_skill_orchestrator.Prelude.{
  String, Bool, true, false, ◌||◌, Option, none, some, List, [], ◌∷◌, map, filter, flat_map, any,
  member, string_Eq, string_Ord, sorted_set, sort_by, str_leb, if◌then◌else◌, Dict,
}
use local_skill_orchestrator.Prelude.Json.{Json, string, array, object, Fields, end, field}
use local_skill_orchestrator.Prelude.Results.{Result, ok, err, ◌>>=◌}
use local_skill_orchestrator.Capability.{CapabilityManifest}
use local_skill_orchestrator.Routing.Allowlist.{JsonFile, allowlist_file, strings}

pub record CapabilityToolBinding : Type 0 where
  pub capability_id : String
  pub provides : List String
  pub server_id : String
  pub tool_names : List String

-- `CapabilityToolBinding.from_manifest`
unfoldable pub from_manifest : CapabilityManifest → String → List String → CapabilityToolBinding
from_manifest manifest server_id tool_names = record {
  capability_id = manifest.capability_id;
  provides = manifest.provides;
  server_id = server_id;
  tool_names = tool_names;
}

pub record PhaseExposureRequest : Type 0 where
  pub phase : String
  pub selected_capabilities : List String
  pub selected_server_ids : List String
  pub allowed_tools : List String
  pub known_server_ids : List String
  pub exposure_digest : String

pub record HostExposure : Type 0 where
  pub thread_config : Dict Json
  pub transition : String

pub record PhaseExposure : Type 0 where
  pub phase : String
  pub selected_capabilities : List String
  pub selected_server_ids : List String
  pub allowed_tools : List String
  pub exposure_digest : String
  pub thread_config : Dict Json
  pub transition : String

-- binding.capability_id in selected or selected.intersection(binding.provides)
unfoldable pub is_matched : List String → CapabilityToolBinding → Bool
is_matched selected b = member b.capability_id selected || any (λ p. member p selected) b.provides

unfoldable pub servers_of : List CapabilityToolBinding → List String
servers_of bindings = sorted_set (map (λ (b : CapabilityToolBinding). b.server_id) bindings)

unfoldable pub tools_of : List CapabilityToolBinding → List String
tools_of bindings = sorted_set (flat_map (λ (b : CapabilityToolBinding). b.tool_names) bindings)

-- The value that `_exposure_digest` writes and hashes.
unfoldable pub digest_payload : String → List String → List String → List String → Json
digest_payload phase selected servers tools = object (
    field "allowed_tools" (array (strings tools)) (
      field "phase" (string phase) (
        field "selected_capabilities" (array (strings (sort_by str_leb selected)))
          (field "selected_server_ids" (array (strings servers)) end))))

module _ {ℓ} {HostError : Type ℓ} (digest_of : Json → String)
    (bindings : List CapabilityToolBinding)
    (host_adapter : Option (PhaseExposureRequest → Result HostError HostExposure)) where
  abbrev host_exposure :
      Option (PhaseExposureRequest → Result HostError HostExposure)
      → PhaseExposureRequest
      → Result HostError HostExposure
  host_exposure none request = ok (record { thread_config = []; transition = "start" })
  host_exposure (some adapter) request = adapter request

  unfoldable pub exposure_request : String → List String → PhaseExposureRequest
  unfolding is_matched servers_of tools_of digest_payload
  exposure_request phase selected =
      let matched = filter (is_matched selected) bindings in
      let servers = servers_of matched in
      let tools = tools_of matched in
      record {
        phase = phase;
        selected_capabilities = sort_by str_leb selected;
        selected_server_ids = servers;
        allowed_tools = tools;
        known_server_ids = servers_of bindings;
        exposure_digest = digest_of (digest_payload phase selected servers tools);
      }

  -- The exposure and the allowlist's file; an adapter that raises leaves the file as it was.
  abbrev write :
      PhaseExposureRequest
      → Result HostError HostExposure
      → JsonFile
      → Result HostError PhaseExposure × JsonFile
  write request (err e) file = (err e, file)
  write request (ok host) file = (
    ok (record {
      phase = request.phase;
      selected_capabilities = request.selected_capabilities;
      selected_server_ids = request.selected_server_ids;
      allowed_tools = request.allowed_tools;
      exposure_digest = request.exposure_digest;
      thread_config = host.thread_config;
      transition = host.transition;
    }),
    allowlist_file request.allowed_tools,
  )

  unfoldable pub expose :
      String → List String → JsonFile → Result HostError PhaseExposure × JsonFile
  unfolding exposure_request
  expose phase selected file =
      let request = exposure_request phase selected in
      write request (host_exposure host_adapter request) file
