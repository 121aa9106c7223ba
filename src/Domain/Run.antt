-- ===== src/Domain/Run.antt =====
-- domain/models.py: what a run is asked to do.
use graph_skill_runtime.Common.{String, Option, List}
use graph_skill_runtime.Json.{Json, JsonObject}
use graph_skill_runtime.Domain.Profile.{
  PhaseAddress, SecretBinding, RuntimeProfileOverlay, ResolvedRuntimeProfile, ValueOrigin,
}

pub record InputBinding : Type 0 where
  pub address : PhaseAddress
  pub field : String
  pub value : Json

pub record NodeOverride : Type 0 where
  pub address : PhaseAddress
  pub timeout_seconds : Option String
  pub custom_params : JsonObject

pub record CompareCandidate : Type 0 where
  pub address : PhaseAddress
  pub candidate_id : String
  pub model_override : Option String

pub record ArtifactRequest : Type 0 where
  pub artifact_id : String
  pub destination : Option String

pub record RunPreset : Type 0 where
  pub preset_id : String
  pub inputs : JsonObject
  pub secret_inputs : List SecretBinding
  pub bindings : List InputBinding
  pub breakpoints : List PhaseAddress
  pub node_overrides : List NodeOverride
  pub compare_candidates : List CompareCandidate
  pub artifact_requests : List ArtifactRequest

pub record RunInvocation : Type 0 where
  pub skill_root : String
  pub run_id : Option String
  pub preset_id : Option String
  pub runtime : RuntimeProfileOverlay
  pub inputs : Option JsonObject
  pub secret_inputs : Option (List SecretBinding)
  pub bindings : Option (List InputBinding)
  pub breakpoints : Option (List PhaseAddress)
  pub node_overrides : Option (List NodeOverride)
  pub compare_candidates : Option (List CompareCandidate)
  pub artifact_requests : Option (List ArtifactRequest)

pub record RunRequest : Type 0 where
  pub run_id : String
  pub preset_id : Option String
  pub profile : ResolvedRuntimeProfile
  pub inputs : JsonObject
  pub secret_inputs : List SecretBinding
  pub bindings : List InputBinding
  pub breakpoints : List PhaseAddress
  pub node_overrides : List NodeOverride
  pub compare_candidates : List CompareCandidate
  pub artifact_requests : List ArtifactRequest
  pub value_origins : List ValueOrigin
