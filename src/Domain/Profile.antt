-- ===== src/Domain/Profile.antt =====
-- domain/models.py: runtime profiles, their overlays, and where each value came from.
use graph_skill_runtime.Common.{String, Bool, Option, List}
use graph_skill_runtime.Json.{JsonObject}

-- ConfigSource: the layer that supplied a value
pub data ConfigSource : Type 0 where
  default portable user project preset invocation : ConfigSource

pub data RuntimeErrorCode : Type 0 where
  config_invalid compile_failed executor_unavailable internal_error : RuntimeErrorCode
  invalid_request not_implemented run_failed snapshot_not_found : RuntimeErrorCode

pub record RuntimeErrorPayload : Type 0 where
  pub code : RuntimeErrorCode
  pub message : String
  pub retryable : Bool
  pub phase : Option String
  pub source_path : Option String
  pub details : JsonObject

pub record ValueOrigin : Type 0 where
  pub field : String
  pub source : ConfigSource
  pub source_path : Option String

pub record PhaseAddress : Type 0 where
  pub graph_id : String
  pub phase_id : String

pub data SecretSource : Type 0 where
  environment host keychain : SecretSource

pub record SecretReference : Type 0 where
  pub source : SecretSource
  pub name : String

pub record SecretBinding : Type 0 where
  pub input_name : String
  pub reference : SecretReference

pub data Vendor : Type 0 where
  claude codex copilot cursor gemini opencode : Vendor

pub record CliExecutorConfig : Type 0 where
  pub vendor : Vendor
  pub agent_profile : Option String
  pub model_override : Option String
  pub executable : Option String
  pub timeout_seconds : String

pub record EmbeddedExecutorConfig : Type 0 where
  pub provider : Option String
  pub model : Option String
  pub credential : Option SecretReference

-- the union that `kind` discriminates
pub data ExecutorConfig : Type 0 where
  host_native : ExecutorConfig
  cli : CliExecutorConfig → ExecutorConfig
  embedded : EmbeddedExecutorConfig → ExecutorConfig

pub data CheckpointStoreConfig : Type 0 where
  memory : CheckpointStoreConfig
  sqlite : (filename : String) → CheckpointStoreConfig

pub data Network : Type 0 where
  deny host_policy allow : Network

pub data Filesystem : Type 0 where
  declared_only skill_and_state : Filesystem

pub record PermissionPolicy : Type 0 where
  pub network : Network
  pub filesystem : Filesystem

-- `none` in a field leaves the lower layers' value
pub record RuntimeProfileOverlay : Type 0 where
  pub executor : Option ExecutorConfig
  pub checkpoint_store : Option CheckpointStoreConfig
  pub state_dir : Option String
  pub permissions : Option PermissionPolicy
  pub required_capabilities : Option (List String)
  pub fallback_executors : Option (List ExecutorConfig)

pub record RuntimeProfile : Type 0 where
  pub executor : ExecutorConfig
  pub checkpoint_store : CheckpointStoreConfig
  pub state_dir : Option String
  pub permissions : PermissionPolicy
  pub required_capabilities : List String
  pub fallback_executors : List ExecutorConfig

pub record ResolvedRuntimeProfile : Type 0 where
  pub profile : RuntimeProfile
  pub skill_root : String
  pub state_root : String
  pub field_origins : List ValueOrigin
