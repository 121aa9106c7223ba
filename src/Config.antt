-- ===== src/Config.antt =====
-- src/graph_skill_runtime/application/config.py: the configuration of a run, layer over layer. A path is
-- its text; what pathlib, tomllib, pydantic's parsing and uuid do is the record `Outside`.
pub mod Request
pub mod Resolve
pub mod Layers
pub mod Outcome
mod Tests
use Prim.Native.String.{◌++◌ as str_append}
use graph_skill_runtime.Common.{
  ℕ, String, Bool, true, false, not, ◌&&◌, ◌||◌, List, [], ◌∷◌, ◌++◌, map, Option, none, some, ◌==◌,
  if◌then◌else◌, or_else, is_some, keep, find_first,
}
use graph_skill_runtime.Common.Dict.{Dict, get, put}
use graph_skill_runtime.Common.Text.{codes, codes_eq, sort_by, before}
use graph_skill_runtime.Json.{JsonObject, Json, keys}
use graph_skill_runtime.Domain.Profile.{
  ConfigSource, default, portable, user, project, preset, invocation, ValueOrigin, ExecutorConfig,
  host_native, CheckpointStoreConfig, sqlite, PermissionPolicy, RuntimeProfileOverlay,
  RuntimeProfile, ResolvedRuntimeProfile, PhaseAddress, SecretBinding, host_policy, skill_and_state,
  cli, embedded,
}
use graph_skill_runtime.Domain.Run.{
  InputBinding, NodeOverride, CompareCandidate, ArtifactRequest, RunPreset, RunInvocation,
  RunRequest,
}

-- _PresetDocument
pub record PresetDocument : Type 0 where
  pub inputs : JsonObject
  pub secret_inputs : List SecretBinding
  pub bindings : List InputBinding
  pub breakpoints : List PhaseAddress
  pub node_overrides : List NodeOverride
  pub compare_candidates : List CompareCandidate
  pub artifact_requests : List ArtifactRequest

-- _ProjectConfigDocument
pub record ProjectConfigDocument : Type 0 where
  pub runtime : RuntimeProfileOverlay
  pub presets : Dict PresetDocument

-- _UserConfigDocument
pub record UserConfigDocument : Type 0 where
  pub runtime : RuntimeProfileOverlay

-- The first four are raised by pathlib and pydantic, the others are ConfigurationErrors.
pub data ConfigError : Type 0 where
  no_such_root : String → ConfigError
  invalid_profile : ConfigError
  invalid_preset : String → ConfigError
  not_utf8 : (path : String) → ConfigError
  not_a_directory cannot_read invalid_toml invalid_user invalid_project :
      (path : String) → ConfigError
  unknown_preset : (preset_id path : String) → ConfigError

pub data Result (A : Type 0) : Type 0 where
  ok : A → Result A
  err : ConfigError → Result A

infixl 5 ◌>>=◌
abbrev pub ◌>>=◌ : {A B : Type 0} → Result A → (A → Result B) → Result B
ok a >>= k = k a
err e >>= k = err e

-- read_text(encoding="utf-8-sig"): a text, an OSError, or a UnicodeDecodeError.
pub data Reading : Type 0 where
  contents : String → Reading
  unreadable undecodable : Reading

-- `resolve_strict` is expanduser().resolve(strict=True), and `none` for a path that does not exist.
pub record Outside : Type 0 where
  pub resolve_strict : String → Option String
  pub resolve : String → String
  pub expand : String → String
  pub is_dir : String → Bool
  pub exists : String → Bool
  pub is_absolute : String → Bool
  pub join : String → String → String
  pub parent : String → String
  pub read_text : String → Reading
  pub toml_loads : String → Option JsonObject
  pub validate_user : JsonObject → Option UserConfigDocument
  pub validate_project : JsonObject → Option ProjectConfigDocument
  pub casefold : String → String
  pub uuid4 : String

-- _ProfileAccumulator
pub record ProfileAccumulator : Type 0 where
  pub executor : ExecutorConfig
  pub checkpoint_store : CheckpointStoreConfig
  pub state_dir : Option String
  pub permissions : PermissionPolicy
  pub required_capabilities : List String
  pub fallback_executors : List ExecutorConfig
  pub origins : Dict ValueOrigin

abbrev pub runtime_origin : String → ConfigSource → Option String → ValueOrigin
runtime_origin field source source_path = record {
  field = str_append "runtime." field;
  source = source;
  source_path = source_path;
}

-- self.origins[field] = ValueOrigin(...), where the layer supplies the field
abbrev pub mark : String → Bool → ConfigSource → Option String → Dict ValueOrigin → Dict ValueOrigin
mark field supplied source source_path origins =
    if supplied then put origins field (runtime_origin field source source_path) else origins

-- The fields of a profile, as `defaults` lists them.
abbrev pub runtime_fields : List String
runtime_fields =
    "executor" ∷ "checkpoint_store" ∷ "state_dir" ∷ "permissions" ∷ "required_capabilities"
    ∷ "fallback_executors" ∷ []

abbrev pub mark_all : List String → Dict ValueOrigin → Dict ValueOrigin
mark_all [] origins = origins
mark_all (f ∷ fs) origins = mark_all fs (mark f true default none origins)

-- _ProfileAccumulator.defaults, with the defaults of the models
unfoldable pub defaults : ProfileAccumulator
defaults = record {
  executor = host_native;
  checkpoint_store = sqlite "checkpoints.sqlite3";
  state_dir = none;
  permissions = record { network = host_policy; filesystem = skill_and_state };
  required_capabilities = [];
  fallback_executors = [];
  origins = mark_all runtime_fields [];
}

-- _ProfileAccumulator.apply
unfoldable pub apply :
    Option RuntimeProfileOverlay
    → ConfigSource
    → Option String
    → ProfileAccumulator
    → ProfileAccumulator
apply none source source_path a = a
apply (some o) source source_path a = record {
  executor = or_else a.executor o.executor;
  checkpoint_store = or_else a.checkpoint_store o.checkpoint_store;
  state_dir = elim o.state_dir [ none ↦ a.state_dir | some dir ↦ some dir ];
  permissions = or_else a.permissions o.permissions;
  required_capabilities = or_else a.required_capabilities o.required_capabilities;
  fallback_executors = or_else a.fallback_executors o.fallback_executors;
  origins = mark "fallback_executors" (is_some o.fallback_executors) source source_path (
      mark "required_capabilities" (is_some o.required_capabilities) source source_path (
        mark "permissions" (is_some o.permissions) source source_path (
          mark "state_dir" (is_some o.state_dir) source source_path (
            mark "checkpoint_store" (is_some o.checkpoint_store) source source_path
              (mark "executor" (is_some o.executor) source source_path a.origins)))));
}

-- One call of `apply`, as an argument.
pub record Layer : Type 0 where
  pub overlay : Option RuntimeProfileOverlay
  pub source : ConfigSource
  pub source_path : Option String

unfoldable pub apply_layers : List Layer → ProfileAccumulator → ProfileAccumulator
apply_layers [] a = a
apply_layers (l ∷ ls) a = apply_layers ls (apply l.overlay l.source l.source_path a)
