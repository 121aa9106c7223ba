-- ===== src/HostNative/Platform.antt =====
-- What adapters/host_native.py takes from other packages, and the errors of its tasks.
use graph_skill_runtime.Common.{ℕ, String, Bool, Option}
use graph_skill_runtime.Json.{JsonObject}

-- What the code takes from pathlib, jsonschema, json, uuid and the clock. `violation` is the message
-- of the SchemaError or the ValidationError of a Draft202012Validator, where there is one.
pub record Platform : Type 0 where
  pub join_path : String → String → String
  pub resolve : String → String
  pub is_relative_to : String → String → Bool
  pub violation : JsonObject → JsonObject → Option String
  pub dumps : JsonObject → String
  pub decimal : ℕ → String
  pub uuid5 : String → String
  pub deadline_after : String → String

-- The reasons of a HostNativeContractError; `output_missing` is an AssertionError, which the model of
-- AgentResult excludes.
pub data TaskError : Type 0 where
  not_at_agent no_checkpoint output_missing : TaskError
  non_agent_phase : (phase : String) → TaskError
  inputs_unsatisfied output_unsatisfied : (message : String) → TaskError
  resource_escapes : (relative : String) → TaskError
  wrong_task : (submitted expected : String) → TaskError
