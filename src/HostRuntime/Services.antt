-- ===== src/HostRuntime/Services.antt =====
-- What the adapter calls: the engine's runner and compiler, and texts, equality and the hash of other
-- packages; and what its calls share.
use graph_skill_runtime.Common.{
  String, Bool, true, false, Option, none, some, List, ◌≡◌, ◌==◌, ◌&&◌, if◌then◌else◌,
}
use graph_skill_runtime.Common.Outcome.{Outcome, done, raised}
use graph_skill_runtime.Json.{JsonObject}
use graph_skill_runtime.Domain.Profile.{memory, sqlite}
use graph_skill_runtime.Domain.Run.{RunRequest}
use graph_skill_runtime.Domain.Agent.{AgentResult}
use graph_skill_runtime.Engine.{CoreRunResult}
use graph_skill_runtime.Handoff.{
  AgentHandoffRecord, Table, Pydantic, StoreError, Exception, contract_error, value_error,
  other_error, continuation_failed,
}
use graph_skill_runtime.HostNative.{CompiledSkill, ContractError}
use graph_skill_runtime.HostNative.Platform.{Platform, TaskError, output_missing}
use graph_skill_runtime.HostRuntime.Trace.{Trace, Sink, is_open}

pub record ExternalPhaseCompletion : Type 0 where
  pub task_id : String
  pub phase_id : String
  pub result_hash : String
  pub output : JsonObject

-- core/runner.py and core/compiler.py. `pause_before` is none for a run without handoffs. A call that
-- raises leaves what it did to the graph's state. What compile_skill makes of a skill root is the same in
-- every call: the skill's files stay as they are while a run of it is going on.
pub record Runner (W : Type 0) : Type 0 where
  pub compile_skill : String → Outcome Exception CompiledSkill
  pub run_skill :
      RunRequest → (pause_before : Option (List String)) → W → Outcome Exception CoreRunResult × W
  pub recover_paused_skill :
      CompiledSkill
      → RunRequest
      → (pause_before : List String) → W
      → Outcome Exception (Option CoreRunResult) × W
  pub resume_skill :
      RunRequest
      → (checkpoint_id checkpoint_ns : String) → (pause_before : List String)
      → ExternalPhaseCompletion
      → W
      → Outcome Exception CoreRunResult × W

-- str of the errors, `==` of requests, and canonical_agent_result_hash: SHA-256 of a result's JSON.
pub record Python : Type 0 where
  pub platform : Platform
  pub text_of_support : ContractError → String
  pub text_of_task : TaskError → String
  pub text_of_store : StoreError → String
  pub same_request : RunRequest → RunRequest → Bool
  pub result_hash : AgentResult → String
  pub same_request_refl : (r : RunRequest) → same_request r r ≡ true

-- What a call finds: the clock at its three readings, and the trace where the transaction writes to it,
-- after the transaction, and at the last write.
pub record Moment : Type 0 where
  pub first : String
  pub second : String
  pub third : String
  pub during : Sink
  pub after : Sink
  pub last : Sink

-- The trace can be opened after the transaction.
abbrev pub opens : Moment → Bool
opens m = is_open m.after && is_open m.last

pub record HostState (p : Pydantic) (W : Type 0) : Type 0 where
  pub table : Table p.Json
  pub trace : Trace
  pub graph : W

abbrev pub message_of : Exception → String
message_of (contract_error m) = m
message_of (value_error m) = m
message_of (other_error m) = m

-- isinstance(exc, ValueError)
abbrev pub is_value_error : Exception → Bool
is_value_error (other_error m) = false
is_value_error _ = true

module _ (py : Python) where
  -- An assertion's failure is no ValueError; each other task error is a HostNativeContractError.
  unfoldable pub task_exception : TaskError → Exception
  task_exception output_missing = other_error (py.text_of_task output_missing)
  task_exception e = contract_error (py.text_of_task e)

  -- What a call of the store raises: a ValueError, or what its continuation raised.
  unfoldable pub store_exception : StoreError → Exception
  store_exception (continuation_failed e) = e
  store_exception e = value_error (py.text_of_store e)

  -- recovered.request != request
  abbrev pub is_request : Option RunRequest → RunRequest → Bool
  is_request none request = false
  is_request (some r) request = py.same_request r request

  -- _validate_record_owner
  unfoldable pub validate_record_owner :
      AgentHandoffRecord → String → RunRequest → Outcome Exception (Unit {0})
  validate_record_owner entry run_id run_request =
      if entry.task.run_id == run_id
      then if is_request entry.required_response.request run_request
        then done tt
        else raised (contract_error "checkpoint_ref belongs to a different immutable run request")
      else raised (contract_error "checkpoint_ref belongs to a different run")

-- The file of the checkpoint store, which has to be SQLite's.
unfoldable pub sqlite_checkpointer : RunRequest → Outcome Exception String
sqlite_checkpointer request = elim request.profile.profile.checkpoint_store [
  | sqlite filename ↦ done filename
  | memory ↦
      raised (contract_error "host-native Agent handoff requires a durable SQLite checkpoint store")
]
