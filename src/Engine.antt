-- ===== src/Engine.antt =====
-- core/result.py: what a run of the engine answers, and adapters/result_mapping.py, which turns that
-- into the answer of the application. A context and the details of an error hold JSON values, which
-- json_object leaves as they are; for other values it would raise.
pub mod Payload
use graph_skill_runtime.Common.{String, Bool, true, false, Option, none, some, [], if◌then◌else◌}
use graph_skill_runtime.Json.{Json, JsonObject, text, object, empty, member}
use graph_skill_runtime.Domain.Profile.{RuntimeErrorCode, RuntimeErrorPayload}
use graph_skill_runtime.Domain.Run.{RunRequest}
use graph_skill_runtime.Domain.Agent.{RunResult, RunMode, RunStatus}

pub data PauseReason : Type 0 where
  awaiting_human breakpoint : PauseReason

pub record PausedRunPoint : Type 0 where
  pub phase_name : String
  pub reason : PauseReason
  pub checkpoint_id : Option String
  pub checkpoint_ns : Option String

pub record ErrorPayload : Type 0 where
  pub code : String
  pub message : String
  pub phase_id : Option String
  pub source_path : Option String
  pub details : JsonObject

pub record CoreRunResult : Type 0 where
  pub success : Bool
  pub run_id : String
  pub context : JsonObject
  pub trace_path : Option String
  pub error : Option ErrorPayload
  pub paused_at : Option PausedRunPoint

unfoldable pub runtime_error : CoreRunResult → RuntimeErrorPayload
runtime_error result = elim result.error [
  | some e ↦ record {
    code = RuntimeErrorCode.run_failed;
    message = e.message;
    retryable = false;
    phase = e.phase_id;
    source_path = e.source_path;
    details = member "engine_code" (text e.code) (member "engine_details" (object e.details) empty);
  }
  | none ↦ record {
    code = RuntimeErrorCode.run_failed;
    message = "the engine did not complete the run";
    retryable = false;
    phase = none;
    source_path = none;
    details = empty;
  }
]

abbrev pub status_of : CoreRunResult → RunStatus
status_of result = elim result.paused_at [
  | some p ↦ RunStatus.paused
  | none ↦ if result.success then RunStatus.completed else RunStatus.failed
]

abbrev pub error_of : RunStatus → CoreRunResult → Option RuntimeErrorPayload
error_of RunStatus.failed result = some (runtime_error result)
error_of _ result = none

unfoldable pub run_result : CoreRunResult → RunRequest → RunMode → RunResult
run_result result request mode = record {
  status = status_of result;
  run_id = result.run_id;
  mode = mode;
  request = some request;
  outputs = result.context;
  trace_path = result.trace_path;
  error = error_of (status_of result) result;
  agent_required = none;
  diagnostics = [];
}

unfoldable pub failed_run :
    RunRequest → RunMode → RuntimeErrorCode → String → JsonObject → RunResult
failed_run request mode code message details = record {
  status = RunStatus.failed;
  run_id = request.run_id;
  mode = mode;
  request = some request;
  outputs = empty;
  trace_path = none;
  error = some (record {
    code = code;
    message = message;
    retryable = false;
    phase = none;
    source_path = none;
    details = details;
  });
  agent_required = none;
  diagnostics = [];
}
