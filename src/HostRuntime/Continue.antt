-- ===== src/HostRuntime/Continue.antt =====
-- continue_run of submit_agent_result: what the store's transaction runs for a waiting record.
pub mod Told
pub mod Shape
use graph_skill_runtime.Common.{
  String, Bool, true, false, Option, none, some, List, [], ◌∷◌, map, ◌==◌, if◌then◌else◌, is_empty,
}
use graph_skill_runtime.Common.Dict.{Dict}
use graph_skill_runtime.Common.Outcome.{Outcome, done, raised, ◌>>=◌}
use graph_skill_runtime.Json.{JsonObject, text, empty, member}
use graph_skill_runtime.Domain.Profile.{RuntimeErrorCode}
use graph_skill_runtime.Domain.Run.{RunRequest}
use graph_skill_runtime.Domain.Agent.{AgentResult, AgentStatus, RunResult, RunMode, RunStatus}
use graph_skill_runtime.Engine.{CoreRunResult, run_result, failed_run}
use graph_skill_runtime.Handoff.{
  AgentHandoffRecord, Pydantic, Table, Result, StoreError, ok, err, Exception, contract_error,
  other_error, continuation_failed, load, submit,
}
use graph_skill_runtime.HostNative.{
  GraphNode, CompiledSkill, supported, refused, host_native_agent_phases,
}
use graph_skill_runtime.HostNative.Platform.{TaskError}
use graph_skill_runtime.HostNative.Task.{build_agent_handoff, validate_agent_result}
use graph_skill_runtime.HostRuntime.Trace.{
  Trace, Sink, append_run_event_once, terminal_event, rejected_event,
}
use graph_skill_runtime.HostRuntime.Services.{
  Runner, Python, Moment, HostState, message_of, is_value_error, task_exception, store_exception,
  sqlite_checkpointer, validate_record_owner,
}
use graph_skill_runtime.HostRuntime.Run.{names, emit_agent_required}
use graph_skill_runtime.HostRuntime.Resume.{ref_details}

-- _emit_agent_terminal
unfoldable pub emit_agent_terminal :
    Sink
    → Option String
    → RunRequest
    → AgentHandoffRecord
    → AgentResult
    → String
    → Trace
    → Outcome Exception Trace
emit_agent_terminal sink attempt_id run_request entry result result_hash trace = do
  event ← terminal_event run_request.run_id attempt_id entry result result_hash
  append_run_event_once sink event trace

module _ (py : Python) {W : Type 0} (runner : Runner W) where
  abbrev pub Continued : Type 0
  Continued = Result (RunResult × Option AgentHandoffRecord) × (Trace × W)

  -- What follows the engine's run: the answer, and the next handoff where the engine stopped again.
  unfoldable pub after_engine :
      RunRequest → CompiledSkill → Dict GraphNode → CoreRunResult → Trace × W → Continued
  after_engine run_request compiled phases core_result w = elim core_result.paused_at [
    | none ↦ (ok (run_result core_result run_request RunMode.resume, none), w)
    | some stop ↦
        elim (build_agent_handoff py.platform run_request compiled phases core_result
          RunMode.resume) [
            | raised e ↦ (err (continuation_failed (task_exception py e)), w)
            | done next ↦ (ok (next.required_response, some next), w)
          ]
  ]

  -- Drive the graph on with the output of a completed result.
  unfoldable pub drive :
      RunRequest
      → CompiledSkill
      → Dict GraphNode
      → AgentHandoffRecord
      → AgentResult
      → JsonObject
      → String
      → Trace × W
      → Continued
  unfolding after_engine
  drive run_request compiled phases active result output result_hash (trace, w) =
      elim (sqlite_checkpointer run_request) [
        | raised e ↦ (err (continuation_failed e), (trace, w))
        | done filename ↦
            let (ended, w') =
              runner.resume_skill run_request active.checkpoint_id active.checkpoint_ns
                (names phases)
                (record {
                  task_id = result.task_id;
                  phase_id = active.task.address.phase_id;
                  result_hash = result_hash;
                  output = output;
                })
                w in
            elim ended [
              | raised e ↦ (err (continuation_failed e), (trace, w'))
              | done core_result ↦ after_engine run_request compiled phases core_result (trace, w')
            ]
      ]

  unfoldable pub continue_run :
      Moment
      → Option String
      → AgentResult
      → RunRequest
      → CompiledSkill
      → Dict GraphNode
      → AgentHandoffRecord
      → String
      → Trace × W
      → Continued
  unfolding emit_agent_terminal drive
  continue_run m attempt_id result run_request compiled phases active result_hash (trace, w) =
      elim (emit_agent_terminal m.during attempt_id run_request active result result_hash trace) [
        | raised e ↦ (err (continuation_failed e), (trace, w))
        | done trace' ↦ elim result.status [
          | AgentStatus.completed ↦ elim result.output [
            | none ↦ (err (continuation_failed (other_error "")), (trace', w))
            | some output ↦
                drive run_request compiled phases active result output result_hash (trace', w)
          ]
          | status ↦ elim result.error [
            | none ↦ (err (continuation_failed (other_error "")), (trace', w))
            | some error ↦ (
              ok (
                record {
                  status = RunStatus.failed;
                  run_id = run_request.run_id;
                  mode = RunMode.resume;
                  request = some run_request;
                  outputs = active.required_response.outputs;
                  trace_path = none;
                  error = some error;
                  agent_required = none;
                  diagnostics = [];
                },
                none,
              ),
              (trace', w),
            )
          ]
        ]
      ]
