-- ===== src/HostRuntime/Submit.antt =====
-- HostNativeRuntimeAdapter.submit_agent_result: a host's result goes through the handoff store, whose
-- continuation drives the graph on. The trace is written during the transaction and after it.
pub mod Announce
pub mod Replay
pub mod Retry
pub mod Failed
pub mod Progress
use graph_skill_runtime.Common.{
  String, Bool, true, false, Option, none, some, List, [], ◌∷◌, map, ◌==◌, if◌then◌else◌, is_empty,
}
use graph_skill_runtime.Common.Dict.{Dict}
use graph_skill_runtime.Common.Outcome.{Outcome, done, raised, ◌>>=◌}
use graph_skill_runtime.Json.{JsonObject, text, empty, member}
use graph_skill_runtime.Domain.Profile.{RuntimeErrorCode}
use graph_skill_runtime.Domain.Run.{RunRequest}
use graph_skill_runtime.Domain.Agent.{AgentResult, AgentStatus, RunResult, RunMode, RunStatus}
use graph_skill_runtime.Engine.{CoreRunResult, run_result, failed_run}
use graph_skill_runtime.Handoff.{
  AgentHandoffRecord, Pydantic, Table, Result, StoreError, ok, err, Exception, contract_error,
  other_error, continuation_failed, load, submit,
}
use graph_skill_runtime.HostNative.{
  GraphNode, CompiledSkill, supported, refused, host_native_agent_phases,
}
use graph_skill_runtime.HostNative.Platform.{TaskError}
use graph_skill_runtime.HostNative.Task.{build_agent_handoff, validate_agent_result}
use graph_skill_runtime.HostRuntime.Trace.{
  Trace, append_run_event_once, terminal_event, rejected_event,
}
use graph_skill_runtime.HostRuntime.Services.{
  Runner, Python, Moment, HostState, message_of, is_value_error, task_exception, store_exception,
  sqlite_checkpointer, validate_record_owner,
}
use graph_skill_runtime.HostRuntime.Run.{names, told, emit_agent_required}
use graph_skill_runtime.HostRuntime.Resume.{ref_details}
use graph_skill_runtime.HostRuntime.Prepare.{SubmitAgentResultRequest, Prepared, prepare}
use graph_skill_runtime.HostRuntime.Continue.{emit_agent_terminal, continue_run}

module _ (p : Pydantic) (py : Python) {W : Type 0} (runner : Runner W) where
  -- The events after the transaction, which repeat what an earlier call may have lost.
  unfoldable pub announce :
      Moment
      → Option String
      → SubmitAgentResultRequest
      → RunRequest
      → AgentHandoffRecord
      → RunResult
      → HostState p W
      → Outcome Exception RunResult × HostState p W
  unfolding emit_agent_terminal emit_agent_required
  announce m attempt_id request run_request entry response s =
      elim (emit_agent_terminal m.after attempt_id run_request entry request.result
        (py.result_hash request.result) s.trace) [
          | raised e ↦ (raised e, s)
          | done trace ↦
              let s' : HostState p W = record s { trace = trace } in
              elim response.agent_required [
                | none ↦ (done response, s')
                | some waiting ↦ elim (load p waiting.checkpoint_ref s.table) [
                  | err e ↦ (raised (store_exception py e), s')
                  | ok next ↦ told response (emit_agent_required m run_request next s') s'
                ]
              ]
        ]

  -- What follows the transaction.
  abbrev pub finish :
      Moment
      → Option String
      → SubmitAgentResultRequest
      → RunRequest
      → AgentHandoffRecord
      → Result RunResult × Table p.Json × (Trace × W)
      → Outcome Exception RunResult × HostState p W
  finish m attempt_id request run_request entry (err e, table, (trace, graph)) =
      (raised (store_exception py e), record { table = table; trace = trace; graph = graph })
  finish m attempt_id request run_request entry (ok response, table, (trace, graph)) =
      announce m attempt_id request run_request entry response
        (record { table = table; trace = trace; graph = graph })

  unfoldable pub transact :
      Moment
      → Option String
      → SubmitAgentResultRequest
      → RunRequest
      → Prepared
      → HostState p W
      → Outcome Exception RunResult × HostState p W
  unfolding continue_run
  transact m attempt_id request run_request q s = finish m attempt_id request run_request q.entry (
      submit p m.first m.second m.third request.checkpoint_ref request.result
        (py.result_hash request.result)
        (continue_run py runner m attempt_id request.result run_request q.compiled q.phases) s.table
        (s.trace, s.graph))

  -- The body of the try.
  unfoldable pub submit_body :
      Moment
      → Option String
      → SubmitAgentResultRequest
      → RunRequest
      → HostState p W
      → Outcome Exception RunResult × HostState p W
  unfolding prepare transact
  submit_body m attempt_id request run_request s =
      elim ((prepare p py runner request run_request s.table).1) [
        | raised e ↦ (raised e, s)
        | done q ↦ transact m attempt_id request run_request q s
      ]

  -- The answer where the body raises, with an event for a ValueError. Where this event finds no trace
  -- its exception leaves the call.
  unfoldable pub rejected :
      Moment
      → SubmitAgentResultRequest
      → RunRequest
      → Option AgentHandoffRecord
      → Exception
      → HostState p W
      → Outcome Exception RunResult × HostState p W
  rejected m request run_request entry e s =
      let answer =
        failed_run run_request RunMode.resume RuntimeErrorCode.invalid_request (message_of e)
          (ref_details request.checkpoint_ref) in
      if is_value_error e
      then told answer
          (append_run_event_once m.last
            (rejected_event run_request.run_id request.checkpoint_ref request.result
              (py.result_hash request.result) (message_of e) entry)
            s.trace)
          s
      else (done answer, s)

  abbrev pub conclude_submit :
      Moment
      → SubmitAgentResultRequest
      → RunRequest
      → Option AgentHandoffRecord
      → Outcome Exception RunResult × HostState p W
      → Outcome Exception RunResult × HostState p W
  conclude_submit m request run_request entry (done response, s) = (done response, s)
  conclude_submit m request run_request entry (raised e, s) =
      rejected m request run_request entry e s

  unfoldable pub submit_agent_result :
      Moment
      → Option String
      → SubmitAgentResultRequest
      → RunRequest
      → HostState p W
      → Outcome Exception RunResult × HostState p W
  unfolding submit_body
  submit_agent_result m attempt_id request run_request s =
      conclude_submit m request run_request (prepare p py runner request run_request s.table).0
        (submit_body m attempt_id request run_request s)
