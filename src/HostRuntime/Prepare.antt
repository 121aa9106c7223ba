-- ===== src/HostRuntime/Prepare.antt =====
-- What submit_agent_result checks before a result goes to the store.
pub mod Passed
use graph_skill_runtime.Common.{
  String, Bool, true, false, Option, none, some, List, [], ◌∷◌, map, ◌==◌, if◌then◌else◌, is_empty,
}
use graph_skill_runtime.Common.Dict.{Dict}
use graph_skill_runtime.Common.Outcome.{Outcome, done, raised, ◌>>=◌}
use graph_skill_runtime.Json.{JsonObject, text, empty, member}
use graph_skill_runtime.Domain.Profile.{RuntimeErrorCode}
use graph_skill_runtime.Domain.Run.{RunRequest}
use graph_skill_runtime.Domain.Agent.{AgentResult, AgentStatus, RunResult, RunMode, RunStatus}
use graph_skill_runtime.Engine.{CoreRunResult, run_result, failed_run}
use graph_skill_runtime.Handoff.{
  AgentHandoffRecord, Pydantic, Table, Result, StoreError, ok, err, Exception, contract_error,
  other_error, continuation_failed, load, submit,
}
use graph_skill_runtime.HostNative.{
  GraphNode, CompiledSkill, supported, refused, host_native_agent_phases,
}
use graph_skill_runtime.HostNative.Platform.{TaskError}
use graph_skill_runtime.HostNative.Task.{build_agent_handoff, validate_agent_result}
use graph_skill_runtime.HostRuntime.Trace.{
  Trace, append_run_event_once, terminal_event, rejected_event,
}
use graph_skill_runtime.HostRuntime.Services.{
  Runner, Python, Moment, HostState, message_of, is_value_error, task_exception, store_exception,
  sqlite_checkpointer, validate_record_owner,
}
use graph_skill_runtime.HostRuntime.Run.{names, emit_agent_required}
use graph_skill_runtime.HostRuntime.Resume.{ref_details}

pub record SubmitAgentResultRequest : Type 0 where
  pub run_id : String
  pub state_root : String
  pub checkpoint_ref : String
  pub result : AgentResult

-- What is at hand when the result goes to the store.
pub record Prepared : Type 0 where
  pub compiled : CompiledSkill
  pub phases : Dict GraphNode
  pub entry : AgentHandoffRecord

-- The error of a task check as an exception.
abbrev pub task_checked : {A : Type 0} → Python → Outcome TaskError A → Outcome Exception A
task_checked py (done a) = done a
task_checked py (raised e) = raised (task_exception py e)

module _ (p : Pydantic) (py : Python) {W : Type 0} (runner : Runner W) where
  -- The checks of a loaded record.
  unfoldable pub checked :
      SubmitAgentResultRequest
      → RunRequest
      → CompiledSkill
      → Dict GraphNode
      → AgentHandoffRecord
      → Outcome Exception Prepared
  checked request run_request compiled phases entry = do
    owner ← validate_record_owner py entry request.run_id run_request
    valid ← task_checked py (validate_agent_result py.platform entry request.result)
    done (record { compiled = compiled; phases = phases; entry = entry })

  -- The steps before the store's transaction, with the record that was loaded by the time they end.
  unfoldable pub prepare :
      SubmitAgentResultRequest
      → RunRequest
      → Table p.Json
      → Option AgentHandoffRecord × Outcome Exception Prepared
  unfolding checked
  prepare request run_request table = elim (runner.compile_skill run_request.profile.skill_root) [
    | raised e ↦ (none, raised e)
    | done compiled ↦ elim (host_native_agent_phases compiled) [
      | refused e ↦ (none, raised (contract_error (py.text_of_support e)))
      | supported phases ↦ elim (load p request.checkpoint_ref table) [
        | err e ↦ (none, raised (store_exception py e))
        | ok entry ↦ (some entry, checked request run_request compiled phases entry)
      ]
    ]
  ]
