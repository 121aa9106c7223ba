-- ===== src/HostRuntime/Trace.antt =====
-- The handoff events of callbacks/events.py and append_run_event_once of callbacks/emit.py. Each run has
-- a trace file of its own, in which other events stand between these; here a trace is the handoff
-- events of all runs under one state root, and the file of a run is its events in their order.
pub mod Logged
pub mod Terminal
use graph_skill_runtime.Common.{
  String, Bool, true, false, Option, none, some, List, [], ◌∷◌, ◌++◌, ◌==◌, ◌&&◌, ◌||◌,
  if◌then◌else◌,
}
use graph_skill_runtime.Common.Text.{concat}
use graph_skill_runtime.Json.{JsonObject}
use graph_skill_runtime.Domain.Profile.{RuntimeErrorCode}
use graph_skill_runtime.Domain.Agent.{AgentResult, AgentStatus}
use graph_skill_runtime.Handoff.{AgentHandoffRecord, Exception, other_error}
use graph_skill_runtime.Common.Outcome.{Outcome, done, raised}

pub data EventBody : Type 0 where
  agent_required : (task_id graph_id phase_name checkpoint_ref : String) → EventBody
  agent_completed :
      (attempt_id : Option String) (task_id phase_name executor_id : String)
      (provenance : JsonObject)
      → EventBody
  agent_failed :
      (task_id phase_name executor_id : String) (status : AgentStatus)
      (error_code : RuntimeErrorCode) (error_message : String)
      → EventBody
  agent_result_rejected :
      (submitted_task_id : String) (expected_task_id phase_name : Option String)
      (checkpoint_ref reason : String)
      → EventBody

pub record HandoffEvent : Type 0 where
  pub handoff_event_id : String
  pub run_id : String
  pub body : EventBody

abbrev pub Trace : Type 0
Trace = List HandoffEvent

-- Whether a line of a run's file carries an event id.
unfoldable pub is_logged : String → String → Trace → Bool
is_logged run_id event_id [] = false
is_logged run_id event_id (e ∷ trace) =
    e.run_id == run_id && e.handoff_event_id == event_id || is_logged run_id event_id trace

-- What a call meets at a run's trace: its directory or its file cannot be made, which raises out of
-- the constructor of _TraceJsonlSink; or it is made, and cannot be read or written; or it can.
pub data Sink : Type 0 where
  unopened : Exception → Sink
  unwritable writable : Sink

abbrev pub is_open : Sink → Bool
is_open (unopened e) = false
is_open _ = true

-- The sink is opened outside the try. An exception inside it is reported to the logger, and the event
-- is lost.
unfoldable pub append_run_event_once : Sink → HandoffEvent → Trace → Outcome Exception Trace
append_run_event_once (unopened e) event trace = raised e
append_run_event_once unwritable event trace = done trace
append_run_event_once writable event trace =
    done
      (if is_logged event.run_id event.handoff_event_id trace then trace else trace ++ event ∷ [])

abbrev pub required_id : String → String
required_id task_id = concat ("agent-required:" ∷ task_id ∷ [])

abbrev pub terminal_id : String → String → String
terminal_id task_id result_hash = concat ("agent-result:" ∷ task_id ∷ ":" ∷ result_hash ∷ [])

abbrev pub rejected_id : String → String → String
rejected_id checkpoint_ref result_hash =
    concat ("agent-rejected:" ∷ checkpoint_ref ∷ ":" ∷ result_hash ∷ [])

-- The event of _emit_agent_required
unfoldable pub required_event : String → AgentHandoffRecord → HandoffEvent
required_event run_id entry = record {
  handoff_event_id = required_id entry.task.task_id;
  run_id = run_id;
  body =
      agent_required entry.task.task_id entry.task.address.graph_id entry.task.address.phase_id
        entry.checkpoint_ref;
}

-- The event of _emit_agent_terminal, whose assertion fails where a result that is not completed has no
-- error.
unfoldable pub terminal_event :
    String
    → Option String
    → AgentHandoffRecord
    → AgentResult
    → String
    → Outcome Exception HandoffEvent
terminal_event run_id attempt_id entry result result_hash = elim result.status [
  | AgentStatus.completed ↦ done (record {
    handoff_event_id = terminal_id entry.task.task_id result_hash;
    run_id = run_id;
    body =
        agent_completed attempt_id result.task_id entry.task.address.phase_id result.executor_id
          result.provenance;
  })
  | status ↦ elim result.error [
    | none ↦ raised (other_error "")
    | some error ↦ done (record {
      handoff_event_id = terminal_id entry.task.task_id result_hash;
      run_id = run_id;
      body =
          agent_failed result.task_id entry.task.address.phase_id result.executor_id status
            error.code error.message;
    })
  ]
]

abbrev expected_task_id : Option AgentHandoffRecord → Option String
expected_task_id none = none
expected_task_id (some entry) = some entry.task.task_id

abbrev phase_of : Option AgentHandoffRecord → Option String
phase_of none = none
phase_of (some entry) = some entry.task.address.phase_id

-- The event of _emit_agent_rejected
unfoldable pub rejected_event :
    String → String → AgentResult → String → String → Option AgentHandoffRecord → HandoffEvent
rejected_event run_id checkpoint_ref result result_hash reason entry = record {
  handoff_event_id = rejected_id checkpoint_ref result_hash;
  run_id = run_id;
  body =
      agent_result_rejected result.task_id (expected_task_id entry) (phase_of entry) checkpoint_ref
        reason;
}
