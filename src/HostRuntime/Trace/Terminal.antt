-- ===== src/HostRuntime/Trace/Terminal.antt =====
-- When the event of a result can be told.
use graph_skill_runtime.Common.{String, Bool, true, Option, ◌≡◌, arith, inl, inr, is_some}
use graph_skill_runtime.Common.Outcome.{done, Outcome-cases}
use graph_skill_runtime.Domain.Agent.{AgentResult, AgentStatus}
use graph_skill_runtime.Handoff.{AgentHandoffRecord}
use graph_skill_runtime.HostRuntime.Trace.{HandoffEvent, terminal_event, terminal_id}

-- What the model of AgentResult asks of a result that is not completed.
abbrev pub has_error : AgentResult → Bool
has_error result = elim result.status [ AgentStatus.completed ↦ true | _ ↦ is_some result.error ]

pub terminal_event-has_error :
    (run_id : String) (attempt_id : Option String) (entry : AgentHandoffRecord)
    (result : AgentResult) (h : String) (e : HandoffEvent)
    → terminal_event run_id attempt_id entry result h ≡ done e
    → has_error result ≡ true
unfolding terminal_event
terminal_event-has_error run_id attempt_id entry result h e q = ground arith

pub record HasEvent (run_id : String) (attempt_id : Option String) (entry : AgentHandoffRecord)
    (result : AgentResult) (h : String) : Type 0 where
  pub event : HandoffEvent
  pub made : terminal_event run_id attempt_id entry result h ≡ done event
  pub same_run : event.run_id ≡ run_id
  pub same_id : event.handoff_event_id ≡ terminal_id entry.task.task_id h

pub terminal_event-HasEvent :
    (run_id : String) (attempt_id : Option String) (entry : AgentHandoffRecord)
    (result : AgentResult) (h : String)
    → has_error result ≡ true
    → HasEvent run_id attempt_id entry result h
unfolding terminal_event
terminal_event-HasEvent run_id attempt_id entry result h q =
    elim (Outcome-cases (terminal_event run_id attempt_id entry result h)) [
      | inr (_, e) ↦ absurd (ground arith)
      | inl (event, e) ↦ record {
        event = event;
        made = e;
        same_run = ground arith;
        same_id = ground arith;
      }
    ]
