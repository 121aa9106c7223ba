-- ===== src/HostRuntime/Continue/Told.antt =====
-- The event of a result, which emit_agent_terminal writes.
use graph_skill_runtime.Common.{String, true, Option, ◌≡◌, arith, inl, inr}
use graph_skill_runtime.Common.Outcome.{done, Outcome-cases}
use graph_skill_runtime.Domain.Run.{RunRequest}
use graph_skill_runtime.Domain.Agent.{AgentResult}
use graph_skill_runtime.Handoff.{AgentHandoffRecord}
use graph_skill_runtime.HostRuntime.Trace.{
  Trace, Sink, writable, is_open, is_logged, terminal_event, terminal_id,
}
use graph_skill_runtime.HostRuntime.Trace.Logged.{
  append_run_event_once-returns, append_run_event_once-logs,
}
use graph_skill_runtime.HostRuntime.Trace.Terminal.{
  has_error, terminal_event-has_error, terminal_event-HasEvent,
}
use graph_skill_runtime.HostRuntime.Continue.{emit_agent_terminal}

-- What a call tells of a result.
module _ (sink : Sink) (run_request : RunRequest) (attempt_id : Option String)
    (entry : AgentHandoffRecord) (result : AgentResult) (h : String) (trace : Trace) where
  pub emit_agent_terminal-has_error :
      (t : Trace)
      → emit_agent_terminal sink attempt_id run_request entry result h trace ≡ done t
      → has_error result ≡ true
  unfolding emit_agent_terminal
  emit_agent_terminal-has_error t e =
      elim (Outcome-cases (terminal_event run_request.run_id attempt_id entry result h)) [
        | inr (_, q) ↦ absurd (ground arith)
        | inl (event, q) ↦
            terminal_event-has_error run_request.run_id attempt_id entry result h event q
      ]

  module _ (told : has_error result ≡ true) where
    pub emit_agent_terminal-returns :
        is_open sink ≡ true
        → (t : Trace) × (emit_agent_terminal sink attempt_id run_request entry result h trace
            ≡ done t)
    unfolding emit_agent_terminal
    emit_agent_terminal-returns open_sink =
        let e = terminal_event-HasEvent run_request.run_id attempt_id entry result h told in
        let (t, q) = append_run_event_once-returns sink e.event trace open_sink in
        (t, rw (e.made, emit_agent_terminal) q)

    pub emit_agent_terminal-logs :
        (t : Trace)
        → emit_agent_terminal sink attempt_id run_request entry result h trace ≡ done t
        → sink ≡ writable
        → is_logged run_request.run_id (terminal_id entry.task.task_id h) t ≡ true
    unfolding emit_agent_terminal
    emit_agent_terminal-logs t q writes =
        let e = terminal_event-HasEvent run_request.run_id attempt_id entry result h told in
        let made : terminal_event run_request.run_id attempt_id entry result h ≡ done e.event =
          e.made in
        append_run_event_once-logs e.event trace t _ _ (ground arith) e.same_run e.same_id
