-- ===== src/HostRuntime/Submit/Announce.antt =====
-- The events after a transaction: when they can be told, and that they are in the trace afterwards.
use graph_skill_runtime.Common.{
  String, Bool, true, false, Option, none, some, ◌≡◌, refl, arith, Option-cases, inl, inr,
}
use graph_skill_runtime.Common.Outcome.{Outcome, done, Outcome-cases}
use graph_skill_runtime.Domain.Run.{RunRequest}
use graph_skill_runtime.Domain.Agent.{AgentRequired, RunResult}
use graph_skill_runtime.Handoff.{
  AgentHandoffRecord, Exception, Pydantic, Table, ok, err, load, Result-cases,
}
use graph_skill_runtime.HostRuntime.Trace.{
  Trace, writable, is_logged, terminal_id, required_event, required_id,
}
use graph_skill_runtime.HostRuntime.Trace.Logged.{
  append_run_event_once-returns, append_run_event_once-logs, append_run_event_once-keeps,
}
use graph_skill_runtime.HostRuntime.Trace.Terminal.{has_error}
use graph_skill_runtime.HostRuntime.Services.{Runner, Python, Moment, HostState, opens}
use graph_skill_runtime.HostRuntime.Run.{emit_agent_required}
use graph_skill_runtime.HostRuntime.Prepare.{SubmitAgentResultRequest}
use graph_skill_runtime.HostRuntime.Continue.{emit_agent_terminal}
use graph_skill_runtime.HostRuntime.Continue.Told.{
  emit_agent_terminal-has_error, emit_agent_terminal-returns, emit_agent_terminal-logs,
}
use graph_skill_runtime.HostRuntime.Submit.{announce}

module _ (p : Pydantic) where
  abbrev pub loads : Option AgentRequired → Table p.Json → Bool
  loads none table = true
  loads (some waiting) table = elim (load p waiting.checkpoint_ref table) [
    | ok entry ↦ true
    | err e ↦ false
  ]

  -- The wait point that an answer announces is in the trace.
  abbrev pub IsAnnounced : String → Option AgentRequired → Table p.Json → Trace → Type 0
  IsAnnounced run_id none table trace = Unit
  IsAnnounced run_id (some waiting) table trace =
      (entry : AgentHandoffRecord) × (load p waiting.checkpoint_ref table ≡ ok entry)
      × (is_logged run_id (required_id entry.task.task_id) trace ≡ true)

module _ (p : Pydantic) (py : Python) {W : Type 0} (runner : Runner W) (m : Moment)
    (attempt_id : Option String) (request : SubmitAgentResultRequest) (run_request : RunRequest)
    (entry : AgentHandoffRecord) (response : RunResult) (s : HostState p W) where
  abbrev first_told : Outcome Exception Trace
  first_told =
      emit_agent_terminal m.after attempt_id run_request entry request.result
        (py.result_hash request.result) s.trace

  pub announce-done :
      (r : RunResult)
      → (announce p py runner m attempt_id request run_request entry response s).0 ≡ done r
      → (r ≡ response)
        × (has_error request.result ≡ true)
        × (loads p response.agent_required s.table ≡ true)
        × ((announce p py runner m attempt_id request run_request entry response s).1.table
            ≡ s.table)
  unfolding announce
  announce-done r e = elim (Outcome-cases first_told) [
    | inr (_, q) ↦ absurd (ground arith)
    | inl (trace, q) ↦
        let s' : HostState p W = record s { trace = trace } in
        let has_told =
          emit_agent_terminal-has_error m.after run_request attempt_id entry request.result
            (py.result_hash request.result) s.trace trace q in
        elim (Option-cases response.agent_required) [
          | inl a ↦ (ground arith, has_told, ground arith, ground arith)
          | inr (waiting, a) ↦ elim (Result-cases (load p waiting.checkpoint_ref s.table)) [
            | inr (_, l) ↦ absurd (ground arith)
            | inl (next, l) ↦ elim (Outcome-cases (emit_agent_required m run_request next s')) [
              | inr (_, n) ↦ absurd (ground arith)
              | inl (trace', n) ↦ (ground arith, has_told, ground arith, ground arith)
            ]
          ]
        ]
  ]

  module _ (has_told : has_error request.result ≡ true)
      (found : loads p response.agent_required s.table ≡ true) where
    -- A call that can tell its events answers, and changes the trace only.
    pub announce-answers :
        opens m ≡ true
        → ((announce p py runner m attempt_id request run_request entry response s).0
            ≡ done response)
          × ((announce p py runner m attempt_id request run_request entry response s).1.table
              ≡ s.table)
          × ((announce p py runner m attempt_id request run_request entry response s).1.graph
              ≡ s.graph)
    unfolding announce emit_agent_required
    announce-answers opened =
        let (trace, q) =
          emit_agent_terminal-returns m.after run_request attempt_id entry request.result
            (py.result_hash request.result) s.trace has_told (ground arith) in
        elim (Option-cases response.agent_required) [
          | inl a ↦ (ground arith, ground arith, ground arith)
          | inr (waiting, a) ↦ elim (Result-cases (load p waiting.checkpoint_ref s.table)) [
            | inr (_, l) ↦ absurd (ground arith)
            | inl (next, l) ↦
                let (trace', n) =
                  append_run_event_once-returns m.last (required_event run_request.run_id next)
                    trace (ground arith) in
                (ground arith, ground arith, ground arith)
          ]
        ]

    -- Where the trace can be written, the result's event is in it, and the next wait point's.
    pub announce-logs :
        m.after ≡ writable
        → m.last ≡ writable
        → (is_logged run_request.run_id
              (terminal_id entry.task.task_id (py.result_hash request.result))
              (announce p py runner m attempt_id request run_request entry response s).1.trace
            ≡ true)
          × IsAnnounced p run_request.run_id response.agent_required s.table
              (announce p py runner m attempt_id request run_request entry response s).1.trace
    unfolding announce emit_agent_required required_event
    announce-logs after_writes last_writes =
        let h = py.result_hash request.result in
        let (trace, q) =
          emit_agent_terminal-returns m.after run_request attempt_id entry request.result h s.trace
            has_told (ground arith) in
        let logged =
          emit_agent_terminal-logs m.after run_request attempt_id entry request.result h s.trace
            has_told trace q after_writes in
        elim (Option-cases response.agent_required) [
          | inl a ↦ rw (q, announce, a) (logged, tt)
          | inr (waiting, a) ↦ elim (Result-cases (load p waiting.checkpoint_ref s.table)) [
            | inr (_, l) ↦ absurd (ground arith)
            | inl (next, l) ↦
                let e = required_event run_request.run_id next in
                let (trace', n) = append_run_event_once-returns m.last e trace (ground arith) in
                rw (q, announce, a, l, emit_agent_required, n)
                  (
                    append_run_event_once-keeps run_request.run_id
                        (terminal_id entry.task.task_id h) m.last e trace trace' n logged,
                    (
                      next,
                      refl,
                      append_run_event_once-logs e trace trace' _ _ (ground arith) refl refl,
                    ),
                  )
          ]
        ]
