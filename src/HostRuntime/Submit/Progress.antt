-- ===== src/HostRuntime/Submit/Progress.antt =====
-- Attempts at a submission, up to one in which the engine goes through.
use graph_skill_runtime.Common.{
  String, Option, none, ◌≡◌, refl, arith, eq_iff, true, Option-cases, Bool-cases, inl, inr, ap, sym,
  ◌∙◌,
}
use mathlib.Core.Path.{subst}
use graph_skill_runtime.Common.Outcome.{Outcome, done, raised}
use graph_skill_runtime.Domain.Run.{RunRequest}
use graph_skill_runtime.Domain.Agent.{AgentResult, RunResult}
use graph_skill_runtime.Handoff.{
  AgentHandoffRecord, Pydantic, Table, ok, Exception, load, select, update, with_result,
  insert_next, admit, fresh,
}
use graph_skill_runtime.Handoff.Next.{submit-answers}
use graph_skill_runtime.HostRuntime.Services.{
  Runner, Python, Moment, HostState, is_value_error, opens,
}
use graph_skill_runtime.HostRuntime.Trace.{Trace}
use graph_skill_runtime.HostRuntime.Run.{told}
use graph_skill_runtime.HostRuntime.Prepare.{SubmitAgentResultRequest, Prepared, prepare}
use graph_skill_runtime.HostRuntime.Prepare.Passed.{prepare-IsPrepared}
use graph_skill_runtime.HostRuntime.Continue.{continue_run}
use graph_skill_runtime.HostRuntime.Submit.{
  rejected, conclude_submit, transact, submit_body, submit_agent_result,
}
use graph_skill_runtime.HostRuntime.Submit.Failed.{submit_body-raised, fresh_announces}
use graph_skill_runtime.HostRuntime.Submit.Retry.{conclude_submit-done}

-- Attempts at one submission whose bodies raised, from one table to another, where the trace could be
-- opened after the transaction. Between them the trace and
-- the graph may change in any way; other calls of the store do not come between.
pub data Failures (p : Pydantic) (py : Python) {W : Type 0} (runner : Runner W)
    (request : SubmitAgentResultRequest) (run_request : RunRequest) (t : Table p.Json)
    : Table p.Json → Type 0 where
  untried : Failures p py runner request run_request t t
  failed :
      {u : Table p.Json} (s : HostState p W) (m : Moment) (attempt_id : Option String)
      (e : Exception)
      → Failures p py runner request run_request t u
      → s.table ≡ u
      → opens m ≡ true
      → (submit_body p py runner m attempt_id request run_request s).0 ≡ raised e
      → Failures p py runner request run_request t
          (submit_agent_result p py runner m attempt_id request run_request s).1.table

-- A record that waits is admitted.
admit-waiting :
    (p : Pydantic) (ref : String) (result : AgentResult) (h : String) (t : Table p.Json)
    (r : AgentHandoffRecord)
    → load p ref t ≡ ok r
    → result.task_id ≡ r.task.task_id
    → r.response ≡ none
    → admit p ref result h t ≡ ok (fresh r)
unfolding admit load
admit-waiting p ref result h t r l same waiting = elim (Option-cases (select ref t)) [
  | inl q ↦ absurd (ground arith)
  | inr (row, q) ↦ ground (arith, eq_iff r.task.task_id result.task_id)
]

told-table :
    {p : Pydantic} {W : Type 0} (response : RunResult) (t : Outcome Exception Trace)
    (s : HostState p W)
    → (told response t s).1.table ≡ s.table
told-table response (done t) s = refl
told-table response (raised e) s = refl

module _ (p : Pydantic) (py : Python) {W : Type 0} (runner : Runner W)
    (request : SubmitAgentResultRequest) (run_request : RunRequest) where
  rejected-table :
      (m : Moment) (entry : Option AgentHandoffRecord) (e : Exception) (s : HostState p W)
      → (rejected p py runner m request run_request entry e s).1.table ≡ s.table
  unfolding rejected
  rejected-table m entry e s = elim (Bool-cases (is_value_error e)) [
    | inr v ↦ rw (v, rejected) refl
    | inl v ↦ rw (v, rejected) (told-table _ _ s)
  ]

  conclude-table :
      (m : Moment) (entry : Option AgentHandoffRecord)
      (b : Outcome Exception RunResult × HostState p W)
      → (conclude_submit p py runner m request run_request entry b).1.table ≡ b.1.table
  conclude-table m entry (done r, s) = refl
  conclude-table m entry (raised e, s) = rejected-table m entry e s

  submit_agent_result-raised :
      (s : HostState p W) (m : Moment) (attempt_id : Option String) (e : Exception)
      → opens m ≡ true
      → (submit_body p py runner m attempt_id request run_request s).0 ≡ raised e
      → (submit_agent_result p py runner m attempt_id request run_request s).1.table ≡ s.table
  unfolding submit_agent_result
  submit_agent_result-raised s m attempt_id e opened f =
      conclude-table m (prepare p py runner request run_request s.table).0
        (submit_body p py runner m attempt_id request run_request s)
      ∙ elim (submit_body-raised p py runner m attempt_id request run_request s e f) [
        | inl kept ↦ kept
        | inr (_, shut, _) ↦ absurd (ground arith)
      ]

  Failures-table :
      (t : Table p.Json) {u : Table p.Json} → Failures p py runner request run_request t u → u ≡ t
  Failures-table t untried = refl
  Failures-table t (failed s m attempt_id e before same opened f) =
      submit_agent_result-raised s m attempt_id e opened f ∙ same ∙ Failures-table t before

  module _ (s : HostState p W) (q : Prepared) (m : Moment) (attempt_id : Option String)
      (response : RunResult) (next : Option AgentHandoffRecord) (t' : Table p.Json) where
    completes_now :
        (prepare p py runner request run_request s.table).1 ≡ done q
        → q.entry.response ≡ none
        → (continue_run py runner m attempt_id request.result run_request q.compiled q.phases
            q.entry
            (py.result_hash request.result)
            (s.trace, s.graph)).0
          ≡ ok (response, next)
        → insert_next p m.second next (
            update request.checkpoint_ref
              (with_result p m.first request.result (py.result_hash request.result))
              s.table)
          ≡ ok t'
        → opens m ≡ true
        → (submit_agent_result p py runner m attempt_id request run_request s).0 ≡ done response
    unfolding submit_agent_result submit_body transact
    completes_now prepared waiting goes inserted opened =
        let ref = request.checkpoint_ref in
        let h = py.result_hash request.result in
        let k =
          continue_run py runner m attempt_id request.result run_request q.compiled q.phases in
        let ready = prepare-IsPrepared p py runner request run_request s.table q prepared in
        let a =
          admit-waiting p ref request.result h s.table q.entry ready.loaded ready.same_task
            waiting in
        let answered =
          submit-answers p m.first m.second m.third ref request.result h k s.table
            (s.trace, s.graph) q.entry response next t' a goes inserted in
        let told =
          fresh_announces p py runner m attempt_id request run_request s q q.entry response a
            answered opened in
        let body : (submit_body p py runner m attempt_id request run_request s).0 ≡ done response =
          rw (prepared, submit_body, transact, answered) told in
        ap (λ (x : Outcome Exception RunResult × HostState p W). x.0)
          (conclude_submit-done p py runner m request run_request
            (prepare p py runner request run_request s.table).0 response
            (submit_body p py runner m attempt_id request run_request s) body)

    -- However often a submission for a waiting record failed, with no other call of the store in between
    -- and with a trace that could be opened after the transaction, as it can be now,
    -- the attempt in which the continuation goes through, and the store accepts the next handoff where
    -- there is one, is answered what the continuation answers.
    pub submit_agent_result-completes :
        (t : Table p.Json)
        → Failures p py runner request run_request t s.table
        → (prepare p py runner request run_request t).1 ≡ done q
        → q.entry.response ≡ none
        → (continue_run py runner m attempt_id request.result run_request q.compiled q.phases
            q.entry
            (py.result_hash request.result)
            (s.trace, s.graph)).0
          ≡ ok (response, next)
        → insert_next p m.second next (
            update request.checkpoint_ref
              (with_result p m.first request.result (py.result_hash request.result))
              t)
          ≡ ok t'
        → opens m ≡ true
        → (submit_agent_result p py runner m attempt_id request run_request s).0 ≡ done response
    submit_agent_result-completes t failures prepared waiting goes inserted opened =
        let same = Failures-table t failures in
        let ref = request.checkpoint_ref in
        let h = py.result_hash request.result in
        completes_now
          (subst (λ (u : Table p.Json). (prepare p py runner request run_request u).1 ≡ done q)
            (sym same) prepared)
          waiting goes
          (subst
            (λ (u : Table p.Json).
              insert_next p m.second next (update ref (with_result p m.first request.result h) u)
              ≡ ok t')
            (sym same) inserted)
          opened
