-- ===== src/HostRuntime/Submit/Failed.antt =====
-- What a submission whose body raises leaves in the handoff table.
use graph_skill_runtime.Common.{
  Option-cases, Bool-cases, sym, String, true, false, Option, some, ◌≡◌, ◌⊎◌, refl, arith, inl, inr,
  ap, ◌∙◌,
}
use graph_skill_runtime.Common.Outcome.{done, raised, Outcome-cases}
use graph_skill_runtime.Domain.Run.{RunRequest}
use graph_skill_runtime.Domain.Agent.{RunResult}
use graph_skill_runtime.Handoff.{
  AgentHandoffRecord, Pydantic, Table, Result, ok, load, Exception, submit, admit, replay, fresh,
  Result-cases,
}
use mathlib.Core.Path.{subst}
use graph_skill_runtime.Handoff.Retry.{IsSettled, submit-IsSettled}
use graph_skill_runtime.Handoff.Identity.{submit-err}
use graph_skill_runtime.Handoff.Next.{
  IsReadable, IsReadable-load, submit-IsAccepted, submit-refused, submit-replayed,
}
use graph_skill_runtime.HostRuntime.Trace.{Trace}
use graph_skill_runtime.HostRuntime.Services.{Runner, Python, Moment, HostState, opens}
use graph_skill_runtime.HostRuntime.Run.{emit_agent_required}
use graph_skill_runtime.HostRuntime.Prepare.{SubmitAgentResultRequest, Prepared, prepare}
use graph_skill_runtime.HostRuntime.Continue.{emit_agent_terminal, continue_run}
use graph_skill_runtime.HostRuntime.Continue.Shape.{HasShape, continue_run-HasShape}
use graph_skill_runtime.HostRuntime.Submit.{announce, transact, submit_body}
use graph_skill_runtime.HostRuntime.Submit.Announce.{loads, announce-answers}

module _ (p : Pydantic) (py : Python) {W : Type 0} (runner : Runner W) (m : Moment)
    (attempt_id : Option String) (request : SubmitAgentResultRequest)
    (run_request : RunRequest) where
  announce-table :
      (entry : AgentHandoffRecord) (response : RunResult) (s : HostState p W)
      → (announce p py runner m attempt_id request run_request entry response s).1.table ≡ s.table
  unfolding announce
  announce-table entry response s =
      elim (Outcome-cases (
        emit_agent_terminal m.after attempt_id run_request entry request.result
          (py.result_hash request.result) s.trace)) [
            | inr (_, q) ↦ ground arith
            | inl (trace, q) ↦
                let s' : HostState p W = record s { trace = trace } in
                elim (Option-cases response.agent_required) [
                  | inl a ↦ ground arith
                  | inr (waiting, a) ↦ elim (Result-cases (load p waiting.checkpoint_ref s.table)) [
                    | inr (_, l) ↦ ground arith
                    | inl (next, l) ↦
                        elim (Outcome-cases (emit_agent_required m run_request next s')) [
                          | inr (_, n) ↦ ground arith
                          | inl (_, n) ↦ ground arith
                        ]
                  ]
                ]
          ]

  -- The table is as it was, or an answer stands in it whose event found no trace.
  abbrev pub IsUnapplied : Table p.Json → Table p.Json → Type 0
  IsUnapplied t before =
      (t ≡ before)
      ⊎ (response : RunResult) × (opens m ≡ false)
        × IsSettled p request.checkpoint_ref request.result.task_id (py.result_hash request.result)
            response t

  HasShape-loads :
      (response : RunResult) (next : Option AgentHandoffRecord) (t : Table p.Json)
      → HasShape response next
      → ((n : AgentHandoffRecord) → next ≡ some n → IsReadable p n.checkpoint_ref t)
      → loads p response.agent_required t ≡ true
  HasShape-loads response next t (inl (e, q)) readable = ground arith
  HasShape-loads response next t (inr (n, waiting, e, q, same)) readable =
      let r = readable n e in ground (arith, IsReadable-load p n.checkpoint_ref t r)

  module _ (s : HostState p W) (q : Prepared) where
    abbrev pub stored : Result RunResult × Table p.Json × (Trace × W)
    stored =
        submit p m.first m.second m.third request.checkpoint_ref request.result
          (py.result_hash request.result)
          (continue_run py runner m attempt_id request.result run_request q.compiled q.phases)
          s.table (s.trace, s.graph)

    abbrev pub after : HostState p W
    after = record { table = stored.1; trace = stored.2.0; graph = stored.2.1 }

    -- A fresh submission that the store answers can be announced.
    pub fresh_announces :
        (r : AgentHandoffRecord) (response : RunResult)
        → admit p request.checkpoint_ref request.result (py.result_hash request.result) s.table
          ≡ ok (fresh r)
        → stored.0 ≡ ok response
        → opens m ≡ true
        → (announce p py runner m attempt_id request run_request q.entry response after).0
          ≡ done response
    fresh_announces r response a e opened =
        let h = py.result_hash request.result in
        let accepted =
          submit-IsAccepted p m.first m.second m.third request.checkpoint_ref request.result h
            (continue_run py runner m attempt_id request.result run_request q.compiled q.phases)
            s.table (s.trace, s.graph) r response a e in
        let (told, shape) =
          continue_run-HasShape py runner run_request q.compiled q.phases m attempt_id
            request.result r h (s.trace, s.graph) response accepted.next accepted.continued in
        (announce-answers p py runner m attempt_id request run_request q.entry response after told
          (HasShape-loads response accepted.next stored.1 shape accepted.readable) opened).0

    transact-raised :
        (e : Exception)
        → (transact p py runner m attempt_id request run_request q s).0 ≡ raised e
        → IsUnapplied (transact p py runner m attempt_id request run_request q s).1.table s.table
    unfolding transact
    transact-raised e failed = elim (Result-cases stored.0) [
      | inr (x, t) ↦ inl (
          rw (t, transact)
            (submit-err p m.first m.second m.third request.checkpoint_ref request.result
              (py.result_hash request.result)
              (continue_run py runner m attempt_id request.result run_request q.compiled q.phases)
              s.table (s.trace, s.graph) x t))
      | inl (response, t) ↦
          let raises : (announce p py runner m attempt_id request run_request q.entry response
                after).0
              ≡ raised e =
            ground arith in
          elim (Bool-cases (opens m)) [
            | inr shut ↦ inr (
              response,
              shut,
              rw (t, transact)
                  (subst
                    (IsSettled p request.checkpoint_ref request.result.task_id
                      (py.result_hash request.result) response)
                    (sym (announce-table q.entry response after))
                    (submit-IsSettled p request.checkpoint_ref (py.result_hash request.result)
                      request.result m.first m.second m.third
                      (continue_run py runner m attempt_id request.result run_request q.compiled
                        q.phases)
                      s.table (s.trace, s.graph) response t)),
            )
            | inl opened ↦
                elim (Result-cases (
                  admit p request.checkpoint_ref request.result (py.result_hash request.result)
                    s.table)) [
                      | inl (fresh r, a) ↦
                          let answers : (announce p py runner m attempt_id request run_request
                                q.entry response after).0
                              ≡ done response =
                            fresh_announces r response a t opened in
                          absurd (ground arith)
                      | inl (replay old, a) ↦
                          let same =
                            submit-replayed p m.first m.second m.third request.checkpoint_ref
                              request.result (py.result_hash request.result)
                              (continue_run py runner m attempt_id request.result run_request
                                q.compiled q.phases)
                              s.table (s.trace, s.graph) old a in
                          inl (
                            rw (t, transact)
                              (announce-table q.entry response after
                                ∙ ap (λ (x : Result RunResult × Table p.Json × (Trace × W)). x.1)
                                    same))
                      | inr (x, a) ↦
                          let same =
                            submit-refused p m.first m.second m.third request.checkpoint_ref
                              request.result (py.result_hash request.result)
                              (continue_run py runner m attempt_id request.result run_request
                                q.compiled q.phases)
                              s.table (s.trace, s.graph) x a in
                          inl (
                            rw (t, transact)
                              (announce-table q.entry response after
                                ∙ ap (λ (y : Result RunResult × Table p.Json × (Trace × W)). y.1)
                                    same))
                    ]
          ]
    ]

  -- A submission whose body raises leaves the handoff table as it was, also where the graph went on; or
  -- the trace could not be opened after the transaction, and the result is applied: the row holds its
  -- hash and a response.
  pub submit_body-raised :
      (s : HostState p W) (e : Exception)
      → (submit_body p py runner m attempt_id request run_request s).0 ≡ raised e
      → IsUnapplied (submit_body p py runner m attempt_id request run_request s).1.table s.table
  unfolding submit_body
  submit_body-raised s e failed =
      elim (Outcome-cases ((prepare p py runner request run_request s.table).1)) [
        | inr (_, r) ↦ inl (rw (r, submit_body) refl)
        | inl (q, r) ↦
            let raises : (transact p py runner m attempt_id request run_request q s).0 ≡ raised e =
              ground arith in
            rw (r, submit_body) (transact-raised s q e raises)
      ]
