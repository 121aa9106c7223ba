-- ===== src/HostRuntime/Answers.antt =====
-- Every answer of the adapter satisfies the validator of RunResult, so that pydantic builds it.
use graph_skill_runtime.Common.{
  String, Option, ◌≡◌, arith, Option-cases, Bool-cases, inl, inr, ap, sym,
}
use mathlib.Core.Path.{subst}
use graph_skill_runtime.Common.Dict.{Dict}
use graph_skill_runtime.Common.Outcome.{Outcome, done, raised, Outcome-cases}
use graph_skill_runtime.Json.{JsonObject}
use graph_skill_runtime.Domain.Run.{RunRequest}
use graph_skill_runtime.Domain.Agent.{AgentResult, RunResult, RunMode}
use graph_skill_runtime.Engine.{CoreRunResult, run_result}
use graph_skill_runtime.Engine.Payload.{
  payload_matches_status, payload-run_result, payload-failed_run,
}
use graph_skill_runtime.Handoff.{
  AgentHandoffRecord, Table, Pydantic, Result, ok, Exception, admit, replay, fresh, Result-cases,
}
use graph_skill_runtime.Handoff.Next.{submit-IsAccepted, submit-refused, submit-replayed}
use graph_skill_runtime.HostNative.{GraphNode, CompiledSkill}
use graph_skill_runtime.HostNative.Task.{build_agent_handoff}
use graph_skill_runtime.HostRuntime.Trace.{Trace}
use graph_skill_runtime.HostRuntime.Services.{
  Runner, Python, Moment, HostState, is_value_error, sqlite_checkpointer,
}
use graph_skill_runtime.HostRuntime.Run.{names, run}
use graph_skill_runtime.HostRuntime.Resume.{ResumeRequest, resume}
use graph_skill_runtime.HostRuntime.Prepare.{SubmitAgentResultRequest, Prepared, prepare}
use graph_skill_runtime.HostRuntime.Continue.{
  emit_agent_terminal, after_engine, drive, continue_run,
}
use graph_skill_runtime.HostRuntime.Submit.{
  announce, conclude_submit, transact, submit_body, rejected, submit_agent_result,
}
use graph_skill_runtime.HostRuntime.Continue.Shape.{status-cases}
use graph_skill_runtime.HostRuntime.Submit.Failed.{stored, after}
use graph_skill_runtime.HostRuntime.Submit.Announce.{announce-done}
use graph_skill_runtime.HostRuntime.Stored.{IsValid, AllValid, admit-IsValid}
use graph_skill_runtime.HostRuntime.Valid.{
  IsGood, told-IsGood, built-IsValid, run-IsValid, resume-IsValid,
}

module _ (p : Pydantic) (py : Python) {W : Type 0} (runner : Runner W) where
  module _ (m : Moment) (attempt_id : Option String) (request : SubmitAgentResultRequest)
      (run_request : RunRequest) where
    after_engine-IsValid :
        (compiled : CompiledSkill) (phases : Dict GraphNode) (core_result : CoreRunResult)
        (v : Trace × W) (response : RunResult) (next : Option AgentHandoffRecord)
        → (after_engine py runner run_request compiled phases core_result v).0 ≡ ok (response, next)
        → IsValid response
    unfolding after_engine
    after_engine-IsValid compiled phases core_result v response next e =
        elim (Option-cases core_result.paused_at) [
          | inl q ↦
              let same : run_result core_result run_request RunMode.resume ≡ response =
                ground arith in
              subst IsValid same (payload-run_result core_result run_request RunMode.resume)
          | inr (stop, q) ↦
              elim (Outcome-cases (
                build_agent_handoff py.platform run_request compiled phases core_result
                  RunMode.resume)) [
                    | inr (_, b) ↦ absurd (ground arith)
                    | inl (n, b) ↦
                        let same : n.required_response ≡ response = ground arith in
                        subst IsValid same (
                          built-IsValid py run_request compiled phases core_result RunMode.resume n
                            b)
                  ]
        ]

    drive-IsValid :
        (compiled : CompiledSkill) (phases : Dict GraphNode) (active : AgentHandoffRecord)
        (result : AgentResult) (output : JsonObject) (h : String) (trace : Trace) (w : W)
        (response : RunResult) (next : Option AgentHandoffRecord)
        → (drive py runner run_request compiled phases active result output h (trace, w)).0
          ≡ ok (response, next)
        → IsValid response
    unfolding drive
    drive-IsValid compiled phases active result output h trace w response next e =
        elim (Outcome-cases (sqlite_checkpointer run_request)) [
          | inr (_, q) ↦ absurd (ground arith)
          | inl (filename, q) ↦
              let resumed : Outcome Exception CoreRunResult × W =
                runner.resume_skill run_request active.checkpoint_id active.checkpoint_ns
                  (names phases)
                  (record {
                    task_id = result.task_id;
                    phase_id = active.task.address.phase_id;
                    result_hash = h;
                    output = output;
                  })
                  w in
              elim (Outcome-cases resumed.0) [
                | inr (_, r) ↦ absurd (ground arith)
                | inl (core_result, r) ↦
                    after_engine-IsValid compiled phases core_result (trace, resumed.1) response
                      next (ground arith)
              ]
        ]

    continue_run-IsValid :
        (compiled : CompiledSkill) (phases : Dict GraphNode) (active : AgentHandoffRecord)
        (h : String) (v : Trace × W) (response : RunResult) (next : Option AgentHandoffRecord)
        → (continue_run py runner m attempt_id request.result run_request compiled phases active h
            v).0
          ≡ ok (response, next)
        → IsValid response
    unfolding continue_run payload_matches_status
    continue_run-IsValid compiled phases active h (trace, w) response next e =
        elim (Outcome-cases
          (emit_agent_terminal m.during attempt_id run_request active request.result h trace)) [
            | inr (_, t) ↦ absurd (ground arith)
            | inl (trace', t) ↦ elim (status-cases request.result.status) [
              | inr (inl f) ↦ ground arith
              | inr (inr f) ↦ ground arith
              | inl c ↦ elim (Option-cases request.result.output) [
                | inl o ↦ absurd (ground arith)
                | inr (output, o) ↦
                    drive-IsValid compiled phases active request.result output h trace' w response
                      next (ground arith)
              ]
            ]
          ]

    submit-IsValid :
        (s : HostState p W) (q : Prepared) (response : RunResult)
        → AllValid p s.table
        → (stored p py runner m attempt_id request run_request s q).0 ≡ ok response
        → IsValid response
    submit-IsValid s q response v e =
        let ref = request.checkpoint_ref in
        let h = py.result_hash request.result in
        let k =
          continue_run py runner m attempt_id request.result run_request q.compiled q.phases in
        elim (Result-cases (admit p ref request.result h s.table)) [
          | inl (replay old, a) ↦
              let same : old ≡ response = ground (
                arith,
                ap (λ (x : Result RunResult × Table p.Json × (Trace × W)). x.0)
                    (submit-replayed p m.first m.second m.third ref request.result h k s.table
                      (s.trace, s.graph) old a),
              ) in
              subst IsValid same (admit-IsValid p s.table v ref request.result h old a)
          | inl (fresh r, a) ↦
              let accepted =
                submit-IsAccepted p m.first m.second m.third ref request.result h k s.table
                  (s.trace, s.graph) r response a e in
              continue_run-IsValid q.compiled q.phases r h (s.trace, s.graph) response accepted.next
                accepted.continued
          | inr (x, a) ↦ absurd (
              ground (
                arith,
                ap (λ (y : Result RunResult × Table p.Json × (Trace × W)). y.0)
                    (submit-refused p m.first m.second m.third ref request.result h k s.table
                      (s.trace, s.graph) x a),
              ))
        ]

    transact-IsGood :
        (s : HostState p W) (q : Prepared)
        → AllValid p s.table
        → IsGood (transact p py runner m attempt_id request run_request q s).0
    unfolding transact
    transact-IsGood s q v =
        elim (Result-cases (stored p py runner m attempt_id request run_request s q).0) [
          | inr (x, t) ↦ rw (t, transact) tt
          | inl (response, t) ↦
              let told =
                announce p py runner m attempt_id request run_request q.entry response
                  (after p py runner m attempt_id request run_request s q) in
              elim (Outcome-cases told.0) [
                | inr (x, a) ↦ rw (t, transact, a) tt
                | inl (r, a) ↦
                    let same =
                      (announce-done p py runner m attempt_id request run_request q.entry response
                        (after p py runner m attempt_id request run_request s q) r a).0 in
                    rw (t, transact, a) (subst IsValid (sym same) (submit-IsValid s q response v t))
              ]
        ]

    submit_body-IsGood :
        (s : HostState p W)
        → AllValid p s.table
        → IsGood (submit_body p py runner m attempt_id request run_request s).0
    unfolding submit_body
    submit_body-IsGood s v =
        elim (Outcome-cases ((prepare p py runner request run_request s.table).1)) [
          | inr (_, r) ↦ rw (r, submit_body) tt
          | inl (q, r) ↦ rw (r, submit_body) (transact-IsGood s q v)
        ]

    rejected-IsGood :
        (entry : Option AgentHandoffRecord) (e : Exception) (s : HostState p W)
        → IsGood (rejected p py runner m request run_request entry e s).0
    unfolding rejected
    rejected-IsGood entry e s = elim (Bool-cases (is_value_error e)) [
      | inl v ↦
          rw (v, rejected) (told-IsGood _ _ s (payload-failed_run run_request RunMode.resume _ _ _))
      | inr v ↦ rw (v, rejected) (payload-failed_run run_request RunMode.resume _ _ _)
    ]

    submit_agent_result-IsGood :
        (s : HostState p W)
        → AllValid p s.table
        → IsGood (submit_agent_result p py runner m attempt_id request run_request s).0
    unfolding submit_agent_result
    submit_agent_result-IsGood s v =
        concluded (submit_body p py runner m attempt_id request run_request s)
          (submit_body-IsGood s v)
      where
        concluded :
            (b : Outcome Exception RunResult × HostState p W)
            → IsGood b.0
            → IsGood
                (conclude_submit p py runner m request run_request
                  (prepare p py runner request run_request s.table).0
                  b).0
        concluded (done r, s') v = v
        concluded (raised e, s') v =
            rejected-IsGood (prepare p py runner request run_request s.table).0 e s'

  -- Where the rows of the store hold valid answers, whatever run, resume and submit_agent_result
  -- return, on every path and for every engine, satisfies the validator of RunResult: a failed answer has
  -- an error, and an answer announces a task exactly where its status is agent_required.
  pub answers-IsValid :
      (m : Moment) (attempt_id : Option String) (run_request : RunRequest)
      (compiled : CompiledSkill) (resumption : ResumeRequest)
      (submission : SubmitAgentResultRequest) (s : HostState p W)
      → AllValid p s.table
      → IsValid (run p py runner m run_request compiled s).0
        × IsValid (resume p py resumption run_request s.table)
        × IsGood (submit_agent_result p py runner m attempt_id submission run_request s).0
  answers-IsValid m attempt_id run_request compiled resumption submission s v = (
    run-IsValid p py runner m run_request compiled s v,
    resume-IsValid p py runner resumption run_request s.table v,
    submit_agent_result-IsGood m attempt_id submission run_request s v,
  )
