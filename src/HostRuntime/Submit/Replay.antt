-- ===== src/HostRuntime/Submit/Replay.antt =====
-- What the body of a repeated submission does: the store replays the answer, and it is told again.
use graph_skill_runtime.Common.{
  String, true, Option, none, some, ◌≡◌, refl, arith, inl, inr, ap, sym, ◌∙◌,
}
use mathlib.Core.Path.{subst}
use graph_skill_runtime.Common.Outcome.{done, Outcome-cases}
use graph_skill_runtime.Domain.Run.{RunRequest}
use graph_skill_runtime.Domain.Agent.{AgentTask, AgentRequired, RunResult}
use graph_skill_runtime.Handoff.{
  AgentHandoffRecord, Pydantic, Table, Result, ok, load, submit, Result-cases,
}
use graph_skill_runtime.Handoff.Settled.{Step, Steps, here, more, answer}
use graph_skill_runtime.Handoff.Asked.{load-IsAsked, IsAsked-load, IsAsked-Steps}
use graph_skill_runtime.Handoff.Retry.{retry_replays, submit-IsSettled, IsSettled-Steps}
use graph_skill_runtime.HostRuntime.Trace.{Trace}
use graph_skill_runtime.HostRuntime.Trace.Terminal.{has_error}
use graph_skill_runtime.HostRuntime.Services.{
  Runner, Python, Moment, HostState, validate_record_owner,
}
use graph_skill_runtime.HostRuntime.Prepare.{SubmitAgentResultRequest, Prepared, prepare}
use graph_skill_runtime.HostRuntime.Prepare.Passed.{
  IsPrepared, prepare-IsPrepared, prepared_again, passed-owner, checked-same,
}
use graph_skill_runtime.HostRuntime.Continue.{continue_run}
use graph_skill_runtime.HostRuntime.Submit.{announce, finish, transact, submit_body}
use graph_skill_runtime.HostRuntime.Submit.Announce.{loads, announce-done}

-- A step and the steps after it.
first_step :
    {V : Type 0} {p : Pydantic} {t u v : Table p.Json}
    → Step V p t u
    → Steps V p u v
    → Steps V p t v
first_step step here = more here step
first_step step (more steps last) = more (first_step step steps) last

loads-Steps :
    {V : Type 0} (p : Pydantic) (o : Option AgentRequired) {t u : Table p.Json}
    → Steps V p t u
    → loads p o t ≡ true
    → loads p o u ≡ true
loads-Steps p none steps l = refl
loads-Steps p (some waiting) {t} {u} steps l =
    elim (Result-cases (load p waiting.checkpoint_ref t)) [
      | inr (_, e) ↦ absurd (ground arith)
      | inl (entry, e) ↦
          let a =
            IsAsked-Steps p waiting.checkpoint_ref entry.task entry.required_response steps
              (load-IsAsked p waiting.checkpoint_ref t entry e) in
          ground
            (arith, IsAsked-load p waiting.checkpoint_ref entry.task entry.required_response u a)
    ]

module _ (p : Pydantic) (py : Python) {W : Type 0} (runner : Runner W)
    (request : SubmitAgentResultRequest) (run_request : RunRequest) where
  module _ (s : HostState p W) (m : Moment) (attempt_id : Option String) where
    -- The store's call of a prepared submission.
    abbrev stored : Prepared → Result RunResult × Table p.Json × (Trace × W)
    stored q =
        submit p m.first m.second m.third request.checkpoint_ref request.result
          (py.result_hash request.result)
          (continue_run py runner m attempt_id request.result run_request q.compiled q.phases)
          s.table (s.trace, s.graph)

    -- What an answered submission leaves.
    record IsAnswered (response : RunResult) : Type 0 where
      q : Prepared
      prepared : IsPrepared p py runner request run_request s.table q
      submitted : (stored q).0 ≡ ok response
      left : (submit_body p py runner m attempt_id request run_request s).1.table ≡ (stored q).1
      pub told : has_error request.result ≡ true
      found : loads p response.agent_required (stored q).1 ≡ true

    submit_body-IsAnswered :
        (response : RunResult)
        → (submit_body p py runner m attempt_id request run_request s).0 ≡ done response
        → IsAnswered response
    unfolding submit_body transact
    submit_body-IsAnswered response e =
        elim (Outcome-cases ((prepare p py runner request run_request s.table).1)) [
          | inr (_, r) ↦ absurd (ground arith)
          | inl (q, r) ↦ elim (Result-cases (stored q).0) [
            | inr (_, t) ↦ absurd (ground arith)
            | inl (given, t) ↦
                let after : HostState p W = record {
                  table = (stored q).1;
                  trace = (stored q).2.0;
                  graph = (stored q).2.1;
                } in
                let a : (announce p py runner m attempt_id request run_request q.entry given
                      after).0
                    ≡ done response =
                  ground arith in
                let (same, told, found, kept) =
                  announce-done p py runner m attempt_id request run_request q.entry given after
                    response a in
                record {
                  q = q;
                  prepared = prepare-IsPrepared p py runner request run_request s.table q r;
                  submitted = t ∙ ap ok (sym same);
                  left = rw (r, submit_body, transact, t) kept;
                  told = told;
                  found = rw same found;
                }
          ]
        ]

  module _ (s : HostState p W) (m : Moment) (attempt_id : Option String) (response : RunResult)
      (answered : (submit_body p py runner m attempt_id request run_request s).0 ≡ done response)
      (u : HostState p W)
      (steps : Steps
        (Trace × W)
        p
        (submit_body p py runner m attempt_id request run_request s).1.table
        u.table)
      (m' : Moment) (attempt' : Option String) where
    pub record IsReplayed : Type 0 where
      pub entry : AgentHandoffRecord
      pub same_task : entry.task.task_id ≡ request.result.task_id
      pub loaded : load p request.checkpoint_ref u.table ≡ ok entry
      pub responded : entry.response ≡ some response
      pub owned : validate_record_owner py entry request.run_id run_request ≡ done tt
      pub told : has_error request.result ≡ true
      pub found : loads p response.agent_required u.table ≡ true
      pub replayed :
          submit_body p py runner m' attempt' request run_request u
          ≡ announce p py runner m' attempt' request run_request entry response u

    pub submit_body-IsReplayed : IsReplayed
    unfolding submit_body transact
    submit_body-IsReplayed =
        let h = submit_body-IsAnswered s m attempt_id response answered in
        let reached : Steps (Trace × W) p (stored s m attempt_id h.q).1 u.table =
          subst (λ (t : Table p.Json). Steps (Trace × W) p t u.table) h.left steps in
        let kept =
          IsAsked-Steps p request.checkpoint_ref h.q.entry.task h.q.entry.required_response
            (first_step
              (answer m.first m.second m.third request.checkpoint_ref request.result
                (py.result_hash request.result)
                (continue_run py runner m attempt_id request.result run_request h.q.compiled
                  h.q.phases)
                s.table (s.trace, s.graph))
              reached)
            (load-IsAsked p request.checkpoint_ref s.table h.q.entry h.prepared.loaded) in
        let replay =
          retry_replays p m.first m.second m.third request.checkpoint_ref
            (py.result_hash request.result) request.result
            (continue_run py runner m attempt_id request.result run_request h.q.compiled h.q.phases)
            s.table (s.trace, s.graph) response h.submitted u.table reached m'.first m'.second
            m'.third request.result
            (continue_run py runner m' attempt' request.result run_request h.q.compiled h.q.phases)
            (u.trace, u.graph) refl in
        let settled =
          IsSettled-Steps p request.checkpoint_ref request.result.task_id
            (py.result_hash request.result) response _ u.table
            (submit-IsSettled p request.checkpoint_ref (py.result_hash request.result)
              request.result m.first m.second m.third
              (continue_run py runner m attempt_id request.result run_request h.q.compiled
                h.q.phases)
              s.table (s.trace, s.graph) response h.submitted)
            reached in
        record {
          entry = kept.entry;
          same_task = ap (λ (t : AgentTask). t.task_id) kept.same_task ∙ sym h.prepared.same_task;
          loaded =
              IsAsked-load p request.checkpoint_ref h.q.entry.task h.q.entry.required_response
                u.table kept;
          responded =
              ground
                (arith, settled.found, settled.decoded, settled.answered, kept.found, kept.decoded);
          owned =
              passed-owner p py runner request run_request h.q.compiled h.q.phases kept.entry _ (
                checked-same p py runner request run_request h.q.entry kept.entry kept.same_task
                  kept.same_required h.q.compiled h.q.phases h.q h.prepared.passed);
          told = h.told;
          found = loads-Steps p response.agent_required reached h.found;
          replayed =
              rw
                (
                  prepared_again p py runner request run_request s.table u.table h.q h.prepared
                      kept,
                  submit_body,
                  transact,
                )
                (ap (finish p py runner m' attempt' request run_request kept.entry) replay);
        }
