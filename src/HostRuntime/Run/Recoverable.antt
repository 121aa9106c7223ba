-- ===== src/HostRuntime/Run/Recoverable.antt =====
-- What a run that waits leaves in the store, and what a run finds there.
use graph_skill_runtime.Common.{
  String, [], ◌∷◌, true, false, Option, none, some, ◌≡◌, refl, arith, Option-cases, Bool-cases, inl,
  inr, ap, sym, ◌∙◌, is_empty,
}
use mathlib.Core.Path.{subst}
use graph_skill_runtime.Common.Dict.{Dict}
use graph_skill_runtime.Common.Outcome.{Outcome, done, Outcome-cases}
use graph_skill_runtime.Domain.Run.{RunRequest}
use graph_skill_runtime.Domain.Agent.{mcp, cli, AgentRequired, RunResult, RunMode}
use graph_skill_runtime.Engine.{CoreRunResult, run_result}
use graph_skill_runtime.Handoff.{
  AgentHandoffRecord, Pydantic, Table, ok, Exception, load, recover_run, put_required, select_claim,
  Result-cases,
}
use graph_skill_runtime.Handoff.Recovery.{recover_run-put_required}
use graph_skill_runtime.Handoff.Next.{IsReadable-load, put_required-IsReadable}
use graph_skill_runtime.HostNative.{GraphNode, CompiledSkill, supported, host_native_agent_phases}
use graph_skill_runtime.HostNative.Task.{build_agent_handoff, checkpoint_ref_of}
use graph_skill_runtime.HostNative.Task.Built.{build_agent_handoff-IsHandoffOf}
use graph_skill_runtime.HostRuntime.Services.{
  Runner, Python, Moment, HostState, is_request, sqlite_checkpointer,
}
use graph_skill_runtime.HostRuntime.Trace.{Trace}
use graph_skill_runtime.HostRuntime.Prepare.Passed.{support-cases}
use graph_skill_runtime.HostRuntime.Run.{
  names, emit_agent_required, hand_over, run_plain, answer_stored, answer_recovered, start_run,
  run_engine, run_stored, run_body,
}

module _ (p : Pydantic) (py : Python) {W : Type 0} (runner : Runner W) (request : RunRequest)
    (compiled : CompiledSkill) (response : RunResult) (a : AgentRequired)
    (waits : response.agent_required ≡ some a) where
  -- The store answers the run with `response`, whose wait point it can load.
  pub record IsRecoverable (t : Table p.Json) : Type 0 where
    pub entry : AgentHandoffRecord
    pub recovered : recover_run p request.run_id t ≡ ok (some response)
    pub owned : is_request py response.request request ≡ true
    pub loaded : load p a.checkpoint_ref t ≡ ok entry

  put-IsRecoverable :
      (now : String) (t : Table p.Json) (handoff : AgentHandoffRecord)
      → handoff.required_response ≡ response
      → handoff.required_response.agent_required ≡ some a
      → handoff.required_response.agent_required
        ≡ some (record {
          task = handoff.task;
          checkpoint_ref = checkpoint_ref_of py.platform handoff.task.task_id;
          submit_methods = mcp ∷ cli ∷ [];
        })
      → handoff.checkpoint_ref ≡ checkpoint_ref_of py.platform handoff.task.task_id
      → handoff.required_response.request ≡ some request
      → handoff.task.run_id ≡ request.run_id
      → select_claim a.checkpoint_ref a.task.task_id t ≡ none
      → (u : Unit {0}) → (put_required p now handoff t).0 ≡ ok u
      → IsRecoverable (put_required p now handoff t).1
  put-IsRecoverable now t handoff same announced made ref asked owner free u put =
      let same_ref : a.checkpoint_ref ≡ handoff.checkpoint_ref = ground arith in
      let same_id : a.task.task_id ≡ handoff.task.task_id = ground arith in
      let free' : select_claim handoff.checkpoint_ref handoff.task.task_id t ≡ none =
        subst (λ (x : String). select_claim x handoff.task.task_id t ≡ none) same_ref
          (subst (λ (x : String). select_claim a.checkpoint_ref x t ≡ none) same_id free) in
      let r = put_required-IsReadable p now handoff t u put in
      record {
        entry = r.entry;
        recovered =
            subst
              (λ (id : String).
                recover_run p id (put_required p now handoff t).1 ≡ ok (some response))
              owner
              (recover_run-put_required p now handoff t free'
                ∙ ap (λ (x : RunResult). ok (some x)) same);
        owned =
            subst (λ (x : RunResult). is_request py x.request request ≡ true) same
              (ground (arith, py.same_request_refl request));
        loaded =
            subst (λ (x : String). load p x (put_required p now handoff t).1 ≡ ok r.entry)
              (sym same_ref)
              (IsReadable-load p handoff.checkpoint_ref (put_required p now handoff t).1 r);
      }

  module _ (m : Moment) (s : HostState p W) where
    answer_recovered-IsRecoverable :
        (r : RunResult)
        → recover_run p request.run_id s.table ≡ ok (some r)
        → (answer_recovered p py runner m request r s).0 ≡ done response
        → IsRecoverable (answer_recovered p py runner m request r s).1.table
    unfolding answer_recovered
    answer_recovered-IsRecoverable r found e = elim (Bool-cases (is_request py r.request request)) [
      | inr o ↦ absurd (ground arith)
      | inl o ↦ elim (Option-cases r.agent_required) [
        | inl w ↦ absurd (ground arith)
        | inr (b, w) ↦ elim (Result-cases (load p b.checkpoint_ref s.table)) [
          | inr (_, l) ↦ absurd (ground arith)
          | inl (entry, l) ↦ elim (Outcome-cases (emit_agent_required m request entry s)) [
            | inr (_, n) ↦ absurd (ground arith)
            | inl (trace, n) ↦
                let same : r ≡ response = ground arith in
                let same_wait : b ≡ a = ground arith in
                rw (o, answer_recovered, w, answer_stored, l, n)
                  (record {
                    entry = entry;
                    recovered = found ∙ ap (λ (x : RunResult). ok (some x)) same;
                    owned =
                        subst (λ (x : RunResult). is_request py x.request request ≡ true) same o;
                    loaded =
                        subst (λ (x : AgentRequired). load p x.checkpoint_ref s.table ≡ ok entry)
                          same_wait l;
                  })
          ]
        ]
      ]
    ]

    hand_over-IsRecoverable :
        (phases : Dict GraphNode) (result : CoreRunResult)
        → select_claim a.checkpoint_ref a.task.task_id s.table ≡ none
        → (hand_over p py runner m request compiled phases result s).0 ≡ done response
        → IsRecoverable (hand_over p py runner m request compiled phases result s).1.table
    unfolding hand_over
    hand_over-IsRecoverable phases result free e =
        elim (Outcome-cases
          (build_agent_handoff py.platform request compiled phases result RunMode.run)) [
            | inr (_, b) ↦ absurd (ground arith)
            | inl (handoff, b) ↦ elim (Result-cases (put_required p m.first handoff s.table).0) [
              | inr (_, q) ↦ absurd (ground arith)
              | inl (u, q) ↦
                  let s' : HostState p W = record s {
                    table = (put_required p m.first handoff s.table).1;
                  } in
                  elim (Outcome-cases (emit_agent_required m request handoff s')) [
                    | inr (_, n) ↦ absurd (ground arith)
                    | inl (trace, n) ↦
                        let h =
                          build_agent_handoff-IsHandoffOf py.platform request compiled phases result
                            RunMode.run handoff b in
                        let same : handoff.required_response ≡ response = ground arith in
                        let announced : handoff.required_response.agent_required ≡ some a =
                          ap (λ (x : RunResult). x.agent_required) same ∙ waits in
                        rw (b, hand_over, q, n)
                          (put-IsRecoverable m.first s.table handoff same announced
                            (ap (λ (x : AgentHandoffRecord). x.required_response.agent_required)
                              h.record_made)
                            (ap (λ (x : AgentHandoffRecord). x.checkpoint_ref) h.record_made)
                            (ap (λ (x : AgentHandoffRecord). x.required_response.request)
                              h.record_made)
                            h.parts.owned free u q)
                  ]
            ]
          ]

  module _ (m : Moment) (phases : Dict GraphNode) (s : HostState p W)
      (free : select_claim a.checkpoint_ref a.task.task_id s.table ≡ none) where
    start_run-IsRecoverable :
        (start_run p py runner m request compiled phases s).0 ≡ done response
        → IsRecoverable (start_run p py runner m request compiled phases s).1.table
    unfolding start_run run_result
    start_run-IsRecoverable e =
        let ran : Outcome Exception CoreRunResult × W =
          runner.run_skill request (some (names phases)) s.graph in
        let s' : HostState p W = record s { graph = ran.1 } in
        elim (Outcome-cases ran.0) [
          | inr (_, r) ↦ absurd (ground arith)
          | inl (result, r) ↦ elim (Option-cases result.paused_at) [
            | inl q ↦ absurd (ground (arith, waits))
            | inr (stop, q) ↦
                rw (r, start_run, q)
                  (hand_over-IsRecoverable m s' phases result free (ground arith))
          ]
        ]

  module _ (m : Moment) (phases : Dict GraphNode) (s : HostState p W)
      (free : select_claim a.checkpoint_ref a.task.task_id s.table ≡ none) where
    run_engine-IsRecoverable :
        (run_engine p py runner m request compiled phases s).0 ≡ done response
        → IsRecoverable (run_engine p py runner m request compiled phases s).1.table
    unfolding run_engine
    run_engine-IsRecoverable e =
        let found : Outcome Exception (Option CoreRunResult) × W =
          runner.recover_paused_skill compiled request (names phases) s.graph in
        let s' : HostState p W = record s { graph = found.1 } in
        elim (Outcome-cases found.0) [
          | inr (_, r) ↦ absurd (ground arith)
          | inl (some result, r) ↦
              rw (r, run_engine) (hand_over-IsRecoverable m s' phases result free (ground arith))
          | inl (none, r) ↦
              rw (r, run_engine) (start_run-IsRecoverable m phases s' free (ground arith))
        ]

    run_stored-IsRecoverable :
        (run_stored p py runner m request compiled phases s).0 ≡ done response
        → IsRecoverable (run_stored p py runner m request compiled phases s).1.table
    unfolding run_stored
    run_stored-IsRecoverable e = elim (Result-cases (recover_run p request.run_id s.table)) [
      | inr (_, r) ↦ absurd (ground arith)
      | inl (some found, r) ↦
          rw (r, run_stored) (answer_recovered-IsRecoverable m s found r (ground arith))
      | inl (none, r) ↦ rw (r, run_stored) (run_engine-IsRecoverable (ground arith))
    ]

  -- What else a repeated run meets again.
  pub record IsHosted : Type 0 where
    pub phases : Dict GraphNode
    pub filename : String
    pub supports : host_native_agent_phases compiled ≡ supported phases
    pub some_agent : is_empty phases ≡ false
    pub stored_in : sqlite_checkpointer request ≡ done filename

  plain_never_waits : (s : HostState p W) → (run_plain p py runner request s).0 ≡ done response → ⊥
  unfolding run_plain run_result
  plain_never_waits s e = elim (Outcome-cases (runner.run_skill request none s.graph).0) [
    | inr (_, r) ↦ ground arith
    | inl (result, r) ↦ ground arith
  ]

  pub run_body-IsHosted :
      (m : Moment) (s : HostState p W)
      → select_claim a.checkpoint_ref a.task.task_id s.table ≡ none
      → (run_body p py runner m request compiled s).0 ≡ done response
      → IsHosted × IsRecoverable (run_body p py runner m request compiled s).1.table
  unfolding run_body run_plain run_result
  run_body-IsHosted m s free e = elim (support-cases (host_native_agent_phases compiled)) [
    | inr (_, f) ↦ absurd (ground arith)
    | inl (phases, f) ↦ elim (Bool-cases (is_empty phases)) [
      | inl n ↦
          let plain : (run_plain p py runner request s).0 ≡ done response = ground arith in
          absurd (plain_never_waits s plain)
      | inr n ↦ elim (Outcome-cases (sqlite_checkpointer request)) [
        | inr (_, q) ↦ absurd (ground arith)
        | inl (filename, q) ↦ (
          record {
            phases = phases;
            filename = filename;
            supports = f;
            some_agent = n;
            stored_in = q;
          },
          rw (f, run_body, n, q) (run_stored-IsRecoverable m phases s free (ground arith)),
        )
      ]
    ]
  ]

  pub recoverable_again :
      (m : Moment) (u : HostState p W) (trace : Trace)
      → IsHosted
      → (r : IsRecoverable u.table) → emit_agent_required m request r.entry u ≡ done trace
      → run_body p py runner m request compiled u ≡ (done response, record u { trace = trace })
  unfolding run_body run_stored answer_recovered
  recoverable_again m u trace h r n =
      rw
        (
          h.supports, run_body, h.some_agent, h.stored_in, r.recovered, run_stored, r.owned,
          answer_recovered,
        )
        (subst
          (λ (o : Option AgentRequired).
            answer_stored p py runner m request response o u
            ≡ (done response, record u { trace = trace }))
          (sym waits) (rw (r.loaded, answer_stored, n) refl))
