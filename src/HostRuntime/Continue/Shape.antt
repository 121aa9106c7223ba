-- ===== src/HostRuntime/Continue/Shape.antt =====
-- What a continuation answers: a wait point with its handoff, or an end with none.
use graph_skill_runtime.Common.{
  String, [], ◌∷◌, true, Option, none, some, ◌≡◌, refl, arith, ◌⊎◌, inl, inr, Option-cases, ap, sym,
}
use mathlib.Core.Path.{subst}
use graph_skill_runtime.Common.Dict.{Dict}
use graph_skill_runtime.Common.Outcome.{Outcome, done, Outcome-cases}
use graph_skill_runtime.Json.{JsonObject}
use graph_skill_runtime.Domain.Run.{RunRequest}
use graph_skill_runtime.Domain.Agent.{
  mcp, cli, AgentResult, AgentStatus, AgentRequired, RunResult, RunMode,
}
use graph_skill_runtime.Engine.{CoreRunResult, run_result}
use graph_skill_runtime.Handoff.{AgentHandoffRecord, Exception, ok}
use graph_skill_runtime.HostNative.{GraphNode, CompiledSkill}
use graph_skill_runtime.HostNative.Task.{build_agent_handoff, checkpoint_ref_of}
use graph_skill_runtime.HostNative.Task.Built.{build_agent_handoff-IsHandoffOf}
use graph_skill_runtime.HostRuntime.Trace.{Trace}
use graph_skill_runtime.HostRuntime.Trace.Terminal.{has_error}
use graph_skill_runtime.HostRuntime.Services.{Runner, Python, Moment, sqlite_checkpointer}
use graph_skill_runtime.HostRuntime.Run.{names}
use graph_skill_runtime.HostRuntime.Continue.Told.{emit_agent_terminal-has_error}
use graph_skill_runtime.HostRuntime.Continue.{
  emit_agent_terminal, after_engine, drive, continue_run,
}

-- An answer that waits goes with the handoff that it waits for, and no other has one.
abbrev pub HasShape : RunResult → Option AgentHandoffRecord → Type 0
HasShape response next =
    (next ≡ none) × (response.agent_required ≡ none)
    ⊎ ((n : AgentHandoffRecord) × (waiting : AgentRequired) × (next ≡ some n)
        × (response.agent_required ≡ some waiting)
        × (waiting.checkpoint_ref ≡ n.checkpoint_ref))

pub status-cases :
    (s : AgentStatus)
    → (s ≡ AgentStatus.completed) ⊎ ((s ≡ AgentStatus.failed) ⊎ (s ≡ AgentStatus.cancelled))
status-cases AgentStatus.completed = inl refl
status-cases AgentStatus.failed = inr (inl refl)
status-cases AgentStatus.cancelled = inr (inr refl)

module _ (py : Python) {W : Type 0} (runner : Runner W) (run_request : RunRequest)
    (compiled : CompiledSkill) (phases : Dict GraphNode) where
  pub built-HasShape :
      (result : CoreRunResult) (mode : RunMode) (n : AgentHandoffRecord)
      → build_agent_handoff py.platform run_request compiled phases result mode ≡ done n
      → HasShape n.required_response (some n)
  built-HasShape result mode n e =
      let h =
        build_agent_handoff-IsHandoffOf py.platform run_request compiled phases result mode n e in
      inr (
        n,
        record {
          task = n.task;
          checkpoint_ref = checkpoint_ref_of py.platform n.task.task_id;
          submit_methods = mcp ∷ cli ∷ [];
        },
        refl,
        ap (λ (x : AgentHandoffRecord). x.required_response.agent_required) h.record_made,
        sym (ap (λ (x : AgentHandoffRecord). x.checkpoint_ref) h.record_made),
      )

  after_engine-HasShape :
      (core_result : CoreRunResult) (v : Trace × W) (response : RunResult)
      (next : Option AgentHandoffRecord)
      → (after_engine py runner run_request compiled phases core_result v).0 ≡ ok (response, next)
      → HasShape response next
  unfolding after_engine run_result
  after_engine-HasShape core_result v response next e = elim (Option-cases core_result.paused_at) [
    | inl q ↦ inl (ground arith, ground arith)
    | inr (stop, q) ↦
        elim (Outcome-cases (
          build_agent_handoff py.platform run_request compiled phases core_result RunMode.resume)) [
            | inr (_, b) ↦ absurd (ground arith)
            | inl (n, b) ↦
                let same : n.required_response ≡ response = ground arith in
                let same_next : some n ≡ next = ground arith in
                subst (λ (r : RunResult). HasShape r next) same
                  (subst (HasShape n.required_response) same_next
                    (built-HasShape core_result RunMode.resume n b))
          ]
  ]

  drive-HasShape :
      (active : AgentHandoffRecord) (result : AgentResult) (output : JsonObject) (h : String)
      (trace : Trace) (w : W) (response : RunResult) (next : Option AgentHandoffRecord)
      → (drive py runner run_request compiled phases active result output h (trace, w)).0
        ≡ ok (response, next)
      → HasShape response next
  unfolding drive
  drive-HasShape active result output h trace w response next e =
      elim (Outcome-cases (sqlite_checkpointer run_request)) [
        | inr (_, q) ↦ absurd (ground arith)
        | inl (filename, q) ↦
            let resumed : Outcome Exception CoreRunResult × W =
              runner.resume_skill run_request active.checkpoint_id active.checkpoint_ns
                (names phases)
                (record {
                  task_id = result.task_id;
                  phase_id = active.task.address.phase_id;
                  result_hash = h;
                  output = output;
                })
                w in
            elim (Outcome-cases resumed.0) [
              | inr (_, r) ↦ absurd (ground arith)
              | inl (core_result, r) ↦
                  after_engine-HasShape core_result (trace, resumed.1) response next (ground arith)
            ]
      ]

  pub continue_run-HasShape :
      (m : Moment) (attempt_id : Option String) (result : AgentResult) (active : AgentHandoffRecord)
      (h : String) (v : Trace × W) (response : RunResult) (next : Option AgentHandoffRecord)
      → (continue_run py runner m attempt_id result run_request compiled phases active h v).0
        ≡ ok (response, next)
      → (has_error result ≡ true) × HasShape response next
  unfolding continue_run
  continue_run-HasShape m attempt_id result active h (trace, w) response next e =
      elim (Outcome-cases
        (emit_agent_terminal m.during attempt_id run_request active result h trace)) [
          | inr (_, t) ↦ absurd (ground arith)
          | inl (trace', t) ↦
              let told =
                emit_agent_terminal-has_error m.during run_request attempt_id active result h trace
                  trace' t in
              elim (status-cases result.status) [
                | inr (inl f) ↦ (told, inl (ground arith, ground arith))
                | inr (inr f) ↦ (told, inl (ground arith, ground arith))
                | inl c ↦ elim (Option-cases result.output) [
                  | inl o ↦ absurd (ground arith)
                  | inr (output, o) ↦ (
                    told,
                    drive-HasShape active result output h trace' w response next (ground arith),
                  )
                ]
              ]
        ]
