-- ===== src/HostRuntime/Valid.antt =====
-- What run and resume return satisfies the validator of RunResult.
use graph_skill_runtime.Common.{
  Option, none, some, ◌≡◌, refl, arith, Option-cases, Bool-cases, inl, inr, sym, or_else, is_empty,
}
use mathlib.Core.Path.{subst}
use graph_skill_runtime.Common.Dict.{Dict}
use graph_skill_runtime.Common.Outcome.{Outcome, done, raised, Outcome-cases}
use graph_skill_runtime.Domain.Run.{RunRequest}
use graph_skill_runtime.Domain.Agent.{AgentRequired, RunResult, RunMode}
use graph_skill_runtime.Engine.{CoreRunResult, run_result}
use graph_skill_runtime.Engine.Payload.{
  payload_matches_status, payload-run_result, payload-failed_run,
}
use graph_skill_runtime.Handoff.{
  AgentHandoffRecord, Table, Pydantic, Exception, load, recover_run, put_required, Result-cases,
}
use graph_skill_runtime.HostNative.{GraphNode, CompiledSkill, host_native_agent_phases}
use graph_skill_runtime.HostNative.Task.{build_agent_handoff}
use graph_skill_runtime.HostNative.Task.Built.{build_agent_handoff-IsHandoffOf}
use graph_skill_runtime.HostRuntime.Trace.{Trace}
use graph_skill_runtime.HostRuntime.Services.{
  Runner, Python, Moment, HostState, is_request, sqlite_checkpointer, validate_record_owner,
}
use graph_skill_runtime.HostRuntime.Run.{
  names, told, hand_over, run_plain, answer_stored, answer_recovered, start_run, run_engine,
  run_stored, run_body, conclude_run, run,
}
use graph_skill_runtime.HostRuntime.Resume.{ResumeRequest, resume}
use graph_skill_runtime.HostRuntime.Prepare.Passed.{support-cases}
use graph_skill_runtime.HostRuntime.Stored.{
  IsValid, HasValid, AllValid, load-HasValid, recover_run-IsValid,
}

-- An answer that was returned is valid; an exception is turned into a valid one later.
abbrev pub IsGood : Outcome Exception RunResult → Type 0
IsGood (done r) = IsValid r
IsGood (raised e) = Unit

pub told-IsGood :
    {p : Pydantic} {W : Type 0} (response : RunResult) (t : Outcome Exception Trace)
    (s : HostState p W)
    → IsValid response
    → IsGood (told response t s).0
told-IsGood response (done t) s v = v
told-IsGood response (raised e) s v = tt

pub built-IsValid :
    (py : Python) (request : RunRequest) (compiled : CompiledSkill) (phases : Dict GraphNode)
    (result : CoreRunResult) (mode : RunMode) (n : AgentHandoffRecord)
    → build_agent_handoff py.platform request compiled phases result mode ≡ done n
    → IsValid n.required_response
unfolding payload_matches_status
built-IsValid py request compiled phases result mode n e =
    let h = build_agent_handoff-IsHandoffOf py.platform request compiled phases result mode n e in
    subst (λ (r : AgentHandoffRecord). IsValid r.required_response) (sym h.record_made) refl

module _ (p : Pydantic) (py : Python) {W : Type 0} (runner : Runner W) where
  module _ (m : Moment) (request : RunRequest) (compiled : CompiledSkill) where
    hand_over-IsGood :
        (phases : Dict GraphNode) (result : CoreRunResult) (s : HostState p W)
        → IsGood (hand_over p py runner m request compiled phases result s).0
    unfolding hand_over
    hand_over-IsGood phases result s =
        elim (Outcome-cases
          (build_agent_handoff py.platform request compiled phases result RunMode.run)) [
            | inr (_, b) ↦ rw (b, hand_over) tt
            | inl (n, b) ↦ elim (Result-cases (put_required p m.first n s.table).0) [
              | inr (_, q) ↦ rw (b, hand_over, q) tt
              | inl (_, q) ↦
                  rw (b, hand_over, q)
                    (told-IsGood _ _ _
                      (built-IsValid py request compiled phases result RunMode.run n b))
            ]
          ]

    start_run-IsGood :
        (phases : Dict GraphNode) (s : HostState p W)
        → IsGood (start_run p py runner m request compiled phases s).0
    unfolding start_run
    start_run-IsGood phases s =
        let ran : Outcome Exception CoreRunResult × W =
          runner.run_skill request (some (names phases)) s.graph in
        elim (Outcome-cases ran.0) [
          | inr (_, r) ↦ rw (r, start_run) tt
          | inl (result, r) ↦ elim (Option-cases result.paused_at) [
            | inl q ↦
                let ends : (start_run p py runner m request compiled phases s).0
                    ≡ done (run_result result request RunMode.run) =
                  ground arith in
                subst IsGood (sym ends) (payload-run_result result request RunMode.run)
            | inr (stop, q) ↦
                let stops : (start_run p py runner m request compiled phases s).0
                    ≡ (hand_over p py runner m request compiled phases result
                        (record s { graph = ran.1 })).0 =
                  ground arith in
                subst IsGood (sym stops)
                  (hand_over-IsGood phases result (record s { graph = ran.1 }))
          ]
        ]

    answer_recovered-IsGood :
        (x : RunResult) (s : HostState p W)
        → IsValid x
        → IsGood (answer_recovered p py runner m request x s).0
    unfolding answer_recovered
    answer_recovered-IsGood x s v = elim (Bool-cases (is_request py x.request request)) [
      | inr o ↦ rw (o, answer_recovered) tt
      | inl o ↦ rw (o, answer_recovered) (stored x.agent_required)
    ]
      where
        stored : (o : Option AgentRequired) → IsGood (answer_stored p py runner m request x o s).0
        stored none = v
        stored (some waiting) = elim (Result-cases (load p waiting.checkpoint_ref s.table)) [
          | inl (entry, l) ↦ rw (l, IsGood) (told-IsGood x _ s v)
          | inr (e, l) ↦ rw (l, IsGood) tt
        ]

    run_stored-IsGood :
        (phases : Dict GraphNode) (s : HostState p W)
        → AllValid p s.table
        → IsGood (run_stored p py runner m request compiled phases s).0
    unfolding run_stored run_engine
    run_stored-IsGood phases s v =
        let found : Outcome Exception (Option CoreRunResult) × W =
          runner.recover_paused_skill compiled request (names phases) s.graph in
        let s' : HostState p W = record s { graph = found.1 } in
        elim (Result-cases (recover_run p request.run_id s.table)) [
          | inr (_, r) ↦ rw (r, run_stored) tt
          | inl (some x, r) ↦
              rw (r, run_stored)
                (answer_recovered-IsGood x s (recover_run-IsValid p s.table v request.run_id x r))
          | inl (none, r) ↦ elim (Outcome-cases found.0) [
            | inr (_, f) ↦ rw (r, run_stored, f, run_engine) tt
            | inl (some result, f) ↦
                rw (r, run_stored, f, run_engine) (hand_over-IsGood phases result s')
            | inl (none, f) ↦ rw (r, run_stored, f, run_engine) (start_run-IsGood phases s')
          ]
        ]

    run_body-IsGood :
        (s : HostState p W)
        → AllValid p s.table
        → IsGood (run_body p py runner m request compiled s).0
    unfolding run_body run_plain
    run_body-IsGood s v = elim (support-cases (host_native_agent_phases compiled)) [
      | inr (_, f) ↦ rw (f, run_body) tt
      | inl (phases, f) ↦ elim (Bool-cases (is_empty phases)) [
        | inl n ↦ elim (Outcome-cases (runner.run_skill request none s.graph).0) [
          | inr (_, r) ↦ rw (f, run_body, n, r, run_plain) tt
          | inl (result, r) ↦
              rw (f, run_body, n, r, run_plain) (payload-run_result result request RunMode.run)
        ]
        | inr n ↦ elim (Outcome-cases (sqlite_checkpointer request)) [
          | inr (_, q) ↦ rw (f, run_body, n, q) tt
          | inl (_, q) ↦ rw (f, run_body, n, q) (run_stored-IsGood phases s v)
        ]
      ]
    ]

    pub run-IsValid :
        (s : HostState p W) → AllValid p s.table → IsValid (run p py runner m request compiled s).0
    unfolding run
    run-IsValid s v = concluded (run_body p py runner m request compiled s) (run_body-IsGood s v)
      where
        concluded :
            (b : Outcome Exception RunResult × HostState p W)
            → IsGood b.0
            → IsValid (conclude_run p py runner request b).0
        concluded (done r, s') v = v
        concluded (raised e, s') v = payload-failed_run request RunMode.run _ _ _

  pub resume-IsValid :
      (request : ResumeRequest) (run_request : RunRequest) (t : Table p.Json)
      → AllValid p t
      → IsValid (resume p py request run_request t)
  unfolding resume
  resume-IsValid request run_request t valid = elim (Option-cases request.checkpoint_ref) [
    | inl n ↦ rw (n, resume) (payload-failed_run run_request RunMode.resume _ _ _)
    | inr (ref, q) ↦ elim (Result-cases (load p ref t)) [
      | inr (_, l) ↦ rw (q, resume, l) (payload-failed_run run_request RunMode.resume _ _ _)
      | inl (entry, l) ↦
          let v = load-HasValid p t valid ref entry l in
          elim (Outcome-cases (validate_record_owner py entry request.run_id run_request)) [
            | inr (_, o) ↦
                rw (q, resume, l, o) (payload-failed_run run_request RunMode.resume _ _ _)
            | inl (_, o) ↦ rw (q, resume, l, o) (either entry v entry.response refl)
          ]
    ]
  ]
    where
      either :
          (entry : AgentHandoffRecord)
          → HasValid p entry
          → (o : Option RunResult) → entry.response ≡ o
          → IsValid (or_else entry.required_response o)
      either entry v none e = v.required_valid
      either entry v (some x) e = v.response_valid x e
