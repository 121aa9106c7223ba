-- ===== src/HostRuntime/Run.antt =====
-- HostNativeRuntimeAdapter.run: the body of its try, and the answer where the body raises.
pub mod Recoverable
pub mod Again
use graph_skill_runtime.Common.{
  String, Bool, true, false, Option, none, some, List, [], ◌∷◌, map, ◌==◌, if◌then◌else◌, is_empty,
}
use graph_skill_runtime.Common.Dict.{Dict}
use graph_skill_runtime.Common.Outcome.{Outcome, done, raised}
use graph_skill_runtime.Json.{JsonObject, text, empty, member}
use graph_skill_runtime.Domain.Profile.{RuntimeErrorCode}
use graph_skill_runtime.Domain.Run.{RunRequest}
use graph_skill_runtime.Domain.Agent.{AgentRequired, RunResult, RunMode}
use graph_skill_runtime.Engine.{CoreRunResult, run_result, failed_run}
use graph_skill_runtime.Handoff.{
  AgentHandoffRecord, Pydantic, Result, ok, err, Exception, contract_error, load, put_required,
  recover_run,
}
use graph_skill_runtime.HostNative.{
  GraphNode, CompiledSkill, supported, refused, host_native_agent_phases,
}
use graph_skill_runtime.HostNative.Task.{build_agent_handoff}
use graph_skill_runtime.HostRuntime.Trace.{Trace, append_run_event_once, required_event}
use graph_skill_runtime.HostRuntime.Services.{
  Runner, Python, Moment, HostState, is_request, message_of, task_exception, store_exception,
  sqlite_checkpointer,
}

abbrev pub names : Dict GraphNode → List String
names = map (λ (e : String × GraphNode). e.0)

-- _emit_agent_required
unfoldable pub emit_agent_required :
    {p : Pydantic} {W : Type 0}
    → Moment
    → RunRequest
    → AgentHandoffRecord
    → HostState p W
    → Outcome Exception Trace
emit_agent_required m request entry s =
    append_run_event_once m.last (required_event request.run_id entry) s.trace

-- The answer that is given once an event is written.
abbrev pub told :
    {p : Pydantic} {W : Type 0}
    → RunResult
    → Outcome Exception Trace
    → HostState p W
    → Outcome Exception RunResult × HostState p W
told response (done trace) s = (done response, record s { trace = trace })
told response (raised e) s = (raised e, s)

module _ (p : Pydantic) (py : Python) {W : Type 0} (runner : Runner W) where
  -- Make the handoff of a stop durable, announce it and answer it.
  unfoldable pub hand_over :
      Moment
      → RunRequest
      → CompiledSkill
      → Dict GraphNode
      → CoreRunResult
      → HostState p W
      → Outcome Exception RunResult × HostState p W
  hand_over m request compiled phases result s =
      elim (build_agent_handoff py.platform request compiled phases result RunMode.run) [
        | raised e ↦ (raised (task_exception py e), s)
        | done handoff ↦
            let (put, table) = put_required p m.first handoff s.table in
            let s' : HostState p W = record s { table = table } in
            elim put [
              | err e ↦ (raised (store_exception py e), s')
              | ok u ↦ told handoff.required_response (emit_agent_required m request handoff s') s'
            ]
      ]

  -- A run without an Agent phase is the engine's own.
  unfoldable pub run_plain :
      RunRequest → HostState p W → Outcome Exception RunResult × HostState p W
  run_plain request s =
      let (ended, w) = runner.run_skill request none s.graph in
      let s' : HostState p W = record s { graph = w } in
      elim ended [
        | raised e ↦ (raised e, s')
        | done result ↦ (done (run_result result request RunMode.run), s')
      ]

  -- A stored answer; where it waits, its event is told again.
  abbrev pub answer_stored :
      Moment
      → RunRequest
      → RunResult
      → Option AgentRequired
      → HostState p W
      → Outcome Exception RunResult × HostState p W
  answer_stored m request recovered none s = (done recovered, s)
  answer_stored m request recovered (some waiting) s =
      elim (load p waiting.checkpoint_ref s.table) [
        | err e ↦ (raised (store_exception py e), s)
        | ok entry ↦ told recovered (emit_agent_required m request entry s) s
      ]

  -- The wait point or the answer that the store has for the run.
  unfoldable pub answer_recovered :
      Moment → RunRequest → RunResult → HostState p W → Outcome Exception RunResult × HostState p W
  answer_recovered m request recovered s =
      if is_request py recovered.request request
      then answer_stored m request recovered recovered.agent_required s
      else (raised (contract_error "run id already owns a different host-native request"), s)

  -- A new run of the graph, which may stop before an Agent phase.
  unfoldable pub start_run :
      Moment
      → RunRequest
      → CompiledSkill
      → Dict GraphNode
      → HostState p W
      → Outcome Exception RunResult × HostState p W
  unfolding hand_over
  start_run m request compiled phases s =
      let (ended, w) = runner.run_skill request (some (names phases)) s.graph in
      let s' : HostState p W = record s { graph = w } in
      elim ended [
        | raised e ↦ (raised e, s')
        | done result ↦ elim result.paused_at [
          | none ↦ (done (run_result result request RunMode.run), s')
          | some stop ↦ hand_over m request compiled phases result s'
        ]
      ]

  -- A stop that the engine has a checkpoint of is handed over without running the graph again.
  unfoldable pub run_engine :
      Moment
      → RunRequest
      → CompiledSkill
      → Dict GraphNode
      → HostState p W
      → Outcome Exception RunResult × HostState p W
  unfolding hand_over start_run
  run_engine m request compiled phases s =
      let (found, w) = runner.recover_paused_skill compiled request (names phases) s.graph in
      let s' : HostState p W = record s { graph = w } in
      elim found [
        | raised e ↦ (raised e, s')
        | done (some result) ↦ hand_over m request compiled phases result s'
        | done none ↦ start_run m request compiled phases s'
      ]

  unfoldable pub run_stored :
      Moment
      → RunRequest
      → CompiledSkill
      → Dict GraphNode
      → HostState p W
      → Outcome Exception RunResult × HostState p W
  unfolding answer_recovered run_engine
  run_stored m request compiled phases s = elim (recover_run p request.run_id s.table) [
    | err e ↦ (raised (store_exception py e), s)
    | ok (some recovered) ↦ answer_recovered m request recovered s
    | ok none ↦ run_engine m request compiled phases s
  ]

  -- The body of the try.
  unfoldable pub run_body :
      Moment
      → RunRequest
      → CompiledSkill
      → HostState p W
      → Outcome Exception RunResult × HostState p W
  unfolding run_plain run_stored
  run_body m request compiled s = elim (host_native_agent_phases compiled) [
    | refused e ↦ (raised (contract_error (py.text_of_support e)), s)
    | supported phases ↦
        if is_empty phases then run_plain request s else elim (sqlite_checkpointer request) [
          | raised e ↦ (raised e, s)
          | done filename ↦ run_stored m request compiled phases s
        ]
  ]

  abbrev pub code_of : Exception → RuntimeErrorCode
  code_of (contract_error message) = RuntimeErrorCode.invalid_request
  code_of e = RuntimeErrorCode.run_failed

  abbrev pub conclude_run :
      RunRequest → Outcome Exception RunResult × HostState p W → RunResult × HostState p W
  conclude_run request (done response, s) = (response, s)
  conclude_run request (raised e, s) = (
    failed_run request RunMode.run (code_of e) (message_of e)
        (member "executor_kind" (text "host-native") empty),
    s,
  )

  unfoldable pub run :
      Moment → RunRequest → CompiledSkill → HostState p W → RunResult × HostState p W
  unfolding run_body
  run m request compiled s = conclude_run request (run_body m request compiled s)
