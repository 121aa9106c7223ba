-- ===== src/HostRuntime/Run/Again.antt =====
-- A run that answered with a wait point, when it is started again.
use graph_skill_runtime.Common.{true, none, some, ◌≡◌, arith, inl, inr, ap, sym}
use mathlib.Core.Path.{subst}
use graph_skill_runtime.Common.Outcome.{done, Outcome-cases}
use graph_skill_runtime.Domain.Run.{RunRequest}
use graph_skill_runtime.Domain.Agent.{AgentRequired, RunResult}
use graph_skill_runtime.Engine.{failed_run}
use graph_skill_runtime.Handoff.{Pydantic, select_claim}
use graph_skill_runtime.HostNative.{CompiledSkill}
use graph_skill_runtime.HostRuntime.Trace.{is_open, required_event}
use graph_skill_runtime.HostRuntime.Trace.Logged.{append_run_event_once-returns}
use graph_skill_runtime.HostRuntime.Services.{Runner, Python, Moment, HostState}
use graph_skill_runtime.HostRuntime.Run.{emit_agent_required, run_body, conclude_run, run}
use graph_skill_runtime.HostRuntime.Run.Recoverable.{
  IsRecoverable, run_body-IsHosted, recoverable_again,
}

module _ (p : Pydantic) (py : Python) {W : Type 0} (runner : Runner W) (request : RunRequest)
    (compiled : CompiledSkill) (response : RunResult) (a : AgentRequired)
    (waits : response.agent_required ≡ some a) where
  -- Where a run is answered by a wait point whose checkpoint_ref and task id no row of the table has, the
  -- run of the same request, where the trace can be opened, is answered the same again, whatever the trace
  -- holds and the graph is by then, and leaves the table and the graph as they are.
  pub run-again :
      (m m' : Moment) (s u : HostState p W)
      → (run p py runner m request compiled s).0 ≡ response
      → select_claim a.checkpoint_ref a.task.task_id s.table ≡ none
      → u.table ≡ (run p py runner m request compiled s).1.table
      → is_open m'.last ≡ true
      → ((run p py runner m' request compiled u).0 ≡ response)
        × ((run p py runner m' request compiled u).1.table ≡ u.table)
        × ((run p py runner m' request compiled u).1.graph ≡ u.graph)
  unfolding run failed_run emit_agent_required
  run-again m m' s u answered free same opened =
      elim (Outcome-cases (run_body p py runner m request compiled s).0) [
        | inr (x, b) ↦ absurd (ground arith)
        | inl (r, b) ↦
            let body : (run_body p py runner m request compiled s).0 ≡ done response =
              ground arith in
            let (hosted, recoverable) =
              run_body-IsHosted p py runner request compiled response a waits m s free body in
            let table : u.table ≡ (run_body p py runner m request compiled s).1.table =
              ground arith in
            let recovered : IsRecoverable p py runner request compiled response a waits u.table =
              subst (IsRecoverable p py runner request compiled response a waits) (sym table)
                recoverable in
            let (trace, n) =
              append_run_event_once-returns m'.last (required_event request.run_id recovered.entry)
                u.trace opened in
            let again =
              recoverable_again p py runner request compiled response a waits m' u trace hosted
                recovered n in
            let whole : run p py runner m' request compiled u
                ≡ (response, record u { trace = trace }) =
              ap (conclude_run p py runner request) again in
            (
              ap (λ (x : RunResult × HostState p W). x.0) whole,
              ap (λ (x : RunResult × HostState p W). x.1.table) whole,
              ap (λ (x : RunResult × HostState p W). x.1.graph) whole,
            )
      ]
