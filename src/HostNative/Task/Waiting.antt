-- ===== src/HostNative/Task/Waiting.antt =====
-- What a handoff record that was built says, field by field.
use graph_skill_runtime.Common.{none, some, [], ◌∷◌, ◌≡◌, refl, sym}
use mathlib.Core.Path.{subst}
use graph_skill_runtime.Common.Dict.{Dict}
use graph_skill_runtime.Common.Text.{concat}
use graph_skill_runtime.Common.Outcome.{done}
use graph_skill_runtime.Domain.Run.{RunRequest}
use graph_skill_runtime.Domain.Agent.{AgentTask, RunMode, RunStatus, mcp, cli}
use graph_skill_runtime.Engine.{CoreRunResult}
use graph_skill_runtime.Handoff.{AgentHandoffRecord}
use graph_skill_runtime.HostNative.{GraphNode, CompiledSkill}
use graph_skill_runtime.HostNative.Platform.{Platform}
use graph_skill_runtime.HostNative.Task.{Stop, build_agent_handoff, handoff_of}
use graph_skill_runtime.HostNative.Task.Built.{IsStop, HasParts, build_agent_handoff-IsHandoffOf}

module _ (host : Platform) (request : RunRequest) (compiled : CompiledSkill)
    (phases : Dict GraphNode) (result : CoreRunResult) (mode : RunMode) where
  -- A record that no result was submitted for, and whose answer announces its task.
  pub record WaitsAt (s : Stop) (r : AgentHandoffRecord) : Type 0 where
    pub checkpoint_ref : r.checkpoint_ref ≡ concat ("gskill-handoff-v1:" ∷ r.task.task_id ∷ [])
    pub checkpoint_id : r.checkpoint_id ≡ s.checkpoint_id
    pub checkpoint_ns : r.checkpoint_ns ≡ s.checkpoint_ns
    pub no_result : r.result_hash ≡ none
    pub no_response : r.response ≡ none
    pub status : r.required_response.status ≡ RunStatus.agent_required
    pub run_id : r.required_response.run_id ≡ request.run_id
    pub mode_kept : r.required_response.mode ≡ mode
    pub request_kept : r.required_response.request ≡ some request
    pub outputs : r.required_response.outputs ≡ result.context
    pub trace_path : r.required_response.trace_path ≡ result.trace_path
    pub no_error : r.required_response.error ≡ none
    pub announced :
        r.required_response.agent_required
        ≡ some (record {
          task = r.task;
          checkpoint_ref = r.checkpoint_ref;
          submit_methods = mcp ∷ cli ∷ [];
        })

  handoff_of-WaitsAt :
      (s : Stop) (task : AgentTask)
      → WaitsAt s (handoff_of host request result mode task s.checkpoint_id s.checkpoint_ns)
  handoff_of-WaitsAt s task = record {
    checkpoint_ref = refl;
    checkpoint_id = refl;
    checkpoint_ns = refl;
    no_result = refl;
    no_response = refl;
    status = refl;
    run_id = refl;
    mode_kept = refl;
    request_kept = refl;
    outputs = refl;
    trace_path = refl;
    no_error = refl;
    announced = refl;
  }

  -- A record that was built waits for the host at the engine's stop: the engine stopped at a breakpoint
  -- before an Agent phase, at a checkpoint with an id, which the record has with its namespace; it has
  -- no result and no response; its answer is that of this run and announces its task under its
  -- checkpoint_ref; and the task has the run's id, the phase's address, its inputs, output schema,
  -- resources and paths, and the profile's network and required capabilities.
  pub build_agent_handoff-WaitsAt :
      (r : AgentHandoffRecord)
      → build_agent_handoff host request compiled phases result mode ≡ done r
      → (s : Stop) × IsStop phases result.paused_at s
        × HasParts host request result s.node
            (record { graph_id = compiled.graph_id; phase_id = s.phase_name })
            r.task
        × WaitsAt s r
  build_agent_handoff-WaitsAt r e =
      let h = build_agent_handoff-IsHandoffOf host request compiled phases result mode r e in
      (
        h.stop,
        h.stops,
        h.parts,
        subst (WaitsAt h.stop) (sym h.record_made) (handoff_of-WaitsAt h.stop r.task),
      )
