-- ===== src/HostNative/Task.antt =====
-- The construction and the validation of an AgentTask in adapters/host_native.py. A pause becomes a
-- handoff record, and a submitted result is checked against the record's task.
pub mod Inputs
pub mod Paths
pub mod Built
pub mod Waiting
pub mod Tests
use graph_skill_runtime.Common.{
  ℕ, suc, String, Bool, true, false, not, ◌&&◌, Option, none, some, List, [], ◌∷◌, ◌++◌, map, ◌==◌,
  if◌then◌else◌, find_first, or_else, is_empty,
}
use graph_skill_runtime.Common.Dict.{Dict}
use graph_skill_runtime.Common.Dict as Dict
use graph_skill_runtime.Common.Names.{add_all}
use graph_skill_runtime.Common.Text.{concat, join}
use graph_skill_runtime.Common.Outcome.{Outcome, done, raised, each, ◌>>=◌}
use graph_skill_runtime.Json
use graph_skill_runtime.Json.{Json, JsonObject, empty, member, object}
use graph_skill_runtime.State.{keep_keys}
use graph_skill_runtime.Manifest.{
  AgentNodeAst, AgentStep, AgentProtocol, ReferenceSpec, ExampleSpec, SubagentSpec,
  AgentRegistryItem,
}
use graph_skill_runtime.Domain.Profile.{PhaseAddress, Filesystem, skill_and_state, declared_only}
use graph_skill_runtime.Domain.Run.{RunRequest, NodeOverride}
use graph_skill_runtime.Domain.Agent.{
  AgentResource, ResourceKind, AgentTask, AgentRequired, AgentResult, AgentStatus, RunResult,
  RunMode, RunStatus, mcp, cli,
}
use graph_skill_runtime.Engine.{CoreRunResult, PausedRunPoint, PauseReason}
use graph_skill_runtime.Handoff.{AgentHandoffRecord}
use graph_skill_runtime.HostNative.{GraphNode, CompiledSkill}
use graph_skill_runtime.HostNative.Platform.{
  Platform, TaskError, not_at_agent, no_checkpoint, output_missing, non_agent_phase,
  inputs_unsatisfied, output_unsatisfied, resource_escapes, wrong_task,
}
use graph_skill_runtime.HostNative.PhaseInputs.{phase_inputs}
use graph_skill_runtime.HostNative.Instructions.{instructions}
use graph_skill_runtime.HostNative.Resources.{resources, allowed_paths}

abbrev pub address_value : PhaseAddress → String
address_value a = concat (a.graph_id ∷ "/" ∷ a.phase_id ∷ [])

abbrev pub same_address : PhaseAddress → PhaseAddress → Bool
same_address a b = a.graph_id == b.graph_id && a.phase_id == b.phase_id

-- The names that the node may call, without repetition.
unfoldable pub tool_names : AgentNodeAst → List String
tool_names node =
    add_all
      (node.tools
        ++ (map (λ (item : SubagentSpec). item.name) node.subagents
            ++ map (λ (item : AgentRegistryItem). item.name) node.subgraphs))
      []

-- The pause at an Agent phase: its phase, the AST and the checkpoint, or the reason that it is none.
pub record Stop : Type 0 where
  pub phase_name : String
  pub node : AgentNodeAst
  pub checkpoint_id : String
  pub checkpoint_ns : String

unfoldable pub stop_of : Dict GraphNode → Option PausedRunPoint → Outcome TaskError Stop
stop_of phases none = raised not_at_agent
stop_of phases (some paused) = elim paused.reason [
  | PauseReason.awaiting_human ↦ raised not_at_agent
  | PauseReason.breakpoint ↦ elim (Dict.get phases paused.phase_name) [
    | none ↦ raised (non_agent_phase paused.phase_name)
    | some phase ↦ elim phase.ast [
      | none ↦ raised (non_agent_phase paused.phase_name)
      | some node ↦
          let id = or_else "" paused.checkpoint_id in
          if id == ""
          then raised no_checkpoint
          else done (record {
            phase_name = paused.phase_name;
            node = node;
            checkpoint_id = id;
            checkpoint_ns = or_else "" paused.checkpoint_ns;
          })
    ]
  ]
]

module _ (host : Platform) where
  unfoldable pub deadline : RunRequest → PhaseAddress → Option String
  deadline request address =
      elim (find_first (λ (item : NodeOverride). same_address item.address address)
        request.node_overrides) [
          | none ↦ none
          | some override ↦ elim override.timeout_seconds [
            | none ↦ none
            | some seconds ↦ some (host.deadline_after seconds)
          ]
        ]

  abbrev pub task_id_of : String → PhaseAddress → String → String → String
  task_id_of run_id address checkpoint_id checkpoint_ns =
      host.uuid5 (join "\n" (run_id ∷ address_value address ∷ checkpoint_id ∷ checkpoint_ns ∷ []))

  abbrev pub checkpoint_ref_of : String → String
  checkpoint_ref_of task_id = concat ("gskill-handoff-v1:" ∷ task_id ∷ [])

  -- The record of a task: the answer that announces it and the pause that it continues.
  abbrev pub handoff_of :
      RunRequest → CoreRunResult → RunMode → AgentTask → String → String → AgentHandoffRecord
  handoff_of request result mode task checkpoint_id checkpoint_ns = record {
    checkpoint_ref = checkpoint_ref_of task.task_id;
    task = task;
    checkpoint_id = checkpoint_id;
    checkpoint_ns = checkpoint_ns;
    required_response = record {
      status = RunStatus.agent_required;
      run_id = request.run_id;
      mode = mode;
      request = some request;
      outputs = result.context;
      trace_path = result.trace_path;
      error = none;
      agent_required = some (record {
        task = task;
        checkpoint_ref = checkpoint_ref_of task.task_id;
        submit_methods = mcp ∷ cli ∷ [];
      });
      diagnostics = [];
    };
    result_hash = none;
    response = none;
  }

  -- The task of a phase that the engine stopped before.
  unfoldable pub task_of :
      RunRequest
      → CoreRunResult
      → AgentNodeAst
      → PhaseAddress
      → String
      → String
      → Outcome TaskError AgentTask
  unfolding phase_inputs resources allowed_paths
  task_of request result node address checkpoint_id checkpoint_ns = do
    inputs ← phase_inputs host node.io.inputs result.context
    declared ← resources host request node
    paths ← allowed_paths host request node
    done (record {
      task_id = task_id_of request.run_id address checkpoint_id checkpoint_ns;
      run_id = request.run_id;
      address = address;
      instructions = instructions host node inputs declared;
      inputs = inputs;
      output_schema = node.io.outputs;
      allowed_tools = tool_names node;
      allowed_paths = paths;
      resources = declared;
      network = request.profile.profile.permissions.network;
      deadline = deadline request address;
      required_capabilities = request.profile.profile.required_capabilities;
    })

  unfoldable pub build_agent_handoff :
      RunRequest
      → CompiledSkill
      → Dict GraphNode
      → CoreRunResult
      → RunMode
      → Outcome TaskError AgentHandoffRecord
  unfolding stop_of task_of
  build_agent_handoff request compiled phases result mode = do
    stop ← stop_of phases result.paused_at
    let address : PhaseAddress = record { graph_id = compiled.graph_id; phase_id = stop.phase_name }
    task ← task_of request result stop.node address stop.checkpoint_id stop.checkpoint_ns
    done (handoff_of request result mode task stop.checkpoint_id stop.checkpoint_ns)

  unfoldable pub validate_agent_result :
      AgentHandoffRecord → AgentResult → Outcome TaskError (Unit {0})
  validate_agent_result entry result =
      if result.task_id == entry.task.task_id
      then elim result.status [
        | AgentStatus.completed ↦ elim result.output [
          | none ↦ raised output_missing
          | some output ↦ elim (host.violation entry.task.output_schema output) [
            | some message ↦ raised (output_unsatisfied message)
            | none ↦ done tt
          ]
        ]
        | _ ↦ done tt
      ]
      else raised (wrong_task result.task_id entry.task.task_id)
