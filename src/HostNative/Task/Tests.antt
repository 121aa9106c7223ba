-- ===== src/HostNative/Task/Tests.antt =====
-- The task of a concrete stop before an Agent phase.
use graph_skill_runtime.Common.{◌⊎◌, false, not, none, some, [], ◌∷◌, ◌≡◌, refl, ◌==◌, All}
use graph_skill_runtime.Common.Dict.{Dict, get}
use graph_skill_runtime.Common.Names.{add_all, has}
use graph_skill_runtime.Common.Text.{concat, join}
use graph_skill_runtime.Common.Outcome.{done, each}
use graph_skill_runtime.Json
use graph_skill_runtime.Json.{Json, JsonObject, empty, member, text, object}
use graph_skill_runtime.Domain.Profile.{
  PhaseAddress, host_native, sqlite, host_policy, declared_only, skill_and_state,
}
use graph_skill_runtime.State.{keep_keys}
use graph_skill_runtime.Domain.Run.{RunRequest}
use graph_skill_runtime.Domain.Agent.{AgentTask, RunMode, AgentResource, ResourceKind}
use graph_skill_runtime.Engine.{CoreRunResult, PauseReason}
use graph_skill_runtime.Handoff.{AgentHandoffRecord}
use graph_skill_runtime.HostNative.{GraphNode, CompiledSkill}
use graph_skill_runtime.HostNative.Tests.{node, graph, graph_node}
use graph_skill_runtime.HostNative.Platform.{Platform}
use graph_skill_runtime.HostNative.PhaseInputs.{phase_inputs}
use graph_skill_runtime.HostNative.Instructions.{instructions}
use graph_skill_runtime.HostNative.Resources.{resource, resources}
use graph_skill_runtime.HostNative.Task.{
  handoff_of, task_id_of, build_agent_handoff, tool_names, deadline,
}
use graph_skill_runtime.HostNative.Task.Inputs.{phase_inputs_lem}
use graph_skill_runtime.HostNative.Task.Paths.{IsUnder, root_of, paths_of}
use graph_skill_runtime.HostNative.Task.Built.{IsStop, HasParts, build_agent_handoff-paths}
use graph_skill_runtime.HostNative.Task.Waiting.{WaitsAt, build_agent_handoff-WaitsAt}
use graph_skill_runtime.HostNative.Task.{Stop}

program : Unit {0}
unfolding build_agent_handoff resources resource get each Json.get tool_names add_all has deadline
    keep_keys concat join
program = tt

abbrev pub platform : Platform
platform = record {
  join_path = λ root relative. relative;
  resolve = λ path. path;
  is_relative_to = λ path root. not (path == "/outside");
  violation = λ schema instance. none;
  dumps = λ o. "{}";
  decimal = λ n. "1";
  uuid5 = λ identity. identity;
  deadline_after = λ seconds. seconds;
}

abbrev pub request : RunRequest
request = record {
  run_id = "r1";
  preset_id = none;
  profile = record {
    profile = record {
      executor = host_native;
      checkpoint_store = sqlite "checkpoints.db";
      state_dir = some ".state";
      permissions = record { network = host_policy; filesystem = declared_only };
      required_capabilities = [];
      fallback_executors = [];
    };
    skill_root = "/skill";
    state_root = "/state";
    field_origins = [];
  };
  inputs = empty;
  secret_inputs = [];
  bindings = [];
  breakpoints = [];
  node_overrides = [];
  compare_candidates = [];
  artifact_requests = [];
  value_origins = [];
}

abbrev pub compiled : CompiledSkill
compiled = graph ("prepare" ∷ [])

abbrev pub context : JsonObject
context = member "topic" (text "cells") (member "phase_outputs" (object empty) empty)

-- The engine stops before the Agent phase.
abbrev pub stopped : CoreRunResult
stopped = record {
  success = false;
  run_id = "r1";
  context = context;
  trace_path = none;
  error = none;
  paused_at = some (record {
    phase_name = "answer";
    reason = PauseReason.breakpoint;
    checkpoint_id = some "c1";
    checkpoint_ns = none;
  });
}

abbrev pub address : PhaseAddress
address = record { graph_id = "root"; phase_id = "answer" }

abbrev pub inputs : JsonObject
inputs = member "topic" (text "cells") empty

abbrev pub reference : AgentResource
reference = record {
  kind = ResourceKind.reference;
  resource_id = "R";
  path = "/ref";
  summary = "s";
}

abbrev pub task : AgentTask
task = record {
  task_id = task_id_of platform "r1" address "c1" "";
  run_id = "r1";
  address = address;
  instructions = instructions platform node inputs (reference ∷ []);
  inputs = inputs;
  output_schema = empty;
  allowed_tools = "search" ∷ [];
  allowed_paths = "/ref" ∷ [];
  resources = reference ∷ [];
  network = host_policy;
  deadline = none;
  required_capabilities = [];
}

abbrev pub handoff : AgentHandoffRecord
handoff = handoff_of platform request stopped RunMode.run task "c1" ""

abbrev pub phases : Dict GraphNode
phases = ("answer", graph_node "answer") ∷ []

given : phase_inputs platform empty context ≡ done inputs
unfolding phase_inputs Json.get keep_keys
given = refl

built : build_agent_handoff platform request compiled phases stopped RunMode.run ≡ done handoff
unfolding program
built = refl

phase_inputs_example :
    (platform.violation empty inputs ≡ none) × (Json.get inputs "phase_outputs" ≡ none)
unfolding Json.get
phase_inputs_example = phase_inputs_lem platform empty context inputs "phase_outputs" given

build_agent_handoff-WaitsAt_example :
    (s : Stop) × IsStop phases stopped.paused_at s
    × HasParts platform request stopped s.node
        (record { graph_id = compiled.graph_id; phase_id = s.phase_name })
        handoff.task
    × WaitsAt platform request compiled phases stopped RunMode.run s handoff
build_agent_handoff-WaitsAt_example =
    build_agent_handoff-WaitsAt platform request compiled phases stopped RunMode.run handoff built

build_agent_handoff-paths_example :
    All (IsUnder platform (root_of platform request)) (paths_of platform task.resources)
    × ((request.profile.profile.permissions.filesystem ≡ skill_and_state)
          × (task.allowed_paths
              ≡ root_of platform request ∷ platform.resolve request.profile.state_root ∷ [])
        ⊎ (request.profile.profile.permissions.filesystem ≡ declared_only)
          × (task.allowed_paths ≡ add_all (paths_of platform task.resources) []))
build_agent_handoff-paths_example =
    build_agent_handoff-paths platform request compiled phases stopped RunMode.run handoff built
