-- ===== src/HostNative/Tests.antt =====
-- The Agent phases of concrete graphs.
use graph_skill_runtime.Json.{empty}
use graph_skill_runtime.Manifest.{AgentNodeAst}
use graph_skill_runtime.Common.{some, String, false, List, [], ◌∷◌, ◌≡◌, ◌⊎◌, refl, ne_of_eq}
use graph_skill_runtime.Common.Dict.{get, put}
use graph_skill_runtime.Common.Names.{has}
use graph_skill_runtime.Common.Text.{sort_by}
use graph_skill_runtime.HostNative.{
  GraphNode, PhaseDeclaration, CompiledSkill, supported, refused, parallel_agent, dependencies_of,
  host_native_agent_phases,
}
use graph_skill_runtime.HostNative.Ordered.{Precedes, host_native_agent_phases_lem}

abbrev pub node : AgentNodeAst
node = record {
  role = "r";
  goal = "g";
  steps = [];
  protocols = [];
  io = record { inputs = empty; outputs = empty };
  tools = "search" ∷ [];
  subagents = [];
  subgraphs = [];
  references = record { id = "R"; path = "/ref"; summary = "s" } ∷ [];
  examples = [];
}

abbrev pub graph_node : String → GraphNode
graph_node name = record { phase_name = name; ast = some node; iterates = false }

abbrev pub declaration : String → List String → PhaseDeclaration
declaration id deps = record { id = id; depends_on = deps }

abbrev pub graph : List String → CompiledSkill
graph deps = record {
  graph_id = "root";
  iterates = false;
  phases = declaration "prepare" ("input" ∷ []) ∷ declaration "answer" deps ∷ [];
  graph_registry = [];
  nodes = graph_node "answer" ∷ [];
}

pub chain_supported :
    host_native_agent_phases (graph ("prepare" ∷ []))
    ≡ supported (("answer", graph_node "answer") ∷ [])
unfolding host_native_agent_phases put get
chain_supported = refl

fork_refused :
    host_native_agent_phases (graph ("input" ∷ []))
    ≡ refused (parallel_agent "answer" ("prepare" ∷ []))
unfolding host_native_agent_phases put get sort_by
fork_refused = refl

host_native_agent_phases_example :
    let dependencies = dependencies_of (graph ("prepare" ∷ [])).phases [] in
    Precedes dependencies "answer" "prepare" ⊎ Precedes dependencies "prepare" "answer"
unfolding has
host_native_agent_phases_example =
    host_native_agent_phases_lem (graph ("prepare" ∷ [])) (("answer", graph_node "answer") ∷ [])
      "answer" "prepare" chain_supported refl refl (ne_of_eq "prepare" "answer" refl)
