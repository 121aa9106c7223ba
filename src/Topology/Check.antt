-- ===== src/Topology/Check.antt =====
-- The check as a whole, _validate_graph_topology of core/loader.py.
use graph_skill_runtime.Common.{
  String, Bool, not, List, [], ◌∷◌, ◌++◌, map, if◌then◌else◌, is_empty, keep,
}
use graph_skill_runtime.Common.Dict.{Dict}
use graph_skill_runtime.Common.Names.{add_all, sorted, entries}
use graph_skill_runtime.Topology.{
  PhaseTopologyRef, Diag, output_invalid, validate_phase_name_sets, collect_graph_dependencies,
  line_by_name,
}
use graph_skill_runtime.Topology.Cycles.{validate_acyclic_graph}
use graph_skill_runtime.Topology.Islands.{validate_no_islands}
use graph_skill_runtime.Topology.Order.{topological_order}

unfoldable pub validate_output_phases : List PhaseTopologyRef → Dict (List String) → List Diag
unfolding add_all
validate_output_phases refs adjacency =
    let outputs = add_all (map (λ r. r.name) (keep (λ r. r.output) refs)) [] in
    let invalid = sorted (keep (λ p. not (is_empty (entries adjacency p))) outputs) in
    if is_empty invalid then [] else output_invalid invalid ∷ []

pub record PhaseRow : Type 0 where
  pub name : String
  pub depends_on : List String
  pub output : Bool

pub record GraphTopology : Type 0 where
  pub phases : List PhaseRow
  pub order : List String

-- The diagnostics, and the topology, which is a placeholder where there are any.
unfoldable pub validate_graph_topology :
    List String → List PhaseTopologyRef → List String → List Diag × GraphTopology
unfolding validate_phase_name_sets collect_graph_dependencies line_by_name validate_acyclic_graph
    add_all validate_no_islands validate_output_phases topological_order
validate_graph_topology phases refs physical =
    let deps = collect_graph_dependencies phases refs in
    let line_of = line_by_name refs in
    let cycles = validate_acyclic_graph line_of deps.adjacency in
    let suppress = add_all cycles.cycle_nodes deps.flagged in
    let diags =
      validate_phase_name_sets phases physical
      ++ deps.diags
      ++ cycles.diags
      ++ validate_no_islands line_of deps.adjacency deps.input_roots suppress
      ++ validate_output_phases refs deps.adjacency in
    (
      diags,
      record {
        phases =
            map (λ r. record { name = r.name; depends_on = r.depends_on; output = r.output }) refs;
        order = if is_empty diags then topological_order deps.adjacency phases else [];
      },
    )
