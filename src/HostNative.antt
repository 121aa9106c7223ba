-- ===== src/HostNative.antt =====
-- Which Agent phases a host can answer, host_native_agent_phases of adapters/host_native.py. A set is
-- a list without repetition. A dependency that is no phase counts as one without dependencies; the
-- source would raise a KeyError, but a compiled graph has none (see Topology).
pub mod Ordered
pub mod Platform
pub mod PhaseInputs
pub mod Instructions
pub mod Resources
pub mod Task
pub mod Tests
use graph_skill_runtime.Common.{
  ℕ, ◌+◌, ◌≤◌, String, Bool, true, false, not, ◌&&◌, ◌||◌, Option, none, some, List, [], ◌∷◌, ◌++◌,
  map, ◌≡◌, refl, sym, ap, ◌∙◌, arith, ◌==◌, if◌then◌else◌, is_some, or_else, is_empty, keep,
  length, length-append,
}
use graph_skill_runtime.Common.Dict.{Dict, get, put}
use graph_skill_runtime.Manifest.{AgentNodeAst}
use graph_skill_runtime.Common.Names.{
  has, has-append, has-reverse, length-reverse, add_all, sorted, entries,
}
use graph_skill_runtime.Common.Walk.{Walk, closure}
use mathlib.Core.List.{reverse}

-- A node: its name, its AST where it is an Agent's, and whether it iterates.
pub record GraphNode : Type 0 where
  pub phase_name : String
  pub ast : Option AgentNodeAst
  pub iterates : Bool

pub record PhaseDeclaration : Type 0 where
  pub id : String
  pub depends_on : List String

-- `iterates` says whether the manifest of the root graph has an iterate.
pub record CompiledSkill : Type 0 where
  pub graph_id : String
  pub iterates : Bool
  pub phases : List PhaseDeclaration
  pub graph_registry : Dict (List GraphNode)
  pub nodes : List GraphNode

-- The reasons of a HostNativeContractError, with the phases that its message names; those below the
-- root graph are pairs, in the order in which they are found.
pub data ContractError : Type 0 where
  nested_agents : List (String × String) → ContractError
  graph_iterates : ContractError
  phases_iterate : List String → ContractError
  parallel_agent : String → List String → ContractError

pub data AgentSupport : Type 0 where
  supported : Dict GraphNode → AgentSupport
  refused : ContractError → AgentSupport

unfoldable pub agents_below : String → Dict (List GraphNode) → List (String × String)
agents_below root [] = []
agents_below root ((graph_id, nodes) ∷ rest) =
    let later = agents_below root rest in
    if graph_id == root
    then later
    else map (λ (n : GraphNode). (graph_id, n.phase_name))
        (keep (λ (n : GraphNode). is_some n.ast) nodes)
      ++ later

-- {node.phase_name: node for node in nodes if it is an Agent's}
unfoldable pub agent_nodes : List GraphNode → Dict GraphNode → Dict GraphNode
agent_nodes [] d = d
agent_nodes (n ∷ nodes) d = agent_nodes nodes (if is_some n.ast then put d n.phase_name n else d)

unfoldable pub dependencies_of : List PhaseDeclaration → Dict (List String) → Dict (List String)
unfolding add_all
dependencies_of [] d = d
dependencies_of (p ∷ ps) d =
    dependencies_of ps (put d p.id (add_all (keep (λ n. not (n == "input")) p.depends_on) []))

-- The list of pending names stands with its end first.
unfoldable pub pending_walk : Dict (List String) → Walk
unfolding has
pending_walk dependencies = record {
  graph = dependencies;
  skip = λ n. false;
  push = λ result pending item. reverse (entries dependencies item) ++ pending;
  push_sound = λ result pending item y h. ground (
    arith,
    has-append y (reverse (entries dependencies item)) pending,
    has-reverse y (entries dependencies item),
  );
  push_full = λ result pending item y h. ground (
    arith,
    has-append y (reverse (entries dependencies item)) pending,
    has-reverse y (entries dependencies item),
  );
  push_size = λ result pending item. omega (
    arith,
    length-append (reverse (entries dependencies item)) pending,
    length-reverse (entries dependencies item),
  );
}

unfoldable pub ancestors : Dict (List String) → String → List String
unfolding pending_walk closure
ancestors dependencies phase_id =
    closure (pending_walk dependencies) (reverse (entries dependencies phase_id))

unfoldable pub ancestor_map : Dict (List String) → Dict (List String) → Dict (List String)
unfolding ancestors
ancestor_map dependencies [] = []
ancestor_map dependencies ((p, deps) ∷ rest) =
    (p, ancestors dependencies p) ∷ ancestor_map dependencies rest

-- The phases that neither precede the Agent phase nor follow it.
unfoldable pub incomparable : Dict (List String) → String → List String → List String
unfolding has
incomparable upstream agent names =
    keep
      (λ p.
        not (p == agent)
        && not (has p (entries upstream agent))
        && not (has agent (entries upstream p)))
      names

unfoldable pub check_agents : Dict (List String) → List String → List String → Option ContractError
unfolding incomparable
check_agents upstream names [] = none
check_agents upstream names (agent ∷ agents) =
    let parallel = incomparable upstream agent names in
    if is_empty parallel
    then check_agents upstream names agents
    else some (parallel_agent agent (sorted parallel))

unfoldable pub host_native_agent_phases : CompiledSkill → AgentSupport
unfolding agents_below agent_nodes dependencies_of ancestor_map check_agents
host_native_agent_phases compiled =
    let below = agents_below compiled.graph_id compiled.graph_registry in
    let phases = agent_nodes compiled.nodes [] in
    let iterated = map (λ e. e.0) (keep (λ (e : String × GraphNode). e.1.iterates) phases) in
    let dependencies = dependencies_of compiled.phases [] in
    if not (is_empty below)
    then refused (nested_agents below)
    else if is_empty phases
    then supported phases
    else if compiled.iterates
    then refused graph_iterates
    else if not (is_empty iterated)
    then refused (phases_iterate (sorted iterated))
    else elim (check_agents (ancestor_map dependencies dependencies) (map (λ e. e.0) dependencies)
        (map (λ e. e.0) phases)) [ some e ↦ refused e | none ↦ supported phases ]
