-- ===== src/Topology/Tests.antt =====
-- The phase graph on concrete declarations.
use graph_skill_runtime.Common.{
  String, Bool, true, false, List, [], ◌∷◌, ◌≡◌, refl, arith, eq_iff, if◌then◌else◌, ◌↔◌, ne_of_eq,
}
use graph_skill_runtime.Common.Dict.{Dict, get, put}
use graph_skill_runtime.Common.Text.{sort_by}
use graph_skill_runtime.Common.Names.{has}
use graph_skill_runtime.Topology.{PhaseTopologyRef, cycle, link, keys}
use graph_skill_runtime.Topology.Cycles.{validate_acyclic_graph}
use graph_skill_runtime.Topology.Cycles.Acyclic.{IsAcyclic, IsClosed, validate_acyclic_graph_lem}
use graph_skill_runtime.Topology.Islands.{Fed}
use graph_skill_runtime.Topology.Order.Counts.{count}
use graph_skill_runtime.Topology.Check.{validate_graph_topology}
use graph_skill_runtime.Topology.Accepted.{
  Respects, phase_names, validate_graph_topology-IsOrdered, validate_graph_topology-Fed,
}

abbrev phase : String → List String → Bool → PhaseTopologyRef
phase name depends_on output = record {
  name = name;
  depends_on = depends_on;
  output = output;
  token = record { phase_id = name; raw_text = ""; line_start = 3; line_end = 3; attrs = [] };
}

-- The review is declared before the drafts that it joins.
abbrev fan_in : List PhaseTopologyRef
fan_in =
    phase "review" ("draft" ∷ "notes" ∷ []) true
    ∷ phase "draft" ("input" ∷ []) false
    ∷ phase "notes" ("draft" ∷ "input" ∷ []) false
    ∷ []

abbrev directories : List String
directories = "draft" ∷ "notes" ∷ "review" ∷ []

fan_in_order :
    (validate_graph_topology (phase_names fan_in) fan_in directories).1.order
    ≡ "draft" ∷ "notes" ∷ "review" ∷ []
unfolding validate_graph_topology sort_by link put get
fan_in_order = refl

fan_in_accepted : (validate_graph_topology (phase_names fan_in) fan_in directories).0 ≡ []
unfolding validate_graph_topology sort_by link put get
fan_in_accepted = refl

-- A cycle is one diagnostic, not also an island.
abbrev circle : List PhaseTopologyRef
circle =
    phase "draft" ("input" ∷ []) false
    ∷ phase "a" ("b" ∷ []) false
    ∷ phase "b" ("a" ∷ []) false
    ∷ phase "end" ("b" ∷ []) true
    ∷ []

circle_diags :
    (validate_graph_topology (phase_names circle) circle ("a" ∷ "b" ∷ "draft" ∷ "end" ∷ [])).0
    ≡ cycle 3 ("a" ∷ "b" ∷ "a" ∷ []) ∷ []
unfolding validate_graph_topology sort_by link put get
circle_diags = refl

validate_graph_topology-IsOrdered_example :
    let order = (validate_graph_topology (phase_names fan_in) fan_in directories).1.order in
    ((y : String) → count y order ≡ (if has y (phase_names fan_in) then 1 else 0))
    × Respects fan_in [] order
validate_graph_topology-IsOrdered_example =
    validate_graph_topology-IsOrdered fan_in directories
      (
        (ne_of_eq "draft" "review" refl, (ne_of_eq "notes" "review" refl, tt)),
        ((ne_of_eq "notes" "draft" refl, tt), (tt, tt)),
      )
      fan_in_accepted

has_review : has "review" (phase_names fan_in) ≡ true
unfolding has
has_review = refl

validate_graph_topology-Fed_example : Fed fan_in "review"
validate_graph_topology-Fed_example =
    validate_graph_topology-Fed fan_in directories "review" fan_in_accepted has_review

abbrev pair : Dict (List String)
pair = ("a", "b" ∷ []) ∷ ("b", []) ∷ []

pair-IsClosed : IsClosed pair
unfolding has get keys
pair-IsClosed x y h = ground (arith, eq_iff "a" x, eq_iff "b" x, eq_iff "b" y)

validate_acyclic_graph_example :
    ((validate_acyclic_graph (λ p. 1) pair).diags ≡ []) ↔ IsAcyclic pair
validate_acyclic_graph_example = validate_acyclic_graph_lem (λ p. 1) pair pair-IsClosed
