-- ===== src/Topology/Accepted.antt =====
-- What an accepted phase graph guarantees of its declaration, _validate_graph_topology of
-- core/loader.py.
use graph_skill_runtime.Common.{
  suc, ◌≤◌, String, true, ◌||◌, List, [], ◌∷◌, ◌++◌, ◌≡◌, refl, sym, ◌∙◌, ap, arith, ◌==◌,
  if◌then◌else◌, Unique, map, length,
}
use mathlib.Core.Path.{subst}
use graph_skill_runtime.Common.Lists.{append_left, append_right}
use graph_skill_runtime.Common.Names.{has, add_all, has-add_all, entries}
use graph_skill_runtime.Topology.{
  PhaseTopologyRef, Dependencies, collect_graph_dependencies, from_keys, keys, line_by_name,
  validate_phase_name_sets,
}
use graph_skill_runtime.Topology.Quiet.{quiet-collect, flagged-collect}
use graph_skill_runtime.Topology.Edges.{depends, collected}
use graph_skill_runtime.Topology.Cycles.{Search, validate_acyclic_graph}
use graph_skill_runtime.Topology.Cycles.Colors.{Grows-visit_roots}
use graph_skill_runtime.Topology.Cycles.Acyclic.{IsAcyclic, validate_acyclic_graph_lem}
use graph_skill_runtime.Topology.Islands.{Fed, Fed-of_quiet, validate_no_islands}
use graph_skill_runtime.Topology.Order.{topological_order}
use graph_skill_runtime.Topology.Order.Counts.{count, Unique-count, count-add_all}
use graph_skill_runtime.Topology.Order.Ranked.{IsOrder, Follows, topological_order-IsOrder}
use graph_skill_runtime.Topology.Check.{validate_output_phases, validate_graph_topology}

-- Each phase stands after everything that it declares to depend on, but for the input.
unfoldable pub Respects : List PhaseTopologyRef → List String → List String → Type 0
unfolding depends has
Respects refs seen [] = Unit
Respects refs seen (y ∷ ys) =
    ((x : String) → depends refs y x ≡ true → (x == "input" || has x seen) ≡ true)
    × Respects refs (seen ++ y ∷ []) ys

-- [phase.id for phase in manifest.phases]
abbrev pub phase_names : List PhaseTopologyRef → List String
phase_names refs = map (λ r. r.name) refs

depends-names :
    (refs : List PhaseTopologyRef) (y x : String)
    → depends refs y x ≡ true
    → has y (phase_names refs) ≡ true
unfolding depends has
depends-names [] y x h = h
depends-names (ref ∷ refs) y x h = ground (arith, depends-names refs y x)

module _ (refs : List PhaseTopologyRef) where
  abbrev phases : List String
  phases = phase_names refs

  abbrev deps : Dependencies
  deps = collect_graph_dependencies phases refs

  abbrev searched : Search
  searched = validate_acyclic_graph (line_by_name refs) deps.adjacency

  has-phases : (x : String) → has x (keys deps.adjacency) ≡ has x phases
  unfolding has
  has-phases x = ground (arith, ap (has x) (collected phases refs).names, has-add_all x phases [])

  edges_closed : (x y : String) → has y (entries deps.adjacency x) ≡ true → has y phases ≡ true
  edges_closed x y e = ground (arith, (collected phases refs).edges x y, depends-names refs y x)

  -- An accepted declaration gives no diagnostic at any stage, so that nothing is suppressed.
  record IsQuiet : Type 0 where
    declared : deps.diags ≡ []
    acyclic : searched.diags ≡ []
    fed : validate_no_islands (line_by_name refs) deps.adjacency deps.input_roots [] ≡ []

  quiet_of_accepted :
      (physical : List String) → (validate_graph_topology phases refs physical).0 ≡ [] → IsQuiet
  unfolding validate_graph_topology validate_acyclic_graph add_all collect_graph_dependencies
  quiet_of_accepted physical q =
      let suppress = add_all searched.cycle_nodes deps.flagged in
      let islands = validate_no_islands (line_by_name refs) deps.adjacency deps.input_roots in
      let outputs = validate_output_phases refs deps.adjacency in
      let named = validate_phase_name_sets phases physical in
      let first = named ++ deps.diags in
      let second = first ++ searched.diags in
      let third = second ++ islands suppress in
      let none_third = append_left third outputs q in
      let none_found = append_right second (islands suppress) none_third in
      let none_second = append_left second (islands suppress) none_third in
      let acyclic = append_right first searched.diags none_second in
      let declared = append_right named deps.diags (append_left first searched.diags none_second) in
      let names = keys deps.adjacency in
      let grows =
        Grows-visit_roots (line_by_name refs) deps.adjacency (suc (length names)) names
          (record { state = []; stack = []; cycle_nodes = []; diags = [] }) in
      let flagged =
        flagged-collect phases refs
          (record {
            adjacency = from_keys [] phases [];
            input_roots = [];
            flagged = [];
            diags = [];
          })
          declared in
      let nothing : suppress ≡ [] =
        ap (λ u. add_all u deps.flagged) (grows.nodes acyclic) ∙ flagged in
      record { declared = declared; acyclic = acyclic; fed = ap islands (sym nothing) ∙ none_found }

  IsAcyclic-of_quiet : IsQuiet → IsAcyclic deps.adjacency
  IsAcyclic-of_quiet h =
      (validate_acyclic_graph_lem (line_by_name refs) deps.adjacency
          (λ x y e. has-phases y ∙ edges_closed x y e)).0
        h.acyclic

  IsOrder-topological :
      Unique phases
      → IsAcyclic deps.adjacency
      → IsOrder deps.adjacency phases (topological_order deps.adjacency phases)
  unfolding count
  IsOrder-topological u (rank, rises) =
      topological_order-IsOrder deps.adjacency phases
        (λ k.
          subst (λ ks. count k ks ≤ 1) (sym (collected phases refs).names)
            (count-add_all phases [] k (omega arith)))
        (λ k. Unique-count k phases u) has-phases edges_closed rank rises

  Respects-Follows :
      IsQuiet
      → (seen order : List String) → Follows deps.adjacency seen order
      → Respects refs seen order
  unfolding Respects Follows collect_graph_dependencies
  Respects-Follows h seen [] f = tt
  Respects-Follows h seen (y ∷ ys) f = (
    λ x d. ground (
      arith,
      (quiet-collect phases refs _ h.declared).1 x y d,
      f.0 x,
      (collected phases refs).edges x y,
    ),
    Respects-Follows h (seen ++ y ∷ []) ys f.1,
  )

  accepted_order_lem :
      (physical : List String)
      → (validate_graph_topology phases refs physical).0 ≡ []
      → (validate_graph_topology phases refs physical).1.order
        ≡ topological_order deps.adjacency phases
  unfolding validate_graph_topology
  accepted_order_lem physical q = rw (q, validate_graph_topology) refl

-- An accepted graph with distinct phase ids has an execution order in which each phase stands
-- exactly once, and after everything that it declares to depend on, but for the input.
pub validate_graph_topology-IsOrdered :
    (refs : List PhaseTopologyRef) (physical : List String)
    → Unique (phase_names refs)
    → (validate_graph_topology (phase_names refs) refs physical).0 ≡ []
    → let order = (validate_graph_topology (phase_names refs) refs physical).1.order in
      ((y : String) → count y order ≡ (if has y (phase_names refs) then 1 else 0))
      × Respects refs [] order
validate_graph_topology-IsOrdered refs physical u q =
    let h = quiet_of_accepted refs physical q in
    let found = IsOrder-topological refs u (IsAcyclic-of_quiet refs h) in
    subst
      (λ o.
        ((y : String) → count y o ≡ (if has y (phase_names refs) then 1 else 0))
        × Respects refs [] o)
      (sym (accepted_order_lem refs physical q))
      (found.once, Respects-Follows refs h [] _ found.follows)

-- In an accepted graph the input leads to every phase by declared dependencies.
pub validate_graph_topology-Fed :
    (refs : List PhaseTopologyRef) (physical : List String) (p : String)
    → (validate_graph_topology (phase_names refs) refs physical).0 ≡ []
    → has p (phase_names refs) ≡ true
    → Fed refs p
validate_graph_topology-Fed refs physical p q m =
    Fed-of_quiet (phase_names refs) refs (line_by_name refs) p
      (quiet_of_accepted refs physical q).fed m
