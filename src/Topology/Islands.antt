-- ===== src/Topology/Islands.antt =====
-- The search for phases that the input does not reach, _validate_no_islands of core/loader.py.
use graph_skill_runtime.Common.{
  ℕ, ◌≤◌, String, true, not, ◌&&◌, List, [], ◌++◌, map, ◌≡◌, sym, ap, ◌∙◌, arith, is_some, length,
  length-append,
}
use graph_skill_runtime.Common.Dict.{Dict, get}
use graph_skill_runtime.Common.Lists.{map_empty}
use graph_skill_runtime.Common.Names.{
  has, has-append, add_all, has-add_all, length-add_all, without, has-keep, length-keep, sorted,
  has-sorted, length-sorted, has-reverse, length-reverse, entries,
}
use graph_skill_runtime.Common.Walk.{Walk, closure, From, has-closure}
use mathlib.Core.List.{reverse}
use graph_skill_runtime.Topology.{
  PhaseTopologyRef, Diag, island, Dependencies, collect_graph_dependencies, keys,
}
use graph_skill_runtime.Topology.Edges.{depends, collected}

-- sorted(set(names) - visited), as a stack takes it
unfoldable pub fresh_names : List String → List String → List String
unfolding add_all
fresh_names visited names = reverse (sorted (without visited (add_all names [])))

pub has-fresh_names :
    (y : String) (visited names : List String)
    → has y (fresh_names visited names) ≡ (not (has y visited) && has y names)
unfolding fresh_names has
has-fresh_names y visited names =
    let unique = add_all names [] in
    let new = without visited unique in
    has-reverse y (sorted new)
    ∙ has-sorted y new
    ∙ has-keep (λ x. not (has x visited)) y unique
    ∙ ground (arith, has-add_all y names [])

pub length-fresh_names :
    (visited names : List String) → length (fresh_names visited names) ≤ length names
unfolding fresh_names
length-fresh_names visited names =
    let unique = add_all names [] in
    let new = without visited unique in
    omega (
      arith,
      length-reverse (sorted new),
      length-sorted new,
      length-keep (λ x. not (has x visited)) unique,
      length-add_all names [],
    )

-- The stack stands with its top first.
unfoldable pub island_walk : Dict (List String) → Walk
unfolding has fresh_names
island_walk adjacency = record {
  graph = adjacency;
  skip = λ n. not (is_some (get adjacency n));
  push = λ visited rest n. fresh_names visited (entries adjacency n) ++ rest;
  push_sound = λ visited rest n y h.
      let new = fresh_names visited (entries adjacency n) in
      ground (arith, has-append y new rest, has-fresh_names y visited (entries adjacency n));
  push_full = λ visited rest n y h.
      let new = fresh_names visited (entries adjacency n) in
      ground (arith, has-append y new rest, has-fresh_names y visited (entries adjacency n));
  push_size = λ visited rest n.
      let new = fresh_names visited (entries adjacency n) in
      omega (arith, length-append new rest, length-fresh_names visited (entries adjacency n));
}

unfoldable pub validate_no_islands :
    (String → ℕ) → Dict (List String) → List String → List String → List Diag
unfolding keys closure island_walk
validate_no_islands line_of adjacency input_roots suppress =
    let visited = closure (island_walk adjacency) (reverse (input_roots ++ sorted suppress)) in
    map (λ p. island (line_of p) p) (without visited (keys adjacency))

-- The declaration leads from the input to the phase.
pub data Fed (refs : List PhaseTopologyRef) : String → Type 0 where
  by_input : (y : String) → depends refs y "input" ≡ true → Fed refs y
  by_phase : (x y : String) → Fed refs x → depends refs y x ≡ true → Fed refs y

none_without :
    (ys xs : List String) (x : String) → without ys xs ≡ [] → has x xs ≡ true → has x ys ≡ true
unfolding has
none_without ys xs x e h = ground (arith, has-keep (λ n. not (has n ys)) x xs, ap (has x) e)

module _ (phases : List String) (refs : List PhaseTopologyRef) where
  abbrev deps : Dependencies
  deps = collect_graph_dependencies phases refs

  Fed-From :
      (starts : List String)
      → ((x : String) → has x starts ≡ has x deps.input_roots)
      → (y : String) → From (island_walk deps.adjacency) starts y
      → Fed refs y
  unfolding island_walk
  Fed-From starts h y (From.start _ m s) =
      by_input y (sym ((collected phases refs).roots y) ∙ sym (h y) ∙ m)
  Fed-From starts h y (From.step x _ p e s) =
      by_phase x y (Fed-From starts h x p) (ground (arith, (collected phases refs).edges x y))

  -- Where the search for islands finds none and nothing else was flagged, the input leads to each
  -- phase by the declared dependencies.
  pub Fed-of_quiet :
      (line_of : String → ℕ) (p : String)
      → validate_no_islands line_of deps.adjacency deps.input_roots [] ≡ []
      → has p phases ≡ true
      → Fed refs p
  unfolding validate_no_islands add_all has
  Fed-of_quiet line_of p q h =
      let walk = island_walk deps.adjacency in
      let starts = reverse (deps.input_roots ++ sorted []) in
      let visited = closure walk starts in
      let known : has p (keys deps.adjacency) ≡ true =
        ground (arith, ap (has p) (collected phases refs).names, has-add_all p phases []) in
      let seen = none_without visited (keys deps.adjacency) p (map_empty _ _ q) known in
      let same : (x : String) → has x starts ≡ has x deps.input_roots = λ x. ground (
        arith,
        has-reverse x (deps.input_roots ++ sorted []),
        has-append x deps.input_roots (sorted []),
        has-sorted x [],
      ) in
      Fed-From starts same p ((has-closure walk starts p).0 seen)
