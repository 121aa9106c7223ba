-- ===== src/Topology/Order.antt =====
-- The execution order, _topological_order of core/loader.py: Kahn's algorithm.
pub mod Counts
pub mod Ranked
use graph_skill_runtime.Common.{
  ℕ, zero, suc, ◌+◌, ◌-◌, ◌≤◌, String, Bool, true, false, not, ◌&&◌, ◌||◌, Option, none, some, List,
  [], ◌∷◌, ◌++◌, map, ◌≡◌, ◌∙◌, arith, ◌==◌, eq_iff, if◌then◌else◌, or_else, nat_eq, is_some,
  is_empty, length, keep, length-append,
}
use graph_skill_runtime.Common.Dict.{Dict, get, put}
use graph_skill_runtime.Common.Names.{
  has, has-append, add, add_all, has-add_all, length-add_all, without, has-keep, length-keep,
  sorted, has-sorted, length-sorted, has-reverse, length-reverse, entries,
}
use graph_skill_runtime.Common.Walk.{Walk, closure}
use mathlib.Core.List.{reverse}
use graph_skill_runtime.Topology.{
  PhaseTokenInfo, PhaseTopologyRef, Diag, no_directory, unregistered, no_depends_on,
  depends_unknown, depends_on_self, cycle, island, output_invalid, validate_phase_name_sets,
  Dependencies, flag, link, link_all, collect, from_keys, collect_graph_dependencies, keys,
  line_by_name,
}

pub record Kahn : Type 0 where
  pub indegree : Dict ℕ
  pub queue : List String
  pub order : List String

-- indegree[p]
unfoldable pub degree : Dict ℕ → String → ℕ
degree d p = or_else 0 (get d p)

unfoldable pub raise_all : List String → Dict ℕ → Dict ℕ
unfolding degree
raise_all [] d = d
raise_all (p ∷ ps) d = raise_all ps (put d p (suc (degree d p)))

unfoldable pub raise_graph : Dict (List String) → Dict ℕ → Dict ℕ
unfolding raise_all
raise_graph [] d = d
raise_graph ((k, ps) ∷ adjacency) d = raise_graph adjacency (raise_all ps d)

-- One round of the loop over the successors. The test is of the value before the decrement,
-- which 0 fails here too, as it does in the source, where 0 becomes -1.
unfoldable pub lower : String → Kahn → Kahn
unfolding degree
lower n s =
    let d = degree s.indegree n in
    record s {
      indegree = put s.indegree n (d - 1);
      queue = if nat_eq d 1 then s.queue ++ n ∷ [] else s.queue;
    }

unfoldable pub lower_all : List String → Kahn → Kahn
unfolding lower
lower_all [] s = s
lower_all (n ∷ ns) s = lower_all ns (lower n s)

unfoldable pub drain : Dict (List String) → ℕ → Kahn → Kahn
unfolding lower_all
drain adjacency zero s = s
drain adjacency (suc fuel) s = elim s.queue [
  | [] ↦ s
  | x ∷ rest ↦
      drain adjacency fuel
        (lower_all (entries adjacency x) (record s { queue = rest; order = s.order ++ x ∷ [] }))
]

unfoldable pub start_order : Dict (List String) → List String → Kahn
unfolding raise_graph from_keys degree
start_order adjacency phases =
    let indegree = raise_graph adjacency (from_keys 0 phases []) in
    record {
      indegree = indegree;
      queue = keep (λ p. nat_eq (degree indegree p) 0) phases;
      order = [];
    }

unfoldable pub topological_order : Dict (List String) → List String → List String
unfolding drain start_order
topological_order adjacency phases =
    (drain adjacency (length phases) (start_order adjacency phases)).order
