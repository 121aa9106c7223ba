-- ===== src/Topology/Cycles.antt =====
-- The search for cycles, _validate_acyclic_graph of core/loader.py: depth first, with the phases
-- on the stack gray and the finished ones black.
pub mod Colors
pub mod Finished
pub mod Acyclic
use graph_skill_runtime.Common.{
  ℕ, zero, suc, ◌+◌, ◌-◌, ◌≤◌, String, Bool, true, false, not, ◌&&◌, ◌||◌, Option, none, some, List,
  [], ◌∷◌, ◌++◌, map, ◌≡◌, ◌∙◌, arith, ◌==◌, eq_iff, if◌then◌else◌, or_else, nat_eq, is_some,
  is_empty, length, keep, length-append,
}
use graph_skill_runtime.Common.Dict.{Dict, get, put}
use graph_skill_runtime.Common.Names.{
  has, has-append, add, add_all, has-add_all, length-add_all, without, has-keep, length-keep,
  sorted, has-sorted, length-sorted, has-reverse, length-reverse, entries,
}
use graph_skill_runtime.Common.Walk.{Walk, closure}
use mathlib.Core.List.{reverse}
use graph_skill_runtime.Topology.{
  PhaseTokenInfo, PhaseTopologyRef, Diag, no_directory, unregistered, no_depends_on,
  depends_unknown, depends_on_self, cycle, island, output_invalid, validate_phase_name_sets,
  Dependencies, flag, link, link_all, collect, from_keys, collect_graph_dependencies, keys,
  line_by_name,
}

pub data Color : Type 0 where
  gray : Color
  black : Color

pub record Search : Type 0 where
  pub state : Dict Color
  pub stack : List String
  pub cycle_nodes : List String
  pub diags : List Diag

unfoldable pub enter : String → Search → Search
enter n s = record s { state = put s.state n gray; stack = s.stack ++ n ∷ [] }

-- stack.pop()
unfoldable pub drop_last : List String → List String
drop_last [] = []
drop_last (x ∷ []) = []
drop_last (x ∷ y ∷ ys) = x ∷ drop_last (y ∷ ys)

unfoldable pub leave : String → Search → Search
unfolding drop_last
leave n s = record s { state = put s.state n black; stack = drop_last s.stack }

-- stack[stack.index(n):]
unfoldable pub from_name : String → List String → List String
from_name n [] = []
from_name n (x ∷ xs) = if x == n then x ∷ xs else from_name n xs

module _ (line_of : String → ℕ) (adjacency : Dict (List String)) where
  -- The cycle starts at n.
  unfoldable pub report : String → Search → Search
  unfolding from_name
  report n s =
      let found = from_name n s.stack ++ n ∷ [] in
      record s {
        cycle_nodes = add_all found s.cycle_nodes;
        diags = s.diags ++ cycle (line_of n) found ∷ [];
      }

  -- The loop of `visit` over the phases that come next; the fuel bounds the depth of `visit`.
  unfoldable pub visit_all : ℕ → List String → Search → Search
  unfolding enter leave report
  visit_all fuel [] s = s
  visit_all zero (n ∷ ns) s = s
  visit_all (suc fuel) (n ∷ ns) s = visit_all (suc fuel) ns (elim (get s.state n) [
    | none ↦ leave n (visit_all fuel (entries adjacency n) (enter n s))
    | some gray ↦ report n s
    | some black ↦ s
  ])

  unfoldable pub visit : ℕ → String → Search → Search
  unfolding enter leave visit_all
  visit fuel n s = leave n (visit_all fuel (entries adjacency n) (enter n s))

  unfoldable pub visit_roots : ℕ → List String → Search → Search
  unfolding visit
  visit_roots fuel [] s = s
  visit_roots fuel (n ∷ ns) s =
      visit_roots fuel ns (elim (get s.state n) [ none ↦ visit fuel n s | some _ ↦ s ])

  unfoldable pub validate_acyclic_graph : Search
  unfolding visit_roots keys
  validate_acyclic_graph =
      let names = keys adjacency in
      visit_roots (suc (length names)) names
        (record { state = []; stack = []; cycle_nodes = []; diags = [] })
