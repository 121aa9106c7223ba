-- ===== src/Writers/Upstream.antt =====
-- The ancestors that the checks compute are the phases upstream by the declared dependencies.
use graph_skill_runtime.Common.{
  String, true, false, ◌||◌, List, [], ◌∷◌, ◌≡◌, ◌≢◌, ap, arith, ◌==◌, eq_iff, Bool-cases, inl, inr,
  same_of_eq,
}
use graph_skill_runtime.Common.Dict.{Dict, get, put, get-put}
use graph_skill_runtime.Common.Names.{has, entries}
use graph_skill_runtime.Common.Walk.{From, has-closure}
use graph_skill_runtime.Topology.{PhaseTopologyRef}
use graph_skill_runtime.Topology.Edges.{depends}
use graph_skill_runtime.Writers.{
  depends_on_map, ancestor_walk, get_ancestors, ancestors_by_name, phase_ancestor_sets,
}

-- The phase x is upstream of y by declared dependencies.
pub data Upstream (refs : List PhaseTopologyRef) (y : String) : String → Type 0 where
  direct : (x : String) → depends refs y x ≡ true → x ≢ "input" → Upstream refs y x
  further :
      (x z : String) → Upstream refs y z → depends refs z x ≡ true → x ≢ "input" → Upstream refs y x

depends-map :
    (refs : List PhaseTopologyRef) (d : Dict (List String)) (y x : String)
    → has x (entries (depends_on_map refs d) y) ≡ true
    → (has x (entries d y) || depends refs y x) ≡ true
unfolding depends_on_map depends has
depends-map [] d y x h = ground arith
depends-map (ref ∷ refs) d y x h = ground (
  arith,
  depends-map refs (put d ref.name ref.depends_on) y x h,
  get-put d ref.name y ref.depends_on,
)

module _ (refs : List PhaseTopologyRef) where
  abbrev dependencies : Dict (List String)
  dependencies = depends_on_map refs []

  declared : (y x : String) → has x (entries dependencies y) ≡ true → depends refs y x ≡ true
  unfolding has get
  declared y x h = ground (arith, depends-map refs [] y x h)

  not_input : (x : String) → (x == "input") ≡ false → x ≢ "input"
  not_input x h e = ground (arith, eq_iff x "input")

  Upstream-From :
      (y x : String)
      → From (ancestor_walk dependencies) (entries dependencies y) x
      → Upstream refs y x
  unfolding ancestor_walk
  Upstream-From y x (From.start _ m s) = direct x (declared y x m) (not_input x s)
  Upstream-From y x (From.step z _ p e s) =
      further x z (Upstream-From y z p) (declared z x e) (not_input x s)

  entries-ancestors :
      (rest : List PhaseTopologyRef) (d : Dict (List String)) (y x : String)
      → has x (entries (ancestors_by_name dependencies rest d) y) ≡ true
      → (has x (entries d y) || has x (get_ancestors dependencies y)) ≡ true
  unfolding ancestors_by_name has
  entries-ancestors [] d y x h = ground arith
  entries-ancestors (ref ∷ rest) d y x h =
      let found = get_ancestors dependencies ref.name in
      let later = entries-ancestors rest (put d ref.name found) y x h in
      elim (Bool-cases (ref.name == y)) [
        | inl e ↦
            let same = ap (get_ancestors dependencies) (same_of_eq ref.name y e) in
            ground (arith, later, get-put d ref.name y found, ap (has x) same)
        | inr e ↦ ground (arith, later, get-put d ref.name y found)
      ]

  pub Upstream-ancestors :
      (y x : String) → has x (entries (phase_ancestor_sets refs) y) ≡ true → Upstream refs y x
  unfolding phase_ancestor_sets get_ancestors has get
  Upstream-ancestors y x h =
      let inside : has x (get_ancestors dependencies y) ≡ true =
        ground (arith, entries-ancestors refs [] y x h) in
      Upstream-From y x
        ((has-closure (ancestor_walk dependencies) (entries dependencies y) x).0 inside)
