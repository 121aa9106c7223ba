-- ===== src/Topology/Quiet.antt =====
-- What holds of the declaration where the collection of the dependencies gives no diagnostic.
use graph_skill_runtime.Common.{
  String, true, ◌&&◌, ◌||◌, List, [], ◌∷◌, ◌≡◌, refl, ◌∙◌, arith, ◌==◌, Bool-cases, inl, inr,
  snoc_ne, same_of_eq,
}
use mathlib.Core.Path.{subst}
use graph_skill_runtime.Common.Names.{has}
use graph_skill_runtime.Topology.{
  PhaseTopologyRef, Dependencies, flag, demand, link, link_all, collect, no_depends_on,
  depends_unknown, depends_on_self,
}
use graph_skill_runtime.Topology.Edges.{depends, is_edge}

module _ (phases : List String) where
  quiet-link :
      (ref : PhaseTopologyRef) (dep : String) (s : Dependencies)
      → (link phases ref dep s).diags ≡ []
      → (s.diags ≡ []) × ((dep == "input" || is_edge phases dep ref.name) ≡ true)
  unfolding link flag is_edge
  quiet-link ref dep s q =
      let line = ref.token.line_start in
      ground (
        arith,
        snoc_ne s.diags (depends_unknown line ref.name dep),
        snoc_ne s.diags (depends_on_self line ref.name),
      )

  quiet-link_all :
      (ref : PhaseTopologyRef) (deps : List String) (s : Dependencies)
      → (link_all phases ref deps s).diags ≡ []
      → (s.diags ≡ [])
        × ((x : String) → has x deps ≡ true → (x == "input" || is_edge phases x ref.name) ≡ true)
  unfolding link_all has
  quiet-link_all ref [] s q = (q, λ x h. absurd (ground arith))
  quiet-link_all ref (dep ∷ deps) s q =
      let later = quiet-link_all ref deps (link phases ref dep s) q in
      let now = quiet-link ref dep s later.0 in
      (
        now.0,
        λ x h. elim (Bool-cases (dep == x)) [
          | inl e ↦
              subst (λ u. (u == "input" || is_edge phases u ref.name) ≡ true) (same_of_eq dep x e)
                now.1
          | inr e ↦ later.1 x (ground arith)
        ],
      )

  pub quiet-collect :
      (refs : List PhaseTopologyRef) (s : Dependencies)
      → (collect phases refs s).diags ≡ []
      → (s.diags ≡ [])
        × ((x y : String) → depends refs y x ≡ true → (x == "input" || is_edge phases x y) ≡ true)
  unfolding collect depends demand flag
  quiet-collect [] s q = (q, λ x y h. absurd (ground arith))
  quiet-collect (ref ∷ refs) s q =
      let later = quiet-collect refs (link_all phases ref ref.depends_on (demand ref s)) q in
      let now = quiet-link_all ref ref.depends_on (demand ref s) later.0 in
      let line = ref.token.line_start in
      (
        ground (arith, now.0, snoc_ne s.diags (no_depends_on line ref.name)),
        λ x y h. elim (Bool-cases (ref.name == y && has x ref.depends_on)) [
          | inl e ↦
              subst (λ u. (x == "input" || is_edge phases x u) ≡ true)
                (same_of_eq ref.name y (ground arith)) (now.1 x (ground arith))
          | inr e ↦ later.1 x y (ground arith)
        ],
      )

-- Where nothing is reported nothing is flagged.
module _ (phases : List String) where
  flagged-link_all :
      (ref : PhaseTopologyRef) (deps : List String) (s : Dependencies)
      → (link_all phases ref deps s).diags ≡ []
      → (link_all phases ref deps s).flagged ≡ s.flagged
  unfolding link_all link flag
  flagged-link_all ref [] s q = refl
  flagged-link_all ref (dep ∷ deps) s q =
      let line = ref.token.line_start in
      let first = (quiet-link_all phases ref deps (link phases ref dep s) q).0 in
      ground (
        arith,
        flagged-link_all ref deps (link phases ref dep s) q,
        first,
        snoc_ne s.diags (depends_unknown line ref.name dep),
        snoc_ne s.diags (depends_on_self line ref.name),
      )

  pub flagged-collect :
      (refs : List PhaseTopologyRef) (s : Dependencies)
      → (collect phases refs s).diags ≡ []
      → (collect phases refs s).flagged ≡ s.flagged
  unfolding collect demand flag
  flagged-collect [] s q = refl
  flagged-collect (ref ∷ refs) s q =
      let t = demand ref s in
      let next = link_all phases ref ref.depends_on t in
      let first = (quiet-collect phases refs next q).0 in
      let second = (quiet-link_all phases ref ref.depends_on t first).0 in
      let same : t.flagged ≡ s.flagged =
        ground (arith, second, snoc_ne s.diags (no_depends_on ref.token.line_start ref.name)) in
      flagged-collect refs next q ∙ flagged-link_all ref ref.depends_on t first ∙ same
