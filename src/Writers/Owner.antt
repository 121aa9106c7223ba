-- ===== src/Writers/Owner.antt =====
-- What the two checks of the writers guarantee together.
use graph_skill_runtime.Common.{
  String, true, ◌||◌, some, List, [], map, ◌≡◌, ◌≢◌, ◌∙◌, ap, arith, Bool-cases, inl, inr, ◌⊎◌,
}
use graph_skill_runtime.Common.Dict.{get}
use graph_skill_runtime.Common.Names.{has, entries}
use graph_skill_runtime.Topology.{PhaseTopologyRef}
use graph_skill_runtime.Writers.{
  PhaseDocument, output_keys, pair_conflicts, validate_parallel_writers,
  validate_sequential_overwrites, phase_ancestor_sets, phase_declared_output_keys,
}
use graph_skill_runtime.Writers.Upstream.{Upstream, Upstream-ancestors}
use graph_skill_runtime.Writers.Quiet.{
  docs_by_name, declared_keys, all_conflicts_empty, pair_ordered, all_overwrites_empty,
}

module _ (refs : List PhaseTopologyRef) (docs : List PhaseDocument) where
  allowed :
      (x y k : String) (doc : PhaseDocument)
      → validate_sequential_overwrites refs docs ≡ []
      → get (docs_by_name docs) y ≡ some doc
      → has x (entries (phase_ancestor_sets refs) y) ≡ true
      → has k (entries (phase_declared_output_keys docs) y) ≡ true
      → has k (entries (phase_declared_output_keys docs) x) ≡ true
      → has k doc.ast.allow_sequential_overwrite ≡ true
  unfolding validate_sequential_overwrites get
  allowed x y k doc q g ha hy hx =
      elim (all_overwrites_empty (phase_ancestor_sets refs) (phase_declared_output_keys docs) docs
        [] doc y x k q g) [ inl e ↦ absurd (ground arith) | inr h ↦ h ha hy hx ]

  -- Where neither check reports anything and two different phases of the graph both declare an
  -- output field, one of them is upstream of the other, which lists the field in
  -- allow_sequential_overwrite.
  pub validators-ordered :
      (x y k : String) (first second : PhaseDocument)
      → validate_parallel_writers refs docs ≡ []
      → validate_sequential_overwrites refs docs ≡ []
      → x ≢ y
      → has x (map (λ ref. ref.name) refs) ≡ true
      → has y (map (λ ref. ref.name) refs) ≡ true
      → get (docs_by_name docs) x ≡ some first
      → get (docs_by_name docs) y ≡ some second
      → has k (output_keys first) ≡ true
      → has k (output_keys second) ≡ true
      → (Upstream refs y x × (has k second.ast.allow_sequential_overwrite ≡ true))
        ⊎ (Upstream refs x y × (has k first.ast.allow_sequential_overwrite ≡ true))
  unfolding validate_parallel_writers
  validators-ordered x y k first second p q n hx hy fx fy kx ky =
      let ancestors = phase_ancestor_sets refs in
      let keys = phase_declared_output_keys docs in
      let conflicts = pair_conflicts ancestors keys (docs_by_name docs) in
      let key_x : has k (entries keys x) ≡ true = ap (has k) (declared_keys docs first x fx) ∙ kx in
      let key_y : has k (entries keys y) ≡ true =
        ap (has k) (declared_keys docs second y fy) ∙ ky in
      let ordered : (has x (entries ancestors y) || has y (entries ancestors x)) ≡ true =
        elim (all_conflicts_empty conflicts x y (map (λ ref. ref.name) refs) p n hx hy) [
          | inl e ↦ pair_ordered ancestors keys (docs_by_name docs) x y k second e fy key_x key_y
          | inr e ↦
              ground (
                arith,
                pair_ordered ancestors keys (docs_by_name docs) y x k first e fx key_y key_x,
              )
        ] in
      elim (Bool-cases (has x (entries ancestors y))) [
        | inl h ↦ inl (Upstream-ancestors refs y x h, allowed x y k second q fy h key_y key_x)
        | inr h ↦
            let other : has y (entries ancestors x) ≡ true = ground arith in
            inr (Upstream-ancestors refs x y other, allowed y x k first q fx other key_x key_y)
      ]
