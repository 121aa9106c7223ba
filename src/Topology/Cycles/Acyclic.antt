-- ===== src/Topology/Cycles/Acyclic.antt =====
-- The search for cycles reports none exactly where the phases can be numbered along the edges.
use graph_skill_runtime.Common.{
  ℕ, zero, suc, ◌<◌, String, true, false, List, [], ◌∷◌, ◌≡◌, refl, sym, ◌∙◌, ap, arith, ◌==◌,
  eq_iff, eq_refl, if◌then◌else◌, Option-cases, Bool-cases, ◌↔◌, inl, inr, length, same_of_eq,
}
use mathlib.Core.Path.{subst}
use graph_skill_runtime.Common.Dict.{Dict, get, get-put}
use graph_skill_runtime.Common.Names.{has, entries}
use graph_skill_runtime.Topology.{keys}
use graph_skill_runtime.Topology.Edges.{has-keys}
use graph_skill_runtime.Topology.Cycles.{
  gray, Search, enter, leave, visit_all, visit_roots, validate_acyclic_graph,
}
use graph_skill_runtime.Topology.Cycles.Colors.{
  is_gray, color_cases, Grows-visit_all, Grows-around, visit_alone,
}
use graph_skill_runtime.Topology.Cycles.Finished.{white_bound, Finished, IsClean, visit_roots-Clean}

-- The place of a name in a list.
unfoldable pub place : String → List String → ℕ
place y [] = 0
place y (x ∷ xs) = if x == y then 0 else suc (place y xs)

-- The numbers rise along the edges.
abbrev pub Ranks : Dict (List String) → (String → ℕ) → Type 0
Ranks adjacency rank = (x y : String) → has y (entries adjacency x) ≡ true → rank x < rank y

Finished-has :
    (adjacency : Dict (List String)) (fin : List String) (x y : String)
    → Finished adjacency fin
    → has x fin ≡ true
    → has y (entries adjacency x) ≡ true
    → has y fin ≡ true
unfolding has Finished
Finished-has adjacency [] x y f h e = absurd (ground arith)
Finished-has adjacency (z ∷ zs) x y f h e = elim (Bool-cases (z == x)) [
  | inl s ↦
      let same : z ≡ x = ground (arith, eq_iff z x) in
      ground (arith, f.1 y (subst (λ u. has y (entries adjacency u) ≡ true) (sym same) e))
  | inr s ↦ ground (arith, Finished-has adjacency zs x y f.2 (ground arith) e)
]

place-rises :
    (adjacency : Dict (List String)) (fin : List String) (x y : String)
    → Finished adjacency fin
    → has x fin ≡ true
    → has y (entries adjacency x) ≡ true
    → place x fin < place y fin
unfolding has Finished place
place-rises adjacency [] x y f h e = absurd (ground arith)
place-rises adjacency (z ∷ zs) x y f h e = elim (Bool-cases (z == x)) [
  | inl s ↦
      let same : z ≡ x = ground (arith, eq_iff z x) in
      let later : has y zs ≡ true =
        f.1 y (subst (λ u. has y (entries adjacency u) ≡ true) (sym same) e) in
      ground (arith, eq_iff z y, f.0, ap (λ u. has u zs))
  | inr s ↦
      let there : has x zs ≡ true = ground arith in
      let later = Finished-has adjacency zs x y f.2 there e in
      ground (arith, eq_iff z y, f.0, place-rises adjacency zs x y f.2 there e, ap (λ u. has u zs))
]

-- The graph has no cycle: its names can be numbered along the edges.
abbrev pub IsAcyclic : Dict (List String) → Type 0
IsAcyclic adjacency = (rank : String → ℕ) × Ranks adjacency rank

-- The successors are keys too.
abbrev pub IsClosed : Dict (List String) → Type 0
IsClosed adjacency =
    (x y : String) → has y (entries adjacency x) ≡ true → has y (keys adjacency) ≡ true

pub has-entries :
    (d : Dict (List String)) (x y : String) → has y (entries d x) ≡ true → has x (keys d) ≡ true
unfolding has
has-entries d x y h = ground (arith, has-keys d x)

module _ (line_of : String → ℕ) (adjacency : Dict (List String)) where
  IsAcyclic-of_quiet :
      IsClosed adjacency
      → (validate_acyclic_graph line_of adjacency).diags ≡ []
      → IsAcyclic adjacency
  unfolding validate_acyclic_graph has Finished get
  IsAcyclic-of_quiet closed q =
      let names = keys adjacency in
      let blank : Search = record { state = []; stack = []; cycle_nodes = []; diags = [] } in
      let clean : IsClean adjacency blank [] = record { colors = λ y. refl; finished = tt } in
      let fin =
        visit_roots-Clean line_of adjacency closed (suc (length names)) names blank []
          (omega (arith, white_bound names [])) (λ y. refl) (λ y m. m) clean q in
      (
        λ x. place x fin.all,
        λ x y e.
            place-rises adjacency fin.all x y fin.clean.finished
              (fin.covers x (has-entries adjacency x y e)) e,
      )

  module _ (rank : String → ℕ) (rises : Ranks adjacency rank) where
    visit_all-quiet :
        (fuel : ℕ) (ns : List String) (s : Search)
        → s.diags ≡ []
        → ((y m : String) → is_gray (get s.state y) ≡ true → has m ns ≡ true → rank y < rank m)
        → (visit_all line_of adjacency fuel ns s).diags ≡ []
    unfolding visit_all has enter leave
    visit_all-quiet fuel [] s q r = q
    visit_all-quiet zero (n ∷ ns) s q r = q
    visit_all-quiet (suc fuel) (n ∷ ns) s q r = elim (color_cases (get s.state n)) [
      | inl w ↦
          let s1 = enter n s in
          let s2 = visit_all line_of adjacency fuel (entries adjacency n) s1 in
          let grows = Grows-visit_all line_of adjacency fuel (entries adjacency n) s1 in
          let around = Grows-around line_of adjacency n s s2 w grows in
          let above : (y m : String)
              → is_gray (get s1.state y) ≡ true
              → has m (entries adjacency n) ≡ true
              → rank y < rank m =
            λ y m g h. elim (Bool-cases (n == y)) [
              | inl e ↦ omega (arith, rises n m h, ap rank (same_of_eq n y e))
              | inr e ↦
                  let old : rank y < rank n =
                    r y n (ground (arith, get-put s.state n y gray)) (ground (arith, eq_refl n)) in
                  omega (arith, rises n m h)
            ] in
          let inner = visit_all-quiet fuel (entries adjacency n) s1 q above in
          rw (w, visit_all)
            (visit_all-quiet (suc fuel) ns (leave n s2) inner
              (λ y m g h. r y m (sym (around.on_stack y) ∙ g) (ground arith)))
      | inr (inl g) ↦ absurd (omega (arith, r n n (ap is_gray g) (ground (arith, eq_refl n))))
      | inr (inr e) ↦
          rw (e, visit_all) (visit_all-quiet (suc fuel) ns s q (λ y m g h. r y m g (ground arith)))
    ]

    visit_roots-quiet :
        (fuel : ℕ) (ns : List String) (s : Search)
        → s.diags ≡ []
        → ((y : String) → is_gray (get s.state y) ≡ false)
        → (visit_roots line_of adjacency fuel ns s).diags ≡ []
    unfolding visit_roots
    visit_roots-quiet fuel [] s q g = q
    visit_roots-quiet fuel (n ∷ ns) s q g = elim (Option-cases (get s.state n)) [
      | inl w ↦
          let t = visit_all line_of adjacency (suc fuel) (n ∷ []) s in
          let grows = Grows-visit_all line_of adjacency (suc fuel) (n ∷ []) s in
          let first =
            visit_all-quiet (suc fuel) (n ∷ []) s q (λ y m h i. absurd (ground (arith, g y))) in
          rw (w, visit_roots, visit_alone line_of adjacency fuel n s w)
            (visit_roots-quiet fuel ns t first (λ y. grows.on_stack y ∙ g y))
      | inr (c, e) ↦ rw (e, visit_roots) (visit_roots-quiet fuel ns s q g)
    ]

  -- Where every successor is a phase, the search reports no cycle exactly if the phases can be
  -- numbered so that each has a smaller number than its successors.
  pub validate_acyclic_graph_lem :
      IsClosed adjacency
      → ((validate_acyclic_graph line_of adjacency).diags ≡ []) ↔ IsAcyclic adjacency
  unfolding validate_acyclic_graph get
  validate_acyclic_graph_lem closed = (
    IsAcyclic-of_quiet closed,
    λ (rank, rises).
        visit_roots-quiet rank rises (suc (length (keys adjacency))) (keys adjacency)
          (record { state = []; stack = []; cycle_nodes = []; diags = [] }) refl (λ y. refl),
  )
