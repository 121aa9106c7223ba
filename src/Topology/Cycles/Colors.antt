-- ===== src/Topology/Cycles/Colors.antt =====
-- What the search for cycles does to the colours, and that a search without a diagnostic has
-- finished the phases in an order that no edge goes against.
use graph_skill_runtime.Common.{
  ℕ, zero, suc, String, Bool, true, false, Option, none, some, List, [], ◌∷◌, ◌≡◌, refl, sym, ◌∙◌,
  arith, eq_iff, is_some, Option-cases, ◌⊎◌, inl, inr, snoc_ne,
}
use mathlib.Core.Path.{subst}
use graph_skill_runtime.Common.Dict.{Dict, get, get-put}
use graph_skill_runtime.Common.Names.{entries}
use graph_skill_runtime.Topology.Cycles.{
  Color, gray, black, Search, enter, leave, report, visit_all, visit, visit_roots,
}

abbrev pub is_gray : Option Color → Bool
is_gray (some gray) = true
is_gray _ = false

abbrev pub is_black : Option Color → Bool
is_black (some black) = true
is_black _ = false

pub color_cases : (o : Option Color) → (o ≡ none) ⊎ ((o ≡ some gray) ⊎ (o ≡ some black))
color_cases none = inl refl
color_cases (some gray) = inr (inl refl)
color_cases (some black) = inr (inr refl)

pub gray_not_black : (o : Option Color) → is_gray o ≡ true → is_black o ≡ false
gray_not_black none h = refl
gray_not_black (some gray) h = refl
gray_not_black (some black) h = ground arith

-- What a search does from s to t: names stay known, diagnostics stay, and what is on the stack is
-- what was.
pub record Grows (s t : Search) : Type 0 where
  pub known : (y : String) → is_some (get s.state y) ≡ true → is_some (get t.state y) ≡ true
  pub quiet : t.diags ≡ [] → s.diags ≡ []
  pub nodes : t.diags ≡ [] → t.cycle_nodes ≡ s.cycle_nodes
  pub on_stack : (y : String) → is_gray (get t.state y) ≡ is_gray (get s.state y)

pub Grows-refl : (s : Search) → Grows s s
Grows-refl s = record { known = λ y h. h; quiet = λ h. h; nodes = λ h. refl; on_stack = λ y. refl }

pub Grows-trans : (s t u : Search) → Grows s t → Grows t u → Grows s u
Grows-trans s t u g h = record {
  known = λ y k. h.known y (g.known y k);
  quiet = λ e. g.quiet (h.quiet e);
  nodes = λ e. h.nodes e ∙ g.nodes (h.quiet e);
  on_stack = λ y. h.on_stack y ∙ g.on_stack y;
}

module _ (line_of : String → ℕ) (adjacency : Dict (List String)) where
  Grows-report : (n : String) (s : Search) → Grows s (report line_of adjacency n s)
  unfolding report
  Grows-report n s = record {
    known = λ y h. h;
    quiet = λ h. absurd (snoc_ne s.diags _ h);
    nodes = λ h. absurd (snoc_ne s.diags _ h);
    on_stack = λ y. refl;
  }

  -- Between `enter` and `leave` of a white phase.
  pub Grows-around :
      (n : String) (s t : Search) → get s.state n ≡ none → Grows (enter n s) t → Grows s (leave n t)
  unfolding enter leave
  Grows-around n s t w g = record {
    known = λ y h.
        ground (arith, get-put t.state n y black, get-put s.state n y gray, g.known y, eq_iff n y);
    quiet = g.quiet;
    nodes = g.nodes;
    on_stack = λ y.
        ground
          (arith, get-put t.state n y black, get-put s.state n y gray, g.on_stack y, eq_iff n y);
  }

  pub Grows-visit_all :
      (fuel : ℕ) (ns : List String) (s : Search) → Grows s (visit_all line_of adjacency fuel ns s)
  unfolding visit_all
  Grows-visit_all fuel [] s = Grows-refl s
  Grows-visit_all zero (n ∷ ns) s = Grows-refl s
  Grows-visit_all (suc fuel) (n ∷ ns) s = elim (color_cases (get s.state n)) [
    | inl w ↦
        let inner = visit_all line_of adjacency fuel (entries adjacency n) (enter n s) in
        let around =
          Grows-around n s inner w (Grows-visit_all fuel (entries adjacency n) (enter n s)) in
        rw (w, visit_all)
          (Grows-trans s (leave n inner) _ around (Grows-visit_all (suc fuel) ns (leave n inner)))
    | inr (inl g) ↦
        let found = report line_of adjacency n s in
        rw (g, visit_all)
          (Grows-trans s found _ (Grows-report n s) (Grows-visit_all (suc fuel) ns found))
    | inr (inr b) ↦ rw (b, visit_all) (Grows-visit_all (suc fuel) ns s)
  ]

  -- A white phase is visited as the loop over it alone would do.
  pub visit_alone :
      (fuel : ℕ) (n : String) (s : Search)
      → get s.state n ≡ none
      → visit line_of adjacency fuel n s ≡ visit_all line_of adjacency (suc fuel) (n ∷ []) s
  unfolding visit visit_all
  visit_alone fuel n s w = rw (w, visit_all) refl

  pub Grows-visit_roots :
      (fuel : ℕ) (ns : List String) (s : Search) → Grows s (visit_roots line_of adjacency fuel ns s)
  unfolding visit_roots
  Grows-visit_roots fuel [] s = Grows-refl s
  Grows-visit_roots fuel (n ∷ ns) s = elim (Option-cases (get s.state n)) [
    | inl w ↦
        let t = visit line_of adjacency fuel n s in
        let first : Grows s t =
          subst (Grows s) (sym (visit_alone fuel n s w)) (Grows-visit_all (suc fuel) (n ∷ []) s) in
        rw (w, visit_roots) (Grows-trans s t _ first (Grows-visit_roots fuel ns t))
    | inr (c, e) ↦ rw (e, visit_roots) (Grows-visit_roots fuel ns s)
  ]
