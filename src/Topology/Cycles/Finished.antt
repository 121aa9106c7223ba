-- ===== src/Topology/Cycles/Finished.antt =====
-- A search for cycles without a diagnostic has finished the phases in an order that no edge goes
-- against.
use graph_skill_runtime.Common.{
  ℕ, zero, suc, ◌+◌, ◌≤◌, ◌<◌, String, true, false, none, List, [], ◌∷◌, ◌≡◌, sym, ◌∙◌, ap, arith,
  ◌==◌, eq_iff, eq_refl, if◌then◌else◌, is_some, Bool-cases, inl, inr, length, snoc_ne,
}
use mathlib.Core.Path.{subst}
use graph_skill_runtime.Common.Dict.{Dict, get, put, get-put}
use graph_skill_runtime.Common.Names.{has, entries}
use graph_skill_runtime.Topology.{keys}
use graph_skill_runtime.Topology.Cycles.{
  Color, gray, black, Search, enter, leave, report, visit_all, visit_roots,
}
use graph_skill_runtime.Topology.Cycles.Colors.{
  is_gray, is_black, color_cases, gray_not_black, Grows-visit_all, Grows-around, Grows-visit_roots,
  visit_alone,
}

-- The names that the search does not know yet.
unfoldable pub white : List String → Dict Color → ℕ
white [] st = 0
white (k ∷ ks) st = (if is_some (get st k) then 0 else 1) + white ks st

white_falls :
    (ks : List String) (st st' : Dict Color)
    → ((y : String) → is_some (get st y) ≡ true → is_some (get st' y) ≡ true)
    → white ks st' ≤ white ks st
unfolding white
white_falls [] st st' h = omega arith
white_falls (k ∷ ks) st st' h = ground (arith, h k, white_falls ks st st' h)

pub white_bound : (ks : List String) (st : Dict Color) → white ks st ≤ length ks
unfolding white
white_bound [] st = omega arith
white_bound (k ∷ ks) st = ground (arith, white_bound ks st)

white-put :
    (ks : List String) (st : Dict Color) (x : String) (c : Color)
    → get st x ≡ none
    → has x ks ≡ true
    → white ks (put st x c) < white ks st
unfolding white has
white-put [] st x c w h = absurd (ground arith)
white-put (k ∷ ks) st x c w h =
    let keeps : white ks (put st x c) ≤ white ks st =
      white_falls ks st (put st x c) (λ y m. ground (arith, get-put st x y c)) in
    elim (Bool-cases (k == x)) [
      | inl e ↦
          let same : k ≡ x = ground (arith, eq_iff k x) in
          ground (arith, get-put st x k c, eq_refl k, eq_iff x k, ap (get st) same)
      | inr e ↦
          ground
            (arith, get-put st x k c, eq_iff x k, eq_iff k x, white-put ks st x c w (ground arith))
    ]

-- Phases in the reverse of the order in which they were finished, each after none of its
-- successors.
unfoldable pub Finished : Dict (List String) → List String → Type 0
Finished adjacency [] = Unit
Finished adjacency (x ∷ xs) =
    (has x xs ≡ false)
    × ((y : String) → has y (entries adjacency x) ≡ true → has y xs ≡ true)
    × Finished adjacency xs

pub record IsClean (adjacency : Dict (List String)) (s : Search) (fin : List String) : Type 0 where
  pub colors : (y : String) → has y fin ≡ is_black (get s.state y)
  pub finished : Finished adjacency fin

-- From fin to a longer list that has `ns` too.
pub record Reaches (adjacency : Dict (List String)) (t : Search) (fin ns : List String)
    : Type 0 where
  pub all : List String
  pub clean : IsClean adjacency t all
  pub keeps : (y : String) → has y fin ≡ true → has y all ≡ true
  pub covers : (y : String) → has y ns ≡ true → has y all ≡ true

module _ (line_of : String → ℕ) (adjacency : Dict (List String)) where
  abbrev search : ℕ → List String → Search → Search
  search = visit_all line_of adjacency

  Reaches-leave :
      (n : String) (s t : Search) (fin : List String)
      → is_gray (get t.state n) ≡ true
      → Reaches adjacency t fin (entries adjacency n)
      → Reaches adjacency (leave n t) fin (n ∷ [])
  unfolding leave has Finished
  Reaches-leave n s t fin g h = record {
    all = n ∷ h.all;
    clean = record {
      colors = λ y. ground (arith, get-put t.state n y black, h.clean.colors y, eq_iff n y);
      finished = (h.clean.colors n ∙ gray_not_black (get t.state n) g, h.covers, h.clean.finished);
    };
    keeps = λ y m. ground (arith, h.keeps y m);
    covers = λ y m. ground arith;
  }

  IsClean-enter :
      (n : String) (s : Search) (fin : List String)
      → get s.state n ≡ none
      → IsClean adjacency s fin
      → IsClean adjacency (enter n s) fin
  unfolding enter
  IsClean-enter n s fin w c = record {
    colors = λ y. ground (arith, get-put s.state n y gray, c.colors y, eq_iff n y);
    finished = c.finished;
  }

  Reaches-known :
      (n : String) (ns : List String) (t : Search) (fin : List String)
      → has n fin ≡ true
      → Reaches adjacency t fin ns
      → Reaches adjacency t fin (n ∷ ns)
  unfolding has
  Reaches-known n ns t fin m h = record {
    all = h.all;
    clean = h.clean;
    keeps = h.keeps;
    covers = λ y i. ground (arith, eq_iff n y, h.keeps y, h.covers y);
  }

  Reaches-cons :
      (n : String) (ns : List String) (s t : Search) (fin : List String)
      (h : Reaches adjacency s fin (n ∷ []))
      → Reaches adjacency t h.all ns
      → Reaches adjacency t fin (n ∷ ns)
  unfolding has
  Reaches-cons n ns s t fin h k = record {
    all = k.all;
    clean = k.clean;
    keeps = λ y m. k.keeps y (h.keeps y m);
    covers = λ y m. elim (Bool-cases (n == y)) [
      | inl e ↦ k.keeps y (h.covers y (ground arith))
      | inr e ↦ k.covers y (ground arith)
    ];
  }

  module _
      (closed : (x y : String)
        → has y (entries adjacency x) ≡ true
        → has y (keys adjacency) ≡ true) where
    visit_all-Clean :
        (fuel : ℕ) (ns : List String) (s : Search) (fin : List String)
        → white (keys adjacency) s.state < fuel
        → ((y : String) → has y ns ≡ true → has y (keys adjacency) ≡ true)
        → IsClean adjacency s fin
        → (search fuel ns s).diags ≡ []
        → Reaches adjacency (search fuel ns s) fin ns
    unfolding visit_all has enter leave report
    visit_all-Clean fuel [] s fin n k c q = record {
      all = fin;
      clean = c;
      keeps = λ y m. m;
      covers = λ y m. absurd (ground arith);
    }
    visit_all-Clean zero (n ∷ ns) s fin b k c q = absurd (omega arith)
    visit_all-Clean (suc fuel) (n ∷ ns) s fin b k c q = elim (color_cases (get s.state n)) [
      | inl w ↦
          let s1 = enter n s in
          let s2 = search fuel (entries adjacency n) s1 in
          let s3 = leave n s2 in
          let grows = Grows-visit_all line_of adjacency fuel (entries adjacency n) s1 in
          let around = Grows-around line_of adjacency n s s2 w grows in
          let ends : (search (suc fuel) ns s3).diags ≡ [] = rw (w, visit_all) at q in
          let quiet = (Grows-visit_all line_of adjacency (suc fuel) ns s3).quiet ends in
          let at_n : is_gray (get s2.state n) ≡ true =
            ground (arith, grows.on_stack n, get-put s.state n n gray, eq_refl n) in
          let inner =
            visit_all-Clean fuel (entries adjacency n) s1 fin
              (omega (
                arith,
                white-put (keys adjacency) s.state n gray w (k n (ground (arith, eq_refl n))),
              ))
              (closed n) (IsClean-enter n s fin w c) quiet in
          let first = Reaches-leave n s s2 fin at_n inner in
          let falls = white_falls (keys adjacency) s.state s3.state around.known in
          let later =
            visit_all-Clean (suc fuel) ns s3 first.all (omega (arith, falls))
              (λ y m. k y (ground arith)) first.clean ends in
          rw (w, visit_all) (Reaches-cons n ns s3 (search (suc fuel) ns s3) fin first later)
      | inr (inl g) ↦
          let found = report line_of adjacency n s in
          let ends : (search (suc fuel) ns found).diags ≡ [] = rw (g, visit_all) at q in
          let quiet = (Grows-visit_all line_of adjacency (suc fuel) ns found).quiet ends in
          absurd (snoc_ne s.diags _ quiet)
      | inr (inr e) ↦
          let ends : (search (suc fuel) ns s).diags ≡ [] = rw (e, visit_all) at q in
          let later = visit_all-Clean (suc fuel) ns s fin b (λ y m. k y (ground arith)) c ends in
          rw (e, visit_all)
            (Reaches-known n ns (search (suc fuel) ns s) fin (c.colors n ∙ ap is_black e) later)
    ]

    pub visit_roots-Clean :
        (fuel : ℕ) (ns : List String) (s : Search) (fin : List String)
        → white (keys adjacency) s.state < suc fuel
        → ((y : String) → is_gray (get s.state y) ≡ false)
        → ((y : String) → has y ns ≡ true → has y (keys adjacency) ≡ true)
        → IsClean adjacency s fin
        → (visit_roots line_of adjacency fuel ns s).diags ≡ []
        → Reaches adjacency (visit_roots line_of adjacency fuel ns s) fin ns
    unfolding visit_roots has
    visit_roots-Clean fuel [] s fin b g k c q = record {
      all = fin;
      clean = c;
      keeps = λ y m. m;
      covers = λ y m. absurd (ground arith);
    }
    visit_roots-Clean fuel (n ∷ ns) s fin b g k c q = elim (color_cases (get s.state n)) [
      | inl w ↦
          let t = search (suc fuel) (n ∷ []) s in
          let is_t = visit_alone line_of adjacency fuel n s w in
          let steps : visit_roots line_of adjacency fuel (n ∷ ns) s
              ≡ visit_roots line_of adjacency fuel ns t =
            rw (w, visit_roots) (ap (visit_roots line_of adjacency fuel ns) is_t) in
          let ends : (visit_roots line_of adjacency fuel ns t).diags ≡ [] =
            ap (λ u. u.diags) (sym steps) ∙ q in
          let grows = Grows-visit_all line_of adjacency (suc fuel) (n ∷ []) s in
          let first =
            visit_all-Clean (suc fuel) (n ∷ []) s fin b (λ y m. k y (ground arith)) c
              ((Grows-visit_roots line_of adjacency fuel ns t).quiet ends) in
          let falls = white_falls (keys adjacency) s.state t.state grows.known in
          let later =
            visit_roots-Clean fuel ns t first.all (omega (arith, falls))
              (λ y. grows.on_stack y ∙ g y) (λ y m. k y (ground arith)) first.clean ends in
          subst (λ u. Reaches adjacency u fin (n ∷ ns)) (sym steps)
            (Reaches-cons n ns t _ fin first later)
      | inr (inl e) ↦ absurd (ground (arith, g n, e))
      | inr (inr e) ↦
          let ends : (visit_roots line_of adjacency fuel ns s).diags ≡ [] =
            rw (e, visit_roots) at q in
          let later = visit_roots-Clean fuel ns s fin b g (λ y m. k y (ground arith)) c ends in
          rw (e, visit_roots) (Reaches-known n ns _ fin (c.colors n ∙ ap is_black e) later)
    ]
