-- ===== src/Topology/Order/Ranked.antt =====
-- The order that is computed: each phase at most once, after its predecessors, and every phase
-- where the graph has no cycle.
use graph_skill_runtime.Common.{
  ℕ, zero, suc, ◌+◌, ◌-◌, ◌≤◌, ◌<◌, String, true, false, ◌&&◌, ◌||◌, List, [], ◌∷◌, ◌++◌, ◌≡◌, refl,
  sym, ◌∙◌, ap, arith, eq_iff, eq_refl, if◌then◌else◌, or_else, nat_eq, Bool-cases, inl, inr,
  length,
}
use graph_skill_runtime.Common.Dict.{Dict, get, get-put}
use graph_skill_runtime.Common.Lists.{List-cases}
use graph_skill_runtime.Common.Names.{has, has-append, entries}
use graph_skill_runtime.Topology.{keys, from_keys}
use graph_skill_runtime.Topology.Edges.{get-from_keys}
use graph_skill_runtime.Topology.Cycles.Acyclic.{Ranks, has-entries}
use graph_skill_runtime.Topology.Order.{
  Kahn, degree, raise_graph, lower, lower_all, drain, start_order, topological_order,
}
use graph_skill_runtime.Topology.Order.Counts.{
  count, count-append, has-count, count-keep, inflow, degree-raise_graph, inflow_zero, inflow_pays,
  inflow_positive, unplaced, unplaced_bound, unplaced_pays,
}

-- Each name stands after all its predecessors, which are in `seen` or before it.
unfoldable pub Follows : Dict (List String) → List String → List String → Type 0
unfolding has
Follows adj seen [] = Unit
Follows adj seen (x ∷ xs) =
    ((z : String) → has x (entries adj z) ≡ true → has z seen ≡ true)
    × Follows adj (seen ++ x ∷ []) xs

Follows-snoc :
    (adj : Dict (List String)) (seen xs : List String) (x : String)
    → Follows adj seen xs
    → ((z : String) → has x (entries adj z) ≡ true → (has z seen || has z xs) ≡ true)
    → Follows adj seen (xs ++ x ∷ [])
unfolding Follows has
Follows-snoc adj seen [] x f h = (λ z e. ground (arith, h z e), tt)
Follows-snoc adj seen (y ∷ ys) x f h = (
  f.0,
  Follows-snoc adj (seen ++ y ∷ []) ys x f.1
      (λ z e. ground (arith, h z e, has-append z seen (y ∷ []))),
)

-- Between two rounds of the inner loop, with `rest` still to be lowered.
record IsKahn (adj : Dict (List String)) (phases rest : List String) (s : Kahn) : Type 0 where
  degrees : (y : String) → degree s.indegree y ≡ count y rest + inflow y adj s.order
  placed :
      (y : String)
      → count y s.order + count y s.queue
        ≡ (if has y phases && nat_eq (degree s.indegree y) 0 then 1 else 0)
  follows : Follows adj [] s.order

-- Every phase once, each after all that it depends on.
pub record IsOrder (adj : Dict (List String)) (phases order : List String) : Type 0 where
  pub once : (y : String) → count y order ≡ (if has y phases then 1 else 0)
  pub follows : Follows adj [] order

module _ (adj : Dict (List String)) (phases : List String)
    (unique : (k : String) → count k (keys adj) ≤ 1) (once : (k : String) → count k phases ≤ 1)
    (known : (k : String) → has k (keys adj) ≡ has k phases)
    (closed : (x y : String) → has y (entries adj x) ≡ true → has y phases ≡ true) where
  IsKahn-lower :
      (n : String) (rest : List String) (s : Kahn)
      → has n phases ≡ true
      → IsKahn adj phases (n ∷ rest) s
      → IsKahn adj phases rest (lower n s)
  unfolding lower count degree
  IsKahn-lower n rest s m h = record {
    degrees = λ y. ground (
      arith,
      h.degrees y,
      h.degrees n,
      eq_iff n y,
      get-put s.indegree n y (or_else 0 (get s.indegree n) - 1),
    );
    placed = λ y. ground (
      arith,
      h.degrees y,
      h.degrees n,
      h.placed y,
      h.placed n,
      eq_iff n y,
      eq_refl n,
      count-append y s.queue (n ∷ []),
      get-put s.indegree n y (or_else 0 (get s.indegree n) - 1),
    );
    follows = h.follows;
  }

  IsKahn-lower_all :
      (ns : List String) (s : Kahn)
      → ((y : String) → has y ns ≡ true → has y phases ≡ true)
      → IsKahn adj phases ns s
      → IsKahn adj phases [] (lower_all ns s)
  unfolding lower_all has
  IsKahn-lower_all [] s m h = h
  IsKahn-lower_all (n ∷ ns) s m h =
      IsKahn-lower_all ns (lower n s) (λ y i. m y (ground arith))
        (IsKahn-lower n ns s (m n (ground (arith, eq_refl n))) h)

  order-lower_all : (ns : List String) (s : Kahn) → (lower_all ns s).order ≡ s.order
  unfolding lower_all lower
  order-lower_all [] s = refl
  order-lower_all (n ∷ ns) s = order-lower_all ns (lower n s)

  module _ (s : Kahn) (x : String) (rest : List String) (q : s.queue ≡ x ∷ rest)
      (h : IsKahn adj phases [] s) where
    abbrev popped : Kahn
    popped = record s { queue = rest; order = s.order ++ x ∷ [] }

    -- What stands in the queue is a phase that is not placed and has no edges left.
    queue_head : (has x phases ≡ true) × (has x s.order ≡ false) × (inflow x adj s.order ≡ 0)
    unfolding count
    queue_head =
        let two : count x s.order + count x (x ∷ rest)
            ≡ (if has x phases && nat_eq (degree s.indegree x) 0 then 1 else 0) =
          ap (λ u. count x s.order + count x u) (sym q) ∙ h.placed x in
        ground (arith, two, h.degrees x, has-count x s.order, eq_refl x)

    IsKahn-pop : IsKahn adj phases (entries adj x) popped
    unfolding count has
    IsKahn-pop =
        let (m, n, z) = queue_head in
        record {
          degrees = λ y. omega (arith, h.degrees y, inflow_pays adj s.order x y unique n);
          placed = λ y.
              let split : count y s.order + count y (x ∷ rest)
                  ≡ (if has y phases && nat_eq (degree s.indegree y) 0 then 1 else 0) =
                ap (λ u. count y s.order + count y u) (sym q) ∙ h.placed y in
              ground (arith, split, count-append y s.order (x ∷ []));
          follows =
              Follows-snoc adj [] s.order x h.follows (λ v e. inflow_zero adj s.order x v z e);
        }

  drain-IsKahn :
      (fuel : ℕ) (s : Kahn)
      → unplaced phases s.order ≤ fuel
      → IsKahn adj phases [] s
      → IsKahn adj phases [] (drain adj fuel s) × ((drain adj fuel s).queue ≡ [])
  unfolding drain
  drain-IsKahn zero s b h = elim (List-cases s.queue) [
    | inl e ↦ (h, e)
    | inr (x, rest, e) ↦
        let (m, n, z) = queue_head s x rest e h in
        absurd (omega (arith, unplaced_pays phases s.order x m n))
  ]
  drain-IsKahn (suc fuel) s b h = elim (List-cases s.queue) [
    | inl e ↦ rw (e, drain) (h, e)
    | inr (x, rest, e) ↦
        let (m, n, z) = queue_head s x rest e h in
        let t = lower_all (entries adj x) (popped s x rest e h) in
        let less = unplaced_pays phases s.order x m n in
        let same = order-lower_all (entries adj x) (popped s x rest e h) in
        let next =
          IsKahn-lower_all (entries adj x) (popped s x rest e h) (closed x)
            (IsKahn-pop s x rest e h) in
        rw (e, drain) (drain-IsKahn fuel t (omega (arith, ap (unplaced phases) same)) next)
  ]

  IsKahn-start : IsKahn adj phases [] (start_order adj phases)
  unfolding start_order count Follows has get degree
  IsKahn-start =
      let zeros = from_keys 0 phases [] in
      let indegree = raise_graph adj zeros in
      record {
        degrees = λ y.
            ground (arith, degree-raise_graph adj zeros y, get-from_keys {A = ℕ} 0 phases [] y);
        placed = λ y. ground (
          arith,
          count-keep (λ p. nat_eq (degree indegree p) 0) y phases,
          once y,
          has-count y phases,
        );
        follows = tt;
      }

  -- By induction on a bound of the number.
  all_placed :
      (rank : String → ℕ)
      → Ranks adj rank
      → (s : Kahn) → IsKahn adj phases [] s
      → s.queue ≡ []
      → (n : ℕ) (y : String) → rank y < n
      → has y phases ≡ true
      → has y s.order ≡ true
  unfolding count
  all_placed rank rises s h q zero y b m = absurd (omega arith)
  all_placed rank rises s h q (suc n) y b m =
      let only : count y s.order + 0
          ≡ (if has y phases && nat_eq (degree s.indegree y) 0 then 1 else 0) =
        ap (λ u. count y s.order + count y u) (sym q) ∙ h.placed y in
      elim (Bool-cases (nat_eq (inflow y adj s.order) 0)) [
        | inl e ↦ ground (arith, only, h.degrees y, has-count y s.order)
        | inr e ↦
            let (z, edge, out) = inflow_positive adj s.order y unique (ground arith) in
            let there =
              all_placed rank rises s h q n z (omega (arith, rises z y edge))
                (sym (known z) ∙ has-entries adj z y edge) in
            absurd (ground arith)
      ]

  pub topological_order-IsOrder :
      (rank : String → ℕ) → Ranks adj rank → IsOrder adj phases (topological_order adj phases)
  unfolding topological_order start_order count
  topological_order-IsOrder rank rises =
      let s = drain adj (length phases) (start_order adj phases) in
      let (h, q) =
        drain-IsKahn (length phases) (start_order adj phases)
          (omega (arith, unplaced_bound phases [])) IsKahn-start in
      record {
        once = λ y.
            let only : count y s.order + 0
                ≡ (if has y phases && nat_eq (degree s.indegree y) 0 then 1 else 0) =
              ap (λ u. count y s.order + count y u) (sym q) ∙ h.placed y in
            ground (
              arith,
              only,
              has-count y s.order,
              all_placed rank rises s h q (suc (rank y)) y (omega arith),
            );
        follows = h.follows;
      }
