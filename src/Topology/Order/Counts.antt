-- ===== src/Topology/Order/Counts.antt =====
-- Counts of names, and of the edges that come from phases that are not placed yet.
use graph_skill_runtime.Common.{
  ℕ, suc, ◌+◌, ◌≤◌, ◌<◌, String, Bool, true, false, not, ◌&&◌, List, [], ◌∷◌, ◌++◌, ◌≡◌, refl, ap,
  arith, ◌==◌, eq_iff, eq_refl, if◌then◌else◌, or_else, nat_eq, Bool-cases, inl, inr, length, keep,
  same_of_eq, Absent, Unique,
}
use graph_skill_runtime.Common.Dict.{Dict, get, put, get-put}
use graph_skill_runtime.Common.Names.{has, has-append, add, add_all, entries}
use graph_skill_runtime.Topology.{keys}
use graph_skill_runtime.Topology.Edges.{has-keys}
use graph_skill_runtime.Topology.Order.{degree, raise_all, raise_graph}

-- xs.count(y)
unfoldable pub count : String → List String → ℕ
count y [] = 0
count y (x ∷ xs) = (if x == y then 1 else 0) + count y xs

pub count-append : (y : String) (xs zs : List String) → count y (xs ++ zs) ≡ count y xs + count y zs
unfolding count
count-append y [] zs = omega arith
count-append y (x ∷ xs) zs = ground (arith, count-append y xs zs)

pub has-count : (y : String) (xs : List String) → has y xs ≡ not (nat_eq (count y xs) 0)
unfolding has count
has-count y [] = refl
has-count y (x ∷ xs) = ground (arith, has-count y xs)

pub count-keep :
    (p : String → Bool) (y : String) (xs : List String)
    → count y (keep p xs) ≡ (if p y then count y xs else 0)
unfolding count
count-keep p y [] = ground arith
count-keep p y (x ∷ xs) = ground (arith, eq_iff x y, count-keep p y xs)

pub count-add_all :
    (ks xs : List String) (y : String) → count y xs ≤ 1 → count y (add_all ks xs) ≤ 1
unfolding add_all count
count-add_all [] xs y h = h
count-add_all (k ∷ ks) xs y h =
    count-add_all ks (add k xs) y
      (ground (arith, count-append y xs (k ∷ []), has-count k xs, eq_iff k y))

Absent-count : (y : String) (xs : List String) → Absent y xs → count y xs ≡ 0
unfolding count
Absent-count y [] h = refl
Absent-count y (x ∷ xs) h = ground (arith, h.0, eq_iff x y, Absent-count y xs h.1)

pub Unique-count : (y : String) (xs : List String) → Unique xs → count y xs ≤ 1
unfolding count
Unique-count y [] u = omega arith
Unique-count y (x ∷ xs) u = elim (Bool-cases (x == y)) [
  | inl e ↦
      let none_left = Absent-count x xs u.0 in
      ground (arith, none_left, ap (λ v. count v xs) (same_of_eq x y e))
  | inr e ↦ ground (arith, Unique-count y xs u.1)
]

-- The edges into y from the keys that are not in `order`.
unfoldable pub inflow : String → Dict (List String) → List String → ℕ
unfolding has count
inflow y [] order = 0
inflow y ((k, ys) ∷ d) order = (if has k order then 0 else count y ys) + inflow y d order

pub degree-raise_all :
    (ps : List String) (d : Dict ℕ) (y : String)
    → degree (raise_all ps d) y ≡ degree d y + count y ps
unfolding raise_all degree count
degree-raise_all [] d y = omega arith
degree-raise_all (p ∷ ps) d y =
    let new = put d p (suc (or_else 0 (get d p))) in
    ground (arith, degree-raise_all ps new y, get-put d p y (suc (or_else 0 (get d p))), eq_iff p y)

pub degree-raise_graph :
    (adj : Dict (List String)) (d : Dict ℕ) (y : String)
    → degree (raise_graph adj d) y ≡ degree d y + inflow y adj []
unfolding raise_graph inflow has
degree-raise_graph [] d y = omega arith
degree-raise_graph ((k, ps) ∷ adj) d y =
    omega (arith, degree-raise_graph adj (raise_all ps d) y, degree-raise_all ps d y)

pub inflow_zero :
    (adj : Dict (List String)) (order : List String) (y z : String)
    → inflow y adj order ≡ 0
    → has y (entries adj z) ≡ true
    → has z order ≡ true
unfolding inflow get has
inflow_zero [] order y z h e = absurd (ground arith)
inflow_zero ((k, ys) ∷ adj) order y z h e =
    ground (arith, inflow_zero adj order y z, has-count y ys, eq_iff k z)

inflow_absent :
    (adj : Dict (List String)) (order : List String) (x y : String)
    → has x (keys adj) ≡ false
    → inflow y adj (order ++ x ∷ []) ≡ inflow y adj order
unfolding inflow keys has
inflow_absent [] order x y h = refl
inflow_absent ((k, ys) ∷ adj) order x y h =
    ground (arith, inflow_absent adj order x y, has-append k order (x ∷ []), eq_iff x k, eq_iff k x)

pub inflow_pays :
    (adj : Dict (List String)) (order : List String) (x y : String)
    → ((k : String) → count k (keys adj) ≤ 1)
    → has x order ≡ false
    → inflow y adj order ≡ count y (entries adj x) + inflow y adj (order ++ x ∷ [])
unfolding inflow keys has count get
inflow_pays [] order x y u h = refl
inflow_pays ((k, ys) ∷ adj) order x y u h =
    let later = inflow_pays adj order x y (λ i. omega (arith, u i)) h in
    ground (
      arith,
      later,
      inflow_absent adj order x y,
      has-append k order (x ∷ []),
      eq_iff x k,
      eq_iff k x,
      u x,
      has-count x (keys adj),
    )

pub inflow_positive :
    (adj : Dict (List String)) (order : List String) (y : String)
    → ((k : String) → count k (keys adj) ≤ 1)
    → 1 ≤ inflow y adj order
    → (z : String) × (has y (entries adj z) ≡ true) × (has z order ≡ false)
unfolding inflow keys has count get
inflow_positive [] order y u h = absurd (omega arith)
inflow_positive ((k, ys) ∷ adj) order y u h = elim (Bool-cases (not (has k order) && has y ys)) [
  | inl e ↦ (k, ground (arith, eq_refl k), ground arith)
  | inr e ↦
      let (z, m, n) =
        inflow_positive adj order y (λ i. omega (arith, u i)) (ground (arith, has-count y ys)) in
      (z, ground (arith, eq_iff k z, u z, has-count z (keys adj), has-keys adj z), n)
]

-- The phases that are not placed yet.
unfoldable pub unplaced : List String → List String → ℕ
unfolding has
unplaced [] order = 0
unplaced (p ∷ ps) order = (if has p order then 0 else 1) + unplaced ps order

pub unplaced_bound : (ps order : List String) → unplaced ps order ≤ length ps
unfolding unplaced
unplaced_bound [] order = omega arith
unplaced_bound (p ∷ ps) order = ground (arith, unplaced_bound ps order)

unplaced_falls :
    (ps order : List String) (x : String) → unplaced ps (order ++ x ∷ []) ≤ unplaced ps order
unfolding unplaced has
unplaced_falls [] order x = omega arith
unplaced_falls (p ∷ ps) order x =
    ground (arith, unplaced_falls ps order x, has-append p order (x ∷ []))

pub unplaced_pays :
    (ps order : List String) (x : String)
    → has x ps ≡ true
    → has x order ≡ false
    → unplaced ps (order ++ x ∷ []) < unplaced ps order
unfolding unplaced has
unplaced_pays [] order x h n = absurd (ground arith)
unplaced_pays (p ∷ ps) order x h n = ground (
  arith,
  unplaced_pays ps order x,
  unplaced_falls ps order x,
  has-append p order (x ∷ []),
  eq_iff p x,
  eq_iff x p,
)
