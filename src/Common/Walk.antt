-- ===== src/Common/Walk.antt =====
-- The worklist walk that the graph checks share, each with its own way to queue the successors.
use Prim.Native.Nat.{ℕ, zero, suc, ◌+◌, ◌≤◌}
use Prim.Native.String.{String}
use mathlib.Core.Path.{◌≡◌, ap, subst}
use mathlib.Core.Logic.{◌↔◌, inl, inr}
use mathlib.Core.Bool.{Bool, true, false, ◌||◌}
use mathlib.Core.List.{List, [], ◌∷◌, ◌++◌}
use native.Mathlib.Omega.{arith}
use text.Mathlib.Text.{◌==◌}
use text.Mathlib.TextEquality.{eq_iff}
use text.Mathlib.TextPositions.{eq_refl}
use graph_skill_runtime.Common.Tests.{if◌then◌else◌, Bool-cases}
use graph_skill_runtime.Common.Lists.{length}
use graph_skill_runtime.Common.Dict.{Dict, get}
use graph_skill_runtime.Common.Names.{has, has-append, entries}

-- `push seen rest x` queues the successors of x, where x is in `seen` already, before or after
-- `rest`, and may leave out those in `seen`.
pub record Walk : Type 0 where
  pub graph : Dict (List String)
  pub skip : String → Bool
  pub push : List String → List String → String → List String
  pub push_sound :
      (seen rest : List String) (x y : String)
      → has y (push seen rest x) ≡ true
      → (has y rest || has y (entries graph x)) ≡ true
  pub push_full :
      (seen rest : List String) (x y : String)
      → (has y rest || has y (entries graph x)) ≡ true
      → (has y seen || has y (push seen rest x)) ≡ true
  pub push_size :
      (seen rest : List String) (x : String)
      → length (push seen rest x) ≤ length rest + length (entries graph x)

-- What can be reached from `starts` by way of names that the walk does not skip.
pub data From (w : Walk) (starts : List String) : String → Type 0 where
  start : (x : String) → has x starts ≡ true → w.skip x ≡ false → From w starts x
  step :
      (x y : String)
      → From w starts x
      → has y (entries w.graph x) ≡ true
      → w.skip y ≡ false
      → From w starts y

-- The length of the successor lists of the keys that are not in `seen`.
unfoldable pub weight : Dict (List String) → List String → ℕ
weight [] seen = 0
weight ((k, ys) ∷ d) seen = (if has k seen then 0 else length ys) + weight d seen

weight_falls :
    (d : Dict (List String)) (seen : List String) (x : String)
    → weight d (seen ++ x ∷ []) ≤ weight d seen
unfolding weight has
weight_falls [] seen x = omega arith
weight_falls ((k, ys) ∷ d) seen x =
    ground (arith, has-append k seen (x ∷ []), weight_falls d seen x)

weight_pays :
    (d : Dict (List String)) (seen : List String) (x : String)
    → has x seen ≡ false
    → length (entries d x) + weight d (seen ++ x ∷ []) ≤ weight d seen
unfolding weight has get
weight_pays [] seen x h = omega arith
weight_pays ((k, ys) ∷ d) seen x h =
    ground
      (arith, has-append k seen (x ∷ []), eq_iff k x, weight_falls d seen x, weight_pays d seen x h)

module _ (w : Walk) where
  unfoldable pub explore : ℕ → List String → List String → List String
  explore zero pending seen = seen
  explore (suc fuel) [] seen = seen
  explore (suc fuel) (x ∷ rest) seen =
      let done = has x seen || w.skip x in
      let seen_x = seen ++ x ∷ [] in
      explore fuel (if done then rest else w.push seen_x rest x) (if done then seen else seen_x)

  unfoldable pub closure : List String → List String
  unfolding explore weight has
  closure starts = explore (length starts + weight w.graph []) starts []

  module _ (starts : List String) where
    record IsOpen (pending seen : List String) : Type 0 where
      sound_seen : (y : String) → has y seen ≡ true → From w starts y
      sound_pending : (y : String) → has y pending ≡ true → w.skip y ≡ false → From w starts y
      started :
          (y : String)
          → has y starts ≡ true
          → w.skip y ≡ false
          → (has y seen || has y pending) ≡ true
      closed :
          (x y : String)
          → has x seen ≡ true
          → has y (entries w.graph x) ≡ true
          → w.skip y ≡ false
          → (has y seen || has y pending) ≡ true

    IsOpen-pop :
        (x : String) (rest seen : List String)
        → (has x seen || w.skip x) ≡ true
        → IsOpen (x ∷ rest) seen
        → IsOpen rest seen
    unfolding has
    IsOpen-pop x rest seen d h = record {
      sound_seen = h.sound_seen;
      sound_pending = λ y m. h.sound_pending y (ground arith);
      started = λ y m s. ground (arith, eq_iff x y, h.started y m s);
      closed = λ v y m n s. ground (arith, eq_iff x y, h.closed v y m n s);
    }

    IsOpen-push :
        (x : String) (rest seen : List String)
        → (has x seen || w.skip x) ≡ false
        → IsOpen (x ∷ rest) seen
        → IsOpen (w.push (seen ++ x ∷ []) rest x) (seen ++ x ∷ [])
    unfolding has
    IsOpen-push x rest seen d h =
        let at_x : From w starts x = h.sound_pending x (ground (arith, eq_refl x)) (ground arith) in
        let seen_x = seen ++ x ∷ [] in
        let new : (y : String) → has y seen_x ≡ (has y seen || x == y) =
          λ y. ground (arith, has-append y seen (x ∷ [])) in
        let full : (y : String)
            → (has y rest || has y (entries w.graph x)) ≡ true
            → (has y seen_x || has y (w.push seen_x rest x)) ≡ true =
          λ y e. w.push_full seen_x rest x y e in
        let kept : (y : String)
            → (has y seen || (x == y || has y rest)) ≡ true
            → (has y seen_x || has y (w.push seen_x rest x)) ≡ true =
          λ y e. elim (Bool-cases (has y rest)) [
            | inl r ↦ full y (ground arith)
            | inr r ↦ ground (arith, new y)
          ] in
        record {
          sound_seen = λ y m. elim (Bool-cases (has y seen)) [
            | inl e ↦ h.sound_seen y e
            | inr e ↦ subst (From w starts) (ground (arith, new y, eq_iff x y)) at_x
          ];
          sound_pending = λ y m s. elim (Bool-cases (has y rest)) [
            | inl e ↦ h.sound_pending y (ground arith) s
            | inr e ↦ From.step x y at_x (ground (arith, w.push_sound seen_x rest x y m)) s
          ];
          started = λ y m s. kept y (h.started y m s);
          closed = λ v y m n s. elim (Bool-cases (has v seen)) [
            | inl e ↦ kept y (h.closed v y e n s)
            | inr e ↦
                let at_v : x ≡ v = ground (arith, new v, eq_iff x v) in
                full y (ground (arith, ap (λ u. has y (entries w.graph u)) at_v))
          ];
        }

    IsOpen-explore :
        (fuel : ℕ) (pending seen : List String)
        → length pending + weight w.graph seen ≤ fuel
        → IsOpen pending seen
        → IsOpen [] (explore fuel pending seen)
    unfolding explore has
    IsOpen-explore zero [] seen n h = h
    IsOpen-explore zero (x ∷ rest) seen n h = absurd (omega arith)
    IsOpen-explore (suc fuel) [] seen n h = h
    IsOpen-explore (suc fuel) (x ∷ rest) seen n h = elim (Bool-cases (has x seen || w.skip x)) [
      | inl d ↦
          rw (d, explore) (IsOpen-explore fuel rest seen (omega arith) (IsOpen-pop x rest seen d h))
      | inr d ↦
          let seen_x = seen ++ x ∷ [] in
          let pays = weight_pays w.graph seen x (ground arith) in
          let fits : length (w.push seen_x rest x) + weight w.graph seen_x ≤ fuel =
            omega (arith, pays, w.push_size seen_x rest x) in
          rw (d, explore)
            (IsOpen-explore fuel (w.push seen_x rest x) seen_x fits (IsOpen-push x rest seen d h))
    ]

    IsOpen-closure : IsOpen [] (closure starts)
    unfolding closure has
    IsOpen-closure =
        IsOpen-explore (length starts + weight w.graph []) starts [] (omega arith) (record {
          sound_seen = λ y m. absurd (ground arith);
          sound_pending = λ y m s. From.start y m s;
          started = λ y m s. m;
          closed = λ v y m n s. absurd (ground arith);
        })

    closure-full : (y : String) → From w starts y → has y (closure starts) ≡ true
    unfolding has
    closure-full y (From.start _ m s) = ground (arith, IsOpen-closure.started y m s)
    closure-full y (From.step x _ p n s) =
        ground (arith, IsOpen-closure.closed x y (closure-full x p) n s)

    pub has-closure : (y : String) → (has y (closure starts) ≡ true) ↔ From w starts y
    has-closure y = (IsOpen-closure.sound_seen y, closure-full y)
