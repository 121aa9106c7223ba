-- ===== src/State/FanOut/Order.antt =====
-- The deltas of a superstep, folded in any order.
use graph_skill_runtime.Common.{List, [], ◌∷◌, arith, All}
use mathlib.Core.Path.{subst}
use mathlib.Core.List.{Permᴰ}
use graph_skill_runtime.Json.{JsonObject}
use graph_skill_runtime.State.{delta, merge_business_channel}
use graph_skill_runtime.State.FanOut.{
  IsDelta, IsSame, IsDisjoint, IsSame-refl, IsSame-trans, IsSame-merge, merge_swap, merge_deltas,
  AreParallel,
}

All-Perm {ℓ κ} : {A : Type ℓ} (P : A → Type κ) (xs ys : List A) → Permᴰ xs ys → All P xs → All P ys
All-Perm P _ _ Permᴰ.nil h = tt
All-Perm P _ _ (Permᴰ.cons {l₁ = xs} {l₂ = ys} e d) h = (subst P e h.0, All-Perm P xs ys d h.1)
All-Perm P _ _ (Permᴰ.swap e f) h = (subst P f h.1.0, (subst P e h.0, h.1.1))
All-Perm P _ _ (Permᴰ.trans {l₁ = xs} {l₂ = ys} {l₃ = zs} d g) h =
    All-Perm P ys zs g (All-Perm P xs ys d h)

IsDisjoint-sym : (u v : JsonObject) → IsDisjoint u v → IsDisjoint v u
IsDisjoint-sym u v h = record {
  fields = λ k n. ground (arith, h.fields k n);
  outputs = λ p. ground (arith, h.outputs p);
}

AreParallel-Perm : (us vs : List JsonObject) → Permᴰ us vs → AreParallel us → AreParallel vs
AreParallel-Perm _ _ Permᴰ.nil h = tt
AreParallel-Perm _ _ (Permᴰ.cons {a = a} {l₁ = us} {l₂ = vs} e d) h =
    let (delta_a, apart, rest) = h in
    (
      subst IsDelta e delta_a,
      subst (λ u. All (λ v. IsDisjoint u v) vs) e (All-Perm (λ v. IsDisjoint a v) us vs d apart),
      AreParallel-Perm us vs d rest,
    )
AreParallel-Perm _ _ (Permᴰ.swap {a = a} {b = b} {a' = a'} {b' = b'} {l = us} e f) h =
    let (delta_a, apart_a, (delta_b, apart_b, rest)) = h in
    let swapped : AreParallel (b ∷ a ∷ us) =
      (delta_b, (IsDisjoint-sym a b apart_a.0, apart_b), (delta_a, apart_a.1, rest)) in
    subst (λ u. AreParallel (u ∷ b' ∷ us)) f (subst (λ v. AreParallel (b ∷ v ∷ us)) e swapped)
AreParallel-Perm _ _ (Permᴰ.trans {l₁ = us} {l₂ = vs} {l₃ = ws} d g) h =
    AreParallel-Perm vs ws g (AreParallel-Perm us vs d h)

IsSame-deltas :
    (us : List JsonObject)
    → AreParallel us
    → (s t : JsonObject) → IsSame s t
    → IsSame (merge_deltas s us) (merge_deltas t us)
unfolding merge_deltas
IsSame-deltas [] h s t x = x
IsSame-deltas (u ∷ us) h s t x =
    IsSame-deltas us h.2 (merge_business_channel s (delta u)) (merge_business_channel t (delta u))
      (IsSame-merge s t u h.0 x)

IsSame-Perm :
    (us vs : List JsonObject)
    → Permᴰ us vs
    → AreParallel us
    → (s t : JsonObject) → IsSame s t
    → IsSame (merge_deltas s us) (merge_deltas t vs)
unfolding merge_deltas
IsSame-Perm _ _ Permᴰ.nil h s t x = x
IsSame-Perm _ _ (Permᴰ.cons {a = a} {l₁ = us} {l₂ = vs} e d) h s t x =
    subst
      (λ u.
        IsSame (merge_deltas (merge_business_channel s (delta a)) us)
          (merge_deltas (merge_business_channel t (delta u)) vs))
      e
      (IsSame-Perm us vs d h.2 (merge_business_channel s (delta a))
        (merge_business_channel t (delta a)) (IsSame-merge s t a h.0 x))
IsSame-Perm _ _ (Permᴰ.swap {a = a} {b = b} {a' = a'} {b' = b'} {l = us} e f) h s t x =
    let (delta_a, apart_a, (delta_b, apart_b, rest)) = h in
    let sa = merge_business_channel s (delta a) in
    let ta = merge_business_channel t (delta a) in
    let tb = merge_business_channel t (delta b) in
    let same = IsSame-merge sa ta b delta_b (IsSame-merge s t a delta_a x) in
    let crossed = IsSame-trans _ _ _ same (merge_swap t a b delta_a delta_b apart_a.0) in
    let swapped : IsSame (merge_deltas s (a ∷ b ∷ us)) (merge_deltas t (b ∷ a ∷ us)) =
      IsSame-deltas us rest (merge_business_channel sa (delta b))
        (merge_business_channel tb (delta a)) crossed in
    let after = merge_deltas s (a ∷ b ∷ us) in
    subst (λ u. IsSame after (merge_deltas t (u ∷ b' ∷ us))) f
      (subst (λ v. IsSame after (merge_deltas t (b ∷ v ∷ us))) e swapped)
IsSame-Perm _ _ (Permᴰ.trans {l₁ = us} {l₂ = vs} {l₃ = ws} d g) h s t x =
    IsSame-trans (merge_deltas s us) (merge_deltas t vs) (merge_deltas t ws)
      (IsSame-Perm us vs d h s t x)
      (IsSame-Perm vs ws g (AreParallel-Perm us vs d h) t t (IsSame-refl t))

-- Deltas of which no two write the same field or the same phase give the same fields and the same
-- phase outputs in whatever order the reducer folds them.
pub merge_deltas-IsSame :
    (us vs : List JsonObject) (s : JsonObject)
    → AreParallel us
    → Permᴰ us vs
    → IsSame (merge_deltas s us) (merge_deltas s vs)
merge_deltas-IsSame us vs s h d = IsSame-Perm us vs d h s s (IsSame-refl s)
