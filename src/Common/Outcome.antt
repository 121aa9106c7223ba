-- ===== src/Common/Outcome.antt =====
-- A Python call: the value that it returns, or the error that it raises.
use mathlib.Core.Path.{◌≡◌, refl, subst}
use mathlib.Core.Logic.{◌⊎◌, inl, inr}
use mathlib.Core.List.{List, [], ◌∷◌, ◌++◌, map}
use native.Mathlib.Omega.{arith}
use graph_skill_runtime.Common.Lists.{All}

pub data Outcome (E A : Type 0) : Type 0 where
  done : A → Outcome E A
  raised : E → Outcome E A

infixl 5 ◌>>=◌
abbrev pub ◌>>=◌ : {E A B : Type 0} → Outcome E A → (A → Outcome E B) → Outcome E B
done a >>= f = f a
raised e >>= f = raised e

-- tuple(f(x) for x in xs), which raises where the first f does
unfoldable pub each : {E A B : Type 0} → (A → Outcome E B) → List A → Outcome E (List B)
each f [] = done []
each f (x ∷ xs) = do y ← f x; ys ← each f xs; done (y ∷ ys)

pub Outcome-cases :
    {E A : Type 0} (m : Outcome E A) → ((a : A) × (m ≡ done a)) ⊎ ((e : E) × (m ≡ raised e))
Outcome-cases (done a) = inl (a, refl)
Outcome-cases (raised e) = inr (e, refl)

module _ {E A B : Type 0} (f : A → Outcome E B) where
  -- What holds of every value that f returns holds of all that a loop over f returns.
  pub each-All :
      (P : B → Type 0)
      → ((a : A) (b : B) → f a ≡ done b → P b)
      → (xs : List A) (ys : List B) → each f xs ≡ done ys
      → All P ys
  unfolding each
  each-All P h [] ys e = let same : [] ≡ ys = ground arith in subst (All P) same tt
  each-All P h (x ∷ xs) ys e = elim (Outcome-cases (f x)) [
    | inr (_, q) ↦ absurd (ground arith)
    | inl (y, q) ↦ elim (Outcome-cases (each f xs)) [
      | inr (_, r) ↦ absurd (ground arith)
      | inl (rest, r) ↦
          let same : y ∷ rest ≡ ys = ground arith in
          subst (All P) same (h x y q, each-All P h xs rest r)
    ]
  ]

  pub each-append :
      (xs ys : List A) (us vs : List B)
      → each f xs ≡ done us
      → each f ys ≡ done vs
      → each f (xs ++ ys) ≡ done (us ++ vs)
  unfolding each
  each-append [] ys us vs e q = ground arith
  each-append (x ∷ xs) ys us vs e q = elim (Outcome-cases (f x)) [
    | inr (_, r) ↦ absurd (ground arith)
    | inl (y, r) ↦ elim (Outcome-cases (each f xs)) [
      | inr (_, t) ↦ absurd (ground arith)
      | inl (rest, t) ↦ ground (arith, each-append xs ys rest vs t q)
    ]
  ]

-- A loop over f and one over g, whose values go together, return values that go together.
pub each-map :
    {E A B C D : Type 0} (f : A → Outcome E B) (g : C → Outcome E D) (h : A → C) (k : B → D)
    → ((a : A) (b : B) → f a ≡ done b → g (h a) ≡ done (k b))
    → (xs : List A) (ys : List B) → each f xs ≡ done ys
    → each g (map h xs) ≡ done (map k ys)
unfolding each
each-map f g h k s [] ys e = ground arith
each-map f g h k s (x ∷ xs) ys e = elim (Outcome-cases (f x)) [
  | inr (_, q) ↦ absurd (ground arith)
  | inl (y, q) ↦ elim (Outcome-cases (each f xs)) [
    | inr (_, r) ↦ absurd (ground arith)
    | inl (rest, r) ↦ ground (arith, s x y q, each-map f g h k s xs rest r)
  ]
]
