-- ===== src/State/Messages/Places.antt =====
-- The slots of the messages reducer: where the message of an id stands, and what a change of its
-- slot does to the list.
use graph_skill_runtime.Common.{
  ℕ, suc, ◌+◌, ◌≤◌, String, Bool, true, false, not, Option, none, some, List, [], ◌∷◌, ◌++◌, ◌≡◌,
  refl, ap, arith, ◌==◌, if◌then◌else◌, length, keep, inl, inr, Option-cases, Bool-cases,
  same_of_eq,
}
use mathlib.Core.Path.{subst}
use graph_skill_runtime.State.Messages.{Message, set_at, compact}

module _ {ℓ} {Body : Type ℓ} where
  abbrev pub id_is : String → Message Body → Bool
  id_is i m = elim m.id [ none ↦ false | some j ↦ j == i ]

  -- A message has one id.
  pub id_is-only : (i j : String) (m : Message Body) → id_is i m ≡ true → id_is j m ≡ (i == j)
  id_is-only i j m h = elim (Option-cases m.id) [
    | inl e ↦ absurd (ground arith)
    | inr (k, e) ↦
        let same : k ≡ i = same_of_eq k i (ground arith) in ground (arith, ap (λ u. u == j) same)
  ]

  pub id_is-named : (i j : String) (m : Message Body) → m.id ≡ some i → id_is j m ≡ (i == j)
  id_is-named i j m e = ground arith

  abbrev pub slot_is : String → Option (Message Body) → Bool
  slot_is i none = false
  slot_is i (some m) = id_is i m

  unfoldable pub position : String → List (Option (Message Body)) → Option ℕ
  position i [] = none
  position i (o ∷ os) =
      if slot_is i o then some 0 else elim (position i os) [ none ↦ none | some n ↦ some (suc n) ]

  -- How often an id stands in the slots.
  unfoldable pub times : String → List (Option (Message Body)) → ℕ
  times i [] = 0
  times i (o ∷ os) = (if slot_is i o then 1 else 0) + times i os

  pub position-append :
      (i : String) (os : List (Option (Message Body))) (o : Option (Message Body))
      → position i (os ++ o ∷ []) ≡ elim (position i os) [
        | some n ↦ some n
        | none ↦ if slot_is i o then some (length os) else none
      ]
  unfolding position
  position-append i [] o = ground arith
  position-append i (x ∷ os) o = ground (arith, position-append i os o)

  pub times-append :
      (i : String) (os : List (Option (Message Body))) (o : Option (Message Body))
      → times i (os ++ o ∷ []) ≡ times i os + (if slot_is i o then 1 else 0)
  unfolding times
  times-append i [] o = ground arith
  times-append i (x ∷ os) o = ground (arith, times-append i os o)

  pub position-times :
      (i : String) (os : List (Option (Message Body))) → position i os ≡ none → times i os ≡ 0
  unfolding position times
  position-times i [] h = refl
  position-times i (o ∷ os) h = ground (arith, position-times i os)

  -- The list without the message of an id, and with another in its place.
  abbrev pub drop_id : String → List (Message Body) → List (Message Body)
  drop_id i ms = keep (λ m. not (id_is i m)) ms

  abbrev pub replace_id : String → Message Body → List (Message Body) → List (Message Body)
  replace_id i n [] = []
  replace_id i n (m ∷ ms) = (if id_is i m then n else m) ∷ replace_id i n ms

  drop_absent :
      (i : String) (os : List (Option (Message Body)))
      → times i os ≡ 0
      → drop_id i (compact os) ≡ compact os
  unfolding times compact
  drop_absent i [] h = refl
  drop_absent i (none ∷ os) h = drop_absent i os (omega arith)
  drop_absent i (some m ∷ os) h = ground (arith, drop_absent i os)

  replace_absent :
      (i : String) (n : Message Body) (os : List (Option (Message Body)))
      → times i os ≡ 0
      → replace_id i n (compact os) ≡ compact os
  unfolding times compact
  replace_absent i n [] h = refl
  replace_absent i n (none ∷ os) h = replace_absent i n os (omega arith)
  replace_absent i n (some m ∷ os) h = ground (arith, replace_absent i n os)

  -- What it means that the slot n holds the message of the id i, and no other slot does.
  pub data Holds (i : String) : ℕ → List (Option (Message Body)) → Type ℓ where
    here :
        (m : Message Body) (os : List (Option (Message Body)))
        → id_is i m ≡ true
        → times i os ≡ 0
        → Holds i 0 (some m ∷ os)
    there :
        (n : ℕ) (o : Option (Message Body)) (os : List (Option (Message Body)))
        → slot_is i o ≡ false
        → Holds i n os
        → Holds i (suc n) (o ∷ os)

  pub Holds-position :
      (i : String) (n : ℕ) (os : List (Option (Message Body)))
      → position i os ≡ some n
      → times i os ≤ 1
      → Holds i n os
  unfolding position times
  Holds-position i n [] h t = absurd (ground arith)
  Holds-position i n (none ∷ os) h t = elim (Option-cases (position i os)) [
    | inl e ↦ absurd (ground arith)
    | inr (k, e) ↦
        let next : suc k ≡ n = ground arith in
        subst (λ u. Holds i u (none ∷ os)) next
          (Holds.there k none os refl (Holds-position i k os e (ground arith)))
  ]
  Holds-position i n (some m ∷ os) h t = elim (Bool-cases (id_is i m)) [
    | inl e ↦
        let first : 0 ≡ n = ground arith in
        subst (λ u. Holds i u (some m ∷ os)) first (Holds.here m os e (ground arith))
    | inr e ↦ elim (Option-cases (position i os)) [
      | inl f ↦ absurd (ground arith)
      | inr (k, f) ↦
          let next : suc k ≡ n = ground arith in
          subst (λ u. Holds i u (some m ∷ os)) next
            (Holds.there k (some m) os e (Holds-position i k os f (ground arith)))
    ]
  ]

  pub position_absent :
      (i : String) (os : List (Option (Message Body))) → times i os ≡ 0 → position i os ≡ none
  unfolding position times
  position_absent i [] h = refl
  position_absent i (o ∷ os) h = ground (arith, position_absent i os)

  -- The slot of the id is emptied.
  pub compact-set_at-none :
      (i : String) (n : ℕ) (os : List (Option (Message Body)))
      → Holds i n os
      → compact (set_at os n none) ≡ drop_id i (compact os)
  unfolding compact set_at
  compact-set_at-none i _ _ (Holds.here m os e t) = ground (arith, drop_absent i os t)
  compact-set_at-none i _ _ (Holds.there n none os e h) = compact-set_at-none i n os h
  compact-set_at-none i _ _ (Holds.there n (some m) os e h) =
      ground (arith, compact-set_at-none i n os h)

  pub position-set_at-none :
      (i j : String) (n : ℕ) (os : List (Option (Message Body)))
      → Holds i n os
      → position j (set_at os n none) ≡ (if i == j then none else position j os)
  unfolding position set_at
  position-set_at-none i j _ _ (Holds.here m os e t) = elim (Bool-cases (i == j)) [
    | inl s ↦ ground (arith, position_absent i os t, ap (λ u. position u os) (same_of_eq i j s))
    | inr s ↦ ground (arith, id_is-only i j m e)
  ]
  position-set_at-none i j _ _ (Holds.there n o os e h) =
      ground (arith, position-set_at-none i j n os h, same_of_eq i j, ap (λ u. slot_is u o))

  pub times-set_at-none :
      (i j : String) (n : ℕ) (os : List (Option (Message Body)))
      → Holds i n os
      → times j (set_at os n none) ≤ times j os
  unfolding times set_at
  times-set_at-none i j _ _ (Holds.here m os e t) = ground arith
  times-set_at-none i j _ _ (Holds.there n o os e h) = ground (arith, times-set_at-none i j n os h)

  -- Another message of the id takes its slot.
  module _ (i : String) (new : Message Body) (named : new.id ≡ some i) where
    pub compact-set_at-some :
        (n : ℕ) (os : List (Option (Message Body)))
        → Holds i n os
        → compact (set_at os n (some new)) ≡ replace_id i new (compact os)
    unfolding compact set_at
    compact-set_at-some _ _ (Holds.here m os e t) = ground (arith, replace_absent i new os t)
    compact-set_at-some _ _ (Holds.there n none os e h) = compact-set_at-some n os h
    compact-set_at-some _ _ (Holds.there n (some m) os e h) =
        ground (arith, compact-set_at-some n os h)

    pub position-set_at-some :
        (j : String) (n : ℕ) (os : List (Option (Message Body)))
        → Holds i n os
        → position j (set_at os n (some new)) ≡ position j os
    unfolding position set_at
    position-set_at-some j _ _ (Holds.here m os e t) =
        ground (arith, id_is-only i j m e, id_is-named i j new named)
    position-set_at-some j _ _ (Holds.there n o os e h) =
        ground (arith, position-set_at-some j n os h)

    pub times-set_at-some :
        (j : String) (n : ℕ) (os : List (Option (Message Body)))
        → Holds i n os
        → times j (set_at os n (some new)) ≡ times j os
    unfolding times set_at
    times-set_at-some j _ _ (Holds.here m os e t) =
        ground (arith, id_is-only i j m e, id_is-named i j new named)
    times-set_at-some j _ _ (Holds.there n o os e h) = ground (arith, times-set_at-some j n os h)
