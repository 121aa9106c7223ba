-- ===== src/Checkpoint/Taint.antt =====
-- A checkpoint is invalid exactly where its phase is dirty or downstream of a dirty one.
use graph_skill_runtime.Common.{
  ℕ, zero, suc, ◌+◌, ◌≤◌, String, true, false, not, ◌&&◌, ◌||◌, List, [], ◌∷◌, ◌++◌, ◌≡◌, refl, sym,
  ap, arith, ◌==◌, eq_iff, eq_refl, if◌then◌else◌, length, length-append, inl, inr, Bool-cases,
  same_of_eq,
}
use mathlib.Core.Path.{subst}
use graph_skill_runtime.Common.Dict.{Dict, get}
use graph_skill_runtime.Common.Lists.{List-cases}
use graph_skill_runtime.Common.Names.{has, has-append, entries}
use graph_skill_runtime.Topology.Order.Counts.{unplaced, unplaced_pays}
use graph_skill_runtime.Checkpoint.{Spread, mark_children, spread, all_values}

-- The phase is dirty, or it depends on a phase that is.
pub data Tainted (dependencies : Dict (List String)) (dirty : List String) : String → Type 0 where
  is_dirty : (p : String) → has p dirty ≡ true → Tainted dependencies dirty p
  downstream :
      (x p : String)
      → Tainted dependencies dirty x
      → has x (entries dependencies p) ≡ true
      → (x == "input") ≡ false
      → Tainted dependencies dirty p

empty_of_length : (xs : List String) → length xs ≡ 0 → xs ≡ []
empty_of_length [] h = refl
empty_of_length (x ∷ xs) h = absurd (omega arith)

-- What the marking of the children does to the set and to the queue.
has-mark_children :
    (children : List String) (s : Spread) (y : String)
    → has y (mark_children children s).invalid ≡ (has y children || has y s.invalid)
unfolding mark_children has
has-mark_children [] s y = refl
has-mark_children (c ∷ children) s y = ground (
  arith,
  has-mark_children children s y,
  eq_iff c y,
  has-mark_children children (record { queue = s.queue ++ c ∷ []; invalid = s.invalid ++ c ∷ [] })
      y,
  has-append y s.invalid (c ∷ []),
)

queue-mark_children :
    (children : List String) (s : Spread) (y : String)
    → has y s.queue ≡ true
    → has y (mark_children children s).queue ≡ true
unfolding mark_children has
queue-mark_children [] s y h = h
queue-mark_children (c ∷ children) s y h =
    queue-mark_children children _ y (ground (arith, has-append y s.queue (c ∷ [])))

queued-mark_children :
    (children : List String) (s : Spread) (y : String)
    → has y children ≡ true
    → has y s.invalid ≡ false
    → has y (mark_children children s).queue ≡ true
unfolding mark_children has
queued-mark_children [] s y h n = absurd (ground arith)
queued-mark_children (c ∷ children) s y h n =
    let next =
      if has c s.invalid
      then s
      else record { queue = s.queue ++ c ∷ []; invalid = s.invalid ++ c ∷ [] } in
    elim (Bool-cases (c == y)) [
      | inl e ↦
          let same = same_of_eq c y e in
          queue-mark_children children next y
            (ground (arith, has-append y s.queue (c ∷ []), ap (λ u. has u s.invalid) same))
      | inr e ↦
          queued-mark_children children next y (ground arith)
            (ground (arith, has-append y s.invalid (c ∷ [])))
    ]

sound-mark_children :
    (children : List String) (s : Spread) (y : String)
    → has y (mark_children children s).queue ≡ true
    → (has y s.queue || has y children) ≡ true
unfolding mark_children has
sound-mark_children [] s y h = ground arith
sound-mark_children (c ∷ children) s y h = ground (
  arith,
  sound-mark_children children s y,
  has-append y s.queue (c ∷ []),
  sound-mark_children children (record { queue = s.queue ++ c ∷ []; invalid = s.invalid ++ c ∷ [] })
      y,
)

-- Each new mark_children adds to the queue what it takes from the names that are left.
work-mark_children :
    (names children : List String) (s : Spread)
    → ((y : String) → has y children ≡ true → has y names ≡ true)
    → length (mark_children children s).queue + unplaced names (mark_children children s).invalid
      ≤ length s.queue + unplaced names s.invalid
unfolding mark_children has
work-mark_children names [] s h = omega arith
work-mark_children names (c ∷ children) s h = elim (Bool-cases (has c s.invalid)) [
  | inl e ↦ rw (e, mark_children) (work-mark_children names children s (λ y m. h y (ground arith)))
  | inr e ↦
      let next : Spread = record { queue = s.queue ++ c ∷ []; invalid = s.invalid ++ c ∷ [] } in
      let later = work-mark_children names children next (λ y m. h y (ground arith)) in
      let pays = unplaced_pays names s.invalid c (h c (ground (arith, eq_refl c))) e in
      let longer = length-append s.queue (c ∷ []) in
      let steps : mark_children (c ∷ children) s ≡ mark_children children next = ground arith in
      subst
        (λ t. length t.queue + unplaced names t.invalid ≤ length s.queue + unplaced names s.invalid)
        (sym steps) (omega (arith, later, pays, longer))
]

module _ (dependencies : Dict (List String)) (dirty : List String) (children : Dict (List String))
    (edges : (x p : String)
      → has p (entries children x) ≡ (has x (entries dependencies p) && not (x == "input"))) where
  pub record IsSpread (s : Spread) : Type 0 where
    pub sound : (y : String) → has y s.invalid ≡ true → Tainted dependencies dirty y
    pub started : (y : String) → has y dirty ≡ true → has y s.invalid ≡ true
    pub queued : (y : String) → has y s.queue ≡ true → has y s.invalid ≡ true
    pub closed :
        (x p : String)
        → has x s.invalid ≡ true
        → has p (entries children x) ≡ true
        → (has x s.queue || has p s.invalid) ≡ true

  IsSpread-pop :
      (s : Spread) (x : String) (rest : List String)
      → s.queue ≡ x ∷ rest
      → IsSpread s
      → IsSpread (mark_children (entries children x) (record s { queue = rest }))
  unfolding has
  IsSpread-pop s x rest q h =
      let t : Spread = record s { queue = rest } in
      let ps = entries children x in
      let in_queue : (y : String) → has y s.queue ≡ (x == y || has y rest) = λ y. ap (has y) q in
      let at_x : Tainted dependencies dirty x =
        h.sound x (h.queued x (ground (arith, in_queue x, eq_refl x))) in
      record {
        sound = λ y m. elim (Bool-cases (has y s.invalid)) [
          | inl e ↦ h.sound y e
          | inr e ↦
              let new : has y ps ≡ true = ground (arith, has-mark_children ps t y) in
              downstream x y at_x (ground (arith, edges x y)) (ground (arith, edges x y))
        ];
        started = λ y m. ground (arith, has-mark_children ps t y, h.started y);
        queued = λ y m.
            ground
              (arith, sound-mark_children ps t y, has-mark_children ps t y, h.queued y, in_queue y);
        closed = λ z p m b. elim (Bool-cases (x == z)) [
          | inl e ↦ ground (
            arith,
            has-mark_children ps t p,
            ap (λ u. has p (entries children u)) (same_of_eq x z e),
          )
          | inr e ↦ ground (
            arith,
            h.closed z p,
            in_queue z,
            has-mark_children ps t p,
            has-mark_children ps t z,
            queue-mark_children ps t z,
            queued-mark_children ps t z,
          )
        ];
      }

  pub has-all_values :
      (d : Dict (List String)) (x y : String)
      → has y (entries d x) ≡ true
      → has y (all_values d) ≡ true
  unfolding all_values has get
  has-all_values [] x y h = absurd (ground arith)
  has-all_values ((k, ps) ∷ d) x y h =
      ground (arith, has-append y ps (all_values d), has-all_values d x y)

  pub spread-IsSpread :
      (fuel : ℕ) (s : Spread)
      → length s.queue + unplaced (all_values children) s.invalid ≤ fuel
      → IsSpread s
      → IsSpread (spread children fuel s) × ((spread children fuel s).queue ≡ [])
  unfolding spread
  spread-IsSpread zero s b h = (h, empty_of_length s.queue (omega arith))
  spread-IsSpread (suc fuel) s b h = elim (List-cases s.queue) [
    | inl e ↦ rw (e, spread) (h, e)
    | inr (x, rest, e) ↦
        let t : Spread = record s { queue = rest } in
        let work =
          work-mark_children (all_values children) (entries children x) t
            (has-all_values children x) in
        let next =
          spread-IsSpread fuel (mark_children (entries children x) t)
            (omega (arith, work, ap length e)) (IsSpread-pop s x rest e h) in
        rw (e, spread) next
  ]
