-- ===== src/Checkpoint/Before/Ready.antt =====
-- The checkpoint that is chosen is the first that is ready for the phase.
use graph_skill_runtime.Common.{
  ◌⊎◌, ◌↔◌, inl, inr, Bool-cases, All, String, Bool, true, false, ◌&&◌, none, some, List, [], ◌∷◌,
  ◌++◌, ◌≡◌, refl, sym, ap, ◌∙◌, arith, ◌==◌, same_of_eq, eq_refl,
}
use graph_skill_runtime.Common.Dict.{Dict}
use graph_skill_runtime.Common.Names.{has, has-add_all, add_all, entries}
use graph_skill_runtime.Common.Walk.{From, has-closure}
use graph_skill_runtime.Checkpoint.{Compiled, phase_order, phase_dependencies}
use graph_skill_runtime.Checkpoint.Before.{
  phases_of, entries-without_input, upstream_walk, ancestor_phases, outputs_of, is_subset, is_apart,
  Checkpoint, first_ready, no_checkpoint, selected, checkpoint_id_before_phase,
}

-- The phase u is upstream of `phase` by way of dependencies that are phases.
pub data Above (dependencies : Dict (List String)) (phase : String) : String → Type 0 where
  direct :
      (u : String)
      → has u (phases_of (entries dependencies phase)) ≡ true
      → Above dependencies phase u
  further :
      (v u : String)
      → Above dependencies phase v
      → has u (phases_of (entries dependencies v)) ≡ true
      → Above dependencies phase u

module _ (dependencies : Dict (List String)) (phase : String) where
  abbrev starts : List String
  starts = phases_of (entries dependencies phase)

  Above-From :
      (u : String) → From (upstream_walk dependencies) starts u → Above dependencies phase u
  unfolding upstream_walk
  Above-From u (From.start _ m s) = Above.direct u m
  Above-From u (From.step v _ t e s) =
      Above.further v u (Above-From v t)
        (ap (has u) (sym (entries-without_input dependencies v)) ∙ e)

  From-Above :
      (u : String) → Above dependencies phase u → From (upstream_walk dependencies) starts u
  unfolding upstream_walk
  From-Above u (Above.direct _ m) = From.start u m refl
  From-Above u (Above.further v _ t e) =
      From.step v u (From-Above v t) (ap (has u) (entries-without_input dependencies v) ∙ e) refl

  has-ancestors :
      (u : String)
      → (has u (ancestor_phases phase dependencies) ≡ true) ↔ Above dependencies phase u
  unfolding ancestor_phases
  has-ancestors u =
      let both = has-closure (upstream_walk dependencies) starts u in
      (λ h. Above-From u (both.0 h), λ a. both.1 (From-Above u a))

outputs_kept :
    (outputs : Dict (List String)) (ps keys : List String) (k : String)
    → has k keys ≡ true
    → has k (outputs_of outputs ps keys) ≡ true
unfolding outputs_of
outputs_kept outputs [] keys k h = h
outputs_kept outputs (p ∷ ps) keys k h =
    outputs_kept outputs ps _ k (ground (arith, has-add_all k (entries outputs p) keys))

outputs_taken :
    (outputs : Dict (List String)) (ps keys : List String) (u k : String)
    → has u ps ≡ true
    → has k (entries outputs u) ≡ true
    → has k (outputs_of outputs ps keys) ≡ true
unfolding outputs_of has
outputs_taken outputs [] keys u k m h = absurd (ground arith)
outputs_taken outputs (p ∷ ps) keys u k m h = elim (Bool-cases (p == u)) [
  | inl e ↦ outputs_kept outputs ps _ k (
      ground (
        arith,
        has-add_all k (entries outputs p) keys,
        ap (λ v. has k (entries outputs v)) (same_of_eq p u e),
      ))
  | inr e ↦ outputs_taken outputs ps _ u k (ground arith) h
]

outputs_origin :
    (outputs : Dict (List String)) (ps keys : List String) (k : String)
    → has k (outputs_of outputs ps keys) ≡ true
    → (has k keys ≡ true) ⊎ ((u : String) × (has u ps ≡ true) × (has k (entries outputs u) ≡ true))
unfolding outputs_of has
outputs_origin outputs [] keys k h = inl h
outputs_origin outputs (p ∷ ps) keys k h =
    elim (outputs_origin outputs ps (add_all (entries outputs p) keys) k h) [
      | inr (u, m, e) ↦ inr (u, ground arith, e)
      | inl m ↦ elim (Bool-cases (has k (entries outputs p))) [
        | inl e ↦ inr (p, ground (arith, eq_refl p), e)
        | inr e ↦ inl (ground (arith, has-add_all k (entries outputs p) keys))
      ]
    ]

subset_lem :
    (xs ys : List String)
    → (is_subset xs ys ≡ true) ↔ ((k : String) → has k xs ≡ true → has k ys ≡ true)
unfolding is_subset has
subset_lem [] ys = (λ h k m. absurd (ground arith), λ h. refl)
subset_lem (x ∷ xs) ys =
    let later = subset_lem xs ys in
    (
      λ h k m. elim (Bool-cases (x == k)) [
        | inl e ↦ ap (λ u. has u ys) (sym (same_of_eq x k e)) ∙ ground arith
        | inr e ↦ later.0 (ground arith) k (ground arith)
      ],
      λ h. ground (arith, h x, eq_refl x, later.1 (λ k m. h k (ground arith))),
    )

apart_lem :
    (xs ys : List String)
    → (is_apart xs ys ≡ true) ↔ ((k : String) → has k xs ≡ true → has k ys ≡ false)
unfolding is_apart has
apart_lem [] ys = (λ h k m. absurd (ground arith), λ h. refl)
apart_lem (x ∷ xs) ys =
    let later = apart_lem xs ys in
    (
      λ h k m. elim (Bool-cases (x == k)) [
        | inl e ↦ ap (λ u. has u ys) (sym (same_of_eq x k e)) ∙ ground arith
        | inr e ↦ later.0 (ground arith) k (ground arith)
      ],
      λ h. ground (arith, h x, eq_refl x, later.1 (λ k m. h k (ground arith))),
    )

-- The checkpoint has all outputs of the phases upstream and none of the phase's own.
pub record IsReady (compiled : Compiled) (phase : String) (c : Checkpoint) : Type 0 where
  pub done :
      (u k : String)
      → Above (phase_dependencies compiled) phase u
      → has k (entries compiled.outputs u) ≡ true
      → has k c.data_keys ≡ true
  pub fresh :
      (k : String) → has k (entries compiled.outputs phase) ≡ true → has k c.data_keys ≡ false

module _ (compiled : Compiled) (phase : String) where
  abbrev required : List String
  required = outputs_of compiled.outputs (ancestor_phases phase (phase_dependencies compiled)) []

  abbrev is_ready : Checkpoint → Bool
  is_ready c =
      is_subset required c.data_keys && is_apart (entries compiled.outputs phase) c.data_keys

  ready_lem : (c : Checkpoint) → (is_ready c ≡ true) ↔ IsReady compiled phase c
  unfolding has
  ready_lem c =
      let above = has-ancestors (phase_dependencies compiled) phase in
      let ancestors = ancestor_phases phase (phase_dependencies compiled) in
      let covered = subset_lem required c.data_keys in
      let free = apart_lem (entries compiled.outputs phase) c.data_keys in
      (
        λ h. record {
          done = λ u k a m.
              covered.0 (ground arith) k
                (outputs_taken compiled.outputs ancestors [] u k ((above u).1 a) m);
          fresh = free.0 (ground arith);
        },
        λ h.
            let has_all : is_subset required c.data_keys ≡ true = covered.1 (λ k m.
              elim (outputs_origin compiled.outputs ancestors [] k m) [
                | inl e ↦ absurd (ground arith)
                | inr (u, i, e) ↦ h.done u k ((above u).0 i) e
              ]) in
            ground (arith, has_all, free.1 h.fresh),
      )

  -- The first ready checkpoint of a list, or that there is none.
  first_ready_lem :
      (cs : List Checkpoint)
      → ((earlier : List Checkpoint) × (c : Checkpoint) × (later : List Checkpoint) × (cs
            ≡ earlier ++ c ∷ later)
          × (first_ready required (entries compiled.outputs phase) cs ≡ some c)
          × IsReady compiled phase c
          × All (λ b. ¬ IsReady compiled phase b) earlier)
        ⊎ ((first_ready required (entries compiled.outputs phase) cs ≡ none)
            × All (λ b. ¬ IsReady compiled phase b) cs)
  unfolding first_ready
  first_ready_lem [] = inr (refl, tt)
  first_ready_lem (c ∷ cs) = elim (Bool-cases (is_ready c)) [
    | inl h ↦ inl ([], c, cs, refl, rw (h, first_ready) refl, (ready_lem c).0 h, tt)
    | inr h ↦
        let not_ready : ¬ IsReady compiled phase c = λ r. ground (arith, (ready_lem c).1 r) in
        elim (first_ready_lem cs) [
          | inl (earlier, d, later, e, f, r, n) ↦
              inl
                (c ∷ earlier, d, later, ap (λ u. c ∷ u) e, rw (h, first_ready) f, r, (not_ready, n))
          | inr (f, n) ↦ inr (rw (h, first_ready) f, (not_ready, n))
        ]
  ]

-- For a phase of the order, the checkpoint that is selected is the first listed one that has all
-- outputs of the phases upstream and none of the phase's own; where nothing is selected no
-- checkpoint is of that kind.
pub checkpoint_id_before_phase_lem :
    (compiled : Compiled) (checkpoints : List Checkpoint) (phase : String)
    → has phase (phase_order compiled) ≡ true
    → ((earlier : List Checkpoint) × (c : Checkpoint) × (later : List Checkpoint) × (checkpoints
          ≡ earlier ++ c ∷ later)
        × (checkpoint_id_before_phase compiled checkpoints phase ≡ selected c.id)
        × IsReady compiled phase c
        × All (λ b. ¬ IsReady compiled phase b) earlier)
      ⊎ ((checkpoint_id_before_phase compiled checkpoints phase ≡ no_checkpoint)
          × All (λ b. ¬ IsReady compiled phase b) checkpoints)
unfolding checkpoint_id_before_phase
checkpoint_id_before_phase_lem compiled checkpoints phase h =
    elim (first_ready_lem compiled phase checkpoints) [
      | inl (earlier, c, later, e, f, r, n) ↦
          inl (earlier, c, later, e, rw (h, checkpoint_id_before_phase, f) refl, r, n)
      | inr (f, n) ↦ inr (rw (h, checkpoint_id_before_phase, f) refl, n)
    ]
