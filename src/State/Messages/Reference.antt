-- ===== src/State/Messages/Reference.antt =====
-- The messages reducer against a reference that keeps no index, and that ids stay distinct.
use graph_skill_runtime.Common.{
  ℕ, ◌+◌, ◌≤◌, String, Option, none, some, List, [], ◌∷◌, ◌++◌, ◌≡◌, refl, sym, ◌∙◌, arith, eq_refl,
  if◌then◌else◌, inl, inr, Option-cases,
}
use mathlib.Core.Path.{subst}
use graph_skill_runtime.Common.Dict.{get}
use graph_skill_runtime.State.Messages.{
  Message, Slots, Input, Write, compact, flatten, after_reset, load_message, load, apply_known,
  apply_message, apply_all, reduce_messages, state_messages, messages_delta_reducer,
}
use graph_skill_runtime.State.Messages.Places.{
  id_is, position, times, times-append, id_is-named, position_absent,
}
use mathlib.Core.List.{append-nil, append_assoc}
use graph_skill_runtime.State.Messages.Indexed.{
  reference_known, IsIndexed, IsIndexed-equal, IsIndexed-plain, IsIndexed-append,
  IsIndexed-apply_known,
}

module _ {ℓ} {Body : Type ℓ} where
  -- One message at a time: a removal drops the message of its id, a known id is replaced in its
  -- place, and any other message comes last.
  abbrev pub reference : List (Message Body) → List (Message Body) → List (Message Body)
  reference ms [] = ms
  reference ms (new ∷ news) =
      reference (elim new.id [ none ↦ ms ++ new ∷ [] | some i ↦ reference_known i new ms ]) news

  IsIndexed-apply_all :
      (news ms : List (Message Body)) (s : Slots Body)
      → IsIndexed ms s
      → IsIndexed (reference ms news) (apply_all news s)
  unfolding apply_all
  IsIndexed-apply_all [] ms s h = h
  IsIndexed-apply_all (m ∷ news) ms s h = elim (Option-cases m.id) [
    | inl e ↦
        let t = record s { result = s.result ++ some m ∷ [] } in
        rw (e, apply_all, apply_message)
          (IsIndexed-apply_all news (ms ++ m ∷ []) t (IsIndexed-plain ms s m e h))
    | inr (i, e) ↦
        rw (e, apply_all, apply_message)
          (IsIndexed-apply_all news (reference_known i m ms) (apply_known i m s)
            (IsIndexed-apply_known ms s m i e h))
  ]

  -- How often an id stands in a list of messages.
  abbrev pub count_id : String → List (Message Body) → ℕ
  count_id i [] = 0
  count_id i (m ∷ ms) = (if id_is i m then 1 else 0) + count_id i ms

  IsIndexed-load_message :
      (ms : List (Message Body)) (s : Slots Body) (m : Message Body)
      → ((i : String) → times i s.result + (if id_is i m then 1 else 0) ≤ 1)
      → IsIndexed ms s
      → IsIndexed (ms ++ m ∷ []) (load_message m s)
  unfolding load_message
  IsIndexed-load_message ms s m u h = elim (Option-cases m.id) [
    | inl e ↦ IsIndexed-equal _ _ _ _ refl (rw (load_message, e) refl) (IsIndexed-plain ms s m e h)
    | inr (i, e) ↦
        let absent : times i s.result ≡ 0 = ground (arith, u i, id_is-named i i m e, eq_refl i) in
        IsIndexed-equal _ _ _ _ refl (rw (load_message, e) refl)
          (IsIndexed-append ms s m i e (h.placed i ∙ position_absent i s.result absent) h)
  ]

  IsIndexed-load :
      (state ms : List (Message Body)) (s : Slots Body)
      → ((i : String) → times i s.result + count_id i state ≤ 1)
      → IsIndexed ms s
      → IsIndexed (ms ++ state) (load state s)
  unfolding load load_message
  IsIndexed-load [] ms s u h = subst (λ x. IsIndexed x s) (sym (append-nil ms)) h
  IsIndexed-load (m ∷ state) ms s u h =
      subst (λ x. IsIndexed x (load (m ∷ state) s)) (append_assoc ms (m ∷ []) state)
        (IsIndexed-load state (ms ++ m ∷ []) (load_message m s)
          (λ i. omega (arith, u i, times-append i s.result (some m)))
          (IsIndexed-load_message ms s m (λ i. omega (arith, u i)) h))

  count-compact :
      (i : String) (os : List (Option (Message Body))) → count_id i (compact os) ≡ times i os
  unfolding compact times
  count-compact i [] = refl
  count-compact i (none ∷ os) = omega (arith, count-compact i os)
  count-compact i (some m ∷ os) = omega (arith, count-compact i os)

  reduce_lem :
      (state msgs : List (Message Body))
      → ((i : String) → count_id i state ≤ 1)
      → (reduce_messages state msgs ≡ reference state msgs)
        × ((i : String) → count_id i (reduce_messages state msgs) ≤ 1)
  unfolding reduce_messages times get position compact
  reduce_lem state msgs u =
      let blank : Slots Body = record { result = []; index = [] } in
      let start : IsIndexed [] blank = record {
        listed = refl;
        placed = λ i. refl;
        distinct = λ i. omega arith;
      } in
      let loaded = IsIndexed-load state [] blank (λ i. omega (arith, u i)) start in
      let done = IsIndexed-apply_all msgs state (load state blank) loaded in
      (
        done.listed,
        λ i.
            omega
              (arith, count-compact i (apply_all msgs (load state blank)).result, done.distinct i),
      )

-- Where no id stands twice in the state, the reducer gives what the reference gives, from nothing
-- after a full reset, and no id stands twice in its result.
pub messages_delta_reducer_lem {ℓ} :
    {Body Raw : Type ℓ} (convert_to_messages : List Raw → List (Message Body)) (reset : String)
    (state : Input Body Raw) (writes : List (Write Raw))
    → ((i : String) → count_id i (state_messages convert_to_messages reset state) ≤ 1)
    → let result = messages_delta_reducer convert_to_messages reset state writes in
      let msgs = convert_to_messages (flatten writes) in
      (result ≡ elim (after_reset reset msgs) [
        | some rest ↦ reference [] rest
        | none ↦ reference (state_messages convert_to_messages reset state) msgs
      ])
      × ((i : String) → count_id i result ≤ 1)
unfolding messages_delta_reducer
messages_delta_reducer_lem convert reset state writes u =
    elim (Option-cases (after_reset reset (convert (flatten writes)))) [
      | inl e ↦
          rw (e, messages_delta_reducer)
            (reduce_lem (state_messages convert reset state) (convert (flatten writes)) u)
      | inr (rest, e) ↦ rw (e, messages_delta_reducer) (reduce_lem [] rest (λ i. omega arith))
    ]
