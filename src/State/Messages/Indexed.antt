-- ===== src/State/Messages/Indexed.antt =====
-- The slots and the index of the messages reducer against the list of messages that they stand for.
use graph_skill_runtime.Common.{
  ℕ, ◌≤◌, String, Bool, true, false, ◌||◌, Option, none, some, List, [], ◌∷◌, ◌++◌, ◌≡◌, refl, sym,
  ◌∙◌, ap, arith, eq_iff, if◌then◌else◌, length, inl, inr, Option-cases, Bool-cases, same_of_eq,
}
use mathlib.Core.Path.{subst}
use graph_skill_runtime.Common.Dict.{get, put, remove, get-put, get-remove}
use graph_skill_runtime.State.Messages.{Message, Slots, set_at, compact, apply_known}
use graph_skill_runtime.State.Messages.Places.{
  id_is, position, times, position-append, times-append, position-times, drop_id, replace_id, Holds,
  Holds-position, compact-set_at-none, position-set_at-none, times-set_at-none, compact-set_at-some,
  position-set_at-some, times-set_at-some, id_is-named,
}

module _ {ℓ} {Body : Type ℓ} where
  abbrev pub has_id : String → List (Message Body) → Bool
  has_id i [] = false
  has_id i (m ∷ ms) = id_is i m || has_id i ms

  abbrev pub reference_known : String → Message Body → List (Message Body) → List (Message Body)
  reference_known i new ms =
      if new.removes
      then drop_id i ms
      else if has_id i ms
      then replace_id i new ms
      else ms ++ new ∷ []

  compact-append :
      (os : List (Option (Message Body))) (m : Message Body)
      → compact (os ++ some m ∷ []) ≡ compact os ++ m ∷ []
  unfolding compact
  compact-append [] m = refl
  compact-append (none ∷ os) m = compact-append os m
  compact-append (some x ∷ os) m = ap (λ u. x ∷ u) (compact-append os m)

  has_id-compact :
      (i : String) (os : List (Option (Message Body))) (n : ℕ)
      → position i os ≡ some n
      → has_id i (compact os) ≡ true
  unfolding compact position
  has_id-compact i [] n h = absurd (ground arith)
  has_id-compact i (none ∷ os) n h = elim (Option-cases (position i os)) [
    | inl e ↦ absurd (ground arith)
    | inr (k, e) ↦ has_id-compact i os k e
  ]
  has_id-compact i (some m ∷ os) n h = elim (Option-cases (position i os)) [
    | inl e ↦ ground arith
    | inr (k, e) ↦ ground (arith, has_id-compact i os k e)
  ]

  absent-compact :
      (i : String) (os : List (Option (Message Body)))
      → position i os ≡ none
      → (has_id i (compact os) ≡ false) × (drop_id i (compact os) ≡ compact os)
  unfolding compact position
  absent-compact i [] h = (refl, refl)
  absent-compact i (none ∷ os) h = absent-compact i os (ground arith)
  absent-compact i (some m ∷ os) h = ground (arith, absent-compact i os)

  -- The slots hold the messages, and the index says where.
  pub record IsIndexed (ms : List (Message Body)) (s : Slots Body) : Type ℓ where
    pub listed : compact s.result ≡ ms
    pub placed : (i : String) → get s.index i ≡ position i s.result
    pub distinct : (i : String) → times i s.result ≤ 1

  pub IsIndexed-equal :
      (ms ms' : List (Message Body)) (s s' : Slots Body)
      → ms' ≡ ms
      → s' ≡ s
      → IsIndexed ms s
      → IsIndexed ms' s'
  IsIndexed-equal ms ms' s s' e f h =
      subst (λ u. IsIndexed u s') (sym e) (subst (λ t. IsIndexed ms t) (sym f) h)

  pub IsIndexed-append :
      (ms : List (Message Body)) (s : Slots Body) (m : Message Body) (i : String)
      → m.id ≡ some i
      → get s.index i ≡ none
      → IsIndexed ms s
      → IsIndexed
          (ms ++ m ∷ [])
          (record { result = s.result ++ some m ∷ []; index = put s.index i (length s.result) })
  IsIndexed-append ms s m i e g h = record {
    listed = compact-append s.result m ∙ ap (λ u. u ++ m ∷ []) h.listed;
    placed = λ j. ground (
      arith,
      get-put s.index i j (length s.result),
      position-append j s.result (some m),
      id_is-named i j m e,
      h.placed j,
      h.placed i,
      eq_iff i j,
      ap (λ u. position u s.result),
    );
    distinct = λ j. ground (
      arith,
      times-append j s.result (some m),
      id_is-named i j m e,
      h.distinct j,
      position-times i s.result,
      h.placed i,
      same_of_eq i j,
      ap (λ u. times u s.result),
    );
  }

  pub IsIndexed-plain :
      (ms : List (Message Body)) (s : Slots Body) (m : Message Body)
      → m.id ≡ none
      → IsIndexed ms s
      → IsIndexed (ms ++ m ∷ []) (record s { result = s.result ++ some m ∷ [] })
  IsIndexed-plain ms s m e h = record {
    listed = compact-append s.result m ∙ ap (λ u. u ++ m ∷ []) h.listed;
    placed = λ j. ground (arith, position-append j s.result (some m), h.placed j);
    distinct = λ j. ground (arith, times-append j s.result (some m), h.distinct j);
  }

  -- The index of an id that is known says which slot holds its message.
  Holds-index :
      (ms : List (Message Body)) (s : Slots Body) (i : String) (n : ℕ)
      → IsIndexed ms s
      → get s.index i ≡ some n
      → Holds i n s.result
  Holds-index ms s i n h g = Holds-position i n s.result (sym (h.placed i) ∙ g) (h.distinct i)

  IsIndexed-remove :
      (ms : List (Message Body)) (s : Slots Body) (i : String) (n : ℕ)
      → get s.index i ≡ some n
      → IsIndexed ms s
      → IsIndexed
          (drop_id i ms)
          (record { result = set_at s.result n none; index = remove s.index i })
  IsIndexed-remove ms s i n g h =
      let at = Holds-index ms s i n h g in
      record {
        listed = compact-set_at-none i n s.result at ∙ ap (drop_id i) h.listed;
        placed = λ j.
            ground
              (arith, get-remove s.index i j, position-set_at-none i j n s.result at, h.placed j);
        distinct = λ j. ground (arith, times-set_at-none i j n s.result at, h.distinct j);
      }

  IsIndexed-replace :
      (ms : List (Message Body)) (s : Slots Body) (m : Message Body) (i : String) (n : ℕ)
      → m.id ≡ some i
      → get s.index i ≡ some n
      → IsIndexed ms s
      → IsIndexed (replace_id i m ms) (record s { result = set_at s.result n (some m) })
  IsIndexed-replace ms s m i n e g h =
      let at = Holds-index ms s i n h g in
      record {
        listed = compact-set_at-some i m e n s.result at ∙ ap (replace_id i m) h.listed;
        placed = λ j. h.placed j ∙ sym (position-set_at-some i m e j n s.result at);
        distinct = λ j. ground (arith, times-set_at-some i m e j n s.result at, h.distinct j);
      }

  -- What the index says of an id the list says too.
  known_id :
      (ms : List (Message Body)) (s : Slots Body) (i : String) (n : ℕ)
      → IsIndexed ms s
      → get s.index i ≡ some n
      → has_id i ms ≡ true
  known_id ms s i n h g =
      ap (has_id i) (sym h.listed) ∙ has_id-compact i s.result n (sym (h.placed i) ∙ g)

  new_id :
      (ms : List (Message Body)) (s : Slots Body) (i : String)
      → IsIndexed ms s
      → get s.index i ≡ none
      → (has_id i ms ≡ false) × (drop_id i ms ≡ ms)
  new_id ms s i h g =
      let at = absent-compact i s.result (sym (h.placed i) ∙ g) in
      (ap (has_id i) (sym h.listed) ∙ at.0, subst (λ u. drop_id i u ≡ u) h.listed at.1)

  pub IsIndexed-apply_known :
      (ms : List (Message Body)) (s : Slots Body) (m : Message Body) (i : String)
      → m.id ≡ some i
      → IsIndexed ms s
      → IsIndexed (reference_known i m ms) (apply_known i m s)
  unfolding apply_known
  IsIndexed-apply_known ms s m i e h = elim (Option-cases (get s.index i)) [
    | inl g ↦
        let absent = new_id ms s i h g in
        elim (Bool-cases m.removes) [
          | inl r ↦ rw (r, apply_known, g) (subst (λ u. IsIndexed u s) (sym absent.1) h)
          | inr r ↦
              let stepped : apply_known i m s ≡ record {
                result = s.result ++ some m ∷ [];
                index = put s.index i (length s.result);
              } =
                ground arith in
              IsIndexed-equal _ _ _ _ (ground (arith, absent.0)) stepped
                (IsIndexed-append ms s m i e g h)
        ]
    | inr (n, g) ↦ elim (Bool-cases m.removes) [
      | inl r ↦ rw (r, apply_known, g) (IsIndexed-remove ms s i n g h)
      | inr r ↦
          let stepped : apply_known i m s
              ≡ record { result = set_at s.result n (some m); index = s.index } =
            ground arith in
          IsIndexed-equal _ _ _ _ (ground (arith, known_id ms s i n h g)) stepped
            (IsIndexed-replace ms s m i n e g h)
    ]
  ]
