-- ===== src/Handoff/Identity.antt =====
-- The two keys of `agent_handoffs` stay unique, and a refused call writes nothing.
use graph_skill_runtime.Common.{
  String, Option, none, some, List, [], ◌∷◌, ◌++◌, ◌≡◌, refl, arith, eq_iff, Option-cases, inl, inr,
  Unique, Unique-snoc, Absent, map, Bool-cases,
}
use graph_skill_runtime.Domain.Agent.{AgentResult, RunResult}
use graph_skill_runtime.Handoff.{
  AgentHandoffRecord, Row, Table, Pydantic, Result, StoreError, ok, err, select_claim, claims,
  update, insert_required, put_required, replay, fresh, admit, with_result, with_response,
  insert_next, settle, submit, Result-cases, required_row,
}
use graph_skill_runtime.Handoff.Settled.{Steps, here, more, put, answer}
use mathlib.Core.List.{map-append}

abbrev pub refs : {J : Type 0} → Table J → List String
refs {J} = map (λ (row : Row J). row.checkpoint_ref)

abbrev pub task_ids : {J : Type 0} → Table J → List String
task_ids {J} = map (λ (row : Row J). row.task_id)

-- The PRIMARY KEY and the UNIQUE column of the schema.
pub record HasUniqueKeys {J : Type 0} (t : Table J) : Type 0 where
  pub refs_unique : Unique (refs t)
  pub task_ids_unique : Unique (task_ids t)

-- An UPDATE of other columns keeps the keys.
module _ {J : Type 0} (change : Row J → Row J)
    (same_ref : (row : Row J) → (change row).checkpoint_ref ≡ row.checkpoint_ref)
    (same_task_id : (row : Row J) → (change row).task_id ≡ row.task_id) where
  refs-update : (ref : String) (t : Table J) → refs (update ref change t) ≡ refs t
  unfolding update
  refs-update ref [] = refl
  refs-update ref (x ∷ xs) = ground (arith, same_ref x, refs-update ref xs)

  task_ids-update : (ref : String) (t : Table J) → task_ids (update ref change t) ≡ task_ids t
  unfolding update
  task_ids-update ref [] = refl
  task_ids-update ref (x ∷ xs) = ground (arith, same_task_id x, task_ids-update ref xs)

  HasUniqueKeys-update :
      (ref : String) (t : Table J) → HasUniqueKeys t → HasUniqueKeys (update ref change t)
  HasUniqueKeys-update ref t u = record {
    refs_unique = rw (refs-update ref t) u.refs_unique;
    task_ids_unique = rw (task_ids-update ref t) u.task_ids_unique;
  }

-- A key that no row claims is absent.
Absent-claim :
    {J : Type 0} (ref task_id : String) (t : Table J)
    → select_claim ref task_id t ≡ none
    → Absent ref (refs t) × Absent task_id (task_ids t)
unfolding select_claim
Absent-claim ref task_id [] h = (tt, tt)
Absent-claim ref task_id (x ∷ xs) h = elim (Bool-cases (claims ref task_id x)) [
  | inl taken ↦ absurd (ground arith)
  | inr free ↦
      let rest : Absent ref (refs xs) × Absent task_id (task_ids xs) =
        Absent-claim ref task_id xs (ground arith) in
      (
        (λ e. ground (arith, eq_iff x.checkpoint_ref ref), rest.0),
        (λ e. ground (arith, eq_iff x.task_id task_id), rest.1),
      )
]

module _ (p : Pydantic) where
  HasUniqueKeys-insert_required :
      (now : String) (r : AgentHandoffRecord) (t t' : Table p.Json)
      → insert_required p now r t ≡ ok t'
      → HasUniqueKeys t
      → HasUniqueKeys t'
  unfolding insert_required
  HasUniqueKeys-insert_required now r t t' e u =
      elim (Option-cases (select_claim r.checkpoint_ref r.task.task_id t)) [
        | inr (row, c) ↦ let same : t ≡ t' = ground arith in rw (← same) u
        | inl c ↦
            let (ref_free, task_free) = Absent-claim r.checkpoint_ref r.task.task_id t c in
            let same : t ++ required_row p now r ∷ [] ≡ t' = ground arith in
            rw (← same) (record {
              refs_unique = rw map-append (Unique-snoc (refs t) _ u.refs_unique ref_free);
              task_ids_unique =
                  rw map-append (Unique-snoc (task_ids t) _ u.task_ids_unique task_free);
            })
      ]

  put_required-HasUniqueKeys :
      (now : String) (r : AgentHandoffRecord) (t : Table p.Json)
      → HasUniqueKeys t
      → HasUniqueKeys (put_required p now r t).1
  unfolding put_required
  put_required-HasUniqueKeys now r t u = elim (Result-cases (insert_required p now r t)) [
    | inl (t', e) ↦ rw (e, put_required) (HasUniqueKeys-insert_required now r t t' e u)
    | inr (_, e) ↦ rw (e, put_required) u
  ]

  HasUniqueKeys-insert_next :
      (now : String) (next : Option AgentHandoffRecord) (t t' : Table p.Json)
      → insert_next p now next t ≡ ok t'
      → HasUniqueKeys t
      → HasUniqueKeys t'
  unfolding insert_next
  HasUniqueKeys-insert_next now none t t' e u = let same : t ≡ t' = ground arith in rw (← same) u
  HasUniqueKeys-insert_next now (some r) t t' e u = HasUniqueKeys-insert_required now r t t' e u

  module _ {W : Type 0} where
    settle-HasUniqueKeys :
        (now now' ref : String) (before t : Table p.Json)
        (m : Result (RunResult × Option AgentHandoffRecord)) (w : W)
        → HasUniqueKeys before
        → HasUniqueKeys t
        → HasUniqueKeys (settle p now now' ref before t (m, w)).1
    unfolding settle
    settle-HasUniqueKeys now now' ref before t (err e) w ub u = ub
    settle-HasUniqueKeys now now' ref before t (ok (response, next)) w ub u =
        elim (Result-cases (insert_next p now next t)) [
          | inl (t', e) ↦
              rw (e, settle)
                (HasUniqueKeys-update (with_response p now' response) (λ _. refl) (λ _. refl) ref t'
                  (HasUniqueKeys-insert_next now next t t' e u))
          | inr (_, e) ↦ rw (e, settle) ub
        ]

    submit-HasUniqueKeys :
        (now now' now'' ref : String) (result : AgentResult) (h : String)
        (k : AgentHandoffRecord → String → W → Result (RunResult × Option AgentHandoffRecord) × W)
        (t : Table p.Json) (w : W)
        → HasUniqueKeys t
        → HasUniqueKeys (submit p now now' now'' ref result h k t w).1
    unfolding submit
    submit-HasUniqueKeys now now' now'' ref result h k t w u =
        elim (Result-cases (admit p ref result h t)) [
          | inr (_, e) ↦ rw (e, submit) u
          | inl (replay response, e) ↦ rw (e, submit) u
          | inl (fresh r, e) ↦
              let (m, w') = k r h w in
              rw (e, submit)
                (settle-HasUniqueKeys now' now'' ref t _ m w' u (
                  HasUniqueKeys-update (with_result p now result h) (λ _. refl) (λ _. refl) ref t
                    u))
        ]

-- Whatever calls a store serves, no two of its rows come to share a checkpoint_ref or a task_id.
pub Steps-HasUniqueKeys :
    {W : Type 0} (p : Pydantic) {t u : Table p.Json}
    → Steps W p t u
    → HasUniqueKeys t
    → HasUniqueKeys u
Steps-HasUniqueKeys p here k = k
Steps-HasUniqueKeys p (more steps (put now r t)) k =
    put_required-HasUniqueKeys p now r t (Steps-HasUniqueKeys p steps k)
Steps-HasUniqueKeys p (more steps (answer now now' now'' ref result h c t w)) k =
    submit-HasUniqueKeys p now now' now'' ref result h c t w (Steps-HasUniqueKeys p steps k)

-- A submission that raises leaves the committed table as it was, also where the continuation ran and
-- the graph went on.
pub submit-err :
    {W : Type 0} (p : Pydantic) (now now' now'' ref : String) (result : AgentResult) (h : String)
    (k : AgentHandoffRecord → String → W → Result (RunResult × Option AgentHandoffRecord) × W)
    (t : Table p.Json) (w : W) (e : StoreError)
    → (submit p now now' now'' ref result h k t w).0 ≡ err e
    → (submit p now now' now'' ref result h k t w).1 ≡ t
unfolding submit settle
submit-err p now now' now'' ref result h k t w e failed = ground arith
