-- ===== src/Handoff.antt =====
-- src/graph_skill_runtime/adapters/agent_handoffs.py: the store of host-native Agent handoffs.
-- The table `agent_handoffs` is its rows in rowid order; rows are never deleted, so an INSERT goes to
-- the end. BEGIN IMMEDIATE makes each method one step: it answers and leaves the committed table,
-- and an exception leaves the table that it began with. The graph run that the continuation drives
-- has a database of its own: its state, of type `W`, is not rolled back.
pub mod Rows
pub mod Identity
pub mod Settled
pub mod Retry
pub mod Recovery
pub mod Asked
pub mod Next
pub mod Tests
use graph_skill_runtime.Common.{
  ℕ, String, Bool, true, false, Option, none, some, List, [], ◌∷◌, ◌++◌, ◌≡◌, ◌==◌, ◌&&◌, ◌||◌,
  if◌then◌else◌, refl, inl, inr, ◌⊎◌,
}
use graph_skill_runtime.Domain.Agent.{AgentTask, AgentResult, RunResult}

pub record AgentHandoffRecord : Type 0 where
  pub checkpoint_ref : String
  pub task : AgentTask
  pub checkpoint_id : String
  pub checkpoint_ns : String
  pub required_response : RunResult
  pub result_hash : Option String
  pub response : Option RunResult

-- The columns of CREATE TABLE agent_handoffs. `J` is the type of a model's JSON text.
pub record Row (J : Type 0) : Type 0 where
  pub checkpoint_ref : String
  pub task_id : String
  pub run_id : String
  pub task_json : J
  pub checkpoint_id : String
  pub checkpoint_ns : String
  pub required_response_json : J
  pub result_json : Option J
  pub result_hash : Option String
  pub response_json : Option J
  pub created_at : String
  pub updated_at : String

abbrev pub Table : Type 0 → Type 0
Table J = List (Row J)

-- What a continuation raises: a HostNativeContractError, which is a ValueError, another ValueError, or
-- neither.
pub data Exception : Type 0 where
  contract_error value_error other_error : (message : String) → Exception

pub data StoreError : Type 0 where
  invalid_model identity_exists completed_differently : StoreError
  unknown_checkpoint : (checkpoint_ref : String) → StoreError
  task_mismatch : (submitted expected : String) → StoreError
  continuation_failed : Exception → StoreError

pub data Result (A : Type 0) : Type 0 where
  ok : A → Result A
  err : StoreError → Result A

infixl 5 ◌>>=◌
abbrev pub ◌>>=◌ : {A B : Type 0} → Result A → (A → Result B) → Result B
ok a >>= f = f a
err e >>= f = err e

pub Result-cases :
    {A : Type 0} (m : Result A) → ((a : A) × (m ≡ ok a)) ⊎ ((e : StoreError) × (m ≡ err e))
Result-cases (ok a) = inl (a, refl)
Result-cases (err e) = inr (e, refl)

-- What the store takes from pydantic: JSON text of a model, its validation, and `==` of models.
-- A dumped model is read back, and a model is equal to itself.
pub record Pydantic : Type 1 where
  pub Json : Type 0
  pub dump_task : AgentTask → Json
  pub load_task : Json → Option AgentTask
  pub dump_run : RunResult → Json
  pub load_run : Json → Option RunResult
  pub dump_result : AgentResult → Json
  pub same_task : AgentTask → AgentTask → Bool
  pub same_run : RunResult → RunResult → Bool
  pub load_task-dump_task : (t : AgentTask) → load_task (dump_task t) ≡ some t
  pub load_run-dump_run : (r : RunResult) → load_run (dump_run r) ≡ some r
  pub same_task_refl : (t : AgentTask) → same_task t t ≡ true
  pub same_run_refl : (r : RunResult) → same_run r r ≡ true

unfoldable pub or_raise : {A : Type 0} → StoreError → Option A → Result A
or_raise e none = err e
or_raise e (some a) = ok a

-- SELECT * FROM agent_handoffs WHERE checkpoint_ref = ?
unfoldable pub select : {J : Type 0} → String → Table J → Option (Row J)
select ref [] = none
select ref (row ∷ rows) = if row.checkpoint_ref == ref then some row else select ref rows

-- WHERE checkpoint_ref = ? OR task_id = ?
abbrev pub claims : {J : Type 0} → String → String → Row J → Bool
claims ref task_id row = row.checkpoint_ref == ref || row.task_id == task_id

unfoldable pub select_claim : {J : Type 0} → String → String → Table J → Option (Row J)
select_claim ref task_id [] = none
select_claim ref task_id (row ∷ rows) =
    if claims ref task_id row then some row else select_claim ref task_id rows

-- UPDATE agent_handoffs SET ... WHERE checkpoint_ref = ?
unfoldable pub update : {J : Type 0} → String → (Row J → Row J) → Table J → Table J
update ref change [] = []
update ref change (row ∷ rows) =
    (if row.checkpoint_ref == ref then change row else row) ∷ update ref change rows

-- ORDER BY rowid DESC LIMIT 1
unfoldable pub latest : {J : Type 0} → (Row J → Bool) → Table J → Option (Row J)
latest test [] = none
latest test (row ∷ rows) = elim (latest test rows) [
  | some later ↦ some later
  | none ↦ if test row then some row else none
]

module _ (p : Pydantic) where
  load_optional : Option p.Json → Result (Option RunResult)
  load_optional none = ok none
  load_optional (some json) = elim (p.load_run json) [
    | none ↦ err invalid_model
    | some r ↦ ok (some r)
  ]

  -- _record
  unfoldable pub record_of : Row p.Json → Result AgentHandoffRecord
  unfolding or_raise load_optional
  record_of row = do
    task ← or_raise invalid_model (p.load_task row.task_json)
    required ← or_raise invalid_model (p.load_run row.required_response_json)
    response ← load_optional row.response_json
    ok (record {
      checkpoint_ref = row.checkpoint_ref;
      task = task;
      checkpoint_id = row.checkpoint_id;
      checkpoint_ns = row.checkpoint_ns;
      required_response = required;
      result_hash = row.result_hash;
      response = response;
    })

  -- _same_required
  unfoldable pub same_required : AgentHandoffRecord → AgentHandoffRecord → Bool
  same_required left right =
      left.checkpoint_ref == right.checkpoint_ref
      && p.same_task left.task right.task
      && left.checkpoint_id == right.checkpoint_id
      && left.checkpoint_ns == right.checkpoint_ns
      && p.same_run left.required_response right.required_response

  abbrev pub required_row : String → AgentHandoffRecord → Row p.Json
  required_row now r = record {
    checkpoint_ref = r.checkpoint_ref;
    task_id = r.task.task_id;
    run_id = r.task.run_id;
    task_json = p.dump_task r.task;
    checkpoint_id = r.checkpoint_id;
    checkpoint_ns = r.checkpoint_ns;
    required_response_json = p.dump_run r.required_response;
    result_json = none;
    result_hash = none;
    response_json = none;
    created_at = now;
    updated_at = now;
  }

  -- _insert_required: the INSERT, or, where a key is taken, the check of what holds it. The INSERT
  -- raises IntegrityError exactly where a row has the primary key or the UNIQUE task_id.
  unfoldable pub insert_required :
      String → AgentHandoffRecord → Table p.Json → Result (Table p.Json)
  insert_required now r table = elim (select_claim r.checkpoint_ref r.task.task_id table) [
    | none ↦ ok (table ++ required_row now r ∷ [])
    | some row ↦ do
      found ← record_of row
      if same_required found r then ok table else err identity_exists
  ]

  unfoldable pub put_required :
      String → AgentHandoffRecord → Table p.Json → Result (Unit {0}) × Table p.Json
  put_required now r table = elim (insert_required now r table) [
    | ok table' ↦ (ok tt, table')
    | err e ↦ (err e, table)
  ]

  unfoldable pub load : String → Table p.Json → Result AgentHandoffRecord
  unfolding or_raise
  load ref table = do row ← or_raise (unknown_checkpoint ref) (select ref table); record_of row

  abbrev pub is_active : String → Row p.Json → Bool
  is_active run_id row = row.run_id == run_id && elim row.response_json [ none ↦ true | _ ↦ false ]

  abbrev pub is_completed : String → Row p.Json → Bool
  is_completed run_id row =
      row.run_id == run_id && elim row.response_json [ none ↦ false | _ ↦ true ]

  unfoldable pub recover_run : String → Table p.Json → Result (Option RunResult)
  recover_run run_id table = elim (latest (is_active run_id) table) [
    | some active ↦ do r ← record_of active; ok (some r.required_response)
    | none ↦ elim (latest (is_completed run_id) table) [
      | none ↦ ok none
      | some completed ↦ do r ← record_of completed; ok r.response
    ]
  ]

  pub data Admission : Type 0 where
    replay : RunResult → Admission
    fresh : AgentHandoffRecord → Admission

  abbrev pub same_hash : Option String → String → Bool
  same_hash none h = false
  same_hash (some g) h = g == h

  -- The checks of `submit` up to the first UPDATE: a cached response, or the waiting record.
  unfoldable pub admit : String → AgentResult → String → Table p.Json → Result Admission
  unfolding or_raise
  admit ref result result_hash table = do
    row ← or_raise (unknown_checkpoint ref) (select ref table)
    r ← record_of row
    if r.task.task_id == result.task_id
        then elim r.response [
          | some response ↦
              if same_hash r.result_hash result_hash
              then ok (replay response)
              else err completed_differently
          | none ↦ ok (fresh r)
        ]
        else err (task_mismatch result.task_id r.task.task_id)

  abbrev pub with_result : String → AgentResult → String → Row p.Json → Row p.Json
  with_result now result result_hash row = record row {
    result_json = some (p.dump_result result);
    result_hash = some result_hash;
    updated_at = now;
  }

  abbrev pub with_response : String → RunResult → Row p.Json → Row p.Json
  with_response now response row = record row {
    response_json = some (p.dump_run response);
    updated_at = now;
  }

  unfoldable pub insert_next :
      String → Option AgentHandoffRecord → Table p.Json → Result (Table p.Json)
  insert_next now none table = ok table
  insert_next now (some r) table = insert_required now r table

  module _ {W : Type 0} where
    -- What the continuation did to the graph's state stands, whatever becomes of the transaction.
    unfoldable pub settle :
        String
        → String
        → String
        → Table p.Json
        → Table p.Json
        → Result (RunResult × Option AgentHandoffRecord) × W
        → Result RunResult × Table p.Json × W
    unfolding insert_next
    settle now now' ref before table (err e, w) = (err e, before, w)
    settle now now' ref before table (ok (response, next), w) = elim (insert_next now next table) [
      | err e ↦ (err e, before, w)
      | ok table' ↦ (ok response, update ref (with_response now' response) table', w)
    ]

    -- submit; `now`, `now'` and `now''` are its readings of the clock, in their order.
    unfoldable pub submit :
        (now now' now'' ref : String) (result : AgentResult) (result_hash : String)
        (continuation : AgentHandoffRecord
          → String
          → W
          → Result (RunResult × Option AgentHandoffRecord) × W)
        (table : Table p.Json) (w : W)
        → Result RunResult × Table p.Json × W
    submit now now' now'' ref result result_hash continuation table w =
        elim (admit ref result result_hash table) [
          | err e ↦ (err e, table, w)
          | ok (replay response) ↦ (ok response, table, w)
          | ok (fresh r) ↦
              settle now' now'' ref table (update ref (with_result now result result_hash) table)
                (continuation r result_hash w)
        ]
