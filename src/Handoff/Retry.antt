-- ===== src/Handoff/Retry.antt =====
-- What retries of a settled handoff are answered.
use graph_skill_runtime.Common.{
  String, true, Option, none, some, ◌≡◌, ◌≢◌, refl, arith, eq_iff, Option-cases, inl, inr, ap,
}
use graph_skill_runtime.Domain.Agent.{AgentResult, RunResult}
use graph_skill_runtime.Handoff.{
  AgentHandoffRecord, Row, Table, Pydantic, Result, ok, err, completed_differently, select, update,
  record_of, replay, fresh, admit, with_result, with_response, insert_next, settle, submit,
  same_hash, Result-cases,
}
use graph_skill_runtime.Handoff.Rows.{select-update_self}
use graph_skill_runtime.Handoff.Settled.{Steps, Steps-keep, insert_next-keeps}

-- The row of `ref` holds `response`, given for a result of task `task_id` with hash `h`.
pub record IsSettled (p : Pydantic) (ref task_id h : String) (response : RunResult)
    (t : Table p.Json) : Type 0 where
  pub row : Row p.Json
  pub json : p.Json
  pub entry : AgentHandoffRecord
  pub found : select ref t ≡ some row
  pub done : row.response_json ≡ some json
  pub decoded : record_of p row ≡ ok entry
  pub answered : entry.response ≡ some response
  pub hashed : entry.result_hash ≡ some h
  pub owned : entry.task.task_id ≡ task_id

-- A record that carries a response was read from a row that has one.
response_json_of :
    (p : Pydantic) (row : Row p.Json) (r : AgentHandoffRecord) (response : RunResult)
    → record_of p row ≡ ok r
    → r.response ≡ some response
    → (j : p.Json) × (row.response_json ≡ some j)
unfolding record_of
response_json_of p row r response d a = elim (Option-cases row.response_json) [
  | inl e ↦ absurd (ground arith)
  | inr found ↦ found
]

same_hash-eq : (p : Pydantic) (o : Option String) (h : String) → same_hash p o h ≡ true → o ≡ some h
same_hash-eq p none h e = ground arith
same_hash-eq p (some g) h e = ground (arith, eq_iff g h)

module _ (p : Pydantic) (ref h : String) (result : AgentResult) where
  IsSettled-admit :
      (response : RunResult) (t : Table p.Json)
      → admit p ref result h t ≡ ok (replay response)
      → IsSettled p ref result.task_id h response t
  unfolding admit
  IsSettled-admit response t e = elim (Option-cases (select ref t)) [
    | inl f ↦ absurd (ground arith)
    | inr (row, f) ↦ elim (Result-cases (record_of p row)) [
      | inr (_, d) ↦ absurd (ground arith)
      | inl (r, d) ↦
          let a : r.response ≡ some response = ground arith in
          let (j, q) = response_json_of p row r response d a in
          record {
            row = row;
            json = j;
            entry = r;
            found = f;
            done = q;
            decoded = d;
            answered = a;
            hashed = same_hash-eq p r.result_hash h (ground arith);
            owned = ground (arith, eq_iff r.task.task_id result.task_id);
          }
    ]
  ]

  -- What a fresh submission leaves in its row.
  settled_row :
      (now now' : String) (response : RunResult) (row : Row p.Json) (r : AgentHandoffRecord)
      → record_of p row ≡ ok r
      → record_of p (with_response p now' response (with_result p now result h row))
        ≡ ok (record r { result_hash = some h; response = some response })
  unfolding record_of
  settled_row now now' response row r d = ground (arith, p.load_run-dump_run response)

  record FreshRow (t : Table p.Json) (r : AgentHandoffRecord) : Type 0 where
    row : Row p.Json
    found : select ref t ≡ some row
    decoded : record_of p row ≡ ok r
    owned : r.task.task_id ≡ result.task_id

  admit-FreshRow :
      (t : Table p.Json) (r : AgentHandoffRecord)
      → admit p ref result h t ≡ ok (fresh r)
      → FreshRow t r
  unfolding admit
  admit-FreshRow t r e = elim (Option-cases (select ref t)) [
    | inl f ↦ absurd (ground arith)
    | inr (row, f) ↦ elim (Result-cases (record_of p row)) [
      | inr (_, d) ↦ absurd (ground arith)
      | inl (r', d) ↦
          let same : r' ≡ r = ground arith in
          record {
            row = row;
            found = f;
            decoded = rw (← same) d;
            owned = ground (arith, eq_iff r'.task.task_id result.task_id);
          }
    ]
  ]

  settle-IsSettled :
      {W : Type 0} (now now' now'' : String) (before t : Table p.Json)
      (m : Result (RunResult × Option AgentHandoffRecord)) (w : W) (response : RunResult)
      (r : AgentHandoffRecord)
      → FreshRow t r
      → (settle p now' now'' ref before (update ref (with_result p now result h) t) (m, w)).0
        ≡ ok response
      → IsSettled p ref result.task_id h response
          (settle p now' now'' ref before (update ref (with_result p now result h) t) (m, w)).1
  unfolding settle
  settle-IsSettled now now' now'' before t (err x) w response r f e = cc
  settle-IsSettled now now' now'' before t (ok (answer, next)) w response r f e =
      let t1 = update ref (with_result p now result h) t in
      elim (Result-cases (insert_next p now' next t1)) [
        | inr (_, i) ↦ absurd (ground arith)
        | inl (t2, i) ↦
            let same : answer ≡ response = ground arith in
            let row1 = with_result p now result h f.row in
            rw (i, settle)
              (record {
                row = with_response p now'' answer row1;
                json = p.dump_run answer;
                entry = record r { result_hash = some h; response = some answer };
                found =
                    select-update_self (with_response p now'' answer) (λ _. refl) ref t2 row1
                      (insert_next-keeps p now' ref next t1 t2 row1 i (
                        select-update_self (with_result p now result h) (λ _. refl) ref t f.row
                          f.found));
                done = refl;
                decoded = settled_row now now'' answer f.row r f.decoded;
                answered = ap some same;
                hashed = refl;
                owned = f.owned;
              })
      ]

  -- A submission that was answered has settled its handoff.
  pub submit-IsSettled :
      {W : Type 0} (now now' now'' : String)
      (k : AgentHandoffRecord → String → W → Result (RunResult × Option AgentHandoffRecord) × W)
      (t : Table p.Json) (w : W) (response : RunResult)
      → (submit p now now' now'' ref result h k t w).0 ≡ ok response
      → IsSettled p ref result.task_id h response (submit p now now' now'' ref result h k t w).1
  unfolding submit
  submit-IsSettled now now' now'' k t w response e = elim (Result-cases (admit p ref result h t)) [
    | inr (_, a) ↦ absurd (ground arith)
    | inl (replay old, a) ↦ rw (a, submit) (IsSettled-admit response t (ground arith))
    | inl (fresh r, a) ↦
        let (m, w') = k r h w in
        rw (a, submit)
          (settle-IsSettled now now' now'' t t m w' response r (admit-FreshRow t r a)
            (ground arith))
  ]

module _ (p : Pydantic) (ref task_id h : String) (response : RunResult) where
  -- No call of the store unsettles a handoff.
  pub IsSettled-Steps :
      {W : Type 0} (t u : Table p.Json)
      → IsSettled p ref task_id h response t
      → Steps W p t u
      → IsSettled p ref task_id h response u
  IsSettled-Steps t u s steps = record {
    row = s.row;
    json = s.json;
    entry = s.entry;
    found = Steps-keep p ref s.json s.row steps s.found s.done;
    done = s.done;
    decoded = s.decoded;
    answered = s.answered;
    hashed = s.hashed;
    owned = s.owned;
  }

  module _ (t : Table p.Json) (s : IsSettled p ref task_id h response t) (result : AgentResult)
      (same : result.task_id ≡ task_id) where
    admit-settled : admit p ref result h t ≡ ok (replay response)
    unfolding admit
    admit-settled = ground (
      arith,
      s.found,
      s.decoded,
      s.answered,
      s.hashed,
      s.owned,
      eq_iff h h,
      eq_iff s.entry.task.task_id result.task_id,
    )

    admit-drifted : (g : String) → g ≢ h → admit p ref result g t ≡ err completed_differently
    unfolding admit
    admit-drifted g ne = ground (
      arith,
      s.found,
      s.decoded,
      s.answered,
      s.hashed,
      s.owned,
      eq_iff h g,
      eq_iff s.entry.task.task_id result.task_id,
    )

-- Once a submission of a result with hash `h` was answered `response`, every later submission for the
-- same checkpoint_ref and task with that hash is answered `response` too. It leaves the table as it
-- is and does not run its continuation, whatever calls were served in between.
pub retry_replays :
    (p : Pydantic) {W : Type 0} (now now' now'' ref h : String) (result : AgentResult)
    (k : AgentHandoffRecord → String → W → Result (RunResult × Option AgentHandoffRecord) × W)
    (t : Table p.Json) (w : W) (response : RunResult)
    → (submit p now now' now'' ref result h k t w).0 ≡ ok response
    → (u : Table p.Json) → Steps W p (submit p now now' now'' ref result h k t w).1 u
    → (at at' at'' : String) (again : AgentResult)
      (k' : AgentHandoffRecord → String → W → Result (RunResult × Option AgentHandoffRecord) × W)
      (v : W)
    → again.task_id ≡ result.task_id
    → submit p at at' at'' ref again h k' u v ≡ (ok response, u, v)
unfolding submit
retry_replays p now now' now'' ref h result k t w response e u steps at at' at'' again k' v same =
    let s =
      IsSettled-Steps p ref result.task_id h response _ u
        (submit-IsSettled p ref h result now now' now'' k t w response e) steps in
    rw (admit-settled p ref result.task_id h response u s again same, submit)

-- After the same, a submission for that checkpoint_ref and task with another hash is refused, and
-- leaves the table and the graph as they are.
pub drift_is_refused :
    (p : Pydantic) {W : Type 0} (now now' now'' ref h : String) (result : AgentResult)
    (k : AgentHandoffRecord → String → W → Result (RunResult × Option AgentHandoffRecord) × W)
    (t : Table p.Json) (w : W) (response : RunResult)
    → (submit p now now' now'' ref result h k t w).0 ≡ ok response
    → (u : Table p.Json) → Steps W p (submit p now now' now'' ref result h k t w).1 u
    → (at at' at'' g : String) (again : AgentResult)
      (k' : AgentHandoffRecord → String → W → Result (RunResult × Option AgentHandoffRecord) × W)
      (v : W)
    → again.task_id ≡ result.task_id
    → g ≢ h
    → submit p at at' at'' ref again g k' u v ≡ (err completed_differently, u, v)
unfolding submit
drift_is_refused p now now' now'' ref h result k t w response e u steps at at' at'' g again k' v
      same ne =
    let s =
      IsSettled-Steps p ref result.task_id h response _ u
        (submit-IsSettled p ref h result now now' now'' k t w response e) steps in
    rw (admit-drifted p ref result.task_id h response u s again same g ne, submit)
