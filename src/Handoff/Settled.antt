-- ===== src/Handoff/Settled.antt =====
-- A handoff is settled once: what `submit` answered for it is what every later retry is answered,
-- whatever other calls the store serves in between.
use graph_skill_runtime.Common.{String, Option, none, some, ◌≡◌, ◌≢◌, refl, arith, inl, inr}
use graph_skill_runtime.Domain.Agent.{AgentResult, RunResult}
use graph_skill_runtime.Handoff.{
  AgentHandoffRecord, Row, Table, Pydantic, Result, ok, err, select, update, record_of,
  insert_required, put_required, replay, fresh, admit, with_result, with_response, insert_next,
  settle, submit, Result-cases,
}
use graph_skill_runtime.Handoff.Rows.{select-update_ne, select-insert_required}

-- A call that another client of the store may make.
pub data Step (W : Type 0) (p : Pydantic) : Table p.Json → Table p.Json → Type 0 where
  put :
      (now : String) (r : AgentHandoffRecord) (t : Table p.Json)
      → Step W p t (put_required p now r t).1
  answer :
      (now now' now'' ref : String) (result : AgentResult) (result_hash : String)
      (continuation : AgentHandoffRecord
        → String
        → W
        → Result (RunResult × Option AgentHandoffRecord) × W)
      (t : Table p.Json) (w : W)
      → Step W p t (submit p now now' now'' ref result result_hash continuation t w).1

pub data Steps (W : Type 0) (p : Pydantic) (s : Table p.Json) : Table p.Json → Type 0 where
  here : Steps W p s s
  more : {t u : Table p.Json} → Steps W p s t → Step W p t u → Steps W p s u

module _ (p : Pydantic) where
  pub put_required-keeps :
      (now ref : String) (r : AgentHandoffRecord) (t : Table p.Json) (row : Row p.Json)
      → select ref t ≡ some row
      → select ref (put_required p now r t).1 ≡ some row
  unfolding put_required
  put_required-keeps now ref r t row found = elim (Result-cases (insert_required p now r t)) [
    | inl (t', e) ↦ rw (e, put_required) (select-insert_required p now ref r t t' row e found)
    | inr (_, e) ↦ rw (e, put_required) found
  ]

  -- A completed row is never waiting.
  admit-ne-fresh :
      (ref : String) (result : AgentResult) (h : String) (j : p.Json) (t : Table p.Json)
      (row : Row p.Json) (r : AgentHandoffRecord)
      → select ref t ≡ some row
      → row.response_json ≡ some j
      → admit p ref result h t ≢ ok (fresh r)
  unfolding admit record_of
  admit-ne-fresh ref result h j t row r found done e = ground arith

  pub insert_next-keeps :
      (now ref : String) (next : Option AgentHandoffRecord) (t t' : Table p.Json) (row : Row p.Json)
      → insert_next p now next t ≡ ok t'
      → select ref t ≡ some row
      → select ref t' ≡ some row
  unfolding insert_next
  insert_next-keeps now ref none t t' row e found = ground arith
  insert_next-keeps now ref (some r) t t' row e found =
      select-insert_required p now ref r t t' row e found

module _ (p : Pydantic) {W : Type 0} where
  -- What a waiting submission does to another row: nothing.
  pub settle-keeps :
      (now now' ref other : String) (before t : Table p.Json)
      (m : Result (RunResult × Option AgentHandoffRecord)) (w : W) (row : Row p.Json)
      → ref ≢ other
      → select other before ≡ some row
      → select other t ≡ some row
      → select other (settle p now now' ref before t (m, w)).1 ≡ some row
  unfolding settle
  settle-keeps now now' ref other before t (err e) w row ne found found' = found
  settle-keeps now now' ref other before t (ok (response, next)) w row ne found found' =
      elim (Result-cases (insert_next p now next t)) [
        | inl (t', e) ↦
            rw
              (
                e,
                settle,
                select-update_ne (with_response p now' response) (λ _. refl) ref other t' ne,
              )
              (insert_next-keeps p now other next t t' row e found')
        | inr (_, e) ↦ rw (e, settle) found
      ]

  submit-keeps :
      (now now' now'' ref other : String) (result : AgentResult) (h : String)
      (k : AgentHandoffRecord → String → W → Result (RunResult × Option AgentHandoffRecord) × W)
      (t : Table p.Json) (w : W) (row : Row p.Json) (j : p.Json)
      → select other t ≡ some row
      → row.response_json ≡ some j
      → select other (submit p now now' now'' ref result h k t w).1 ≡ some row
  unfolding submit
  submit-keeps now now' now'' ref other result h k t w row j found done =
      elim (Result-cases (admit p ref result h t)) [
        | inr (_, e) ↦ rw (e, submit) found
        | inl (replay response, e) ↦ rw (e, submit) found
        | inl (fresh r, e) ↦
            let ne : ref ≢ other =
              λ same. admit-ne-fresh p ref result h j t row r (rw same found) done e in
            let (m, w') = k r h w in
            rw (e, submit)
              (settle-keeps now' now'' ref other t (update ref (with_result p now result h) t) m w'
                row ne found
                (rw (select-update_ne (with_result p now result h) (λ _. refl) ref other t ne)
                  found))
      ]

  -- A completed handoff keeps its row through every call.
  pub Steps-keep :
      (other : String) (j : p.Json) {t u : Table p.Json} (row : Row p.Json)
      → Steps W p t u
      → select other t ≡ some row
      → row.response_json ≡ some j
      → select other u ≡ some row
  Steps-keep other j row here found done = found
  Steps-keep other j row (more steps (put now r t)) found done =
      put_required-keeps p now other r t row (Steps-keep other j row steps found done)
  Steps-keep other j row (more steps (answer now now' now'' ref result h k t w)) found done =
      submit-keeps now now' now'' ref other result h k t w row j
        (Steps-keep other j row steps found done) done
