-- ===== src/Handoff/Asked.antt =====
-- What a host was asked stays what it was: no call of the store changes the request of a handoff.
use graph_skill_runtime.Common.{
  String, Option, some, ◌≡◌, ◌≢◌, refl, arith, ◌==◌, Option-cases, Bool-cases, same_of_eq, ne_of_eq,
  inl, inr,
}
use graph_skill_runtime.Domain.Agent.{AgentTask, AgentResult, RunResult}
use graph_skill_runtime.Handoff.{
  AgentHandoffRecord, Row, Table, Pydantic, Result, ok, err, select, update, load, record_of,
  replay, fresh, admit, with_result, with_response, insert_next, settle, submit, Result-cases,
}
use graph_skill_runtime.Handoff.Rows.{select-update_self, select-update_ne}
use graph_skill_runtime.Handoff.Settled.{
  Steps, here, more, put, answer, insert_next-keeps, settle-keeps, put_required-keeps,
}

module _ (p : Pydantic) where
  -- The handoff of `ref` asks for `task`, with the answer `required` that announced it.
  pub record IsAsked (ref : String) (task : AgentTask) (required : RunResult) (t : Table p.Json)
      : Type 0 where
    pub row : Row p.Json
    pub entry : AgentHandoffRecord
    pub found : select ref t ≡ some row
    pub decoded : record_of p row ≡ ok entry
    pub same_task : entry.task ≡ task
    pub same_required : entry.required_response ≡ required

  pub load-IsAsked :
      (ref : String) (t : Table p.Json) (r : AgentHandoffRecord)
      → load p ref t ≡ ok r
      → IsAsked ref r.task r.required_response t
  unfolding load
  load-IsAsked ref t r e = elim (Option-cases (select ref t)) [
    | inl q ↦ absurd (ground arith)
    | inr (row, q) ↦ record {
      row = row;
      entry = r;
      found = q;
      decoded = ground arith;
      same_task = refl;
      same_required = refl;
    }
  ]

  pub IsAsked-load :
      (ref : String) (task : AgentTask) (required : RunResult) (t : Table p.Json)
      (a : IsAsked ref task required t)
      → load p ref t ≡ ok a.entry
  unfolding load
  IsAsked-load ref task required t a = ground (arith, a.found, a.decoded)

  -- A row that is still found asks for the same.
  IsAsked-found :
      (ref : String) (task : AgentTask) (required : RunResult) (t u : Table p.Json)
      (a : IsAsked ref task required t)
      → select ref u ≡ some a.row
      → IsAsked ref task required u
  IsAsked-found ref task required t u a q = record {
    row = a.row;
    entry = a.entry;
    found = q;
    decoded = a.decoded;
    same_task = a.same_task;
    same_required = a.same_required;
  }

  -- A row that took a result and its response asks for the same.
  settled_row :
      (now now' h : String) (result : AgentResult) (response : RunResult) (row : Row p.Json)
      (r : AgentHandoffRecord)
      → record_of p row ≡ ok r
      → record_of p (with_response p now' response (with_result p now result h row))
        ≡ ok (record r { result_hash = some h; response = some response })
  unfolding record_of
  settled_row now now' h result response row r d = ground (arith, p.load_run-dump_run response)

  module _ {W : Type 0} (ref : String) (task : AgentTask) (required : RunResult) where
    IsAsked-settle :
        (now now' now'' h : String) (result : AgentResult) (t : Table p.Json)
        (m : Result (RunResult × Option AgentHandoffRecord)) (w : W)
        → IsAsked ref task required t
        → IsAsked ref task required
            (settle p now' now'' ref t (update ref (with_result p now result h) t) (m, w)).1
    unfolding settle
    IsAsked-settle now now' now'' h result t (err e) w a = a
    IsAsked-settle now now' now'' h result t (ok (response, next)) w a =
        let t1 = update ref (with_result p now result h) t in
        elim (Result-cases (insert_next p now' next t1)) [
          | inr (_, i) ↦ rw (i, settle) a
          | inl (t2, i) ↦
              let row1 = with_result p now result h a.row in
              rw (i, settle)
                (record {
                  row = with_response p now'' response row1;
                  entry = record a.entry { result_hash = some h; response = some response };
                  found =
                      select-update_self (with_response p now'' response) (λ _. refl) ref t2 row1
                        (insert_next-keeps p now' ref next t1 t2 row1 i (
                          select-update_self (with_result p now result h) (λ _. refl) ref t a.row
                            a.found));
                  decoded = settled_row now now'' h result response a.row a.entry a.decoded;
                  same_task = a.same_task;
                  same_required = a.same_required;
                })
        ]

    IsAsked-submit :
        (now now' now'' other : String) (result : AgentResult) (h : String)
        (k : AgentHandoffRecord → String → W → Result (RunResult × Option AgentHandoffRecord) × W)
        (t : Table p.Json) (w : W)
        → IsAsked ref task required t
        → IsAsked ref task required (submit p now now' now'' other result h k t w).1
    unfolding submit
    IsAsked-submit now now' now'' other result h k t w a =
        elim (Result-cases (admit p other result h t)) [
          | inr (_, e) ↦ rw (e, submit) a
          | inl (replay response, e) ↦ rw (e, submit) a
          | inl (fresh r, e) ↦
              let (m, w') = k r h w in
              elim (Bool-cases (other == ref)) [
                | inl same ↦
                    rw (e, submit, same_of_eq other ref same)
                      (IsAsked-settle now now' now'' h result t m w' a)
                | inr diff ↦
                    let ne : other ≢ ref = ne_of_eq other ref diff in
                    rw (e, submit)
                      (IsAsked-found ref task required t _ a (
                        settle-keeps p now' now'' other ref t
                          (update other (with_result p now result h) t) m w' a.row ne a.found
                          (rw
                            (select-update_ne (with_result p now result h) (λ _. refl) other ref t
                              ne)
                            a.found)))
              ]
        ]

    pub IsAsked-Steps :
        {t u : Table p.Json}
        → Steps W p t u
        → IsAsked ref task required t
        → IsAsked ref task required u
    IsAsked-Steps here a = a
    IsAsked-Steps (more steps (put now r t)) a =
        let b = IsAsked-Steps steps a in
        IsAsked-found ref task required t _ b (put_required-keeps p now ref r t b.row b.found)
    IsAsked-Steps (more steps (answer now now' now'' other result h k t w)) a =
        IsAsked-submit now now' now'' other result h k t w (IsAsked-Steps steps a)
