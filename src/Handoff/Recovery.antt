-- ===== src/Handoff/Recovery.antt =====
-- What a repeated `run` finds: the wait point that was made durable, and no second one.
use graph_skill_runtime.Common.{
  String, Bool, true, false, Option, none, some, [], ◌∷◌, ◌++◌, ◌≡◌, ◌≢◌, ◌==◌, arith, eq_iff,
  eq_of_ne,
}
use graph_skill_runtime.Domain.Agent.{AgentResult, RunResult}
use graph_skill_runtime.Handoff.{
  AgentHandoffRecord, Row, Table, Pydantic, Result, ok, is_active, select_claim, claims, update,
  record_of, insert_required, put_required, fresh, admit, with_result, with_response, insert_next,
  settle, submit, required_row, same_required, latest, recover_run,
}

select_claim-append :
    {J : Type 0} (ref task_id : String) (t : Table J) (row : Row J)
    → select_claim ref task_id t ≡ none
    → claims ref task_id row ≡ true
    → select_claim ref task_id (t ++ row ∷ []) ≡ some row
unfolding select_claim
select_claim-append ref task_id [] row h c = ground arith
select_claim-append ref task_id (x ∷ xs) row h c =
    ground (arith, select_claim-append ref task_id xs row)

latest-append :
    {J : Type 0} (test : Row J → Bool) (t : Table J) (row : Row J)
    → test row ≡ true
    → latest test (t ++ row ∷ []) ≡ some row
unfolding latest
latest-append test [] row h = ground arith
latest-append test (x ∷ xs) row h = ground (arith, latest-append test xs row h)

update-append :
    {J : Type 0} (ref : String) (change : Row J → Row J) (t : Table J) (row : Row J)
    → (row.checkpoint_ref == ref) ≡ false
    → update ref change (t ++ row ∷ []) ≡ update ref change t ++ row ∷ []
unfolding update
update-append ref change [] row h = ground arith
update-append ref change (x ∷ xs) row h = ground (arith, update-append ref change xs row h)

module _ (p : Pydantic) (now : String) (r : AgentHandoffRecord) where
  claims-required : claims r.checkpoint_ref r.task.task_id (required_row p now r) ≡ true
  claims-required = ground (arith, eq_iff r.checkpoint_ref r.checkpoint_ref)

  pub record_of-required :
      record_of p (required_row p now r) ≡ ok (record r { result_hash = none; response = none })
  unfolding record_of
  record_of-required =
      ground (arith, p.load_task-dump_task r.task, p.load_run-dump_run r.required_response)

  same_required_self : same_required p (record r { result_hash = none; response = none }) r ≡ true
  unfolding same_required
  same_required_self = ground (
    arith,
    p.same_task_refl r.task,
    p.same_run_refl r.required_response,
    eq_iff r.checkpoint_ref r.checkpoint_ref,
    eq_iff r.checkpoint_id r.checkpoint_id,
    eq_iff r.checkpoint_ns r.checkpoint_ns,
  )

  recover_run-appended :
      (t : Table p.Json)
      → recover_run p r.task.run_id (t ++ required_row p now r ∷ []) ≡ ok (some r.required_response)
  unfolding recover_run
  recover_run-appended t = ground (
    arith,
    record_of-required,
    eq_iff r.task.run_id r.task.run_id,
    latest-append (is_active p r.task.run_id) t (required_row p now r),
  )

-- A wait point that was accepted can be put again: the call succeeds and changes nothing.
pub put_required_idem :
    (p : Pydantic) (now now' : String) (r : AgentHandoffRecord) (t : Table p.Json)
    → (put_required p now r t).0 ≡ ok tt
    → put_required p now' r (put_required p now r t).1 ≡ (ok tt, (put_required p now r t).1)
unfolding put_required insert_required
put_required_idem p now now' r t e = ground (
  arith,
  claims-required p now r,
  record_of-required p now r,
  same_required_self p now r,
  select_claim-append r.checkpoint_ref r.task.task_id t (required_row p now r),
)

-- After a wait point with new keys was put, a repeated run with its run id is answered by it.
pub recover_run-put_required :
    (p : Pydantic) (now : String) (r : AgentHandoffRecord) (t : Table p.Json)
    → select_claim r.checkpoint_ref r.task.task_id t ≡ none
    → recover_run p r.task.run_id (put_required p now r t).1 ≡ ok (some r.required_response)
unfolding put_required insert_required
recover_run-put_required p now r t free =
    rw (free, put_required, insert_required) (recover_run-appended p now r t)

settle-next :
    (p : Pydantic) {W : Type 0} (now now' ref : String) (before t : Table p.Json) (w : W)
    (n : AgentHandoffRecord) (response : RunResult)
    → select_claim n.checkpoint_ref n.task.task_id t ≡ none
    → n.checkpoint_ref ≢ ref
    → ((settle p now now' ref before t (ok (response, some n), w)).0 ≡ ok response)
      × (recover_run p n.task.run_id (settle p now now' ref before t (ok (response, some n), w)).1
          ≡ ok (some n.required_response))
unfolding settle insert_next insert_required
settle-next p now now' ref before t w n response free ne = (
  ground arith,
  rw
      (
        settle,
        insert_next,
        insert_required,
        free,
        update-append ref (with_response p now' response) t (required_row p now n)
            (eq_of_ne _ _ ne),
      )
      (recover_run-appended p now n (update ref (with_response p now' response) t)),
)

-- A submission whose continuation stopped at a next Agent phase, with new keys, makes that wait point
-- durable with the response: a repeated run with its run id is answered by the next wait point.
pub recover_run-submit :
    (p : Pydantic) {W : Type 0} (now now' now'' ref : String) (result : AgentResult) (h : String)
    (k : AgentHandoffRecord → String → W → Result (RunResult × Option AgentHandoffRecord) × W)
    (t : Table p.Json) (w w' : W) (r n : AgentHandoffRecord) (response : RunResult)
    → admit p ref result h t ≡ ok (fresh r)
    → k r h w ≡ (ok (response, some n), w')
    → select_claim n.checkpoint_ref n.task.task_id (update ref (with_result p now result h) t)
      ≡ none
    → n.checkpoint_ref ≢ ref
    → ((submit p now now' now'' ref result h k t w).0 ≡ ok response)
      × (recover_run p n.task.run_id (submit p now now' now'' ref result h k t w).1
          ≡ ok (some n.required_response))
unfolding submit
recover_run-submit p now now' now'' ref result h k t w w' r n response waiting goes free ne =
    rw (waiting, submit, goes)
      (settle-next p now' now'' ref t (update ref (with_result p now result h) t) w' n response free
        ne)
