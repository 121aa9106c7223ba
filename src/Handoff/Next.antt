-- ===== src/Handoff/Next.antt =====
-- The handoff that a submission made durable for the next wait point can be read back.
use graph_skill_runtime.Common.{
  String, true, Option, none, some, [], ◌∷◌, ◌++◌, ◌≡◌, refl, arith, eq_iff, ◌==◌, Option-cases,
  Bool-cases, same_of_eq, ne_of_eq, inl, inr, ◌∙◌, sym,
}
use mathlib.Core.Path.{subst}
use graph_skill_runtime.Domain.Agent.{AgentResult, RunResult}
use graph_skill_runtime.Handoff.{
  AgentHandoffRecord, Row, Table, Pydantic, Result, StoreError, replay, ok, err, select,
  select_claim, update, load, record_of, required_row, same_required, insert_required, put_required,
  fresh, admit, with_result, with_response, insert_next, settle, submit, Result-cases,
}
use graph_skill_runtime.Handoff.Rows.{
  select-update_self, select-update_ne, select-none_of_claim, select-append_none,
}
use graph_skill_runtime.Handoff.Recovery.{record_of-required}

-- A claimed row with the checkpoint_ref is the row of the checkpoint_ref.
select-of_claim :
    {J : Type 0} (ref task_id : String) (t : Table J) (row : Row J)
    → select_claim ref task_id t ≡ some row
    → row.checkpoint_ref ≡ ref
    → select ref t ≡ some row
unfolding select select_claim
select-of_claim ref task_id [] row c e = absurd (ground arith)
select-of_claim ref task_id (x ∷ xs) row c e =
    ground (arith, eq_iff x.checkpoint_ref ref, select-of_claim ref task_id xs row)

module _ (p : Pydantic) where
  record_of-ref :
      (row : Row p.Json) (r : AgentHandoffRecord)
      → record_of p row ≡ ok r
      → r.checkpoint_ref ≡ row.checkpoint_ref
  unfolding record_of
  record_of-ref row r d = ground arith

  same_required-ref :
      (a b : AgentHandoffRecord) → same_required p a b ≡ true → a.checkpoint_ref ≡ b.checkpoint_ref
  unfolding same_required
  same_required-ref a b e = ground (arith, eq_iff a.checkpoint_ref b.checkpoint_ref)

  -- A handoff that is in the table under a checkpoint_ref.
  pub record IsReadable (ref : String) (t : Table p.Json) : Type 0 where
    pub row : Row p.Json
    pub entry : AgentHandoffRecord
    pub found : select ref t ≡ some row
    pub decoded : record_of p row ≡ ok entry

  pub IsReadable-load :
      (ref : String) (t : Table p.Json) (r : IsReadable ref t) → load p ref t ≡ ok r.entry
  unfolding load
  IsReadable-load ref t r = ground (arith, r.found, r.decoded)

  insert_required-IsReadable :
      (now : String) (r : AgentHandoffRecord) (t t' : Table p.Json)
      → insert_required p now r t ≡ ok t'
      → IsReadable r.checkpoint_ref t'
  unfolding insert_required
  insert_required-IsReadable now r t t' e =
      elim (Option-cases (select_claim r.checkpoint_ref r.task.task_id t)) [
        | inl free ↦
            let same : t ++ required_row p now r ∷ [] ≡ t' = ground arith in
            subst (IsReadable r.checkpoint_ref) same (record {
              row = required_row p now r;
              entry = record r { result_hash = none; response = none };
              found =
                  select-append_none r.checkpoint_ref t (required_row p now r)
                    (select-none_of_claim r.checkpoint_ref r.task.task_id t free) refl;
              decoded = record_of-required p now r;
            })
        | inr (row, taken) ↦ elim (Result-cases (record_of p row)) [
          | inr (_, d) ↦ absurd (ground arith)
          | inl (found, d) ↦ elim (Bool-cases (same_required p found r)) [
            | inr q ↦ absurd (ground arith)
            | inl q ↦
                let same : t ≡ t' = ground arith in
                subst (IsReadable r.checkpoint_ref) same (record {
                  row = row;
                  entry = found;
                  found =
                      select-of_claim r.checkpoint_ref r.task.task_id t row taken
                        (sym (record_of-ref row found d) ∙ same_required-ref found r q);
                  decoded = d;
                })
          ]
        ]
      ]

  -- A wait point that was put can be read back.
  pub put_required-IsReadable :
      (now : String) (r : AgentHandoffRecord) (t : Table p.Json) (u : Unit {0})
      → (put_required p now r t).0 ≡ ok u
      → IsReadable r.checkpoint_ref (put_required p now r t).1
  unfolding put_required
  put_required-IsReadable now r t u e = elim (Result-cases (insert_required p now r t)) [
    | inr (_, i) ↦ absurd (ground arith)
    | inl (t', i) ↦ rw (i, put_required) (insert_required-IsReadable now r t t' i)
  ]

  record_of-with_response :
      (now : String) (response : RunResult) (row : Row p.Json) (r : AgentHandoffRecord)
      → record_of p row ≡ ok r
      → record_of p (with_response p now response row) ≡ ok (record r { response = some response })
  unfolding record_of
  record_of-with_response now response row r d = ground (arith, p.load_run-dump_run response)

  -- A response that is written keeps every handoff readable.
  IsReadable-update :
      (now ref other : String) (response : RunResult) (t : Table p.Json)
      → IsReadable other t
      → IsReadable other (update ref (with_response p now response) t)
  IsReadable-update now ref other response t r = elim (Bool-cases (ref == other)) [
    | inl same ↦
        subst (λ (s : String). IsReadable other (update s (with_response p now response) t))
          (sym (same_of_eq ref other same))
          (record {
            row = with_response p now response r.row;
            entry = record r.entry { response = some response };
            found =
                select-update_self (with_response p now response) (λ _. refl) other t r.row r.found;
            decoded = record_of-with_response now response r.row r.entry r.decoded;
          })
    | inr diff ↦ record {
      row = r.row;
      entry = r.entry;
      found =
          select-update_ne (with_response p now response) (λ _. refl) ref other t
            (ne_of_eq ref other diff)
          ∙ r.found;
      decoded = r.decoded;
    }
  ]

  -- What an accepted fresh submission answers is what its continuation answered, and the next handoff
  -- of the continuation is in the table.
  pub record IsAccepted (response : RunResult) (m : Result (RunResult × Option AgentHandoffRecord))
      (t : Table p.Json) : Type 0 where
    pub next : Option AgentHandoffRecord
    pub continued : m ≡ ok (response, next)
    pub readable : (n : AgentHandoffRecord) → next ≡ some n → IsReadable n.checkpoint_ref t

  module _ {W : Type 0} where
    settle-IsAccepted :
        (now now' ref : String) (before t : Table p.Json)
        (m : Result (RunResult × Option AgentHandoffRecord)) (w : W) (response : RunResult)
        → (settle p now now' ref before t (m, w)).0 ≡ ok response
        → IsAccepted response m (settle p now now' ref before t (m, w)).1
    unfolding settle insert_next
    settle-IsAccepted now now' ref before t (err e) w response q = absurd (ground arith)
    settle-IsAccepted now now' ref before t (ok (given, none)) w response q = record {
      next = none;
      continued = ground arith;
      readable = λ n e. absurd (ground arith);
    }
    settle-IsAccepted now now' ref before t (ok (given, some n)) w response q =
        elim (Result-cases (insert_required p now n t)) [
          | inr (_, i) ↦ absurd (ground arith)
          | inl (t', i) ↦
              rw (i, settle, insert_next)
                (record {
                  next = some n;
                  continued = ground arith;
                  readable = λ k e.
                      let same : n ≡ k = ground arith in
                      subst
                        (λ (x : AgentHandoffRecord).
                          IsReadable x.checkpoint_ref (update ref (with_response p now' given) t'))
                        same
                        (IsReadable-update now' ref n.checkpoint_ref given t'
                          (insert_required-IsReadable now n t t' i));
                })
        ]

    pub submit-IsAccepted :
        (now now' now'' ref : String) (result : AgentResult) (h : String)
        (k : AgentHandoffRecord → String → W → Result (RunResult × Option AgentHandoffRecord) × W)
        (t : Table p.Json) (w : W) (r : AgentHandoffRecord) (response : RunResult)
        → admit p ref result h t ≡ ok (fresh r)
        → (submit p now now' now'' ref result h k t w).0 ≡ ok response
        → IsAccepted response (k r h w).0 (submit p now now' now'' ref result h k t w).1
    unfolding submit
    submit-IsAccepted now now' now'' ref result h k t w r response a q =
        rw (a, submit)
          (settle-IsAccepted now' now'' ref t (update ref (with_result p now result h) t)
            (k r h w).0 (k r h w).1 response (step a q))
      where
        step :
            admit p ref result h t ≡ ok (fresh r)
            → (submit p now now' now'' ref result h k t w).0 ≡ ok response
            → (settle p now' now'' ref t (update ref (with_result p now result h) t) (k r h w)).0
              ≡ ok response
        step a q = ground arith

    -- What a submission that is not fresh answers.
    pub submit-refused :
        (now now' now'' ref : String) (result : AgentResult) (h : String)
        (k : AgentHandoffRecord → String → W → Result (RunResult × Option AgentHandoffRecord) × W)
        (t : Table p.Json) (w : W) (e : StoreError)
        → admit p ref result h t ≡ err e
        → submit p now now' now'' ref result h k t w ≡ (err e, t, w)
    unfolding submit
    submit-refused now now' now'' ref result h k t w e a = rw (a, submit) refl

    pub submit-replayed :
        (now now' now'' ref : String) (result : AgentResult) (h : String)
        (k : AgentHandoffRecord → String → W → Result (RunResult × Option AgentHandoffRecord) × W)
        (t : Table p.Json) (w : W) (response : RunResult)
        → admit p ref result h t ≡ ok (replay response)
        → submit p now now' now'' ref result h k t w ≡ (ok response, t, w)
    unfolding submit
    submit-replayed now now' now'' ref result h k t w response a = rw (a, submit) refl

    -- A fresh submission whose continuation goes through, with a next handoff that the table takes, is
    -- answered what the continuation answered.
    pub submit-answers :
        (now now' now'' ref : String) (result : AgentResult) (h : String)
        (k : AgentHandoffRecord → String → W → Result (RunResult × Option AgentHandoffRecord) × W)
        (t : Table p.Json) (w : W) (r : AgentHandoffRecord) (response : RunResult)
        (next : Option AgentHandoffRecord) (t' : Table p.Json)
        → admit p ref result h t ≡ ok (fresh r)
        → (k r h w).0 ≡ ok (response, next)
        → insert_next p now' next (update ref (with_result p now result h) t) ≡ ok t'
        → (submit p now now' now'' ref result h k t w).0 ≡ ok response
    unfolding submit settle
    submit-answers now now' now'' ref result h k t w r response next t' a goes inserted =
        ground arith
