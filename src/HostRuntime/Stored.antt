-- ===== src/HostRuntime/Stored.antt =====
-- The answers that the store gives back satisfy the validator of RunResult, where its rows hold such
-- answers.
use graph_skill_runtime.Common.{
  String, [], ◌∷◌, ◌==◌, Bool-cases, All, Bool, true, some, ◌≡◌, arith, Option-cases, inl, inr,
}
use mathlib.Core.Path.{subst}
use graph_skill_runtime.Domain.Agent.{AgentResult, RunResult}
use graph_skill_runtime.Engine.Payload.{payload_matches_status}
use graph_skill_runtime.Handoff.{
  AgentHandoffRecord, Row, Table, Pydantic, ok, select, latest, is_active, is_completed, record_of,
  load, recover_run, replay, admit, Result-cases,
}

abbrev pub IsValid : RunResult → Type 0
IsValid r = payload_matches_status r ≡ true

module _ (p : Pydantic) where
  -- What holds of the two answers of a record that was read.
  pub record HasValid (r : AgentHandoffRecord) : Type 0 where
    pub required_valid : IsValid r.required_response
    pub response_valid : (x : RunResult) → r.response ≡ some x → IsValid x

  abbrev pub IsValidRow : Row p.Json → Type 0
  IsValidRow row = (r : AgentHandoffRecord) → record_of p row ≡ ok r → HasValid r

  -- Every record of the table that can be read holds valid answers.
  abbrev pub AllValid : Table p.Json → Type 0
  AllValid = All IsValidRow

  select-IsValidRow :
      (ref : String) (t : Table p.Json) (row : Row p.Json)
      → AllValid t
      → select ref t ≡ some row
      → IsValidRow row
  unfolding select
  select-IsValidRow ref [] row v e = absurd (ground arith)
  select-IsValidRow ref (x ∷ xs) row v e = elim (Bool-cases (x.checkpoint_ref == ref)) [
    | inl q ↦ let same : x ≡ row = ground arith in subst IsValidRow same v.0
    | inr q ↦ select-IsValidRow ref xs row v.1 (ground arith)
  ]

  latest-IsValidRow :
      (test : Row p.Json → Bool) (t : Table p.Json) (row : Row p.Json)
      → AllValid t
      → latest test t ≡ some row
      → IsValidRow row
  unfolding latest
  latest-IsValidRow test [] row v e = absurd (ground arith)
  latest-IsValidRow test (x ∷ xs) row v e = elim (Option-cases (latest test xs)) [
    | inr (later, q) ↦
        let same : later ≡ row = ground arith in
        subst IsValidRow same (latest-IsValidRow test xs later v.1 q)
    | inl q ↦ let same : x ≡ row = ground arith in subst IsValidRow same v.0
  ]

module _ (p : Pydantic) (t : Table p.Json) (valid : AllValid p t) where
  pub load-HasValid : (ref : String) (r : AgentHandoffRecord) → load p ref t ≡ ok r → HasValid p r
  unfolding load
  load-HasValid ref r e = elim (Option-cases (select ref t)) [
    | inl q ↦ absurd (ground arith)
    | inr (row, q) ↦ select-IsValidRow p ref t row valid q r (ground arith)
  ]

  -- What a repeated run is answered.
  pub recover_run-IsValid :
      (run_id : String) (x : RunResult) → recover_run p run_id t ≡ ok (some x) → IsValid x
  unfolding recover_run
  recover_run-IsValid run_id x e = elim (Option-cases (latest (is_active p run_id) t)) [
    | inr (row, q) ↦ elim (Result-cases (record_of p row)) [
      | inr (_, d) ↦ absurd (ground arith)
      | inl (r, d) ↦
          let same : r.required_response ≡ x = ground arith in
          subst IsValid same
            (latest-IsValidRow p (is_active p run_id) t row valid q r d).required_valid
    ]
    | inl n ↦ elim (Option-cases (latest (is_completed p run_id) t)) [
      | inl q ↦ absurd (ground arith)
      | inr (row, q) ↦ elim (Result-cases (record_of p row)) [
        | inr (_, d) ↦ absurd (ground arith)
        | inl (r, d) ↦
            (latest-IsValidRow p (is_completed p run_id) t row valid q r d).response_valid x
              (ground arith)
      ]
    ]
  ]

  -- What a retry is answered.
  pub admit-IsValid :
      (ref : String) (result : AgentResult) (h : String) (x : RunResult)
      → admit p ref result h t ≡ ok (replay x)
      → IsValid x
  unfolding admit
  admit-IsValid ref result h x e = elim (Option-cases (select ref t)) [
    | inl q ↦ absurd (ground arith)
    | inr (row, q) ↦ elim (Result-cases (record_of p row)) [
      | inr (_, d) ↦ absurd (ground arith)
      | inl (r, d) ↦ (select-IsValidRow p ref t row valid q r d).response_valid x (ground arith)
    ]
  ]
