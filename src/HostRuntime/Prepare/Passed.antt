-- ===== src/HostRuntime/Prepare/Passed.antt =====
-- What is known where the checks before the transaction pass, and that they pass again.
use graph_skill_runtime.Common.{◌≡◌, refl, arith, inl, inr, ap, sym, ◌⊎◌, eq_iff, ◌∙◌}
use mathlib.Core.Path.{subst}
use graph_skill_runtime.Common.Dict.{Dict}
use graph_skill_runtime.Common.Outcome.{done, Outcome-cases}
use graph_skill_runtime.Domain.Run.{RunRequest}
use graph_skill_runtime.Domain.Agent.{AgentTask, AgentResult, RunResult}
use graph_skill_runtime.Handoff.{AgentHandoffRecord, Pydantic, Table, ok, load, Result-cases}
use graph_skill_runtime.Handoff.Asked.{IsAsked, IsAsked-load}
use graph_skill_runtime.HostNative.{
  GraphNode, CompiledSkill, ContractError, supported, refused, AgentSupport,
  host_native_agent_phases,
}
use graph_skill_runtime.HostNative.Platform.{Platform}
use graph_skill_runtime.HostNative.Task.{validate_agent_result}
use graph_skill_runtime.HostRuntime.Services.{Runner, Python, validate_record_owner}
use graph_skill_runtime.HostRuntime.Prepare.{SubmitAgentResultRequest, Prepared, prepare, checked}

validate-same_task :
    (host : Platform) (entry : AgentHandoffRecord) (result : AgentResult) (u : Unit {0})
    → validate_agent_result host entry result ≡ done u
    → result.task_id ≡ entry.task.task_id
unfolding validate_agent_result
validate-same_task host entry result u e = ground (arith, eq_iff result.task_id entry.task.task_id)

pub support-cases :
    (a : AgentSupport)
    → ((phases : Dict GraphNode) × (a ≡ supported phases)) ⊎ ((e : ContractError) × (a ≡ refused e))
support-cases (supported phases) = inl (phases, refl)
support-cases (refused e) = inr (e, refl)

module _ (p : Pydantic) (py : Python) {W : Type 0} (runner : Runner W)
    (request : SubmitAgentResultRequest) (run_request : RunRequest) where
  module _ (e f : AgentHandoffRecord) (same_task : f.task ≡ e.task)
      (same_required : f.required_response ≡ e.required_response) where
    owner-same :
        validate_record_owner py f request.run_id run_request
        ≡ validate_record_owner py e request.run_id run_request
    unfolding validate_record_owner
    owner-same =
        let a : f.task.run_id ≡ e.task.run_id = ap (λ (t : AgentTask). t.run_id) same_task in
        let b : f.required_response.request ≡ e.required_response.request =
          ap (λ (r : RunResult). r.request) same_required in
        ground arith

    result-same :
        validate_agent_result py.platform f request.result
        ≡ validate_agent_result py.platform e request.result
    unfolding validate_agent_result
    result-same =
        let a : f.task.task_id ≡ e.task.task_id = ap (λ (t : AgentTask). t.task_id) same_task in
        let b : f.task.output_schema ≡ e.task.output_schema =
          ap (λ (t : AgentTask). t.output_schema) same_task in
        ground arith

    -- The checks pass again for a record that asks for the same.
    pub checked-same :
        (compiled : CompiledSkill) (phases : Dict GraphNode) (q : Prepared)
        → checked p py runner request run_request compiled phases e ≡ done q
        → checked p py runner request run_request compiled phases f
          ≡ done (record { compiled = compiled; phases = phases; entry = f })
    unfolding checked
    checked-same compiled phases q c =
        elim (Outcome-cases (validate_record_owner py e request.run_id run_request)) [
          | inr (_, o) ↦ absurd (ground arith)
          | inl (_, o) ↦ elim (Outcome-cases (validate_agent_result py.platform e request.result)) [
            | inr (_, v) ↦ absurd (ground arith)
            | inl (_, v) ↦ ground (arith, owner-same, result-same)
          ]
        ]

  -- What is known once the checks before the transaction passed.
  pub record IsPrepared (table : Table p.Json) (q : Prepared) : Type 0 where
    pub compiled_from : runner.compile_skill run_request.profile.skill_root ≡ done q.compiled
    pub supports : host_native_agent_phases q.compiled ≡ supported q.phases
    pub loaded : load p request.checkpoint_ref table ≡ ok q.entry
    pub passed : checked p py runner request run_request q.compiled q.phases q.entry ≡ done q
    pub same_task : request.result.task_id ≡ q.entry.task.task_id

  checked-parts :
      (compiled : CompiledSkill) (phases : Dict GraphNode) (entry : AgentHandoffRecord)
      (q : Prepared)
      → checked p py runner request run_request compiled phases entry ≡ done q
      → (q ≡ record { compiled = compiled; phases = phases; entry = entry })
        × (request.result.task_id ≡ entry.task.task_id)
  unfolding checked
  checked-parts compiled phases entry q c =
      elim (Outcome-cases (validate_record_owner py entry request.run_id run_request)) [
        | inr (_, o) ↦ absurd (ground arith)
        | inl (_, o) ↦
            elim (Outcome-cases (validate_agent_result py.platform entry request.result)) [
              | inr (_, v) ↦ absurd (ground arith)
              | inl (u, v) ↦ (ground arith, validate-same_task py.platform entry request.result u v)
            ]
      ]

  pub prepare-IsPrepared :
      (table : Table p.Json) (q : Prepared)
      → (prepare p py runner request run_request table).1 ≡ done q
      → IsPrepared table q
  unfolding prepare
  prepare-IsPrepared table q e =
      elim (Outcome-cases (runner.compile_skill run_request.profile.skill_root)) [
        | inr (_, c) ↦ absurd (ground arith)
        | inl (compiled, c) ↦ elim (support-cases (host_native_agent_phases compiled)) [
          | inr (_, f) ↦ absurd (ground arith)
          | inl (phases, f) ↦ elim (Result-cases (load p request.checkpoint_ref table)) [
            | inr (_, l) ↦ absurd (ground arith)
            | inl (entry, l) ↦
                let c' : checked p py runner request run_request compiled phases entry ≡ done q =
                  ground arith in
                let (same, task) = checked-parts compiled phases entry q c' in
                subst (IsPrepared table) (sym same) (record {
                  compiled_from = c;
                  supports = f;
                  loaded = l;
                  passed = c' ∙ ap done same;
                  same_task = task;
                })
          ]
        ]
      ]

  -- A prepared submission stays prepared: its record may be settled by now and asks for the same.
  pub prepared_again :
      (t u : Table p.Json) (q : Prepared)
      → IsPrepared t q
      → (a : IsAsked p request.checkpoint_ref q.entry.task q.entry.required_response u)
      → (prepare p py runner request run_request u).1
        ≡ done (record { compiled = q.compiled; phases = q.phases; entry = a.entry })
  unfolding prepare
  prepared_again t u q h a =
      rw
        (
          h.compiled_from,
          prepare,
          h.supports,
          IsAsked-load p request.checkpoint_ref q.entry.task q.entry.required_response u a,
        )
        (checked-same q.entry a.entry a.same_task a.same_required q.compiled q.phases q h.passed)

  -- The owner of a record that passed.
  pub passed-owner :
      (compiled : CompiledSkill) (phases : Dict GraphNode) (entry : AgentHandoffRecord)
      (q : Prepared)
      → checked p py runner request run_request compiled phases entry ≡ done q
      → validate_record_owner py entry request.run_id run_request ≡ done tt
  unfolding checked
  passed-owner compiled phases entry q c =
      elim (Outcome-cases (validate_record_owner py entry request.run_id run_request)) [
        | inr (_, o) ↦ absurd (ground arith)
        | inl (u, o) ↦ o
      ]
