-- ===== src/HostRuntime/Tests.antt =====
-- A run with one Agent phase, its answer and its retries, on a concrete engine.
use graph_skill_runtime.Common.{
  ℕ, zero, suc, true, none, some, [], ◌∷◌, ◌≡◌, refl, arith, ◌==◌, eq_iff,
}
use graph_skill_runtime.Common.Dict.{get, put}
use graph_skill_runtime.Common.Names.{add_all, has}
use graph_skill_runtime.Common.Text.{concat, join}
use graph_skill_runtime.Common.Outcome.{Outcome, done, raised, each}
use graph_skill_runtime.Json
use graph_skill_runtime.Json.{Json, JsonObject, empty, member, text, object}
use graph_skill_runtime.State.{keep_keys}
use graph_skill_runtime.Domain.Run.{RunRequest}
use graph_skill_runtime.Domain.Agent.{AgentStatus, AgentRequired, RunResult, RunMode, mcp, cli}
use graph_skill_runtime.Engine.{CoreRunResult, run_result}
use graph_skill_runtime.Handoff.{
  AgentHandoffRecord, Table, ok, Exception, contract_error, other_error, admit, fresh, load, update,
  with_result, insert_next, select, select_claim, record_of, insert_required, put_required,
  recover_run, latest, submit, settle,
}
use graph_skill_runtime.Handoff.Settled.{here}
use graph_skill_runtime.Handoff.Tests.{Model, models, read_run, read_task}
use graph_skill_runtime.HostNative.{host_native_agent_phases}
use graph_skill_runtime.HostNative.Resources.{resource, resources}
use graph_skill_runtime.HostNative.Task.{
  build_agent_handoff, validate_agent_result, tool_names, deadline,
}
use graph_skill_runtime.HostRuntime.Trace.{
  unopened, writable, required_event, append_run_event_once, is_logged, terminal_event, terminal_id,
}
use graph_skill_runtime.HostRuntime.Services.{
  Runner, Python, Moment, HostState, validate_record_owner, sqlite_checkpointer, task_exception,
  store_exception,
}
use graph_skill_runtime.HostRuntime.Run.{run, emit_agent_required}
use graph_skill_runtime.HostRuntime.Prepare.{SubmitAgentResultRequest, Prepared, prepare, checked}
use graph_skill_runtime.HostRuntime.Submit.{submit_body, submit_agent_result, rejected, announce}
use graph_skill_runtime.HostRuntime.Submit.Retry.{
  submit_agent_result-again, submit_agent_result-repairs, resume-submitted,
}
use graph_skill_runtime.HostRuntime.Submit.Announce.{IsAnnounced}
use graph_skill_runtime.HostRuntime.Submit.Failed.{IsUnapplied, submit_body-raised}
use graph_skill_runtime.HostRuntime.Submit.Progress.{untried, failed, submit_agent_result-completes}
use graph_skill_runtime.HostRuntime.Resume.{ResumeRequest, resume}
use graph_skill_runtime.HostRuntime.Continue.{continue_run, drive}
use graph_skill_runtime.HostRuntime.Run.Again.{run-again}
use graph_skill_runtime.Engine.Payload.{payload_matches_status}
use mathlib.Core.Path.{subst}
use graph_skill_runtime.HostRuntime.Stored.{IsValid, HasValid, AllValid}
use graph_skill_runtime.HostRuntime.Valid.{IsGood}
use graph_skill_runtime.HostRuntime.Answers.{answers-IsValid}
use graph_skill_runtime.HostNative.Task.Tests.{
  platform, request, compiled, context, stopped, inputs, task, handoff, phases,
}

program : Unit {0}
unfolding run submit_agent_result submit_body prepare checked validate_record_owner
    validate_agent_result submit settle admit load select record_of update read_run read_task
    host_native_agent_phases get put sqlite_checkpointer recover_run latest build_agent_handoff
    resources resource each put_required insert_required select_claim Json.get tool_names add_all
    has deadline keep_keys terminal_event task_exception store_exception continue_run drive
    run_result append_run_event_once is_logged rejected concat join emit_agent_required announce
    insert_next required_event
program = tt

request_refl : (r : RunRequest) → (r.run_id == r.run_id) ≡ true
request_refl r = ground (arith, eq_iff r.run_id r.run_id)

abbrev python : Python
python = record {
  platform = platform;
  text_of_support = λ e. "unsupported";
  text_of_task = λ e. "task";
  text_of_store = λ e. "store";
  same_request = λ a b. a.run_id == b.run_id;
  result_hash = λ result. "h";
  same_request_refl = request_refl;
}

abbrev finished : CoreRunResult
finished = record {
  success = true;
  run_id = "r1";
  context = context;
  trace_path = none;
  error = none;
  paused_at = none;
}

-- The graph's state counts the engine's runs; the engine fails to resume until it has run twice.
abbrev resumed : ℕ → Outcome Exception CoreRunResult × ℕ
resumed zero = (raised (other_error "busy"), 1)
resumed (suc n) = (done finished, suc (suc n))

abbrev runner : Runner ℕ
runner = record {
  compile_skill = λ root. done compiled;
  run_skill = λ r pause w. (done stopped, w);
  recover_paused_skill = λ c r pause w. (done none, w);
  resume_skill = λ r id ns pause completion w. resumed w;
}

abbrev moment : Moment
moment = record {
  first = "t1";
  second = "t2";
  third = "t3";
  during = writable;
  after = writable;
  last = writable;
}

abbrev initial : HostState models ℕ
initial = record { table = []; trace = []; graph = 0 }

-- The run waits, and a repeated one does too.
abbrev waiting : HostState models ℕ
waiting = (run models python runner moment request compiled initial).1

abbrev required : AgentRequired
required = record {
  task = task;
  checkpoint_ref = handoff.checkpoint_ref;
  submit_methods = mcp ∷ cli ∷ [];
}

run_waits : (run models python runner moment request compiled initial).0 ≡ handoff.required_response
unfolding program
run_waits = refl

free : select_claim {J = Model} required.checkpoint_ref required.task.task_id [] ≡ none
unfolding program
free = refl

run-again_example :
    ((run models python runner moment request compiled waiting).0 ≡ handoff.required_response)
    × ((run models python runner moment request compiled waiting).1.table ≡ waiting.table)
    × ((run models python runner moment request compiled waiting).1.graph ≡ waiting.graph)
run-again_example =
    run-again models python runner request compiled handoff.required_response required refl moment
      moment initial waiting run_waits free refl refl

abbrev submission : SubmitAgentResultRequest
submission = record {
  run_id = "r1";
  state_root = "/state";
  checkpoint_ref = handoff.checkpoint_ref;
  result = record {
    task_id = task.task_id;
    status = AgentStatus.completed;
    output = some inputs;
    error = none;
    executor_id = "host";
    provenance = empty;
  };
}

-- The first attempt meets a busy engine; the second is applied.
busy :
    (submit_body models python runner moment none submission request waiting).0
    ≡ raised (other_error "busy")
unfolding program
busy = refl

abbrev tried : HostState models ℕ
tried = (submit_agent_result models python runner moment none submission request waiting).1

abbrev answered_state : HostState models ℕ
answered_state = (submit_body models python runner moment none submission request tried).1

abbrev response : RunResult
response = run_result finished request RunMode.resume

abbrev prepared : Prepared
prepared = record { compiled = compiled; phases = phases; entry = handoff }

prepared_once : (prepare models python runner submission request waiting.table).1 ≡ done prepared
unfolding program
prepared_once = refl

goes :
    (continue_run python runner moment none submission.result request compiled phases handoff "h"
      (tried.trace, tried.graph)).0
    ≡ ok (response, none)
unfolding program
goes = refl

answered : (submit_body models python runner moment none submission request tried).0 ≡ done response
unfolding program
answered = refl

abbrev settling : Table Model
settling =
    update handoff.checkpoint_ref (with_result models "t1" submission.result "h") waiting.table

inserted : insert_next models "t2" none settling ≡ ok settling
unfolding program
inserted = refl

-- The event of the result stands in the trace although the record still waits.
told_before_accepted :
    (is_logged "r1" (terminal_id task.task_id "h") tried.trace ≡ true)
    × (admit models handoff.checkpoint_ref submission.result "h" tried.table ≡ ok (fresh handoff))
unfolding program
told_before_accepted = (refl, refl)

-- After the transaction of the second attempt the trace cannot be opened.
abbrev lost_moment : Moment
lost_moment = record moment { after = unopened (other_error "denied") }

lost :
    (submit_body models python runner lost_moment none submission request tried).0
    ≡ raised (other_error "denied")
unfolding program
lost = refl

submit_body-raised_example :
    IsUnapplied models python runner lost_moment none submission request
      (submit_body models python runner lost_moment none submission request tried).1.table
      tried.table
submit_body-raised_example =
    submit_body-raised models python runner lost_moment none submission request tried
      (other_error "denied") lost

-- The event of a rejection finds no trace either, and its exception leaves the call.
abbrev shut_moment : Moment
shut_moment = record moment { last = unopened (other_error "denied") }

rejection_escapes :
    (rejected models python runner shut_moment submission request none
      (contract_error "no")
      waiting).0
    ≡ raised (other_error "denied")
unfolding program
rejection_escapes = refl

submit_agent_result-completes_example :
    (submit_agent_result models python runner moment none submission request tried).0
    ≡ done response
submit_agent_result-completes_example =
    submit_agent_result-completes models python runner submission request tried prepared moment none
      response none settling waiting.table
      (failed waiting moment none (other_error "busy") untried refl refl busy) prepared_once refl
      goes inserted refl

submit_agent_result-again_example :
    ((submit_agent_result models python runner moment none submission request answered_state).0
      ≡ done response)
    × ((submit_agent_result models python runner moment none submission request
          answered_state).1.table
        ≡ answered_state.table)
    × ((submit_agent_result models python runner moment none submission request
          answered_state).1.graph
        ≡ answered_state.graph)
submit_agent_result-again_example =
    submit_agent_result-again models python runner submission request tried moment none response
      answered answered_state here moment none refl

submit_agent_result-repairs_example :
    (is_logged "r1"
        (terminal_id task.task_id "h")
        (submit_agent_result models python runner moment none submission request
          answered_state).1.trace
      ≡ true)
    × IsAnnounced models "r1" response.agent_required answered_state.table
        (submit_agent_result models python runner moment none submission request
          answered_state).1.trace
submit_agent_result-repairs_example =
    submit_agent_result-repairs models python runner submission request tried moment none response
      answered answered_state here moment none refl refl

resume-submitted_example :
    resume models python
      (record {
        run_id = "r1";
        skill_root = "/skill";
        state_root = "/state";
        checkpoint_ref = some handoff.checkpoint_ref;
        human_response = none;
      })
      request
      answered_state.table
    ≡ response
resume-submitted_example =
    resume-submitted models python runner submission request tried moment none response answered
      answered_state here moment none "/skill" none

of_ok : (a b : AgentHandoffRecord) → ok a ≡ ok b → a ≡ b
of_ok a b e = ground arith

handoff_valid : HasValid models handoff
unfolding payload_matches_status
handoff_valid = record { required_valid = refl; response_valid = λ x e. absurd (ground arith) }

waiting_valid : AllValid models waiting.table
unfolding program
waiting_valid = (λ r e. subst (HasValid models) (of_ok handoff r e) handoff_valid, tt)

abbrev resumption : ResumeRequest
resumption = record {
  run_id = "r1";
  skill_root = "/skill";
  state_root = "/state";
  checkpoint_ref = some handoff.checkpoint_ref;
  human_response = none;
}

answers-IsValid_example :
    IsValid (run models python runner moment request compiled waiting).0
    × IsValid (resume models python resumption request waiting.table)
    × IsGood (submit_agent_result models python runner moment none submission request waiting).0
answers-IsValid_example =
    answers-IsValid models python runner moment none request compiled resumption submission waiting
      waiting_valid
