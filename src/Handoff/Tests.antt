-- ===== src/Handoff/Tests.antt =====
-- A store whose JSON text is the model itself, small runs of it, and the theorems at them.
use graph_skill_runtime.Common.{
  ℕ, suc, String, true, none, some, [], ◌≡◌, ◌≢◌, ◌==◌, refl, arith, eq_iff, Option,
}
use graph_skill_runtime.Json
use graph_skill_runtime.Domain.Profile.{host_policy}
use graph_skill_runtime.Domain.Agent.{
  AgentTask, AgentResult, AgentStatus, RunResult, RunMode, RunStatus,
}
use graph_skill_runtime.Handoff.{
  AgentHandoffRecord, Table, Pydantic, Result, ok, err, completed_differently, unknown_checkpoint,
  fresh, admit, select_claim, update, with_result, put_required, submit, recover_run, record_of,
  select, insert_required, settle, same_required, latest,
}
use graph_skill_runtime.Handoff.Settled.{Step, Steps, here, more, put}
use graph_skill_runtime.Handoff.Retry.{retry_replays, drift_is_refused}
use graph_skill_runtime.Handoff.Identity.{HasUniqueKeys, Steps-HasUniqueKeys}
use graph_skill_runtime.Handoff.Recovery.{recover_run-submit}

pub data Model : Type 0 where
  of_task : AgentTask → Model
  of_run : RunResult → Model
  of_result : AgentResult → Model

unfoldable pub read_task : Model → Option AgentTask
read_task (of_task t) = some t
read_task _ = none

unfoldable pub read_run : Model → Option RunResult
read_run (of_run r) = some r
read_run _ = none

pub read_task-of_task : (t : AgentTask) → read_task (of_task t) ≡ some t
unfolding read_task
read_task-of_task t = refl

pub read_run-of_run : (r : RunResult) → read_run (of_run r) ≡ some r
unfolding read_run
read_run-of_run r = refl

pub text_refl : (t : AgentTask) → (t.task_id == t.task_id) ≡ true
text_refl t = ground (arith, eq_iff t.task_id t.task_id)

pub run_refl : (r : RunResult) → (r.run_id == r.run_id) ≡ true
run_refl r = ground (arith, eq_iff r.run_id r.run_id)

abbrev pub models : Pydantic
models = record {
  Json = Model;
  dump_task = of_task;
  load_task = read_task;
  dump_run = of_run;
  load_run = read_run;
  dump_result = of_result;
  same_task = λ a b. a.task_id == b.task_id;
  same_run = λ a b. a.run_id == b.run_id;
  load_task-dump_task = read_task-of_task;
  load_run-dump_run = read_run-of_run;
  same_task_refl = text_refl;
  same_run_refl = run_refl;
}

abbrev task : String → AgentTask
task id = record {
  task_id = id;
  run_id = "r";
  address = record { graph_id = "g"; phase_id = "p" };
  instructions = "do";
  inputs = Json.empty;
  output_schema = Json.empty;
  allowed_tools = [];
  allowed_paths = [];
  resources = [];
  network = host_policy;
  deadline = none;
  required_capabilities = [];
}

abbrev answer : RunStatus → RunResult
answer status = record {
  status = status;
  run_id = "r";
  mode = RunMode.resume;
  request = none;
  outputs = Json.empty;
  trace_path = none;
  error = none;
  agent_required = none;
  diagnostics = [];
}

abbrev wait : String → String → AgentHandoffRecord
wait ref id = record {
  checkpoint_ref = ref;
  task = task id;
  checkpoint_id = "c";
  checkpoint_ns = "";
  required_response = answer RunStatus.agent_required;
  result_hash = none;
  response = none;
}

abbrev finished : AgentResult
finished = record {
  task_id = "t1";
  status = AgentStatus.completed;
  output = some Json.empty;
  error = none;
  executor_id = "host";
  provenance = Json.empty;
}

-- The graph's state counts how often it was driven on.
abbrev ends : AgentHandoffRecord → String → ℕ → Result (RunResult × Option AgentHandoffRecord) × ℕ
ends r h n = (ok (answer RunStatus.completed, none), suc n)

abbrev pauses : AgentHandoffRecord → String → ℕ → Result (RunResult × Option AgentHandoffRecord) × ℕ
pauses r h n = (ok (answer RunStatus.agent_required, some (wait "c2" "t2")), suc n)

abbrev waiting : Table Model
waiting = (put_required models "t" (wait "c1" "t1") []).1

program : Unit {0}
unfolding put_required insert_required record_of select select_claim admit update submit settle
    recover_run latest read_task read_run same_required
program = tt

submitted :
    (submit models "" "" "" "c1" finished "h" ends waiting 0).0 ≡ ok (answer RunStatus.completed)
unfolding program
submitted = refl

twice : (submit models "" "" "" "c1" finished "h" ends waiting 0).2 ≡ 1
unfolding program
twice = refl

unknown :
    (submit models "" "" "" "c9" finished "h" ends waiting 0).0 ≡ err (unknown_checkpoint "c9")
unfolding program
unknown = refl

paused : admit models "c1" finished "h" waiting ≡ ok (fresh (wait "c1" "t1"))
unfolding program
paused = refl

put_first : (put_required models "t" (wait "c1" "t1") []).0 ≡ ok tt
unfolding program
put_first = refl

free_first : select_claim {J = Model} "c1" "t1" [] ≡ none
unfolding program
free_first = refl

free_next : select_claim "c2" "t2" (update "c1" (with_result models "" finished "h") waiting) ≡ none
unfolding program
free_next = refl

other_ref : ◌≢◌ {A = String} "c2" "c1"
other_ref = ground (arith, eq_iff "c2" "c1")

other_hash : ◌≢◌ {A = String} "g" "h"
other_hash = ground (arith, eq_iff "g" "h")

abbrev after : Table Model
after = (submit models "" "" "" "c1" finished "h" ends waiting 0).1

abbrev later : Table Model
later = (put_required models "t" (wait "c3" "t3") after).1

between : Steps ℕ models after later
between = more here (put "t" (wait "c3" "t3") after)

retry_replays_example :
    submit models "" "" "" "c1" finished "h" ends later 1
    ≡ (ok (answer RunStatus.completed), later, 1)
retry_replays_example =
    retry_replays models "" "" "" "c1" "h" finished ends waiting 0 (answer RunStatus.completed)
      submitted later between "" "" "" finished ends 1 refl

drift_is_refused_example :
    submit models "" "" "" "c1" finished "g" ends later 1 ≡ (err completed_differently, later, 1)
drift_is_refused_example =
    drift_is_refused models "" "" "" "c1" "h" finished ends waiting 0 (answer RunStatus.completed)
      submitted later between "" "" "" "g" finished ends 1 refl other_hash

Steps-HasUniqueKeys_example : HasUniqueKeys later
Steps-HasUniqueKeys_example =
    Steps-HasUniqueKeys {W = ℕ} models
      (more
        (more (more here (put "t" (wait "c1" "t1") []))
          (Step.answer "" "" "" "c1" finished "h" ends waiting 0))
        (put "t" (wait "c3" "t3") after))
      (record { refs_unique = tt; task_ids_unique = tt })

recover_run-submit_example :
    ((submit models "" "" "" "c1" finished "h" pauses waiting 0).0
      ≡ ok (answer RunStatus.agent_required))
    × (recover_run models "r" (submit models "" "" "" "c1" finished "h" pauses waiting 0).1
        ≡ ok (some (answer RunStatus.agent_required)))
recover_run-submit_example =
    recover_run-submit models "" "" "" "c1" finished "h" pauses waiting 0 1 (wait "c1" "t1")
      (wait "c2" "t2") (answer RunStatus.agent_required) paused refl free_next other_ref
