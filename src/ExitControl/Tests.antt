-- ===== src/ExitControl/Tests.antt =====
-- Small runs of the exit gate and the nudge policy, and the theorems at them.
use graph_skill_runtime.Common.{
  String, true, false, none, some, List, [], ◌∷◌, ◌≡◌, ◌≢◌, refl, arith, eq_iff, ◌≤◌, ◌<◌, ◌↔◌, ◌+◌,
  All, length,
}
use graph_skill_runtime.Nudge.{
  planning, standard, standard_first, try_standard, try_planning, consume, spend,
  build_standard_nudge_text,
}
use graph_skill_runtime.ExitControl.{
  AgentState, Config, ExitControl, ai, human, plain, proceed, jump, before_model, after_model,
  after_agent, has_valid_finish, govern_no_finish_exit, latest_ai_text, ends_with_tool_calls, Fatal,
  max_iterations_reached, iteration_of, exit_decision, exit_success,
}
use graph_skill_runtime.ExitControl.Exits.{after_agent-proceed}
use graph_skill_runtime.ExitControl.Turns.{Turn, IsUnfinished, loop, failed, loop_fails}
use graph_skill_runtime.ExitControl.Budgets.{Call, after_agent_hook, after_model_hook, given, serve}
use graph_skill_runtime.ExitControl.Budgets.Given.{new_gate, given_bounds}
use graph_skill_runtime.Common.Dict

abbrev config : Config
config = record { key = "t|1"; max_iterations = 3 }

abbrev fresh_gate : ExitControl
fresh_gate = record { phase_name = "review"; max_nudges = 1; iterations = []; policies = [] }

abbrev talking : AgentState
talking = record {
  messages = human ∷ ai (plain "I am done") false ∷ [];
  finish_task_result = none;
  has_plan = true;
}

abbrev working : AgentState
working = record {
  messages = human ∷ ai (plain "") true ∷ [];
  finish_task_result = none;
  has_plan = true;
}

-- A marker of another phase does not count.
abbrev stale : AgentState
stale = record talking {
  finish_task_result = some (record {
    phase_name = some "draft";
    schema_validation = some "passed";
    validation_error_text = none;
    business_data_md = "";
    diagnostics_md = "";
    reasoning = "";
  });
}

program : Unit {0}
unfolding before_model after_model after_agent has_valid_finish govern_no_finish_exit latest_ai_text
    ends_with_tool_calls try_standard try_planning spend consume build_standard_nudge_text loop
    Dict.get Dict.put
program = tt

first_talk : (after_agent config talking fresh_gate).2 ≡ jump (some standard_first)
unfolding program
first_talk = refl

stale_is_open : has_valid_finish fresh_gate stale ≡ false
unfolding program
stale_is_open = refl

abbrev talk_turn : Turn
talk_turn = record { before = talking; answered = talking; at_end = some stale }

abbrev work_turn : Turn
work_turn = record { before = working; answered = working; at_end = none }

abbrev turns : List Turn
turns = work_turn ∷ talk_turn ∷ work_turn ∷ work_turn ∷ []

loop-turns : (loop config turns fresh_gate).1 ≡ failed (max_iterations_reached 3)
unfolding program
loop-turns = refl

open_turns : All (IsUnfinished fresh_gate) turns
unfolding program
open_turns = (
  record { before_open = refl; end_open = tt },
  (
    record { before_open = refl; end_open = refl },
    (
      record { before_open = refl; end_open = tt },
      (record { before_open = refl; end_open = tt }, tt),
    ),
  ),
)

no_turns_yet : iteration_of fresh_gate "t|1" ≤ 3
unfolding program
no_turns_yet = omega arith

four_turns : 3 < iteration_of fresh_gate "t|1" + length turns
unfolding program
four_turns = omega arith

loop_fails_example : (f : Fatal) × ((loop config turns fresh_gate).1 ≡ failed f)
loop_fails_example = loop_fails config turns fresh_gate open_turns no_turns_yet four_turns

after_agent-proceed_example :
    (((after_agent config stale fresh_gate).2 ≡ proceed)
      ↔ (has_valid_finish fresh_gate stale ≡ true))
    × (has_valid_finish fresh_gate stale ≡ true
        → after_agent config stale fresh_gate
          ≡ (fresh_gate, exit_decision exit_success 0 ∷ [], proceed))
unfolding Dict.get
after_agent-proceed_example = after_agent-proceed config stale fresh_gate

other_key : ◌≢◌ {A = String} "t|1" "t|2"
other_key = ground (arith, eq_iff "t|1" "t|2")

abbrev calls : List Call
calls =
    record { hook = after_agent_hook; config = config; state = talking }
    ∷ record { hook = after_model_hook; config = record config { key = "t|2" }; state = talking }
    ∷ record { hook = after_agent_hook; config = config; state = talking }
    ∷ []

-- The second talk finds the budget spent.
given_once : given standard "t|1" calls (new_gate "review" 1) ≡ 1
unfolding program given serve
given_once = refl

given_bounds_example :
    (given planning "t|1" calls (new_gate "review" 1) ≤ 1)
    × (given standard "t|1" calls (new_gate "review" 1) ≤ 1)
given_bounds_example = given_bounds "review" 1 calls "t|1"
