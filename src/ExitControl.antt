-- ===== src/ExitControl.antt =====
-- src/graph_skill_runtime/middleware/exit_control.py: how an AGENT phase may end. The middleware's two
-- dictionaries are keyed by agent_invocation_key(). A hook returns the middleware that it leaves, the
-- events that it emitted and its outcome; the async hooks are calls of these. The key and the
-- iteration limit (20 where the config has none) come from langgraph's config: `Config`.
pub mod Exits
pub mod Turns
pub mod Scopes
pub mod Budgets
mod Tests
use Prim.Native.String.{◌++◌ as str_append}
use graph_skill_runtime.Common.{
  ℕ, ◌+◌, String, Bool, true, false, not, ◌&&◌, List, [], ◌∷◌, Option, none, some, ◌==◌, leb, ltb,
  if◌then◌else◌, or_else,
}
use graph_skill_runtime.Common.Dict.{Dict, get, put}
use graph_skill_runtime.Nudge.{
  NudgeKind, NudgeText, NudgeDecision, NudgePolicy, new_policy, FinishPayload, status_is, standard,
  try_selfcheck, try_planning, try_standard,
}

-- The content of an AI message: a text, or blocks whose texts are joined, or anything else.
pub data Content : Type 0 where
  plain : String → Content
  blocks : List String → Content
  other : Content

pub data Message : Type 0 where
  ai : (content : Content) (has_tool_calls : Bool) → Message
  human tool : Message

-- The part of langchain's AgentState that the gate reads.
pub record AgentState : Type 0 where
  pub messages : List Message
  pub finish_task_result : Option FinishPayload
  pub has_plan : Bool

pub record Config : Type 0 where
  pub key : String
  pub max_iterations : ℕ

pub record ExitControl : Type 0 where
  pub phase_name : String
  pub max_nudges : ℕ
  pub iterations : Dict ℕ
  pub policies : Dict NudgePolicy

pub data AgentExitDecision : Type 0 where
  exit_success continue_nudged continue_tool_work continue_open : AgentExitDecision

pub data Event : Type 0 where
  nudge_event : (count : ℕ) → NudgeKind → Event
  exit_decision : AgentExitDecision → (iteration : ℕ) → Event

pub data Fatal : Type 0 where
  max_iterations_reached : ℕ → Fatal
  nudge_budget_exhausted : (counts : NudgePolicy) (iterations : ℕ) → Fatal

-- `proceed` is the hook's None, `jump` is {"jump_to": "model"} with the messages it adds, and `fatal`
-- is a raised GraphAgentFatalError.
pub data Outcome : Type 0 where
  proceed : Outcome
  jump : Option NudgeText → Outcome
  fatal : Fatal → Outcome

abbrev pub iteration_of : ExitControl → String → ℕ
iteration_of m key = or_else 0 (get m.iterations key)

-- _nudge_policy: the invocation's policy, made where there is none yet
abbrev pub policy_of : ExitControl → String → NudgePolicy
policy_of m key = or_else (new_policy m.max_nudges) (get m.policies key)

abbrev pub keep_policy : ExitControl → String → NudgePolicy → ExitControl
keep_policy m key p = record m { policies = put m.policies key p }

-- _own_finish_payload: only a marker with this phase's name counts
unfoldable pub own_finish_payload : ExitControl → AgentState → Option FinishPayload
own_finish_payload m s = elim s.finish_task_result [
  | none ↦ none
  | some f ↦ if status_is m.phase_name f.phase_name then some f else none
]

-- _has_valid_finish
unfoldable pub has_valid_finish : ExitControl → AgentState → Bool
unfolding own_finish_payload
has_valid_finish m s = elim (own_finish_payload m s) [
  | none ↦ false
  | some f ↦ status_is "passed" f.schema_validation
]

abbrev pub last_message : List Message → Option Message
last_message [] = none
last_message (x ∷ []) = some x
last_message (x ∷ y ∷ ys) = last_message (y ∷ ys)

unfoldable pub ends_with_tool_calls : List Message → Bool
ends_with_tool_calls ms = elim (last_message ms) [ some (ai content calls) ↦ calls | _ ↦ false ]

abbrev join : List String → String
join [] = ""
join (s ∷ ss) = str_append s (join ss)

-- _latest_ai_text
unfoldable pub latest_ai_text : List Message → String
latest_ai_text ms = elim (last_message ms) [
  | some (ai (plain text) calls) ↦ text
  | some (ai (blocks parts) calls) ↦ join parts
  | _ ↦ ""
]

-- before_model
unfoldable pub before_model : Config → AgentState → ExitControl → ExitControl × Outcome
before_model c s m =
    let current = iteration_of m c.key + 1 in
    (
      record m { iterations = put m.iterations c.key current },
      if not (has_valid_finish m s) && ltb c.max_iterations current
          then fatal (max_iterations_reached c.max_iterations)
          else proceed,
    )

abbrev pub kind_of : NudgeDecision → NudgeKind
kind_of d = or_else standard d.kind

abbrev pub nudge_events : ℕ → NudgeDecision → List Event
nudge_events iteration d =
    nudge_event d.count (kind_of d) ∷ exit_decision continue_nudged iteration ∷ []

-- after_model
unfoldable pub after_model : Config → AgentState → ExitControl → ExitControl × List Event × Outcome
after_model c s m =
    if has_valid_finish m s
    then (m, [], proceed)
    else let (p, d) =
        try_planning (latest_ai_text s.messages) (ends_with_tool_calls s.messages) s.has_plan
          (policy_of m c.key) in
      elim d.text [
        | none ↦ (keep_policy m c.key p, [], proceed)
        | some text ↦
            (keep_policy m c.key p, nudge_events (iteration_of m c.key) d, jump (some text))
      ]

-- The standard gate, which the selfcheck gate leaves to.
unfoldable pub govern_standard :
    Config → AgentState → ℕ → NudgePolicy → ExitControl → ExitControl × List Event × Outcome
govern_standard c s iteration policy m =
    let (p, d) = try_standard (latest_ai_text s.messages) false policy in
    elim d.text [
      | some text ↦ (keep_policy m c.key p, nudge_events iteration d, jump (some text))
      | none ↦
          if d.budget_exhausted
          then (keep_policy m c.key p, [], fatal (nudge_budget_exhausted p iteration))
          else (keep_policy m c.key p, exit_decision continue_open iteration ∷ [], jump none)
    ]

-- _govern_no_finish_exit
unfoldable pub govern_no_finish_exit :
    Config → AgentState → ℕ → ExitControl → ExitControl × List Event × Outcome
unfolding govern_standard
govern_no_finish_exit c s iteration m =
    if ends_with_tool_calls s.messages
    then (m, exit_decision continue_tool_work iteration ∷ [], jump none)
    else elim (own_finish_payload m s) [
      | none ↦ govern_standard c s iteration (policy_of m c.key) m
      | some f ↦
          let (p, d) = try_selfcheck f (policy_of m c.key) in
          elim d.text [
            | some text ↦ (keep_policy m c.key p, nudge_events iteration d, jump (some text))
            | none ↦
                if d.budget_exhausted
                then (keep_policy m c.key p, [], fatal (nudge_budget_exhausted p iteration))
                else govern_standard c s iteration p m
          ]
    ]

-- after_agent
unfoldable pub after_agent : Config → AgentState → ExitControl → ExitControl × List Event × Outcome
after_agent c s m =
    let iteration = iteration_of m c.key in
    if has_valid_finish m s
    then (m, exit_decision exit_success iteration ∷ [], proceed)
    else if leb c.max_iterations iteration
    then (m, [], fatal (max_iterations_reached c.max_iterations))
    else govern_no_finish_exit c s iteration m
