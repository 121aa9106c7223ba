-- ===== src/ExitControl/Budgets.antt =====
-- The nudges that the hooks give an invocation, over any run of the middleware.
pub mod Given
use graph_skill_runtime.Common.{
  ℕ, suc, ◌+◌, ◌≤◌, String, Bool, true, false, List, [], ◌∷◌, ◌≡◌, refl, arith, ap, ◌∙◌, ◌==◌,
  Bool-cases, inl, inr, if◌then◌else◌, eq_refl, same_of_eq, leb, Option-cases, sym, ◌⊎◌, none,
  ne_of_eq, ◌≢◌,
}
use mathlib.Core.Path.{subst}
use graph_skill_runtime.Common.Dict.{get, get-put}
use graph_skill_runtime.Nudge.{
  NudgeKind, planning, selfcheck, standard, NudgePolicy, counter, try_planning, try_selfcheck,
  try_standard, spend, consume, FinishPayload, status_is, has_structured_selfcheck,
}
use graph_skill_runtime.ExitControl.{
  AgentState, Config, ExitControl, Event, nudge_event, nudge_events, policy_of, before_model,
  after_model, after_agent, govern_standard, govern_no_finish_exit, has_valid_finish,
  own_finish_payload, ends_with_tool_calls, latest_ai_text, iteration_of, keep_policy,
}
use graph_skill_runtime.ExitControl.Exits.{
  Fits, Kept, unchanged, stored, Kept-SameBut, after_model-Kept, after_agent-Kept,
}
use graph_skill_runtime.ExitControl.Scopes.{SameScope, hooks_are_scoped}

pub data Hook : Type 0 where
  before_model_hook after_model_hook after_agent_hook : Hook

-- One call of a hook, for the invocation of its config.
pub record Call : Type 0 where
  pub hook : Hook
  pub config : Config
  pub state : AgentState

-- The middleware that a call leaves, and the events that it emitted.
unfoldable pub serve : Call → ExitControl → ExitControl × List Event
serve call m = elim call.hook [
  | before_model_hook ↦ ((before_model call.config call.state m).0, [])
  | after_model_hook ↦ let (m', events, _) = after_model call.config call.state m in (m', events)
  | after_agent_hook ↦ let (m', events, _) = after_agent call.config call.state m in (m', events)
]

abbrev pub is_nudge : NudgeKind → Event → Bool
is_nudge planning (nudge_event count planning) = true
is_nudge standard (nudge_event count standard) = true
is_nudge selfcheck (nudge_event count selfcheck) = true
is_nudge _ _ = false

abbrev pub nudges_in : NudgeKind → List Event → ℕ
nudges_in kind [] = 0
nudges_in kind (e ∷ events) =
    let rest = nudges_in kind events in if is_nudge kind e then suc rest else rest

-- The nudges of a kind that the calls give to one invocation.
unfoldable pub given : NudgeKind → String → List Call → ExitControl → ℕ
unfolding serve
given kind key [] m = 0
given kind key (call ∷ calls) m =
    let rest = given kind key calls (serve call m).0 in
    if call.config.key == key then nudges_in kind (serve call m).1 + rest else rest

unfoldable pub served : List Call → ExitControl → ExitControl
served [] m = m
served (call ∷ calls) m = served calls (serve call m).0

-- A nudge of a kind other than selfcheck, whose echoes of a validation error are not counted.
abbrev pub is_budgeted : NudgeKind → Bool
is_budgeted selfcheck = false
is_budgeted _ = true

kept_policy :
    (key : String) (m : ExitControl) (p : NudgePolicy) → policy_of (keep_policy m key p) key ≡ p
kept_policy key m p = rw (get-put, eq_refl key) refl

module _ (c : Config) (s : AgentState) where
  after_model-counts :
      (m : ExitControl) (kind : NudgeKind)
      → is_budgeted kind ≡ true
      → counter (policy_of (after_model c s m).0 c.key) kind
        ≡ nudges_in kind (after_model c s m).1 + counter (policy_of m c.key) kind
  unfolding after_model try_planning spend consume
  after_model-counts m kind b =
      let r =
        try_planning (latest_ai_text s.messages) (ends_with_tool_calls s.messages) s.has_plan
          (policy_of m c.key) in
      let k = kept_policy c.key m r.0 in ground (arith, k)

  govern_standard-counts :
      (m : ExitControl) (i : ℕ) (p : NudgePolicy) (kind : NudgeKind)
      → is_budgeted kind ≡ true
      → counter (policy_of (govern_standard c s i p m).0 c.key) kind
        ≡ nudges_in kind (govern_standard c s i p m).1 + counter p kind
  unfolding govern_standard try_standard spend consume
  govern_standard-counts m i p kind b =
      let r = try_standard (latest_ai_text s.messages) false p in
      let k = kept_policy c.key m r.0 in ground (arith, k)

  -- The selfcheck gate spends from no other counter.
  try_selfcheck-counter :
      (f : FinishPayload) (p : NudgePolicy) (kind : NudgeKind)
      → is_budgeted kind ≡ true
      → counter (try_selfcheck f p).0 kind ≡ counter p kind
  unfolding try_selfcheck spend consume
  try_selfcheck-counter f p kind b = ground arith

  try_selfcheck-kind :
      (f : FinishPayload) (p : NudgePolicy) (i : ℕ) (kind : NudgeKind)
      → is_budgeted kind ≡ true
      → nudges_in kind (nudge_events i (try_selfcheck f p).1) ≡ 0
        ⊎ ((try_selfcheck f p).1.text ≡ none)
  unfolding try_selfcheck spend consume
  try_selfcheck-kind f p i kind b = elim (Bool-cases (status_is "failed" f.schema_validation)) [
    | inl failed ↦ inl (ground arith)
    | inr unfailed ↦ elim (Bool-cases (has_structured_selfcheck f)) [
      | inl clear ↦ inr (ground arith)
      | inr unclear ↦ inl (ground arith)
    ]
  ]

  govern_no_finish_exit-counts :
      (m : ExitControl) (i : ℕ) (kind : NudgeKind)
      → is_budgeted kind ≡ true
      → counter (policy_of (govern_no_finish_exit c s i m).0 c.key) kind
        ≡ nudges_in kind (govern_no_finish_exit c s i m).1 + counter (policy_of m c.key) kind
  unfolding govern_no_finish_exit
  govern_no_finish_exit-counts m i kind b = elim (Option-cases (own_finish_payload m s)) [
    | inl own ↦
        let std = govern_standard-counts m i (policy_of m c.key) kind b in ground (arith, std)
    | inr (f, own) ↦
        let r = try_selfcheck f (policy_of m c.key) in
        let k = kept_policy c.key m r.0 in
        let std = govern_standard-counts m i r.0 kind b in
        let same = try_selfcheck-counter f (policy_of m c.key) kind b in
        let quiet = try_selfcheck-kind f (policy_of m c.key) i kind b in
        ground (arith, k, std, same, quiet)
  ]

  after_agent-counts :
      (m : ExitControl) (kind : NudgeKind)
      → is_budgeted kind ≡ true
      → counter (policy_of (after_agent c s m).0 c.key) kind
        ≡ nudges_in kind (after_agent c s m).1 + counter (policy_of m c.key) kind
  unfolding after_agent
  after_agent-counts m kind b =
      let g = govern_no_finish_exit-counts m (iteration_of m c.key) kind b in ground (arith, g)

pub serve-own :
    (h : Hook) (call : Call) (m : ExitControl) (kind : NudgeKind)
    → call.hook ≡ h
    → is_budgeted kind ≡ true
    → counter (policy_of (serve call m).0 call.config.key) kind
      ≡ nudges_in kind (serve call m).1 + counter (policy_of m call.config.key) kind
unfolding serve before_model
serve-own before_model_hook call m kind e b = rw (e, serve) (omega arith)
serve-own after_model_hook call m kind e b =
    rw (e, serve) (after_model-counts call.config call.state m kind b)
serve-own after_agent_hook call m kind e b =
    rw (e, serve) (after_agent-counts call.config call.state m kind b)

pub serve-other :
    (h : Hook) (call : Call) (m : ExitControl) (other : String)
    → call.hook ≡ h
    → call.config.key ≢ other
    → policy_of (serve call m).0 other ≡ policy_of m other
unfolding serve
serve-other before_model_hook call m other e ne =
    rw (e, serve) (hooks_are_scoped call.config call.state m other ne).0.policy_same
serve-other after_model_hook call m other e ne =
    rw (e, serve) (hooks_are_scoped call.config call.state m other ne).1.policy_same
serve-other after_agent_hook call m other e ne =
    rw (e, serve) (hooks_are_scoped call.config call.state m other ne).2.policy_same
