-- ===== src/ExitControl/Exits.antt =====
-- What one call of a hook may answer, and what it leaves alone.
use graph_skill_runtime.Common.{
  ℕ, String, true, false, [], ◌∷◌, ◌≡◌, ◌≢◌, ◌↔◌, refl, arith, leb, Bool-cases, Option-cases, inl,
  inr, eq_of_ne, ◌∙◌,
}
use graph_skill_runtime.Common.Dict.{get, put, get-put}
use graph_skill_runtime.Nudge.{NudgePolicy, try_standard}
use graph_skill_runtime.Nudge.Budget.{
  IsWithin, Gate, consult, consult-IsWithin, consult-max_nudges, selfcheck_gate, planning_gate,
  standard_gate,
}
use graph_skill_runtime.ExitControl.{
  AgentState, Config, ExitControl, exit_success, exit_decision, proceed, iteration_of, policy_of,
  has_valid_finish, own_finish_payload, after_model, after_agent, govern_no_finish_exit,
  govern_standard, ends_with_tool_calls, latest_ai_text, keep_policy,
}

govern_standard-ne-proceed :
    (c : Config) (s : AgentState) (i : ℕ) (p : NudgePolicy) (m : ExitControl)
    → (govern_standard c s i p m).2 ≢ proceed
unfolding govern_standard
govern_standard-ne-proceed c s i p m e = ground arith

govern_no_finish_exit-ne-proceed :
    (c : Config) (s : AgentState) (i : ℕ) (m : ExitControl)
    → (govern_no_finish_exit c s i m).2 ≢ proceed
unfolding govern_no_finish_exit
govern_no_finish_exit-ne-proceed c s i m e = ground arith

-- The gate lets a turn end exactly where this phase has a marker that passed validation, and then it
-- says so and changes nothing. Anything else goes back to the model or fails: no silent end.
pub after_agent-proceed :
    (c : Config) (s : AgentState) (m : ExitControl)
    → (((after_agent c s m).2 ≡ proceed) ↔ (has_valid_finish m s ≡ true))
      × (has_valid_finish m s ≡ true
          → after_agent c s m
            ≡ (m, exit_decision exit_success (iteration_of m c.key) ∷ [], proceed))
unfolding after_agent
after_agent-proceed c s m =
    ground (arith, govern_no_finish_exit-ne-proceed c s (iteration_of m c.key) m)

-- What the hooks that only consult the policy leave alone.
pub record SameBut (key : String) (m m' : ExitControl) : Type 0 where
  pub phase_same : m'.phase_name ≡ m.phase_name
  pub limit_same : m'.max_nudges ≡ m.max_nudges
  pub iterations_same : m'.iterations ≡ m.iterations
  pub policies_same : (other : String) → key ≢ other → get m'.policies other ≡ get m.policies other

SameBut-keep :
    (key : String) (m : ExitControl) (p : NudgePolicy)
    → SameBut key m (record m { policies = put m.policies key p })
SameBut-keep key m p = record {
  phase_same = refl;
  limit_same = refl;
  iterations_same = refl;
  policies_same = λ other ne. rw (get-put, eq_of_ne _ _ ne);
}

SameBut-refl : (key : String) (m : ExitControl) → SameBut key m m
SameBut-refl key m = record {
  phase_same = refl;
  limit_same = refl;
  iterations_same = refl;
  policies_same = λ _ _. refl;
}

-- A policy within the budgets of a limit.
abbrev pub Fits : ℕ → NudgePolicy → Type 0
Fits max p = IsWithin p × (p.max_nudges ≡ max)

consult-Fits : (g : Gate) (max : ℕ) (p : NudgePolicy) → Fits max p → Fits max (consult g p).0
consult-Fits g max p (w, e) = (consult-IsWithin g p w, consult-max_nudges g p ∙ e)

-- What a hook does to the middleware: nothing, or it stores the invocation's policy, which stays within
-- its budgets.
pub data Kept (key : String) (m m' : ExitControl) : Type 0 where
  unchanged : m' ≡ m → Kept key m m'
  stored :
      (p : NudgePolicy)
      → ((max : ℕ) → Fits max (policy_of m key) → Fits max p)
      → m' ≡ keep_policy m key p
      → Kept key m m'

pub Kept-SameBut : {key : String} {m m' : ExitControl} → Kept key m m' → SameBut key m m'
Kept-SameBut {key} {m} (unchanged e) = rw e (SameBut-refl key m)
Kept-SameBut {key} {m} (stored p w e) = rw e (SameBut-keep key m p)

pub after_model-Kept :
    (c : Config) (s : AgentState) (m : ExitControl) → Kept c.key m (after_model c s m).0
unfolding after_model consult
after_model-Kept c s m = elim (Bool-cases (has_valid_finish m s)) [
  | inl valid ↦ unchanged (ground arith)
  | inr invalid ↦
      let g =
        planning_gate (latest_ai_text s.messages) (ends_with_tool_calls s.messages) s.has_plan in
      stored (consult g (policy_of m c.key)).0 (λ max. consult-Fits g max (policy_of m c.key))
        (ground arith)
]

govern_standard-keeps :
    (c : Config) (s : AgentState) (i : ℕ) (p : NudgePolicy) (m : ExitControl)
    → (govern_standard c s i p m).0
      ≡ keep_policy m c.key (try_standard (latest_ai_text s.messages) false p).0
unfolding govern_standard
govern_standard-keeps c s i p m = ground arith

govern_standard-Kept :
    (c : Config) (s : AgentState) (i : ℕ) (p : NudgePolicy) (m : ExitControl)
    → ((max : ℕ) → Fits max (policy_of m c.key) → Fits max p)
    → Kept c.key m (govern_standard c s i p m).0
unfolding consult
govern_standard-Kept c s i p m w =
    let g = standard_gate (latest_ai_text s.messages) false in
    stored (consult g p).0 (λ max h. consult-Fits g max p (w max h))
      (govern_standard-keeps c s i p m)

govern_no_finish_exit-Kept :
    (c : Config) (s : AgentState) (i : ℕ) (m : ExitControl)
    → Kept c.key m (govern_no_finish_exit c s i m).0
unfolding govern_no_finish_exit consult
govern_no_finish_exit-Kept c s i m = elim (Bool-cases (ends_with_tool_calls s.messages)) [
  | inl tools ↦ unchanged (ground arith)
  | inr idle ↦ elim (Option-cases (own_finish_payload m s)) [
    | inl none_own ↦
        rw (idle, govern_no_finish_exit, none_own)
          (govern_standard-Kept c s i (policy_of m c.key) m (λ max h. h))
    | inr (f, own) ↦
        let g = selfcheck_gate f in
        let (p, d) = consult g (policy_of m c.key) in
        let w = λ (max : ℕ). consult-Fits g max (policy_of m c.key) in
        elim (Option-cases d.text) [
          | inr (text, said) ↦ stored p w (ground arith)
          | inl silent ↦ elim (Bool-cases d.budget_exhausted) [
            | inl out ↦ stored p w (ground arith)
            | inr unspent ↦
                rw (idle, govern_no_finish_exit, own, silent, unspent)
                  (govern_standard-Kept c s i p m w)
          ]
        ]
  ]
]

pub after_agent-Kept :
    (c : Config) (s : AgentState) (m : ExitControl) → Kept c.key m (after_agent c s m).0
unfolding after_agent
after_agent-Kept c s m = elim (Bool-cases (has_valid_finish m s)) [
  | inl valid ↦ unchanged (ground arith)
  | inr invalid ↦ elim (Bool-cases (leb c.max_iterations (iteration_of m c.key))) [
    | inl over ↦ unchanged (ground arith)
    | inr under ↦
        rw (invalid, after_agent, under) (govern_no_finish_exit-Kept c s (iteration_of m c.key) m)
  ]
]
