-- ===== src/ExitControl/Budgets/Given.antt =====
-- What an invocation was given stands in its counters, which stay within the budgets.
use graph_skill_runtime.Common.{
  ℕ, ◌+◌, ◌≤◌, String, true, List, [], ◌∷◌, ◌≡◌, refl, arith, ap, ◌==◌, Bool-cases, inl, inr,
  same_of_eq, ne_of_eq,
}
use mathlib.Core.Path.{subst}
use graph_skill_runtime.Common.Dict.{get, get-put}
use graph_skill_runtime.Nudge.{NudgeKind, planning, standard, NudgePolicy, counter}
use graph_skill_runtime.ExitControl.{ExitControl, policy_of, before_model}
use graph_skill_runtime.ExitControl.Exits.{
  Fits, Kept, unchanged, stored, after_model-Kept, after_agent-Kept,
}
use graph_skill_runtime.ExitControl.Budgets.{
  Hook, before_model_hook, after_model_hook, after_agent_hook, Call, serve, nudges_in, given,
  served, is_budgeted, serve-own, serve-other,
}

-- Every invocation's policy is within the budgets of the middleware's limit.
pub record HasBudgets (max : ℕ) (m : ExitControl) : Type 0 where
  pub limit : m.max_nudges ≡ max
  pub at : (key : String) → Fits max (policy_of m key)

HasBudgets-Kept :
    {key : String} {m m' : ExitControl} (max : ℕ)
    → Kept key m m'
    → HasBudgets max m
    → HasBudgets max m'
HasBudgets-Kept {key} {m} max (unchanged e) h = rw e h
HasBudgets-Kept {key} {m} max (stored p w e) h = rw e (record {
  limit = h.limit;
  at = λ other. elim (Bool-cases (key == other)) [
    | inl same ↦ rw (get-put, same) (w max (h.at key))
    | inr ne ↦ rw (get-put, ne) (h.at other)
  ];
})

serve-HasBudgets :
    (h : Hook) (call : Call) (m : ExitControl) (max : ℕ)
    → call.hook ≡ h
    → HasBudgets max m
    → HasBudgets max (serve call m).0
unfolding serve before_model
serve-HasBudgets before_model_hook call m max e v =
    rw (e, serve) (record { limit = v.limit; at = v.at })
serve-HasBudgets after_model_hook call m max e v =
    rw (e, serve) (HasBudgets-Kept max (after_model-Kept call.config call.state m) v)
serve-HasBudgets after_agent_hook call m max e v =
    rw (e, serve) (HasBudgets-Kept max (after_agent-Kept call.config call.state m) v)

-- What an invocation was given stands in its counter, on top of what stood there.
given-counter :
    (kind : NudgeKind) (key : String) (calls : List Call) (m : ExitControl)
    → is_budgeted kind ≡ true
    → given kind key calls m + counter (policy_of m key) kind
      ≡ counter (policy_of (served calls m) key) kind
unfolding given served
given-counter kind key [] m b = omega arith
given-counter kind key (call ∷ calls) m b =
    let rest = given-counter kind key calls (serve call m).0 b in
    elim (Bool-cases (call.config.key == key)) [
      | inl e ↦
          let here = serve-own call.hook call m kind refl b in
          let here' =
            subst
              (λ (k : String).
                counter (policy_of (serve call m).0 k) kind
                ≡ nudges_in kind (serve call m).1 + counter (policy_of m k) kind)
              (same_of_eq call.config.key key e) here in
          rw e (omega (arith, rest, here'))
      | inr e ↦
          let same =
            ap (λ (p : NudgePolicy). counter p kind)
              (serve-other call.hook call m key refl (ne_of_eq call.config.key key e)) in
          rw e (omega (arith, rest, same))
    ]

served-HasBudgets :
    (calls : List Call) (m : ExitControl) (max : ℕ)
    → HasBudgets max m
    → HasBudgets max (served calls m)
unfolding served
served-HasBudgets [] m max v = v
served-HasBudgets (call ∷ calls) m max v =
    served-HasBudgets calls (serve call m).0 max (serve-HasBudgets call.hook call m max refl v)

-- ExitControlMiddleware.__init__
abbrev pub new_gate : String → ℕ → ExitControl
new_gate phase_name max = record {
  phase_name = phase_name;
  max_nudges = max;
  iterations = [];
  policies = [];
}

new_gate-HasBudgets : (phase_name : String) (max : ℕ) → HasBudgets max (new_gate phase_name max)
unfolding get
new_gate-HasBudgets phase_name max = record { limit = refl; at = λ key. (omega arith, refl) }

-- However the hooks of a new middleware are called, for whatever invocations, one invocation is given at
-- most max_nudges planning nudges, and at most max_nudges standard ones.
pub given_bounds :
    (phase_name : String) (max : ℕ) (calls : List Call) (key : String)
    → (given planning key calls (new_gate phase_name max) ≤ max)
      × (given standard key calls (new_gate phase_name max) ≤ max)
given_bounds phase_name max calls key =
    let m = new_gate phase_name max in
    let (w, limit) = (served-HasBudgets calls m max (new_gate-HasBudgets phase_name max)).at key in
    let a = given-counter planning key calls m refl in
    let b = given-counter standard key calls m refl in
    (omega (arith, a, limit, w.planning_le), omega (arith, b, limit, w.standard_le))
