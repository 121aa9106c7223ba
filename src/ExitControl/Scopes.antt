-- ===== src/ExitControl/Scopes.antt =====
-- Invocations share the middleware and not their budgets.
use graph_skill_runtime.Common.{String, ◌≡◌, ◌≢◌, refl, eq_of_ne, ap}
use graph_skill_runtime.Common.Dict.{get, get-put}
use graph_skill_runtime.ExitControl.{
  AgentState, Config, ExitControl, iteration_of, policy_of, before_model, after_model, after_agent,
  or_else,
}
use graph_skill_runtime.ExitControl.Exits.{
  SameBut, Kept-SameBut, after_model-Kept, after_agent-Kept,
}

-- What an invocation reads of the middleware.
pub record SameScope (other : String) (m m' : ExitControl) : Type 0 where
  pub iteration_same : iteration_of m' other ≡ iteration_of m other
  pub policy_same : policy_of m' other ≡ policy_of m other

SameBut-SameScope :
    (key other : String) (m m' : ExitControl)
    → key ≢ other
    → SameBut key m m'
    → SameScope other m m'
SameBut-SameScope key other m m' ne s = record {
  iteration_same = ap (λ d. or_else 0 (get d other)) s.iterations_same;
  policy_same = cc (s.limit_same, s.policies_same other ne);
}

-- No hook run for one invocation changes the iteration count or the nudge policy of another.
pub hooks_are_scoped :
    (c : Config) (s : AgentState) (m : ExitControl) (other : String)
    → c.key ≢ other
    → SameScope other m (before_model c s m).0
      × SameScope other m (after_model c s m).0
      × SameScope other m (after_agent c s m).0
unfolding before_model
hooks_are_scoped c s m other ne = (
  record { iteration_same = rw (get-put, eq_of_ne _ _ ne); policy_same = refl },
  SameBut-SameScope c.key other m _ ne (Kept-SameBut (after_model-Kept c s m)),
  SameBut-SameScope c.key other m _ ne (Kept-SameBut (after_agent-Kept c s m)),
)
