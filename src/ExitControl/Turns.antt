-- ===== src/ExitControl/Turns.antt =====
-- The agent loop as langchain drives the hooks: before each model call `before_model`, after it
-- `after_model`; a jump goes back to the model, and so does a turn whose tools ran; else `after_agent`
-- answers whether the loop ends.
use graph_skill_runtime.Common.{
  ℕ, ◌+◌, ◌≤◌, ◌<◌, false, List, [], ◌∷◌, Option, none, some, ◌≡◌, ◌≢◌, refl, arith, eq_refl,
  length, All, ◌∙◌, ap,
}
use graph_skill_runtime.Common.Dict.{get, get-put}
use graph_skill_runtime.Nudge.{NudgeText}
use graph_skill_runtime.ExitControl.{
  AgentState, Config, ExitControl, Fatal, Outcome, proceed, jump, fatal, iteration_of,
  has_valid_finish, before_model, after_model, after_agent, or_else,
}
use graph_skill_runtime.ExitControl.Exits.{
  SameBut, Kept-SameBut, after_model-Kept, after_agent-Kept, after_agent-proceed,
}

-- The states that the hooks of one turn meet; `at_end` is `none` where tools ran and the loop goes on.
pub record Turn : Type 0 where
  pub before : AgentState
  pub answered : AgentState
  pub at_end : Option AgentState

pub data Ending : Type 0 where
  running ended : Ending
  failed : Fatal → Ending

-- What `after_model` and `after_agent` make of a turn; `go_on` is the rest of the loop.
unfoldable pub close :
    Outcome → (ExitControl → ExitControl × Ending) → ExitControl → ExitControl × Ending
close proceed go_on m = (m, ended)
close (jump text) go_on m = go_on m
close (fatal f) go_on m = (m, failed f)

unfoldable pub finish_turn :
    Config
    → Option AgentState
    → Outcome
    → (ExitControl → ExitControl × Ending)
    → ExitControl
    → ExitControl × Ending
unfolding close
finish_turn c at_end (jump text) go_on m = go_on m
finish_turn c at_end (fatal f) go_on m = (m, failed f)
finish_turn c none proceed go_on m = go_on m
finish_turn c (some s) proceed go_on m = let r = after_agent c s m in close r.2 go_on r.0

unfoldable pub start_turn :
    Config
    → Turn
    → Outcome
    → (ExitControl → ExitControl × Ending)
    → ExitControl
    → ExitControl × Ending
unfolding finish_turn
start_turn c t (fatal f) go_on m = (m, failed f)
start_turn c t (jump text) go_on m = go_on m
start_turn c t proceed go_on m =
    let r = after_model c t.answered m in finish_turn c t.at_end r.2 go_on r.0

unfoldable pub loop : Config → List Turn → ExitControl → ExitControl × Ending
unfolding start_turn
loop c [] m = (m, running)
loop c (t ∷ ts) m = let r = before_model c t.before m in start_turn c t r.1 (loop c ts) r.0

-- No hook of the turn meets a qualified marker of the phase.
abbrev pub AtEndUnfinished : ExitControl → Option AgentState → Type 0
AtEndUnfinished m none = Unit
AtEndUnfinished m (some s) = has_valid_finish m s ≡ false

pub record IsUnfinished (m : ExitControl) (t : Turn) : Type 0 where
  pub before_open : has_valid_finish m t.before ≡ false
  pub end_open : AtEndUnfinished m t.at_end

-- The marker test reads nothing of the middleware but its phase.
has_valid_finish-phase :
    (m m' : ExitControl) (s : AgentState)
    → m'.phase_name ≡ m.phase_name
    → has_valid_finish m' s ≡ has_valid_finish m s
unfolding has_valid_finish
has_valid_finish-phase m m' s e = ground arith

IsUnfinished-phase :
    (m m' : ExitControl) (t : Turn)
    → m'.phase_name ≡ m.phase_name
    → IsUnfinished m t
    → IsUnfinished m' t
IsUnfinished-phase m m' t e u = record {
  before_open = has_valid_finish-phase m m' t.before e ∙ u.before_open;
  end_open = go t.at_end u.end_open;
}
  where
    go : (o : Option AgentState) → AtEndUnfinished m o → AtEndUnfinished m' o
    go none h = tt
    go (some s) h = has_valid_finish-phase m m' s e ∙ h

All-IsUnfinished-phase :
    (m m' : ExitControl) (ts : List Turn)
    → m'.phase_name ≡ m.phase_name
    → All (IsUnfinished m) ts
    → All (IsUnfinished m') ts
All-IsUnfinished-phase m m' [] e h = tt
All-IsUnfinished-phase m m' (t ∷ ts) e h =
    (IsUnfinished-phase m m' t e h.0, All-IsUnfinished-phase m m' ts e h.1)

-- What a later turn starts from: the same phase, and the iteration count so far.
pub record Counted (c : Config) (m : ExitControl) (n : ℕ) (m' : ExitControl) : Type 0 where
  pub phase_kept : m'.phase_name ≡ m.phase_name
  pub count_is : iteration_of m' c.key ≡ n

module _ (c : Config) where
  before_model-count :
      (s : AgentState) (m : ExitControl)
      → Counted c m (iteration_of m c.key + 1) (before_model c s m).0
  unfolding before_model
  before_model-count s m = record { phase_kept = refl; count_is = rw (get-put, eq_refl) refl }

  SameBut-Counted :
      (m m' m'' : ExitControl) (n : ℕ) → SameBut c.key m' m'' → Counted c m n m' → Counted c m n m''
  SameBut-Counted m m' m'' n same h = record {
    phase_kept = same.phase_same ∙ h.phase_kept;
    count_is = ap (λ d. or_else 0 (get d c.key)) same.iterations_same ∙ h.count_is;
  }

  -- A property of endings that holds of failures, and of the rest of the loop from wherever a turn that
  -- did not end leaves the middleware, holds of the turn.
  module _ (P : ExitControl × Ending → Type 0) (go_on : ExitControl → ExitControl × Ending)
      (m : ExitControl) (n : ℕ) (on_fail : (m' : ExitControl) (f : Fatal) → P (m', failed f))
      (on_rest : (m' : ExitControl) → Counted c m n m' → P (go_on m')) where
    close_rule :
        (o : Outcome) (m' : ExitControl) → o ≢ proceed → Counted c m n m' → P (close o go_on m')
    unfolding close
    close_rule proceed m' ne h = absurd (ne refl)
    close_rule (jump text) m' ne h = on_rest m' h
    close_rule (fatal f) m' ne h = on_fail m' f

    finish_rule :
        (at_end : Option AgentState) (o : Outcome) (m' : ExitControl)
        → AtEndUnfinished m at_end
        → Counted c m n m'
        → P (finish_turn c at_end o go_on m')
    unfolding finish_turn
    finish_rule at_end (jump text) m' u h = on_rest m' h
    finish_rule at_end (fatal f) m' u h = on_fail m' f
    finish_rule none proceed m' u h = on_rest m' h
    finish_rule (some s) proceed m' u h =
        close_rule (after_agent c s m').2 (after_agent c s m').0
          (λ e.
            cc ((after_agent-proceed c s m').0.0 e, has_valid_finish-phase m m' s h.phase_kept, u))
          (SameBut-Counted m m' (after_agent c s m').0 n (Kept-SameBut (after_agent-Kept c s m')) h)

    start_rule :
        (t : Turn) (o : Outcome) (m' : ExitControl)
        → IsUnfinished m t
        → Counted c m n m'
        → P (start_turn c t o go_on m')
    unfolding start_turn
    start_rule t (fatal f) m' u h = on_fail m' f
    start_rule t (jump text) m' u h = on_rest m' h
    start_rule t proceed m' u h =
        finish_rule t.at_end (after_model c t.answered m').2 (after_model c t.answered m').0
          u.end_open
          (SameBut-Counted m m' (after_model c t.answered m').0 n
            (Kept-SameBut (after_model-Kept c t.answered m')) h)

  before_model-proceed :
      (s : AgentState) (m : ExitControl)
      → has_valid_finish m s ≡ false
      → (before_model c s m).1 ≡ proceed
      → iteration_of m c.key + 1 ≤ c.max_iterations
  unfolding before_model
  before_model-proceed s m u e = ground arith

  -- While no hook meets a qualified marker of the phase, the loop does not end with success.
  pub loop-ne-ended :
      (ts : List Turn) (m : ExitControl) → All (IsUnfinished m) ts → (loop c ts m).1 ≢ ended
  unfolding loop
  loop-ne-ended [] m u = λ e. cc
  loop-ne-ended (t ∷ ts) m u =
      let m1 = (before_model c t.before m).0 in
      let n = iteration_of m c.key + 1 in
      start_rule (λ r. r.1 ≢ ended) (loop c ts) m n (λ m' f e. cc)
        (λ m' h. loop-ne-ended ts m' (All-IsUnfinished-phase m m' ts h.phase_kept u.1)) t
        (before_model c t.before m).1 m1 u.0 (before_model-count t.before m)

  before_model-ne-jump :
      (s : AgentState) (m : ExitControl) (text : Option NudgeText)
      → (before_model c s m).1 ≢ jump text
  unfolding before_model
  before_model-ne-jump s m text e = ground arith

  abbrev Fails : ExitControl × Ending → Type 0
  Fails r = (f : Fatal) × (r.1 ≡ failed f)

  Fails-turn :
      (t : Turn) (ts : List Turn) (m : ExitControl)
      → IsUnfinished m t
      → ((m' : ExitControl)
          → Counted c m (iteration_of m c.key + 1) m'
          → iteration_of m c.key + 1 ≤ c.max_iterations
          → Fails (loop c ts m'))
      → (o : Outcome) → (before_model c t.before m).1 ≡ o
      → Fails (start_turn c t o (loop c ts) (before_model c t.before m).0)
  unfolding start_turn
  Fails-turn t ts m u ih (fatal f) e = (f, refl)
  Fails-turn t ts m u ih (jump text) e = absurd (before_model-ne-jump t.before m text e)
  Fails-turn t ts m u ih proceed e =
      start_rule Fails (loop c ts) m (iteration_of m c.key + 1) (λ m' f. (f, refl))
        (λ m' h. ih m' h (before_model-proceed t.before m u.before_open e)) t proceed
        (before_model c t.before m).0 u (before_model-count t.before m)

  -- Such a loop fails, and does not go on for ever: with at most `max_iterations` turns behind it, it
  -- has raised its fatal error by the time the turns pass that number.
  pub loop_fails :
      (ts : List Turn) (m : ExitControl)
      → All (IsUnfinished m) ts
      → iteration_of m c.key ≤ c.max_iterations
      → c.max_iterations < iteration_of m c.key + length ts
      → (f : Fatal) × ((loop c ts m).1 ≡ failed f)
  unfolding loop
  loop_fails [] m u low high = absurd (omega arith)
  loop_fails (t ∷ ts) m u low high =
      Fails-turn t ts m u.0
        (λ m' h small.
          loop_fails ts m' (All-IsUnfinished-phase m m' ts h.phase_kept u.1)
            (omega (arith, h.count_is)) (omega (arith, h.count_is)))
        (before_model c t.before m).1 refl
