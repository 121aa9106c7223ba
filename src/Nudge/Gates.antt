-- ===== src/Nudge/Gates.antt =====
-- When each gate nudges.
use graph_skill_runtime.Common.{
  ◌*◌, ◌<◌, String, Bool, true, false, none, ◌≡◌, ◌≢◌, arith, eq_iff, ◌↔◌, ◌⊎◌,
}
use graph_skill_runtime.Nudge.{
  NudgeKind, planning, selfcheck, standard, NudgePolicy, FinishPayload, counter, consume, spend,
  try_selfcheck, try_planning, try_standard, echoed, has_structured_selfcheck, status_is,
}

-- Both budgets have room for a nudge of this kind.
abbrev pub HasRoom : NudgeKind → NudgePolicy → Type 0
HasRoom kind p = (counter p kind < p.max_nudges) × (p.total < p.max_nudges * 2)

-- Turns of text with no tool call are what the standard gate answers: it nudges and counts exactly
-- where both budgets have room, and else reports the budget exhausted. On any other turn it declines.
pub try_standard_lem :
    (content : String) (tools : Bool) (p : NudgePolicy)
    → (((try_standard content tools p).1.counted ≡ true)
        ↔ ((content ≢ "") × (tools ≡ false) × HasRoom standard p))
      × (((try_standard content tools p).1.budget_exhausted ≡ true)
          ↔ ((content ≢ "") × (tools ≡ false) × ¬ HasRoom standard p))
unfolding try_standard spend consume
try_standard_lem content tools p = ground (arith, eq_iff content "")

-- The planning gate does the same for such turns while working memory has no plan.
pub try_planning_lem :
    (content : String) (tools plan : Bool) (p : NudgePolicy)
    → (((try_planning content tools plan p).1.counted ≡ true)
        ↔ ((content ≢ "") × (tools ≡ false) × (plan ≡ false) × HasRoom planning p))
      × (((try_planning content tools plan p).1.budget_exhausted ≡ true)
          ↔ ((content ≢ "") × (tools ≡ false) × (plan ≡ false) × ¬ HasRoom planning p))
unfolding try_planning spend consume
try_planning_lem content tools plan p = ground (arith, eq_iff content "")

-- A payload that failed validation is echoed and costs nothing, one that clears the self-check bar is
-- let through, and any other earns a self-check nudge within budget.
pub try_selfcheck_lem :
    (f : FinishPayload) (p : NudgePolicy)
    → (((try_selfcheck f p).1.counted ≡ true) ↔ (
        (status_is "failed" f.schema_validation ≡ false)
        × (has_structured_selfcheck f ≡ false)
        × HasRoom selfcheck p))
      × (status_is "failed" f.schema_validation ≡ true → try_selfcheck f p ≡ (p, echoed f p))
      × (((try_selfcheck f p).1.text ≡ none) ↔ (
          (status_is "failed" f.schema_validation ≡ false)
          × ((has_structured_selfcheck f ≡ true) ⊎ ¬ HasRoom selfcheck p)))
unfolding try_selfcheck spend consume
try_selfcheck_lem f p = ground arith
